-- ===== src/Dcp/Request.antt =====
-- src/dcp.rs: the request frames. A `[u8; 6]` is a list here; its length is a hypothesis where it counts.
use profinet_rs.Prelude.{
  ℕ, ◌+◌, ◌/◌, ◌%◌, max, Bool, false, ◌==◌, if◌then◌else◌, [], ◌∷◌, ◌++◌, length, Bytes, be16, be32,
}

abbrev pub profinet_ethertype : ℕ
profinet_ethertype = 0x8892

abbrev pub dcp_multicast_mac : Bytes
dcp_multicast_mac = 0x01 ∷ 0x0E ∷ 0xCF ∷ 0x00 ∷ 0x00 ∷ 0x00 ∷ []

abbrev pub dcp_identify_request_frame_id : ℕ
dcp_identify_request_frame_id = 0xFEFE

abbrev pub dcp_identify_response_frame_id : ℕ
dcp_identify_response_frame_id = 0xFEFF

abbrev pub dcp_get_set_frame_id : ℕ
dcp_get_set_frame_id = 0xFEFD

abbrev pub dcp_service_id_get : ℕ
dcp_service_id_get = 3

abbrev pub dcp_service_id_set : ℕ
dcp_service_id_set = 4

abbrev pub dcp_service_id_identify : ℕ
dcp_service_id_identify = 5

abbrev pub dcp_response_delay : ℕ
dcp_response_delay = 0x80

unfoldable pub eth_frame : Bytes → Bytes → ℕ → Bytes → Bytes
eth_frame dst src ethertype payload = dst ++ (src ++ (be16 ethertype ++ payload))

unfoldable pub dcp_header : ℕ → ℕ → ℕ → ℕ → ℕ → ℕ → Bytes → Bytes
dcp_header frame_id service_id service_type xid resp len payload =
    be16 frame_id
    ++ ((service_id ∷ service_type ∷ []) ++ (be32 xid ++ (be16 resp ++ (be16 len ++ payload))))

unfoldable pub block_request : ℕ → ℕ → ℕ → Bytes → Bytes
block_request option suboption len payload = (option ∷ suboption ∷ []) ++ (be16 len ++ payload)

unfoldable pub identify_all_request : Bytes → ℕ → Bytes
unfolding eth_frame dcp_header block_request
identify_all_request src_mac xid =
    let block = block_request 0xFF 0xFF 0 [] in
    eth_frame dcp_multicast_mac src_mac profinet_ethertype (
      dcp_header dcp_identify_request_frame_id dcp_service_id_identify 0 xid dcp_response_delay
        (length block % 65536) block)

-- The block of a SET request, with its pad byte. `(value.len() + 2) as u16` cuts to 16 bits.
unfoldable pub set_block : ℕ → ℕ → ℕ → Bytes → Bytes
unfolding block_request
set_block option suboption qualifier value =
    block_request option suboption ((length value + 2) % 65536) (be16 qualifier ++ value)
    ++ (if length value % 2 == 1 then 0 ∷ [] else [])

unfoldable pub set_request : Bytes → Bytes → ℕ → ℕ → ℕ → ℕ → Bytes → Bytes
unfolding eth_frame dcp_header set_block
set_request src_mac dst_mac xid option suboption qualifier value =
    let block = set_block option suboption qualifier value in
    eth_frame dst_mac src_mac profinet_ethertype
      (dcp_header dcp_get_set_frame_id dcp_service_id_set 0 xid 0 (length block % 65536) block)

abbrev pub permanence : Bool → ℕ
permanence permanent = if permanent then 1 else 0

-- A `&str` is its bytes.
unfoldable pub set_name_request_qualified : Bytes → Bytes → ℕ → Bytes → Bool → Bytes
unfolding set_request
set_name_request_qualified src_mac dst_mac xid name permanent =
    set_request src_mac dst_mac xid 2 2 (permanence permanent) name

unfoldable pub set_name_request : Bytes → Bytes → ℕ → Bytes → Bytes
unfolding set_name_request_qualified
set_name_request src_mac dst_mac xid name =
    set_name_request_qualified src_mac dst_mac xid name false

unfoldable pub set_ip_request : Bytes → Bytes → ℕ → Bytes → Bytes → Bytes → Bytes
unfolding set_request
set_ip_request src_mac dst_mac xid ip netmask gateway =
    set_request src_mac dst_mac xid 1 2 0 (ip ++ (netmask ++ gateway))

unfoldable pub set_ip_request_qualified : Bytes → Bytes → ℕ → Bytes → Bytes → Bytes → Bool → Bytes
unfolding set_request
set_ip_request_qualified src_mac dst_mac xid ip netmask gateway permanent =
    set_request src_mac dst_mac xid 1 2 (permanence permanent) (ip ++ (netmask ++ gateway))

unfoldable pub get_request : Bytes → Bytes → ℕ → ℕ → ℕ → Bytes
unfolding eth_frame dcp_header block_request
get_request src_mac dst_mac xid option suboption = eth_frame dst_mac src_mac profinet_ethertype (
    dcp_header dcp_get_set_frame_id dcp_service_id_get 0 xid 0 2
      (block_request option suboption 0 []))

unfoldable pub set_param_request : Bytes → Bytes → ℕ → ℕ → ℕ → Bytes → Bytes
unfolding set_request
set_param_request src_mac dst_mac xid option suboption value =
    set_request src_mac dst_mac xid option suboption 0 value

unfoldable pub signal_request : Bytes → Bytes → ℕ → ℕ → Bytes
unfolding set_request
signal_request src_mac dst_mac xid duration_ms =
    set_request src_mac dst_mac xid 5 3 1 (be16 (max (duration_ms / 100) 1 % 65536))

unfoldable pub reset_request : Bytes → Bytes → ℕ → ℕ → Bytes
unfolding set_request
reset_request src_mac dst_mac xid qualifier = set_request src_mac dst_mac xid 5 6 qualifier []

unfoldable pub factory_reset_request : Bytes → Bytes → ℕ → Bytes
unfolding set_request
factory_reset_request src_mac dst_mac xid = set_request src_mac dst_mac xid 5 5 0 []
