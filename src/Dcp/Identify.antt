-- ===== src/Dcp/Identify.antt =====
-- src/dcp.rs: `parse_identify_response`, and `String::from_utf8_lossy`, which it uses for names.
pub mod Utf8
pub mod Total
use profinet_rs.Prelude.{
  ℕ, zero, suc, ◌+◌, ◌-◌, min, ◌&&◌, ◌||◌, ◌==◌, ltb, leb, if◌then◌else◌, Option, none, some, [],
  ◌∷◌, length, replicate, Bytes, byte_at, u16_at, slice, Exec, ok, err, stuck, ◌>>=◌, ◌>>◌,
  dcp_too_short, not_dcp_response, not_identify_response, ethernet_too_short,
}
use profinet_rs.Dcp.Request.{dcp_identify_response_frame_id}
use profinet_rs.Dcp.Response.{dcp_payload, even_up}
use Utf8.{from_utf8_lossy}

-- `DcpDevice`. A `String` is its UTF-8 bytes.
pub record DcpDevice : Type 0 where
  pub mac : Bytes
  pub name : Bytes
  pub device_type : Bytes
  pub ip : Bytes
  pub netmask : Bytes
  pub gateway : Bytes
  pub vendor_id : ℕ
  pub device_id : ℕ
  pub role : ℕ
  pub ip_block_info : Option ℕ

-- `DcpDevice { mac: src, ..DcpDevice::default() }`
abbrev pub new_device : Bytes → DcpDevice
new_device mac = record {
  mac = mac;
  name = [];
  device_type = [];
  ip = replicate 4 0;
  netmask = replicate 4 0;
  gateway = replicate 4 0;
  vendor_id = 0;
  device_id = 0;
  role = 0;
  ip_block_info = none;
}

-- The bytes up to the last one that is not 0: the `rposition` of the source.
unfoldable pub trim_zeros : Bytes → Bytes
trim_zeros [] = []
trim_zeros (b ∷ bs) = put (trim_zeros bs)
  where
    put : Bytes → Bytes
    put [] = if b == 0 then [] else b ∷ []
    put (x ∷ xs) = b ∷ x ∷ xs

-- The `match` on a block; `blocks` starts with the block's header.
unfoldable pub apply_block : ℕ → ℕ → Bytes → Bytes → DcpDevice → Exec DcpDevice
unfolding trim_zeros
apply_block option suboption blocks block_payload device =
    if option == 2 && suboption == 1
    then ok (record device { device_type = from_utf8_lossy (trim_zeros block_payload) })
    else (if option == 2 && suboption == 2
        then ok (record device { name = from_utf8_lossy block_payload })
        else (if option == 1 && suboption == 2 && leb 12 (length block_payload)
            then (do
              info ← u16_at blocks 4
              ip ← slice block_payload 0 4
              netmask ← slice block_payload 4 8
              gateway ← slice block_payload 8 12
              ok (record device {
                ip_block_info = some info;
                ip = ip;
                netmask = netmask;
                gateway = gateway;
              }))
            else (if option == 2 && suboption == 3 && leb 4 (length block_payload)
                then (do
                  vendor_id ← u16_at block_payload 0
                  device_id ← u16_at block_payload 2
                  ok (record device { vendor_id = vendor_id; device_id = device_id }))
                else (if option == 2 && suboption == 4 && ltb 0 (length block_payload)
                    then (byte_at block_payload 0 >>= λ role. ok (record device { role = role }))
                    else ok device))))

-- The `while` of `parse_identify_response`.
unfoldable pub identify_blocks : ℕ → Bytes → ℕ → DcpDevice → Exec DcpDevice
unfolding apply_block
identify_blocks zero blocks len device = stuck
identify_blocks (suc fuel) blocks len device =
    if leb len 6 || ltb (length blocks) 6 then ok device else (do
      option ← byte_at blocks 0
      suboption ← byte_at blocks 1
      block_length ← u16_at blocks 2
      block_payload ← slice blocks 6 (min (6 + (block_length - 2)) (length blocks))
      next ← apply_block option suboption blocks block_payload device
      rest ← slice blocks (min (4 + even_up block_length) (length blocks)) (length blocks)
      identify_blocks fuel rest (len - (4 + even_up block_length)) next)

unfoldable pub identify_payload : Bytes → Bytes → Exec DcpDevice
unfolding identify_blocks
identify_payload src payload =
    if ltb (length payload) 12 then err (dcp_too_short (length payload)) else (do
      frame_id ← u16_at payload 0
      service_type ← byte_at payload 3
      len ← u16_at payload 10
      blocks ← slice payload 12 (length payload)
      if frame_id == dcp_identify_response_frame_id
          then (if service_type == 1
              then identify_blocks (suc (length blocks)) blocks len (new_device src)
              else err (not_dcp_response service_type))
          else err (not_identify_response frame_id))

unfoldable pub parse_identify_response : Bytes → Exec DcpDevice
unfolding dcp_payload identify_payload
parse_identify_response frame =
    if ltb (length frame) 14
    then err (ethernet_too_short (length frame))
    else (do src ← slice frame 6 12; payload ← dcp_payload frame; identify_payload src payload)
