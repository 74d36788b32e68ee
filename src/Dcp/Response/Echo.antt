-- ===== src/Dcp/Response/Echo.antt =====
-- src/dcp.rs: what the parsers make of the frames that the controller itself builds.
use profinet_rs.Prelude.{
  ℕ, suc, ◌%◌, ◌≤◌, ◌≡◌, refl, sym, ap, ◌∙◌, arith, Bool, true, false, not, ◌||◌, ◌==◌, ltb, leb,
  if◌then◌else◌, Option, none, some, [], ◌∷◌, ◌++◌, append_assoc, length, length-append, Bytes,
  IsU16, IsU32, byte_at, u16_at, u32_at, slice, be16, be32, u16_at-be16, u32_at-be32, slice_rest,
  Exec, ok, err, ◌>>=◌, to_option, set_unsupported, not_dcp_response,
}
use profinet_rs.Util.Vlan.{strip_eth-tagged}
use profinet_rs.Dcp.Request.{
  profinet_ethertype, dcp_get_set_frame_id, dcp_service_id_set, eth_frame, dcp_header, set_block,
  set_request,
}
use profinet_rs.Dcp.Response.{
  dcp_payload, xid_of, parse_dcp_xid, set_blocks, set_payload, parse_set_response, get_blocks,
  get_payload,
}

-- The Ethernet header comes off.
pub dcp_payload-eth_frame :
    (dst src payload : Bytes)
    → length dst ≡ 6
    → length src ≡ 6
    → dcp_payload (eth_frame dst src profinet_ethertype payload) ≡ ok payload
unfolding dcp_payload eth_frame
dcp_payload-eth_frame dst src payload d s =
    rw (sym (append_assoc dst src (be16 profinet_ethertype ++ payload))) (
      strip_eth-tagged (dst ++ src) [] profinet_ethertype payload
        (omega (arith, length-append dst src)) tt (omega arith) refl)

-- What the parsers read of a DCP header, whose fields fit their words.
pub record ReadsHeader (frame_id service_id service_type xid len : ℕ) (payload blocks : Bytes)
    : Type 0 where
  pub long : 12 ≤ length payload
  pub id_read : u16_at payload 0 ≡ ok frame_id
  pub service_read : byte_at payload 2 ≡ ok service_id
  pub type_read : byte_at payload 3 ≡ ok service_type
  pub xid_read : u32_at payload 4 ≡ ok xid
  pub length_read : u16_at payload 10 ≡ ok len
  pub blocks_read : slice payload 12 (length payload) ≡ ok blocks

pub dcp_header-ReadsHeader :
    (frame_id service_id service_type xid resp len : ℕ) (blocks : Bytes)
    → IsU16 frame_id
    → IsU32 xid
    → IsU16 len
    → ReadsHeader frame_id service_id service_type xid len
        (dcp_header frame_id service_id service_type xid resp len blocks)
        blocks
unfolding dcp_header byte_at
dcp_header-ReadsHeader frame_id service_id service_type xid resp len blocks f x l = record {
  long = omega arith;
  id_read = u16_at-be16 [] _ 0 frame_id refl f;
  service_read = refl;
  type_read = refl;
  xid_read = u32_at-be32 (be16 frame_id ++ (service_id ∷ service_type ∷ [])) _ 4 xid refl x;
  length_read =
      u16_at-be16 (be16 frame_id ++ ((service_id ∷ service_type ∷ []) ++ (be32 xid ++ be16 resp))) _
        10 len refl l;
  blocks_read =
      slice_rest
        (be16 frame_id
          ++ ((service_id ∷ service_type ∷ []) ++ (be32 xid ++ (be16 resp ++ be16 len))))
        blocks 12 (length (dcp_header frame_id service_id service_type xid resp len blocks)) refl
        (omega arith);
}

module _ {frame_id service_id service_type xid len : ℕ} {payload blocks : Bytes}
    (h : ReadsHeader frame_id service_id service_type xid len payload blocks) where
  not_short : ltb (length payload) 12 ≡ false
  not_short = let n = h.long in ground arith

  xid_of_lem : xid_of (some payload) ≡ ok (some xid)
  unfolding xid_of
  xid_of_lem =
      let n = h.long in
      let enough : leb 8 (length payload) ≡ true = ground arith in rw (enough, h.xid_read)

  -- `set_payload` and `get_payload` by the fields of the header.
  pub set_payload_lem :
      (expected_xid : ℕ)
      → set_payload expected_xid payload ≡ (
          if not (frame_id == dcp_get_set_frame_id)
            || not (service_id == dcp_service_id_set)
            || not (xid == expected_xid)
          then ok none
          else if service_type == 5
          then err set_unsupported
          else if service_type == 1
          then set_blocks (suc (length blocks)) blocks len
          else ok none)
  unfolding set_payload
  set_payload_lem expected_xid =
      rw (
        not_short, h.id_read, h.service_read, h.type_read, h.xid_read, h.length_read, h.blocks_read,
      )

  pub get_payload_lem :
      (option suboption expected_xid : ℕ)
      → get_payload option suboption expected_xid payload ≡ (
          if not (frame_id == dcp_get_set_frame_id) || not (xid == expected_xid)
          then ok none
          else if service_type == 1
          then get_blocks option suboption (suc (length blocks)) blocks len
          else err (not_dcp_response service_type))
  unfolding get_payload
  get_payload_lem option suboption expected_xid =
      rw (not_short, h.id_read, h.type_read, h.xid_read, h.length_read, h.blocks_read)

-- The controller's own SET request, echoed to it by a switch or a capture, is no answer: the transaction
-- id reads back, and the parser of SET answers skips the frame, whatever the option, the qualifier and the value.
pub set_request-echo :
    (src_mac dst_mac : Bytes) (xid option suboption qualifier : ℕ) (value : Bytes)
    → length src_mac ≡ 6
    → length dst_mac ≡ 6
    → IsU32 xid
    → let frame = set_request src_mac dst_mac xid option suboption qualifier value in
      (parse_dcp_xid frame ≡ ok (some xid)) × (parse_set_response frame xid ≡ ok none)
unfolding set_request parse_dcp_xid parse_set_response
set_request-echo src_mac dst_mac xid option suboption qualifier value s d x =
    let block = set_block option suboption qualifier value in
    let len = length block % 65536 in
    let off = dcp_payload-eth_frame dst_mac src_mac (request_header xid len block) d s in
    let h =
      dcp_header-ReadsHeader dcp_get_set_frame_id dcp_service_id_set 0 xid 0 len block (omega arith)
        x (omega arith) in
    (
      ap (λ m. to_option m >>= xid_of) off ∙ xid_of_lem h,
      ap (λ m. m >>= set_payload xid) off ∙ set_payload_lem h xid ∙ skipped (not (xid == xid)),
    )
  where
    skip_it : Exec (Option ℕ)
    skip_it = ok none

    request_header : ℕ → ℕ → Bytes → Bytes
    request_header x len block = dcp_header dcp_get_set_frame_id dcp_service_id_set 0 x 0 len block

    skipped : (t : Bool) → (if t then ok none else ok none) ≡ skip_it
    skipped true = refl
    skipped false = refl
