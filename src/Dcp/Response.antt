-- ===== src/Dcp/Response.antt =====
-- src/dcp.rs: the transaction id, and the answers to SET and GET requests. `remaining` and `length` are
-- `i32` in the source; they are read by `>` only, so a difference below 0 is 0 here.
pub mod Total
pub mod Echo
pub mod Answer
pub mod GetAnswer
use profinet_rs.Prelude.{
  ℕ, zero, suc, ◌+◌, ◌-◌, ◌%◌, min, not, ◌&&◌, ◌||◌, ◌==◌, ltb, leb, if◌then◌else◌, Option, none,
  some, [], ◌∷◌, length, Bytes, byte_at, u16_at, u32_at, slice, Exec, ok, err, stuck, ◌>>=◌, ◌>>◌,
  to_option, dcp_too_short, set_unsupported, not_dcp_response,
}
use profinet_rs.Util.{strip_eth}
use profinet_rs.Dcp.Request.{profinet_ethertype, dcp_get_set_frame_id, dcp_service_id_set}

unfoldable pub dcp_payload : Bytes → Exec Bytes
unfolding strip_eth
dcp_payload frame = strip_eth frame profinet_ethertype

-- `dcp_payload(frame).ok()?` and the test of the length.
unfoldable pub xid_of : Option Bytes → Exec (Option ℕ)
xid_of none = ok none
xid_of (some payload) =
    if leb 8 (length payload) then (u32_at payload 4 >>= λ xid. ok (some xid)) else ok none

unfoldable pub parse_dcp_xid : Bytes → Exec (Option ℕ)
unfolding dcp_payload xid_of
parse_dcp_xid frame = to_option (dcp_payload frame) >>= xid_of

-- A length rounded up to the next even number.
abbrev pub even_up : ℕ → ℕ
even_up n = if n % 2 == 1 then n + 1 else n

-- The BlockError byte of a Control/Response block.
unfoldable pub block_error : Bytes → Exec ℕ
block_error [] = ok 0
block_error (a ∷ []) = ok a
block_error (a ∷ b ∷ []) = ok a
block_error (a ∷ b ∷ c ∷ rest) = ok c

-- The `while` of `parse_set_response`.
unfoldable pub set_blocks : ℕ → Bytes → ℕ → Exec (Option ℕ)
unfolding block_error
set_blocks zero blocks remaining = stuck
set_blocks (suc fuel) blocks remaining =
    if leb remaining 4 || ltb (length blocks) 4 then ok (some 0) else (do
      option ← byte_at blocks 0
      suboption ← byte_at blocks 1
      block_length ← u16_at blocks 2
      block_payload ← slice blocks 4 (min (4 + block_length) (length blocks))
      rest ← slice blocks (min (4 + even_up block_length) (length blocks)) (length blocks)
      if option == 5 && suboption == 4
          then (block_error block_payload >>= λ e. ok (some e))
          else set_blocks fuel rest (remaining - (4 + even_up block_length)))

-- `parse_set_response` behind the Ethernet header. A round takes four bytes of the payload, so its
-- length is fuel enough.
unfoldable pub set_payload : ℕ → Bytes → Exec (Option ℕ)
unfolding set_blocks
set_payload expected_xid payload = if ltb (length payload) 12 then ok none else (do
  frame_id ← u16_at payload 0
  service_id ← byte_at payload 2
  service_type ← byte_at payload 3
  xid ← u32_at payload 4
  remaining ← u16_at payload 10
  blocks ← slice payload 12 (length payload)
  if not (frame_id == dcp_get_set_frame_id)
        || not (service_id == dcp_service_id_set)
        || not (xid == expected_xid)
      then ok none
      else (if service_type == 5
          then err set_unsupported
          else (if service_type == 1
              then set_blocks (suc (length blocks)) blocks remaining
              else ok none)))

unfoldable pub parse_set_response : Bytes → ℕ → Exec (Option ℕ)
unfolding dcp_payload set_payload
parse_set_response frame expected_xid = dcp_payload frame >>= set_payload expected_xid

-- The `while` of `parse_get_response`.
unfoldable pub get_blocks : ℕ → ℕ → ℕ → Bytes → ℕ → Exec (Option Bytes)
get_blocks option suboption zero blocks len = stuck
get_blocks option suboption (suc fuel) blocks len =
    if leb len 6 || ltb (length blocks) 6 then ok none else (do
      block_option ← byte_at blocks 0
      block_suboption ← byte_at blocks 1
      block_length ← u16_at blocks 2
      block_payload ← slice blocks 6 (min (6 + (block_length - 2)) (length blocks))
      rest ← slice blocks (min (4 + even_up block_length) (length blocks)) (length blocks)
      if block_option == option && block_suboption == suboption
          then ok (some block_payload)
          else get_blocks option suboption fuel rest (len - (4 + even_up block_length)))

unfoldable pub get_payload : ℕ → ℕ → ℕ → Bytes → Exec (Option Bytes)
unfolding get_blocks
get_payload option suboption expected_xid payload =
    if ltb (length payload) 12 then err (dcp_too_short (length payload)) else (do
      frame_id ← u16_at payload 0
      service_type ← byte_at payload 3
      xid ← u32_at payload 4
      len ← u16_at payload 10
      blocks ← slice payload 12 (length payload)
      if not (frame_id == dcp_get_set_frame_id) || not (xid == expected_xid)
          then ok none
          else (if service_type == 1
              then get_blocks option suboption (suc (length blocks)) blocks len
              else err (not_dcp_response service_type)))

unfoldable pub parse_get_response : Bytes → ℕ → ℕ → ℕ → Exec (Option Bytes)
unfolding dcp_payload get_payload
parse_get_response frame option suboption expected_xid =
    dcp_payload frame >>= get_payload option suboption expected_xid
