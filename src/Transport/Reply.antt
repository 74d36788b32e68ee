-- ===== src/Transport/Reply.antt =====
-- src/transport.rs: the NDR header and the record header of an answer.
pub mod Record
pub mod RoundTrip
use profinet_rs.Prelude.{
  ℕ, Bool, false, not, ◌==◌, ltb, if◌then◌else◌, length, Bytes, slice, Exec, ok, err, ◌>>=◌, ◌>>◌,
  nrd_too_short, iod_too_short, pnio_status,
}
use profinet_rs.Transport.Words.{rd_u16, rd_u32}

pub record ParsedNrd : Type 0 where
  pub args_status : ℕ
  pub args_length : ℕ
  pub maximum_count : ℕ
  pub offset : ℕ
  pub actual_count : ℕ
  pub payload : Bytes

unfoldable pub parse_nrd : Bytes → Bool → Exec ParsedNrd
parse_nrd d le = if ltb (length d) 20 then err (nrd_too_short (length d)) else (do
  args_status ← rd_u32 d 0 le
  args_length ← rd_u32 d 4 le
  maximum_count ← rd_u32 d 8 le
  offset ← rd_u32 d 12 le
  actual_count ← rd_u32 d 16 le
  payload ← slice d 20 (length d)
  ok (record {
    args_status = args_status;
    args_length = args_length;
    maximum_count = maximum_count;
    offset = offset;
    actual_count = actual_count;
    payload = payload;
  }))

pub record ParsedIod : Type 0 where
  pub block_type : ℕ
  pub block_length : ℕ
  pub sequence_number : ℕ
  pub ar_uuid : Bytes
  pub api : ℕ
  pub slot : ℕ
  pub subslot : ℕ
  pub index : ℕ
  pub len : ℕ
  pub payload : Bytes

unfoldable pub parse_iod_header : Bytes → Exec ParsedIod
parse_iod_header d = if ltb (length d) 64 then err (iod_too_short (length d)) else (do
  ar_uuid ← slice d 8 24
  block_type ← rd_u16 d 0 false
  block_length ← rd_u16 d 2 false
  sequence_number ← rd_u16 d 6 false
  api ← rd_u32 d 24 false
  slot ← rd_u16 d 28 false
  subslot ← rd_u16 d 30 false
  index ← rd_u16 d 34 false
  len ← rd_u32 d 36 false
  payload ← slice d 64 (length d)
  ok (record {
    block_type = block_type;
    block_length = block_length;
    sequence_number = sequence_number;
    ar_uuid = ar_uuid;
    api = api;
    slot = slot;
    subslot = subslot;
    index = index;
    len = len;
    payload = payload;
  }))

unfoldable pub parse_read_response : Bytes → Bool → Exec Bytes
unfolding parse_nrd parse_iod_header
parse_read_response rpc_payload le = do
  nrd ← parse_nrd rpc_payload le
  if not (nrd.args_status == 0)
      then err (pnio_status nrd.args_status)
      else (parse_iod_header nrd.payload >>= λ iod. ok iod.payload)

unfoldable pub parse_status_response : Bytes → Bool → Exec Bytes
unfolding parse_nrd
parse_status_response rpc_payload le = do
  nrd ← parse_nrd rpc_payload le
  if not (nrd.args_status == 0) then err (pnio_status nrd.args_status) else ok nrd.payload
