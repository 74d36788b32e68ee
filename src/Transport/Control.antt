-- ===== src/Transport/Control.antt =====
-- src/transport.rs: the control blocks, and the answer to the device's ApplicationReady.
pub mod Answer
use profinet_rs.Prelude.{
  ℕ, ◌%◌, bit_or, Bool, false, ◌==◌, ltb, if◌then◌else◌, Option, none, some, [], ◌∷◌, ◌++◌, length,
  Bytes, be16, Exec, ok, err, ◌>>=◌, ◌>>◌, guard, to_option, not_request, not_control,
  ccontrol_too_short,
}
use profinet_rs.Blocks.{block_header}
use profinet_rs.Rpc.{nrd, rpc_request}
use profinet_rs.Transport.Words.{rd_u16, wr_u16, wr_u32}
use profinet_rs.Transport.Header.{
  ParsedRpc, packet_type_request, packet_type_response, parse_rpc_header,
}
use profinet_rs.Transport.Reply.{ParsedNrd, parse_nrd}

abbrev pub block_iod_control_prm_end_req : ℕ
block_iod_control_prm_end_req = 0x0110

abbrev pub block_iod_control_app_ready_req : ℕ
block_iod_control_app_ready_req = 0x0112

abbrev pub block_iod_control_app_ready_res : ℕ
block_iod_control_app_ready_res = 0x8112

abbrev pub block_iod_release_req : ℕ
block_iod_release_req = 0x0114

abbrev pub control_cmd_prm_end : ℕ
control_cmd_prm_end = 0x0001

abbrev pub control_cmd_application_ready : ℕ
control_cmd_application_ready = 0x0002

abbrev pub control_cmd_release : ℕ
control_cmd_release = 0x0004

abbrev pub control_cmd_done : ℕ
control_cmd_done = 0x0008

abbrev pub control_cmd_prm_begin : ℕ
control_cmd_prm_begin = 0x0040

-- src/rpc.rs: the opnums of a release and of a control
abbrev pub release : ℕ
release = 1

abbrev pub control : ℕ
control = 4

-- src/rpc.rs, `RPC_FLAGS1_LASTFRAG | RPC_FLAGS1_NOFACK`
abbrev pub response_flags1 : ℕ
response_flags1 = bit_or 0x02 0x08

unfoldable pub iod_control_block : ℕ → Bytes → ℕ → ℕ → Bytes
unfolding block_header
iod_control_block block_type ar_uuid session_key control_command =
    block_header block_type 28 1 0
    ++ (be16 0 ++ (ar_uuid ++ (be16 session_key ++ (be16 0 ++ (be16 control_command ++ be16 0)))))

unfoldable pub release_request : Bytes → Bytes → Bytes → Bytes → ℕ → ℕ → Bytes
unfolding iod_control_block nrd rpc_request
release_request object_uuid iface_uuid activity_uuid ar_uuid session_key seq =
    rpc_request object_uuid iface_uuid activity_uuid seq release
      (nrd (iod_control_block block_iod_release_req ar_uuid session_key control_cmd_release))

pub record CControlRequest : Type 0 where
  pub block_type : ℕ
  pub control_command : ℕ
  pub nrd_body : Bytes

unfoldable pub parse_ccontrol_request : ParsedRpc → Exec CControlRequest
parse_ccontrol_request h = do
  guard (h.packet_type == packet_type_request) (not_request h.packet_type)
  guard (h.operation_number == control) (not_control h.operation_number)
  nrd ← parse_nrd h.payload h.is_little_endian
  if ltb (length nrd.payload) 32 then err (ccontrol_too_short (length nrd.payload)) else (do
    block_type ← rd_u16 nrd.payload 0 false
    control_command ← rd_u16 nrd.payload 28 false
    ok (record {
      block_type = block_type;
      control_command = control_command;
      nrd_body = nrd.payload;
    }))

-- The NDR part of the answer.
unfoldable pub response_nrd : ℕ → Bytes → Bool → Bytes
unfolding wr_u32
response_nrd maximum_count block le =
    let len = length block % 4294967296 in
    wr_u32 (wr_u32 (wr_u32 (wr_u32 (wr_u32 [] 0 le) len le) maximum_count le) 0 le) len le ++ block

-- The RPC header of the answer, and `nrd` behind it.
unfoldable pub response_packet : ParsedRpc → Bytes → Bytes
unfolding wr_u16 wr_u32
response_packet req nrd =
    let le = req.is_little_endian in
    let head =
      (req.version ∷ packet_type_response ∷ response_flags1 ∷ 0x00 ∷ req.drep.0 ∷ req.drep.1
        ∷ req.drep.2 ∷ req.serial_high ∷ [])
      ++ (req.object_uuid ++ (req.interface_uuid ++ req.activity_uuid)) in
    let words =
      wr_u32 (wr_u32 (wr_u32 head 0 le) req.interface_version le) req.sequence_number le in
    let hints = wr_u16 (wr_u16 (wr_u16 words req.operation_number le) 0xFFFF le) 0xFFFF le in
    wr_u16 (wr_u16 hints (length nrd % 65536) le) 0 le ++ ((0x00 ∷ req.serial_low ∷ []) ++ nrd)

-- `map_or(len, |nrd| nrd.maximum_count)`
abbrev pub capacity_or : ℕ → Option ParsedNrd → ℕ
capacity_or len none = len
capacity_or len (some request_nrd) = request_nrd.maximum_count

unfoldable pub ccontrol_response : ParsedRpc → Bytes → ℕ → Exec Bytes
unfolding response_nrd response_packet iod_control_block
ccontrol_response req ar_uuid session_key = do
  let block = iod_control_block block_iod_control_app_ready_res ar_uuid session_key control_cmd_done
  capacity ← to_option (parse_nrd req.payload req.is_little_endian)
  let maximum_count = capacity_or (length block % 4294967296) capacity
  ok (response_packet req (response_nrd maximum_count block req.is_little_endian))

unfoldable pub extract_app_ready : Bytes → Exec (Option (ParsedRpc × CControlRequest))
unfolding parse_rpc_header parse_ccontrol_request
extract_app_ready d = parse_rpc_header d >>= λ parsed. elim parsed [
  | none ↦ ok none
  | some h ↦ to_option (parse_ccontrol_request h) >>= λ request. elim request [
    | none ↦ ok none
    | some cc ↦
        if cc.block_type == block_iod_control_app_ready_req then ok (some (h, cc)) else ok none
  ]
]
