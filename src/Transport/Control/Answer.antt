-- ===== src/Transport/Control/Answer.antt =====
-- src/transport.rs: what the device reads in the confirmation, and what the client reads in the request.
use profinet_rs.Prelude.{
  ℕ, ◌%◌, ◌≡◌, arith, ltb, if◌then◌else◌, ◌++◌, length, length-append, Bytes, be16,
}
use profinet_rs.Blocks.{block_header}
use profinet_rs.Transport.Words.{get32}
use profinet_rs.Transport.Header.{ParsedRpc, packet_type_response}
use profinet_rs.Transport.Reply.RoundTrip.{nrd_bytes}
use profinet_rs.Transport.Control.{
  block_iod_control_app_ready_res, control_cmd_done, iod_control_block,
}

-- The header of the confirmation.
abbrev pub answer_of : ParsedRpc → Bytes → ParsedRpc
answer_of req body = record {
  version = req.version;
  packet_type = packet_type_response;
  flags1 = 0x0A;
  flags2 = 0;
  drep = req.drep;
  serial_high = req.serial_high;
  object_uuid = req.object_uuid;
  interface_uuid = req.interface_uuid;
  activity_uuid = req.activity_uuid;
  server_boot_time = 0;
  interface_version = req.interface_version;
  sequence_number = req.sequence_number;
  operation_number = req.operation_number;
  interface_hint = 0xFFFF;
  activity_hint = 0xFFFF;
  length_of_body = length body % 65536;
  fragment_number = 0;
  auth_protocol = 0;
  serial_low = req.serial_low;
  is_little_endian = req.is_little_endian;
  payload = body;
}

pub length-iod_control_block :
    (block_type : ℕ) (ar_uuid : Bytes) (session_key command : ℕ)
    → length ar_uuid ≡ 16
    → length (iod_control_block block_type ar_uuid session_key command) ≡ 32
unfolding iod_control_block block_header
length-iod_control_block b u k c x =
    omega (arith, length-append u (be16 k ++ (be16 0 ++ (be16 c ++ be16 0))))

-- The capacity that the request announced; 32 where it has no NDR header.
abbrev pub capacity_with : ℕ → ParsedRpc → ℕ
capacity_with len req =
    if ltb (length req.payload) 20 then len else get32 req.payload 8 req.is_little_endian

abbrev pub capacity : ParsedRpc → ℕ
capacity = capacity_with 32

-- The bytes of the confirmation.
abbrev pub done_body : ParsedRpc → Bytes → ℕ → Bytes
done_body req ar_uuid session_key =
    nrd_bytes req.is_little_endian 0 32 (capacity req) 0 32
      (iod_control_block block_iod_control_app_ready_res ar_uuid session_key control_cmd_done)
