-- ===== src/Tests/Session.antt =====
-- src/connect.rs and src/transport.rs: a sample connection.
use profinet_rs.Prelude.{◌≡◌, inl, refl, arith, true, false, [], ◌∷◌, ok, length}
use profinet_rs.Blocks.{pniod_header}
use profinet_rs.Transport.Header.{ParsedRpc, datagram, drep_normalized_uuid}
use profinet_rs.Transport.Header.RoundTrip.{IsWireRpc, rpc_bytes}
use profinet_rs.Transport.Reply.{parse_read_response}
use profinet_rs.Transport.Reply.RoundTrip.{nrd_bytes}
use profinet_rs.Rpc.{read_record_request}
use profinet_rs.Connect.{IocrSetup}
use profinet_rs.Transport.Session.{RpcConn, Link, iface_uuid_device, read_raw, release_conn}
use profinet_rs.Transport.Session.Answered.{read_raw-answered, release_conn-twice}
use profinet_rs.Tests.Samples.{slots}
use profinet_rs.Tests.Transport.{uuid, sent_request, device_answer, sent_request-IsWireRpc}

abbrev sample_setup : IocrSetup
sample_setup = record {
  io_slots = slots;
  send_clock_factor = 32;
  reduction_ratio = 32;
  watchdog_factor = 3;
  data_hold_factor = 3;
}

-- A connection about to send its eighth request.
abbrev sample_conn : RpcConn
sample_conn = record {
  object_uuid = uuid 20;
  activity_uuid = uuid 1;
  ar_uuid = uuid 40;
  session_key = 9;
  sequence_number = 7;
  input_frame_id = 0xC001;
  output_frame_id = 0xC010;
  connected = true;
  requests = [];
  replies = [];
}

-- Our request comes back, then the device answers with two bytes.
abbrev record_answer : ParsedRpc
record_answer = record device_answer {
  payload =
      nrd_bytes true 0 66 4000 0 66
        (pniod_header 0x8009 7 (uuid 40) 0 1 2 0xAFF0 2 (0xCA ∷ 0xFE ∷ []));
}

record_answer-IsWireRpc : IsWireRpc record_answer
record_answer-IsWireRpc = record {
  object_fits = refl;
  interface_fits = refl;
  activity_fits = refl;
  boot_fits = omega arith;
  version_fits = omega arith;
  sequence_fits = omega arith;
  operation_fits = omega arith;
  interface_hint_fits = omega arith;
  activity_hint_fits = omega arith;
  body_fits = omega arith;
  fragment_fits = omega arith;
  order = refl;
}

abbrev sample_link : Link
sample_link = record {
  send = ok tt;
  responses = datagram (rpc_bytes sent_request) ∷ datagram (rpc_bytes record_answer) ∷ [];
  ccontrols = [];
  reply = ok tt;
}

read_raw-answered_example : read_raw sample_link 0xAFF0 1 2 4096 sample_conn ≡ (
  parse_read_response record_answer.payload true,
  record sample_conn {
    sequence_number = 8;
    requests =
        read_record_request (uuid 20) iface_uuid_device (uuid 1) (uuid 40) 7 0 1 2 0xAFF0 4096 ∷ [];
  },
)
read_raw-answered_example =
    read_raw-answered sample_link sample_conn 0xAFF0 1 2 4096 (sent_request ∷ []) record_answer []
      refl refl (omega arith) refl refl (sent_request-IsWireRpc, tt) (inl refl, tt)
      record_answer-IsWireRpc (refl, unfold drep_normalized_uuid in refl, refl)

release_conn-twice_example :
    ((release_conn sample_link sample_conn).connected ≡ false)
    × (length (release_conn sample_link sample_conn).requests ≡ 1)
    × (release_conn sample_link (release_conn sample_link sample_conn)
        ≡ release_conn sample_link sample_conn)
release_conn-twice_example = release_conn-twice sample_link sample_link sample_conn
