-- ===== src/Tests/Transport.antt =====
-- src/transport.rs: the answers of a sample device.
use profinet_rs.Prelude.{
  ◌↔◌, List, map, Bool, ℕ, ◌≡◌, ◌≢◌, ◌⊎◌, inl, refl, arith, true, false, some, [], ◌∷◌, All, Bytes,
  ok, err, stuck, Gives, connect_rejected, submodules_withheld,
}
use profinet_rs.Blocks.{pniod_header}
use profinet_rs.Transport.Header.{
  ParsedRpc, parse_rpc_header, datagram, drep_normalized_uuid, next_rpc_response,
}
use profinet_rs.Transport.Header.RoundTrip.{IsWireRpc, rpc_bytes, parse_rpc_header-rpc_bytes}
use profinet_rs.Transport.Header.Match.{IsOwn}
use profinet_rs.Transport.Header.Answer.{Passes, next_rpc_response-own, next_rpc_response-cases}
use profinet_rs.Transport.Reply.{parse_read_response}
use profinet_rs.Transport.Reply.RoundTrip.{nrd_bytes}
use profinet_rs.Transport.Reply.Record.{parse_read_response-answer}
use profinet_rs.Transport.Blocks.Wire.{
  ConnectBlock, iocr_res, module_diff, blocks_bytes, block_diffs,
}
use profinet_rs.Transport.Blocks.{SubmoduleDiff}
use profinet_rs.Transport.Connect.{parse_connect_response}
use profinet_rs.Transport.Connect.Kept.{IsGiven, AnyHeld, KeptBack}
use profinet_rs.Transport.Connect.Outcome.{parse_connect_response-cases}

abbrev pub uuid : ℕ → Bytes
uuid first = first ∷ 2 ∷ 3 ∷ 4 ∷ 5 ∷ 6 ∷ 7 ∷ 8 ∷ 9 ∷ 10 ∷ 11 ∷ 12 ∷ 13 ∷ 14 ∷ 15 ∷ 16 ∷ []

-- The UUID `uuid 1` as a little-endian packet has it.
abbrev swapped_uuid : Bytes
swapped_uuid = 4 ∷ 3 ∷ 2 ∷ 1 ∷ 6 ∷ 5 ∷ 8 ∷ 7 ∷ 9 ∷ 10 ∷ 11 ∷ 12 ∷ 13 ∷ 14 ∷ 15 ∷ 16 ∷ []

-- A request of a controller, big-endian.
abbrev pub sent_request : ParsedRpc
sent_request = record {
  version = 4;
  packet_type = 0;
  flags1 = 0x20;
  flags2 = 0;
  drep = (0, 0, 0);
  serial_high = 0;
  object_uuid = uuid 20;
  interface_uuid = uuid 30;
  activity_uuid = uuid 1;
  server_boot_time = 0;
  interface_version = 1;
  sequence_number = 7;
  operation_number = 2;
  interface_hint = 0xFFFF;
  activity_hint = 0xFFFF;
  length_of_body = 3;
  fragment_number = 0;
  auth_protocol = 0;
  serial_low = 0;
  is_little_endian = false;
  payload = 1 ∷ 2 ∷ 3 ∷ [];
}

-- The answer of a device, little-endian.
abbrev pub device_answer : ParsedRpc
device_answer = record sent_request {
  packet_type = 2;
  drep = (0x10, 0, 0);
  activity_uuid = swapped_uuid;
  is_little_endian = true;
}

pub sent_request-IsWireRpc : IsWireRpc sent_request
sent_request-IsWireRpc = record {
  object_fits = refl;
  interface_fits = refl;
  activity_fits = refl;
  boot_fits = omega arith;
  version_fits = omega arith;
  sequence_fits = omega arith;
  operation_fits = omega arith;
  interface_hint_fits = omega arith;
  activity_hint_fits = omega arith;
  body_fits = omega arith;
  fragment_fits = omega arith;
  order = refl;
}

device_answer-IsWireRpc : IsWireRpc device_answer
device_answer-IsWireRpc = record {
  object_fits = refl;
  interface_fits = refl;
  activity_fits = refl;
  boot_fits = omega arith;
  version_fits = omega arith;
  sequence_fits = omega arith;
  operation_fits = omega arith;
  interface_hint_fits = omega arith;
  activity_hint_fits = omega arith;
  body_fits = omega arith;
  fragment_fits = omega arith;
  order = refl;
}

parse_rpc_header-rpc_bytes_example :
    parse_rpc_header (rpc_bytes device_answer) ≡ ok (some device_answer)
parse_rpc_header-rpc_bytes_example =
    parse_rpc_header-rpc_bytes device_answer device_answer-IsWireRpc

-- Our request comes back first; the answer's UUID is in the other byte order.
device_answer-IsOwn : IsOwn (uuid 1) 7 device_answer
device_answer-IsOwn = (refl, unfold drep_normalized_uuid in refl, refl)

next_rpc_response-own_example :
    next_rpc_response
      (datagram (rpc_bytes sent_request) ∷ datagram (rpc_bytes device_answer) ∷ [])
      (uuid 1)
      7
    ≡ ok (device_answer, [])
next_rpc_response-own_example =
    next_rpc_response-own (sent_request ∷ []) device_answer [] (uuid 1) 7
      (sent_request-IsWireRpc, tt) (inl refl, tt) device_answer-IsWireRpc device_answer-IsOwn

next_rpc_response-cases_example :
    ((next_rpc_response (datagram (rpc_bytes sent_request) ∷ []) (uuid 1) 7 ≡ stuck)
      × All (Passes (uuid 1) 7) (datagram (rpc_bytes sent_request) ∷ []))
    ⊎ Gives
        (next_rpc_response (datagram (rpc_bytes sent_request) ∷ []) (uuid 1) 7)
        (λ r. IsOwn (uuid 1) 7 r.0)
next_rpc_response-cases_example =
    next_rpc_response-cases (datagram (rpc_bytes sent_request) ∷ []) (uuid 1) 7

parse_read_response-answer_example :
    parse_read_response
      (nrd_bytes true 0 66 4000 0 66
        (pniod_header 0x8009 7 (uuid 1) 0 1 2 0xAFF0 2 (0xCA ∷ 0xFE ∷ [])))
      true
    ≡ ok (0xCA ∷ 0xFE ∷ [])
parse_read_response-answer_example =
    parse_read_response-answer true 0 66 4000 0 66 7 (uuid 1) 0 1 2 0xAFF0 2 (0xCA ∷ 0xFE ∷ [])
      (omega arith) (omega arith) (omega arith) (omega arith) (omega arith) refl (omega arith)
      (omega arith) (omega arith) (omega arith) (omega arith) (omega arith)

-- An answer with both IOCRs and a submodule that is locked by another controller.
abbrev locked_blocks : List ConnectBlock
locked_blocks =
    iocr_res 1 1 0xC001
    ∷ iocr_res 2 2 0xC010
    ∷ module_diff (
        record {
          api = 0;
          modules =
              record {
                slot = 1;
                module_ident = 0x10;
                module_state = 2;
                submodules = (1, 0x11, 0x8180) ∷ [];
              }
              ∷ [];
        }
        ∷ [])
    ∷ []

abbrev no_status : ℕ
no_status = 0

parse_connect_response-cases_example :
    let answer =
      parse_connect_response
        (nrd_bytes true no_status 80 4000 0 80 (blocks_bytes locked_blocks))
        true in
    ((no_status ≡ 0)
      × All IsGiven (block_diffs locked_blocks)
      × (answer
          ≡ ok (record { input_frame_id = 0xC001; output_frame_id = 0xC010; has_cyclic = true })))
    ⊎ (((no_status ≢ 0) × (answer ≡ err (connect_rejected no_status)))
        ⊎ ((no_status ≡ 0)
            × (¬ All IsGiven (block_diffs locked_blocks))
            × (kept : List SubmoduleDiff) × (locked : Bool) × KeptBack
                (block_diffs locked_blocks)
                kept
            × ((locked ≡ true) ↔ AnyHeld kept)
            × (answer
                ≡ err (
                    submodules_withheld
                      (map (λ s. (s.slot, s.subslot, s.submodule_ident, s.state)) kept)
                      locked))))
parse_connect_response-cases_example =
    parse_connect_response-cases true no_status 80 4000 0 80 locked_blocks (omega arith)
      (omega arith) (omega arith) (omega arith) (omega arith)
      (
        (omega arith, (omega arith, omega arith)),
        (
          (omega arith, (omega arith, omega arith)),
          (
            (
              omega arith,
              (
                omega arith,
                (
                  (
                    omega arith,
                    ((omega arith, omega arith, ((omega arith, omega arith, omega arith), tt)), tt),
                  ),
                  tt,
                ),
              ),
            ),
            tt,
          ),
        ),
      )
