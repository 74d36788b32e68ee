-- ===== src/Tests/Wire.antt =====
-- Frames and records on the wire: RT, DCP and RPC.
use profinet_rs.Prelude.{
  ℕ, ◌<◌, ◌≡◌, ◌⊎◌, refl, arith, some, List, [], ◌∷◌, ◌++◌, length, take, drop, replicate, be32, ok,
  err, rt_frame_too_short,
}
use profinet_rs.Tests.Samples.{
  controller_mac, device_mac, input_frame, raw_frame, are_bytes_sound, input_frame-IsWireFrame,
}
use profinet_rs.Rt.Frame.{RtFrame, from_bytes, to_bytes, build_ethernet_frame, parse_ethernet_frame}
use profinet_rs.Rt.Frame.RoundTrip.{
  IsWireFrame, from_bytes_cases, parse_ethernet_frame-build_ethernet_frame,
}
use profinet_rs.Dcp.Response.{parse_set_response, parse_get_response}
use profinet_rs.Dcp.Response.GetAnswer.{ValueBlock, get_answer, parse_get_response-get_answer}
use profinet_rs.Dcp.Identify.{parse_identify_response}
use profinet_rs.Dcp.Identify.Total.{GivesDevice, parse_identify_response-GivesDevice}
use profinet_rs.Dcp.Response.Answer.{AnswerBlock, answer, parse_set_response-answer}
use profinet_rs.Blocks.{WriteMultipleResult, parse_write_multiple_response}
use profinet_rs.Blocks.Entries.{IsWireResult, entries, parse_write_multiple_response-entries}

from_bytes_cases_example :
    ((length {A = ℕ} (0x80 ∷ 1 ∷ 7 ∷ 0 ∷ 5 ∷ 0x35 ∷ 0 ∷ []) < 6)
      × (from_bytes (0x80 ∷ 1 ∷ 7 ∷ 0 ∷ 5 ∷ 0x35 ∷ 0 ∷ []) ≡ err (rt_frame_too_short 7)))
    ⊎ ((f : RtFrame) × IsWireFrame f
        × (from_bytes (0x80 ∷ 1 ∷ 7 ∷ 0 ∷ 5 ∷ 0x35 ∷ 0 ∷ []) ≡ ok f)
        × (to_bytes f ≡ 0x80 ∷ 1 ∷ 7 ∷ 0 ∷ 5 ∷ 0x35 ∷ 0 ∷ []))
from_bytes_cases_example =
    from_bytes_cases (0x80 ∷ 1 ∷ 7 ∷ 0 ∷ 5 ∷ 0x35 ∷ 0 ∷ [])
      (are_bytes_sound (0x80 ∷ 1 ∷ 7 ∷ 0 ∷ 5 ∷ 0x35 ∷ 0 ∷ []) refl)

parse_ethernet_frame-build_ethernet_frame_example :
    parse_ethernet_frame (build_ethernet_frame controller_mac device_mac input_frame)
    ≡ ok (some input_frame)
parse_ethernet_frame-build_ethernet_frame_example =
    parse_ethernet_frame-build_ethernet_frame controller_mac device_mac input_frame refl refl
      input_frame-IsWireFrame

-- A block of odd length in front of a refusal.
abbrev refusal : List AnswerBlock
refusal =
    record { option = 2; suboption = 2; body = 0x61 ∷ [] }
    ∷ record { option = 5; suboption = 4; body = 2 ∷ 2 ∷ 3 ∷ [] }
    ∷ []

parse_set_response-answer_example :
    parse_set_response (answer controller_mac device_mac 1 77 refusal) 77 ≡ ok (some 3)
parse_set_response-answer_example =
    parse_set_response-answer controller_mac device_mac 1 77 77 refusal refl refl (omega arith)
      (omega arith) (omega arith, (omega arith, tt))

abbrev one_result : WriteMultipleResult
one_result = record {
  seq_num = 1;
  api = 0;
  slot = 1;
  subslot = 1;
  index = 0xAFF0;
  status = 0;
  additional_value1 = 0;
  additional_value2 = 0;
}

one_result-IsWireResult : IsWireResult one_result
one_result-IsWireResult = record {
  seq_fits = omega arith;
  api_fits = omega arith;
  slot_fits = omega arith;
  subslot_fits = omega arith;
  index_fits = omega arith;
  status_fits = omega arith;
  value1_fits = omega arith;
  value2_fits = omega arith;
}

parse_write_multiple_response-entries_example :
    parse_write_multiple_response (
      replicate 36 0
      ++ (be32 56 ++ (replicate 24 0 ++ (entries (replicate 16 9) refl 4 (one_result ∷ []) ++ []))))
    ≡ ok (one_result ∷ [])
parse_write_multiple_response-entries_example =
    parse_write_multiple_response-entries (replicate 16 9) refl 4 (one_result ∷ []) (replicate 36 0)
      (replicate 24 0) [] refl refl (omega arith) (one_result-IsWireResult, tt)

parse_identify_response-GivesDevice_example :
    GivesDevice (parse_identify_response raw_frame) (take 6 (drop 6 raw_frame))
parse_identify_response-GivesDevice_example = parse_identify_response-GivesDevice raw_frame

abbrev station : List ValueBlock
station =
    record { option = 2; suboption = 2; info = 0; value = 112 ∷ 108 ∷ 99 ∷ [] }
    ∷ record { option = 1; suboption = 2; info = 1; value = 10 ∷ 0 ∷ 0 ∷ 7 ∷ [] }
    ∷ []

parse_get_response-get_answer_example :
    parse_get_response (get_answer controller_mac device_mac 1 77 station) 1 2 77
    ≡ ok (some (10 ∷ 0 ∷ 0 ∷ 7 ∷ []))
parse_get_response-get_answer_example =
    parse_get_response-get_answer controller_mac device_mac 1 77 77 1 2 station refl refl
      (omega arith) (omega arith) ((omega arith, omega arith), ((omega arith, omega arith), tt))
