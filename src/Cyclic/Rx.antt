-- ===== src/Cyclic/Rx.antt =====
-- src/cyclic.rs: the receive path, `process_input_frame` and `track_cycle_counter`, and the readers of
-- the input data.
pub mod Extracted
pub mod Tracked
pub mod Counter
pub mod Liveness
pub mod Filter
pub mod Inputs
use profinet_rs.Prelude.{
  same_bytes, ℕ, ◌+◌, ◌-◌, ◌/◌, ◌%◌, min, max, Bool, true, false, not, ◌&&◌, ◌||◌, ◌==◌, ltb, leb,
  if◌then◌else◌, Option, none, some, List, [], ◌∷◌, ◌++◌, length, Bytes, byte_at, slice, Exec, ok,
  ◌>>=◌, ◌>>◌, running, fault,
}
use profinet_rs.Rt.Frame.{RtFrame, parse_ethernet_frame, is_valid, is_running, is_ignored}
use profinet_rs.Rt.Config.{IoDataObject, IocrConfig, cycle_time_us}
use profinet_rs.Rt.Builder
use profinet_rs.Rt.Builder.{CyclicDataBuilder}
use profinet_rs.Cyclic.State.{
  CyclicStats, add64, add32, abs_diff, InputEntry, ioxs_good, data_state_good, is_good, Event,
  input_data_event, input_status_event, InputMap, Shared, fire, same_state, transition,
}

unfoldable pub frame_is_alive : RtFrame → Bool
unfolding is_valid is_running is_ignored
frame_is_alive f = is_valid f && is_running f && not (is_ignored f) && f.transfer_status == 0

-- What a received cycle counter is, given the one before: `expected`, a `duplicate`, from behind, or
-- a gap with a number of frames missed.
pub data CounterStep : Type 0 where
  expected duplicate backwards : CounterStep
  gap : ℕ → CounterStep

-- `checked_div(step).map_or(0, …)`: a step of 0 counts no frame.
unfoldable pub classify_counter : ℕ → ℕ → ℕ → CounterStep
classify_counter step prev rx =
    let forward = (rx + 65536 - prev) % 65536 in
    if rx == prev
    then duplicate
    else if rx == (prev + step) % 65536
    then expected
    else if ltb 0x8000 forward
    then backwards
    else gap (if step == 0 then 0 else forward / step - 1)

unfoldable pub count_step : CounterStep → CyclicStats → CyclicStats
count_step expected st = st
count_step duplicate st = record st { frames_duplicate = add64 st.frames_duplicate 1 }
count_step backwards st = record st { frames_out_of_order = add64 st.frames_out_of_order 1 }
count_step (gap n) st = record st { frames_missed = add64 st.frames_missed n }

-- A duplicate leaves the last counter, which it equals.
unfoldable pub track_from : Option ℕ → ℕ → Shared → Shared
unfolding classify_counter count_step
track_from none rx s = record s { last_rx_cycle_counter = some rx }
track_from (some prev) rx s = record s {
  last_rx_cycle_counter = some rx;
  stats = count_step (classify_counter s.rx_counter_step prev rx) s.stats;
}

unfoldable pub track_cycle_counter : ℕ → Shared → Shared
unfolding track_from
track_cycle_counter rx s = track_from s.last_rx_cycle_counter rx s

-- The receive-interval figures of an accepted frame that follows another one.
unfoldable pub note_interval : ℕ → ℕ → CyclicStats → CyclicStats
note_interval target_us interval_us st =
    let st' = record st {
      last_rx_interval_us = interval_us;
      max_rx_interval_us = max st.max_rx_interval_us interval_us;
    } in
    if st.interval_disturbed then st' else record st' {
      max_rx_jitter_us = max st.max_rx_jitter_us (abs_diff interval_us target_us);
      min_rx_interval_us = min st.min_rx_interval_us interval_us;
      rx_interval_sum_us = add64 st.rx_interval_sum_us interval_us;
      rx_interval_count = add64 st.rx_interval_count 1;
    }

unfoldable pub note_gap : ℕ → ℕ → CyclicStats → CyclicStats
unfolding note_interval
note_gap now target_us st = elim st.last_accepted_time [
  | none ↦ st
  | some previous ↦ note_interval target_us (now - previous) st
]

-- The statistics of a frame from the device, at the instant `now`.
unfoldable pub note_frame : Bool → ℕ → ℕ → CyclicStats → CyclicStats
unfolding note_gap
note_frame true now target_us st =
    record (note_gap now target_us (record st { frames_received = add64 st.frames_received 1 })) {
      last_accepted_time = some now;
      last_receive_time = now;
      consecutive_timeouts = 0;
      interval_disturbed = false;
    }
note_frame false now target_us st = record st {
  frames_received = add64 st.frames_received 1;
  interval_disturbed = true;
}

-- What the loop over the objects has collected.
pub record Extract : Type 0 where
  pub entries : InputMap
  pub status_changes : List Event
  pub updates : List Event

unfoldable pub insert : ℕ → ℕ → InputEntry → InputMap → InputMap
insert slot subslot e m = λ a b. if a == slot && b == subslot then some e else m a b

abbrev pub was_good : Option InputEntry → Bool
was_good none = false
was_good (some e) = is_good e

unfoldable pub extract_object : Bool → Bytes → IoDataObject → Extract → Exec Extract
unfolding data_state_good is_good insert
extract_object want_data payload o x =
    if leb (length payload) o.iops_offset || ltb (length payload) (o.frame_offset + o.data_length)
    then ok x
    else (do
      iops ← byte_at payload o.iops_offset
      bytes ← slice payload o.frame_offset (o.frame_offset + o.data_length)
      let good = data_state_good iops
      let before = was_good (x.entries o.slot o.subslot)
      ok (record {
        entries = insert o.slot o.subslot (record { bytes = bytes; iops = iops }) x.entries;
        status_changes =
            if (good && not before) || (not good && before)
            then x.status_changes ++ (input_status_event o.slot o.subslot iops ∷ [])
            else x.status_changes;
        updates =
            if good && want_data
            then x.updates ++ (input_data_event o.slot o.subslot bytes ∷ [])
            else x.updates;
      }))

unfoldable pub extract_objects : Bool → Bytes → List IoDataObject → Extract → Exec Extract
unfolding extract_object
extract_objects want_data payload [] x = ok x
extract_objects want_data payload (o ∷ os) x =
    extract_object want_data payload o x >>= extract_objects want_data payload os

-- The end of `process_input_frame`, for an accepted frame.
unfoldable pub accept_payload : Bytes → Shared → Exec Shared
unfolding extract_objects Builder.set_all_iocs
accept_payload payload s = do
  builder ← Builder.set_all_iocs s.output_builder ioxs_good
  x ←
      extract_objects s.callbacks.on_input_data payload s.input_iocr.objects
        (record { entries = s.input_data; status_changes = []; updates = [] })
  ok (record s {
    output_builder = builder;
    input_data = x.entries;
    log =
        s.log
        ++ ((if s.callbacks.on_input_status then x.status_changes else [])
            ++ (if s.callbacks.on_input_data then x.updates else []));
  })

-- FAULT is left for RUNNING by an accepted frame only.
unfoldable pub recover : Bool → Shared → Shared
unfolding transition
recover false s = s
recover true s = if same_state s.state fault then transition running s else s

unfoldable pub count_invalid : Shared → Shared
count_invalid s = record s {
  stats = record s.stats { frames_invalid = add64 s.stats.frames_invalid 1 };
}

-- The bookkeeping of a frame from the device, up to its cycle counter.
unfoldable pub note_and_track : Bool → RtFrame → ℕ → Shared → Shared
unfolding note_frame recover track_cycle_counter cycle_time_us
note_and_track valid f now s =
    track_cycle_counter f.cycle_counter (
      recover valid
        (record s { stats = note_frame valid now (cycle_time_us s.input_iocr) s.stats }))

unfoldable pub finish_frame : Bool → RtFrame → Shared → Exec Shared
unfolding count_invalid accept_payload
finish_frame true f s = accept_payload f.payload s
finish_frame false f s = ok (count_invalid s)

-- A frame with the device's MAC address and the frame ID of the input IOCR.
unfoldable pub process_frame : RtFrame → ℕ → Shared → Exec Shared
unfolding frame_is_alive note_and_track finish_frame
process_frame f now s =
    let valid = frame_is_alive f in finish_frame valid f (note_and_track valid f now s)

-- What becomes of the parsed frame: another IOCR's frame is left alone.
unfoldable pub process_parsed : Option RtFrame → ℕ → Shared → Exec Shared
unfolding process_frame
process_parsed none now s = ok s
process_parsed (some f) now s =
    if f.frame_id == s.input_iocr.frame_id then process_frame f now s else ok s

unfoldable pub process_input_frame : Bytes → ℕ → Shared → Exec Shared
unfolding same_bytes process_parsed
process_input_frame d now s =
    if ltb (length d) 18
    then ok s
    else (slice d 6 12 >>= λ src.
        if same_bytes src s.dst_mac
        then (parse_ethernet_frame d >>= λ parsed. process_parsed parsed now s)
        else ok s)

-- `get_input_data`, `get_input_data_allow_bad`, `get_input_status`, `is_input_good`
unfoldable pub get_input_data : ℕ → ℕ → Shared → Option Bytes
unfolding is_good
get_input_data slot subslot s = elim (s.input_data slot subslot) [
  | none ↦ none
  | some e ↦ if is_good e then some e.bytes else none
]

unfoldable pub get_input_data_allow_bad : ℕ → ℕ → Shared → Option Bytes
get_input_data_allow_bad slot subslot s = elim (s.input_data slot subslot) [
  | none ↦ none
  | some e ↦ some e.bytes
]

unfoldable pub get_input_status : ℕ → ℕ → Shared → Option ℕ
get_input_status slot subslot s = elim (s.input_data slot subslot) [
  | none ↦ none
  | some e ↦ some e.iops
]

unfoldable pub is_input_good : ℕ → ℕ → Shared → Bool
unfolding is_good
is_input_good slot subslot s = was_good (s.input_data slot subslot)
