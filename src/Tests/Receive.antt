-- ===== src/Tests/Receive.antt =====
-- The receive path, on a frame from the device, from another station, and on short bytes.
use profinet_rs.Prelude.{
  ◌+◌, ◌*◌, ◌%◌, ◌≡◌, ◌≢◌, ◌⊎◌, refl, arith, true, false, if◌then◌else◌, [], ◌∷◌, ◌++◌, take, drop,
  Yields, running, fault, some, none,
}
use profinet_rs.Rt.Builder.Inv.{IsSound}
use profinet_rs.Tests.Samples.{
  input_config, output_config, controller_mac, device_mac, controller, builder-IsSound, input_frame,
  stopped_frame, raw_frame, are_bytes_sound,
}
use profinet_rs.Cyclic.State.{add64}
use profinet_rs.Cyclic.Rx.{
  classify_counter, gap, frame_is_alive, process_frame, process_input_frame,
}
use profinet_rs.Rt.Config.{build_iocr_configs}
use profinet_rs.Rt.Builder.{find_object}
use profinet_rs.Cyclic.State.{data_state_good}
use profinet_rs.Cyclic.Rx.{get_input_data, get_input_data_allow_bad, get_input_status}
use profinet_rs.Cyclic.Rx.Extracted.{AreDistinct}
use profinet_rs.Cyclic.Rx.Inputs.{process_frame-inputs}
use profinet_rs.Tests.Samples.{output_object}
use profinet_rs.Cyclic.Rx.Counter.{classify_counter_forward}
use profinet_rs.Cyclic.Rx.Liveness.{process_frame_accepted, process_frame_disowned}
use profinet_rs.Cyclic.Rx.Filter.{process_input_frame-Yields}

input_frame-alive : frame_is_alive input_frame ≡ true
unfolding frame_is_alive
input_frame-alive = refl

stopped_frame-dead : frame_is_alive stopped_frame ≡ false
unfolding frame_is_alive
stopped_frame-dead = refl

process_frame_accepted_example : Yields (process_frame input_frame 5000 (controller fault)) (λ s'.
    (s'.state ≡ running)
    × (s'.stats.consecutive_timeouts ≡ 0)
    × (s'.stats.last_receive_time ≡ 5000)
    × (s'.stats.interval_disturbed ≡ false)
    × (s'.ever_faulted ≡ false)
    × IsSound output_config s'.output_builder)
process_frame_accepted_example =
    process_frame_accepted input_frame 5000 (controller fault) builder-IsSound input_frame-alive

process_frame_disowned_example :
    let s = controller fault in
    Yields (process_frame stopped_frame 5000 s) (λ s'.
      (s'.state ≡ s.state)
      × (s'.stats.consecutive_timeouts ≡ s.stats.consecutive_timeouts)
      × (s'.stats.last_receive_time ≡ s.stats.last_receive_time)
      × (s'.output_builder ≡ s.output_builder)
      × (s'.input_data ≡ s.input_data)
      × (s'.log ≡ s.log)
      × (s'.stats.interval_disturbed ≡ true)
      × (s'.stats.frames_received ≡ add64 s.stats.frames_received 1)
      × (s'.stats.frames_invalid ≡ add64 s.stats.frames_invalid 1)
      × (s'.last_rx_cycle_counter ≡ some stopped_frame.cycle_counter))
process_frame_disowned_example =
    process_frame_disowned stopped_frame 5000 (controller fault) stopped_frame-dead

process_input_frame-Yields_example :
    Yields
      (process_input_frame raw_frame 5000 (controller fault))
      (λ s'. IsSound output_config s'.output_builder × ((s'.state ≡ fault) ⊎ (s'.state ≡ running)))
process_input_frame-Yields_example =
    process_input_frame-Yields raw_frame 5000 (controller fault) (are_bytes_sound raw_frame refl)
      builder-IsSound

own_echo : take 6 (drop 6 (device_mac ++ (controller_mac ++ (0x88 ∷ 0x92 ∷ [])))) ≢ device_mac
own_echo e = cc

classify_counter_forward_example : classify_counter 1024 65000 ((65000 + 3 * 1024) % 65536) ≡ gap 2
classify_counter_forward_example =
    classify_counter_forward 1024 65000 3 (omega arith) (omega arith) (omega arith) (omega arith)

input_object-found : find_object input_config.objects 1 1 ≡ some output_object
unfolding find_object build_iocr_configs
input_object-found = refl

inputs-AreDistinct : AreDistinct input_config.objects
unfolding find_object build_iocr_configs
inputs-AreDistinct = (refl, tt)

process_frame-inputs_example : Yields (process_frame input_frame 5000 (controller running)) (λ t.
    (get_input_data 1 1 t ≡ (if data_state_good 0x80 then some (1 ∷ 2 ∷ []) else none))
    × (get_input_data_allow_bad 1 1 t ≡ some (1 ∷ 2 ∷ []))
    × (get_input_status 1 1 t ≡ some 0x80))
process_frame-inputs_example =
    process_frame-inputs input_frame 5000 (controller running) 1 1 builder-IsSound input_frame-alive
      input_object-found inputs-AreDistinct (omega arith, omega arith)
