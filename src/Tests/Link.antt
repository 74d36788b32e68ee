-- ===== src/Tests/Link.antt =====
-- The watchdog, and `stop`, on a running controller.
use profinet_rs.Prelude.{
  ◌≤◌, ◌≡◌, refl, arith, true, false, some, [], ◌∷◌, All, length, ok, Yields, idle, starting,
  running, stopped, fault, io_failed, cannot_start, err, ◌>>=◌, List, IsU16,
}
use profinet_rs.Rt.Builder
use profinet_rs.Rt.Builder.Inv.{IsSound}
use profinet_rs.Tests.Samples.{
  output_config, output_object, output_object-found, controller, builder-IsSound,
  controller-IsAddressed,
}
use profinet_rs.Cyclic.State
use profinet_rs.Rt.Config.{cycle_time_us, build_iocr_configs}
use profinet_rs.Cyclic.Watchdog.{frame_received, receive_error}
use profinet_rs.Cyclic.Calls.{
  Call, start_call, receive_call, transmit_call, write_call, stop_call, perform_all,
}
use profinet_rs.Cyclic.Calls.Good.{Good}
use profinet_rs.Cyclic.Calls.Invariant.{perform_all-build_iocr_configs}
use profinet_rs.Tests.Samples.{
  slots, input_config, controller_mac, device_mac, raw_frame, are_bytes_sound,
}
use profinet_rs.Cyclic.State.{new_stats, add32}
use profinet_rs.Cyclic.Watchdog.Escalation.{silent_periods, silent_periods-state}
use profinet_rs.Cyclic.Stop.{Resources, start, stop}
use profinet_rs.Cyclic.Stop.Start.{start_cases}
use profinet_rs.Cyclic.Stop.Frames.{IsStopFrame}
use profinet_rs.Cyclic.Stop.Safe.{stop_lem, stop-image}

no_timeouts : (new_stats 0).consecutive_timeouts ≡ 0
unfolding new_stats
no_timeouts = refl

silent_periods-state_example : Yields (silent_periods 2 (controller running)) (λ s'.
    (s'.state ≡ fault)
    × (s'.stats.consecutive_timeouts ≡ 2)
    × (s'.max_consecutive_timeouts ≡ 2)
    × IsSound output_config s'.output_builder)
silent_periods-state_example =
    silent_periods-state 2 (controller running) (omega arith) builder-IsSound refl no_timeouts

stop_lem_example : Yields (stop (some (true ∷ true ∷ true ∷ [])) (controller running)) (λ r.
    All (IsStopFrame output_config.frame_id r.1.output_builder.write_buffer) r.0
    × (length r.0 ≤ 3)
    × (r.1.state ≡ stopped)
    × (r.1.run_flag ≡ false)
    × IsSound output_config r.1.output_builder)
stop_lem_example =
    stop_lem (some (true ∷ true ∷ true ∷ [])) (controller running) (controller-IsAddressed running)
      builder-IsSound

stop-image_example : Yields (stop (some (true ∷ false ∷ [])) (controller fault)) (λ r.
    (Builder.get_data r.1.output_builder 1 1 ≡ ok (7 ∷ 8 ∷ []))
    × All (IsStopFrame output_config.frame_id r.1.output_builder.write_buffer) r.0)
stop-image_example =
    stop-image (some (true ∷ false ∷ [])) (controller fault) 1 1 (7 ∷ 8 ∷ [])
      (controller-IsAddressed fault) builder-IsSound
      (output_object, refl, output_object-found, refl)

-- The controller's cycle takes 32 ms.
slow_enough : 1000 ≤ cycle_time_us output_config
unfolding cycle_time_us build_iocr_configs
slow_enough = omega arith

output_id : IsU16 output_config.frame_id
unfolding build_iocr_configs
output_id = omega arith

-- A session: it starts, receives and sends a frame, writes, loses its socket, and stops.
abbrev session : List Call
session =
    start_call (record { tx_socket = true; rx_socket = true; tx_spawned = true; rx_spawned = true })
      0
    ∷ receive_call (frame_received raw_frame) 96000 10 11
    ∷ transmit_call 10 true (record { next_send = 0; last_send = 0; first_frame = true })
    ∷ write_call 1 1 (5 ∷ 6 ∷ [])
    ∷ receive_call receive_error 96000 20 21
    ∷ stop_call (some (true ∷ []))
    ∷ []

perform_all-build_iocr_configs_example :
    Yields
      (State.new controller_mac device_mac input_config output_config 2 0 >>= λ s.
        perform_all s session)
      (Good output_config)
perform_all-build_iocr_configs_example =
    perform_all-build_iocr_configs slots 0x8001 0x8002 32 32 3 input_config output_config
      controller_mac device_mac 2 0 session refl refl refl output_id slow_enough
      (tt, (are_bytes_sound raw_frame refl, (tt, (tt, (tt, (tt, tt))))))

-- Two sockets and the transmit thread, but no receive thread.
abbrev no_receive_thread : Resources
no_receive_thread = record {
  tx_socket = true;
  rx_socket = true;
  tx_spawned = true;
  rx_spawned = false;
}

start_cases_example : Yields (start no_receive_thread 5 (controller idle)) (λ r.
    (r.0 ≡ err io_failed) × (start no_receive_thread 9 r.1 ≡ ok (err (cannot_start starting), r.1)))
start_cases_example =
    start_cases no_receive_thread no_receive_thread 5 9 (controller idle) refl builder-IsSound
