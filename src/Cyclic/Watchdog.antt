-- ===== src/Cyclic/Watchdog.antt =====
-- src/cyclic.rs: the receive watchdog, and one pass of the receive loop.
pub mod Escalation
use profinet_rs.Prelude.{
  ℕ, ◌-◌, Bool, true, false, ◌&&◌, ltb, leb, if◌then◌else◌, Bytes, Exec, ok, ◌>>=◌, ◌>>◌, running,
  fault,
}
use profinet_rs.Rt.Config.{IocrConfig, watchdog_time_us}
use profinet_rs.Rt.Builder
use profinet_rs.Rt.Builder.{CyclicDataBuilder}
use profinet_rs.Cyclic.State.{
  CyclicStats, add64, add32, ioxs_bad, timeout_event, communication_lost, rx_error, Event, Shared,
  fire, same_state, transition, emit_error,
}
use profinet_rs.Cyclic.Rx.{process_input_frame}

unfoldable pub count_timeout : CyclicStats → CyclicStats
count_timeout st = record st {
  frames_missed = add64 st.frames_missed 1;
  consecutive_timeouts = add32 st.consecutive_timeouts 1;
  interval_disturbed = true;
}

-- The FAULT transition at the end of `handle_watchdog_timeout`.
unfoldable pub escalate : ℕ → Shared → Shared
unfolding transition emit_error
escalate consecutive s =
    if ltb 0 s.max_consecutive_timeouts
      && leb s.max_consecutive_timeouts consecutive
      && same_state s.state running
    then emit_error (communication_lost consecutive) (transition fault s)
    else s

unfoldable pub disown_consumers : Shared → Exec Shared
unfolding Builder.set_all_iocs
disown_consumers s =
    if ltb 0 s.max_consecutive_timeouts
    then (Builder.set_all_iocs s.output_builder ioxs_bad >>= λ builder.
        ok (record s { output_builder = builder }))
    else ok s

unfoldable pub handle_watchdog_timeout : Shared → Exec Shared
unfolding count_timeout escalate disown_consumers
handle_watchdog_timeout s =
    let stats = count_timeout s.stats in
    disown_consumers (record s { stats = stats }) >>= λ s'.
    ok (escalate stats.consecutive_timeouts (fire s'.callbacks.on_timeout timeout_event s'))

unfoldable pub rearm : ℕ → Shared → Shared
rearm now s = record s { stats = record s.stats { last_receive_time = now } }

-- `check_receive_watchdog`; the clock is read twice.
unfoldable pub check_receive_watchdog : ℕ → ℕ → ℕ → Shared → Exec Shared
unfolding handle_watchdog_timeout rearm
check_receive_watchdog watchdog now later s =
    if ltb watchdog (now - s.stats.last_receive_time)
    then (handle_watchdog_timeout s >>= λ s'. ok (rearm later s'))
    else ok s

-- What one call of `recv_frame` gave.
pub data Received : Type 0 where
  frame_received : Bytes → Received
  idle_socket : Received
  receive_error : Received

-- The receive error: the loop ends, and a link that was up is dead.
unfoldable pub receive_failed : Shared → Shared
unfolding transition emit_error
receive_failed s =
    if s.run_flag
    then (let s' = emit_error rx_error s in
        if same_state s'.state running then transition fault s' else s')
    else s

-- One pass of `rx_loop` under its run flag: the shared state behind it, and whether the loop goes on.
unfoldable pub rx_pass : Received → ℕ → ℕ → ℕ → Shared → Exec (Shared × Bool)
unfolding process_input_frame check_receive_watchdog receive_failed
rx_pass (frame_received d) watchdog now later s = do
  s' ← process_input_frame d now s
  s'' ← check_receive_watchdog watchdog now later s'
  ok (s'', true)
rx_pass idle_socket watchdog now later s = do
  s' ← check_receive_watchdog watchdog now later s
  ok (s', true)
rx_pass receive_error watchdog now later s = ok (receive_failed s, false)
