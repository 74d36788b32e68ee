-- ===== src/Cyclic/Tx.antt =====
-- src/cyclic.rs: the frames that the controller sends, and one pass of the transmit loop.
pub mod Frames
use profinet_rs.Prelude.{
  ℕ, ◌+◌, ◌-◌, ◌%◌, min, max, bit_or, Bool, false, ltb, if◌then◌else◌, Option, none, some, Bytes,
  Exec, ok, err, ◌>>=◌, ◌>>◌, output_locked,
}
use profinet_rs.Rt.Frame.{
  RtFrame, build_ethernet_frame, data_status_valid, data_status_provider_run,
  data_status_station_ok, data_status_state,
}
use profinet_rs.Rt.Config.{IocrConfig, cycle_time_us}
use profinet_rs.Rt.Builder
use profinet_rs.Rt.Builder.{CyclicDataBuilder}
use profinet_rs.Cyclic.State.{
  CyclicStats, add64, abs_diff, ioxs_good, tx_error, Event, Shared, fire, emit_error,
  output_writes_locked,
}

-- `DATA_STATUS_VALID | DATA_STATUS_PROVIDER_RUN | DATA_STATUS_STATION_OK | DATA_STATUS_STATE`
abbrev pub run_status : ℕ
run_status =
    bit_or (bit_or (bit_or data_status_valid data_status_provider_run) data_status_station_ok)
      data_status_state

unfoldable pub next_counter : Shared → ℕ
next_counter s = (s.cycle_counter + s.tx_counter_step) % 65536

unfoldable pub output_frame : ℕ → ℕ → Shared → Bytes → RtFrame
output_frame counter status s payload = record {
  frame_id = s.output_iocr.frame_id;
  cycle_counter = counter;
  data_status = status;
  transfer_status = 0;
  payload = payload;
}

abbrev pub status_or : Option ℕ → ℕ
status_or none = run_status
status_or (some status) = status

-- The frame, and the state with the counter and the committed builder.
unfoldable pub next_output_frame : Option ℕ → Shared → Exec (Bytes × Shared)
unfolding next_counter output_frame Builder.swap Builder.build build_ethernet_frame
next_output_frame status s =
    let counter = next_counter s in
    Builder.swap s.output_builder >>= λ builder. ok (
      build_ethernet_frame s.dst_mac s.src_mac
          (output_frame counter (status_or status) s (Builder.build builder)),
      record s { cycle_counter = counter; output_builder = builder },
    )

-- `set_output_data`: the first `?` leaves the builder alone.
unfoldable pub set_output_data : ℕ → ℕ → Bytes → Shared → Exec Shared
unfolding Builder.set_data Builder.set_iops output_writes_locked
set_output_data slot subslot d s =
    if output_writes_locked s.state then err (output_locked s.state) else (do
      written ← Builder.set_data s.output_builder slot subslot d
      builder ← Builder.set_iops written slot subslot ioxs_good
      ok (record s { output_builder = builder }))

-- The locals of `tx_loop`.
pub record Pacer : Type 0 where
  pub next_send : ℕ
  pub last_send : ℕ
  pub first_frame : Bool

-- The interval statistics of a pass that sent a frame.
unfoldable pub note_cycle : ℕ → ℕ → CyclicStats → CyclicStats
note_cycle cycle_time actual st = record st {
  last_cycle_time_us = actual;
  max_jitter_us =
      if ltb st.max_jitter_us (abs_diff actual cycle_time)
      then abs_diff actual cycle_time
      else st.max_jitter_us;
  min_cycle_time_us = min st.min_cycle_time_us actual;
  max_cycle_time_us = max st.max_cycle_time_us actual;
  cycle_time_sum_us = add64 st.cycle_time_sum_us actual;
  cycle_count = add64 st.cycle_count 1;
}

-- `next_send += cycle_time; if next_send < now { next_send = now + cycle_time; }`
unfoldable pub next_deadline : ℕ → ℕ → ℕ → ℕ
next_deadline cycle_time next_send now =
    if ltb (next_send + cycle_time) now then now + cycle_time else next_send + cycle_time

unfoldable pub count_sent : Shared → Shared
count_sent s = record s { stats = record s.stats { frames_sent = add64 s.stats.frames_sent 1 } }

-- One pass of `tx_loop` under its run flag, at the instant `now`; `sent` is whether the socket took the
-- frame. The frame of the pass, if it made one, is in the result.
unfoldable pub tx_pass : ℕ → Bool → Pacer → Shared → Exec (Option Bytes × Pacer × Shared)
unfolding next_output_frame note_cycle next_deadline count_sent cycle_time_us emit_error
tx_pass now sent p s =
    let cycle_time = cycle_time_us s.output_iocr in
    if ltb now p.next_send
    then ok (none, p, s)
    else (next_output_frame none s >>= λ r.
        let s1 = count_sent (if sent then r.1 else emit_error tx_error r.1) in
        let s2 =
          if p.first_frame
          then s1
          else record s1 { stats = note_cycle cycle_time (now - p.last_send) s1.stats } in
        ok (
          some r.0,
          record {
            next_send = next_deadline cycle_time p.next_send now;
            last_send = now;
            first_frame = false;
          },
          s2,
        ))
