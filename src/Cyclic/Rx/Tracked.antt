-- ===== src/Cyclic/Rx/Tracked.antt =====
-- src/cyclic.rs, `track_cycle_counter`: what it leaves alone.
use profinet_rs.Prelude.{ℕ, ◌≡◌, refl, Option, none, some}
use profinet_rs.Cyclic.State.{CyclicStats, Shared}
use profinet_rs.Cyclic.Rx.{
  classify_counter, count_step, CounterStep, expected, duplicate, backwards, gap,
  track_cycle_counter, track_from,
}

count_step_keeps :
    (c : CounterStep) (st : CyclicStats)
    → let st' = count_step c st in
      (st'.consecutive_timeouts ≡ st.consecutive_timeouts)
      × (st'.last_receive_time ≡ st.last_receive_time)
      × (st'.interval_disturbed ≡ st.interval_disturbed)
      × (st'.frames_invalid ≡ st.frames_invalid)
      × (st'.frames_received ≡ st.frames_received)
unfolding count_step
count_step_keeps expected st = (refl, refl, refl, refl, refl)
count_step_keeps duplicate st = (refl, refl, refl, refl, refl)
count_step_keeps backwards st = (refl, refl, refl, refl, refl)
count_step_keeps (gap n) st = (refl, refl, refl, refl, refl)

-- What tracking a counter leaves alone: all but the last counter and three statistics.
pub record Tracked (s s' : Shared) : Type 0 where
  pub state_same : s'.state ≡ s.state
  pub builder_same : s'.output_builder ≡ s.output_builder
  pub inputs_same : s'.input_data ≡ s.input_data
  pub log_same : s'.log ≡ s.log
  pub faulted_same : s'.ever_faulted ≡ s.ever_faulted
  pub iocr_same : s'.input_iocr ≡ s.input_iocr
  pub timeouts_same : s'.stats.consecutive_timeouts ≡ s.stats.consecutive_timeouts
  pub timer_same : s'.stats.last_receive_time ≡ s.stats.last_receive_time
  pub disturbed_same : s'.stats.interval_disturbed ≡ s.stats.interval_disturbed
  pub invalid_same : s'.stats.frames_invalid ≡ s.stats.frames_invalid
  pub received_same : s'.stats.frames_received ≡ s.stats.frames_received

track_from-Tracked : (last : Option ℕ) (rx : ℕ) (s : Shared) → Tracked s (track_from last rx s)
unfolding track_from
track_from-Tracked none rx s = record {
  state_same = refl;
  builder_same = refl;
  inputs_same = refl;
  log_same = refl;
  faulted_same = refl;
  iocr_same = refl;
  timeouts_same = refl;
  timer_same = refl;
  disturbed_same = refl;
  invalid_same = refl;
  received_same = refl;
}
track_from-Tracked (some prev) rx s =
    let k = count_step_keeps (classify_counter s.rx_counter_step prev rx) s.stats in
    record {
      state_same = refl;
      builder_same = refl;
      inputs_same = refl;
      log_same = refl;
      faulted_same = refl;
      iocr_same = refl;
      timeouts_same = k.0;
      timer_same = k.1;
      disturbed_same = k.2;
      invalid_same = k.3;
      received_same = k.4;
    }

track_from-last :
    (last : Option ℕ) (rx : ℕ) (s : Shared) → (track_from last rx s).last_rx_cycle_counter ≡ some rx
unfolding track_from
track_from-last none rx s = refl
track_from-last (some prev) rx s = refl

pub track_cycle_counter-last :
    (rx : ℕ) (s : Shared) → (track_cycle_counter rx s).last_rx_cycle_counter ≡ some rx
unfolding track_cycle_counter
track_cycle_counter-last rx s = track_from-last s.last_rx_cycle_counter rx s

pub track_cycle_counter-Tracked : (rx : ℕ) (s : Shared) → Tracked s (track_cycle_counter rx s)
unfolding track_cycle_counter
track_cycle_counter-Tracked rx s = track_from-Tracked s.last_rx_cycle_counter rx s
