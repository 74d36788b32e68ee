-- ===== src/Cyclic/Rx/Liveness.antt =====
-- src/cyclic.rs, `process_input_frame`: which frames feed the watchdog and the state machine.
use profinet_rs.Prelude.{
  some, ℕ, ◌+◌, ◌≡◌, inl, inr, refl, sym, ap, ◌∙◌, arith, Bool, true, false, ◌||◌, ltb, leb,
  if◌then◌else◌, Bool-cases, Yields-bind, Yields-map, List, [], ◌∷◌, length, Bytes, byte_at_lem,
  slice_lem, Yields, CyclicState, running, fault,
}
use profinet_rs.Rt.Frame.{RtFrame}
use profinet_rs.Rt.Config.{IoDataObject, IocrConfig, cycle_time_us}
use profinet_rs.Rt.Builder
use profinet_rs.Rt.Builder.{CyclicDataBuilder}
use profinet_rs.Rt.Builder.Inv.{IsSound}
use profinet_rs.Rt.Builder.Swap.{set_all_iocs-IsSound}
use profinet_rs.Cyclic.State.{CyclicStats, add64, ioxs_good, Shared, same_state}
use profinet_rs.Cyclic.State.Moves.{
  Keeps, Keeps-refl, transition-Keeps, transition-state, transition-ever_faulted, same_state_sound,
}
use profinet_rs.Cyclic.Rx.{
  frame_is_alive, track_cycle_counter, note_frame, Extract, extract_object, extract_objects,
  accept_payload, recover, note_and_track, finish_frame, process_frame,
}
use profinet_rs.Cyclic.Rx.Tracked.{Tracked, track_cycle_counter-Tracked, track_cycle_counter-last}

pub process_frame_as :
    (valid : Bool) (f : RtFrame) (now : ℕ) (s : Shared)
    → frame_is_alive f ≡ valid
    → process_frame f now s ≡ finish_frame valid f (note_and_track valid f now s)
process_frame_as valid f now s e =
    unfold process_frame in ap (λ v. finish_frame v f (note_and_track v f now s)) e

note_disowned :
    (f : RtFrame) (now : ℕ) (s : Shared)
    → Tracked
        (record s {
          stats = record s.stats {
            frames_received = add64 s.stats.frames_received 1;
            interval_disturbed = true;
          };
        })
        (note_and_track false f now s)
unfolding note_and_track
note_disowned f now s = track_cycle_counter-Tracked f.cycle_counter _

-- A frame that the device disowns is counted as received and invalid, marks the interval as disturbed, and
-- its cycle counter becomes the last one seen. It changes neither the state, the watchdog's timer, the run of
-- timeouts, the outputs nor the inputs, and fires no callback.
pub process_frame_disowned :
    (f : RtFrame) (now : ℕ) (s : Shared)
    → frame_is_alive f ≡ false
    → Yields (process_frame f now s) (λ s'.
      (s'.state ≡ s.state)
      × (s'.stats.consecutive_timeouts ≡ s.stats.consecutive_timeouts)
      × (s'.stats.last_receive_time ≡ s.stats.last_receive_time)
      × (s'.output_builder ≡ s.output_builder)
      × (s'.input_data ≡ s.input_data)
      × (s'.log ≡ s.log)
      × (s'.stats.interval_disturbed ≡ true)
      × (s'.stats.frames_received ≡ add64 s.stats.frames_received 1)
      × (s'.stats.frames_invalid ≡ add64 s.stats.frames_invalid 1)
      × (s'.last_rx_cycle_counter ≡ some f.cycle_counter))
process_frame_disowned f now s dead =
    let k = note_disowned f now s in
    rw (process_frame_as false f now s dead) (
      unfold finish_frame in
      (
        k.state_same,
        k.timeouts_same,
        k.timer_same,
        k.builder_same,
        k.inputs_same,
        k.log_same,
        k.disturbed_same,
        k.received_same,
        ap (λ n. add64 n 1) k.invalid_same,
        unfold note_and_track in track_cycle_counter-last f.cycle_counter _,
      ))

-- The object loop never indexes outside the payload.
extract_object-ok :
    (want_data : Bool) (payload : Bytes) (o : IoDataObject) (x : Extract)
    → Yields (extract_object want_data payload o x) (λ _. Unit {0})
extract_object-ok want_data payload o x =
    unfold extract_object in
    elim (Bool-cases (
      leb (length payload) o.iops_offset
      || ltb (length payload) (o.frame_offset + o.data_length))) [
        | inl outside ↦ rw outside tt
        | inr inside ↦
            rw
              (
                inside,
                byte_at_lem payload o.iops_offset (ground arith),
                slice_lem payload o.frame_offset (o.frame_offset + o.data_length) (omega arith)
                    (ground arith),
              )
              tt
      ]

pub extract_objects-ok :
    (want_data : Bool) (payload : Bytes) (os : List IoDataObject) (x : Extract)
    → Yields (extract_objects want_data payload os x) (λ _. Unit {0})
unfolding extract_objects
extract_objects-ok want_data payload [] x = tt
extract_objects-ok want_data payload (o ∷ os) x =
    Yields-bind (extract_object want_data payload o x) (extract_objects want_data payload os)
      (λ _. Unit {0}) (λ _. Unit {0}) (extract_object-ok want_data payload o x)
      (λ y _. extract_objects-ok want_data payload os y)

-- What accepting a payload leaves alone; the builder stays sound.
record Accepted (c : IocrConfig) (s s' : Shared) : Type 0 where
  state_same : s'.state ≡ s.state
  stats_same : s'.stats ≡ s.stats
  faulted_same : s'.ever_faulted ≡ s.ever_faulted
  builder_sound : IsSound c s'.output_builder

accept_payload-Accepted :
    {c : IocrConfig} (payload : Bytes) (s : Shared)
    → IsSound c s.output_builder
    → Yields (accept_payload payload s) (Accepted c s)
accept_payload-Accepted {c} payload s sound =
    unfold accept_payload in
    Yields-bind (Builder.set_all_iocs s.output_builder ioxs_good) _ (IsSound c) (Accepted c s)
      (set_all_iocs-IsSound ioxs_good sound)
      (λ b k.
        Yields-bind (extract_objects s.callbacks.on_input_data payload s.input_iocr.objects _) _
          (λ _. Unit {0}) (Accepted c s) (extract_objects-ok _ payload s.input_iocr.objects _)
          (λ x _. record {
            state_same = refl;
            stats_same = refl;
            faulted_same = refl;
            builder_sound = k;
          }))

-- The state after an accepted frame.
abbrev pub recovered : CyclicState → CyclicState
recovered fault = running
recovered st = st

recover_lem :
    (s : Shared)
    → Keeps s (recover true s)
      × ((recover true s).state ≡ recovered s.state)
      × ((recover true s).ever_faulted ≡ s.ever_faulted)
recover_lem s =
    unfold recover in
    elim (Bool-cases (same_state s.state fault)) [
      | inl e ↦ rw e (
        transition-Keeps running s,
        transition-state running s ∙ sym (ap recovered (same_state_sound s.state fault e)),
        transition-ever_faulted running s ∙ kept s,
      )
      | inr e ↦ rw e (Keeps-refl s, sym (not_fault s.state e), refl)
    ]
  where
    kept :
        (r : Shared)
        → (if same_state r.state running
            then r.ever_faulted
            else r.ever_faulted || same_state running fault)
          ≡ r.ever_faulted
    kept r = unfold same_state in ground arith

    not_fault : (st : CyclicState) → same_state st fault ≡ false → recovered st ≡ st
    not_fault fault e = unfold same_state in cc
    not_fault _ e = refl

-- A frame that the device stands by restarts the watchdog: no timeout is counted any more, its timer
-- runs from now, the interval counts as undisturbed. FAULT is left for RUNNING, any other state stays,
-- the memory of a fault stays, and nothing panics.
pub process_frame_accepted :
    {c : IocrConfig} (f : RtFrame) (now : ℕ) (s : Shared)
    → IsSound c s.output_builder
    → frame_is_alive f ≡ true
    → Yields (process_frame f now s) (λ s'.
      (s'.state ≡ recovered s.state)
      × (s'.stats.consecutive_timeouts ≡ 0)
      × (s'.stats.last_receive_time ≡ now)
      × (s'.stats.interval_disturbed ≡ false)
      × (s'.ever_faulted ≡ s.ever_faulted)
      × IsSound c s'.output_builder)
process_frame_accepted {c} f now s sound alive =
    let noted = record s { stats = note_frame true now (cycle_time_us s.input_iocr) s.stats } in
    let r = recover true noted in
    let back = recover_lem noted in
    let k = track_cycle_counter-Tracked f.cycle_counter r in
    let kept : IsSound c (track_cycle_counter f.cycle_counter r).output_builder =
      rw (k.builder_same, back.0.builder_same) sound in
    rw (process_frame_as true f now s alive) (
      unfold finish_frame note_and_track in
      Yields-map (accept_payload f.payload (track_cycle_counter f.cycle_counter r)) (Accepted c _) _
        (λ s' a. (
          a.state_same ∙ k.state_same ∙ back.1,
          ap (λ (st : CyclicStats). st.consecutive_timeouts) a.stats_same
              ∙ k.timeouts_same
              ∙ ap (λ (st : CyclicStats). st.consecutive_timeouts) back.0.stats_same,
          ap (λ (st : CyclicStats). st.last_receive_time) a.stats_same
              ∙ k.timer_same
              ∙ ap (λ (st : CyclicStats). st.last_receive_time) back.0.stats_same,
          ap (λ (st : CyclicStats). st.interval_disturbed) a.stats_same
              ∙ k.disturbed_same
              ∙ ap (λ (st : CyclicStats). st.interval_disturbed) back.0.stats_same,
          a.faulted_same ∙ k.faulted_same ∙ back.2,
          a.builder_sound,
        ))
        (accept_payload-Accepted f.payload (track_cycle_counter f.cycle_counter r) kept))
