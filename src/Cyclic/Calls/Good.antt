-- ===== src/Cyclic/Calls/Good.antt =====
-- src/cyclic.rs: what every part of the controller keeps.
use profinet_rs.Prelude.{
  same_bytes, ℕ, ◌-◌, ◌≡◌, ◌⊎◌, inl, inr, refl, ap, ◌∙◌, arith, Bool, true, false, ◌||◌, ◌==◌, ltb,
  if◌then◌else◌, Bool-cases, Yields-bind, if-Yields, Option, none, some, All, length, take, drop,
  Bytes, IsByte, IsU16, slice_lem, Yields, CyclicState, idle, starting, running, stopping, stopped,
  fault,
}
use profinet_rs.Rt.Frame.{RtFrame, parse_ethernet_frame}
use profinet_rs.Rt.Frame.RoundTrip.{parse_ethernet_frame-Yields}
use profinet_rs.Rt.Config.{IocrConfig, cycle_time_us}
use profinet_rs.Rt.Builder
use profinet_rs.Rt.Builder.{CyclicDataBuilder}
use profinet_rs.Rt.Builder.Inv.{IsSound}
use profinet_rs.Rt.Builder.Swap.{set_all_iocs-IsSound}
use profinet_rs.Cyclic.State.{
  Shared, CyclicStats, Event, ioxs_good, same_state, fire, transition, emit_error,
}
use profinet_rs.Cyclic.State.Moves.{transition-Keeps, transition-state, transition-ever_faulted}
use profinet_rs.Cyclic.Rx.{
  frame_is_alive, note_frame, track_from, track_cycle_counter, recover, note_and_track,
  accept_payload, count_invalid, finish_frame, process_frame, process_parsed, process_input_frame,
  extract_objects,
}
use profinet_rs.Cyclic.Rx.Liveness.{extract_objects-ok}

-- The builder fits the layout `c`, the addresses fit, and a controller in FAULT remembers a fault.
pub record Good (c : IocrConfig) (s : Shared) : Type 0 where
  pub sound : IsSound c s.output_builder
  pub dst_fits : length s.dst_mac ≡ 6
  pub src_fits : length s.src_mac ≡ 6
  pub id_fits : IsU16 s.output_iocr.frame_id
  pub remembered : (same_state s.state fault ≡ false) ⊎ (s.ever_faulted ≡ true)

-- A transition to FAULT sets the memory, also where the state stays.
remembers :
    (s : Shared) (to : CyclicState)
    → (same_state s.state fault ≡ false) ⊎ (s.ever_faulted ≡ true)
    → (same_state to fault ≡ false)
      ⊎ ((if same_state s.state to then s.ever_faulted else s.ever_faulted || same_state to fault)
          ≡ true)
unfolding same_state
remembers s fault (inl other) = ground arith
remembers s fault (inr set_before) = ground arith
remembers s idle r = inl refl
remembers s starting r = inl refl
remembers s running r = inl refl
remembers s stopping r = inl refl
remembers s stopped r = inl refl

module _ {c : IocrConfig} where
  pub fire-Good : (b : Bool) (e : Event) (s : Shared) → Good c s → Good c (fire b e s)
  fire-Good false e s g = g
  fire-Good true e s g = record {
    sound = g.sound;
    dst_fits = g.dst_fits;
    src_fits = g.src_fits;
    id_fits = g.id_fits;
    remembered = g.remembered;
  }

  pub stats-Good : (s : Shared) (st : CyclicStats) → Good c s → Good c (record s { stats = st })
  stats-Good s st g = record {
    sound = g.sound;
    dst_fits = g.dst_fits;
    src_fits = g.src_fits;
    id_fits = g.id_fits;
    remembered = g.remembered;
  }

  pub builder-Good :
      (s : Shared) (b : CyclicDataBuilder)
      → Good c s
      → IsSound c b
      → Good c (record s { output_builder = b })
  builder-Good s b g k = record {
    sound = k;
    dst_fits = g.dst_fits;
    src_fits = g.src_fits;
    id_fits = g.id_fits;
    remembered = g.remembered;
  }

  pub transition-Good : (to : CyclicState) (s : Shared) → Good c s → Good c (transition to s)
  transition-Good to s g =
      let k = transition-Keeps to s in
      record {
        sound = rw k.builder_same g.sound;
        dst_fits = ap length k.dst_same ∙ g.dst_fits;
        src_fits = ap length k.src_same ∙ g.src_fits;
        id_fits = rw k.output_same g.id_fits;
        remembered =
            rw (transition-state to s, transition-ever_faulted to s) (remembers s to g.remembered);
      }

  pub emit_error-Good : (e : Event) (s : Shared) → Good c s → Good c (emit_error e s)
  unfolding emit_error
  emit_error-Good e s g = fire-Good s.callbacks.on_error e s g

  track_from-Good :
      (last : Option ℕ) (rx : ℕ) (s : Shared) → Good c s → Good c (track_from last rx s)
  unfolding track_from
  track_from-Good none rx s g = record {
    sound = g.sound;
    dst_fits = g.dst_fits;
    src_fits = g.src_fits;
    id_fits = g.id_fits;
    remembered = g.remembered;
  }
  track_from-Good (some prev) rx s g = record {
    sound = g.sound;
    dst_fits = g.dst_fits;
    src_fits = g.src_fits;
    id_fits = g.id_fits;
    remembered = g.remembered;
  }

  recover-Good : (valid : Bool) (s : Shared) → Good c s → Good c (recover valid s)
  unfolding recover
  recover-Good false s g = g
  recover-Good true s g = elim (Bool-cases (same_state s.state fault)) [
    | inl e ↦ rw e (transition-Good running s g)
    | inr e ↦ rw e g
  ]

  note_and_track-Good :
      (valid : Bool) (f : RtFrame) (now : ℕ) (s : Shared)
      → Good c s
      → Good c (note_and_track valid f now s)
  unfolding note_and_track track_cycle_counter
  note_and_track-Good valid f now s g = track_from-Good _ f.cycle_counter _ (
      recover-Good valid _
        (stats-Good s (note_frame valid now (cycle_time_us s.input_iocr) s.stats) g))

  finish_frame-Good :
      (valid : Bool) (f : RtFrame) (s : Shared)
      → Good c s
      → Yields (finish_frame valid f s) (Good c)
  unfolding finish_frame accept_payload count_invalid
  finish_frame-Good false f s g = stats-Good s _ g
  finish_frame-Good true f s g =
      Yields-bind (Builder.set_all_iocs s.output_builder ioxs_good) _ (IsSound c) (Good c)
        (set_all_iocs-IsSound ioxs_good g.sound)
        (λ b k.
          Yields-bind (extract_objects s.callbacks.on_input_data f.payload s.input_iocr.objects _) _
            (λ _. Unit {0}) (Good c) (extract_objects-ok _ f.payload s.input_iocr.objects _)
            (λ x _. record {
              sound = k;
              dst_fits = g.dst_fits;
              src_fits = g.src_fits;
              id_fits = g.id_fits;
              remembered = g.remembered;
            }))

  process_parsed-Good :
      (parsed : Option RtFrame) (now : ℕ) (s : Shared)
      → Good c s
      → Yields (process_parsed parsed now s) (Good c)
  unfolding process_parsed process_frame
  process_parsed-Good none now s g = g
  process_parsed-Good (some f) now s g =
      if-Yields (f.frame_id == s.input_iocr.frame_id) _ _ (Good c)
        (λ _.
          finish_frame-Good (frame_is_alive f) f _
            (note_and_track-Good (frame_is_alive f) f now s g))
        (λ _. g)

  pub process_input_frame-Good :
      (d : Bytes) (now : ℕ) (s : Shared)
      → All IsByte d
      → Good c s
      → Yields (process_input_frame d now s) (Good c)
  unfolding process_input_frame
  process_input_frame-Good d now s all g =
      if-Yields (ltb (length d) 18) _ _ (Good c) (λ _. g)
        (λ long. rw (slice_lem d 6 12 (omega arith) (ground arith)) (
          if-Yields (same_bytes (take (12 - 6) (drop 6 d)) s.dst_mac) _ _ (Good c)
            (λ _.
              Yields-bind (parse_ethernet_frame d) (λ parsed. process_parsed parsed now s) _
                (Good c) (parse_ethernet_frame-Yields d all)
                (λ parsed _. process_parsed-Good parsed now s g))
            (λ _. g)))
