-- ===== src/Cyclic/State/Moves.antt =====
-- src/cyclic.rs, `Shared::transition`: the state is the new one, and a fault is remembered.
use profinet_rs.Prelude.{
  ◌≡◌, inl, inr, refl, ◌∙◌, Bool, true, false, ◌||◌, if◌then◌else◌, Bool-cases, CyclicState, idle,
  starting, running, stopping, stopped, fault,
}
use profinet_rs.Cyclic.State.{Shared, Event, fire, same_state, transition, state_change_event}

pub same_state_sound : (a b : CyclicState) → same_state a b ≡ true → a ≡ b
unfolding same_state
same_state_sound idle idle e = refl
same_state_sound starting starting e = refl
same_state_sound running running e = refl
same_state_sound stopping stopping e = refl
same_state_sound stopped stopped e = refl
same_state_sound fault fault e = refl
same_state_sound _ _ e = cc

pub same_state_self : (a : CyclicState) → same_state a a ≡ true
unfolding same_state
same_state_self idle = refl
same_state_self starting = refl
same_state_self running = refl
same_state_self stopping = refl
same_state_self stopped = refl
same_state_self fault = refl

-- All but the state, the memory of a fault and the log is as before.
pub record Keeps (s s' : Shared) : Type 0 where
  pub src_same : s'.src_mac ≡ s.src_mac
  pub dst_same : s'.dst_mac ≡ s.dst_mac
  pub input_same : s'.input_iocr ≡ s.input_iocr
  pub output_same : s'.output_iocr ≡ s.output_iocr
  pub limit_same : s'.max_consecutive_timeouts ≡ s.max_consecutive_timeouts
  pub counter_same : s'.cycle_counter ≡ s.cycle_counter
  pub step_same : s'.tx_counter_step ≡ s.tx_counter_step
  pub builder_same : s'.output_builder ≡ s.output_builder
  pub inputs_same : s'.input_data ≡ s.input_data
  pub stats_same : s'.stats ≡ s.stats
  pub flag_same : s'.run_flag ≡ s.run_flag
  pub image_same : s'.safe_output ≡ s.safe_output

pub Keeps-refl : (s : Shared) → Keeps s s
Keeps-refl s = record {
  src_same = refl;
  dst_same = refl;
  input_same = refl;
  output_same = refl;
  limit_same = refl;
  counter_same = refl;
  step_same = refl;
  builder_same = refl;
  inputs_same = refl;
  stats_same = refl;
  flag_same = refl;
  image_same = refl;
}

pub Keeps-trans : (a b c : Shared) → Keeps a b → Keeps b c → Keeps a c
Keeps-trans a b c p q = record {
  src_same = q.src_same ∙ p.src_same;
  dst_same = q.dst_same ∙ p.dst_same;
  input_same = q.input_same ∙ p.input_same;
  output_same = q.output_same ∙ p.output_same;
  limit_same = q.limit_same ∙ p.limit_same;
  counter_same = q.counter_same ∙ p.counter_same;
  step_same = q.step_same ∙ p.step_same;
  builder_same = q.builder_same ∙ p.builder_same;
  inputs_same = q.inputs_same ∙ p.inputs_same;
  stats_same = q.stats_same ∙ p.stats_same;
  flag_same = q.flag_same ∙ p.flag_same;
  image_same = q.image_same ∙ p.image_same;
}

pub fire-Keeps : (b : Bool) (e : Event) (s r : Shared) → Keeps s r → Keeps s (fire b e r)
fire-Keeps false e s r k = record {
  src_same = k.src_same;
  dst_same = k.dst_same;
  input_same = k.input_same;
  output_same = k.output_same;
  limit_same = k.limit_same;
  counter_same = k.counter_same;
  step_same = k.step_same;
  builder_same = k.builder_same;
  inputs_same = k.inputs_same;
  stats_same = k.stats_same;
  flag_same = k.flag_same;
  image_same = k.image_same;
}
fire-Keeps true e s r k = record {
  src_same = k.src_same;
  dst_same = k.dst_same;
  input_same = k.input_same;
  output_same = k.output_same;
  limit_same = k.limit_same;
  counter_same = k.counter_same;
  step_same = k.step_same;
  builder_same = k.builder_same;
  inputs_same = k.inputs_same;
  stats_same = k.stats_same;
  flag_same = k.flag_same;
  image_same = k.image_same;
}

pub fire-state : (b : Bool) (e : Event) (s : Shared) → (fire b e s).state ≡ s.state
fire-state false e s = refl
fire-state true e s = refl

pub fire-ever_faulted :
    (b : Bool) (e : Event) (s : Shared) → (fire b e s).ever_faulted ≡ s.ever_faulted
fire-ever_faulted false e s = refl
fire-ever_faulted true e s = refl

pub transition-Keeps : (to : CyclicState) (s : Shared) → Keeps s (transition to s)
transition-Keeps to s =
    unfold transition in
    elim (Bool-cases (same_state s.state to)) [
      | inl e ↦ rw e (Keeps-refl s)
      | inr e ↦
          rw e (fire-Keeps s.callbacks.on_state_change (state_change_event s.state to) s _ moved)
    ]
  where
    moved : Keeps s (record s { state = to; ever_faulted = s.ever_faulted || same_state to fault })
    moved = record {
      src_same = refl;
      dst_same = refl;
      input_same = refl;
      output_same = refl;
      limit_same = refl;
      counter_same = refl;
      step_same = refl;
      builder_same = refl;
      inputs_same = refl;
      stats_same = refl;
      flag_same = refl;
      image_same = refl;
    }

-- The state afterwards is the one asked for.
pub transition-state : (to : CyclicState) (s : Shared) → (transition to s).state ≡ to
transition-state to s =
    unfold transition in
    elim (Bool-cases (same_state s.state to)) [
      | inl e ↦ rw e (same_state_sound s.state to e)
      | inr e ↦ rw e (fire-state s.callbacks.on_state_change (state_change_event s.state to) _)
    ]

-- The memory of a fault is set by a transition into FAULT, and by no other.
pub transition-ever_faulted :
    (to : CyclicState) (s : Shared)
    → (transition to s).ever_faulted
      ≡ (if same_state s.state to then s.ever_faulted else s.ever_faulted || same_state to fault)
transition-ever_faulted to s =
    unfold transition in
    elim (Bool-cases (same_state s.state to)) [
      | inl e ↦ rw e
      | inr e ↦
          rw e (fire-ever_faulted s.callbacks.on_state_change (state_change_event s.state to) _)
    ]
