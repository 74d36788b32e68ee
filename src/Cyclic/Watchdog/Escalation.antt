-- ===== src/Cyclic/Watchdog/Escalation.antt =====
-- src/cyclic.rs, `handle_watchdog_timeout` and `check_receive_watchdog`: when a silent link is dead.
use profinet_rs.Prelude.{
  ℕ, zero, suc, ◌<◌, ◌≡◌, ◌⊎◌, inl, inr, refl, sym, ap, ◌∙◌, arith, true, false, ◌&&◌, ltb, leb,
  if◌then◌else◌, Bool-cases, ltb→lt, Yields-bind, Yields-map, if-Yields, ap₂, Exec, ok, ◌>>=◌,
  Yields, CyclicState, idle, starting, running, stopping, stopped, fault,
}
use profinet_rs.Rt.Config.{IocrConfig}
use profinet_rs.Rt.Builder
use profinet_rs.Rt.Builder.Inv.{IsSound}
use profinet_rs.Rt.Builder.Swap.{set_all_iocs-IsSound}
use profinet_rs.Cyclic.State.{
  CyclicStats, add32, ioxs_bad, Shared, fire, same_state, transition, timeout_event,
  communication_lost,
}
use profinet_rs.Cyclic.State.Moves.{
  Keeps, Keeps-refl, fire-Keeps, fire-state, transition-Keeps, transition-state,
}
use profinet_rs.Cyclic.Watchdog.{count_timeout, escalate, disown_consumers, handle_watchdog_timeout}

-- The state after a watchdog timeout: `limit` timeouts in a row end a running link, and a limit of 0
-- never does.
abbrev pub escalated : ℕ → ℕ → CyclicState → CyclicState
escalated limit consecutive running =
    if ltb 0 limit && leb limit consecutive then fault else running
escalated limit consecutive st = st

escalated_cases :
    (limit n : ℕ) (st : CyclicState)
    → let test = ltb 0 limit && leb limit n && same_state st running in
      (test ≡ true → escalated limit n st ≡ fault) × (test ≡ false → escalated limit n st ≡ st)
unfolding same_state
escalated_cases limit n idle = ground arith
escalated_cases limit n starting = ground arith
escalated_cases limit n running = ground arith
escalated_cases limit n stopping = ground arith
escalated_cases limit n stopped = ground arith
escalated_cases limit n fault = ground arith

escalate_lem :
    (n : ℕ) (s : Shared)
    → Keeps s (escalate n s)
      × ((escalate n s).state ≡ escalated s.max_consecutive_timeouts n s.state)
escalate_lem n s =
    let cases = escalated_cases s.max_consecutive_timeouts n s.state in
    let dead = transition fault s in
    unfold escalate in
    elim (Bool-cases (
      ltb 0 s.max_consecutive_timeouts
      && leb s.max_consecutive_timeouts n
      && same_state s.state running)) [
        | inl e ↦ rw e (
          fire-Keeps dead.callbacks.on_error (communication_lost n) s dead
              (transition-Keeps fault s),
          fire-state dead.callbacks.on_error (communication_lost n) dead
              ∙ transition-state fault s
              ∙ sym (cases.0 e),
        )
        | inr e ↦ rw e (Keeps-refl s, sym (cases.1 e))
      ]

-- What marking the consumers as bad leaves alone.
record Disowned (c : IocrConfig) (s s' : Shared) : Type 0 where
  stats_same : s'.stats ≡ s.stats
  state_same : s'.state ≡ s.state
  limit_same : s'.max_consecutive_timeouts ≡ s.max_consecutive_timeouts
  monitored : (0 < s.max_consecutive_timeouts) ⊎ (s'.output_builder ≡ s.output_builder)
  sound : IsSound c s'.output_builder

kept_or_not :
    {n : ℕ} {a b e : Builder.CyclicDataBuilder} → (0 < n) ⊎ (b ≡ a) → e ≡ b → (0 < n) ⊎ (e ≡ a)
kept_or_not (inl h) q = inl h
kept_or_not (inr p) q = inr (q ∙ p)

disown_consumers-Disowned :
    {c : IocrConfig} (s : Shared)
    → IsSound c s.output_builder
    → Yields (disown_consumers s) (Disowned c s)
disown_consumers-Disowned {c} s sound =
    unfold disown_consumers in
    if-Yields (ltb 0 s.max_consecutive_timeouts) _ _ (Disowned c s)
      (λ pos.
        Yields-bind (Builder.set_all_iocs s.output_builder ioxs_bad) _ (IsSound c) (Disowned c s)
          (set_all_iocs-IsSound ioxs_bad sound)
          (λ b k. record {
            stats_same = refl;
            state_same = refl;
            limit_same = refl;
            monitored = inl (ltb→lt 0 s.max_consecutive_timeouts pos);
            sound = k;
          }))
      (λ _. record {
        stats_same = refl;
        state_same = refl;
        limit_same = refl;
        monitored = inr refl;
        sound = sound;
      })

-- What a watchdog timeout does, from any state: one more missed frame and one more timeout in the row,
-- the interval is disturbed, and the state is FAULT if the link was running and the row has reached a
-- limit above 0, and otherwise the old one. The timer is not its business. A limit of 0 leaves the
-- outputs alone; otherwise the builder stays sound.
pub handle_watchdog_timeout_lem :
    {c : IocrConfig} (s : Shared)
    → IsSound c s.output_builder
    → Yields (handle_watchdog_timeout s) (λ s'.
      (s'.stats ≡ count_timeout s.stats)
      × (s'.state
          ≡ escalated s.max_consecutive_timeouts (add32 s.stats.consecutive_timeouts 1) s.state)
      × (s'.max_consecutive_timeouts ≡ s.max_consecutive_timeouts)
      × ((0 < s.max_consecutive_timeouts) ⊎ (s'.output_builder ≡ s.output_builder))
      × IsSound c s'.output_builder)
handle_watchdog_timeout_lem {c} s sound =
    let counted = record s { stats = count_timeout s.stats } in
    let n = add32 s.stats.consecutive_timeouts 1 in
    unfold handle_watchdog_timeout in
    Yields-bind (disown_consumers counted) _ (Disowned c counted) _
      (disown_consumers-Disowned counted sound)
      (λ s1 d.
        let s2 = fire s1.callbacks.on_timeout timeout_event s1 in
        let told = fire-Keeps s1.callbacks.on_timeout timeout_event s1 s1 (Keeps-refl s1) in
        let last = escalate_lem n s2 in
        (
          last.0.stats_same ∙ told.stats_same ∙ d.stats_same,
          last.1
              ∙ ap₂ (λ l st. escalated l n st) (told.limit_same ∙ d.limit_same)
                  (fire-state s1.callbacks.on_timeout timeout_event s1 ∙ d.state_same),
          last.0.limit_same ∙ told.limit_same ∙ d.limit_same,
          kept_or_not d.monitored (last.0.builder_same ∙ told.builder_same),
          rw (last.0.builder_same, told.builder_same) d.sound,
        ))

-- One silent period more than `n`.
escalated_again :
    (limit n : ℕ)
    → escalated limit (suc n) (escalated limit n running) ≡ escalated limit (suc n) running
escalated_again limit n = ground arith

escalated_none : (limit : ℕ) → running ≡ escalated limit 0 running
escalated_none limit = ground arith

add32-suc : (n : ℕ) → suc n < 4294967296 → add32 n 1 ≡ suc n
add32-suc n h = omega arith

count_timeout-row :
    (st : CyclicStats) → (count_timeout st).consecutive_timeouts ≡ add32 st.consecutive_timeouts 1
unfolding count_timeout
count_timeout-row st = refl

-- A run of watchdog timeouts with no frame in between.
unfoldable pub silent_periods : ℕ → Shared → Exec Shared
unfolding handle_watchdog_timeout
silent_periods zero s = ok s
silent_periods (suc n) s = silent_periods n s >>= handle_watchdog_timeout

-- A running link with no timeout counted is in FAULT after `n` silent periods exactly when the limit is
-- above 0 and `n` has reached it; until then, and always at the limit 0, it stays running.
pub silent_periods-state :
    {c : IocrConfig} (n : ℕ) (s : Shared)
    → n < 4294967296
    → IsSound c s.output_builder
    → s.state ≡ running
    → s.stats.consecutive_timeouts ≡ 0
    → Yields (silent_periods n s) (λ s'.
      (s'.state ≡ escalated s.max_consecutive_timeouts n running)
      × (s'.stats.consecutive_timeouts ≡ n)
      × (s'.max_consecutive_timeouts ≡ s.max_consecutive_timeouts)
      × IsSound c s'.output_builder)
unfolding silent_periods
silent_periods-state zero s h sound up zero_count =
    (up ∙ escalated_none s.max_consecutive_timeouts, zero_count, refl, sound)
silent_periods-state {c} (suc n) s h sound up zero_count =
    Yields-bind (silent_periods n s) handle_watchdog_timeout _ _
      (silent_periods-state n s (omega arith) sound up zero_count)
      (λ s1 k.
        Yields-map (handle_watchdog_timeout s1) _ _
          (λ s2 m.
            let row : add32 s1.stats.consecutive_timeouts 1 ≡ suc n = rw k.1 (add32-suc n h) in
            (
              m.1
                  ∙ ap (λ l. escalated l (add32 s1.stats.consecutive_timeouts 1) s1.state) k.2
                  ∙ ap₂ (λ r st. escalated s.max_consecutive_timeouts r st) row k.0
                  ∙ escalated_again s.max_consecutive_timeouts n,
              ap (λ st. st.consecutive_timeouts) m.0 ∙ count_timeout-row s1.stats ∙ row,
              m.2 ∙ k.2,
              m.4,
            ))
          (handle_watchdog_timeout_lem s1 k.3))
