-- ===== src/Cyclic/Calls/Passes.antt =====
-- src/cyclic.rs, `rx_loop`, `tx_loop` and `set_output_data`: a pass of a loop keeps the controller well formed.
use profinet_rs.Prelude.{
  ℕ, ◌-◌, inl, inr, ap, ◌∙◌, Bool, true, false, ltb, if◌then◌else◌, Yields-bind, Yields-map,
  if-Yields, Option, none, All, length, Bytes, IsByte, Yields, Yields-ok, fault,
}
use profinet_rs.Rt.Config.{IocrConfig}
use profinet_rs.Rt.Builder
use profinet_rs.Rt.Builder.{CyclicDataBuilder, find_object}
use profinet_rs.Rt.Builder.Inv.{IsSound}
use profinet_rs.Rt.Builder.Swap.{set_all_iocs-IsSound}
use profinet_rs.Cyclic.State.{
  Shared, ioxs_bad, transition, emit_error, communication_lost, rx_error, tx_error, timeout_event,
}
use profinet_rs.Cyclic.Rx.{process_input_frame}
use profinet_rs.Cyclic.Tx.{Pacer, next_output_frame, count_sent, set_output_data, tx_pass}
use profinet_rs.Cyclic.Tx.Frames.{next_output_frame-IsSent, set_output_data_cases}
use profinet_rs.Cyclic.Watchdog.{
  count_timeout, escalate, disown_consumers, handle_watchdog_timeout, rearm, check_receive_watchdog,
  Received, frame_received, idle_socket, receive_error, receive_failed, rx_pass,
}
use profinet_rs.Cyclic.Calls.{or_kept}
use profinet_rs.Cyclic.Calls.Good.{
  Good, fire-Good, stats-Good, builder-Good, transition-Good, emit_error-Good,
  process_input_frame-Good,
}

-- What the network delivers are bytes.
abbrev pub IsReceived : Received → Type 0
IsReceived (frame_received d) = All IsByte d
IsReceived _ = Unit {0}

module _ {c : IocrConfig} where
  if-Good : (t : Bool) (a b : Shared) → Good c a → Good c b → Good c (if t then a else b)
  if-Good true a b g h = g
  if-Good false a b g h = h

  handle_watchdog_timeout-Good :
      (s : Shared) → Good c s → Yields (handle_watchdog_timeout s) (Good c)
  unfolding handle_watchdog_timeout escalate disown_consumers
  handle_watchdog_timeout-Good s g =
      let counted = record s { stats = count_timeout s.stats } in
      let h = stats-Good s (count_timeout s.stats) g in
      Yields-bind (disown_consumers counted) _ (Good c) (Good c)
        (if-Yields (ltb 0 s.max_consecutive_timeouts) _ _ (Good c)
          (λ _.
            Yields-bind (Builder.set_all_iocs s.output_builder ioxs_bad) _ (IsSound c) (Good c)
              (set_all_iocs-IsSound ioxs_bad g.sound) (λ b k. builder-Good counted b h k))
          (λ _. h))
        (λ t k.
          let told = fire-Good t.callbacks.on_timeout timeout_event t k in
          if-Good _ _ _ (emit_error-Good (communication_lost _) _ (transition-Good fault _ told))
            told)

  check_receive_watchdog-Good :
      (watchdog now later : ℕ) (s : Shared)
      → Good c s
      → Yields (check_receive_watchdog watchdog now later s) (Good c)
  unfolding check_receive_watchdog rearm
  check_receive_watchdog-Good watchdog now later s g =
      if-Yields (ltb watchdog (now - s.stats.last_receive_time)) _ _ (Good c)
        (λ _.
          Yields-bind (handle_watchdog_timeout s) _ (Good c) (Good c)
            (handle_watchdog_timeout-Good s g) (λ t k. stats-Good t _ k))
        (λ _. g)

  receive_failed-Good : (s : Shared) → Good c s → Good c (receive_failed s)
  unfolding receive_failed
  receive_failed-Good s g =
      let told = emit_error-Good rx_error s g in
      if-Good s.run_flag _ s
        (if-Good _ (transition fault (emit_error rx_error s)) _ (transition-Good fault _ told) told)
        g

  pub rx_pass-Good :
      (r : Received) (watchdog now later : ℕ) (s : Shared)
      → IsReceived r
      → Good c s
      → Yields (rx_pass r watchdog now later s) (λ p. Good c p.0)
  unfolding rx_pass
  rx_pass-Good (frame_received d) watchdog now later s all g =
      Yields-bind (process_input_frame d now s) _ (Good c) _
        (process_input_frame-Good d now s all g)
        (λ s1 g1.
          Yields-bind (check_receive_watchdog watchdog now later s1) _ (Good c) _
            (check_receive_watchdog-Good watchdog now later s1 g1) (λ t k. k))
  rx_pass-Good idle_socket watchdog now later s all g =
      Yields-bind (check_receive_watchdog watchdog now later s) _ (Good c) _
        (check_receive_watchdog-Good watchdog now later s g) (λ t k. k)
  rx_pass-Good receive_error watchdog now later s all g = receive_failed-Good s g

  pub next_output_frame-Good :
      (status : Option ℕ) (s : Shared)
      → Good c s
      → Yields (next_output_frame status s) (λ r. Good c r.1)
  next_output_frame-Good status s g =
      Yields-map (next_output_frame status s) _ _
        (λ r k. record {
          sound = k.sound;
          dst_fits = ap {A = Shared} (λ t. length t.dst_mac) k.rest ∙ g.dst_fits;
          src_fits = ap {A = Shared} (λ t. length t.src_mac) k.rest ∙ g.src_fits;
          id_fits = rw (ap {A = Shared} (λ t. t.output_iocr.frame_id) k.rest) g.id_fits;
          remembered =
              rw
                (
                  ap {A = Shared} (λ t. t.state) k.rest,
                  ap {A = Shared} (λ t. t.ever_faulted) k.rest,
                )
                g.remembered;
        })
        (next_output_frame-IsSent status s
          (record { dst_fits = g.dst_fits; src_fits = g.src_fits; id_fits = g.id_fits }) g.sound)

  pub count_sent-Good : (s : Shared) → Good c s → Good c (count_sent s)
  unfolding count_sent
  count_sent-Good s g = stats-Good s _ g

  pub tx_pass-Good :
      (now : ℕ) (sent : Bool) (p : Pacer) (s : Shared)
      → Good c s
      → Yields (tx_pass now sent p s) (λ q. Good c q.2)
  unfolding tx_pass
  tx_pass-Good now sent p s g =
      if-Yields (ltb now p.next_send) _ _ _ (λ _. g)
        (λ _.
          Yields-bind (next_output_frame none s) _ (λ r. Good c r.1) _
            (next_output_frame-Good none s g)
            (λ r k.
              let counted =
                count_sent-Good _ (if-Good sent _ _ k (emit_error-Good tx_error r.1 k)) in
              if-Good p.first_frame _ _ counted (stats-Good _ _ counted)))

  pub set_output_data-Good :
      (slot subslot : ℕ) (d : Bytes) (s : Shared)
      → Good c s
      → Yields (or_kept s (set_output_data slot subslot d s)) (Good c)
  unfolding or_kept
  set_output_data-Good slot subslot d s g = elim (set_output_data_cases slot subslot d s g.sound) [
    | inl (_, e) ↦ rw e g
    | inr (inl (_, _, e)) ↦ rw e g
    | inr (inr (_, _, _, taken)) ↦
        let (t, e, k) = Yields-ok (set_output_data slot subslot d s) _ taken in
        rw e (rw k.1 (builder-Good s t.output_builder g k.0))
  ]
