-- ===== src/Listener/Channel/Schedule.antt =====
-- src/alarm_listener.rs, `AlarmChannel::service`: which frames it sends without an acknowledgment, and when.
use profinet_rs.Prelude.{
  ◌⊎◌, suc, zero, ◌<◌, ◌-◌, ap, ap₂, sym, ◌∙◌, inl, inr, Bool-cases, leb, ltb, ltb→lt, replicate,
  append_assoc, ℕ, ◌+◌, ◌≡◌, refl, arith, Option, none, some, List, [], ◌∷◌, ◌++◌, Bytes,
}
use profinet_rs.Listener.Frame.{AlarmEndpoint}
use profinet_rs.Listener.Channel.{
  Pending, AlarmChannel, Served, retransmit, send_queued, send_next, service, ack_frame,
}

-- Calls of `service` at the given times: all the frames sent, and the last channel.
unfoldable pub services : AlarmEndpoint → Bytes → ℕ → List ℕ → AlarmChannel → Served
services endpoint controller_mac retransmit_after [] c = ([], c)
services endpoint controller_mac retransmit_after (now ∷ later) c =
    let (sent, c') = service endpoint controller_mac retransmit_after now c in
    let (more, c'') = services endpoint controller_mac retransmit_after later c' in
    (sent ++ more, c'')

-- The frames that the channel still sends if nothing is acknowledged: the AlarmAck that waits as often as it has
-- retries left, then each queued one once and as often again as the endpoint says.
abbrev pub left_frames : Option Pending → List Bytes
left_frames none = []
left_frames (some p) = replicate p.retries_left p.frame

abbrev pub queued_frames : AlarmEndpoint → Bytes → AlarmChannel → List Bytes → List Bytes
queued_frames endpoint mac c [] = []
queued_frames endpoint mac c (ack_data ∷ queued) =
    replicate (suc endpoint.rta_retries) (ack_frame endpoint mac c ack_data)
    ++ queued_frames endpoint mac c queued

abbrev pub schedule : AlarmEndpoint → Bytes → AlarmChannel → List Bytes
schedule endpoint mac c = left_frames c.pending ++ queued_frames endpoint mac c c.queued

-- The sequence numbers and the priority are all that an AlarmAck takes from its channel.
queued_frames_same :
    (endpoint : AlarmEndpoint) (mac : Bytes) (c c' : AlarmChannel) (q : List Bytes)
    → c'.seq ≡ c.seq
    → c'.high_priority ≡ c.high_priority
    → queued_frames endpoint mac c' q ≡ queued_frames endpoint mac c q
queued_frames_same endpoint mac c c' [] e f = refl
queued_frames_same endpoint mac c c' (d ∷ q) e f =
    rw (e, f, queued_frames_same endpoint mac c c' q e f) refl

replicate_pred : (n : ℕ) (x : Bytes) → 0 < n → replicate n x ≡ x ∷ replicate (n - 1) x
replicate_pred zero x h = absurd (omega arith)
replicate_pred (suc n) x h = ap (λ k. x ∷ replicate k x) (omega arith)

module _ (endpoint : AlarmEndpoint) (mac : Bytes) (after now : ℕ) where
  retransmit-schedule :
      (p : Option Pending) (c : AlarmChannel)
      → c.pending ≡ p
      → let r = retransmit after now p c in
        schedule endpoint mac c ≡ r.0 ++ schedule endpoint mac r.1
  unfolding retransmit
  retransmit-schedule none c e = refl
  retransmit-schedule (some p) c e = elim (Bool-cases (leb p.due now)) [
    | inr early ↦ rw early refl
    | inl due ↦ elim (Bool-cases (ltb 0 p.retries_left)) [
      | inl again ↦
          rw (due, again)
            (ap (λ o. left_frames o ++ queued_frames endpoint mac c c.queued) e
              ∙ ap (λ fs. fs ++ queued_frames endpoint mac c c.queued)
                  (replicate_pred p.retries_left p.frame (ltb→lt 0 p.retries_left again))
              ∙ ap (λ fs. p.frame ∷ (replicate (p.retries_left - 1) p.frame ++ fs))
                  (sym (
                    queued_frames_same endpoint mac c
                      (record c {
                        pending = some (record {
                          frame = p.frame;
                          due = now + after;
                          retries_left = p.retries_left - 1;
                        });
                      })
                      c.queued refl refl)))
      | inr over ↦
          let zero_left : p.retries_left ≡ 0 = ground arith in
          rw (due, over)
            (ap (λ o. left_frames o ++ queued_frames endpoint mac c c.queued) e
              ∙ ap (λ n. replicate n p.frame ++ queued_frames endpoint mac c c.queued) zero_left
              ∙ sym (
                  queued_frames_same endpoint mac c (record c { pending = none }) c.queued refl
                    refl))
    ]
  ]

  send_queued-schedule :
      (q : List Bytes) (c : AlarmChannel)
      → c.queued ≡ q
      → c.pending ≡ none
      → let r = send_queued endpoint mac after now q c in
        schedule endpoint mac c ≡ r.0 ++ schedule endpoint mac r.1
  unfolding send_queued
  send_queued-schedule [] c e n = refl
  send_queued-schedule (d ∷ q) c e n =
      ap₂ (λ o w. left_frames o ++ queued_frames endpoint mac c w) n e
      ∙ ap (λ fs. replicate (suc endpoint.rta_retries) (ack_frame endpoint mac c d) ++ fs)
          (sym (
            queued_frames_same endpoint mac c
              (record c {
                queued = q;
                pending = some (record {
                  frame = ack_frame endpoint mac c d;
                  due = now + after;
                  retries_left = endpoint.rta_retries;
                });
              })
              q refl refl))

  send_next-schedule :
      (p : Option Pending) (c : AlarmChannel)
      → c.pending ≡ p
      → let r = send_next endpoint mac after now p c in
        schedule endpoint mac c ≡ r.0 ++ schedule endpoint mac r.1
  unfolding send_next
  send_next-schedule (some p) c e = refl
  send_next-schedule none c e = send_queued-schedule c.queued c refl e

  pub service-schedule :
      (c : AlarmChannel)
      → let r = service endpoint mac after now c in
        schedule endpoint mac c ≡ r.0 ++ schedule endpoint mac r.1
  unfolding service
  service-schedule c =
      let first = retransmit after now c.pending c in
      let second = send_next endpoint mac after now first.1.pending first.1 in
      retransmit-schedule c.pending c refl
      ∙ ap (λ fs. first.0 ++ fs) (send_next-schedule first.1.pending first.1 refl)
      ∙ sym (append_assoc first.0 second.0 (schedule endpoint mac second.1))

pub services-schedule :
    (endpoint : AlarmEndpoint) (mac : Bytes) (after : ℕ) (times : List ℕ) (c : AlarmChannel)
    → let r = services endpoint mac after times c in
      schedule endpoint mac c ≡ r.0 ++ schedule endpoint mac r.1
unfolding services
services-schedule endpoint mac after [] c = refl
services-schedule endpoint mac after (now ∷ later) c =
    let first = service endpoint mac after now c in
    let rest = services endpoint mac after later first.1 in
    service-schedule endpoint mac after now c
    ∙ ap (λ fs. first.0 ++ fs) (services-schedule endpoint mac after later first.1)
    ∙ sym (append_assoc first.0 rest.0 (schedule endpoint mac rest.1))

-- Nothing waits, or what waits is not due at `now` or was sent at `now`.
abbrev IsWaiting : ℕ → ℕ → Option Pending → Type 0
IsWaiting after now none = Unit {0}
IsWaiting after now (some p) = (now < p.due) ⊎ (p.due ≡ now + after)

-- Besides, nothing is queued where nothing waits: there is no frame left to send at `now`.
abbrev pub IsServed : ℕ → ℕ → Option Pending → List Bytes → Type 0
IsServed after now none queued = queued ≡ []
IsServed after now (some p) queued = (now < p.due) ⊎ (p.due ≡ now + after)

module _ (endpoint : AlarmEndpoint) (mac : Bytes) (after now : ℕ) where
  retransmit-IsWaiting :
      (p : Option Pending) (c : AlarmChannel)
      → c.pending ≡ p
      → IsWaiting after now (retransmit after now p c).1.pending
  unfolding retransmit
  retransmit-IsWaiting none c e = rw e tt
  retransmit-IsWaiting (some p) c e = elim (Bool-cases (leb p.due now)) [
    | inr early ↦ rw (early, e) (inl (ground arith))
    | inl due ↦ elim (Bool-cases (ltb 0 p.retries_left)) [
      | inl again ↦ rw (due, again) (inr refl)
      | inr spent ↦ rw (due, spent) tt
    ]
  ]

  send_queued-IsServed :
      (q : List Bytes) (c : AlarmChannel)
      → c.queued ≡ q
      → c.pending ≡ none
      → let c' = (send_queued endpoint mac after now q c).1 in
        IsServed after now c'.pending c'.queued
  unfolding send_queued
  send_queued-IsServed [] c e n = rw (n, e) refl
  send_queued-IsServed (d ∷ q) c e n = inr refl

  send_next-IsServed :
      (p : Option Pending) (c : AlarmChannel)
      → c.pending ≡ p
      → IsWaiting after now p
      → let c' = (send_next endpoint mac after now p c).1 in IsServed after now c'.pending c'.queued
  unfolding send_next
  send_next-IsServed none c e w = send_queued-IsServed c.queued c refl e
  send_next-IsServed (some p) c e w = rw e w

  pub service-IsServed :
      (c : AlarmChannel)
      → let c' = (service endpoint mac after now c).1 in IsServed after now c'.pending c'.queued
  unfolding service
  service-IsServed c =
      let first = retransmit after now c.pending c in
      send_next-IsServed first.1.pending first.1 refl (retransmit-IsWaiting c.pending c refl)
