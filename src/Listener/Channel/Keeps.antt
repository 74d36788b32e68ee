-- ===== src/Listener/Channel/Keeps.antt =====
-- src/alarm_listener.rs, `AlarmChannel::service`: what it leaves alone.
use profinet_rs.Prelude.{ℕ, ◌≡◌, refl, ◌∙◌, arith, Option, none, some, List, [], ◌∷◌, Bytes}
use profinet_rs.Listener.Frame.{AlarmEndpoint}
use profinet_rs.Listener.Channel.{
  Pending, AlarmChannel, retransmit, send_queued, send_next, service,
}

-- `service` leaves the sequence numbers and the priority.
abbrev pub Keeps : AlarmChannel → AlarmChannel → Type 0
Keeps c c' = (c'.seq ≡ c.seq) × (c'.high_priority ≡ c.high_priority)

module _ (endpoint : AlarmEndpoint) (mac : Bytes) (after now : ℕ) where
  retransmit-Keeps : (p : Option Pending) (c : AlarmChannel) → Keeps c (retransmit after now p c).1
  unfolding retransmit
  retransmit-Keeps none c = (refl, refl)
  retransmit-Keeps (some p) c = ground arith

  send_queued-Keeps :
      (q : List Bytes) (c : AlarmChannel) → Keeps c (send_queued endpoint mac after now q c).1
  unfolding send_queued
  send_queued-Keeps [] c = (refl, refl)
  send_queued-Keeps (d ∷ q) c = (refl, refl)

  send_next-Keeps :
      (p : Option Pending) (c : AlarmChannel) → Keeps c (send_next endpoint mac after now p c).1
  unfolding send_next
  send_next-Keeps (some p) c = (refl, refl)
  send_next-Keeps none c = send_queued-Keeps c.queued c

  pub service-Keeps : (c : AlarmChannel) → Keeps c (service endpoint mac after now c).1
  unfolding service
  service-Keeps c =
      let first = retransmit after now c.pending c in
      let a = retransmit-Keeps c.pending c in
      let b = send_next-Keeps first.1.pending first.1 in (b.0 ∙ a.0, b.1 ∙ a.1)
