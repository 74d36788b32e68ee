-- ===== src/Listener/Sequencer/Once.antt =====
-- src/alarm_listener.rs, `RtaSequencer::on_pdu`, against a device that sends an alarm until it is acknowledged.
use profinet_rs.Prelude.{
  ℕ, zero, suc, ◌+◌, ◌%◌, ◌≡◌, ◌⊎◌, inl, inr, refl, sym, ap, ◌∙◌, arith, Bool, true, false, ◌&&◌,
  ◌==◌, if◌then◌else◌, ==_iff, [], ◌∷◌, ◌++◌, IsU16, bit_and_low_15,
}
use mathlib.Core.Path.{subst}
use profinet_rs.Listener.Header.{RtaHeader, kind, rta_type_data}
use profinet_rs.Listener.Sequencer.{
  re_ack, accept, RtaSequencer, ack_seq_pair, next_seq, advance_send, on_data, on_pdu,
}
use profinet_rs.Listener.Sequencer.Link.{
  number, before, IsAlarm, Link, idle_link, delivers, acknowledges, receive, answered, Step, lost,
  heard, answered_too, other, Reach, here, next, first,
}

pub number_fits : (n : ℕ) → IsU16 (number n)
number_fits zero = omega arith
number_fits (suc n) = omega arith

pub next_seq-number : (n : ℕ) → next_seq (number n) ≡ number (suc n)
unfolding next_seq
next_seq-number zero = refl
next_seq-number (suc n) = omega (arith, bit_and_low_15 ((n % 32768 + 1) % 65536))

before-number : (n : ℕ) → (number n == before n) ≡ false
before-number zero = refl
before-number (suc zero) = refl
before-number (suc (suc n)) = ground arith

-- The current alarm is not taken yet, or it is.
record Waiting (s : Link) : Type 0 where
  expected : s.seq.exp_seq_num ≡ number s.device
  last : s.seq.exp_seq_num_o ≡ before s.device
  given : s.delivered ≡ first s.device

record Taken (s : Link) : Type 0 where
  expected : s.seq.exp_seq_num ≡ number (suc s.device)
  last : s.seq.exp_seq_num_o ≡ number s.device
  given : s.delivered ≡ first (suc s.device)

abbrev Inv : Link → Type 0
Inv s = Waiting s ⊎ Taken s

pub on_pdu-alarm :
    (n : ℕ) (h : RtaHeader) (q : RtaSequencer) → IsAlarm n h → on_pdu h q ≡ on_data h q
unfolding on_pdu
on_pdu-alarm n h q a = rw (a.of_version, a.of_kind, a.asks_ack) refl

pub on_data-fresh :
    (n : ℕ) (h : RtaHeader) (q : RtaSequencer)
    → IsAlarm n h
    → q.exp_seq_num ≡ number n
    → q.exp_seq_num_o ≡ before n
    → ((on_data h q).0 ≡ accept)
      × ((on_data h q).1.exp_seq_num ≡ number (suc n))
      × ((on_data h q).1.exp_seq_num_o ≡ number n)
unfolding on_data advance_send
on_data-fresh n h q a e o = ground (arith, a.numbered, before-number n, next_seq-number n)

pub on_data-again :
    (n : ℕ) (h : RtaHeader) (q : RtaSequencer)
    → IsAlarm n h
    → q.exp_seq_num_o ≡ number n
    → on_data h q ≡ (re_ack, q)
unfolding on_data
on_data-again n h q a o = ground (arith, a.numbered)

on_pdu-other :
    (h : RtaHeader) (q : RtaSequencer)
    → (kind h == rta_type_data) ≡ false
    → (delivers (on_pdu h q).0 ≡ false)
      × ((on_pdu h q).1.exp_seq_num ≡ q.exp_seq_num)
      × ((on_pdu h q).1.exp_seq_num_o ≡ q.exp_seq_num_o)
unfolding on_pdu advance_send
on_pdu-other h q o = ground (arith)

receive-Taken : (h : RtaHeader) (s : Link) → IsAlarm s.device h → Inv s → Taken (receive h s)
receive-Taken h s a (inl w) =
    let step = on_data-fresh s.device h s.seq a w.expected w.last in
    rw (on_pdu-alarm s.device h s.seq a) (record {
      expected = step.1;
      last = step.2;
      given = rw step.0 (ap (λ l. l ++ (s.device ∷ [])) w.given);
    })
receive-Taken h s a (inr t) =
    rw (on_pdu-alarm s.device h s.seq a, on_data-again s.device h s.seq a t.last)
      (record { expected = t.expected; last = t.last; given = t.given })

answered-Inv : (h : RtaHeader) (s : Link) → IsAlarm s.device h → Inv s → Inv (answered h s)
answered-Inv h s a i =
    let t = receive-Taken h s a i in
    moved
      (acknowledges (on_pdu h s.seq).0 && ((ack_seq_pair (receive h s).seq).1 == number s.device)) t
  where
    moved :
        (b : Bool)
        → Taken (receive h s)
        → Inv (if b then record (receive h s) { device = suc s.device } else receive h s)
    moved true t = inl (record { expected = t.expected; last = t.last; given = t.given })
    moved false t = inr t

receive_other-Inv :
    (h : RtaHeader) (s : Link) → (kind h == rta_type_data) ≡ false → Inv s → Inv (receive h s)
receive_other-Inv h s o i =
    let same = on_pdu-other h s.seq o in
    rw same.0 (elim i [
      | inl w ↦
          inl (record { expected = same.1 ∙ w.expected; last = same.2 ∙ w.last; given = w.given })
      | inr t ↦
          inr (record { expected = same.1 ∙ t.expected; last = same.2 ∙ t.last; given = t.given })
    ])

Step-Inv : {s t : Link} → Step s t → Inv s → Inv t
Step-Inv (lost e) i = subst Inv (sym e) i
Step-Inv {s} (heard h a e) i = subst Inv (sym e) (inr (receive-Taken h s a i))
Step-Inv {s} (answered_too h a e) i = subst Inv (sym e) (answered-Inv h s a i)
Step-Inv {s} (other h o e) i = subst Inv (sym e) (receive_other-Inv h s o i)

Reach-Inv : {s : Link} → Reach idle_link s → Inv s
Reach-Inv here = inl (record { expected = refl; last = refl; given = refl })
Reach-Inv (next r st) = Step-Inv st (Reach-Inv r)

-- A device sends each alarm until it is acknowledged, and PDUs and answers may be lost, repeated and
-- mixed with other PDUs. From a fresh sequencer the application is then given every alarm that the device
-- has finished, once and in order, and at most the one that it is sending besides, for any number of
-- alarms and over the wraps of the sequence number.
pub Reach-delivered :
    {s : Link}
    → Reach idle_link s
    → (s.delivered ≡ first s.device) ⊎ (s.delivered ≡ first (suc s.device))
Reach-delivered r = elim (Reach-Inv r) [ inl w ↦ inl w.given | inr t ↦ inr t.given ]

-- Once the device's alarm and the answer to it both arrive, the device goes on to its next alarm.
pub answered-device :
    {s : Link} (h : RtaHeader)
    → Reach idle_link s
    → IsAlarm s.device h
    → (answered h s).device ≡ suc s.device
answered-device {s} h r a =
    let t = receive-Taken h s a (Reach-Inv r) in
    let acked : acknowledges (on_pdu h s.seq).0 ≡ true = acknowledged (Reach-Inv r) in
    rw (acked, t.last, (==_iff (number s.device) (number s.device)).1 refl) refl
  where
    acknowledged : Inv s → acknowledges (on_pdu h s.seq).0 ≡ true
    acknowledged (inl w) =
        rw (on_pdu-alarm s.device h s.seq a, (on_data-fresh s.device h s.seq a w.expected w.last).0)
          refl
    acknowledged (inr t) =
        rw (on_pdu-alarm s.device h s.seq a, on_data-again s.device h s.seq a t.last) refl
