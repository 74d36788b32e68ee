-- ===== src/Listener/Sequencer/Link.antt =====
-- A device that sends an alarm until it is acknowledged, and the sequencer that listens to it.
use profinet_rs.Prelude.{
  ℕ, zero, suc, ◌%◌, ◌≡◌, bit_and, Bool, true, false, ◌&&◌, ◌==◌, if◌then◌else◌, List, [], ◌∷◌,
  ◌++◌,
}
use profinet_rs.Listener.Header.{RtaHeader, kind, version, version_1, rta_type_data, add_flags_tack}
use profinet_rs.Listener.Sequencer.{
  RtaAction, re_ack, accept, RtaSequencer, new, ack_seq_pair, on_pdu,
}

-- The sequence number of a device's alarm: 0xFFFF, and then 0 to 0x7FFF over and over.
abbrev pub number : ℕ → ℕ
number zero = 0xFFFF
number (suc n) = n % 32768

abbrev pub before : ℕ → ℕ
before zero = 0xFFFE
before (suc n) = number n

-- A DATA PDU with the device's alarm `n`, whatever else it says.
pub record IsAlarm (n : ℕ) (h : RtaHeader) : Type 0 where
  pub of_version : version h ≡ version_1
  pub of_kind : kind h ≡ rta_type_data
  pub asks_ack : (bit_and h.add_flags add_flags_tack == 0) ≡ false
  pub numbered : h.send_seq_num ≡ number n

-- The receiver, the alarm that the device is sending, and the alarms that the application was given.
pub record Link : Type 0 where
  pub seq : RtaSequencer
  pub device : ℕ
  pub delivered : List ℕ

abbrev pub idle_link : Link
idle_link = record { seq = new; device = 0; delivered = [] }

-- The actions for which the receive loop gives the notification on, and those for which it sends a
-- transport ACK.
abbrev pub delivers : RtaAction → Bool
delivers accept = true
delivers _ = false

abbrev pub acknowledges : RtaAction → Bool
acknowledges accept = true
acknowledges re_ack = true
acknowledges _ = false

abbrev pub receive : RtaHeader → Link → Link
receive h s = record s {
  seq = (on_pdu h s.seq).1;
  delivered = if delivers (on_pdu h s.seq).0 then s.delivered ++ (s.device ∷ []) else s.delivered;
}

-- What an answer with these numbers does to the device: it goes on when its alarm is acknowledged.
abbrev pub answered : RtaHeader → Link → Link
answered h s =
    let after = receive h s in
    if acknowledges (on_pdu h s.seq).0 && ((ack_seq_pair after.seq).1 == number s.device)
    then record after { device = suc s.device }
    else after

-- The alarm is lost; it arrives and the answer is lost; both arrive; or another PDU of the device arrives.
pub data Step (s t : Link) : Type 0 where
  lost : t ≡ s → Step s t
  heard : (h : RtaHeader) → IsAlarm s.device h → t ≡ receive h s → Step s t
  answered_too : (h : RtaHeader) → IsAlarm s.device h → t ≡ answered h s → Step s t
  other : (h : RtaHeader) → (kind h == rta_type_data) ≡ false → t ≡ receive h s → Step s t

pub data Reach (s : Link) : Link → Type 0 where
  here : Reach s s
  next : {t u : Link} → Reach s t → Step t u → Reach s u

abbrev pub first : ℕ → List ℕ
first zero = []
first (suc n) = first n ++ (n ∷ [])
