-- ===== src/Listener/Pass/Acts.antt =====
-- src/alarm_listener.rs: what the actions of the receive loop do to the channels.
use profinet_rs.Prelude.{
  ℕ, ◌≡◌, ◌⊎◌, inl, inr, refl, arith, Bool, true, false, not, Yields-bind, Option, none, some, List,
  [], ◌∷◌, ◌++◌, length, Bytes, to_option, Yields, to_option-Yields,
}
use profinet_rs.Alarms.Notification.{AlarmNotification, is_high_priority}
use profinet_rs.Listener.Header.{RtaHeader}
use profinet_rs.Listener.Frame.{AlarmEndpoint, process_layer2_alarm, build_alarm_ack}
use profinet_rs.Listener.Sequencer.{
  RtaAction, RtaSequencer, ignore, our_data_acked, device_nack, device_error, re_ack, send_nack,
  accept,
}
use profinet_rs.Listener.Channel.{AlarmChannel, service}
use profinet_rs.Listener.Channel.Keeps.{service-Keeps}
use profinet_rs.Listener.Pass.{
  Channels, channel_of, with_channel, Passed, retransmit_after, answer_alarm, give_on, act,
}
use profinet_rs.Listener.Frame.Total.{process_layer2_alarm-Back}

-- Both channels keep their sequence numbers.
abbrev pub SameSeqs : Channels → Channels → Type 0
SameSeqs l l' = (l'.low.seq ≡ l.low.seq) × (l'.high.seq ≡ l.high.seq)

-- Nothing is given on, or one alarm, for a PDU that was accepted.
abbrev pub AtMostOne : RtaAction → Passed → Type 0
AtMostOne a r = (r.delivered ≡ []) ⊎ ((a ≡ accept) × (length r.delivered ≡ 1))

pub same_at :
    (high : Bool) (l l' : Channels)
    → SameSeqs l l'
    → (channel_of high l').seq ≡ (channel_of high l).seq
same_at true l l' s = s.1
same_at false l l' s = s.0

pub put_seq :
    (high : Bool) (q : RtaSequencer) (l : Channels)
    → let l' = with_channel high (record (channel_of high l) { seq = q }) l in
      ((channel_of high l').seq ≡ q)
      × ((channel_of (not high) l').seq ≡ (channel_of (not high) l).seq)
put_seq true q l = (refl, refl)
put_seq false q l = (refl, refl)

module _ (endpoint : AlarmEndpoint) (mac : Bytes) where
  pub answer_alarm-SameSeqs :
      (later : ℕ) (sent : List Bytes) (alarm : AlarmNotification) (l : Channels)
      → SameSeqs l (answer_alarm endpoint mac later sent alarm l).channels
  unfolding answer_alarm
  answer_alarm-SameSeqs later sent alarm l = put (is_high_priority alarm)
    where
      queue : AlarmChannel → AlarmChannel
      queue c = record c { queued = c.queued ++ (build_alarm_ack alarm ∷ []) }

      put :
          (high : Bool)
          → SameSeqs l (
              with_channel high
                (service endpoint mac
                  (retransmit_after endpoint)
                  later
                  (queue (channel_of high l))).1
                l)
      put true =
          (refl, (service-Keeps endpoint mac (retransmit_after endpoint) later (queue l.high)).0)
      put false =
          ((service-Keeps endpoint mac (retransmit_after endpoint) later (queue l.low)).0, refl)

  give_on-SameSeqs :
      (later : ℕ) (sent : List Bytes)
      (processed : Option (Option (Option RtaHeader × AlarmNotification))) (l : Channels)
      → let r = give_on endpoint mac later sent processed l in
        SameSeqs l r.channels × AtMostOne accept r
  unfolding give_on
  give_on-SameSeqs later sent (some (some (rta, alarm))) l =
      (answer_alarm-SameSeqs later sent alarm l, inr (refl, unfold answer_alarm in omega arith))
  give_on-SameSeqs later sent (some none) l = ((refl, refl), inl refl)
  give_on-SameSeqs later sent none l = ((refl, refl), inl refl)

  clear-SameSeqs :
      (high : Bool) (l : Channels)
      → SameSeqs l (with_channel high (record (channel_of high l) { pending = none }) l)
  clear-SameSeqs true l = (refl, refl)
  clear-SameSeqs false l = (refl, refl)

  pub act-Yields :
      (a : RtaAction) (high : Bool) (payload : Bytes) (later : ℕ) (l : Channels)
      → Yields
          (act endpoint mac a high payload later l)
          (λ r. SameSeqs l r.channels × AtMostOne a r)
  unfolding act
  act-Yields ignore high payload later l = ((refl, refl), inl refl)
  act-Yields our_data_acked high payload later l = (clear-SameSeqs high l, inl refl)
  act-Yields device_nack high payload later l = ((refl, refl), inl refl)
  act-Yields device_error high payload later l = ((refl, refl), inl refl)
  act-Yields re_ack high payload later l = ((refl, refl), inl refl)
  act-Yields send_nack high payload later l = ((refl, refl), inl refl)
  act-Yields accept high payload later l =
      Yields-bind (to_option (process_layer2_alarm payload endpoint.controller_ref)) _ _ _
        (to_option-Yields (process_layer2_alarm payload endpoint.controller_ref) _
          (process_layer2_alarm-Back payload endpoint.controller_ref))
        (λ processed _. give_on-SameSeqs later _ processed l)
