-- ===== src/Listener/Pass.antt =====
-- src/alarm_listener.rs: one pass of the receive loop that `AlarmListener::start` spawns.
pub mod Acts
pub mod Total
pub mod Delivery
use profinet_rs.Prelude.{
  ℕ, ◌-◌, ◌*◌, min, max, Bool, true, false, ◌==◌, if◌then◌else◌, Option, none, some, List, [], ◌∷◌,
  ◌++◌, Bytes, Exec, ok, ◌>>=◌, to_option,
}
use profinet_rs.Alarms.Notification.{AlarmNotification, is_high_priority}
use profinet_rs.Listener.Header
use profinet_rs.Listener.Header.{RtaHeader}
use profinet_rs.Listener.Frame.{
  AlarmEndpoint, check_layer2_frame, process_layer2_alarm, build_alarm_ack,
  build_transport_ack_frame, build_nack_frame,
}
use profinet_rs.Listener.Sequencer.{
  RtaAction, ignore, our_data_acked, device_nack, device_error, re_ack, send_nack, accept,
  ack_seq_pair, on_pdu,
}
use profinet_rs.Listener.Channel
use profinet_rs.Listener.Channel.{AlarmChannel, Served, service, next_due}

-- What the socket gives: a frame, nothing in time, or an error.
pub data Incoming : Type 0 where
  frame_in : Bytes → Incoming
  timed_out : Incoming
  failed : Incoming

-- The thread's own state: a channel per priority.
pub record Channels : Type 0 where
  pub low : AlarmChannel
  pub high : AlarmChannel

abbrev pub new_channels : Channels
new_channels = record { low = Channel.new false; high = Channel.new true }

abbrev pub channel_of : Bool → Channels → AlarmChannel
channel_of is_high l = if is_high then l.high else l.low

abbrev pub with_channel : Bool → AlarmChannel → Channels → Channels
with_channel true c l = record l { high = c }
with_channel false c l = record l { low = c }

-- What a pass leaves: whether the loop goes on, the frames sent, the alarms that the callbacks were called
-- with, and the channels.
pub record Passed : Type 0 where
  pub goes_on : Bool
  pub sent : List Bytes
  pub delivered : List AlarmNotification
  pub channels : Channels

abbrev pub quiet : List Bytes → Channels → Passed
quiet sent l = record { goes_on = true; sent = sent; delivered = []; channels = l }

-- `Duration::from_millis(100 * u64::from(rta_timeout_factor.max(1)))`
unfoldable pub retransmit_after : AlarmEndpoint → ℕ
retransmit_after endpoint = 100000 * max endpoint.rta_timeout_factor 1

-- How long the pass waits for a frame.
abbrev until : ℕ → Option ℕ → ℕ → ℕ
until now none wait = wait
until now (some due) wait = min wait (due - now)

unfoldable pub recv_wait : ℕ → Channels → ℕ
recv_wait now l = max (until now (next_due l.high) (until now (next_due l.low) 1000000)) 1000

module _ (endpoint : AlarmEndpoint) (controller_mac : Bytes) where
  -- The AlarmAck goes into the queue of the alarm's own priority.
  unfoldable pub answer_alarm : ℕ → List Bytes → AlarmNotification → Channels → Passed
  answer_alarm later sent alarm l =
      let is_high = is_high_priority alarm in
      let c = channel_of is_high l in
      let (acks, c') =
        service endpoint controller_mac (retransmit_after endpoint) later
          (record c { queued = c.queued ++ (build_alarm_ack alarm ∷ []) }) in
      record {
        goes_on = true;
        sent = sent ++ acks;
        delivered = alarm ∷ [];
        channels = with_channel is_high c' l;
      }

  -- `let Ok(Some((_, alarm))) = process_layer2_alarm(..) else { continue }`
  unfoldable pub give_on :
      ℕ → List Bytes → Option (Option (Option RtaHeader × AlarmNotification)) → Channels → Passed
  unfolding answer_alarm
  give_on later sent (some (some (rta, alarm))) l = answer_alarm later sent alarm l
  give_on later sent (some none) l = quiet sent l
  give_on later sent none l = quiet sent l

  -- The actions, with the sequence numbers that the channel then has.
  unfoldable pub act : RtaAction → Bool → Bytes → ℕ → Channels → Exec Passed
  unfolding give_on
  act our_data_acked is_high payload later l =
      ok (quiet [] (with_channel is_high (record (channel_of is_high l) { pending = none }) l))
  act send_nack is_high payload later l =
      let (send_seq, ack_seq) = ack_seq_pair (channel_of is_high l).seq in
      ok (quiet (build_nack_frame endpoint controller_mac send_seq ack_seq is_high ∷ []) l)
  act re_ack is_high payload later l =
      let (send_seq, ack_seq) = ack_seq_pair (channel_of is_high l).seq in
      ok (quiet (build_transport_ack_frame endpoint controller_mac send_seq ack_seq is_high ∷ []) l)
  act accept is_high payload later l =
      let (send_seq, ack_seq) = ack_seq_pair (channel_of is_high l).seq in
      to_option (process_layer2_alarm payload endpoint.controller_ref) >>= λ processed. ok (
        give_on later
          (build_transport_ack_frame endpoint controller_mac send_seq ack_seq is_high ∷ [])
          processed l)
  act _ is_high payload later l = ok (quiet [] l)

  unfoldable pub handle_pdu : RtaHeader → Bool → Bytes → ℕ → Channels → Exec Passed
  unfolding act
  handle_pdu rta is_high payload later l =
      let c = channel_of is_high l in
      let (action, seq) = on_pdu rta c.seq in
      act action is_high payload later (with_channel is_high (record c { seq = seq }) l)

  -- The RTA header decides whether the PDU is for this controller.
  unfoldable pub handle_header : Option RtaHeader → Bool → Bytes → ℕ → Channels → Exec Passed
  unfolding handle_pdu
  handle_header none is_high payload later l = ok (quiet [] l)
  handle_header (some rta) is_high payload later l =
      if rta.alarm_dst_endpoint == endpoint.controller_ref
      then handle_pdu rta is_high payload later l
      else ok (quiet [] l)

  -- What `check_layer2_frame` leaves of a frame.
  unfoldable pub handle_payload : Option (Bool × Bytes) → ℕ → Channels → Exec Passed
  unfolding handle_header
  handle_payload none later l = ok (quiet [] l)
  handle_payload (some (is_high, payload)) later l =
      to_option (Header.from_bytes payload) >>= λ header.
      handle_header header is_high payload later l

  unfoldable pub receive_pass : Incoming → ℕ → Channels → Exec Passed
  unfolding handle_payload
  receive_pass timed_out later l = ok (quiet [] l)
  receive_pass failed later l = ok (record (quiet [] l) { goes_on = false })
  receive_pass (frame_in frame) later l =
      check_layer2_frame frame endpoint.device_mac >>= λ checked. handle_payload checked later l

  -- Both channels are served before the pass waits.
  unfoldable pub serve_both : ℕ → Channels → List Bytes × Channels
  serve_both now l =
      let (low_sent, low) = service endpoint controller_mac (retransmit_after endpoint) now l.low in
      let (high_sent, high) =
        service endpoint controller_mac (retransmit_after endpoint) now l.high in
      (low_sent ++ high_sent, record { low = low; high = high })

  unfoldable pub listen_pass : ℕ → Incoming → ℕ → Channels → Exec Passed
  unfolding serve_both receive_pass
  listen_pass now incoming later l =
      let (sent, served) = serve_both now l in
      receive_pass incoming later served >>= λ r. ok (record r { sent = sent ++ r.sent })
