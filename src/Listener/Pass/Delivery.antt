-- ===== src/Listener/Pass/Delivery.antt =====
-- src/alarm_listener.rs: an alarm frame, from the device to the callbacks.
use profinet_rs.Prelude.{ℕ, ◌≡◌, bit_and, Bool, false, ◌==◌, List, ◌∷◌, ◌++◌, length, Bytes}
use profinet_rs.Alarms.Notification.RoundTrip.{AlarmPdu, IsWirePdu, pdu_bytes}
use profinet_rs.Listener.Header
use profinet_rs.Listener.Header.{RtaHeader, rta_type_data, add_flags_tack}
use profinet_rs.Listener.Frame.{
  AlarmEndpoint, build_rta_frame, build_transport_ack_frame, RtaPdu, rta_header,
}
use profinet_rs.Listener.Frame.RoundTrip.{IsWireRta}
use profinet_rs.Listener.Sequencer.{RtaSequencer, on_data}
use profinet_rs.Listener.Sequencer.Link.{number}
use profinet_rs.Listener.Pass.{Channels, channel_of, with_channel}

-- The device's side of the alarm CR, and its alarm `p` as its PDU number `n`.
pub record DeviceAlarm : Type 0 where
  pub endpoint : AlarmEndpoint
  pub mac : Bytes
  pub n : ℕ
  pub flags : ℕ
  pub ack_seq_num : ℕ
  pub is_high : Bool
  pub alarm : AlarmPdu
  pub padding : Bytes

abbrev pub device_pdu : DeviceAlarm → RtaPdu
device_pdu d = record {
  pdu_kind = rta_type_data;
  add_flags = d.flags;
  send_seq_num = number d.n;
  ack_seq_num = d.ack_seq_num;
  var_part = pdu_bytes d.alarm ++ d.padding;
  high_priority = d.is_high;
}

abbrev pub device_frame : DeviceAlarm → Bytes
device_frame d = build_rta_frame d.endpoint d.mac (device_pdu d)

-- The alarm fits its fields, asks for an acknowledgment, and comes from the device of `endpoint`.
pub record IsSentTo (endpoint : AlarmEndpoint) (d : DeviceAlarm) : Type 0 where
  pub to_length : length d.endpoint.device_mac ≡ 6
  pub from_length : length d.mac ≡ 6
  pub fits : IsWireRta d.endpoint (device_pdu d)
  pub alarm_fits : IsWirePdu d.alarm
  pub asks_ack : (bit_and d.flags add_flags_tack == 0) ≡ false
  pub from_device : endpoint.device_mac ≡ d.mac
  pub to_controller : d.endpoint.device_ref ≡ endpoint.controller_ref

module _ (endpoint : AlarmEndpoint) (mac : Bytes) (d : DeviceAlarm) (w : IsSentTo endpoint d) where
  header : RtaHeader
  header = rta_header d.endpoint (device_pdu d)

  payload : Bytes
  payload = Header.to_bytes header ++ (device_pdu d).var_part

  module _ (later : ℕ) (l : Channels) (q : RtaSequencer)
      (at : (channel_of d.is_high l).seq ≡ q) where
    -- The channels with the sequence numbers that the PDU leaves.
    moved : Channels
    moved =
        with_channel d.is_high (record (channel_of d.is_high l) { seq = (on_data header q).1 }) l

    ack : Bytes
    ack =
        let c = (channel_of d.is_high moved).seq in
        build_transport_ack_frame endpoint mac c.send_seq_num_o c.exp_seq_num_o d.is_high

  -- The frames that acknowledge the alarm.
  abbrev pub Acknowledges : List Bytes → Type 0
  Acknowledges sent =
      (send_seq : ℕ) × (rest : List Bytes) × (sent
        ≡ build_transport_ack_frame endpoint mac send_seq (number d.n) d.is_high ∷ rest)
