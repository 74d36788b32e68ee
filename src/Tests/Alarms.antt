-- ===== src/Tests/Alarms.antt =====
-- An alarm of a sample device, on its way to the callbacks.
use profinet_rs.Prelude.{
  ℕ, ◌*◌, ◌<◌, ◌≤◌, ◌≡◌, ◌⊎◌, inl, inr, refl, arith, false, some, List, [], ◌∷◌, ◌++◌, length,
  slice, ok, err, ◌>>=◌, Yields, alarm_too_short,
}
use profinet_rs.Tests.Samples.{controller_mac, device_mac}
use profinet_rs.Alarms.Item.{AlarmItem, diagnosis, rs, generic}
use profinet_rs.Alarms.Notification.{parse_alarm_notification, parse_alarm_cr_res}
use profinet_rs.Alarms.Notification.Total.{parse_alarm_notification-Yields}
use profinet_rs.Alarms.Notification.RoundTrip.{
  AlarmPdu, IsWirePdu, pdu_bytes, notification_of, parse_alarm_notification-pdu_bytes,
}
use profinet_rs.Alarms.Notification.CrRes.{
  ResponseBlock, response_bytes, parse_alarm_cr_res-response_bytes,
}
use profinet_rs.Listener.Header
use profinet_rs.Listener.Header.{RtaHeader, version, kind, version_1, rta_type_data}
use profinet_rs.Listener.Frame.{
  AlarmEndpoint, rta_header, check_layer2_frame, build_rta_frame, build_alarm_ack,
}
use profinet_rs.Listener.Frame.RoundTrip.{IsWireRta, check_layer2_frame-build_rta_frame}
use profinet_rs.Listener.Frame.Ack.{build_alarm_ack-notification_of}
use profinet_rs.Listener.Sequencer.Link.{
  Link, idle_link, Reach, here, next, heard, IsAlarm, receive, answered,
}
use profinet_rs.Listener.Sequencer.Once.{Reach-delivered, answered-device}
use profinet_rs.Listener.Channel
use profinet_rs.Listener.Channel.{AlarmChannel}
use profinet_rs.Listener.Pass.{frame_in, new_channels, listen_pass}
use profinet_rs.Listener.Pass.Total.{Passes, listen_pass-Yields}
use profinet_rs.Listener.Pass.Delivery.{DeviceAlarm, device_pdu, device_frame}

abbrev short_circuit : AlarmItem
short_circuit = diagnosis (record {
  user_structure_id = 0x8002;
  channel_number = 3;
  channel_properties = 0x0800;
  channel_error_type = 1;
  ext_channel_error_type = 0x8000;
  ext_channel_add_value = 7;
  qualified_channel_qualifier = 0;
})

abbrev pdu : AlarmPdu
pdu = record {
  block_type = 2;
  ver_high = 1;
  ver_low = 0;
  alarm_type = 1;
  api = 0;
  slot = 1;
  subslot = 1;
  module_ident = 0x30;
  submodule_ident = 1;
  specifier = 0xA805;
  items =
      short_circuit
      ∷ rs (record { user_structure_id = 0x8300; rs_alarm_info = 9 })
      ∷ generic 0x4000 (1 ∷ 2 ∷ [])
      ∷ [];
}

pdu-IsWirePdu : IsWirePdu pdu
pdu-IsWirePdu = record {
  block_type_fits = omega arith;
  alarm_type_fits = omega arith;
  api_fits = omega arith;
  slot_fits = omega arith;
  subslot_fits = omega arith;
  module_fits = omega arith;
  submodule_fits = omega arith;
  specifier_fits = omega arith;
  items_fit = (
    record {
      usi_known = inr refl;
      number_fits = omega arith;
      properties_fit = omega arith;
      error_fits = omega arith;
      ext_error_fits = omega arith;
      ext_value_fits = omega arith;
      qualifier_fits = omega arith;
      plain_zero = λ h. cc;
      unqualified_zero = λ _. refl;
    },
    (λ h. cc),
    ((inl refl, omega arith), (λ h. cc), ((omega arith, refl), (λ _. refl), tt)),
  );
  length_fits = omega arith;
}

parse_alarm_notification-pdu_bytes_example :
    parse_alarm_notification (pdu_bytes pdu ++ (0 ∷ 0 ∷ 0 ∷ [])) ≡ ok (notification_of pdu)
parse_alarm_notification-pdu_bytes_example =
    parse_alarm_notification-pdu_bytes pdu (0 ∷ 0 ∷ 0 ∷ []) pdu-IsWirePdu

parse_alarm_notification-Yields_example :
    ((length (pdu_bytes pdu) < 26)
      × (parse_alarm_notification (pdu_bytes pdu) ≡ err alarm_too_short))
    ⊎ ((26 ≤ length (pdu_bytes pdu))
        × Yields
            (parse_alarm_notification (pdu_bytes pdu))
            (λ n. 2 * length n.items ≤ length n.raw_payload))
parse_alarm_notification-Yields_example = parse_alarm_notification-Yields (pdu_bytes pdu)

abbrev response : List ResponseBlock
response =
    record { block_type = 0x8101; body = 1 ∷ 0 ∷ 7 ∷ [] }
    ∷ record { block_type = 0x8103; body = 1 ∷ 0 ∷ 0 ∷ 1 ∷ 0 ∷ 3 ∷ 0 ∷ 200 ∷ [] }
    ∷ []

parse_alarm_cr_res-response_bytes_example :
    parse_alarm_cr_res (response_bytes response) ≡ ok (some 3)
parse_alarm_cr_res-response_bytes_example = parse_alarm_cr_res-response_bytes response (
  (omega arith, omega arith, omega arith, (λ e. absurd (omega arith))),
  ((omega arith, omega arith, omega arith, (λ _. omega arith)), tt),
)

build_alarm_ack-notification_of_example :
    (parse_alarm_notification (pdu_bytes pdu ++ []) >>= λ n. ok (build_alarm_ack n))
    ≡ ok (
        0x80 ∷ 2 ∷ 0 ∷ 18 ∷ 1 ∷ 0 ∷ 0 ∷ 1 ∷ 0 ∷ 0 ∷ 0 ∷ 0 ∷ 0 ∷ 1 ∷ 0 ∷ 1 ∷ 0xA8 ∷ 5 ∷ 0 ∷ 0 ∷ 0 ∷ 0
        ∷ [])
build_alarm_ack-notification_of_example =
    build_alarm_ack-notification_of pdu [] pdu-IsWirePdu (inr refl)

abbrev endpoint : AlarmEndpoint
endpoint = record {
  interface = [];
  controller_ref = 1;
  device_ref = 3;
  device_mac = device_mac;
  transport = 0;
  rta_timeout_factor = 1;
  rta_retries = 3;
}

abbrev device_endpoint : AlarmEndpoint
device_endpoint = record {
  interface = [];
  controller_ref = 3;
  device_ref = 1;
  device_mac = controller_mac;
  transport = 0;
  rta_timeout_factor = 1;
  rta_retries = 3;
}

abbrev sent_alarm : DeviceAlarm
sent_alarm = record {
  endpoint = device_endpoint;
  mac = device_mac;
  n = 0;
  flags = 0x11;
  ack_seq_num = 0xFFFE;
  is_high = false;
  alarm = pdu;
  padding = [];
}

sent_alarm-IsWireRta : IsWireRta device_endpoint (device_pdu sent_alarm)
sent_alarm-IsWireRta = record {
  controller_fits = omega arith;
  device_fits = omega arith;
  kind_fits = omega arith;
  send_fits = omega arith;
  ack_fits = omega arith;
}

check_layer2_frame-build_rta_frame_example :
    let h = rta_header device_endpoint (device_pdu sent_alarm) in
    let payload = Header.to_bytes h ++ pdu_bytes pdu in
    (check_layer2_frame
        (build_rta_frame device_endpoint device_mac (device_pdu sent_alarm))
        device_mac
      ≡ ok (some (false, payload)))
    × (Header.from_bytes payload ≡ ok h)
    × (version h ≡ version_1)
    × (kind h ≡ rta_type_data)
    × (slice payload 12 (length payload) ≡ ok (pdu_bytes pdu))
check_layer2_frame-build_rta_frame_example =
    check_layer2_frame-build_rta_frame device_endpoint device_mac (device_pdu sent_alarm) refl refl
      sent_alarm-IsWireRta

listen_pass-Yields_example :
    Yields
      (listen_pass endpoint controller_mac 5 (frame_in (device_frame sent_alarm)) 10 new_channels)
      (Passes endpoint (frame_in (device_frame sent_alarm)) new_channels)
listen_pass-Yields_example =
    listen_pass-Yields endpoint controller_mac 5 (frame_in (device_frame sent_alarm)) 10
      new_channels

-- A channel with two AlarmAcks to send.
abbrev busy : AlarmChannel
busy = record (Channel.new false) { queued = (1 ∷ []) ∷ (2 ∷ []) ∷ [] }

abbrev times : List ℕ
times = 0 ∷ 100000 ∷ 200000 ∷ []

abbrev alarm_header : RtaHeader
alarm_header = rta_header device_endpoint (device_pdu sent_alarm)

alarm_header-IsAlarm : IsAlarm 0 alarm_header
unfolding version kind Header.encode_pdu_type
alarm_header-IsAlarm = record {
  of_version = refl;
  of_kind = refl;
  asks_ack = refl;
  numbered = refl;
}

-- The alarm arrives, and the answer is lost.
abbrev heard_once : Link
heard_once = receive alarm_header idle_link

heard_once-Reach : Reach idle_link heard_once
heard_once-Reach = next here (heard alarm_header alarm_header-IsAlarm refl)

Reach-delivered_example : (heard_once.delivered ≡ []) ⊎ (heard_once.delivered ≡ 0 ∷ [])
Reach-delivered_example = Reach-delivered heard_once-Reach

answered-device_example : (answered alarm_header heard_once).device ≡ 1
answered-device_example = answered-device alarm_header heard_once-Reach alarm_header-IsAlarm
