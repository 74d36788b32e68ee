-- ===== src/Listener/Frame.antt =====
-- src/alarm_listener.rs: the Ethernet frames of the alarm transport, read and built.
pub mod Total
pub mod RoundTrip
pub mod Ack
use profinet_rs.Prelude.{
  ℕ, ◌+◌, ◌-◌, ◌%◌, bit_and, bit_or, Bool, true, false, not, ◌||◌, ◌==◌, ltb, leb, if◌then◌else◌,
  Option, none, some, [], ◌∷◌, ◌++◌, length, Bytes, u16_at, slice, be16, be32, Exec, ok, ◌>>=◌,
  ◌>>◌, same_bytes,
}
use profinet_rs.Util.{skip_vlan_tags}
use profinet_rs.Alarms.Notification.{AlarmNotification, is_high_priority, parse_alarm_notification}
use profinet_rs.Rt.Frame.{ethertype_profinet}
use profinet_rs.Listener.Header
use profinet_rs.Listener.Header.{
  RtaHeader, kind, version, encode_pdu_type, frame_id_alarm_high, frame_id_alarm_low,
  vlan_tag_alarm_high, vlan_tag_alarm_low, add_flags_window_1, add_flags_tack, rta_size,
  rta_type_data, rta_type_nack, rta_type_ack, version_1,
}

-- `AlarmEndpoint`. The interface's name is its UTF-8 bytes.
pub record AlarmEndpoint : Type 0 where
  pub interface : Bytes
  pub controller_ref : ℕ
  pub device_ref : ℕ
  pub device_mac : Bytes
  pub transport : ℕ
  pub rta_timeout_factor : ℕ
  pub rta_retries : ℕ

-- `check_layer2_frame` behind the VLAN tags: the priority and what follows the frame ID.
unfoldable pub check_behind : Bytes → ℕ → Exec (Option (Bool × Bytes))
check_behind frame tag = if ltb (length frame) (16 + tag) then ok none else (do
  ethertype ← u16_at frame (12 + tag)
  if ethertype == ethertype_profinet
      then (do
        frame_id ← u16_at frame (14 + tag)
        rest ← slice frame (16 + tag) (length frame)
        if frame_id == frame_id_alarm_high
            then ok (some (true, rest))
            else (if frame_id == frame_id_alarm_low then ok (some (false, rest)) else ok none))
      else ok none)

unfoldable pub check_layer2_frame : Bytes → Bytes → Exec (Option (Bool × Bytes))
unfolding check_behind
check_layer2_frame frame device_mac = if ltb (length frame) 14 then ok none else (do
  src ← slice frame 6 12
  if same_bytes src device_mac
      then (skip_vlan_tags frame >>= λ offset. check_behind frame (offset - 12))
      else ok none)

-- `process_layer2_alarm` where the payload holds an RTA header
unfoldable pub process_rta : Bytes → ℕ → Exec (Option (Option RtaHeader × AlarmNotification))
process_rta payload controller_ref = do
  rta ← Header.from_bytes payload
  if not (rta.alarm_dst_endpoint == controller_ref)
        || (not (version rta == version_1) || not (kind rta == rta_type_data))
      then ok none
      else (do
        rest ← slice payload rta_size (length payload)
        alarm ← parse_alarm_notification rest
        ok (some (some rta, alarm)))

unfoldable pub process_layer2_alarm :
    Bytes → ℕ → Exec (Option (Option RtaHeader × AlarmNotification))
unfolding process_rta
process_layer2_alarm payload controller_ref =
    if leb rta_size (length payload)
    then process_rta payload controller_ref
    else (parse_alarm_notification payload >>= λ alarm. ok (some (none, alarm)))

abbrev bit_if : Bool → ℕ → ℕ
bit_if b mask = if b then mask else 0

-- The alarm specifier, from the bits that the parser took apart.
unfoldable pub ack_specifier : AlarmNotification → ℕ
ack_specifier n =
    bit_or
      (bit_or
        (bit_or
          (bit_or (bit_and n.alarm_sequence_number 0x07FF) (bit_if n.channel_diagnosis 0x0800))
          (bit_if n.manufacturer_specific 0x1000))
        (bit_if n.submodule_diagnosis_state 0x2000))
      (bit_if n.ar_diagnosis_state 0x8000)

unfoldable pub build_alarm_ack : AlarmNotification → Bytes
unfolding ack_specifier
build_alarm_ack n =
    be16 (if is_high_priority n then 0x8001 else 0x8002)
    ++ (be16 18
        ++ (0x01
            ∷ 0x00
            ∷ (be16 n.alarm_type
                ++ (be32 n.api
                    ++ (be16 n.slot_number
                        ++ (be16 n.subslot_number ++ (be16 (ack_specifier n) ++ be32 0)))))))

pub record RtaPdu : Type 0 where
  pub pdu_kind : ℕ
  pub add_flags : ℕ
  pub send_seq_num : ℕ
  pub ack_seq_num : ℕ
  pub var_part : Bytes
  pub high_priority : Bool

-- The header of `build_rta_frame`; the length is cut to 16 bits.
abbrev pub rta_header : AlarmEndpoint → RtaPdu → RtaHeader
rta_header endpoint pdu = record {
  alarm_dst_endpoint = endpoint.device_ref;
  alarm_src_endpoint = endpoint.controller_ref;
  pdu_type = encode_pdu_type version_1 pdu.pdu_kind;
  add_flags = pdu.add_flags;
  send_seq_num = pdu.send_seq_num;
  ack_seq_num = pdu.ack_seq_num;
  var_part_len = length pdu.var_part % 65536;
}

unfoldable pub build_rta_frame : AlarmEndpoint → Bytes → RtaPdu → Bytes
build_rta_frame endpoint controller_mac pdu =
    endpoint.device_mac
    ++ (controller_mac
        ++ ((if pdu.high_priority then vlan_tag_alarm_high else vlan_tag_alarm_low)
            ++ (be16 ethertype_profinet
                ++ (be16 (if pdu.high_priority then frame_id_alarm_high else frame_id_alarm_low)
                    ++ (Header.to_bytes (rta_header endpoint pdu) ++ pdu.var_part)))))

unfoldable pub build_layer2_ack_frame : AlarmEndpoint → Bytes → ℕ → ℕ → Bytes → Bool → Bytes
unfolding build_rta_frame
build_layer2_ack_frame endpoint controller_mac send_seq ack_seq ack_data high =
    build_rta_frame endpoint controller_mac (record {
      pdu_kind = rta_type_data;
      add_flags = bit_or add_flags_window_1 add_flags_tack;
      send_seq_num = send_seq;
      ack_seq_num = ack_seq;
      var_part = ack_data;
      high_priority = high;
    })

unfoldable pub build_rta_control_frame : AlarmEndpoint → Bytes → ℕ → ℕ → ℕ → Bool → Bytes
unfolding build_rta_frame
build_rta_control_frame endpoint controller_mac pdu_kind send_seq ack_seq high =
    build_rta_frame endpoint controller_mac (record {
      pdu_kind = pdu_kind;
      add_flags = add_flags_window_1;
      send_seq_num = send_seq;
      ack_seq_num = ack_seq;
      var_part = [];
      high_priority = high;
    })

unfoldable pub build_transport_ack_frame : AlarmEndpoint → Bytes → ℕ → ℕ → Bool → Bytes
unfolding build_rta_control_frame
build_transport_ack_frame endpoint controller_mac send_seq ack_seq high =
    build_rta_control_frame endpoint controller_mac rta_type_ack send_seq ack_seq high

unfoldable pub build_nack_frame : AlarmEndpoint → Bytes → ℕ → ℕ → Bool → Bytes
unfolding build_rta_control_frame
build_nack_frame endpoint controller_mac send_seq ack_seq high =
    build_rta_control_frame endpoint controller_mac rta_type_nack send_seq ack_seq high
