-- ===== src/Listener/Header.antt =====
-- src/alarm_listener.rs: the RTA header, and the constants of the transport.
use profinet_rs.Prelude.{
  ℕ, ◌*◌, ◌/◌, bit_and, bit_or, ltb, if◌then◌else◌, [], ◌∷◌, ◌++◌, length, Bytes, byte_at, u16_at,
  be16, Exec, ok, err, ◌>>=◌, rta_too_short,
}

abbrev pub frame_id_alarm_high : ℕ
frame_id_alarm_high = 0xFC01

abbrev pub frame_id_alarm_low : ℕ
frame_id_alarm_low = 0xFE01

abbrev pub add_flags_window_1 : ℕ
add_flags_window_1 = 0x01

abbrev pub add_flags_tack : ℕ
add_flags_tack = 0x10

abbrev pub vlan_tag_alarm_high : Bytes
vlan_tag_alarm_high = 0x81 ∷ 0x00 ∷ 0xC0 ∷ 0x00 ∷ []

abbrev pub vlan_tag_alarm_low : Bytes
vlan_tag_alarm_low = 0x81 ∷ 0x00 ∷ 0xA0 ∷ 0x00 ∷ []

abbrev pub rta_size : ℕ
rta_size = 12

abbrev pub rta_type_data : ℕ
rta_type_data = 1

abbrev pub rta_type_nack : ℕ
rta_type_nack = 2

abbrev pub rta_type_ack : ℕ
rta_type_ack = 3

abbrev pub rta_type_err : ℕ
rta_type_err = 4

abbrev pub version_1 : ℕ
version_1 = 1

pub record RtaHeader : Type 0 where
  pub alarm_dst_endpoint : ℕ
  pub alarm_src_endpoint : ℕ
  pub pdu_type : ℕ
  pub add_flags : ℕ
  pub send_seq_num : ℕ
  pub ack_seq_num : ℕ
  pub var_part_len : ℕ

-- `RtaHeader::kind`, `version` and `encode_pdu_type`
unfoldable pub kind : RtaHeader → ℕ
kind h = bit_and h.pdu_type 0x0F

unfoldable pub version : RtaHeader → ℕ
version h = bit_and (h.pdu_type / 16) 0x0F

unfoldable pub encode_pdu_type : ℕ → ℕ → ℕ
encode_pdu_type v k = bit_or (bit_and v 0x0F * 16) (bit_and k 0x0F)

-- `RtaHeader::from_bytes` and `to_bytes`
unfoldable pub from_bytes : Bytes → Exec RtaHeader
from_bytes d = if ltb (length d) rta_size then err rta_too_short else (do
  dst ← u16_at d 0
  src ← u16_at d 2
  pdu_type ← byte_at d 4
  add_flags ← byte_at d 5
  send_seq ← u16_at d 6
  ack_seq ← u16_at d 8
  var_len ← u16_at d 10
  ok (record {
    alarm_dst_endpoint = dst;
    alarm_src_endpoint = src;
    pdu_type = pdu_type;
    add_flags = add_flags;
    send_seq_num = send_seq;
    ack_seq_num = ack_seq;
    var_part_len = var_len;
  }))

abbrev pub to_bytes : RtaHeader → Bytes
to_bytes h =
    be16 h.alarm_dst_endpoint
    ++ (be16 h.alarm_src_endpoint
        ++ (h.pdu_type
            ∷ h.add_flags
            ∷ (be16 h.send_seq_num ++ (be16 h.ack_seq_num ++ be16 h.var_part_len))))
