-- ===== src/Listener/Frame/Total.antt =====
-- src/alarm_listener.rs: the frame and PDU parsers come back.
use profinet_rs.Prelude.{
  ◌≡◌, refl, ap, ◌∙◌, Bool, Option, none, some, ok, at16, ==_iff, take-all, length-drop,
  if◌then◌else◌, Yields-ok, same_bytes_sound, ℕ, ◌+◌, ◌-◌, ◌≤◌, inl, inr, arith, not, ◌||◌, ◌==◌,
  ltb, leb, if-Yields, length, take, drop, Bytes, byte_at_lem, u16_at_lem, slice_lem, Exec, Yields,
  Gives, Gives-bind, if-Gives, Yields-Gives, same_bytes,
}
use profinet_rs.Util.{skip_vlan_tags}
use profinet_rs.Util.Vlan.{skip_vlan_tags-ok}
use profinet_rs.Alarms.Notification.{parse_alarm_notification}
use profinet_rs.Alarms.Notification.Total.{parse_alarm_notification-Yields}
use profinet_rs.Listener.Header
use profinet_rs.Listener.Header.{
  RtaHeader, frame_id_alarm_high, frame_id_alarm_low, rta_size, rta_type_data, version_1, kind,
  version,
}
use profinet_rs.Listener.Frame.{
  ethertype_profinet, check_behind, check_layer2_frame, process_rta, process_layer2_alarm,
}

-- The call comes back.
abbrev pub Back {ℓ} : {A : Type ℓ} → Exec A → Type 0
Back m = Gives m (λ _. Unit {0})

parse_alarm_notification-Back : (d : Bytes) → Back (parse_alarm_notification d)
parse_alarm_notification-Back d = elim (parse_alarm_notification-Yields d) [
  | inl (short, e) ↦ rw e tt
  | inr (long, y) ↦ Yields-Gives (parse_alarm_notification d) _ _ y (λ _ _. tt)
]

-- A frame of the device that carries `payload` as an alarm of the priority, behind its VLAN tags.
pub record IsAlarmFrame (frame mac : Bytes) (is_high : Bool) (payload : Bytes) : Type 0 where
  pub source : take 6 (drop 6 frame) ≡ mac
  pub tagged : ℕ
  pub tags : skip_vlan_tags frame ≡ ok (12 + tagged)
  pub long : 16 + tagged ≤ length frame
  pub ethertype : at16 frame (12 + tagged) ≡ ethertype_profinet
  pub frame_id :
      at16 frame (14 + tagged) ≡ (if is_high then frame_id_alarm_high else frame_id_alarm_low)
  pub behind : payload ≡ drop (16 + tagged) frame

abbrev pub Checked : Bytes → Bytes → Option (Bool × Bytes) → Type 0
Checked frame mac none = Unit {0}
Checked frame mac (some (is_high, payload)) = IsAlarmFrame frame mac is_high payload

check_behind-Checked :
    (frame mac : Bytes) (tag : ℕ)
    → take 6 (drop 6 frame) ≡ mac
    → skip_vlan_tags frame ≡ ok (12 + tag)
    → Yields (check_behind frame tag) (Checked frame mac)
unfolding check_behind
check_behind-Checked frame mac tag from tags =
    if-Yields (ltb (length frame) (16 + tag)) _ _ _ (λ _. tt)
      (λ enough.
        let n : 16 + tag ≤ length frame = ground arith in
        rw (u16_at_lem frame (12 + tag) (omega arith)) (
          if-Yields (at16 frame (12 + tag) == ethertype_profinet) _ _ _
            (λ type.
              let rest = drop (16 + tag) frame in
              let whole : take (length frame - (16 + tag)) rest ≡ rest =
                take-all _ rest (omega (arith, length-drop (16 + tag) frame)) in
              let type_is = (==_iff (at16 frame (12 + tag)) ethertype_profinet).0 type in
              rw
                (
                  u16_at_lem frame (14 + tag) (omega arith),
                  slice_lem frame (16 + tag) (length frame) n (omega arith),
                  whole,
                )
                (if-Yields (at16 frame (14 + tag) == frame_id_alarm_high) _ _ _
                  (λ high. record {
                    source = from;
                    tagged = tag;
                    tags = tags;
                    long = n;
                    ethertype = type_is;
                    frame_id = (==_iff (at16 frame (14 + tag)) frame_id_alarm_high).0 high;
                    behind = refl;
                  })
                  (λ _.
                    if-Yields (at16 frame (14 + tag) == frame_id_alarm_low) _ _ _
                      (λ low. record {
                        source = from;
                        tagged = tag;
                        tags = tags;
                        long = n;
                        ethertype = type_is;
                        frame_id = (==_iff (at16 frame (14 + tag)) frame_id_alarm_low).0 low;
                        behind = refl;
                      })
                      (λ _. tt))))
            (λ _. tt)))

pub check_layer2_frame-Checked :
    (frame mac : Bytes) → Yields (check_layer2_frame frame mac) (Checked frame mac)
unfolding check_layer2_frame
check_layer2_frame-Checked frame mac =
    if-Yields (ltb (length frame) 14) _ _ _ (λ _. tt)
      (λ long.
        let n : 14 ≤ length frame = ground arith in
        rw (slice_lem frame 6 12 (omega arith) (omega arith)) (
          if-Yields (same_bytes (take 6 (drop 6 frame)) mac) _ _ _
            (λ same.
              let (offset, tags, h) =
                Yields-ok (skip_vlan_tags frame) _ (skip_vlan_tags-ok frame (omega arith)) in
              let e : offset ≡ 12 + (offset - 12) = omega arith in
              rw tags (
                check_behind-Checked frame mac (offset - 12)
                  (same_bytes_sound (take 6 (drop 6 frame)) mac same) (tags ∙ ap ok e)))
            (λ _. tt)))

pub header-Back : (d : Bytes) → Back (Header.from_bytes d)
unfolding Header.from_bytes
header-Back d = ground (
  arith,
  u16_at_lem d 0,
  u16_at_lem d 2,
  byte_at_lem d 4,
  byte_at_lem d 5,
  u16_at_lem d 6,
  u16_at_lem d 8,
  u16_at_lem d 10,
)

pub process_layer2_alarm-Back :
    (d : Bytes) (controller_ref : ℕ) → Back (process_layer2_alarm d controller_ref)
unfolding process_layer2_alarm process_rta
process_layer2_alarm-Back d controller_ref =
    if-Gives (leb rta_size (length d)) _ _ _
      (λ long. Gives-bind (Header.from_bytes d) _ _ _ (header-Back d) (λ rta _.
        if-Gives
          (not (rta.alarm_dst_endpoint == controller_ref)
            || (not (version rta == version_1) || not (kind rta == rta_type_data)))
          _ _ _ (λ _. tt)
          (λ _. rw (slice_lem d rta_size (length d) (ground arith) (omega arith)) (
            Gives-bind (parse_alarm_notification _) _ _ _ (parse_alarm_notification-Back _)
              (λ _ _. tt)))))
      (λ _.
        Gives-bind (parse_alarm_notification d) _ _ _ (parse_alarm_notification-Back d) (λ _ _. tt))
