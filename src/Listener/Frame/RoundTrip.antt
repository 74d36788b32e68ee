-- ===== src/Listener/Frame/RoundTrip.antt =====
-- src/alarm_listener.rs: a frame that `build_rta_frame` sends is what `check_layer2_frame` takes at its receiver.
use profinet_rs.Prelude.{
  ℕ, ◌+◌, ◌-◌, ◌*◌, ◌/◌, ◌<◌, ◌≡◌, refl, sym, ap, ◌∙◌, arith, bit_and, Bool, true, false, ◌==◌, ltb,
  if◌then◌else◌, Option, none, some, List, [], ◌∷◌, ◌++◌, append_assoc, length, take, drop,
  length-append, Bytes, IsU16, byte_at, u16_at, slice, be16, u16_at-be16, slice-append, slice_rest,
  Exec, ok, same_bytes_self, agree_below, eq_of_agree_below,
}
use profinet_rs.Util.Vlan.{skip_vlan_tags-tagged, tag_bytes, IsTagStack, length-tag_bytes}
use profinet_rs.Rt.Frame.{ethertype_profinet}
use profinet_rs.Listener.Header
use profinet_rs.Listener.Header.{
  RtaHeader, kind, version, encode_pdu_type, frame_id_alarm_high, frame_id_alarm_low,
  vlan_tag_alarm_high, vlan_tag_alarm_low, version_1,
}
use profinet_rs.Listener.Frame.{
  AlarmEndpoint, check_behind, check_layer2_frame, RtaPdu, rta_header, build_rta_frame,
}

abbrev frame_id_of : Bool → ℕ
frame_id_of high = if high then frame_id_alarm_high else frame_id_alarm_low

check_behind-front :
    (front rest : Bytes) (high : Bool) (tag : ℕ)
    → length front ≡ 12 + tag
    → check_behind (front ++ (be16 ethertype_profinet ++ (be16 (frame_id_of high) ++ rest))) tag
      ≡ ok (some (high, rest))
unfolding check_behind
check_behind-front front rest high tag e =
    let id = be16 (frame_id_of high) in
    let d = front ++ (be16 ethertype_profinet ++ (id ++ rest)) in
    let head = front ++ be16 ethertype_profinet in
    let size = length-append {0} front (be16 ethertype_profinet ++ (id ++ rest)) in
    let long : ltb (length d) (16 + tag) ≡ false = ground arith in
    rw
      (
        long,
        u16_at-be16 front (id ++ rest) (12 + tag) ethertype_profinet (sym e) (omega arith),
        frame_id_read,
        rest_read,
      )
      (which high)
  where
    frame_id_read :
        u16_at (front ++ (be16 ethertype_profinet ++ (be16 (frame_id_of high) ++ rest))) (14 + tag)
        ≡ ok (frame_id_of high)
    frame_id_read =
        ap (λ b. u16_at b (14 + tag))
          (sym (append_assoc front (be16 ethertype_profinet) (be16 (frame_id_of high) ++ rest)))
        ∙ u16_at-be16 (front ++ be16 ethertype_profinet) rest (14 + tag) (frame_id_of high)
            (omega (arith, length-append front (be16 ethertype_profinet))) (ground arith)

    rest_read :
        slice
          (front ++ (be16 ethertype_profinet ++ (be16 (frame_id_of high) ++ rest)))
          (16 + tag)
          (length (front ++ (be16 ethertype_profinet ++ (be16 (frame_id_of high) ++ rest))))
        ≡ ok rest
    rest_read =
        let head = be16 ethertype_profinet ++ be16 (frame_id_of high) in
        ap (λ b. slice b (16 + tag) (length b)) (sym (append_assoc front head rest))
        ∙ slice_rest (front ++ head) rest (16 + tag) (length ((front ++ head) ++ rest))
            (omega (arith, length-append front head)) (length-append (front ++ head) rest)

    which :
        (high : Bool)
        → let low =
            if◌then◌else◌ {A = Exec (Option (Bool × Bytes))}
              (frame_id_of high == frame_id_alarm_low)
              (ok (some (false, rest)))
              (ok none) in
          if◌then◌else◌ {A = Exec (Option (Bool × Bytes))}
            (frame_id_of high == frame_id_alarm_high)
            (ok (some (true, rest)))
            low
          ≡ ok (some (high, rest))
    which true = refl
    which false = refl

-- Behind any stack of VLAN tags.
check_layer2_frame-tagged :
    (dst src : Bytes) (tags : List (ℕ × ℕ)) (rest : Bytes) (high : Bool)
    → length dst ≡ 6
    → length src ≡ 6
    → IsTagStack tags
    → check_layer2_frame
        ((dst ++ src)
          ++ (tag_bytes tags ++ (be16 ethertype_profinet ++ (be16 (frame_id_of high) ++ rest))))
        src
      ≡ ok (some (high, rest))
unfolding check_layer2_frame
check_layer2_frame-tagged dst src tags rest high d s all =
    let payload = be16 (frame_id_of high) ++ rest in
    let tagged = be16 ethertype_profinet ++ payload in
    let body = tag_bytes tags ++ tagged in
    let macs : length (dst ++ src) ≡ 12 = omega (arith, length-append dst src) in
    let long : ltb (length ((dst ++ src) ++ body)) 14 ≡ false =
      ground (arith, length-append (dst ++ src) body, length-append (tag_bytes tags) tagged) in
    rw
      (
        long,
        source body,
        same_bytes_self src,
        skip_vlan_tags-tagged (dst ++ src) tags ethertype_profinet payload macs all (omega arith)
            refl,
      )
      (ap (λ b. check_behind b (12 + 4 * length tags - 12))
          (sym (append_assoc (dst ++ src) (tag_bytes tags) tagged))
        ∙ check_behind-front ((dst ++ src) ++ tag_bytes tags) rest high (12 + 4 * length tags - 12)
            (omega (arith, length-append (dst ++ src) (tag_bytes tags), length-tag_bytes tags)))
  where
    source : (body : Bytes) → slice ((dst ++ src) ++ body) 6 12 ≡ ok src
    source body =
        ap (λ b. slice b 6 12) (append_assoc dst src body)
        ∙ slice-append dst src body 6 12 (sym d) (omega arith)

-- The fields of an outgoing PDU fit.
pub record IsWireRta (endpoint : AlarmEndpoint) (pdu : RtaPdu) : Type 0 where
  pub controller_fits : IsU16 endpoint.controller_ref
  pub device_fits : IsU16 endpoint.device_ref
  pub kind_fits : pdu.pdu_kind < 16
  pub send_fits : IsU16 pdu.send_seq_num
  pub ack_fits : IsU16 pdu.ack_seq_num

pub from_bytes-to_bytes :
    (h : RtaHeader) (rest : Bytes)
    → IsU16 h.alarm_dst_endpoint
    → IsU16 h.alarm_src_endpoint
    → IsU16 h.send_seq_num
    → IsU16 h.ack_seq_num
    → IsU16 h.var_part_len
    → Header.from_bytes (Header.to_bytes h ++ rest) ≡ ok h
unfolding Header.from_bytes byte_at
from_bytes-to_bytes h rest a b c d e =
    let t = Header.to_bytes h ++ rest in
    ground (
      arith,
      u16_at-be16 [] (drop 2 t) 0 h.alarm_dst_endpoint,
      u16_at-be16 (take 2 t) (drop 4 t) 2 h.alarm_src_endpoint,
      u16_at-be16 (take 6 t) (drop 8 t) 6 h.send_seq_num,
      u16_at-be16 (take 8 t) (drop 10 t) 8 h.ack_seq_num,
      u16_at-be16 (take 10 t) rest 10 h.var_part_len,
    )

pdu_type_table :
    (k : ℕ)
    → k < 16
    → (bit_and (encode_pdu_type version_1 k / 16) 15 ≡ version_1)
      × (bit_and (encode_pdu_type version_1 k) 15 ≡ k)
unfolding encode_pdu_type agree_below
pdu_type_table k h = (
  eq_of_agree_below 16 (λ k. bit_and (encode_pdu_type version_1 k / 16) 15) (λ _. version_1) k refl
      h,
  eq_of_agree_below 16 (λ k. bit_and (encode_pdu_type version_1 k) 15) (λ k. k) k refl h,
)

-- A PDU whose fields fit, sent with `build_rta_frame` to an endpoint, passes `check_layer2_frame` for the
-- sender's MAC address, with its priority. The payload is the header, which `RtaHeader::from_bytes` reads
-- back with the version 1, the kind and all numbers of the PDU, and behind it the variable part.
pub check_layer2_frame-build_rta_frame :
    (endpoint : AlarmEndpoint) (src : Bytes) (pdu : RtaPdu)
    → length endpoint.device_mac ≡ 6
    → length src ≡ 6
    → IsWireRta endpoint pdu
    → let h = rta_header endpoint pdu in
      let payload = Header.to_bytes h ++ pdu.var_part in
      (check_layer2_frame (build_rta_frame endpoint src pdu) src
        ≡ ok (some (pdu.high_priority, payload)))
      × (Header.from_bytes payload ≡ ok h)
      × (version h ≡ version_1)
      × (kind h ≡ pdu.pdu_kind)
      × (slice payload 12 (length payload) ≡ ok pdu.var_part)
unfolding build_rta_frame version kind
check_layer2_frame-build_rta_frame endpoint src pdu d s w =
    let h = rta_header endpoint pdu in
    let payload = Header.to_bytes h ++ pdu.var_part in
    let types = pdu_type_table pdu.pdu_kind w.kind_fits in
    (
      shape pdu.high_priority payload,
      from_bytes-to_bytes h pdu.var_part w.device_fits w.controller_fits w.send_fits w.ack_fits
          (omega arith),
      types.0,
      types.1,
      slice_rest (Header.to_bytes h) pdu.var_part 12 (length payload) refl (omega arith),
    )
  where
    shape :
        (high : Bool) (payload : Bytes)
        → check_layer2_frame
            (endpoint.device_mac
              ++ (src
                  ++ ((if high then vlan_tag_alarm_high else vlan_tag_alarm_low)
                      ++ (be16 ethertype_profinet
                          ++ (be16 (if high then frame_id_alarm_high else frame_id_alarm_low)
                              ++ payload)))))
            src
          ≡ ok (some (high, payload))
    shape true payload =
        ap (λ b. check_layer2_frame b src) (sym (append_assoc endpoint.device_mac src _))
        ∙ check_layer2_frame-tagged endpoint.device_mac src ((0x8100, 0xC000) ∷ []) payload true d s
            (refl, tt)
    shape false payload =
        ap (λ b. check_layer2_frame b src) (sym (append_assoc endpoint.device_mac src _))
        ∙ check_layer2_frame-tagged endpoint.device_mac src ((0x8100, 0xA000) ∷ []) payload false d
            s (refl, tt)
