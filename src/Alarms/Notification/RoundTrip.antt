-- ===== src/Alarms/Notification/RoundTrip.antt =====
-- src/alarms.rs, `parse_alarm_notification`: it reads back a notification with its items.
use profinet_rs.Prelude.{
  ℕ, zero, suc, ◌+◌, ◌<◌, ◌≤◌, ◌≡◌, refl, sym, ap, ◌∙◌, arith, bit_and, true, false, ltb, List, [],
  ◌∷◌, ◌++◌, append_assoc, append-nil, length, take, drop, length-append, Bytes, IsU16, IsU32,
  byte_at, u16_at, u32_at, be16, be32, u16_at-be16, u32_at-be32, slice-append, slice_rest, ok,
  ◌>>=◌,
}
use profinet_rs.Alarms.Item.{AlarmItem}
use profinet_rs.Alarms.Item.Wire.{item_bytes, takes_rest, IsWireItem}
use profinet_rs.Alarms.Item.Wire.Parsed.{parse_alarm_item-item_bytes}
use profinet_rs.Alarms.Notification.{
  AlarmNotification, has_bit, items_loop, cut_block, parse_alarm_notification,
}

abbrev pub items_bytes : List AlarmItem → Bytes
items_bytes [] = []
items_bytes (i ∷ is) = item_bytes i ++ items_bytes is

-- Items that fit their fields, and of which only the last may reach to the end of the payload.
abbrev pub AreWireItems : List AlarmItem → Type 0
AreWireItems [] = Unit {0}
AreWireItems (i ∷ is) = IsWireItem i × (takes_rest i ≡ true → items_bytes is ≡ []) × AreWireItems is

-- An alarm notification PDU, as the device sends it.
pub record AlarmPdu : Type 0 where
  pub block_type : ℕ
  pub ver_high : ℕ
  pub ver_low : ℕ
  pub alarm_type : ℕ
  pub api : ℕ
  pub slot : ℕ
  pub subslot : ℕ
  pub module_ident : ℕ
  pub submodule_ident : ℕ
  pub specifier : ℕ
  pub items : List AlarmItem

pub record IsWirePdu (p : AlarmPdu) : Type 0 where
  pub block_type_fits : IsU16 p.block_type
  pub alarm_type_fits : IsU16 p.alarm_type
  pub api_fits : IsU32 p.api
  pub slot_fits : IsU16 p.slot
  pub subslot_fits : IsU16 p.subslot
  pub module_fits : IsU32 p.module_ident
  pub submodule_fits : IsU32 p.submodule_ident
  pub specifier_fits : IsU16 p.specifier
  pub items_fit : AreWireItems p.items
  pub length_fits : IsU16 (22 + length (items_bytes p.items))

-- The block header and the body.
abbrev pub pdu_head : AlarmPdu → Bytes
pdu_head p =
    be16 p.block_type
    ++ (be16 (22 + length (items_bytes p.items))
        ++ (p.ver_high
            ∷ p.ver_low
            ∷ (be16 p.alarm_type
                ++ (be32 p.api
                    ++ (be16 p.slot
                        ++ (be16 p.subslot
                            ++ (be32 p.module_ident
                                ++ (be32 p.submodule_ident ++ be16 p.specifier))))))))

abbrev pub pdu_bytes : AlarmPdu → Bytes
pdu_bytes p = pdu_head p ++ items_bytes p.items

-- What the PDU says.
abbrev pub notification_of : AlarmPdu → AlarmNotification
notification_of p = record {
  block_type = p.block_type;
  block_version = (p.ver_high, p.ver_low);
  alarm_type = p.alarm_type;
  api = p.api;
  slot_number = p.slot;
  subslot_number = p.subslot;
  module_ident_number = p.module_ident;
  submodule_ident_number = p.submodule_ident;
  alarm_sequence_number = bit_and p.specifier 0x07FF;
  channel_diagnosis = has_bit p.specifier 0x0800;
  manufacturer_specific = has_bit p.specifier 0x1000;
  submodule_diagnosis_state = has_bit p.specifier 0x2000;
  ar_diagnosis_state = has_bit p.specifier 0x8000;
  items = p.items;
  raw_payload = items_bytes p.items;
}

items_loop-items_bytes :
    (fuel : ℕ) (front : Bytes) (is : List AlarmItem)
    → length (items_bytes is) < fuel
    → AreWireItems is
    → items_loop fuel (front ++ items_bytes is) (length front) ≡ ok is
unfolding items_loop
items_loop-items_bytes zero front is h w = absurd (omega arith)
items_loop-items_bytes (suc fuel) front [] h w =
    let done : ltb (length front) (length (front ++ [])) ≡ false =
      ground (arith, length-append {0} front []) in
    rw done refl
items_loop-items_bytes (suc fuel) front (i ∷ is) h w =
    let rest = items_bytes is in
    let more : ltb (length front) (length (front ++ (item_bytes i ++ rest))) ≡ true =
      ground (arith, length-append {0} front (item_bytes i ++ rest)) in
    let short : length rest < fuel = omega (arith, length-append {0} (item_bytes i) rest) in
    rw (more, parse_alarm_item-item_bytes front rest i w.0 w.1)
      (ap (λ m. m >>= λ js. ok (i ∷ js))
        (ap (λ b. items_loop fuel b (length front + length (item_bytes i)))
            (sym (append_assoc front (item_bytes i) rest))
          ∙ ap (items_loop fuel ((front ++ item_bytes i) ++ rest))
              (sym (length-append front (item_bytes i)))
          ∙ items_loop-items_bytes fuel (front ++ item_bytes i) is short w.2))

nothing : (d : Bytes) → length d ≡ 0 → d ≡ []
nothing [] h = refl
nothing (x ∷ d) h = absurd (omega arith)

-- The cut takes off what follows the block, if anything does.
cut_block-append :
    (block padding : Bytes) (n : ℕ)
    → u16_at (block ++ padding) 2 ≡ ok n
    → length block ≡ 4 + n
    → 22 ≤ n
    → cut_block (block ++ padding) ≡ ok block
unfolding cut_block
cut_block-append block padding n read e long = rw read (
    ground (
      arith,
      slice-append [] block padding 0 (4 + n),
      length-append block padding,
      nothing padding,
      append-nil block,
    ))

-- The body's fields, read behind the block header.
body_reads :
    (p : AlarmPdu) (rest : Bytes)
    → IsWirePdu p
    → let d = pdu_head p ++ rest in
      (u16_at d 6 ≡ ok p.alarm_type)
      × (u32_at d 8 ≡ ok p.api)
      × (u16_at d 12 ≡ ok p.slot)
      × (u16_at d 14 ≡ ok p.subslot)
      × (u32_at d 16 ≡ ok p.module_ident)
      × (u32_at d 20 ≡ ok p.submodule_ident)
      × (u16_at d 24 ≡ ok p.specifier)
body_reads p rest w =
    let d = pdu_head p ++ rest in
    (
      u16_at-be16 (take 6 d) (drop 8 d) 6 p.alarm_type refl w.alarm_type_fits,
      u32_at-be32 (take 8 d) (drop 12 d) 8 p.api refl w.api_fits,
      u16_at-be16 (take 12 d) (drop 14 d) 12 p.slot refl w.slot_fits,
      u16_at-be16 (take 14 d) (drop 16 d) 14 p.subslot refl w.subslot_fits,
      u32_at-be32 (take 16 d) (drop 20 d) 16 p.module_ident refl w.module_fits,
      u32_at-be32 (take 20 d) (drop 24 d) 20 p.submodule_ident refl w.submodule_fits,
      u16_at-be16 (take 24 d) rest 24 p.specifier refl w.specifier_fits,
    )

-- The parser reads back a notification whose fields fit, with its items in order, each of the kind that
-- its identifier says, and takes the padding that may follow for neither an item nor payload.
pub parse_alarm_notification-pdu_bytes :
    (p : AlarmPdu) (padding : Bytes)
    → IsWirePdu p
    → parse_alarm_notification (pdu_bytes p ++ padding) ≡ ok (notification_of p)
unfolding parse_alarm_notification
parse_alarm_notification-pdu_bytes p padding w =
    let payload = items_bytes p.items in
    let block = pdu_bytes p in
    let d = block ++ padding in
    let reads = body_reads p payload w in
    let long : ltb (length d) 26 ≡ false = ground arith in
    let head16 : u16_at d 0 ≡ ok p.block_type =
      u16_at-be16 [] (drop 2 d) 0 p.block_type refl w.block_type_fits in
    let length16 : u16_at d 2 ≡ ok (22 + length payload) =
      u16_at-be16 (take 2 d) (drop 4 d) 2 (22 + length payload) refl w.length_fits in
    let high : byte_at d 4 ≡ ok p.ver_high = unfold byte_at in refl in
    let low : byte_at d 5 ≡ ok p.ver_low = unfold byte_at in refl in
    rw
      (
        long,
        head16,
        high,
        low,
        cut_block-append block padding (22 + length payload) length16 (omega arith) (omega arith),
        reads.0,
        reads.1,
        reads.2,
        reads.3,
        reads.4,
        reads.5,
        reads.6,
        slice_rest (pdu_head p) payload 26 (length block) refl (omega arith),
        items_loop-items_bytes (suc (length payload)) [] p.items (omega arith) w.items_fit,
      )
      refl
