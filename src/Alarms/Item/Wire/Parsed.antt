-- ===== src/Alarms/Item/Wire/Parsed.antt =====
-- src/alarms.rs, `parse_alarm_item`: it reads back any item.
use profinet_rs.Prelude.{
  ◌+◌, ◌≡◌, refl, sym, ap, ◌∙◌, arith, true, false, ltb, [], ◌++◌, append_assoc, append-nil, length,
  length-append, Bytes, IsU16, be16, u16_at-be16, slice_rest, ok,
}
use profinet_rs.Alarms.Item.{
  AlarmItem, diagnosis, maintenance, upload_retrieval, pe, rs, pral, generic, user_structure_id,
}
use profinet_rs.Alarms.Item.Parse.{dispatch_item, parse_alarm_item}
use profinet_rs.Alarms.Item.Wire.{body_bytes, item_bytes, takes_rest, IsWireItem}
use profinet_rs.Alarms.Item.Wire.Blocks.{
  parse_rs_alarm_item-wire, parse_maintenance_item-wire, parse_upload_retrieval_item-wire,
  parse_pe_alarm_item-wire, parse_pral_alarm_item-wire,
}
use profinet_rs.Alarms.Item.Wire.Diagnosis.{parse_diagnosis_item-wire}

usi_fits : (i : AlarmItem) → IsWireItem i → IsU16 (user_structure_id i)
unfolding user_structure_id
usi_fits (diagnosis i) w = ground (arith, w.usi_known)
usi_fits (maintenance i) w = omega arith
usi_fits (upload_retrieval i) w = ground (arith, w.0)
usi_fits (pe i) w = omega arith
usi_fits (rs i) w = ground (arith, w.0)
usi_fits (pral i) w = omega arith
usi_fits (generic usi raw_data) w = w.0

-- What the parsers for one kind of item make of a body.
dispatch_item-wire :
    (front rest : Bytes) (i : AlarmItem)
    → IsWireItem i
    → (takes_rest i ≡ true → rest ≡ [])
    → dispatch_item (front ++ (body_bytes i ++ rest)) (length front) (user_structure_id i)
      ≡ ok (i, length front + length (body_bytes i))
unfolding dispatch_item user_structure_id
dispatch_item-wire front rest (diagnosis i) w last =
    ground (arith, parse_diagnosis_item-wire front rest i (length front) refl w, w.usi_known)
dispatch_item-wire front rest (maintenance i) w last =
    parse_maintenance_item-wire front rest i (length front) refl w.0 w.1 w.2 w.3
dispatch_item-wire front rest (upload_retrieval i) w last = ground (
  arith,
  parse_upload_retrieval_item-wire front rest i (length front) refl w.1 w.2 w.3 w.4 w.5,
  w.0,
)
dispatch_item-wire front rest (pe i) w last =
    parse_pe_alarm_item-wire front rest i (length front) refl w.0 w.1 w.2
dispatch_item-wire front rest (rs i) w last =
    ground (arith, parse_rs_alarm_item-wire front rest i (length front) refl w.1, w.0)
dispatch_item-wire front rest (pral i) w last =
    let e : rest ≡ [] = last refl in
    rw (e, append-nil (body_bytes (pral i)))
      (parse_pral_alarm_item-wire front [] i (length front) refl w.0 w.1 w.2 w.3
        ∙ ap (λ n. ok (pral i, n)) (length-append front (body_bytes (pral i))))
dispatch_item-wire front rest (generic usi raw_data) w last =
    let e : rest ≡ [] = last refl in
    rw (e, append-nil raw_data)
      (ground (
        arith,
        w.1,
        slice_rest front raw_data (length front) (length (front ++ raw_data)) refl
            (length-append front raw_data),
        length-append front raw_data,
      ))

-- An item with its identifier, behind any bytes, is read back with its end. What follows it is left
-- alone, but for the two kinds that take all that is left.
pub parse_alarm_item-item_bytes :
    (front rest : Bytes) (i : AlarmItem)
    → IsWireItem i
    → (takes_rest i ≡ true → rest ≡ [])
    → parse_alarm_item (front ++ (item_bytes i ++ rest)) (length front)
      ≡ ok (i, length front + length (item_bytes i))
unfolding parse_alarm_item
parse_alarm_item-item_bytes front rest i w last =
    let usi = be16 (user_structure_id i) in
    let d = item_bytes i ++ rest in
    let long : ltb (length (front ++ d)) (length front + 2) ≡ false =
      ground (arith, length-append front d) in
    rw
      (
        long,
        u16_at-be16 front (body_bytes i ++ rest) (length front) (user_structure_id i) refl
            (usi_fits i w),
      )
      (ap (λ b. dispatch_item b (length front + 2) (user_structure_id i))
          (sym (append_assoc front usi (body_bytes i ++ rest)))
        ∙ ap (λ n. dispatch_item ((front ++ usi) ++ (body_bytes i ++ rest)) n (user_structure_id i))
            (sym (length-append front usi))
        ∙ dispatch_item-wire (front ++ usi) rest i w last
        ∙ ap (λ n. ok (i, n)) (omega (arith, length-append front usi)))
