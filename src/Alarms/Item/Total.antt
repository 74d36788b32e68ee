-- ===== src/Alarms/Item/Total.antt =====
-- src/alarms.rs, `parse_alarm_item`: it comes back on all bytes.
use profinet_rs.Prelude.{
  ℕ, ◌+◌, ◌≤◌, arith, ltb, length, Bytes, at16, byte_at_lem, u16_at_lem, u32_at_lem, slice_lem,
  Gives, Gives-bind, Gives-map, if-Gives,
}
use profinet_rs.Alarms.Item.{DiagnosisItem}
use profinet_rs.Alarms.Item.Parse.{
  basic_item, ext_part, qualified_part, parse_diagnosis_item, parse_maintenance_item,
  parse_upload_retrieval_item, parse_pe_alarm_item, parse_rs_alarm_item, parse_pral_alarm_item,
  dispatch_item, parse_alarm_item,
}

-- An end that lies at or behind `offset`, within the bytes.
abbrev pub EndsIn {ℓ} : {A : Type ℓ} → Bytes → ℕ → A × ℕ → Type 0
EndsIn bytes offset (a, end) = (offset ≤ end) × (end ≤ length bytes)

module _ (bytes : Bytes) where
  ext_part-Gives :
      (offset : ℕ) (item : DiagnosisItem)
      → offset ≤ length bytes
      → Gives (ext_part bytes offset item) (EndsIn bytes offset)
  unfolding ext_part
  ext_part-Gives offset item h =
      ground (arith, u16_at_lem bytes offset, u32_at_lem bytes (offset + 2))

  qualified_part-Gives :
      (item : DiagnosisItem) (offset : ℕ)
      → offset ≤ length bytes
      → Gives (qualified_part bytes (item, offset)) (EndsIn bytes offset)
  unfolding qualified_part
  qualified_part-Gives item offset h = ground (arith, u32_at_lem bytes offset)

  parse_maintenance_item-Gives :
      (offset : ℕ) → Gives (parse_maintenance_item bytes offset) (EndsIn bytes offset)
  unfolding parse_maintenance_item
  parse_maintenance_item-Gives offset = ground (
    arith,
    u16_at_lem bytes offset,
    u16_at_lem bytes (offset + 2),
    u16_at_lem bytes (offset + 4),
    u32_at_lem bytes (offset + 8),
  )

  parse_upload_retrieval_item-Gives :
      (offset usi : ℕ) → Gives (parse_upload_retrieval_item bytes offset usi) (EndsIn bytes offset)
  unfolding parse_upload_retrieval_item
  parse_upload_retrieval_item-Gives offset usi = ground (
    arith,
    u16_at_lem bytes offset,
    u16_at_lem bytes (offset + 2),
    u16_at_lem bytes (offset + 4),
    u32_at_lem bytes (offset + 8),
    u32_at_lem bytes (offset + 12),
  )

  parse_pe_alarm_item-Gives :
      (offset : ℕ) → Gives (parse_pe_alarm_item bytes offset) (EndsIn bytes offset)
  unfolding parse_pe_alarm_item
  parse_pe_alarm_item-Gives offset = ground (
    arith,
    u16_at_lem bytes offset,
    u16_at_lem bytes (offset + 2),
    u16_at_lem bytes (offset + 4),
    byte_at_lem bytes (offset + 6),
  )

  parse_rs_alarm_item-Gives :
      (offset usi : ℕ) → Gives (parse_rs_alarm_item bytes offset usi) (EndsIn bytes offset)
  unfolding parse_rs_alarm_item
  parse_rs_alarm_item-Gives offset usi = ground (arith, u16_at_lem bytes offset)

  parse_pral_alarm_item-Gives :
      (offset : ℕ) → Gives (parse_pral_alarm_item bytes offset) (EndsIn bytes offset)
  unfolding parse_pral_alarm_item
  parse_pral_alarm_item-Gives offset = ground (
    arith,
    u16_at_lem bytes offset,
    u16_at_lem bytes (offset + 2),
    u16_at_lem bytes (offset + 4),
    u16_at_lem bytes (offset + 6),
    slice_lem bytes (offset + 8) (length bytes),
  )

  parse_diagnosis_item-Gives :
      (offset usi : ℕ) → Gives (parse_diagnosis_item bytes offset usi) (EndsIn bytes offset)
  unfolding parse_diagnosis_item
  parse_diagnosis_item-Gives offset usi =
      if-Gives (ltb (length bytes) (offset + 6)) _ _ _ (λ _. tt)
        (λ long.
          let n : offset + 6 ≤ length bytes = ground arith in
          let item =
            basic_item usi (at16 bytes offset) (at16 bytes (offset + 2))
              (at16 bytes (offset + 4)) in
          rw
            (
              u16_at_lem bytes offset (omega arith),
              u16_at_lem bytes (offset + 2) (omega arith),
              u16_at_lem bytes (offset + 4) (omega arith),
            )
            (Gives-bind (ext_part bytes (offset + 6) item) (qualified_part bytes)
              (EndsIn bytes (offset + 6)) (EndsIn bytes offset) (ext_part-Gives (offset + 6) item n)
              (λ p h.
                Gives-map (qualified_part bytes (p.0, p.1)) (EndsIn bytes p.1) (EndsIn bytes offset)
                  (λ r k. (omega (arith, h.0, k.0), k.1)) (qualified_part-Gives p.0 p.1 h.1))))

  dispatch_item-Gives :
      (offset usi : ℕ)
      → offset ≤ length bytes
      → Gives (dispatch_item bytes offset usi) (EndsIn bytes offset)
  unfolding dispatch_item
  dispatch_item-Gives offset usi h = ground (
    arith,
    parse_diagnosis_item-Gives offset usi,
    parse_maintenance_item-Gives offset,
    parse_upload_retrieval_item-Gives offset usi,
    parse_rs_alarm_item-Gives offset usi,
    parse_pe_alarm_item-Gives offset,
    parse_pral_alarm_item-Gives offset,
    slice_lem bytes offset (length bytes),
  )

  -- No offset makes the parser read out of range, and an item that it finds takes two bytes at least
  -- and ends within the bytes.
  pub parse_alarm_item-Gives :
      (offset : ℕ) → Gives (parse_alarm_item bytes offset) (EndsIn bytes (offset + 2))
  unfolding parse_alarm_item
  parse_alarm_item-Gives offset =
      if-Gives (ltb (length bytes) (offset + 2)) _ _ _ (λ _. tt)
        (λ long.
          let n : offset + 2 ≤ length bytes = ground arith in
          rw (u16_at_lem bytes offset n) (dispatch_item-Gives (offset + 2) (at16 bytes offset) n))
