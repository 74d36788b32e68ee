-- ===== src/Alarms/Item/Wire/Diagnosis.antt =====
-- src/alarms.rs, `parse_diagnosis_item`: it reads back a plain, an extended and a qualified item.
use profinet_rs.Prelude.{
  ℕ, ◌+◌, ◌≡◌, inl, inr, sym, ap, ◌∙◌, arith, true, false, Bool-cases, [], ◌++◌, append_assoc,
  length, take, drop, length-append, Bytes, IsU16, IsU32, be16, be32, u16_at-be16, u16_at-append,
  u32_at-append, u32_at-be32, ok, ◌>>=◌,
}
use profinet_rs.Alarms.Item.{DiagnosisItem, diagnosis, is_extended, is_qualified}
use profinet_rs.Alarms.Item.Parse.{basic_item, ext_part, qualified_part, parse_diagnosis_item}
use profinet_rs.Alarms.Item.Wire.{body_bytes, IsWireDiagnosis}

module _ (front rest : Bytes) where
  parse_basic :
      (i : DiagnosisItem) (more : Bytes) (o : ℕ)
      → o ≡ length front
      → IsU16 i.channel_number
      → IsU16 i.channel_properties
      → IsU16 i.channel_error_type
      → let d =
          be16 i.channel_number
          ++ (be16 i.channel_properties ++ (be16 i.channel_error_type ++ more)) in
        parse_diagnosis_item (front ++ d) o i.user_structure_id ≡ (
          ext_part (front ++ d) (o + 6) (
            basic_item i.user_structure_id i.channel_number i.channel_properties
              i.channel_error_type)
          >>= qualified_part (front ++ d))
  unfolding parse_diagnosis_item
  parse_basic i more o e w x y =
      let d =
        be16 i.channel_number
        ++ (be16 i.channel_properties ++ (be16 i.channel_error_type ++ more)) in
      ground (
        arith,
        u16_at-append front d o 0,
        u16_at-be16 [] (drop 2 d) 0 i.channel_number,
        u16_at-append front d (o + 2) 2,
        u16_at-be16 (take 2 d) (drop 4 d) 2 i.channel_properties,
        u16_at-append front d (o + 4) 4,
        u16_at-be16 (take 4 d) more 4 i.channel_error_type,
        length-append front d,
      )

  ext_part-wire :
      (item : DiagnosisItem) (e v o : ℕ)
      → o ≡ length front
      → is_extended item ≡ true
      → IsU16 e
      → IsU32 v
      → ext_part (front ++ (be16 e ++ (be32 v ++ rest))) o item
        ≡ ok (record item { ext_channel_error_type = e; ext_channel_add_value = v }, o + 6)
  unfolding ext_part
  ext_part-wire item e v o h ext w x =
      let d = be16 e ++ (be32 v ++ rest) in
      rw ext (
        ground (
          arith,
          u16_at-append front d o 0,
          u16_at-be16 [] (drop 2 d) 0 e,
          u32_at-append front d (o + 2) 2,
          u32_at-be32 (be16 e) rest 2 v,
          length-append front d,
        ))

  qualified_part-wire :
      (item : DiagnosisItem) (q o : ℕ)
      → o ≡ length front
      → is_qualified item ≡ true
      → IsU32 q
      → qualified_part (front ++ (be32 q ++ rest)) (item, o)
        ≡ ok (diagnosis (record item { qualified_channel_qualifier = q }), o + 4)
  unfolding qualified_part
  qualified_part-wire item q o h qual w =
      let d = be32 q ++ rest in
      rw qual
        (ground (arith, u32_at-append front d o 0, u32_at-be32 [] rest 0 q, length-append front d))

module _ (front rest : Bytes) (i : DiagnosisItem) (o : ℕ) (e : o ≡ length front)
    (w : IsWireDiagnosis i) where
  six : Bytes
  six = be16 i.channel_number ++ (be16 i.channel_properties ++ be16 i.channel_error_type)

  basic : DiagnosisItem
  basic = basic_item i.user_structure_id i.channel_number i.channel_properties i.channel_error_type

  behind_six :
      (more : Bytes)
      → parse_diagnosis_item (front ++ (six ++ more)) o i.user_structure_id ≡ (
          ext_part ((front ++ six) ++ more) (o + 6) basic
          >>= qualified_part ((front ++ six) ++ more))
  unfolding six basic
  behind_six more =
      parse_basic front [] i more o e w.number_fits w.properties_fit w.error_fits
      ∙ ap (λ (b : Bytes). ext_part b (o + 6) basic >>= qualified_part b)
          (sym (append_assoc front six more))

  six_end : o + 6 ≡ length (front ++ six)
  unfolding six
  six_end = omega (arith, length-append front six)

  parse_plain :
      is_extended i ≡ false
      → is_qualified i ≡ false
      → parse_diagnosis_item (front ++ (six ++ rest)) o i.user_structure_id
        ≡ ok (diagnosis i, o + 6)
  unfolding ext_part qualified_part basic
  parse_plain plain unqual =
      behind_six rest ∙ ground (arith, w.plain_zero plain, w.unqualified_zero unqual)

  parse_extended :
      is_extended i ≡ true
      → is_qualified i ≡ false
      → let d = be16 i.ext_channel_error_type ++ (be32 i.ext_channel_add_value ++ rest) in
        parse_diagnosis_item (front ++ (six ++ d)) o i.user_structure_id ≡ ok (diagnosis i, o + 12)
  unfolding qualified_part basic
  parse_extended ext unqual =
      behind_six _
      ∙ ap
          (λ m.
            m
            >>= qualified_part (
                (front ++ six)
                ++ (be16 i.ext_channel_error_type ++ (be32 i.ext_channel_add_value ++ rest))))
          (ext_part-wire (front ++ six) rest basic i.ext_channel_error_type i.ext_channel_add_value
            (o + 6) six_end ext w.ext_error_fits w.ext_value_fits)
      ∙ ground (arith, w.unqualified_zero unqual)

  parse_qualified :
      is_qualified i ≡ true
      → let q = be32 i.qualified_channel_qualifier ++ rest in
        let d = be16 i.ext_channel_error_type ++ (be32 i.ext_channel_add_value ++ q) in
        parse_diagnosis_item (front ++ (six ++ d)) o i.user_structure_id ≡ ok (diagnosis i, o + 16)
  unfolding basic
  parse_qualified qual =
      let ext : is_extended i ≡ true = ground arith in
      let q = be32 i.qualified_channel_qualifier ++ rest in
      let ten = be16 i.ext_channel_error_type ++ be32 i.ext_channel_add_value in
      let extended = record basic {
        ext_channel_error_type = i.ext_channel_error_type;
        ext_channel_add_value = i.ext_channel_add_value;
      } in
      behind_six (ten ++ q)
      ∙ ap (λ m. m >>= qualified_part ((front ++ six) ++ (ten ++ q)))
          (ext_part-wire (front ++ six) q basic i.ext_channel_error_type i.ext_channel_add_value
            (o + 6) six_end ext w.ext_error_fits w.ext_value_fits)
      ∙ ap (λ b. qualified_part b (extended, o + 6 + 6)) (sym (append_assoc (front ++ six) ten q))
      ∙ qualified_part-wire ((front ++ six) ++ ten) rest extended i.qualified_channel_qualifier
          (o + 6 + 6) (omega (arith, six_end, length-append (front ++ six) ten)) qual
          w.qualifier_fits
      ∙ ap (λ n. ok (diagnosis i, n)) (omega arith)

  pub parse_diagnosis_item-wire :
      parse_diagnosis_item (front ++ (body_bytes (diagnosis i) ++ rest)) o i.user_structure_id
      ≡ ok (diagnosis i, o + length (body_bytes (diagnosis i)))
  unfolding six
  parse_diagnosis_item-wire = elim (Bool-cases (is_qualified i)) [
    | inl qual ↦
        let ext : is_extended i ≡ true = ground arith in rw (ext, qual) (parse_qualified qual)
    | inr unqual ↦ elim (Bool-cases (is_extended i)) [
      | inl ext ↦ rw (ext, unqual) (parse_extended ext unqual)
      | inr plain ↦ rw (plain, unqual) (parse_plain plain unqual)
    ]
  ]
