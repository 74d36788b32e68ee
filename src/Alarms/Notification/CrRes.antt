-- ===== src/Alarms/Notification/CrRes.antt =====
-- src/alarms.rs, `parse_alarm_cr_res`: which block of a connect response it takes.
use profinet_rs.Prelude.{
  ℕ, zero, suc, ◌+◌, ◌<◌, ◌≤◌, ◌≡◌, inl, inr, refl, sym, ap, ◌∙◌, arith, true, ◌==◌, leb,
  if◌then◌else◌, Bool-cases, ==_iff, Option, none, some, List, [], ◌∷◌, ◌++◌, append_assoc, All,
  length, length-append, get_or-append_left, Bytes, IsU16, u16_at, at16, u16_at_lem, be16,
  u16_at-be16, u16_at-append, ok,
}
use profinet_rs.Alarms.Notification.{block_alarm_cr_res, alarm_cr_loop, parse_alarm_cr_res}

-- A block of a connect response: its type, and what its length counts, the version first.
pub record ResponseBlock : Type 0 where
  pub block_type : ℕ
  pub body : Bytes

abbrev pub response_bytes : List ResponseBlock → Bytes
response_bytes [] = []
response_bytes (b ∷ bs) =
    (be16 b.block_type ++ (be16 (length b.body) ++ b.body)) ++ response_bytes bs

-- A block with its version, and with all of its fields where it answers for an alarm CR.
abbrev pub IsWhole : ResponseBlock → Type 0
IsWhole b =
    IsU16 b.block_type
    × IsU16 (length b.body)
    × (2 ≤ length b.body)
    × (b.block_type ≡ block_alarm_cr_res → 8 ≤ length b.body)

-- The local alarm reference in the first block that answers for an alarm CR.
abbrev pub first_reference : List ResponseBlock → Option ℕ
first_reference [] = none
first_reference (b ∷ bs) =
    if b.block_type == block_alarm_cr_res then some (at16 b.body 4) else first_reference bs

alarm_cr_loop-response_bytes :
    (fuel : ℕ) (front : Bytes) (bs : List ResponseBlock)
    → length (response_bytes bs) < fuel
    → All IsWhole bs
    → alarm_cr_loop fuel (front ++ response_bytes bs) (length front) ≡ ok (first_reference bs)
unfolding alarm_cr_loop
alarm_cr_loop-response_bytes zero front bs h all = absurd (omega arith)
alarm_cr_loop-response_bytes (suc fuel) front [] h all = ground (arith, length-append {0} front [])
alarm_cr_loop-response_bytes (suc fuel) front (b ∷ bs) h all =
    let w = all.0 in
    let rest = response_bytes bs in
    let block = be16 b.block_type ++ (be16 (length b.body) ++ b.body) in
    let size = length-append {0} front (block ++ rest) in
    let inner = length-append {0} block rest in
    let more : leb (length front + 6) (length (front ++ (block ++ rest))) ≡ true = ground arith in
    let step : alarm_cr_loop fuel (front ++ (block ++ rest)) (length front + (4 + length b.body))
        ≡ ok (first_reference bs) =
      ap (λ d. alarm_cr_loop fuel d (length front + (4 + length b.body)))
        (sym (append_assoc front block rest))
      ∙ ap (alarm_cr_loop fuel ((front ++ block) ++ rest))
          (omega (arith, length-append front block))
      ∙ alarm_cr_loop-response_bytes fuel (front ++ block) bs (omega arith) all.1 in
    rw
      (
        more,
        u16_at-be16 front (be16 (length b.body) ++ (b.body ++ rest)) (length front) b.block_type
            refl w.0,
        length16,
        step,
      )
      (elim (Bool-cases (b.block_type == block_alarm_cr_res)) [
        | inl found ↦
            let whole : 8 ≤ length b.body =
              w.3 ((==_iff b.block_type block_alarm_cr_res).0 found) in
            let there : leb (length front + 12) (length (front ++ (block ++ rest))) ≡ true =
              ground arith in
            rw (found, there, reference whole) refl
        | inr other ↦ rw other refl
      ])
  where
    length16 :
        u16_at
          (front ++ (be16 b.block_type ++ (be16 (length b.body) ++ (b.body ++ response_bytes bs))))
          (length front + 2)
        ≡ ok (length b.body)
    length16 =
        ap (λ d. u16_at d (length front + 2))
          (sym (
            append_assoc front (be16 b.block_type)
              (be16 (length b.body) ++ (b.body ++ response_bytes bs))))
        ∙ u16_at-be16 (front ++ be16 b.block_type) (b.body ++ response_bytes bs) (length front + 2)
            (length b.body) (sym (length-append front (be16 b.block_type))) all.0.1

    reference :
        8 ≤ length b.body
        → u16_at
            (front
              ++ (be16 b.block_type ++ (be16 (length b.body) ++ (b.body ++ response_bytes bs))))
            (length front + 8)
          ≡ ok (at16 b.body 4)
    reference long =
        let rest = response_bytes bs in
        u16_at-append front (be16 b.block_type ++ (be16 (length b.body) ++ (b.body ++ rest)))
          (length front + 8) 8 refl
        ∙ u16_at-append (be16 b.block_type ++ be16 (length b.body)) (b.body ++ rest) 8 4 refl
        ∙ u16_at_lem (b.body ++ rest) 4 (omega (arith, length-append b.body rest))
        ∙ ap ok
            (ground (arith, get_or-append_left b.body rest 4 0, get_or-append_left b.body rest 5 0))

-- In a response of whole blocks, `parse_alarm_cr_res` gives the local alarm reference of the first block
-- that answers for an alarm CR, wherever it stands, and nothing where there is none.
pub parse_alarm_cr_res-response_bytes :
    (bs : List ResponseBlock)
    → All IsWhole bs
    → parse_alarm_cr_res (response_bytes bs) ≡ ok (first_reference bs)
unfolding parse_alarm_cr_res
parse_alarm_cr_res-response_bytes bs all =
    alarm_cr_loop-response_bytes (suc (length (response_bytes bs))) [] bs (omega arith) all
