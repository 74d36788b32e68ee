-- ===== src/Rt/Config/Layout.antt =====
-- src/rt.rs, `build_iocr_configs`: the objects of an IOCR lie one behind the other, inside its data.
use profinet_rs.Prelude.{
  ℕ, ◌+◌, ◌<◌, ◌≤◌, ◌≡◌, ◌⊎◌, inl, inr, refl, arith, max, ◌==◌, ltb, if◌then◌else◌, Bool-cases,
  ltb→lt, none, some, List, [], ◌∷◌, ◌++◌,
}
use mathlib.Core.Path.{subst}
use native.Mathlib.Nat.{le_refl}
use profinet_rs.Rt.Config.{
  IoSlot, IoDataObject, data_objects, skip_iocs, iocs_objects, build_iocr_configs,
}

-- An object's own bytes: data and an IOPS byte, or one IOCS byte.
abbrev pub IsPlaced : IoDataObject → Type 0
IsPlaced o =
    ((o.iocs_offset ≡ none)
      × (0 < o.data_length)
      × (o.iops_offset ≡ o.frame_offset + o.data_length))
    ⊎ ((o.iocs_offset ≡ some o.frame_offset) × (o.data_length ≡ 0))

-- The objects take disjoint stretches between `lo` and `hi`, in order.
abbrev pub Laid : ℕ → List IoDataObject → ℕ → Type 0
Laid lo [] hi = lo ≤ hi
Laid lo (o ∷ os) hi =
    IsPlaced o × (lo ≤ o.frame_offset) × Laid (o.frame_offset + o.data_length + 1) os hi

data_objects-Laid :
    (len : IoSlot → ℕ) (slots : List IoSlot) (offset : ℕ)
    → Laid offset (data_objects len slots offset).0 (data_objects len slots offset).1
unfolding data_objects
data_objects-Laid len [] offset = omega arith
data_objects-Laid len (s ∷ slots) offset = elim (Bool-cases (ltb 0 (len s))) [
  | inl e ↦
      let next = offset + (len s + 1) in
      let (rest, end) = data_objects len slots next in
      let ih : Laid (offset + len s + 1) rest end =
        subst (λ k. Laid k rest end) (omega arith) (data_objects-Laid len slots next) in
      rw e (inl (refl, ltb→lt 0 (len s) e, refl), le_refl offset, ih)
  | inr e ↦ rw e (data_objects-Laid len slots offset)
]

iocs_objects-Laid :
    (slots : List IoSlot) (offset : ℕ)
    → Laid offset (iocs_objects slots offset).0 (iocs_objects slots offset).1
unfolding iocs_objects
iocs_objects-Laid [] offset = omega arith
iocs_objects-Laid (s ∷ slots) offset = elim (Bool-cases (s.output_length == 0)) [
  | inl e ↦
      let (rest, end) = iocs_objects slots (offset + 1) in
      let ih : Laid (offset + 0 + 1) rest end =
        subst (λ k. Laid k rest end) (omega arith) (iocs_objects-Laid slots (offset + 1)) in
      rw e (inr (refl, refl), le_refl offset, ih)
  | inr e ↦ rw e (iocs_objects-Laid slots offset)
]

-- Stretches that follow one another, and a later end.
pub Laid-append :
    (lo mid hi : ℕ) (xs ys : List IoDataObject)
    → Laid lo xs mid
    → Laid mid ys hi
    → Laid lo (xs ++ ys) hi
Laid-append lo mid hi [] ys h k = Laid_lower lo mid hi ys h k
  where
    Laid_lower : (a b c : ℕ) (zs : List IoDataObject) → a ≤ b → Laid b zs c → Laid a zs c
    Laid_lower a b c [] p q = omega arith
    Laid_lower a b c (z ∷ zs) p q = (q.0, omega arith, q.2)
Laid-append lo mid hi (x ∷ xs) ys h k =
    (h.0, h.1, Laid-append (x.frame_offset + x.data_length + 1) mid hi xs ys h.2 k)

pub Laid-upper :
    (lo hi top : ℕ) (xs : List IoDataObject) → hi ≤ top → Laid lo xs hi → Laid lo xs top
Laid-upper lo hi top [] p h = omega arith
Laid-upper lo hi top (x ∷ xs) p h =
    (h.0, h.1, Laid-upper (x.frame_offset + x.data_length + 1) hi top xs p h.2)

pub Laid-ends : (lo hi : ℕ) (xs : List IoDataObject) → Laid lo xs hi → lo ≤ hi
Laid-ends lo hi [] h = h
Laid-ends lo hi (x ∷ xs) h =
    let rest = Laid-ends (x.frame_offset + x.data_length + 1) hi xs h.2 in
    let first = h.1 in omega arith

-- The bytes that the slots take in one direction: each its data and an IOPS byte, or an IOCS byte.
abbrev pub c_sdu_length : (IoSlot → ℕ) → List IoSlot → ℕ
c_sdu_length len [] = 0
c_sdu_length len (s ∷ slots) = len s + 1 + c_sdu_length len slots

-- The bytes of the slots with data only, and the number of the slots without.
abbrev data_bytes : (IoSlot → ℕ) → List IoSlot → ℕ
data_bytes len [] = 0
data_bytes len (s ∷ slots) = (if ltb 0 (len s) then len s + 1 else 0) + data_bytes len slots

abbrev iocs_bytes : (IoSlot → ℕ) → List IoSlot → ℕ
iocs_bytes len [] = 0
iocs_bytes len (s ∷ slots) = (if len s == 0 then 1 else 0) + iocs_bytes len slots

data_bytes-add-iocs_bytes :
    (len : IoSlot → ℕ) (slots : List IoSlot)
    → data_bytes len slots + iocs_bytes len slots ≡ c_sdu_length len slots
data_bytes-add-iocs_bytes len [] = omega arith
data_bytes-add-iocs_bytes len (s ∷ slots) = ground (arith, data_bytes-add-iocs_bytes len slots)

data_objects_end :
    (len : IoSlot → ℕ) (slots : List IoSlot) (offset : ℕ)
    → (data_objects len slots offset).1 ≡ offset + data_bytes len slots
unfolding data_objects
data_objects_end len [] offset = omega arith
data_objects_end len (s ∷ slots) offset =
    ground
      (arith, data_objects_end len slots offset, data_objects_end len slots (offset + (len s + 1)))

iocs_objects_end :
    (slots : List IoSlot) (offset : ℕ)
    → (iocs_objects slots offset).1 ≡ offset + iocs_bytes (λ s. s.output_length) slots
unfolding iocs_objects
iocs_objects_end [] offset = omega arith
iocs_objects_end (s ∷ slots) offset =
    ground (arith, iocs_objects_end slots offset, iocs_objects_end slots (offset + 1))

skip_iocs_end :
    (slots : List IoSlot) (offset : ℕ)
    → skip_iocs slots offset ≡ offset + iocs_bytes (λ s. s.input_length) slots
unfolding skip_iocs
skip_iocs_end [] offset = omega arith
skip_iocs_end (s ∷ slots) offset =
    ground (arith, skip_iocs_end slots offset, skip_iocs_end slots (offset + 1))

module _ (slots : List IoSlot) (in_id out_id scf rr wf : ℕ) where
  -- Both IOCRs are as long as their slots need, 40 bytes at least: every slot takes its data and an
  -- IOPS byte, or an IOCS byte where it has no data in that direction.
  pub build_iocr_configs-length :
      let (input, output) = build_iocr_configs slots in_id out_id scf rr wf in
      (input.data_length ≡ max (c_sdu_length (λ s. s.input_length) slots) 40)
      × (output.data_length ≡ max (c_sdu_length (λ s. s.output_length) slots) 40)
  unfolding build_iocr_configs
  build_iocr_configs-length =
      let in_end = data_objects_end (λ s. s.input_length) slots 0 in
      let out_end = data_objects_end (λ s. s.output_length) slots 0 in
      (
        omega (
          arith,
          in_end,
          skip_iocs_end slots (data_objects (λ s. s.input_length) slots 0).1,
          data_bytes-add-iocs_bytes (λ s. s.input_length) slots,
        ),
        omega (
          arith,
          out_end,
          iocs_objects_end slots (data_objects (λ s. s.output_length) slots 0).1,
          data_bytes-add-iocs_bytes (λ s. s.output_length) slots,
        ),
      )

  -- In both IOCRs the objects take disjoint stretches, in order and inside the data: data objects
  -- their data with the IOPS byte behind it, the others one IOCS byte.
  pub build_iocr_configs-Laid :
      let (input, output) = build_iocr_configs slots in_id out_id scf rr wf in
      Laid 0 input.objects input.data_length × Laid 0 output.objects output.data_length
  unfolding build_iocr_configs
  build_iocr_configs-Laid =
      let (objects, offset) = data_objects (λ s. s.input_length) slots 0 in
      let (produced, mid) = data_objects (λ s. s.output_length) slots 0 in
      let (consumer, end) = iocs_objects slots mid in
      (
        Laid-upper 0 offset (max (skip_iocs slots offset) 40) objects
            (omega (arith, skip_iocs_end slots offset))
            (data_objects-Laid (λ s. s.input_length) slots 0),
        Laid-upper 0 end (max end 40) (produced ++ consumer) (omega arith) (
            Laid-append 0 mid end produced consumer
              (data_objects-Laid (λ s. s.output_length) slots 0) (iocs_objects-Laid slots mid)),
      )
