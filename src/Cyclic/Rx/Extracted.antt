-- ===== src/Cyclic/Rx/Extracted.antt =====
-- src/cyclic.rs: the entries that a payload gives the objects of the input layout.
use profinet_rs.Prelude.{
  ℕ, ◌+◌, ◌-◌, ◌<◌, ◌≤◌, ◌≡◌, inl, inr, refl, sym, ap, ◌∙◌, arith, Bool, true, false, ◌&&◌, ◌||◌,
  ◌==◌, ltb, leb, Bool-cases, Yields-bind, Yields-map, if-Yields, ap₂, none, some, List, [], ◌∷◌,
  length, Bytes, at, byte_at_lem, slice_lem, ◌>>=◌, Yields,
}
use mathlib.Core.Path.{subst}
use profinet_rs.Rt.Config.{IoDataObject}
use profinet_rs.Rt.Builder.{find_object}
use profinet_rs.Cyclic.State.{InputEntry}
use profinet_rs.Cyclic.Rx.{Extract, insert, extract_object, extract_objects}
use profinet_rs.Rt.Builder.Region.{region}

-- No two objects are for one submodule.
abbrev pub AreDistinct : List IoDataObject → Type 0
AreDistinct [] = Unit {0}
AreDistinct (o ∷ os) = (find_object os o.slot o.subslot ≡ none) × AreDistinct os

-- The entry that an object in range gets from a payload.
abbrev pub entry_of : Bytes → IoDataObject → InputEntry
entry_of payload o = record {
  bytes = region payload o.frame_offset o.data_length;
  iops = at payload o.iops_offset;
}

abbrev pub IsInRange : Bytes → IoDataObject → Type 0
IsInRange payload o =
    (o.iops_offset < length payload) × (o.frame_offset + o.data_length ≤ length payload)

find_object-none :
    (o : IoDataObject) (os : List IoDataObject) (slot subslot : ℕ)
    → find_object (o ∷ os) slot subslot ≡ none
    → ((o.slot == slot && o.subslot == subslot) ≡ false) × (find_object os slot subslot ≡ none)
unfolding find_object
find_object-none o os slot subslot e = elim (Bool-cases (o.slot == slot && o.subslot == subslot)) [
  | inl hit ↦ absurd (let found = rw hit at e in cc)
  | inr miss ↦ (miss, rw miss at e)
]

find_object_later :
    (o : IoDataObject) (os : List IoDataObject) (slot subslot : ℕ) {found : IoDataObject}
    → (o.slot == slot && o.subslot == subslot) ≡ false
    → find_object (o ∷ os) slot subslot ≡ some found
    → find_object os slot subslot ≡ some found
unfolding find_object
find_object_later o os slot subslot miss e = rw miss at e

find_object_hit :
    (z : IoDataObject) (os : List IoDataObject) (slot subslot : ℕ) {o : IoDataObject}
    → (z.slot == slot && z.subslot == subslot) ≡ true
    → find_object (z ∷ os) slot subslot ≡ some o
    → (z.slot ≡ slot) × (z.subslot ≡ subslot) × (z ≡ o)
unfolding find_object
find_object_hit z os slot subslot hit e = (ground arith, ground arith, ground arith)

==_turn : (a b : ℕ) → (a == b) ≡ (b == a)
==_turn a b = ground arith

module _ (want_data : Bool) (payload : Bytes) where
  own_entry :
      (o : IoDataObject) (x : Extract)
      → IsInRange payload o
      → Yields
          (extract_object want_data payload o x)
          (λ y. y.entries o.slot o.subslot ≡ some (entry_of payload o))
  unfolding extract_object insert
  own_entry o x inside =
      let go_on : leb (length payload) o.iops_offset
            || ltb (length payload) (o.frame_offset + o.data_length)
          ≡ false =
        ground arith in
      let self : (o.slot == o.slot && o.subslot == o.subslot) ≡ true = ground arith in
      let n : o.frame_offset + o.data_length - o.frame_offset ≡ o.data_length = omega arith in
      rw
        (
          go_on,
          byte_at_lem payload o.iops_offset inside.0,
          slice_lem payload o.frame_offset (o.frame_offset + o.data_length) (omega arith) inside.1,
          self,
          n,
        )
        refl

  other_entry :
      (o : IoDataObject) (x : Extract) (slot subslot : ℕ)
      → (o.slot == slot && o.subslot == subslot) ≡ false
      → Yields
          (extract_object want_data payload o x)
          (λ y. y.entries slot subslot ≡ x.entries slot subslot)
  unfolding extract_object insert
  other_entry o x slot subslot apart =
      let turned : (slot == o.slot && subslot == o.subslot) ≡ false =
        rw (==_turn slot o.slot, ==_turn subslot o.subslot) apart in
      if-Yields
        (leb (length payload) o.iops_offset
          || ltb (length payload) (o.frame_offset + o.data_length))
        _ _ _ (λ _. refl)
        (λ inside.
          rw
            (
              byte_at_lem payload o.iops_offset (ground arith),
              slice_lem payload o.frame_offset (o.frame_offset + o.data_length) (omega arith)
                  (ground arith),
              turned,
            )
            refl)

  extract_objects-absent :
      (os : List IoDataObject) (x : Extract) (slot subslot : ℕ)
      → find_object os slot subslot ≡ none
      → Yields
          (extract_objects want_data payload os x)
          (λ y. y.entries slot subslot ≡ x.entries slot subslot)
  unfolding extract_objects
  extract_objects-absent [] x slot subslot e = refl
  extract_objects-absent (o ∷ os) x slot subslot e =
      let (apart, later) = find_object-none o os slot subslot e in
      Yields-bind (extract_object want_data payload o x) (extract_objects want_data payload os) _ _
        (other_entry o x slot subslot apart)
        (λ y k.
          Yields-map (extract_objects want_data payload os y) _ _ (λ z m. m ∙ k)
            (extract_objects-absent os y slot subslot later))

  first_present :
      (z : IoDataObject) (os : List IoDataObject) (x : Extract)
      → find_object os z.slot z.subslot ≡ none
      → IsInRange payload z
      → Yields
          (extract_object want_data payload z x >>= extract_objects want_data payload os)
          (λ y. y.entries z.slot z.subslot ≡ some (entry_of payload z))
  first_present z os x alone inside =
      Yields-bind (extract_object want_data payload z x) (extract_objects want_data payload os) _ _
        (own_entry z x inside)
        (λ y k.
          Yields-map (extract_objects want_data payload os y) _ _ (λ w m. m ∙ k)
            (extract_objects-absent os y z.slot z.subslot alone))

  pub extract_objects-present :
      (os : List IoDataObject) (x : Extract) (slot subslot : ℕ) {o : IoDataObject}
      → find_object os slot subslot ≡ some o
      → AreDistinct os
      → IsInRange payload o
      → Yields
          (extract_objects want_data payload os x)
          (λ y. y.entries slot subslot ≡ some (entry_of payload o))
  unfolding extract_objects
  extract_objects-present [] x slot subslot e distinct inside = unfold find_object in cc
  extract_objects-present (z ∷ os) x slot subslot {o} e distinct inside =
      elim (Bool-cases (z.slot == slot && z.subslot == subslot)) [
        | inl hit ↦
            let (a, b, q) = find_object_hit z os slot subslot hit e in
            Yields-map
              (extract_object want_data payload z x >>= extract_objects want_data payload os) _ _
              (λ y k.
                sym (ap₂ y.entries a b)
                ∙ k
                ∙ ap (λ (v : IoDataObject). some (entry_of payload v)) q)
              (first_present z os x distinct.0 (subst (λ v. IsInRange payload v) (sym q) inside))
        | inr miss ↦
            Yields-bind (extract_object want_data payload z x)
              (extract_objects want_data payload os) _ _ (other_entry z x slot subslot miss)
              (λ y k.
                extract_objects-present os y slot subslot
                  (find_object_later z os slot subslot miss e) distinct.1 inside)
      ]
