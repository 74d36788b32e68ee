-- ===== src/Rt/Builder/Data.antt =====
-- src/rt.rs, `CyclicDataBuilder`: the data of one submodule against writes to it and to the others.
use profinet_rs.Prelude.{
  ℕ, ◌+◌, ◌-◌, ◌<◌, ◌≤◌, ◌≡◌, ◌≢◌, ◌⊎◌, inl, inr, sym, ap, ◌∙◌, arith, min, true, ◌&&◌, ◌==◌,
  Bool-cases, Option-cases, write_slice-length, none, some, List, [], ◌∷◌, ◌++◌, length, take, drop,
  length-take, Bytes, write_slice, slice_lem, write_slice_lem, Exec, ok, err, panic, stuck, ◌>>=◌,
  Yields,
}
use mathlib.Core.Path.{subst}
use profinet_rs.Rt.Config.{IoDataObject, IocrConfig}
use profinet_rs.Rt.Config.Layout.{IsPlaced, Laid}
use profinet_rs.Rt.Builder.{CyclicDataBuilder, find_object, written, set_data, get_data}
use profinet_rs.Rt.Builder.Inv.{IsSound, object-Fits}
use profinet_rs.Rt.Builder.Region.{region, region-write_slice, region-write_slice_apart}

-- The first object is the answer, or the search goes on behind it.
pub find_object_step :
    (x : IoDataObject) (os : List IoDataObject) (slot subslot : ℕ) {o : IoDataObject}
    → find_object (x ∷ os) slot subslot ≡ some o
    → ((x.slot ≡ slot) × (x.subslot ≡ subslot) × (x ≡ o)) ⊎ (find_object os slot subslot ≡ some o)
unfolding find_object
find_object_step x os slot subslot e = elim (Bool-cases (x.slot == slot && x.subslot == subslot)) [
  | inl hit ↦ inl (ground arith, ground arith, ground arith)
  | inr miss ↦ inr (rw miss at e)
]

-- What `find_object` returns is placed, and behind `lo`.
pub find_object-found :
    (lo hi : ℕ) (os : List IoDataObject) (slot subslot : ℕ) {o : IoDataObject}
    → Laid lo os hi
    → find_object os slot subslot ≡ some o
    → IsPlaced o × (lo ≤ o.frame_offset)
find_object-found lo hi [] slot subslot h e = unfold find_object in cc
find_object-found lo hi (x ∷ os) slot subslot {o} h e =
    elim (find_object_step x os slot subslot e) [
      | inl (_, _, same) ↦ subst (λ y. IsPlaced y × (lo ≤ y.frame_offset)) same (h.0, h.1)
      | inr later ↦
          let top = x.frame_offset + x.data_length + 1 in
          let r = find_object-found top hi os slot subslot h.2 later in
          (r.0, omega (arith, r.1, h.1))
    ]

module _ (s1 ss1 s2 ss2 : ℕ) (ne : (s1 ≢ s2) ⊎ (ss1 ≢ ss2)) where
  abbrev AreApart : IoDataObject → IoDataObject → Type 0
  AreApart o1 o2 =
      (o1.frame_offset + o1.data_length < o2.frame_offset)
      ⊎ (o2.frame_offset + o2.data_length < o1.frame_offset)

  -- The objects of two submodules take disjoint stretches.
  find_object-AreApart :
      (lo hi : ℕ) (os : List IoDataObject) {o1 o2 : IoDataObject}
      → Laid lo os hi
      → find_object os s1 ss1 ≡ some o1
      → find_object os s2 ss2 ≡ some o2
      → AreApart o1 o2
  find_object-AreApart lo hi [] h e1 e2 = unfold find_object in cc
  find_object-AreApart lo hi (x ∷ os) {o1} {o2} h e1 e2 =
      split (find_object_step x os s1 ss1 e1) (find_object_step x os s2 ss2 e2)
        (find_object-AreApart (x.frame_offset + x.data_length + 1) hi os h.2)
    where
      top : ℕ
      top = x.frame_offset + x.data_length + 1

      split :
          ((x.slot ≡ s1) × (x.subslot ≡ ss1) × (x ≡ o1)) ⊎ (find_object os s1 ss1 ≡ some o1)
          → ((x.slot ≡ s2) × (x.subslot ≡ ss2) × (x ≡ o2)) ⊎ (find_object os s2 ss2 ≡ some o2)
          → (find_object os s1 ss1 ≡ some o1 → find_object os s2 ss2 ≡ some o2 → AreApart o1 o2)
          → AreApart o1 o2
      split (inl a) (inl b) ih = absurd (ground (arith, ne))
      split (inl a) (inr later) ih =
          subst (λ y. AreApart y o2) a.2
            (inl (omega (arith, (find_object-found top hi os s2 ss2 h.2 later).1)))
      split (inr later) (inl b) ih =
          subst (λ y. AreApart o1 y) b.2
            (inr (omega (arith, (find_object-found top hi os s1 ss1 h.2 later).1)))
      split (inr p) (inr q) ih = ih p q

-- `get_data` of a known submodule is its stretch of the write buffer.
get_data-region :
    (b : CyclicDataBuilder) (slot subslot : ℕ) {o : IoDataObject}
    → find_object b.config.objects slot subslot ≡ some o
    → o.frame_offset + o.data_length ≤ length b.write_buffer
    → get_data b slot subslot ≡ ok (region b.write_buffer o.frame_offset o.data_length)
unfolding get_data
get_data-region b slot subslot {o} e h =
    rw
      (
        e,
        get_data,
        slice_lem b.write_buffer o.frame_offset (o.frame_offset + o.data_length) (omega arith) h,
      )
      (ap (λ n. ok (region b.write_buffer o.frame_offset n)) (omega arith))

-- The bytes that `set_data` writes for an object.
abbrev cut : Bytes → IoDataObject → Bytes
cut d o = take (min (length d) o.data_length) d

length-cut : (d : Bytes) (o : IoDataObject) → length (cut d o) ≡ min (length d) o.data_length
length-cut d o = omega (arith, length-take (min (length d) o.data_length) d)

-- The builder that `set_data` returns for a known submodule.
set_data_value :
    (b : CyclicDataBuilder) (slot subslot : ℕ) (d : Bytes) {o : IoDataObject}
    → find_object b.config.objects slot subslot ≡ some o
    → set_data b slot subslot d ≡ written b (write_slice b.write_buffer o.frame_offset (cut d o))
unfolding set_data
set_data_value b slot subslot d e = rw (e, set_data)

-- A write that leaves a submodule's stretch alone leaves what `get_data` returns of it alone.
pub written_keeps :
    (b : CyclicDataBuilder) (m : Exec Bytes) (slot subslot : ℕ) {o : IoDataObject}
    → find_object b.config.objects slot subslot ≡ some o
    → o.frame_offset + o.data_length ≤ length b.write_buffer
    → Yields m (λ w. length w ≡ length b.write_buffer)
    → Yields m (λ w.
      region w o.frame_offset o.data_length ≡ region b.write_buffer o.frame_offset o.data_length)
    → Yields (written b m) (λ b'. get_data b' slot subslot ≡ get_data b slot subslot)
written_keeps b (ok w) slot subslot e h len same =
    get_data-region (record b { write_buffer = w; dirty = true }) slot subslot e (omega arith)
    ∙ ap ok same
    ∙ sym (get_data-region b slot subslot e h)
written_keeps b (err x) slot subslot e h len same = len
written_keeps b panic slot subslot e h len same = len
written_keeps b stuck slot subslot e h len same = len

pub known_object :
    (os : List IoDataObject) (slot subslot : ℕ)
    → find_object os slot subslot ≢ none
    → (o : IoDataObject) × (find_object os slot subslot ≡ some o)
known_object os slot subslot k = elim (Option-cases (find_object os slot subslot)) [
  | inl e ↦ absurd (k e)
  | inr found ↦ found
]

module _ {c : IocrConfig} {b : CyclicDataBuilder} (s : IsSound c b) where
  -- What `set_data` wrote is what `get_data` returns: the data, cut to the submodule's length, and
  -- behind it the old bytes of the submodule.
  pub get_data-set_data :
      (slot subslot : ℕ) (d : Bytes) {o : IoDataObject}
      → find_object b.config.objects slot subslot ≡ some o
      → Yields (set_data b slot subslot d >>= λ b'. get_data b' slot subslot) (λ r.
        r
        ≡ take (min (length d) o.data_length) d
          ++ region b.write_buffer
              (o.frame_offset + min (length d) o.data_length)
              (o.data_length - min (length d) o.data_length))
  get_data-set_data slot subslot d {o} e =
      let fits = (object-Fits s slot subslot e).0 in
      let src = cut d o in
      let n : length src ≡ min (length d) o.data_length = length-cut d o in
      let inside : o.frame_offset + length src ≤ length b.write_buffer = omega arith in
      let w =
        take o.frame_offset b.write_buffer
        ++ (src ++ drop (o.frame_offset + length src) b.write_buffer) in
      let same : length w ≡ length b.write_buffer =
        rw (write_slice_lem b.write_buffer o.frame_offset src inside) at
          (write_slice-length b.write_buffer o.frame_offset src inside) in
      let got : region w o.frame_offset o.data_length
          ≡ src
            ++ region b.write_buffer (o.frame_offset + length src) (o.data_length - length src) =
        rw (write_slice_lem b.write_buffer o.frame_offset src inside) at
          (region-write_slice b.write_buffer o.frame_offset src o.data_length (omega arith) fits) in
      rw
        (
          set_data_value b slot subslot d e,
          write_slice_lem b.write_buffer o.frame_offset src inside,
        )
        (rw
          (get_data-region (record b { write_buffer = w; dirty = true }) slot subslot e
            (omega arith))
          (got ∙ ap (λ k. src ++ region b.write_buffer (o.frame_offset + k) (o.data_length - k)) n))

  -- `set_data` of one submodule leaves the data of every other alone.
  pub get_data-set_data_other :
      (s1 ss1 s2 ss2 : ℕ) (d : Bytes)
      → (s1 ≢ s2) ⊎ (ss1 ≢ ss2)
      → find_object b.config.objects s1 ss1 ≢ none
      → find_object b.config.objects s2 ss2 ≢ none
      → Yields (set_data b s1 ss1 d) (λ b'. get_data b' s2 ss2 ≡ get_data b s2 ss2)
  get_data-set_data_other s1 ss1 s2 ss2 d ne k1 k2 =
      let (o1, e1) = known_object b.config.objects s1 ss1 k1 in
      let (o2, e2) = known_object b.config.objects s2 ss2 k2 in
      let fits1 = (object-Fits s s1 ss1 e1).0 in
      let fits2 = (object-Fits s s2 ss2 e2).0 in
      let n = length-cut d o1 in
      let apart : AreApart s1 ss1 s2 ss2 ne o1 o2 =
        find_object-AreApart s1 ss1 s2 ss2 ne 0 c.data_length b.config.objects
          (rw s.config_same s.laid) e1 e2 in
      rw (set_data_value b s1 ss1 d e1) (
        written_keeps b (write_slice b.write_buffer o1.frame_offset (cut d o1)) s2 ss2 e2 fits2
          (write_slice-length b.write_buffer o1.frame_offset (cut d o1) (omega arith))
          (region-write_slice_apart b.write_buffer o1.frame_offset (cut d o1) o2.frame_offset
            o2.data_length (omega arith) fits2 (omega arith)))
