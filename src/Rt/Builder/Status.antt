-- ===== src/Rt/Builder/Status.antt =====
-- src/rt.rs, `CyclicDataBuilder::set_all_iocs`: acknowledging input never touches process data.
use profinet_rs.Prelude.{
  write_at_lem, get_or-set, ℕ, ◌+◌, ◌-◌, ◌<◌, ◌≤◌, ◌≡◌, ◌≢◌, ◌⊎◌, inl, inr, refl, ◌∙◌, arith, min,
  ◌==◌, ltb, if◌then◌else◌, Option-cases, ltb→lt, Yields-bind, Yields-map, Yields-both,
  Yields-unbind, Yields-value, if-Yields, write_at-length, none, some, List, [], ◌∷◌, ◌++◌,
  append-nil, All, length, take, take-all, Bytes, byte_at, write_at, at, byte_at_lem, ok, ◌>>=◌,
  Yields,
}
use mathlib.Core.Path.{subst}
use profinet_rs.Rt.Config.{IoDataObject, IocrConfig}
use profinet_rs.Rt.Config.Layout.{IsPlaced, Laid}
use profinet_rs.Rt.Builder.{
  CyclicDataBuilder, find_object, written, get_data, set_data, set_iops, iocs_round, iocs_loop,
  set_all_iocs,
}
use profinet_rs.Rt.Builder.Inv.{IsSound, Fits, Laid-Fits, object-Fits}
use profinet_rs.Rt.Builder.Region.{region, region-write_at_apart}
use profinet_rs.Rt.Builder.Swap.{iocs_round-IsSound}
use profinet_rs.Rt.Builder.Data.{
  find_object_step, find_object-found, written_keeps, known_object, get_data-set_data,
}

-- The IOCS byte of `x` lies outside the data of `o`.
abbrev IsClear : IoDataObject → IoDataObject → Type 0
IsClear o x =
    (off : ℕ)
    → x.iocs_offset ≡ some off
    → (off < o.frame_offset) ⊎ (o.frame_offset + o.data_length ≤ off)

placed_offset :
    (x : IoDataObject) (off : ℕ)
    → IsPlaced x
    → x.iocs_offset ≡ some off
    → (off ≡ x.frame_offset) × (x.data_length ≡ 0)
placed_offset x off (inl p) e = cc
placed_offset x off (inr p) e = (ground arith, p.1)

behind-IsClear :
    (o : IoDataObject) (lo hi : ℕ) (os : List IoDataObject)
    → o.frame_offset + o.data_length < lo
    → Laid lo os hi
    → All (IsClear o) os
behind-IsClear o lo hi [] p h = tt
behind-IsClear o lo hi (x ∷ os) p h = (
  λ off e. inr (omega (arith, (placed_offset x off h.0 e).0)),
  behind-IsClear o (x.frame_offset + x.data_length + 1) hi os (omega arith) h.2,
)

found-IsClear :
    (lo hi : ℕ) (os : List IoDataObject) (slot subslot : ℕ) {o : IoDataObject}
    → Laid lo os hi
    → find_object os slot subslot ≡ some o
    → All (IsClear o) os
found-IsClear lo hi [] slot subslot h e = tt
found-IsClear lo hi (x ∷ os) slot subslot {o} h e = elim (find_object_step x os slot subslot e) [
  | inl (_, _, same) ↦
      subst (λ y. All (IsClear y) (x ∷ os)) same
        (
          λ off e'. inr (omega (arith, placed_offset x off h.0 e')),
          behind-IsClear x (x.frame_offset + x.data_length + 1) hi os (omega arith) h.2,
        )
  | inr later ↦
      let top = x.frame_offset + x.data_length + 1 in
      (
        λ off e'. inl (
            omega (
              arith,
              placed_offset x off h.0 e',
              (find_object-found top hi os slot subslot h.2 later).1,
            )),
        found-IsClear top hi os slot subslot h.2 later,
      )
]

module _ {c : IocrConfig} (slot subslot status : ℕ) {o : IoDataObject} where
  iocs_round_keeps :
      {b : CyclicDataBuilder} (x : IoDataObject)
      → IsSound c b
      → find_object c.objects slot subslot ≡ some o
      → Fits c.data_length x
      → IsClear o x
      → Yields
          (iocs_round x status b)
          (λ b'. IsSound c b' × (get_data b' slot subslot ≡ get_data b slot subslot))
  unfolding iocs_round
  iocs_round_keeps {b} x s e fits clear =
      Yields-both (iocs_round x status b) (IsSound c) _ (iocs_round-IsSound x status s fits)
        (elim (Option-cases x.iocs_offset) [
          | inl n ↦ rw (n, iocs_round) refl
          | inr (off, n) ↦ rw (n, iocs_round) (write_round off n)
        ])
    where
      found : find_object b.config.objects slot subslot ≡ some o
      found = rw s.config_same e

      inside : (off : ℕ) → x.iocs_offset ≡ some off → off < length b.write_buffer
      inside off n = rw s.write_length (fits.2 off n)

      write_round :
          (off : ℕ)
          → x.iocs_offset ≡ some off
          → Yields
              (byte_at b.write_buffer off >>= λ old.
                if old == status then ok b else written b (write_at b.write_buffer off status))
              (λ b'. get_data b' slot subslot ≡ get_data b slot subslot)
      write_round off n = rw (byte_at_lem b.write_buffer off (inside off n)) (
          if-Yields (at b.write_buffer off == status) _ _
            (λ b'. get_data b' slot subslot ≡ get_data b slot subslot) (λ _. refl)
            (λ _.
              written_keeps b (write_at b.write_buffer off status) slot subslot found
                (object-Fits s slot subslot found).0
                (write_at-length b.write_buffer off status (inside off n))
                (region-write_at_apart b.write_buffer off status o.frame_offset o.data_length
                  (inside off n) (object-Fits s slot subslot found).0 (clear off n))))

  iocs_loop_keeps :
      (os : List IoDataObject) {b : CyclicDataBuilder}
      → IsSound c b
      → find_object c.objects slot subslot ≡ some o
      → All (Fits c.data_length) os
      → All (IsClear o) os
      → Yields (iocs_loop os status b) (λ b'. get_data b' slot subslot ≡ get_data b slot subslot)
  unfolding iocs_loop
  iocs_loop_keeps [] s e all clear = refl
  iocs_loop_keeps (x ∷ os) {b} s e all clear =
      Yields-bind (iocs_round x status b) (iocs_loop os status) _ _
        (iocs_round_keeps x s e all.0 clear.0)
        (λ b' k.
          Yields-map (iocs_loop os status b') _ _ (λ b'' q. q ∙ k.1)
            (iocs_loop_keeps os k.0 e all.1 clear.1))

-- Setting every consumer status leaves the process data of every submodule alone.
pub get_data-set_all_iocs :
    {c : IocrConfig} {b : CyclicDataBuilder} (slot subslot status : ℕ)
    → IsSound c b
    → find_object b.config.objects slot subslot ≢ none
    → Yields (set_all_iocs b status) (λ b'. get_data b' slot subslot ≡ get_data b slot subslot)
unfolding set_all_iocs
get_data-set_all_iocs {c} {b} slot subslot status s k =
    let (o, e) = known_object c.objects slot subslot (rw s.config_same at k) in
    iocs_loop_keeps slot subslot status b.config.objects s e
      (rw s.config_same (Laid-Fits 0 c.data_length c.objects s.laid))
      (rw s.config_same (found-IsClear 0 c.data_length c.objects slot subslot s.laid e))

status_behind :
    (o : IoDataObject)
    → IsPlaced o
    → 0 < o.data_length
    → o.frame_offset + o.data_length ≤ o.iops_offset
status_behind o (inl (_, _, e)) h = omega arith
status_behind o (inr (_, e)) h = absurd (omega arith)

-- The provider status of a submodule stands behind its data.
pub get_data-set_iops :
    {c : IocrConfig} {b : CyclicDataBuilder} (slot subslot status : ℕ) {o : IoDataObject}
    → IsSound c b
    → find_object b.config.objects slot subslot ≡ some o
    → Yields
        (set_iops b slot subslot status)
        (λ b'. get_data b' slot subslot ≡ get_data b slot subslot)
unfolding set_iops
get_data-set_iops {c} {b} slot subslot status {o} s e =
    let fits = object-Fits s slot subslot e in
    rw (e, set_iops)
      (if-Yields (ltb 0 o.data_length) _ _
        (λ b'. get_data b' slot subslot ≡ get_data b slot subslot)
        (λ pos.
          let inside = fits.1 (ltb→lt 0 o.data_length pos) in
          written_keeps b (write_at b.write_buffer o.iops_offset status) slot subslot e fits.0
            (write_at-length b.write_buffer o.iops_offset status inside)
            (region-write_at_apart b.write_buffer o.iops_offset status o.frame_offset o.data_length
              inside fits.0
              (inr (
                status_behind o
                  (find_object-found 0 c.data_length b.config.objects slot subslot
                    (rw s.config_same s.laid) e).0
                  (ltb→lt 0 o.data_length pos)))))
        (λ _. refl))

-- The status is written where a submodule has data.
pub at-set_iops :
    {c : IocrConfig} {b : CyclicDataBuilder} (slot subslot status : ℕ) {o : IoDataObject}
    → IsSound c b
    → find_object b.config.objects slot subslot ≡ some o
    → Yields
        (set_iops b slot subslot status)
        (λ b'. (o.data_length ≡ 0) ⊎ (at b'.write_buffer o.iops_offset ≡ status))
unfolding set_iops
at-set_iops {c} {b} slot subslot status {o} s e =
    let fits = object-Fits s slot subslot e in
    rw (e, set_iops)
      (if-Yields (ltb 0 o.data_length) _ _ _
        (λ pos.
          let inside = fits.1 (ltb→lt 0 o.data_length pos) in
          rw (write_at_lem b.write_buffer o.iops_offset status inside)
            (inr (get_or-set b.write_buffer o.iops_offset status 0 inside)))
        (λ no_data. inl (ground arith)))

-- What `get_data` returns is read off the layout and the write buffer.
pub get_data_same :
    (b b' : CyclicDataBuilder) (slot subslot : ℕ)
    → b'.config ≡ b.config
    → b'.write_buffer ≡ b.write_buffer
    → get_data b' slot subslot ≡ get_data b slot subslot
unfolding get_data
get_data_same b b' slot subslot e w = rw (e, w) refl

-- Data of the submodule's length come back as they are.
pub get_data-set_data_whole :
    {c : IocrConfig} {b : CyclicDataBuilder} (slot subslot : ℕ) (d : Bytes) {o : IoDataObject}
    → IsSound c b
    → find_object b.config.objects slot subslot ≡ some o
    → length d ≡ o.data_length
    → Yields (set_data b slot subslot d) (λ b'. get_data b' slot subslot ≡ ok d)
get_data-set_data_whole {c} {b} slot subslot d {o} s e n =
    Yields-map (set_data b slot subslot d) _ _
      (λ b' h.
        Yields-value (get_data b' slot subslot) d
          (Yields-map (get_data b' slot subslot) _ (λ r. r ≡ d) (λ r q. q ∙ whole) h))
      (Yields-unbind (set_data b slot subslot d) _ _ (get_data-set_data s slot subslot d e))
  where
    all : min (length d) o.data_length ≡ length d
    all = omega arith

    rest : o.data_length - min (length d) o.data_length ≡ 0
    rest = omega arith

    whole :
        take (min (length d) o.data_length) d
          ++ region b.write_buffer
              (o.frame_offset + min (length d) o.data_length)
              (o.data_length - min (length d) o.data_length)
        ≡ d
    whole = rw (rest, all) (append-nil (take (length d) d) ∙ take-all (length d) d (omega arith))
