-- ===== src/Rt/Builder/Inv.antt =====
-- src/rt.rs, `CyclicDataBuilder`: the invariant of the double buffer, and that every method keeps it.
use profinet_rs.Prelude.{
  ℕ, ◌+◌, ◌<◌, ◌≤◌, ◌≡◌, ◌≢◌, inl, inr, refl, arith, min, false, ◌&&◌, ◌==◌, ltb, Bool-cases,
  Option-cases, ltb→lt, if-Yields, write_slice-length, write_at-length, none, some, List, [], ◌∷◌,
  All, length, take, length-take, length-replicate, Bytes, slice_lem, Exec, ok, err, panic, stuck,
  Returns, Yields, unknown_subslot,
}
use mathlib.Core.Path.{subst}
use profinet_rs.Rt.Config.{IoDataObject, IocrConfig}
use profinet_rs.Rt.Config.Layout.{IsPlaced, Laid}
use profinet_rs.Rt.Builder.{
  CyclicDataBuilder, new, find_object, written, set_data, get_data, set_iops, set_iocs, clear, swap,
  load,
}

-- Both buffers have the length of the layout, and a clean builder has nothing to send.
pub record IsSound (c : IocrConfig) (b : CyclicDataBuilder) : Type 0 where
  pub config_same : b.config ≡ c
  pub laid : Laid 0 c.objects c.data_length
  pub write_length : length b.write_buffer ≡ c.data_length
  pub send_length : length b.send_buffer ≡ c.data_length
  pub clean : b.dirty ≡ false → b.send_buffer ≡ b.write_buffer

abbrev pub Fits : ℕ → IoDataObject → Type 0
Fits n o =
    (o.frame_offset + o.data_length ≤ n)
    × (0 < o.data_length → o.iops_offset < n)
    × ((off : ℕ) → o.iocs_offset ≡ some off → off < n)

IsPlaced-Fits :
    (o : IoDataObject) (n : ℕ) → IsPlaced o → o.frame_offset + o.data_length < n → Fits n o
IsPlaced-Fits o n (inl (none_iocs, pos, iops)) h = (omega arith, λ _. omega arith, λ off e. cc)
IsPlaced-Fits o n (inr (iocs, empty)) h = (omega arith, λ p. omega arith, λ off e. ground arith)

pub Laid-le : (lo hi : ℕ) (os : List IoDataObject) → Laid lo os hi → lo ≤ hi
Laid-le lo hi [] h = h
Laid-le lo hi (o ∷ os) h = omega (arith, Laid-le (o.frame_offset + o.data_length + 1) hi os h.2)

pub Laid-Fits : (lo hi : ℕ) (os : List IoDataObject) → Laid lo os hi → All (Fits hi) os
Laid-Fits lo hi [] h = tt
Laid-Fits lo hi (o ∷ os) h =
    let top = o.frame_offset + o.data_length + 1 in
    (IsPlaced-Fits o hi h.0 (omega (arith, Laid-le top hi os h.2)), Laid-Fits top hi os h.2)

find_object-Fits :
    (os : List IoDataObject) (slot subslot n : ℕ) {o : IoDataObject}
    → All (Fits n) os
    → find_object os slot subslot ≡ some o
    → Fits n o
unfolding find_object
find_object-Fits [] slot subslot n all e = cc
find_object-Fits (x ∷ os) slot subslot n {o} all e =
    elim (Bool-cases (x.slot == slot && x.subslot == subslot)) [
      | inl hit ↦ let same : x ≡ o = ground arith in subst (Fits n) same all.0
      | inr miss ↦ find_object-Fits os slot subslot n all.1 (rw miss at e)
    ]

pub new-IsSound : (c : IocrConfig) → Laid 0 c.objects c.data_length → IsSound c (new c)
unfolding new
new-IsSound c h = record {
  config_same = refl;
  laid = h;
  write_length = length-replicate c.data_length 0;
  send_length = length-replicate c.data_length 0;
  clean = λ _. refl;
}

module _ {c : IocrConfig} {b : CyclicDataBuilder} (s : IsSound c b) where
  pub written-IsSound :
      (w : Exec Bytes)
      → Yields w (λ buffer. length buffer ≡ length b.write_buffer)
      → Yields (written b w) (IsSound c)
  written-IsSound (ok buffer) h = record {
    config_same = s.config_same;
    laid = s.laid;
    write_length = omega (arith, s.write_length);
    send_length = s.send_length;
    clean = λ e. cc;
  }
  written-IsSound (err e) h = h
  written-IsSound panic h = h
  written-IsSound stuck h = h

  pub object-Fits :
      (slot subslot : ℕ) {o : IoDataObject}
      → find_object b.config.objects slot subslot ≡ some o
      → Fits (length b.write_buffer) o
  object-Fits slot subslot e =
      find_object-Fits b.config.objects slot subslot (length b.write_buffer)
        (rw (s.write_length, s.config_same) (Laid-Fits 0 c.data_length c.objects s.laid)) e

  -- What `set_data` writes lies in the buffer. An unknown slot is an error, and nothing else is.
  pub set_data-IsSound :
      (slot subslot : ℕ) (d : Bytes)
      → (find_object b.config.objects slot subslot ≡ none
          → set_data b slot subslot d ≡ err (unknown_subslot slot subslot))
        × (find_object b.config.objects slot subslot ≢ none
            → Yields (set_data b slot subslot d) (IsSound c))
  unfolding set_data
  set_data-IsSound slot subslot d =
      elim (Option-cases (find_object b.config.objects slot subslot)) [
        | inl e ↦ rw (e, set_data) (λ _. refl, λ ne. absurd (ne refl))
        | inr (o, e) ↦
            let src = take (min (length d) o.data_length) d in
            let fits = object-Fits slot subslot e in
            rw (e, set_data)
              (
                λ h. cc,
                λ _. written-IsSound _ (
                    write_slice-length b.write_buffer o.frame_offset src
                      (omega (arith, fits.0, length-take (min (length d) o.data_length) d))),
              )
      ]

  pub get_data-Returns : (slot subslot : ℕ) → Returns (get_data b slot subslot)
  unfolding get_data
  get_data-Returns slot subslot = elim (Option-cases (find_object b.config.objects slot subslot)) [
    | inl e ↦ rw (e, get_data) tt
    | inr (o, e) ↦
        let fits = object-Fits slot subslot e in
        rw
          (
            e,
            get_data,
            slice_lem b.write_buffer o.frame_offset (o.frame_offset + o.data_length) (omega arith)
                fits.0,
          )
          tt
  ]

  pub set_iops-IsSound :
      (slot subslot status : ℕ) → Yields (set_iops b slot subslot status) (IsSound c)
  unfolding set_iops
  set_iops-IsSound slot subslot status =
      elim (Option-cases (find_object b.config.objects slot subslot)) [
        | inl e ↦ rw (e, set_iops) s
        | inr (o, e) ↦
            let fits = object-Fits slot subslot e in
            rw (e, set_iops)
              (if-Yields (ltb 0 o.data_length) _ _ (IsSound c)
                (λ pos. written-IsSound _ (
                  write_at-length b.write_buffer o.iops_offset status
                    (fits.1 (ltb→lt 0 o.data_length pos))))
                (λ _. s))
      ]

  pub set_iocs-IsSound :
      (slot subslot status : ℕ) → Yields (set_iocs b slot subslot status) (IsSound c)
  unfolding set_iocs
  set_iocs-IsSound slot subslot status =
      elim (Option-cases (find_object b.config.objects slot subslot)) [
        | inl e ↦ rw (e, set_iocs) s
        | inr (o, e) ↦
            let fits = object-Fits slot subslot e in
            rw (e, set_iocs)
              (elim (Option-cases o.iocs_offset) [
                | inl e' ↦ rw e' s
                | inr (off, e') ↦
                    rw e' (
                      written-IsSound _ (write_at-length b.write_buffer off status (fits.2 off e')))
              ])
      ]

  pub clear-IsSound : IsSound c (clear b)
  unfolding clear
  clear-IsSound = record {
    config_same = s.config_same;
    laid = s.laid;
    write_length =
        omega (arith, s.write_length, length-replicate {A = ℕ} (length b.write_buffer) 0);
    send_length = s.send_length;
    clean = λ e. cc;
  }

  pub load-IsSound : (payload : Bytes) → Yields (load b payload) (IsSound c)
  unfolding load
  load-IsSound payload =
      let n = min (length payload) (length b.write_buffer) in
      written-IsSound _ (
        write_slice-length b.write_buffer 0 (take n payload) (omega (arith, length-take n payload)))

  pub swap-IsSound : Yields (swap b) (IsSound c)
  unfolding swap
  swap-IsSound = ground (arith, s)
