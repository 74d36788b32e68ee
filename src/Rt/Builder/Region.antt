-- ===== src/Rt/Builder/Region.antt =====
-- Stretches of a buffer: what a write leaves alone, and what it puts where.
use profinet_rs.Prelude.{
  ℕ, zero, suc, ◌+◌, ◌-◌, ◌<◌, ◌≤◌, ◌≡◌, ◌≢◌, ◌⊎◌, inl, inr, refl, sym, ap, ◌∙◌, arith, [], ◌∷◌,
  ◌++◌, length, set, take, drop, length-append, length-set, length-take, length-drop, drop-append,
  take-append_past, get_or-append_left, get_or-append_right, get_or-ext, Bytes, write_at,
  write_slice, at, write_slice_lem, write_at_lem, Yields,
}

-- The `n` bytes from `a` on.
abbrev pub region : Bytes → ℕ → ℕ → Bytes
region d a n = take n (drop a d)

get_or-drop : (a : ℕ) (d : Bytes) (i : ℕ) → at (drop a d) i ≡ at d (a + i)
get_or-drop zero d i = ap (at d) (omega arith)
get_or-drop (suc a) [] i = refl
get_or-drop (suc a) (x ∷ d) i =
    let e : suc a + i ≡ suc (a + i) = omega arith in rw e (get_or-drop a d i)

get_or-take : (n : ℕ) (d : Bytes) (i : ℕ) → i < n → at (take n d) i ≡ at d i
get_or-take zero d i h = absurd (omega arith)
get_or-take (suc n) [] i h = refl
get_or-take (suc n) (x ∷ d) zero h = refl
get_or-take (suc n) (x ∷ d) (suc i) h = get_or-take n d i (omega arith)

get_or-region : (d : Bytes) (a n i : ℕ) → i < n → at (region d a n) i ≡ at d (a + i)
get_or-region d a n i h = get_or-take n (drop a d) i h ∙ get_or-drop a d i

length-region : (d : Bytes) (a n : ℕ) → a + n ≤ length d → length (region d a n) ≡ n
length-region d a n h = omega (arith, length-take n (drop a d), length-drop a d)

-- Two buffers that agree on a stretch have the same bytes there.
region-ext :
    (d e : Bytes) (a n : ℕ)
    → length d ≡ length e
    → a + n ≤ length d
    → ((i : ℕ) → a ≤ i → i < a + n → at d i ≡ at e i)
    → region d a n ≡ region e a n
region-ext d e a n len h same =
    get_or-ext (region d a n) (region e a n) 0
      (length-region d a n h ∙ sym (length-region e a n (omega arith)))
      (λ i p.
        let q : i < n = omega (arith, length-region d a n h) in
        get_or-region d a n i q
        ∙ same (a + i) (omega arith) (omega arith)
        ∙ sym (get_or-region e a n i q))

-- The buffer after `write_slice`.
abbrev patched : Bytes → ℕ → Bytes → Bytes
patched d a src = take a d ++ (src ++ drop (a + length src) d)

length-patched :
    (d : Bytes) (a : ℕ) (src : Bytes)
    → a + length src ≤ length d
    → length (patched d a src) ≡ length d
length-patched d a src h = omega (
  arith,
  length-append (take a d) (src ++ drop (a + length src) d),
  length-append src (drop (a + length src) d),
  length-take a d,
  length-drop (a + length src) d,
)

patched_below :
    (d : Bytes) (a : ℕ) (src : Bytes) (i : ℕ)
    → a + length src ≤ length d
    → i < a
    → at (patched d a src) i ≡ at d i
patched_below d a src i h p =
    get_or-append_left (take a d) _ i 0 (omega (arith, length-take a d)) ∙ get_or-take a d i p

patched_above :
    (d : Bytes) (a : ℕ) (src : Bytes) (i : ℕ)
    → a + length src ≤ length d
    → a + length src ≤ i
    → at (patched d a src) i ≡ at d i
patched_above d a src i h p =
    let k = i - (a + length src) in
    let back = drop (a + length src) d in
    let n : length (take a d) ≡ a = omega (arith, length-take a d) in
    let here : i ≡ length (take a d) + (length src + k) = omega arith in
    let there : a + length src + k ≡ i = omega arith in
    ap (at (patched d a src)) here
    ∙ get_or-append_right (take a d) (src ++ back) (length src + k) 0
    ∙ get_or-append_right src back k 0
    ∙ get_or-drop (a + length src) d k
    ∙ ap (at d) there

-- A stretch apart from the written one keeps its bytes.
pub region-write_slice_apart :
    (d : Bytes) (a : ℕ) (src : Bytes) (b n : ℕ)
    → a + length src ≤ length d
    → b + n ≤ length d
    → (b + n ≤ a) ⊎ (a + length src ≤ b)
    → Yields (write_slice d a src) (λ w. region w b n ≡ region d b n)
region-write_slice_apart d a src b n h k apart = rw (write_slice_lem d a src h) (
    region-ext (patched d a src) d b n (length-patched d a src h)
      (omega (arith, length-patched d a src h)) (λ i p q. same i p q apart))
  where
    same :
        (i : ℕ)
        → b ≤ i
        → i < b + n
        → (b + n ≤ a) ⊎ (a + length src ≤ b)
        → at (patched d a src) i ≡ at d i
    same i p q (inl left) = patched_below d a src i h (omega arith)
    same i p q (inr right) = patched_above d a src i h (omega arith)

-- The written stretch holds the source, and the bytes behind it, up to `n`, are the old ones.
pub region-write_slice :
    (d : Bytes) (a : ℕ) (src : Bytes) (n : ℕ)
    → length src ≤ n
    → a + n ≤ length d
    → Yields
        (write_slice d a src)
        (λ w. region w a n ≡ src ++ region d (a + length src) (n - length src))
region-write_slice d a src n h k =
    let back = drop (a + length src) d in
    rw (write_slice_lem d a src (omega arith)) (
      ap (take n) (drop-append a (take a d) (src ++ back) (omega (arith, length-take a d)))
      ∙ take-append_past n src back h)

-- A byte outside the written stretch is the old one.
pub at-write_slice_apart :
    (d : Bytes) (a : ℕ) (src : Bytes) (i : ℕ)
    → a + length src ≤ length d
    → (i < a) ⊎ (a + length src ≤ i)
    → Yields (write_slice d a src) (λ w. at w i ≡ at d i)
at-write_slice_apart d a src i h (inl below) =
    rw (write_slice_lem d a src h) (patched_below d a src i h below)
at-write_slice_apart d a src i h (inr above) =
    rw (write_slice_lem d a src h) (patched_above d a src i h above)

at-set_ne : (d : Bytes) (i j v : ℕ) → i ≢ j → at (set d i v) j ≡ at d j
at-set_ne [] i j v h = refl
at-set_ne (x ∷ d) zero zero v h = absurd (h refl)
at-set_ne (x ∷ d) zero (suc j) v h = refl
at-set_ne (x ∷ d) (suc i) zero v h = refl
at-set_ne (x ∷ d) (suc i) (suc j) v h = at-set_ne d i j v (λ e. h (ap suc e))

-- A status byte outside a stretch leaves its bytes alone.
pub region-write_at_apart :
    (d : Bytes) (i v b n : ℕ)
    → i < length d
    → b + n ≤ length d
    → (i < b) ⊎ (b + n ≤ i)
    → Yields (write_at d i v) (λ w. region w b n ≡ region d b n)
region-write_at_apart d i v b n h k apart = rw (write_at_lem d i v h) (
    region-ext (set d i v) d b n (length-set d i v) (omega (arith, length-set d i v))
      (λ j p q. at-set_ne d i j v (λ e. ground (arith, apart))))
