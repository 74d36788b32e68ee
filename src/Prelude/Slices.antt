-- ===== src/Prelude/Slices.antt =====
-- Byte slices: indexing and slicing that panic out of range, and big-endian words.
use Prim.Native.Nat.{ℕ, zero, suc, ◌+◌, ◌-◌, ◌*◌, ◌/◌, ◌%◌, ◌≤◌, ◌<◌}
use mathlib.Core.Path.{◌≡◌, refl, ap}
use mathlib.Core.Bool.{Bool, true, false, ◌&&◌}
use mathlib.Core.List.{List, [], ◌∷◌, ◌++◌}
use native.Mathlib.Omega.{arith}
use profinet_rs.Prelude.Tests.{leb, ◌==◌, if◌then◌else◌}
use profinet_rs.Prelude.Lists.{
  length, get_or, set, take, drop, All, length-append, length-take, length-drop, length-set,
  drop-append, take-append, take-all,
}
use profinet_rs.Prelude.Monad.{Yields, Exec, ok, panic, ◌>>=◌}

abbrev pub Bytes : Type 0
Bytes = List ℕ

abbrev pub IsByte : ℕ → Type 0
IsByte b = b < 256

abbrev pub IsU16 : ℕ → Type 0
IsU16 n = n < 65536

abbrev pub IsU32 : ℕ → Type 0
IsU32 n = n < 4294967296

-- `data[i]`
unfoldable pub byte_at : Bytes → ℕ → Exec ℕ
byte_at [] i = panic
byte_at (x ∷ xs) zero = ok x
byte_at (x ∷ xs) (suc i) = byte_at xs i

-- `u16::from_be_bytes([data[i], data[i + 1]])`
unfoldable pub u16_at : Bytes → ℕ → Exec ℕ
unfolding byte_at
u16_at d i = do a ← byte_at d i; b ← byte_at d (i + 1); ok (a * 256 + b)

unfoldable pub u32_at : Bytes → ℕ → Exec ℕ
unfolding byte_at
u32_at d i = do
  a ← byte_at d i
  b ← byte_at d (i + 1)
  c ← byte_at d (i + 2)
  e ← byte_at d (i + 3)
  ok (((a * 256 + b) * 256 + c) * 256 + e)

-- `&data[a..b]`
unfoldable pub slice : Bytes → ℕ → ℕ → Exec Bytes
slice d a b = if leb a b && leb b (length d) then ok (take (b - a) (drop a d)) else panic

-- `data[i] = v`
unfoldable pub write_at : Bytes → ℕ → ℕ → Exec Bytes
write_at d i v = if leb (i + 1) (length d) then ok (set d i v) else panic

-- `data[a..a + n].copy_from_slice(&src)`, with `n` the length of `src`
unfoldable pub write_slice : Bytes → ℕ → Bytes → Exec Bytes
write_slice d a src =
    if leb (a + length src) (length d)
    then ok (take a d ++ (src ++ drop (a + length src) d))
    else panic

-- What the reads yield in range.
abbrev pub at : Bytes → ℕ → ℕ
at d i = get_or d i 0

abbrev pub at16 : Bytes → ℕ → ℕ
at16 d i = at d i * 256 + at d (i + 1)

abbrev pub at32 : Bytes → ℕ → ℕ
at32 d i = ((at d i * 256 + at d (i + 1)) * 256 + at d (i + 2)) * 256 + at d (i + 3)

pub byte_at_lem : (d : Bytes) (i : ℕ) → i < length d → byte_at d i ≡ ok (at d i)
unfolding byte_at
byte_at_lem [] i h = absurd (omega arith)
byte_at_lem (x ∷ xs) zero h = refl
byte_at_lem (x ∷ xs) (suc i) h = byte_at_lem xs i (omega arith)

pub u16_at_lem : (d : Bytes) (i : ℕ) → i + 2 ≤ length d → u16_at d i ≡ ok (at16 d i)
u16_at_lem d i h = unfold u16_at in ground (arith, byte_at_lem d i, byte_at_lem d (i + 1))

pub u32_at_lem : (d : Bytes) (i : ℕ) → i + 4 ≤ length d → u32_at d i ≡ ok (at32 d i)
u32_at_lem d i h =
    unfold u32_at in
    ground
      (arith, byte_at_lem d i, byte_at_lem d (i + 1), byte_at_lem d (i + 2), byte_at_lem d (i + 3))

pub slice_lem :
    (d : Bytes) (a b : ℕ) → a ≤ b → b ≤ length d → slice d a b ≡ ok (take (b - a) (drop a d))
unfolding slice
slice_lem d a b h k = ground arith

-- `n.to_be_bytes()` for a `u16` and a `u32`
abbrev pub be16 : ℕ → Bytes
be16 n = (n / 256 % 256) ∷ (n % 256) ∷ []

abbrev pub be32 : ℕ → Bytes
be32 n = (n / 16777216 % 256) ∷ (n / 65536 % 256) ∷ (n / 256 % 256) ∷ (n % 256) ∷ []

pub at-lt : (d : Bytes) (i : ℕ) → All IsByte d → at d i < 256
at-lt [] i h = omega arith
at-lt (x ∷ xs) zero h = h.0
at-lt (x ∷ xs) (suc i) h = at-lt xs i h.1

-- Reading where a known front ends.
pub byte_at-append :
    (front rest : Bytes) (i k : ℕ)
    → i ≡ length front + k
    → byte_at (front ++ rest) i ≡ byte_at rest k
unfolding byte_at
byte_at-append [] rest i k e = ap (byte_at rest) (omega arith)
byte_at-append (x ∷ front) rest zero k e = absurd (omega arith)
byte_at-append (x ∷ front) rest (suc i) k e = byte_at-append front rest i k (omega arith)

pub u16_at-be16 :
    (front rest : Bytes) (i n : ℕ)
    → i ≡ length front
    → IsU16 n
    → u16_at (front ++ (be16 n ++ rest)) i ≡ ok n
u16_at-be16 front rest i n e h =
    unfold u16_at byte_at in
    ground (
      arith,
      byte_at-append front (be16 n ++ rest) i 0,
      byte_at-append front (be16 n ++ rest) (i + 1) 1,
    )

pub u32_at-be32 :
    (front rest : Bytes) (i n : ℕ)
    → i ≡ length front
    → IsU32 n
    → u32_at (front ++ (be32 n ++ rest)) i ≡ ok n
u32_at-be32 front rest i n e h =
    unfold u32_at byte_at in
    ground (
      arith,
      byte_at-append front (be32 n ++ rest) i 0,
      byte_at-append front (be32 n ++ rest) (i + 1) 1,
      byte_at-append front (be32 n ++ rest) (i + 2) 2,
      byte_at-append front (be32 n ++ rest) (i + 3) 3,
    )

pub u16_at-append :
    (front rest : Bytes) (i k : ℕ) → i ≡ length front + k → u16_at (front ++ rest) i ≡ u16_at rest k
unfolding u16_at
u16_at-append front rest i k e =
    rw (byte_at-append front rest i k e, byte_at-append front rest (i + 1) (k + 1) (omega arith))

pub u32_at-append :
    (front rest : Bytes) (i k : ℕ) → i ≡ length front + k → u32_at (front ++ rest) i ≡ u32_at rest k
unfolding u32_at
u32_at-append front rest i k e = rw (
  byte_at-append front rest i k e,
  byte_at-append front rest (i + 1) (k + 1) (omega arith),
  byte_at-append front rest (i + 2) (k + 2) (omega arith),
  byte_at-append front rest (i + 3) (k + 3) (omega arith),
)

-- Slicing off a known front, and out of the middle.
pub slice-append :
    (front mid back : Bytes) (a b : ℕ)
    → a ≡ length front
    → b ≡ length front + length mid
    → slice (front ++ (mid ++ back)) a b ≡ ok mid
unfolding slice
slice-append front mid back a b e f = ground (
  arith,
  drop-append a front (mid ++ back),
  take-append (b - a) mid back,
  length-append front (mid ++ back),
  length-append mid back,
)

pub slice_rest :
    (front rest : Bytes) (a b : ℕ)
    → a ≡ length front
    → b ≡ length front + length rest
    → slice (front ++ rest) a b ≡ ok rest
unfolding slice
slice_rest front rest a b e f =
    ground (arith, drop-append a front rest, take-all (b - a) rest, length-append front rest)

-- Writes in range keep the length.
pub write_slice-length :
    (d : Bytes) (a : ℕ) (src : Bytes)
    → a + length src ≤ length d
    → Yields (write_slice d a src) (λ w. length w ≡ length d)
unfolding write_slice
write_slice-length d a src h = ground (
  arith,
  length-append (take a d) (src ++ drop (a + length src) d),
  length-append src (drop (a + length src) d),
  length-take a d,
  length-drop (a + length src) d,
)

pub write_at-length :
    (d : Bytes) (i v : ℕ) → i < length d → Yields (write_at d i v) (λ w. length w ≡ length d)
unfolding write_at
write_at-length d i v h = ground (arith, length-set d i v)

pub write_slice_lem :
    (d : Bytes) (a : ℕ) (src : Bytes)
    → a + length src ≤ length d
    → write_slice d a src ≡ ok (take a d ++ (src ++ drop (a + length src) d))
unfolding write_slice
write_slice_lem d a src h = ground arith

pub write_at_lem : (d : Bytes) (i v : ℕ) → i < length d → write_at d i v ≡ ok (set d i v)
unfolding write_at
write_at_lem d i v h = ground arith

-- `==` on byte slices
unfoldable pub same_bytes : Bytes → Bytes → Bool
same_bytes [] [] = true
same_bytes [] (y ∷ ys) = false
same_bytes (x ∷ xs) [] = false
same_bytes (x ∷ xs) (y ∷ ys) = x == y && same_bytes xs ys

pub same_bytes_self : (xs : Bytes) → same_bytes xs xs ≡ true
unfolding same_bytes
same_bytes_self [] = refl
same_bytes_self (x ∷ xs) = ground (arith, same_bytes_self xs)

pub same_bytes_sound : (xs ys : Bytes) → same_bytes xs ys ≡ true → xs ≡ ys
unfolding same_bytes
same_bytes_sound [] [] e = refl
same_bytes_sound [] (y ∷ ys) e = cc
same_bytes_sound (x ∷ xs) [] e = cc
same_bytes_sound (x ∷ xs) (y ∷ ys) e = ground (arith, same_bytes_sound xs ys)

pub drop_past :
    (front rest : Bytes) (i k : ℕ) → i ≡ length front + k → drop i (front ++ rest) ≡ drop k rest
drop_past [] rest i k e = ap (λ j. drop j rest) (omega arith)
drop_past (x ∷ front) rest zero k e = absurd (omega arith)
drop_past (x ∷ front) rest (suc i) k e = drop_past front rest i k (omega arith)

-- A slice that lies past a known front.
pub slice_past :
    (front rest : Bytes) (a b i j : ℕ)
    → a ≡ length front + i
    → b ≡ length front + j
    → slice (front ++ rest) a b ≡ slice rest i j
unfolding slice
slice_past front rest a b i j e f =
    let n = length-append front rest in
    let one : leb a b ≡ leb i j = ground arith in
    let two : leb b (length (front ++ rest)) ≡ leb j (length rest) = ground arith in
    let size : b - a ≡ j - i = omega arith in rw (one, two, size, drop_past front rest a i e) refl
