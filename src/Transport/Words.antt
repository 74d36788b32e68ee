-- ===== src/Transport/Words.antt =====
-- src/transport.rs: words in the byte order that a packet names.
use profinet_rs.Prelude.{
  ℕ, ◌+◌, ◌*◌, ◌/◌, ◌%◌, ◌≤◌, ◌≡◌, refl, ◌∙◌, arith, Bool, true, false, if◌then◌else◌, [], ◌∷◌,
  ◌++◌, length, Bytes, IsU16, IsU32, byte_at, u16_at, u32_at, at, byte_at_lem, be16, be32,
  byte_at-append, u16_at-be16, u32_at-be32, Exec, ok, ◌>>=◌,
}

-- `n.to_le_bytes()` for a `u16` and a `u32`
abbrev pub le16 : ℕ → Bytes
le16 n = (n % 256) ∷ (n / 256 % 256) ∷ []

abbrev pub le32 : ℕ → Bytes
le32 n = (n % 256) ∷ (n / 256 % 256) ∷ (n / 65536 % 256) ∷ (n / 16777216 % 256) ∷ []

unfoldable pub rd_u16 : Bytes → ℕ → Bool → Exec ℕ
rd_u16 d off le = do
  a ← byte_at d off
  b ← byte_at d (off + 1)
  ok (if le then b * 256 + a else a * 256 + b)

unfoldable pub rd_u32 : Bytes → ℕ → Bool → Exec ℕ
rd_u32 d off le = do
  a ← byte_at d off
  b ← byte_at d (off + 1)
  c ← byte_at d (off + 2)
  e ← byte_at d (off + 3)
  ok (if le then ((e * 256 + c) * 256 + b) * 256 + a else ((a * 256 + b) * 256 + c) * 256 + e)

abbrev pub word16 : ℕ → Bool → Bytes
word16 v le = if le then le16 v else be16 v

abbrev pub word32 : ℕ → Bool → Bytes
word32 v le = if le then le32 v else be32 v

unfoldable pub wr_u16 : Bytes → ℕ → Bool → Bytes
wr_u16 out v le = out ++ word16 v le

unfoldable pub wr_u32 : Bytes → ℕ → Bool → Bytes
wr_u32 out v le = out ++ word32 v le

-- Big-endian reads are those of the other modules.
pub rd_u16-u16_at : (d : Bytes) (off : ℕ) → rd_u16 d off false ≡ u16_at d off
unfolding rd_u16 u16_at
rd_u16-u16_at d off = refl

pub rd_u32-u32_at : (d : Bytes) (off : ℕ) → rd_u32 d off false ≡ u32_at d off
unfolding rd_u32 u32_at
rd_u32-u32_at d off = refl

-- Reads in range.
abbrev pub get16 : Bytes → ℕ → Bool → ℕ
get16 d i le = if le then at d (i + 1) * 256 + at d i else at d i * 256 + at d (i + 1)

abbrev pub get32 : Bytes → ℕ → Bool → ℕ
get32 d i le =
    if le
    then ((at d (i + 3) * 256 + at d (i + 2)) * 256 + at d (i + 1)) * 256 + at d i
    else ((at d i * 256 + at d (i + 1)) * 256 + at d (i + 2)) * 256 + at d (i + 3)

pub rd_u16_lem :
    (d : Bytes) (i : ℕ) (le : Bool) → i + 2 ≤ length d → rd_u16 d i le ≡ ok (get16 d i le)
unfolding rd_u16
rd_u16_lem d i le h = rw (byte_at_lem d i (omega arith), byte_at_lem d (i + 1) (omega arith)) refl

pub rd_u32_lem :
    (d : Bytes) (i : ℕ) (le : Bool) → i + 4 ≤ length d → rd_u32 d i le ≡ ok (get32 d i le)
unfolding rd_u32
rd_u32_lem d i le h =
    rw
      (
        byte_at_lem d i (omega arith),
        byte_at_lem d (i + 1) (omega arith),
        byte_at_lem d (i + 2) (omega arith),
        byte_at_lem d (i + 3) (omega arith),
      )
      refl

-- A word that was written is read back, in either order.
pub rd_u16-word16 :
    (front rest : Bytes) (i v : ℕ) (le : Bool)
    → i ≡ length front
    → IsU16 v
    → rd_u16 (front ++ (word16 v le ++ rest)) i le ≡ ok v
rd_u16-word16 front rest i v true e h =
    unfold rd_u16 byte_at in
    ground (
      arith,
      byte_at-append front (le16 v ++ rest) i 0,
      byte_at-append front (le16 v ++ rest) (i + 1) 1,
    )
rd_u16-word16 front rest i v false e h =
    rd_u16-u16_at (front ++ (be16 v ++ rest)) i ∙ u16_at-be16 front rest i v e h

pub rd_u32-word32 :
    (front rest : Bytes) (i v : ℕ) (le : Bool)
    → i ≡ length front
    → IsU32 v
    → rd_u32 (front ++ (word32 v le ++ rest)) i le ≡ ok v
rd_u32-word32 front rest i v true e h =
    unfold rd_u32 byte_at in
    ground (
      arith,
      byte_at-append front (le32 v ++ rest) i 0,
      byte_at-append front (le32 v ++ rest) (i + 1) 1,
      byte_at-append front (le32 v ++ rest) (i + 2) 2,
      byte_at-append front (le32 v ++ rest) (i + 3) 3,
    )
rd_u32-word32 front rest i v false e h =
    rd_u32-u32_at (front ++ (be32 v ++ rest)) i ∙ u32_at-be32 front rest i v e h

-- Reading where a known front ends.
pub rd_u16-append :
    (front rest : Bytes) (i k : ℕ) (le : Bool)
    → i ≡ length front + k
    → rd_u16 (front ++ rest) i le ≡ rd_u16 rest k le
unfolding rd_u16
rd_u16-append front rest i k le e =
    rw (byte_at-append front rest i k e, byte_at-append front rest (i + 1) (k + 1) (omega arith))
      refl

pub rd_u32-append :
    (front rest : Bytes) (i k : ℕ) (le : Bool)
    → i ≡ length front + k
    → rd_u32 (front ++ rest) i le ≡ rd_u32 rest k le
unfolding rd_u32
rd_u32-append front rest i k le e =
    rw
      (
        byte_at-append front rest i k e,
        byte_at-append front rest (i + 1) (k + 1) (omega arith),
        byte_at-append front rest (i + 2) (k + 2) (omega arith),
        byte_at-append front rest (i + 3) (k + 3) (omega arith),
      )
      refl

pub length-word16 : (v : ℕ) (le : Bool) → length (word16 v le) ≡ 2
length-word16 v true = refl
length-word16 v false = refl

pub length-word32 : (v : ℕ) (le : Bool) → length (word32 v le) ≡ 4
length-word32 v true = refl
length-word32 v false = refl
