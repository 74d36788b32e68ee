-- ===== src/Transport/Header/Behind.antt =====
-- src/transport.rs: what stands behind the UUIDs of an RPC header.
use profinet_rs.Prelude.{
  ℕ, ◌+◌, ◌≡◌, ◌∙◌, arith, Bool, ◌++◌, length, length-append, Bytes, byte_at, slice, byte_at-append,
  slice-append, ok, slice_past,
}
use profinet_rs.Transport.Words.{rd_u16, rd_u32, rd_u16-append, rd_u32-append}

-- Reads behind the UUIDs.
module _ (head o i a t : Bytes) (x : length head ≡ 8) (y : length o ≡ 16) (z : length i ≡ 16)
    (w : length a ≡ 16) where
  pub u32_behind :
      (k : ℕ) (le : Bool) → rd_u32 (head ++ (o ++ (i ++ (a ++ t)))) (56 + k) le ≡ rd_u32 t k le
  u32_behind k le =
      rd_u32-append head (o ++ (i ++ (a ++ t))) (56 + k) (48 + k) le (omega arith)
      ∙ rd_u32-append o (i ++ (a ++ t)) (48 + k) (32 + k) le (omega arith)
      ∙ rd_u32-append i (a ++ t) (32 + k) (16 + k) le (omega arith)
      ∙ rd_u32-append a t (16 + k) k le (omega arith)

  pub u16_behind :
      (k : ℕ) (le : Bool) → rd_u16 (head ++ (o ++ (i ++ (a ++ t)))) (56 + k) le ≡ rd_u16 t k le
  u16_behind k le =
      rd_u16-append head (o ++ (i ++ (a ++ t))) (56 + k) (48 + k) le (omega arith)
      ∙ rd_u16-append o (i ++ (a ++ t)) (48 + k) (32 + k) le (omega arith)
      ∙ rd_u16-append i (a ++ t) (32 + k) (16 + k) le (omega arith)
      ∙ rd_u16-append a t (16 + k) k le (omega arith)

  pub byte_behind : (k : ℕ) → byte_at (head ++ (o ++ (i ++ (a ++ t)))) (56 + k) ≡ byte_at t k
  byte_behind k =
      byte_at-append head (o ++ (i ++ (a ++ t))) (56 + k) (48 + k) (omega arith)
      ∙ byte_at-append o (i ++ (a ++ t)) (48 + k) (32 + k) (omega arith)
      ∙ byte_at-append i (a ++ t) (32 + k) (16 + k) (omega arith)
      ∙ byte_at-append a t (16 + k) k (omega arith)

  pub length_behind : length (head ++ (o ++ (i ++ (a ++ t)))) ≡ 56 + length t
  length_behind = omega (
    arith,
    length-append head (o ++ (i ++ (a ++ t))),
    length-append o (i ++ (a ++ t)),
    length-append i (a ++ t),
    length-append a t,
  )

  pub slices_behind :
      (slice (head ++ (o ++ (i ++ (a ++ t)))) 8 24 ≡ ok o)
      × (slice (head ++ (o ++ (i ++ (a ++ t)))) 24 40 ≡ ok i)
      × (slice (head ++ (o ++ (i ++ (a ++ t)))) 40 56 ≡ ok a)
      × (slice (head ++ (o ++ (i ++ (a ++ t)))) 80 (length (head ++ (o ++ (i ++ (a ++ t)))))
          ≡ slice t 24 (length t))
  slices_behind = (
    slice-append head o (i ++ (a ++ t)) 8 24 (omega arith) (omega arith),
    slice_past head (o ++ (i ++ (a ++ t))) 24 40 16 32 (omega arith) (omega arith)
        ∙ slice-append o i (a ++ t) 16 32 (omega arith) (omega arith),
    slice_past head (o ++ (i ++ (a ++ t))) 40 56 32 48 (omega arith) (omega arith)
        ∙ slice_past o (i ++ (a ++ t)) 32 48 16 32 (omega arith) (omega arith)
        ∙ slice-append i a t 16 32 (omega arith) (omega arith),
    slice_past head (o ++ (i ++ (a ++ t))) 80 _ 72 (48 + length t) (omega arith)
          (length_behind ∙ omega arith)
        ∙ slice_past o (i ++ (a ++ t)) 72 (48 + length t) 56 (32 + length t) (omega arith)
            (omega arith)
        ∙ slice_past i (a ++ t) 56 (32 + length t) 40 (16 + length t) (omega arith) (omega arith)
        ∙ slice_past a t 40 (16 + length t) 24 (length t) (omega arith) (omega arith),
  )
