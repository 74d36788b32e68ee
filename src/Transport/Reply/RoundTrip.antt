-- ===== src/Transport/Reply/RoundTrip.antt =====
-- src/transport.rs: the NDR header reads back, and a record that a device answers with comes out as it is.
use profinet_rs.Prelude.{
  ℕ, ◌+◌, ◌≡◌, inl, inr, refl, arith, Bool, true, false, ◌==◌, ltb, if◌then◌else◌, Bool-cases, [],
  ◌++◌, length, take, drop, Bytes, IsU32, slice, slice_rest, ok, err, pnio_status,
}
use profinet_rs.Transport.Words.{word32, rd_u32, rd_u32-word32}
use profinet_rs.Transport.Reply.{parse_nrd, parse_status_response}

-- An NDR header in the byte order `le`, and its payload.
abbrev pub nrd_bytes : Bool → ℕ → ℕ → ℕ → ℕ → ℕ → Bytes → Bytes
nrd_bytes le status args maximum offset count payload =
    word32 status le
    ++ (word32 args le ++ (word32 maximum le ++ (word32 offset le ++ (word32 count le ++ payload))))

pub length-nrd_bytes :
    (le : Bool) (status args maximum offset count : ℕ) (payload : Bytes)
    → length (nrd_bytes le status args maximum offset count payload) ≡ 20 + length payload
length-nrd_bytes true s a m o c payload = omega arith
length-nrd_bytes false s a m o c payload = omega arith

nrd_reads :
    (le : Bool) (status args maximum offset count : ℕ) (payload : Bytes)
    → IsU32 status
    → IsU32 args
    → IsU32 maximum
    → IsU32 offset
    → IsU32 count
    → let d = nrd_bytes le status args maximum offset count payload in
      (rd_u32 d 0 le ≡ ok status)
      × (rd_u32 d 4 le ≡ ok args)
      × (rd_u32 d 8 le ≡ ok maximum)
      × (rd_u32 d 12 le ≡ ok offset)
      × (rd_u32 d 16 le ≡ ok count)
      × (slice d 20 (length d) ≡ ok payload)
nrd_reads true s a m o c payload ws wa wm wo wc =
    let d = nrd_bytes true s a m o c payload in
    (
      rd_u32-word32 [] (drop 4 d) 0 s true refl ws,
      rd_u32-word32 (take 4 d) (drop 8 d) 4 a true refl wa,
      rd_u32-word32 (take 8 d) (drop 12 d) 8 m true refl wm,
      rd_u32-word32 (take 12 d) (drop 16 d) 12 o true refl wo,
      rd_u32-word32 (take 16 d) (drop 20 d) 16 c true refl wc,
      slice_rest (take 20 d) payload 20 (length d) refl (omega arith),
    )
nrd_reads false s a m o c payload ws wa wm wo wc =
    let d = nrd_bytes false s a m o c payload in
    (
      rd_u32-word32 [] (drop 4 d) 0 s false refl ws,
      rd_u32-word32 (take 4 d) (drop 8 d) 4 a false refl wa,
      rd_u32-word32 (take 8 d) (drop 12 d) 8 m false refl wm,
      rd_u32-word32 (take 12 d) (drop 16 d) 12 o false refl wo,
      rd_u32-word32 (take 16 d) (drop 20 d) 16 c false refl wc,
      slice_rest (take 20 d) payload 20 (length d) refl (omega arith),
    )

-- In either byte order, the NDR header reads back.
pub parse_nrd-nrd_bytes :
    (le : Bool) (status args maximum offset count : ℕ) (payload : Bytes)
    → IsU32 status
    → IsU32 args
    → IsU32 maximum
    → IsU32 offset
    → IsU32 count
    → parse_nrd (nrd_bytes le status args maximum offset count payload) le
      ≡ ok (record {
        args_status = status;
        args_length = args;
        maximum_count = maximum;
        offset = offset;
        actual_count = count;
        payload = payload;
      })
unfolding parse_nrd
parse_nrd-nrd_bytes le s a m o c payload ws wa wm wo wc =
    let r = nrd_reads le s a m o c payload ws wa wm wo wc in
    let long : ltb (length (nrd_bytes le s a m o c payload)) 20 ≡ false =
      ground (arith, length-nrd_bytes le s a m o c payload) in
    rw (long, r.0, r.1, r.2, r.3, r.4, r.5) refl

-- The answer to a write or a control command: the status decides.
pub parse_status_response-nrd_bytes :
    (le : Bool) (status args maximum offset count : ℕ) (payload : Bytes)
    → IsU32 status
    → IsU32 args
    → IsU32 maximum
    → IsU32 offset
    → IsU32 count
    → parse_status_response (nrd_bytes le status args maximum offset count payload) le
      ≡ (if status == 0 then ok payload else err (pnio_status status))
unfolding parse_status_response
parse_status_response-nrd_bytes le st a m o c payload w0 w1 w2 w3 w4 =
    rw (parse_nrd-nrd_bytes le st a m o c payload w0 w1 w2 w3 w4) (elim (Bool-cases (st == 0)) [
      | inl zero_status ↦ rw zero_status refl
      | inr other ↦ rw other refl
    ])
