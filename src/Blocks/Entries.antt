-- ===== src/Blocks/Entries.antt =====
-- src/blocks.rs, `parse_write_multiple_response`: the entries of a response read back.
use profinet_rs.Prelude.{
  ℕ, zero, suc, ◌+◌, ◌<◌, ◌≤◌, ◌≡◌, refl, sym, ap, ◌∙◌, arith, min, true, false, ltb, leb, List, [],
  ◌∷◌, ◌++◌, append_assoc, All, length, take, drop, length-append, Bytes, IsU16, IsU32, byte_at,
  u16_at, u32_at, be16, be32, u16_at-be16, u16_at-append, u32_at-append, u32_at-be32, slice-append,
  ok, ◌>>=◌,
}
use profinet_rs.Blocks.{
  WriteMultipleResult, zeros, result_of, results_loop, parse_write_multiple_response,
  iod_write_response_header,
}

pub record IsWireResult (r : WriteMultipleResult) : Type 0 where
  pub seq_fits : IsU16 r.seq_num
  pub api_fits : IsU32 r.api
  pub slot_fits : IsU16 r.slot
  pub subslot_fits : IsU16 r.subslot
  pub index_fits : IsU16 r.index
  pub status_fits : IsU32 r.status
  pub value1_fits : IsU16 r.additional_value1
  pub value2_fits : IsU16 r.additional_value2

-- The part of an entry in front of the UUID, and the part behind it.
abbrev entry_front : WriteMultipleResult → Bytes
entry_front r = be16 iod_write_response_header ++ (be16 52 ++ ((1 ∷ 0 ∷ []) ++ be16 r.seq_num))

abbrev entry_back : ℕ → WriteMultipleResult → Bytes
entry_back len r =
    be32 r.api
    ++ (be16 r.slot
        ++ (be16 r.subslot
            ++ (be16 0
                ++ (be16 r.index
                    ++ (be32 len
                        ++ (be16 r.additional_value1
                            ++ (be16 r.additional_value2 ++ (be32 r.status ++ zeros 8))))))))

-- An entry of 56 bytes, as IEC 61158-6-10 has it, for a record of `len` bytes.
abbrev pub entry_bytes : Bytes → ℕ → WriteMultipleResult → Bytes
entry_bytes ar_uuid len r = entry_front r ++ (ar_uuid ++ entry_back len r)

module _ (ar_uuid : Bytes) (n : length ar_uuid ≡ 16) (len : ℕ) where
  module _ (r : WriteMultipleResult) where
    length-entry_bytes : length (entry_bytes ar_uuid len r) ≡ 56
    length-entry_bytes = omega (arith, length-append ar_uuid (entry_back len r), n)

    half : Bytes
    half = entry_front r ++ ar_uuid

    behind16 :
        (i k : ℕ) → i ≡ 24 + k → u16_at (entry_bytes ar_uuid len r) i ≡ u16_at (entry_back len r) k
    behind16 i k e =
        u16_at-append (entry_front r ++ ar_uuid) (entry_back len r) i k (omega (arith, n))

    behind32 :
        (i k : ℕ) → i ≡ 24 + k → u32_at (entry_bytes ar_uuid len r) i ≡ u32_at (entry_back len r) k
    behind32 i k e =
        u32_at-append (entry_front r ++ ar_uuid) (entry_back len r) i k (omega (arith, n))

    result_of-entry_bytes : IsWireResult r → result_of (entry_bytes ar_uuid len r) ≡ ok r
    unfolding result_of
    result_of-entry_bytes w = rw (
      u16_at-be16 (be16 iod_write_response_header ++ (be16 52 ++ (1 ∷ 0 ∷ [])))
          (ar_uuid ++ entry_back len r) 6 r.seq_num refl w.seq_fits,
      behind32 24 0 refl,
      u32_at-be32 [] (drop 4 (entry_back len r)) 0 r.api refl w.api_fits,
      behind16 28 4 refl,
      u16_at-be16 (take 4 (entry_back len r)) (drop 6 (entry_back len r)) 4 r.slot refl w.slot_fits,
      behind16 30 6 refl,
      u16_at-be16 (take 6 (entry_back len r)) (drop 8 (entry_back len r)) 6 r.subslot refl
          w.subslot_fits,
      behind16 34 10 refl,
      u16_at-be16 (take 10 (entry_back len r)) (drop 12 (entry_back len r)) 10 r.index refl
          w.index_fits,
      behind32 44 20 refl,
      u32_at-be32 (take 20 (entry_back len r)) (drop 24 (entry_back len r)) 20 r.status refl
          w.status_fits,
      behind16 40 16 refl,
      u16_at-be16 (take 16 (entry_back len r)) (drop 18 (entry_back len r)) 16 r.additional_value1
          refl w.value1_fits,
      behind16 42 18 refl,
      u16_at-be16 (take 18 (entry_back len r)) (drop 20 (entry_back len r)) 18 r.additional_value2
          refl w.value2_fits,
    )

  type_read :
      (r : WriteMultipleResult)
      → u16_at (entry_bytes ar_uuid len r) 0 ≡ ok iod_write_response_header
  unfolding u16_at byte_at
  type_read r = refl

  length_read : (r : WriteMultipleResult) → u16_at (entry_bytes ar_uuid len r) 2 ≡ ok 52
  unfolding u16_at byte_at
  length_read r = refl

  abbrev pub entries : List WriteMultipleResult → Bytes
  entries [] = []
  entries (r ∷ rs) = entry_bytes ar_uuid len r ++ entries rs

  results_loop_step :
      (fuel : ℕ) (front rest : Bytes) (offset end : ℕ) (r : WriteMultipleResult)
      → length front ≡ offset
      → offset + 56 ≤ end
      → IsWireResult r
      → let d = front ++ (entry_bytes ar_uuid len r ++ rest) in
        results_loop (suc fuel) d offset end
        ≡ (results_loop fuel d (offset + 56) end >>= λ rs. ok (r ∷ rs))
  unfolding results_loop
  results_loop_step fuel front rest offset end r e h w =
      let size = length-entry_bytes r in
      let more : leb (offset + 56) end ≡ true = ground arith in
      rw (
        more,
        slice-append front (entry_bytes ar_uuid len r) rest offset (offset + 56) (sym e)
            (omega arith),
        type_read r,
        result_of-entry_bytes r w,
        length_read r,
      )

  results_loop-entries :
      (rs : List WriteMultipleResult) (fuel : ℕ) (front tail : Bytes) (offset end : ℕ)
      → length front ≡ offset
      → end ≡ offset + length (entries rs)
      → length (entries rs) < fuel
      → All IsWireResult rs
      → results_loop fuel (front ++ (entries rs ++ tail)) offset end ≡ ok rs
  results_loop-entries rs zero front tail offset end e n h all = absurd (omega arith)
  results_loop-entries [] (suc fuel) front tail offset end e n h all =
      let done : leb (offset + 56) end ≡ false = ground arith in unfold results_loop in rw done
  results_loop-entries (r ∷ rs) (suc fuel) front tail offset end e n h all =
      let entry = entry_bytes ar_uuid len r in
      let size = length-append entry (entries rs) in
      let one = length-entry_bytes r in
      let front' = front ++ entry in
      let rest = entries rs ++ tail in
      ap (λ d. results_loop (suc fuel) (front ++ d) offset end)
        (append_assoc entry (entries rs) tail)
      ∙ results_loop_step fuel front rest offset end r e (omega arith) all.0
      ∙ ap (λ d. results_loop fuel d (offset + 56) end >>= λ q. ok (r ∷ q))
          (sym (append_assoc front entry rest))
      ∙ ap (λ m. m >>= λ q. ok (r ∷ q))
          (results_loop-entries rs fuel front' tail (offset + 56) end
            (omega (arith, length-append front entry)) (omega arith) (omega arith) all.1)

  -- A response reads back: behind a header of 64 bytes whose record length is the length of the
  -- entries, every entry gives its result, in order, whatever stands in the rest of the header and
  -- behind the entries.
  pub parse_write_multiple_response-entries :
      (rs : List WriteMultipleResult) (head more tail : Bytes)
      → length head ≡ 36
      → length more ≡ 24
      → IsU32 (length (entries rs))
      → All IsWireResult rs
      → parse_write_multiple_response
          (head ++ (be32 (length (entries rs)) ++ (more ++ (entries rs ++ tail))))
        ≡ ok rs
  unfolding parse_write_multiple_response
  parse_write_multiple_response-entries rs head more tail a b u all =
      let all_entries = entries rs in
      let d = head ++ (be32 (length all_entries) ++ (more ++ (all_entries ++ tail))) in
      let front = head ++ (be32 (length all_entries) ++ more) in
      let size : length d ≡ 64 + (length all_entries + length tail) = omega (
        arith,
        length-append head (be32 (length all_entries) ++ (more ++ (all_entries ++ tail))),
        length-append more (all_entries ++ tail),
        length-append all_entries tail,
      ) in
      let long : ltb (length d) 64 ≡ false = ground arith in
      rw (long, u32_at-be32 head (more ++ (all_entries ++ tail)) 36 (length all_entries) (sym a) u)
        (ap
            (λ bytes.
              results_loop (suc (length d)) bytes 64 (min (64 + length all_entries) (length d)))
            (sym (append_assoc head (be32 (length all_entries) ++ more) (all_entries ++ tail)))
          ∙ results_loop-entries rs (suc (length d)) front tail 64
              (min (64 + length all_entries) (length d))
              (omega (arith, length-append head (be32 (length all_entries) ++ more))) (omega arith)
              (omega arith) all)
