-- ===== src/Blocks/Walk.antt =====
-- src/blocks.rs, `parse_write_multiple_response`: the walk over the entries.
use profinet_rs.Prelude.{
  ℕ, zero, suc, ◌+◌, ◌-◌, ◌*◌, ◌<◌, ◌≤◌, ◌≡◌, refl, arith, min, ◌==◌, ltb, leb, Yields-bind,
  if-Yields, length, take, drop, length-take, length-drop, Bytes, at16, at32, u16_at_lem,
  u32_at_lem, slice_lem, Yields,
}
use profinet_rs.Blocks.{
  align4, result_of, results_loop, parse_write_multiple_response, iod_write_response_header,
}

result_of-Yields :
    (entry : Bytes) → 56 ≤ length entry → Yields (result_of entry) (λ r. r.status ≡ at32 entry 44)
unfolding result_of
result_of-Yields entry h =
    rw
      (
        u16_at_lem entry 6 (omega arith),
        u32_at_lem entry 24 (omega arith),
        u16_at_lem entry 28 (omega arith),
        u16_at_lem entry 30 (omega arith),
        u16_at_lem entry 34 (omega arith),
        u32_at_lem entry 44 (omega arith),
        u16_at_lem entry 40 (omega arith),
        u16_at_lem entry 42 (omega arith),
      )
      refl

-- The walk ends, and reads in range, whatever the block lengths say.
results_loop-Yields :
    (fuel : ℕ) (d : Bytes) (offset end : ℕ)
    → end ≤ length d
    → length d < fuel + offset
    → 0 < fuel
    → Yields (results_loop fuel d offset end) (λ rs. 4 * length rs ≤ length d - offset)
unfolding results_loop
results_loop-Yields zero d offset end e h p = absurd (omega arith)
results_loop-Yields (suc fuel) d offset end e h p =
    if-Yields (leb (offset + 56) end) _ _ _
      (λ more.
        let inside : offset + 56 ≤ length d = ground arith in
        let entry = take (offset + 56 - offset) (drop offset d) in
        let n : 56 ≤ length entry =
          omega (arith, length-take (offset + 56 - offset) (drop offset d), length-drop offset d) in
        let size = 4 + at16 entry 2 in
        rw (slice_lem d offset (offset + 56) (omega arith) inside, u16_at_lem entry 0 (omega arith))
          (if-Yields (at16 entry 0 == iod_write_response_header) _ _ _
            (λ _. Yields-bind (result_of entry) _ _ _ (result_of-Yields entry n) (λ r k.
              rw (u16_at_lem entry 2 (omega arith)) (
                Yields-bind (results_loop fuel d (offset + (size + align4 size)) end) _ _ _
                  (results_loop-Yields fuel d (offset + (size + align4 size)) end e (omega arith)
                    (omega arith))
                  (λ rs q. omega arith))))
            (λ _. omega arith)))
      (λ _. omega arith)

-- Every response gives a list of results: the parser never panics, and its loop ends, whatever the
-- record length and the block lengths in it are. There is at most one result for four bytes behind the header.
pub parse_write_multiple_response-Yields :
    (d : Bytes) → Yields (parse_write_multiple_response d) (λ rs. 4 * length rs ≤ length d - 64)
unfolding parse_write_multiple_response
parse_write_multiple_response-Yields d =
    if-Yields (ltb (length d) 64) _ _ _ (λ _. omega arith)
      (λ long.
        let n : 64 ≤ length d = ground arith in
        rw (u32_at_lem d 36 (omega arith)) (
          results_loop-Yields (suc (length d)) d 64 (min (64 + at32 d 36) (length d)) (omega arith)
            (omega arith) (omega arith)))
