-- ===== src/Transport/Connect/Outcome.antt =====
-- src/transport.rs, `parse_connect_response`: a connect is taken for good where the device gives what was asked for.
use profinet_rs.Prelude.{
  ℕ, ◌≡◌, ◌≢◌, ◌⊎◌, inl, inr, refl, sym, ap, ◌∙◌, Bool, true, not, ◌||◌, ◌==◌, if◌then◌else◌,
  Bool-cases, ==_iff, List, map, All, IsU32, Exec, ok, err, ◌↔◌, connect_rejected,
  submodules_withheld,
}
use profinet_rs.Transport.Reply.RoundTrip.{nrd_bytes, parse_nrd-nrd_bytes}
use profinet_rs.Transport.Blocks.{SubmoduleDiff}
use profinet_rs.Transport.Blocks.Wire.{
  ConnectBlock, blocks_bytes, IsWireBlock, block_diffs, first_frame_id,
}
use profinet_rs.Transport.Blocks.Diff.{parse_module_diff_block-blocks_bytes}
use profinet_rs.Transport.Blocks.Iocr.{parse_iocr_block_res-blocks_bytes}
use profinet_rs.Transport.Connect.{
  ConnectResult, withheld, any_locked, details, is_empty, parse_connect_response,
}
use profinet_rs.Transport.Connect.Kept.{
  IsGiven, AnyHeld, KeptBack, blocks-HasWord, withheld-none, withheld-KeptBack, withheld-HasWord,
  any_locked-AnyHeld, distinct,
}

-- What the caller gets for the blocks of an answer without an error.
abbrev pub outcome_of : List ConnectBlock → Exec ConnectResult
outcome_of bs =
    let kept_back = withheld (block_diffs bs) in
    if is_empty kept_back
    then ok (record {
      input_frame_id = first_frame_id 1 bs;
      output_frame_id = first_frame_id 2 bs;
      has_cyclic = not (first_frame_id 1 bs == 0) || not (first_frame_id 2 bs == 0);
    })
    else err (submodules_withheld (details kept_back) (any_locked kept_back))

pub parse_connect_response-nrd_bytes :
    (le : Bool) (status args maximum offset count : ℕ) (bs : List ConnectBlock)
    → IsU32 status
    → IsU32 args
    → IsU32 maximum
    → IsU32 offset
    → IsU32 count
    → All IsWireBlock bs
    → parse_connect_response (nrd_bytes le status args maximum offset count (blocks_bytes bs)) le
      ≡ (if status == 0 then outcome_of bs else err (connect_rejected status))
unfolding parse_connect_response
parse_connect_response-nrd_bytes le st a m o c bs w0 w1 w2 w3 w4 w =
    rw
      (
        parse_nrd-nrd_bytes le st a m o c (blocks_bytes bs) w0 w1 w2 w3 w4,
        parse_module_diff_block-blocks_bytes bs w,
        parse_iocr_block_res-blocks_bytes bs 1 w,
        parse_iocr_block_res-blocks_bytes bs 2 w,
      )
      (elim (Bool-cases (st == 0)) [
        | inl accepted ↦ rw accepted (elim (Bool-cases (is_empty (withheld (block_diffs bs)))) [
          | inl all_given ↦ rw all_given refl
          | inr some_kept ↦ rw some_kept refl
        ])
        | inr rejected ↦ rw rejected refl
      ])

-- What a connect comes to, for an answer of whole blocks whose NRD fields are in the byte order that its
-- RPC header names, either of the two. It succeeds exactly where the status is zero and the device gives
-- this AR every submodule that it lists as the one that was asked for (a state word in the other format
-- counts as given), and then has the frame IDs of the first input and output answers. Another status is the
-- error. Where the status is zero, the submodules that are not given are the error, all of them in order
-- and no other, with slot, subslot, identity and state, and a mark that tells whether another relationship
-- holds one.
pub parse_connect_response-cases :
    (le : Bool) (status args maximum offset count : ℕ) (bs : List ConnectBlock)
    → IsU32 status
    → IsU32 args
    → IsU32 maximum
    → IsU32 offset
    → IsU32 count
    → All IsWireBlock bs
    → let answer =
        parse_connect_response
          (nrd_bytes le status args maximum offset count (blocks_bytes bs))
          le in
      ((status ≡ 0)
        × All IsGiven (block_diffs bs)
        × (answer
            ≡ ok (record {
              input_frame_id = first_frame_id 1 bs;
              output_frame_id = first_frame_id 2 bs;
              has_cyclic = not (first_frame_id 1 bs == 0) || not (first_frame_id 2 bs == 0);
            })))
      ⊎ (((status ≢ 0) × (answer ≡ err (connect_rejected status)))
          ⊎ ((status ≡ 0)
              × (¬ All IsGiven (block_diffs bs))
              × (kept : List SubmoduleDiff) × (locked : Bool) × KeptBack (block_diffs bs) kept
              × ((locked ≡ true) ↔ AnyHeld kept)
              × (answer
                  ≡ err (
                      submodules_withheld
                        (map (λ s. (s.slot, s.subslot, s.submodule_ident, s.state)) kept)
                        locked))))
parse_connect_response-cases le st a m o c bs w0 w1 w2 w3 w4 w =
    let e = parse_connect_response-nrd_bytes le st a m o c bs w0 w1 w2 w3 w4 w in
    let kept = withheld-none (block_diffs bs) (blocks-HasWord bs w) in
    elim (Bool-cases (st == 0)) [
      | inl accepted ↦
          let zero_status : st ≡ 0 = (==_iff st 0).0 accepted in
          let f = e ∙ ap (λ t. if t then outcome_of bs else err (connect_rejected st)) accepted in
          elim (Bool-cases (is_empty (withheld (block_diffs bs)))) [
            | inl given ↦ inl (zero_status, kept.0 given, f ∙ (rw given refl))
            | inr some_kept ↦ inr (
                inr (
                  zero_status,
                  (λ all. distinct (sym (kept.1 all) ∙ some_kept)),
                  withheld (block_diffs bs),
                  any_locked (withheld (block_diffs bs)),
                  withheld-KeptBack (block_diffs bs) (blocks-HasWord bs w),
                  any_locked-AnyHeld (withheld (block_diffs bs))
                      (withheld-HasWord (block_diffs bs) (blocks-HasWord bs w)),
                  f ∙ (rw some_kept refl),
                ))
          ]
      | inr rejected ↦ inr (
          inl (
            (λ z. distinct (sym ((==_iff st 0).1 z) ∙ rejected)),
            e ∙ ap (λ t. if t then outcome_of bs else err (connect_rejected st)) rejected,
          ))
    ]
