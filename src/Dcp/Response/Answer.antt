-- ===== src/Dcp/Response/Answer.antt =====
-- src/dcp.rs: what the parser of SET answers makes of an answer, whatever its blocks.
use profinet_rs.Prelude.{
  ℕ, zero, suc, ◌+◌, ◌-◌, ◌%◌, ◌<◌, ◌≤◌, ◌≡◌, inl, inr, refl, sym, ap, ◌∙◌, arith, min, Bool, true,
  false, not, ◌&&◌, ◌||◌, ◌==◌, ltb, leb, if◌then◌else◌, Bool-cases, Option, none, some, List, [],
  ◌∷◌, ◌++◌, append_assoc, All, length, length-append, Bytes, IsU16, IsU32, byte_at, slice, at,
  be16, u16_at-be16, slice-append, slice_rest, Exec, ok, err, ◌>>=◌, set_unsupported,
}
use profinet_rs.Dcp.Request.{
  profinet_ethertype, dcp_get_set_frame_id, dcp_service_id_set, eth_frame, dcp_header,
}
use profinet_rs.Dcp.Response.{even_up, block_error, set_blocks, set_payload, parse_set_response}
use profinet_rs.Dcp.Response.Echo.{dcp_payload-eth_frame, dcp_header-ReadsHeader, set_payload_lem}

-- A block of an answer, as IEC 61158-6-10 has it: padded to an even length, which the length field
-- does not count.
pub record AnswerBlock : Type 0 where
  pub option : ℕ
  pub suboption : ℕ
  pub body : Bytes

abbrev pub pad : Bytes → Bytes
pad body = if length body % 2 == 1 then 0 ∷ [] else []

abbrev pub block_bytes : AnswerBlock → Bytes
block_bytes b = (b.option ∷ b.suboption ∷ []) ++ (be16 (length b.body) ++ (b.body ++ pad b.body))

abbrev pub blocks_bytes : List AnswerBlock → Bytes
blocks_bytes [] = []
blocks_bytes (b ∷ bs) = block_bytes b ++ blocks_bytes bs

abbrev pub is_control_response : AnswerBlock → Bool
is_control_response b = b.option == 5 && b.suboption == 4

-- The code of a Control/Response block: its third byte, or its first in a short block, or 0.
abbrev pub code_of : Bytes → ℕ
code_of body = if ltb (length body) 3 then at body 0 else at body 2

-- The code of the first Control/Response block, or 0.
abbrev pub verdict : List AnswerBlock → ℕ
verdict [] = 0
verdict (b ∷ bs) = if is_control_response b then code_of b.body else verdict bs

-- The answer to a SET request, of any service type.
abbrev pub answer : Bytes → Bytes → ℕ → ℕ → List AnswerBlock → Bytes
answer dst src service_type xid bs = eth_frame dst src profinet_ethertype (
    dcp_header dcp_get_set_frame_id dcp_service_id_set service_type xid 0 (length (blocks_bytes bs))
      (blocks_bytes bs))

block_error_lem : (body : Bytes) → block_error body ≡ ok (code_of body)
unfolding block_error
block_error_lem [] = refl
block_error_lem (a ∷ []) = refl
block_error_lem (a ∷ b ∷ []) = refl
block_error_lem (a ∷ b ∷ c ∷ rest) = ground arith

length-pad : (body : Bytes) → length (body ++ pad body) ≡ even_up (length body)
length-pad body = ground (arith, length-append body (pad body))

pub length-block_bytes : (b : AnswerBlock) → length (block_bytes b) ≡ 4 + even_up (length b.body)
length-block_bytes b = omega (arith, length-pad b.body)

-- One round over a block that is there.
set_blocks_step :
    (fuel : ℕ) (b : AnswerBlock) (rest : Bytes) (n : ℕ)
    → IsU16 (length b.body)
    → 4 < n
    → set_blocks (suc fuel) (block_bytes b ++ rest) n ≡ (
        if is_control_response b
        then ok (some (code_of b.body))
        else set_blocks fuel rest (n - (4 + even_up (length b.body))))
unfolding set_blocks byte_at
set_blocks_step fuel b rest n w more =
    let all = block_bytes b ++ rest in
    let size : length all ≡ 4 + even_up (length b.body) + length rest =
      length-append (block_bytes b) rest ∙ ap (λ k. k + length rest) (length-block_bytes b) in
    let go_on : leb n 4 || ltb (length all) 4 ≡ false = ground arith in
    rw (
      go_on,
      u16_at-be16 (b.option ∷ b.suboption ∷ []) ((b.body ++ pad b.body) ++ rest) 2 (length b.body)
          refl w,
      block_slice,
      slice_rest (block_bytes b) rest (min (4 + even_up (length b.body)) (length all)) (length all)
          (omega (arith, length-block_bytes b))
          (size ∙ ap (λ k. k + length rest) (sym (length-block_bytes b))),
      block_error_lem b.body,
    )
  where
    block_slice :
        slice (block_bytes b ++ rest) 4 (min (4 + length b.body) (length (block_bytes b ++ rest)))
        ≡ ok b.body
    block_slice = rw (append_assoc b.body (pad b.body) rest) (
        slice-append (b.option ∷ b.suboption ∷ be16 (length b.body)) b.body (pad b.body ++ rest) 4
          (min (4 + length b.body)
            (suc (suc (suc (suc (length (b.body ++ (pad b.body ++ rest))))))))
          refl (omega (arith, length-append b.body (pad b.body ++ rest))))

set_blocks_short : (fuel : ℕ) (d : Bytes) (n : ℕ) → n ≤ 4 → set_blocks (suc fuel) d n ≡ ok (some 0)
unfolding set_blocks
set_blocks_short fuel d n h = let e : leb n 4 ≡ true = ground arith in rw e

at_empty : (d : Bytes) (i : ℕ) → length d ≡ 0 → at d i ≡ 0
at_empty [] i h = refl
at_empty (x ∷ d) i h = absurd (omega arith)

verdict_none : (bs : List AnswerBlock) → length (blocks_bytes bs) ≡ 0 → verdict bs ≡ 0
verdict_none [] h = refl
verdict_none (b ∷ bs) h = absurd (omega arith)

both_ways :
    (t : Bool) (c v : ℕ) (m : Exec (Option ℕ))
    → m ≡ ok (some v)
    → (if t then ok (some c) else m) ≡ ok (some (if t then c else v))
both_ways true c v m h = refl
both_ways false c v m h = h

no_code :
    (b : AnswerBlock) (bs : List AnswerBlock)
    → length (blocks_bytes (b ∷ bs)) ≤ 4
    → verdict (b ∷ bs) ≡ 0
no_code b bs h =
    let size = length-append (block_bytes b) (blocks_bytes bs) in
    let body : length b.body ≡ 0 = grind (arith, size, length-block_bytes b) in
    let rest : length (blocks_bytes bs) ≡ 0 = omega (arith, size, length-block_bytes b) in
    rw (verdict_none bs rest) (ground (arith, at_empty b.body 0 body, at_empty b.body 2 body))

-- The loop over the blocks finds the verdict.
set_blocks-verdict :
    (fuel : ℕ) (bs : List AnswerBlock)
    → length (blocks_bytes bs) < fuel
    → All (λ b. IsU16 (length b.body)) bs
    → set_blocks fuel (blocks_bytes bs) (length (blocks_bytes bs)) ≡ ok (some (verdict bs))
set_blocks-verdict zero bs h all = absurd (omega arith)
set_blocks-verdict (suc fuel) [] h all = unfold set_blocks in refl
set_blocks-verdict (suc fuel) (b ∷ bs) h all =
    let size : length (blocks_bytes (b ∷ bs))
        ≡ 4 + even_up (length b.body) + length (blocks_bytes bs) =
      length-append (block_bytes b) (blocks_bytes bs)
      ∙ ap (λ k. k + length (blocks_bytes bs)) (length-block_bytes b) in
    elim (Bool-cases (leb (length (blocks_bytes (b ∷ bs))) 4)) [
      | inl short ↦
          set_blocks_short fuel (blocks_bytes (b ∷ bs)) (length (blocks_bytes (b ∷ bs)))
            (ground arith)
          ∙ ap (λ v. ok (some v)) (sym (no_code b bs (ground arith)))
      | inr long ↦
          set_blocks_step fuel b (blocks_bytes bs) (length (blocks_bytes (b ∷ bs))) all.0
            (ground arith)
          ∙ ap
              (λ k.
                if is_control_response b
                then ok (some (code_of b.body))
                else set_blocks fuel (blocks_bytes bs) k)
              (omega (arith, size))
          ∙ both_ways (is_control_response b) (code_of b.body) (verdict bs) _
              (set_blocks-verdict fuel bs (omega (arith, size)) all.1)
    ]

-- An answer to a SET request, with any blocks in it. For another transaction it is skipped. For ours, a
-- SUCCESS answer gives the code of its first Control/Response block, wherever that block stands among
-- blocks of even or odd length, and 0 where there is none; an UNSUPPORTED answer is an error; and any
-- other service type is skipped.
pub parse_set_response-answer :
    (dst src : Bytes) (service_type xid want : ℕ) (bs : List AnswerBlock)
    → length dst ≡ 6
    → length src ≡ 6
    → IsU32 xid
    → IsU16 (length (blocks_bytes bs))
    → All (λ b. IsU16 (length b.body)) bs
    → parse_set_response (answer dst src service_type xid bs) want ≡ (
        if xid == want
        then (if service_type == 5
            then err set_unsupported
            else (if service_type == 1 then ok (some (verdict bs)) else ok none))
        else ok none)
unfolding parse_set_response
parse_set_response-answer dst src service_type xid want bs d s x n all =
    let blocks = blocks_bytes bs in
    let payload =
      dcp_header dcp_get_set_frame_id dcp_service_id_set service_type xid 0 (length blocks)
        blocks in
    ap (λ m. m >>= set_payload want) (dcp_payload-eth_frame dst src payload d s)
    ∙ set_payload_lem
        (dcp_header-ReadsHeader dcp_get_set_frame_id dcp_service_id_set service_type xid 0
          (length blocks) blocks (omega arith) x n)
        want
    ∙ ap
        (λ m.
          if not (xid == want)
          then ok none
          else if service_type == 5
          then err set_unsupported
          else if service_type == 1
          then m
          else ok none)
        (set_blocks-verdict (suc (length blocks)) bs (omega arith) all)
    ∙ turned (xid == want) _
  where
    turned :
        (t : Bool) (m : Exec (Option ℕ))
        → (if not t then ok none else m) ≡ (if t then m else ok none)
    turned true m = refl
    turned false m = refl
