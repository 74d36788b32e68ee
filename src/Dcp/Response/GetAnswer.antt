-- ===== src/Dcp/Response/GetAnswer.antt =====
-- src/dcp.rs: what the parser of GET answers makes of an answer, whatever its blocks.
use profinet_rs.Prelude.{
  ℕ, zero, suc, ◌+◌, ◌-◌, ◌<◌, ◌≡◌, refl, sym, ap, ◌∙◌, arith, min, Bool, true, false, not, ◌&&◌,
  ◌||◌, ◌==◌, ltb, leb, if◌then◌else◌, Option, none, some, List, [], ◌∷◌, ◌++◌, append_assoc, All,
  length, length-append, Bytes, IsU16, IsU32, byte_at, slice, be16, u16_at-be16, slice-append,
  slice_rest, Exec, ok, err, ◌>>=◌, not_dcp_response,
}
use profinet_rs.Dcp.Request.{
  profinet_ethertype, dcp_get_set_frame_id, dcp_service_id_get, eth_frame, dcp_header,
}
use profinet_rs.Dcp.Response.{even_up, get_blocks, get_payload, parse_get_response}
use profinet_rs.Dcp.Response.Echo.{dcp_payload-eth_frame, dcp_header-ReadsHeader, get_payload_lem}
use profinet_rs.Dcp.Response.Answer.{AnswerBlock, pad, block_bytes, length-block_bytes}

-- A block of a GET answer: its status word and a value.
pub record ValueBlock : Type 0 where
  pub option : ℕ
  pub suboption : ℕ
  pub info : ℕ
  pub value : Bytes

abbrev pub answer_block : ValueBlock → AnswerBlock
answer_block b = record {
  option = b.option;
  suboption = b.suboption;
  body = be16 b.info ++ b.value;
}

abbrev pub value_bytes : List ValueBlock → Bytes
value_bytes [] = []
value_bytes (b ∷ bs) = block_bytes (answer_block b) ++ value_bytes bs

-- The value of the first block of an option and a suboption.
abbrev pub lookup_value : ℕ → ℕ → List ValueBlock → Option Bytes
lookup_value option suboption [] = none
lookup_value option suboption (b ∷ bs) =
    if b.option == option && b.suboption == suboption
    then some b.value
    else lookup_value option suboption bs

-- The answer to a GET request, of any service type.
abbrev pub get_answer : Bytes → Bytes → ℕ → ℕ → List ValueBlock → Bytes
get_answer dst src service_type xid bs = eth_frame dst src profinet_ethertype (
    dcp_header dcp_get_set_frame_id dcp_service_id_get service_type xid 0 (length (value_bytes bs))
      (value_bytes bs))

-- A value that is there and whose length fits the block's length field.
abbrev pub HasValue : ValueBlock → Type 0
HasValue b = (0 < length b.value) × (length b.value < 65534)

-- One round over a block that is there.
get_blocks_step :
    (option suboption fuel : ℕ) (b : ValueBlock) (rest : Bytes) (n : ℕ)
    → length b.value < 65534
    → 6 < n
    → get_blocks option suboption (suc fuel) (block_bytes (answer_block b) ++ rest) n ≡ (
        if b.option == option && b.suboption == suboption
        then ok (some b.value)
        else get_blocks option suboption fuel rest (n - (4 + even_up (suc (suc (length b.value))))))
unfolding get_blocks byte_at
get_blocks_step option suboption fuel b rest n w more =
    let body = be16 b.info ++ b.value in
    let all = block_bytes (answer_block b) ++ rest in
    let size : length all ≡ 4 + even_up (suc (suc (length b.value))) + length rest =
      length-append (block_bytes (answer_block b)) rest
      ∙ ap (λ k. k + length rest) (length-block_bytes (answer_block b)) in
    let go_on : leb n 6 || ltb (length all) 6 ≡ false = ground arith in
    rw (
      go_on,
      u16_at-be16 (b.option ∷ b.suboption ∷ []) ((body ++ pad body) ++ rest) 2
          (suc (suc (length b.value))) refl (omega arith),
      block_slice,
      slice_rest (block_bytes (answer_block b)) rest
          (min (4 + even_up (suc (suc (length b.value)))) (length all)) (length all)
          (omega (arith, length-block_bytes (answer_block b)))
          (size ∙ ap (λ k. k + length rest) (sym (length-block_bytes (answer_block b)))),
    )
  where
    tail : Bytes
    tail = pad (be16 b.info ++ b.value) ++ rest

    block_slice :
        slice (block_bytes (answer_block b) ++ rest) 6 (
          min
            (6 + (suc (suc (length b.value)) - 2))
            (length (block_bytes (answer_block b) ++ rest)))
        ≡ ok b.value
    block_slice = rw (append_assoc b.value (pad (be16 b.info ++ b.value)) rest) (
        slice-append (b.option ∷ b.suboption ∷ (be16 (suc (suc (length b.value))) ++ be16 b.info))
          b.value tail 6
          (min (6 + (suc (suc (length b.value)) - 2))
            (suc (suc (suc (suc (suc (suc (length (b.value ++ tail)))))))))
          refl (omega (arith, length-append b.value tail)))

-- The loop over the blocks finds the first that matches.
get_blocks-lookup_value :
    (option suboption fuel : ℕ) (bs : List ValueBlock)
    → length (value_bytes bs) < fuel
    → All HasValue bs
    → get_blocks option suboption fuel (value_bytes bs) (length (value_bytes bs))
      ≡ ok (lookup_value option suboption bs)
get_blocks-lookup_value option suboption zero bs h all = absurd (omega arith)
get_blocks-lookup_value option suboption (suc fuel) [] h all = unfold get_blocks in refl
get_blocks-lookup_value option suboption (suc fuel) (b ∷ bs) h all =
    let size : length (value_bytes (b ∷ bs))
        ≡ 4 + even_up (suc (suc (length b.value))) + length (value_bytes bs) =
      length-append (block_bytes (answer_block b)) (value_bytes bs)
      ∙ ap (λ k. k + length (value_bytes bs)) (length-block_bytes (answer_block b)) in
    get_blocks_step option suboption fuel b (value_bytes bs) (length (value_bytes (b ∷ bs)))
      (all.0).1 (long size (all.0).0)
    ∙ ap
        (λ k.
          if b.option == option && b.suboption == suboption
          then ok (some b.value)
          else get_blocks option suboption fuel (value_bytes bs) k)
        (omega (arith, size))
    ∙ found (b.option == option && b.suboption == suboption) b.value _ _
        (get_blocks-lookup_value option suboption fuel bs (omega (arith, size)) all.1)
  where
    long :
        length (value_bytes (b ∷ bs))
          ≡ 4 + even_up (suc (suc (length b.value))) + length (value_bytes bs)
        → 0 < length b.value
        → 6 < length (value_bytes (b ∷ bs))
    long size some_value = ground arith

    found :
        (t : Bool) (c : Bytes) (v : Option Bytes) (m : Exec (Option Bytes))
        → m ≡ ok v
        → (if t then ok (some c) else m) ≡ ok (if t then some c else v)
    found true c v m h = refl
    found false c v m h = h

-- An answer to a GET request, with any blocks that have a value. For another transaction it is skipped.
-- For ours, a SUCCESS answer gives the value of the first block of the option and the suboption asked for,
-- without its status word and its padding, or nothing where there is no such block; any other service type is
-- an error.
pub parse_get_response-get_answer :
    (dst src : Bytes) (service_type xid want option suboption : ℕ) (bs : List ValueBlock)
    → length dst ≡ 6
    → length src ≡ 6
    → IsU32 xid
    → IsU16 (length (value_bytes bs))
    → All HasValue bs
    → parse_get_response (get_answer dst src service_type xid bs) option suboption want ≡ (
        if xid == want
        then (if service_type == 1
            then ok (lookup_value option suboption bs)
            else err (not_dcp_response service_type))
        else ok none)
unfolding parse_get_response
parse_get_response-get_answer dst src service_type xid want option suboption bs d s x n all =
    let blocks = value_bytes bs in
    let payload =
      dcp_header dcp_get_set_frame_id dcp_service_id_get service_type xid 0 (length blocks)
        blocks in
    ap (λ m. m >>= get_payload option suboption want) (dcp_payload-eth_frame dst src payload d s)
    ∙ get_payload_lem
        (dcp_header-ReadsHeader dcp_get_set_frame_id dcp_service_id_get service_type xid 0
          (length blocks) blocks (omega arith) x n)
        option suboption want
    ∙ ap
        (λ m.
          if not (xid == want)
          then ok none
          else if service_type == 1
          then m
          else err (not_dcp_response service_type))
        (get_blocks-lookup_value option suboption (suc (length blocks)) bs (omega arith) all)
    ∙ turned (xid == want) _
  where
    turned :
        (t : Bool) (m : Exec (Option Bytes))
        → (if not t then ok none else m) ≡ (if t then m else ok none)
    turned true m = refl
    turned false m = refl
