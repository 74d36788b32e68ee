-- ===== src/Dcp/Response/Total.antt =====
-- src/dcp.rs: the parsers of answers come back on every frame.
use profinet_rs.Prelude.{
  ℕ, zero, suc, ◌+◌, ◌-◌, ◌<◌, ◌≤◌, ◌≡◌, refl, arith, min, Bool, true, false, not, ◌&&◌, ◌||◌, ◌==◌,
  ltb, leb, if◌then◌else◌, if-Yields, Option, none, some, [], ◌∷◌, length, take, drop, length-take,
  length-drop, Bytes, at, at16, at32, byte_at_lem, u16_at_lem, u32_at_lem, slice_lem, Exec, ok, err,
  panic, stuck, ◌>>=◌, to_option, Returns, Yields,
}
use profinet_rs.Util.Vlan.{strip_eth-Returns}
use profinet_rs.Dcp.Request.{dcp_get_set_frame_id, dcp_service_id_set}
use profinet_rs.Dcp.Response.{
  dcp_payload, xid_of, parse_dcp_xid, even_up, block_error, set_blocks, set_payload,
  parse_set_response, get_blocks, get_payload, parse_get_response,
}

-- After a call that comes back, a function that comes back.
Returns-then {ℓ κ} :
    {A : Type ℓ} {B : Type κ} (m : Exec A) (f : A → Exec B)
    → Returns m
    → ((a : A) → Returns (f a))
    → Returns (m >>= f)
Returns-then (ok a) f h k = k a
Returns-then (err e) f h k = tt
Returns-then panic f h k = h
Returns-then stuck f h k = h

to_option-Returns {ℓ} : {A : Type ℓ} (m : Exec A) → Returns m → Returns (to_option m)
to_option-Returns (ok a) h = tt
to_option-Returns (err e) h = tt
to_option-Returns panic h = h
to_option-Returns stuck h = h

Yields-Returns {ℓ} : {A : Type ℓ} (m : Exec A) (P : A → Type 0) → Yields m P → Returns m
Yields-Returns (ok a) P h = tt
Yields-Returns (err e) P h = tt
Yields-Returns panic P h = h
Yields-Returns stuck P h = h

if-Returns {ℓ} :
    {A : Type ℓ} (t : Bool) (m n : Exec A)
    → (t ≡ true → Returns m)
    → (t ≡ false → Returns n)
    → Returns (if t then m else n)
if-Returns true m n h k = h refl
if-Returns false m n h k = k refl

dcp_payload-Returns : (frame : Bytes) → Returns (dcp_payload frame)
unfolding dcp_payload
dcp_payload-Returns frame = strip_eth-Returns frame _

xid_of-Returns : (p : Option Bytes) → Returns (xid_of p)
unfolding xid_of
xid_of-Returns none = tt
xid_of-Returns (some payload) =
    if-Returns (leb 8 (length payload)) _ _ (λ long. rw (u32_at_lem payload 4 (ground arith)) tt)
      (λ _. tt)

-- Looking for a transaction id never panics.
parse_dcp_xid-Returns : (frame : Bytes) → Returns (parse_dcp_xid frame)
unfolding parse_dcp_xid
parse_dcp_xid-Returns frame =
    Returns-then (to_option (dcp_payload frame)) xid_of
      (to_option-Returns (dcp_payload frame) (dcp_payload-Returns frame)) xid_of-Returns

block_error_total : (d : Bytes) → (code : ℕ) × (block_error d ≡ ok code)
unfolding block_error
block_error_total [] = (0, refl)
block_error_total (a ∷ []) = (a, refl)
block_error_total (a ∷ b ∷ []) = (a, refl)
block_error_total (a ∷ b ∷ c ∷ rest) = (c, refl)

even_up-le : (n : ℕ) → n ≤ even_up n
even_up-le n = ground arith

-- A round drops at least four bytes.
pub rest_shorter :
    (blocks : Bytes) (n fuel : ℕ)
    → 4 ≤ length blocks
    → length blocks < suc fuel
    → let cut = min (4 + n) (length blocks) in
      length (take (length blocks - cut) (drop cut blocks)) < fuel
rest_shorter blocks n fuel h k =
    let cut = min (4 + n) (length blocks) in
    omega (arith, length-take (length blocks - cut) (drop cut blocks), length-drop cut blocks)

-- The loop over the blocks of a SET answer ends and has a code, whatever the lengths in the frame say.
set_blocks-Yields :
    (fuel : ℕ) (blocks : Bytes) (remaining : ℕ)
    → length blocks < fuel
    → Yields (set_blocks fuel blocks remaining) (λ r. (code : ℕ) × (r ≡ some code))
unfolding set_blocks
set_blocks-Yields zero blocks remaining h = absurd (omega arith)
set_blocks-Yields (suc fuel) blocks remaining h =
    if-Yields (leb remaining 4 || ltb (length blocks) 4) _ _ _ (λ _. (0, refl))
      (λ more.
        let n = even_up (at16 blocks 2) in
        let long : 4 ≤ length blocks = ground arith in
        rw
          (
            byte_at_lem blocks 0 (omega arith),
            byte_at_lem blocks 1 (omega arith),
            u16_at_lem blocks 2 long,
            slice_lem blocks 4 (min (4 + at16 blocks 2) (length blocks)) (omega arith)
                (omega arith),
            slice_lem blocks (min (4 + n) (length blocks)) (length blocks) (omega arith)
                (omega arith),
          )
          (if-Yields (at blocks 0 == 5 && at blocks 1 == 4) _ _ _
            (λ _.
              let (code, e) =
                block_error_total
                  (take (min (4 + at16 blocks 2) (length blocks) - 4) (drop 4 blocks)) in
              rw e (code, refl))
            (λ _. set_blocks-Yields fuel _ _ (rest_shorter blocks n fuel long h))))

get_blocks-Returns :
    (option suboption fuel : ℕ) (blocks : Bytes) (len : ℕ)
    → length blocks < fuel
    → Returns (get_blocks option suboption fuel blocks len)
unfolding get_blocks
get_blocks-Returns option suboption zero blocks len h = absurd (omega arith)
get_blocks-Returns option suboption (suc fuel) blocks len h =
    if-Returns (leb len 6 || ltb (length blocks) 6) _ _ (λ _. tt)
      (λ more.
        let n = even_up (at16 blocks 2) in
        let long : 6 ≤ length blocks = ground arith in
        rw
          (
            byte_at_lem blocks 0 (omega arith),
            byte_at_lem blocks 1 (omega arith),
            u16_at_lem blocks 2 (omega arith),
            slice_lem blocks 6 (min (6 + (at16 blocks 2 - 2)) (length blocks)) (omega arith)
                (omega arith),
            slice_lem blocks (min (4 + n) (length blocks)) (length blocks) (omega arith)
                (omega arith),
          )
          (if-Returns (at blocks 0 == option && at blocks 1 == suboption) _ _ (λ _. tt)
            (λ _.
              get_blocks-Returns option suboption fuel _ _
                (rest_shorter blocks n fuel (omega arith) h))))

module _ (payload : Bytes) where
  set_payload-Returns : (xid : ℕ) → Returns (set_payload xid payload)
  unfolding set_payload
  set_payload-Returns xid =
      if-Returns (ltb (length payload) 12) _ _ (λ _. tt)
        (λ long.
          let n : 12 ≤ length payload = ground arith in
          let blocks = take (length payload - 12) (drop 12 payload) in
          rw
            (
              u16_at_lem payload 0 (omega arith),
              byte_at_lem payload 2 (omega arith),
              byte_at_lem payload 3 (omega arith),
              u32_at_lem payload 4 (omega arith),
              u16_at_lem payload 10 n,
              slice_lem payload 12 (length payload) n (omega arith),
            )
            (if-Returns
              (not (at16 payload 0 == dcp_get_set_frame_id)
                || not (at payload 2 == dcp_service_id_set)
                || not (at32 payload 4 == xid))
              _ _ (λ _. tt)
              (λ _.
                if-Returns (at payload 3 == 5) _ _ (λ _. tt)
                  (λ _.
                    if-Returns (at payload 3 == 1) _ _
                      (λ _.
                        Yields-Returns (set_blocks (suc (length blocks)) blocks (at16 payload 10)) _
                          (set_blocks-Yields (suc (length blocks)) blocks (at16 payload 10)
                            (omega arith)))
                      (λ _. tt)))))

  get_payload-Returns :
      (option suboption xid : ℕ) → Returns (get_payload option suboption xid payload)
  unfolding get_payload
  get_payload-Returns option suboption xid =
      if-Returns (ltb (length payload) 12) _ _ (λ _. tt)
        (λ long.
          let n : 12 ≤ length payload = ground arith in
          let blocks = take (length payload - 12) (drop 12 payload) in
          rw
            (
              u16_at_lem payload 0 (omega arith),
              byte_at_lem payload 3 (omega arith),
              u32_at_lem payload 4 (omega arith),
              u16_at_lem payload 10 n,
              slice_lem payload 12 (length payload) n (omega arith),
            )
            (if-Returns
              (not (at16 payload 0 == dcp_get_set_frame_id) || not (at32 payload 4 == xid)) _ _
              (λ _. tt)
              (λ _.
                if-Returns (at payload 3 == 1) _ _
                  (λ _.
                    get_blocks-Returns option suboption (suc (length blocks)) blocks
                      (at16 payload 10) (omega arith))
                  (λ _. tt))))

-- The three parsers come back on every frame, with an answer or an error: no length in a frame makes
-- them read out of range, and their loops over the blocks end.
pub parsers-Returns :
    (frame : Bytes) (option suboption expected_xid : ℕ)
    → Returns (parse_dcp_xid frame)
      × Returns (parse_set_response frame expected_xid)
      × Returns (parse_get_response frame option suboption expected_xid)
unfolding parse_set_response parse_get_response
parsers-Returns frame option suboption expected_xid = (
  parse_dcp_xid-Returns frame,
  Returns-then (dcp_payload frame) (set_payload expected_xid) (dcp_payload-Returns frame)
      (λ p. set_payload-Returns p expected_xid),
  Returns-then (dcp_payload frame) (get_payload option suboption expected_xid)
      (dcp_payload-Returns frame) (λ p. get_payload-Returns p option suboption expected_xid),
)
