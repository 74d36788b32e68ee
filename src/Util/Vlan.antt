-- ===== src/Util/Vlan.antt =====
-- src/util.rs, `skip_vlan_tags` and `strip_eth`: where the payload of a frame begins.
use profinet_rs.Prelude.{
  ℕ, zero, suc, ◌+◌, ◌*◌, ◌<◌, ◌≤◌, ◌≡◌, ◌⊎◌, inl, inr, true, false, ltb, arith, Bytes, length,
  u16_at_lem, slice, u16_at-be16, slice_rest, All, IsU16, append_assoc, Bool-cases, Returns-bind,
  ap, ◌∙◌, ok, Returns, Yields, be16, List, [], ◌∷◌, ◌++◌, length-append,
}
use profinet_rs.Util.{vlan_tpid, strip_at, skip_vlan_loop, skip_vlan_tags, strip_eth}

-- Every frame has an offset: the loop neither panics nor runs out of fuel, and a frame of 14 bytes
-- leaves the EtherType's first byte in range.
pub skip_vlan_loop-ok :
    (fuel : ℕ) (frame : Bytes) (offset : ℕ)
    → length frame < fuel + offset
    → 0 < fuel
    → Yields
        (skip_vlan_loop fuel frame offset)
        (λ r. (offset ≤ r) × ((r ≡ offset) ⊎ (r ≤ length frame)))
unfolding skip_vlan_loop
skip_vlan_loop-ok zero frame offset h p = absurd (omega arith)
skip_vlan_loop-ok (suc fuel) frame offset h p =
    ground (arith, u16_at_lem frame offset, skip_vlan_loop-ok fuel frame (offset + 4))

pub skip_vlan_tags-ok :
    (frame : Bytes)
    → 12 ≤ length frame
    → Yields (skip_vlan_tags frame) (λ r. (12 ≤ r) × (r ≤ length frame))
unfolding skip_vlan_tags
skip_vlan_tags-ok frame h = ground (arith, skip_vlan_loop-ok (suc (length frame)) frame 12)

strip_at-Returns :
    (frame : Bytes) (want offset : ℕ) → offset ≤ length frame → Returns (strip_at frame want offset)
unfolding strip_at slice
strip_at-Returns frame want offset h = ground (arith, u16_at_lem frame offset)

-- `strip_eth` comes back on every frame, with a payload or an error: it never indexes out of range.
pub strip_eth-Returns : (frame : Bytes) (want : ℕ) → Returns (strip_eth frame want)
unfolding strip_eth
strip_eth-Returns frame want = elim (Bool-cases (ltb (length frame) 14)) [
  | inl short ↦ rw short tt
  | inr long ↦ rw long (
      Returns-bind (skip_vlan_tags frame) (strip_at frame want) _
        (skip_vlan_tags-ok frame (ground arith)) (λ r h. strip_at-Returns frame want r h.1))
]

-- A stack of VLAN tags, each a TPID and a TCI, as it stands in a frame.
abbrev pub tag_bytes : List (ℕ × ℕ) → Bytes
tag_bytes [] = []
tag_bytes ((t, c) ∷ tags) = be16 t ++ (be16 c ++ tag_bytes tags)

abbrev pub IsTagStack : List (ℕ × ℕ) → Type 0
IsTagStack tags = All (λ t. vlan_tpid t.0 ≡ true) tags

tpid-IsU16 : (t : ℕ) → vlan_tpid t ≡ true → IsU16 t
tpid-IsU16 t h = ground arith

skip_vlan_loop_step :
    (front rest : Bytes) (fuel offset t c : ℕ)
    → length front ≡ offset
    → vlan_tpid t ≡ true
    → let frame = front ++ (be16 t ++ (be16 c ++ rest)) in
      skip_vlan_loop (suc fuel) frame offset ≡ skip_vlan_loop fuel frame (offset + 4)
unfolding skip_vlan_loop
skip_vlan_loop_step front rest fuel offset t c e v = ground (
  arith,
  tpid-IsU16 t,
  u16_at-be16 front (be16 c ++ rest) offset t,
  length-append front (be16 t ++ (be16 c ++ rest)),
)

skip_vlan_loop-tags :
    (tags : List (ℕ × ℕ)) (front payload : Bytes) (fuel offset want : ℕ)
    → length front ≡ offset
    → length tags < fuel
    → IsTagStack tags
    → IsU16 want
    → vlan_tpid want ≡ false
    → skip_vlan_loop fuel (front ++ (tag_bytes tags ++ (be16 want ++ payload))) offset
      ≡ ok (offset + 4 * length tags)
unfolding skip_vlan_loop
skip_vlan_loop-tags tags front payload zero offset want e f all w ne = absurd (omega arith)
skip_vlan_loop-tags [] front payload (suc fuel) offset want e f all w ne =
    ground (arith, u16_at-be16 front payload offset want)
skip_vlan_loop-tags ((t, c) ∷ tags) front payload (suc fuel) offset want e f all w ne =
    let rest = tag_bytes tags ++ (be16 want ++ payload) in
    let front' = front ++ (be16 t ++ be16 c) in
    skip_vlan_loop_step front rest fuel offset t c e all.0
    ∙ (rw (← append_assoc front (be16 t ++ be16 c) rest) (
        skip_vlan_loop-tags tags front' payload fuel (offset + 4) want
          (omega (arith, length-append front (be16 t ++ be16 c))) (omega arith) all.1 w ne
        ∙ ap ok (omega arith)))

pub length-tag_bytes : (tags : List (ℕ × ℕ)) → length (tag_bytes tags) ≡ 4 * length tags
length-tag_bytes [] = omega arith
length-tag_bytes ((t, c) ∷ tags) = omega (arith, length-tag_bytes tags)

-- The offset of the EtherType behind a stack of tags.
pub skip_vlan_tags-tagged :
    (macs : Bytes) (tags : List (ℕ × ℕ)) (want : ℕ) (payload : Bytes)
    → length macs ≡ 12
    → IsTagStack tags
    → IsU16 want
    → vlan_tpid want ≡ false
    → skip_vlan_tags (macs ++ (tag_bytes tags ++ (be16 want ++ payload)))
      ≡ ok (12 + 4 * length tags)
unfolding skip_vlan_tags
skip_vlan_tags-tagged macs tags want payload e all w ne =
    skip_vlan_loop-tags tags macs payload
      (suc (length (macs ++ (tag_bytes tags ++ (be16 want ++ payload))))) 12 want e
      (omega (
        arith,
        length-append macs (tag_bytes tags ++ (be16 want ++ payload)),
        length-append (tag_bytes tags) (be16 want ++ payload),
        length-tag_bytes tags,
      ))
      all w ne

strip_at-front :
    (front : Bytes) (want : ℕ) (payload : Bytes) (offset : ℕ)
    → length front ≡ offset
    → IsU16 want
    → strip_at (front ++ (be16 want ++ payload)) want offset ≡ ok payload
unfolding strip_at
strip_at-front front want payload offset e w = ground (
  arith,
  u16_at-be16 front payload offset want,
  slice_rest (front ++ be16 want) payload (offset + 2) (length (front ++ (be16 want ++ payload))),
  append_assoc front (be16 want) payload,
  length-append front (be16 want),
  length-append front (be16 want ++ payload),
)

-- Whatever stack of VLAN tags stands before the EtherType, `strip_eth` returns the payload behind it.
pub strip_eth-tagged :
    (macs : Bytes) (tags : List (ℕ × ℕ)) (want : ℕ) (payload : Bytes)
    → length macs ≡ 12
    → IsTagStack tags
    → IsU16 want
    → vlan_tpid want ≡ false
    → strip_eth (macs ++ (tag_bytes tags ++ (be16 want ++ payload))) want ≡ ok payload
unfolding strip_eth
strip_eth-tagged macs tags want payload e all w ne =
    let front = macs ++ tag_bytes tags in
    ground (
      arith,
      skip_vlan_tags-tagged macs tags want payload e all w ne,
      append_assoc macs (tag_bytes tags) (be16 want ++ payload),
      strip_at-front front want payload (12 + 4 * length tags),
      length-append macs (tag_bytes tags),
      length-append macs (tag_bytes tags ++ (be16 want ++ payload)),
      length-append (tag_bytes tags) (be16 want ++ payload),
      length-tag_bytes tags,
    )
