-- ===== src/Rt/Frame/RoundTrip.antt =====
-- src/rt.rs, `RtFrame`: bytes and back, alone and inside an Ethernet frame.
use profinet_rs.Prelude.{
  ℕ, ◌+◌, ◌-◌, ◌*◌, ◌<◌, ◌≤◌, ◌≡◌, ◌⊎◌, inl, inr, refl, sym, arith, ltb, Bool-cases, some, List, [],
  ◌∷◌, ◌++◌, append_assoc, All, length, take, drop, length-append, length-drop, take-append-drop,
  lt→ltb, dec_lt, All-take, All-drop, Yields-bind, Bytes, IsByte, IsU16, byte_at, u16_at, slice, at,
  at16, u16_at_lem, slice_lem, be16, u16_at-be16, slice-append, slice_rest, at-lt, ok, err, Returns,
  Yields, rt_frame_too_short,
}
use profinet_rs.Util.{skip_vlan_tags}
use profinet_rs.Util.Vlan.{
  skip_vlan_tags-tagged, skip_vlan_tags-ok, tag_bytes, IsTagStack, length-tag_bytes,
}
use profinet_rs.Rt.Frame.{
  RtFrame, from_bytes, to_bytes, build_ethernet_frame, parse_rt_at, parse_ethernet_frame,
  ethertype_profinet,
}

-- The fields of a frame fit their machine words.
pub record IsWireFrame (f : RtFrame) : Type 0 where
  pub id_fits : IsU16 f.frame_id
  pub counter_fits : IsU16 f.cycle_counter

pub length-to_bytes : (f : RtFrame) → length (to_bytes f) ≡ length f.payload + 6
unfolding to_bytes
length-to_bytes f = omega (
  arith,
  length-append f.payload (be16 f.cycle_counter ++ (f.data_status ∷ f.transfer_status ∷ [])),
)

trailer : RtFrame → Bytes
trailer f = be16 f.cycle_counter ++ (f.data_status ∷ f.transfer_status ∷ [])

-- The three parts of `to_bytes f`, as `from_bytes` takes them.
to_bytes_parts :
    (f : RtFrame)
    → IsU16 f.frame_id
    → (u16_at (to_bytes f) 0 ≡ ok f.frame_id)
      × (slice (to_bytes f) 2 (length (to_bytes f) - 4) ≡ ok f.payload)
      × (slice (to_bytes f) (length (to_bytes f) - 4) (length (to_bytes f)) ≡ ok (trailer f))
to_bytes_parts f w =
    let n : length (to_bytes f) ≡ length f.payload + 6 = length-to_bytes f in
    unfold to_bytes trailer in
    (
      u16_at-be16 [] (f.payload ++ trailer f) 0 f.frame_id refl w,
      slice-append (be16 f.frame_id) f.payload (trailer f) 2 (length (to_bytes f) - 4) refl
          (omega arith),
      slice_rest (be16 f.frame_id ++ f.payload) (trailer f) (length (to_bytes f) - 4)
          (length (to_bytes f)) (omega arith) (omega arith),
    )

trailer_parts :
    (f : RtFrame)
    → IsU16 f.cycle_counter
    → (u16_at (trailer f) 0 ≡ ok f.cycle_counter)
      × (byte_at (trailer f) 2 ≡ ok f.data_status)
      × (byte_at (trailer f) 3 ≡ ok f.transfer_status)
unfolding trailer byte_at
trailer_parts f w =
    (u16_at-be16 [] (f.data_status ∷ f.transfer_status ∷ []) 0 f.cycle_counter refl w, refl, refl)

-- `from_bytes` reads back the frame that `to_bytes` wrote, whatever its payload, if the frame ID and
-- the cycle counter fit 16 bits.
pub from_bytes-to_bytes : (f : RtFrame) → IsWireFrame f → from_bytes (to_bytes f) ≡ ok f
unfolding from_bytes
from_bytes-to_bytes f w =
    ground (arith, length-to_bytes f, to_bytes_parts f w.id_fits, trailer_parts f w.counter_fits)

parse_rt_at-front :
    (front : Bytes) (f : RtFrame) (offset : ℕ)
    → length front ≡ offset
    → IsWireFrame f
    → parse_rt_at (front ++ (be16 ethertype_profinet ++ to_bytes f)) offset ≡ ok (some f)
unfolding parse_rt_at
parse_rt_at-front front f offset e w =
    let body = to_bytes f in
    let tagged = be16 ethertype_profinet ++ body in
    ground (
      arith,
      u16_at-be16 front body offset ethertype_profinet,
      slice_rest (front ++ be16 ethertype_profinet) body (offset + 2) (length (front ++ tagged)),
      append_assoc front (be16 ethertype_profinet) body,
      length-append front (be16 ethertype_profinet),
      length-append front tagged,
      from_bytes-to_bytes f w,
    )

-- A frame that fits its words, behind two MAC addresses and any stack of VLAN tags, is what
-- `parse_ethernet_frame` finds.
pub parse_ethernet_frame-tagged :
    (macs : Bytes) (tags : List (ℕ × ℕ)) (f : RtFrame)
    → length macs ≡ 12
    → IsTagStack tags
    → IsWireFrame f
    → parse_ethernet_frame (macs ++ (tag_bytes tags ++ (be16 ethertype_profinet ++ to_bytes f)))
      ≡ ok (some f)
unfolding parse_ethernet_frame
parse_ethernet_frame-tagged macs tags f e all w =
    let tagged = be16 ethertype_profinet ++ to_bytes f in
    ground (
      arith,
      skip_vlan_tags-tagged macs tags ethertype_profinet (to_bytes f) e all (omega arith) refl,
      append_assoc macs (tag_bytes tags) tagged,
      parse_rt_at-front (macs ++ tag_bytes tags) f (12 + 4 * length tags),
      length-append macs (tag_bytes tags),
      length-append macs (tag_bytes tags ++ tagged),
      length-append (tag_bytes tags) tagged,
      length-tag_bytes tags,
      length-to_bytes f,
      w,
    )

-- A frame that fits its words, sent between two MAC addresses by `build_ethernet_frame`, is what
-- `parse_ethernet_frame` finds in the priority-tagged Ethernet frame.
pub parse_ethernet_frame-build_ethernet_frame :
    (dst_mac src_mac : Bytes) (f : RtFrame)
    → length dst_mac ≡ 6
    → length src_mac ≡ 6
    → IsWireFrame f
    → parse_ethernet_frame (build_ethernet_frame dst_mac src_mac f) ≡ ok (some f)
parse_ethernet_frame-build_ethernet_frame dst_mac src_mac f d s w =
    rw (build_ethernet_frame_shape dst_mac src_mac f) (
      parse_ethernet_frame-tagged (dst_mac ++ src_mac) ((0x8100, 0xC000) ∷ []) f
        (omega (arith, length-append dst_mac src_mac)) (refl, tt) w)
  where
    build_ethernet_frame_shape :
        (a b : Bytes) (g : RtFrame)
        → build_ethernet_frame a b g
          ≡ (a ++ b)
            ++ (tag_bytes ((0x8100, 0xC000) ∷ []) ++ (be16 ethertype_profinet ++ to_bytes g))
    build_ethernet_frame_shape a b g = unfold build_ethernet_frame in sym (append_assoc a b _)

-- Six bytes or more are the bytes of a frame.
frame_of : Bytes → RtFrame
frame_of d =
    let rest = drop 2 d in
    let end = drop (length d - 6) rest in
    record {
      frame_id = at16 d 0;
      cycle_counter = at16 end 0;
      data_status = at end 2;
      transfer_status = at end 3;
      payload = take (length d - 6) rest;
    }

four_bytes :
    (t : Bytes) → length t ≡ 4 → All IsByte t → be16 (at16 t 0) ++ (at t 2 ∷ at t 3 ∷ []) ≡ t
four_bytes [] e h = absurd (omega arith)
four_bytes (a ∷ []) e h = absurd (omega arith)
four_bytes (a ∷ b ∷ []) e h = absurd (omega arith)
four_bytes (a ∷ b ∷ c ∷ []) e h = absurd (omega arith)
four_bytes (a ∷ b ∷ c ∷ d ∷ []) e h = ground arith
four_bytes (a ∷ b ∷ c ∷ d ∷ x ∷ t) e h = absurd (omega arith)

to_bytes-frame_of : (d : Bytes) → 6 ≤ length d → All IsByte d → to_bytes (frame_of d) ≡ d
unfolding to_bytes frame_of
to_bytes-frame_of [] h all = absurd (omega arith)
to_bytes-frame_of (a ∷ []) h all = absurd (omega arith)
to_bytes-frame_of (a ∷ b ∷ d) h all =
    let n = length (a ∷ b ∷ d) - 6 in
    ground (
      arith,
      four_bytes (drop n d) (omega (arith, length-drop n d)) (All-drop IsByte n d all.1.1),
      take-append-drop n d,
    )

frame_of-IsWireFrame : (d : Bytes) → All IsByte d → IsWireFrame (frame_of d)
unfolding frame_of
frame_of-IsWireFrame d all =
    let end = drop (length d - 6) (drop 2 d) in
    let all_end = All-drop IsByte (length d - 6) (drop 2 d) (All-drop IsByte 2 d all) in
    omega (arith, at-lt d 0 all, at-lt d 1 all, at-lt end 0 all_end, at-lt end 1 all_end)

from_bytes_total :
    (d : Bytes)
    → All IsByte d
    → (length d < 6 → from_bytes d ≡ err (rt_frame_too_short (length d)))
      × (6 ≤ length d → (f : RtFrame) × IsWireFrame f × (from_bytes d ≡ ok f) × (to_bytes f ≡ d))
from_bytes_total d all = (
  λ short. unfold from_bytes in rw (lt→ltb (length d) 6 short),
  λ long.
      let back = to_bytes-frame_of d long all in
      let w = frame_of-IsWireFrame d all in
      (frame_of d, w, rw back at (from_bytes-to_bytes (frame_of d) w), back),
)

-- Every slice of bytes is one of two: it is below six bytes, and `from_bytes` refuses it; or it is the
-- serialisation of one frame that fits its words, and `from_bytes` returns that frame.
pub from_bytes_cases :
    (d : Bytes)
    → All IsByte d
    → ((length d < 6) × (from_bytes d ≡ err (rt_frame_too_short (length d))))
      ⊎ ((f : RtFrame) × IsWireFrame f × (from_bytes d ≡ ok f) × (to_bytes f ≡ d))
from_bytes_cases d all = elim (dec_lt (length d) 6) [
  | yes short ↦ inl (short, (from_bytes_total d all).0 short)
  | no long ↦ inr ((from_bytes_total d all).1 (omega arith))
]

from_bytes-Returns : (d : Bytes) → All IsByte d → Returns (from_bytes d)
from_bytes-Returns d all = elim (dec_lt (length d) 6) [
  | yes short ↦ rw ((from_bytes_total d all).0 short) tt
  | no long ↦ rw (((from_bytes_total d all).1 (omega arith)).2) tt
]

parse_rt_at-Yields :
    (d : Bytes) (offset : ℕ) → All IsByte d → Yields (parse_rt_at d offset) (λ _. Unit {0})
unfolding parse_rt_at
parse_rt_at-Yields d offset all =
    let rest = take (length d - (offset + 2)) (drop (offset + 2) d) in
    ground (
      arith,
      u16_at_lem d offset,
      slice_lem d (offset + 2) (length d),
      from_bytes-Returns rest
          (All-take IsByte (length d - (offset + 2)) _ (All-drop IsByte (offset + 2) d all)),
    )

-- `parse_ethernet_frame` comes back on every frame, and never with an error.
pub parse_ethernet_frame-Yields :
    (d : Bytes) → All IsByte d → Yields (parse_ethernet_frame d) (λ _. Unit {0})
unfolding parse_ethernet_frame
parse_ethernet_frame-Yields d all = elim (Bool-cases (ltb (length d) 18)) [
  | inl short ↦ rw short tt
  | inr long ↦ rw long (
      Yields-bind (skip_vlan_tags d) (parse_rt_at d) _ _ (skip_vlan_tags-ok d (ground arith))
        (λ r h. parse_rt_at-Yields d r all))
]
