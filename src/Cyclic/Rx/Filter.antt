-- ===== src/Cyclic/Rx/Filter.antt =====
-- src/cyclic.rs, `process_input_frame`: which frames reach the state, and that none makes it panic.
use profinet_rs.Prelude.{
  same_bytes, same_bytes_self, same_bytes_sound, ℕ, ◌-◌, ◌≤◌, ◌≡◌, ◌≢◌, ◌⊎◌, inl, inr, refl, arith,
  false, ◌==◌, ltb, if◌then◌else◌, Bool-cases, Yields-bind, Yields-map, if-Yields, Option, none,
  some, ◌++◌, All, length, take, drop, length-append, Bytes, IsByte, slice, slice_lem, be16,
  slice-append, ok, Yields,
}
use profinet_rs.Rt.Frame.{
  RtFrame, build_ethernet_frame, parse_ethernet_frame, to_bytes, vlan_tag_rt, ethertype_profinet,
}
use profinet_rs.Rt.Frame.RoundTrip.{
  IsWireFrame, parse_ethernet_frame-build_ethernet_frame, parse_ethernet_frame-Yields,
  length-to_bytes,
}
use profinet_rs.Rt.Config.{IocrConfig}
use profinet_rs.Rt.Builder.Inv.{IsSound}
use profinet_rs.Cyclic.State.{Shared}
use profinet_rs.Cyclic.Rx.{frame_is_alive, process_frame, process_parsed, process_input_frame}
use profinet_rs.Cyclic.Rx.Liveness.{process_frame_disowned, process_frame_accepted, recovered}

-- What a frame may do to the state, whatever it is.
abbrev Harmless : IocrConfig → Shared → Shared → Type 0
Harmless c s s' =
    IsSound c s'.output_builder × ((s'.state ≡ s.state) ⊎ (s'.state ≡ recovered s.state))

process_frame-Harmless :
    {c : IocrConfig} (f : RtFrame) (now : ℕ) (s : Shared)
    → IsSound c s.output_builder
    → Yields (process_frame f now s) (Harmless c s)
process_frame-Harmless {c} f now s sound = elim (Bool-cases (frame_is_alive f)) [
  | inl alive ↦
      Yields-map (process_frame f now s) _ (Harmless c s) (λ s' k. (k.5, inr k.0))
        (process_frame_accepted f now s sound alive)
  | inr dead ↦
      Yields-map (process_frame f now s) _ (Harmless c s) (λ s' k. (rw k.3 sound, inl k.0))
        (process_frame_disowned f now s dead)
]

process_parsed-Harmless :
    {c : IocrConfig} (parsed : Option RtFrame) (now : ℕ) (s : Shared)
    → IsSound c s.output_builder
    → Yields (process_parsed parsed now s) (Harmless c s)
process_parsed-Harmless none now s sound = unfold process_parsed in (sound, inl refl)
process_parsed-Harmless {c} (some f) now s sound =
    unfold process_parsed in
    if-Yields (f.frame_id == s.input_iocr.frame_id) _ _ (Harmless c s)
      (λ _. process_frame-Harmless f now s sound) (λ _. (sound, inl refl))

-- No frame makes the receive path panic, and none changes the state but from FAULT to RUNNING: for any
-- bytes, `process_input_frame` returns a state with a sound builder.
pub process_input_frame-Yields :
    {c : IocrConfig} (d : Bytes) (now : ℕ) (s : Shared)
    → All IsByte d
    → IsSound c s.output_builder
    → Yields (process_input_frame d now s) (λ s'.
      IsSound c s'.output_builder × ((s'.state ≡ s.state) ⊎ (s'.state ≡ recovered s.state)))
process_input_frame-Yields {c} d now s all sound =
    unfold process_input_frame in
    if-Yields (ltb (length d) 18) _ _ (Harmless c s) (λ _. (sound, inl refl))
      (λ long. rw (slice_lem d 6 12 (omega arith) (ground arith)) (
        if-Yields (same_bytes (take (12 - 6) (drop 6 d)) s.dst_mac) _ _ (Harmless c s)
          (λ _.
            Yields-bind (parse_ethernet_frame d) (λ parsed. process_parsed parsed now s) _
              (Harmless c s) (parse_ethernet_frame-Yields d all)
              (λ parsed _. process_parsed-Harmless parsed now s sound))
          (λ _. (sound, inl refl))))

-- A frame from another station is left alone: if the bytes at its source address are not the device's
-- MAC address, nothing changes.
pub process_input_frame_foreign :
    (d : Bytes) (now : ℕ) (s : Shared)
    → take 6 (drop 6 d) ≢ s.dst_mac
    → process_input_frame d now s ≡ ok s
process_input_frame_foreign d now s ne =
    unfold process_input_frame in
    elim (Bool-cases (ltb (length d) 18)) [
      | inl short ↦ rw short
      | inr long ↦ rw (long, slice_lem d 6 12 (omega arith) (ground arith), other) refl
    ]
  where
    other : same_bytes (take (12 - 6) (drop 6 d)) s.dst_mac ≡ false
    other = elim (Bool-cases (same_bytes (take 6 (drop 6 d)) s.dst_mac)) [
      | inl same ↦ absurd (ne (same_bytes_sound (take 6 (drop 6 d)) s.dst_mac same))
      | inr differ ↦ differ
    ]

length-build_ethernet_frame :
    (dst src : Bytes) (f : RtFrame)
    → length dst ≡ 6
    → length src ≡ 6
    → 18 ≤ length (build_ethernet_frame dst src f)
length-build_ethernet_frame dst src f p q =
    let rest = vlan_tag_rt ++ (be16 ethertype_profinet ++ to_bytes f) in
    unfold build_ethernet_frame in
    omega (arith, length-append dst (src ++ rest), length-append src rest, length-to_bytes f)

-- The source address of a frame is its bytes 6 to 12.
build_ethernet_frame_source :
    (dst src : Bytes) (f : RtFrame)
    → length dst ≡ 6
    → length src ≡ 6
    → slice (build_ethernet_frame dst src f) 6 12 ≡ ok src
build_ethernet_frame_source dst src f p q =
    unfold build_ethernet_frame in slice-append dst src _ 6 12 (omega arith) (omega arith)

-- A frame that the device sends to the controller with the frame ID of the input IOCR is processed as
-- the RT frame that it carries; with another frame ID it is left alone.
pub process_input_frame-build_ethernet_frame :
    (f : RtFrame) (now : ℕ) (s : Shared)
    → length s.src_mac ≡ 6
    → length s.dst_mac ≡ 6
    → IsWireFrame f
    → process_input_frame (build_ethernet_frame s.src_mac s.dst_mac f) now s
      ≡ (if f.frame_id == s.input_iocr.frame_id then process_frame f now s else ok s)
process_input_frame-build_ethernet_frame f now s p q w =
    let d = build_ethernet_frame s.src_mac s.dst_mac f in
    let long = length-build_ethernet_frame s.src_mac s.dst_mac f p q in
    unfold process_input_frame process_parsed in
    ground (
      arith,
      long,
      build_ethernet_frame_source s.src_mac s.dst_mac f p q,
      same_bytes_self s.dst_mac,
      parse_ethernet_frame-build_ethernet_frame s.src_mac s.dst_mac f p q w,
    )
