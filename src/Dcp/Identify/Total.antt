-- ===== src/Dcp/Identify/Total.antt =====
-- src/dcp.rs, `parse_identify_response`: it comes back on every frame.
use profinet_rs.Prelude.{
  ℕ, zero, suc, ◌+◌, ◌-◌, ◌<◌, ◌≤◌, ◌≡◌, ◌⊎◌, inl, inr, refl, ◌∙◌, arith, min, Bool, true, false,
  ◌&&◌, ◌||◌, ◌==◌, ltb, leb, if◌then◌else◌, Yields-bind, Yields-map, if-Yields, length, take, drop,
  Bytes, at, at16, byte_at_lem, u16_at_lem, slice_lem, Exec, ok, err, panic, stuck, ◌>>=◌, Returns,
  Yields, Error, dcp_too_short, not_dcp_response, not_identify_response, ethernet_too_short,
}
use profinet_rs.Util.Vlan.{strip_eth-Returns}
use profinet_rs.Dcp.Request.{dcp_identify_response_frame_id}
use profinet_rs.Dcp.Response.{dcp_payload, even_up}
use profinet_rs.Dcp.Response.Total.{rest_shorter}
use profinet_rs.Dcp.Identify.{
  DcpDevice, new_device, apply_block, identify_blocks, identify_payload, parse_identify_response,
}

-- No block changes the MAC address.
apply_block-Yields :
    (option suboption : ℕ) (blocks block_payload : Bytes) (device : DcpDevice)
    → 6 ≤ length blocks
    → Yields (apply_block option suboption blocks block_payload device) (λ d. d.mac ≡ device.mac)
unfolding apply_block
apply_block-Yields option suboption blocks block_payload device long =
    if-Yields (option == 2 && suboption == 1) _ _ _ (λ _. refl)
      (λ _.
        if-Yields (option == 2 && suboption == 2) _ _ _ (λ _. refl)
          (λ _.
            if-Yields (option == 1 && suboption == 2 && leb 12 (length block_payload)) _ _ _
              (λ ip.
                let n : 12 ≤ length block_payload = ground arith in
                rw
                  (
                    u16_at_lem blocks 4 long,
                    slice_lem block_payload 0 4 (omega arith) (omega arith),
                    slice_lem block_payload 4 8 (omega arith) (omega arith),
                    slice_lem block_payload 8 12 (omega arith) n,
                  )
                  refl)
              (λ _.
                if-Yields (option == 2 && suboption == 3 && leb 4 (length block_payload)) _ _ _
                  (λ id.
                    let n : 4 ≤ length block_payload = ground arith in
                    rw (u16_at_lem block_payload 0 (omega arith), u16_at_lem block_payload 2 n)
                      refl)
                  (λ _.
                    if-Yields (option == 2 && suboption == 4 && ltb 0 (length block_payload)) _ _ _
                      (λ role.
                        let n : 0 < length block_payload = ground arith in
                        rw (byte_at_lem block_payload 0 n) refl)
                      (λ _. refl)))))

identify_blocks-Yields :
    (fuel : ℕ) (blocks : Bytes) (len : ℕ) (device : DcpDevice)
    → length blocks < fuel
    → Yields (identify_blocks fuel blocks len device) (λ d. d.mac ≡ device.mac)
unfolding identify_blocks
identify_blocks-Yields zero blocks len device h = absurd (omega arith)
identify_blocks-Yields (suc fuel) blocks len device h =
    if-Yields (leb len 6 || ltb (length blocks) 6) _ _ _ (λ _. refl)
      (λ more.
        let n = even_up (at16 blocks 2) in
        let long : 6 ≤ length blocks = ground arith in
        let body = take (min (6 + (at16 blocks 2 - 2)) (length blocks) - 6) (drop 6 blocks) in
        let same_mac = λ (d : DcpDevice). d.mac ≡ device.mac in
        rw
          (
            byte_at_lem blocks 0 (omega arith),
            byte_at_lem blocks 1 (omega arith),
            u16_at_lem blocks 2 (omega arith),
            slice_lem blocks 6 (min (6 + (at16 blocks 2 - 2)) (length blocks)) (omega arith)
                (omega arith),
          )
          (Yields-bind (apply_block (at blocks 0) (at blocks 1) blocks body device) _ same_mac
            same_mac (apply_block-Yields (at blocks 0) (at blocks 1) blocks body device long)
            (λ next k.
              rw
                (slice_lem blocks (min (4 + n) (length blocks)) (length blocks) (omega arith)
                  (omega arith))
                (Yields-map (identify_blocks fuel _ _ next) _ _ (λ d m. m ∙ k)
                  (identify_blocks-Yields fuel _ _ next
                    (rest_shorter blocks n fuel (omega arith) h))))))

-- A call gives an error, or a device with this MAC address.
abbrev pub GivesDevice : Exec DcpDevice → Bytes → Type 0
GivesDevice m mac = ((e : Error) × (m ≡ err e)) ⊎ Yields m (λ d. d.mac ≡ mac)

if-GivesDevice :
    (t : Bool) (m n : Exec DcpDevice) (mac : Bytes)
    → (t ≡ true → GivesDevice m mac)
    → (t ≡ false → GivesDevice n mac)
    → GivesDevice (if t then m else n) mac
if-GivesDevice true m n mac h k = h refl
if-GivesDevice false m n mac h k = k refl

identify_payload-GivesDevice :
    (src payload : Bytes) → GivesDevice (identify_payload src payload) src
unfolding identify_payload
identify_payload-GivesDevice src payload =
    if-GivesDevice (ltb (length payload) 12) _ _ src
      (λ _. inl (dcp_too_short (length payload), refl))
      (λ long.
        let n : 12 ≤ length payload = ground arith in
        let blocks = take (length payload - 12) (drop 12 payload) in
        rw
          (
            u16_at_lem payload 0 (omega arith),
            byte_at_lem payload 3 (omega arith),
            u16_at_lem payload 10 n,
            slice_lem payload 12 (length payload) n (omega arith),
          )
          (if-GivesDevice (at16 payload 0 == dcp_identify_response_frame_id) _ _ src
            (λ _.
              if-GivesDevice (at payload 3 == 1) _ _ src
                (λ _. inr (
                  identify_blocks-Yields (suc (length blocks)) blocks (at16 payload 10)
                    (new_device src) (omega arith)))
                (λ _. inl (not_dcp_response (at payload 3), refl)))
            (λ _. inl (not_identify_response (at16 payload 0), refl))))

after_payload :
    (m : Exec Bytes) (src : Bytes) → Returns m → GivesDevice (m >>= identify_payload src) src
after_payload (ok payload) src h = identify_payload-GivesDevice src payload
after_payload (err e) src h = inl (e, refl)
after_payload panic src h = absurd h
after_payload stuck src h = absurd h

-- Every frame gives an error or a device whose MAC address is the frame's source address: no length in
-- the frame makes the parser read out of range, its loop over the blocks ends, and no block changes the address.
pub parse_identify_response-GivesDevice :
    (frame : Bytes) → GivesDevice (parse_identify_response frame) (take 6 (drop 6 frame))
unfolding parse_identify_response dcp_payload
parse_identify_response-GivesDevice frame =
    if-GivesDevice (ltb (length frame) 14) _ _ _
      (λ _. inl (ethernet_too_short (length frame), refl))
      (λ long.
        rw (slice_lem frame 6 12 (omega arith) (ground arith))
          (after_payload (dcp_payload frame) (take 6 (drop 6 frame)) (strip_eth-Returns frame _)))
