-- ===== src/Transport/Blocks/Iocr.antt =====
-- src/transport.rs, `parse_iocr_block_res`: which frame ID it takes.
use profinet_rs.Prelude.{
  ℕ, zero, suc, ◌+◌, ◌<◌, ◌≡◌, inl, inr, refl, sym, ◌∙◌, arith, true, false, ◌&&◌, ◌==◌, leb,
  if◌then◌else◌, Bool-cases, ap₂, List, [], ◌∷◌, ◌++◌, All, length, take, drop, length-append,
  Bytes, Exec, ok, ◌>>=◌,
}
use profinet_rs.Transport.Words.{rd_u16, rd_u16-word16, rd_u16-append}
use profinet_rs.Transport.Blocks.{iocr_block_res, iocr_loop, parse_iocr_block_res}
use profinet_rs.Transport.Blocks.Wire.{
  ConnectBlock, iocr_res, module_diff, other_block, block_type_of, body_of, block_bytes,
  blocks_bytes, IsWireBlock, first_frame_id,
}
use profinet_rs.Transport.Blocks.Reads.{block_at}

-- The body of a round, for a block with `next` behind it.
round :
    (b : ConnectBlock) (front : Bytes) (bs : List ConnectBlock) (wanted : ℕ) (next : Exec ℕ)
    → IsWireBlock b
    → next ≡ ok (first_frame_id wanted bs)
    → let d = front ++ (block_bytes b ++ blocks_bytes bs) in
      (if (block_type_of b == iocr_block_res) && leb (length front + 12) (length d)
        then (rd_u16 d (length front + 6) false >>= λ t.
            if t == wanted then rd_u16 d (length front + 10) false else next)
        else next)
      ≡ ok (first_frame_id wanted (b ∷ bs))
round (iocr_res t r f) front bs wanted next w e =
    let b = iocr_res t r f in
    let rest = blocks_bytes bs in
    let here = block_at front b rest w in
    let there : leb (length front + 12) (length (front ++ (block_bytes b ++ rest))) ≡ true =
      ground (arith, here.size) in
    rw
      (
        there,
        rd_u16-append front (block_bytes b ++ rest) (length front + 6) 6 false refl
            ∙ rd_u16-word16 (take 6 (block_bytes b)) (drop 8 (block_bytes b) ++ rest) 6 t false refl
                w.1.0,
        rd_u16-append front (block_bytes b ++ rest) (length front + 10) 10 false refl
            ∙ rd_u16-word16 (take 10 (block_bytes b)) rest 10 f false refl w.1.1,
        e,
      )
      (elim (Bool-cases (t == wanted)) [ inl found ↦ rw found refl | inr other ↦ rw other refl ])
round (module_diff apis) front bs wanted next w e = e
round (other_block t body) front bs wanted next w e =
    let other : (t == iocr_block_res) ≡ false = ground (arith, w.1.2) in rw other e

iocr_loop-blocks :
    (fuel : ℕ) (front : Bytes) (bs : List ConnectBlock) (wanted : ℕ)
    → length (blocks_bytes bs) < fuel
    → All IsWireBlock bs
    → iocr_loop fuel (front ++ blocks_bytes bs) wanted (length front)
      ≡ ok (first_frame_id wanted bs)
unfolding iocr_loop
iocr_loop-blocks zero front bs wanted h w = absurd (omega arith)
iocr_loop-blocks (suc fuel) front [] wanted h w =
    let done : leb (length front + 6) (length (front ++ [])) ≡ false =
      ground (arith, length-append {0} front []) in
    rw done refl
iocr_loop-blocks (suc fuel) front (b ∷ bs) wanted h w =
    let rest = blocks_bytes bs in
    let here = block_at front b rest w.0 in
    let short = length-append {0} (block_bytes b) rest in
    let next =
      iocr_loop fuel (front ++ (block_bytes b ++ rest)) wanted
        (length front + (4 + length (body_of b))) in
    let tail : next ≡ ok (first_frame_id wanted bs) =
      ap₂ (λ d p. iocr_loop fuel d wanted p) here.past (sym here.length_past)
      ∙ iocr_loop-blocks fuel (front ++ block_bytes b) bs wanted (omega arith) w.1 in
    rw (here.more, here.type_read, here.length_read) (round b front bs wanted next w.0 tail)

-- In a response of whole blocks, the parser gives the frame ID of the first answer for an IOCR of the type, and zero
-- where there is none.
pub parse_iocr_block_res-blocks_bytes :
    (bs : List ConnectBlock) (wanted : ℕ)
    → All IsWireBlock bs
    → parse_iocr_block_res (blocks_bytes bs) wanted ≡ ok (first_frame_id wanted bs)
unfolding parse_iocr_block_res
parse_iocr_block_res-blocks_bytes bs wanted w =
    iocr_loop-blocks (suc (length (blocks_bytes bs))) [] bs wanted (omega arith) w
