-- ===== src/Transport/Blocks/Reads.antt =====
-- src/transport.rs: a block in the middle of a connect response.
use profinet_rs.Prelude.{
  ◌+◌, ◌≡◌, refl, sym, ◌∙◌, arith, true, false, leb, ◌++◌, append_assoc, length, length-append,
  Bytes, be16, ok,
}
use profinet_rs.Transport.Words.{rd_u16, rd_u16-word16, rd_u16-append}
use profinet_rs.Transport.Blocks.Wire.{
  ConnectBlock, block_type_of, body_of, block_bytes, IsWireBlock, body-long, type-IsU16,
}

-- The block at the end of `front`, with `rest` behind it.
pub record BlockAt (front : Bytes) (b : ConnectBlock) (rest : Bytes) : Type 0 where
  pub type_read :
      rd_u16 (front ++ (block_bytes b ++ rest)) (length front) false ≡ ok (block_type_of b)
  pub length_read :
      rd_u16 (front ++ (block_bytes b ++ rest)) (length front + 2) false ≡ ok (length (body_of b))
  pub more : leb (length front + 6) (length (front ++ (block_bytes b ++ rest))) ≡ true
  pub past : front ++ (block_bytes b ++ rest) ≡ (front ++ block_bytes b) ++ rest
  pub length_past : length (front ++ block_bytes b) ≡ length front + (4 + length (body_of b))
  pub size :
      length (front ++ (block_bytes b ++ rest))
      ≡ length front + (4 + length (body_of b) + length rest)

pub block_at :
    (front : Bytes) (b : ConnectBlock) (rest : Bytes) → IsWireBlock b → BlockAt front b rest
block_at front b rest w =
    let t = block_type_of b in
    let body = body_of b in
    let block = block_bytes b in
    let long = body-long b w in
    let size : length (front ++ (block ++ rest)) ≡ length front + (4 + length body + length rest) =
      omega (arith, length-append {0} front (block ++ rest), length-append {0} block rest) in
    record {
      type_read =
          rd_u16-word16 front (be16 (length body) ++ (body ++ rest)) (length front) t false refl
            (type-IsU16 b w);
      length_read =
          rd_u16-append front (block ++ rest) (length front + 2) 2 false refl
          ∙ rd_u16-word16 (be16 t) (body ++ rest) 2 (length body) false refl w.0;
      more = ground arith;
      past = sym (append_assoc front block rest);
      length_past = omega (arith, length-append front block);
      size = size;
    }
