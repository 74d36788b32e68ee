-- ===== src/Transport/Blocks/Diff.antt =====
-- src/transport.rs, `parse_module_diff_block`: it lists every submodule that the blocks report.
use profinet_rs.Prelude.{
  ℕ, zero, suc, ◌+◌, ◌<◌, ◌≤◌, ◌≡◌, refl, sym, ap, ◌∙◌, arith, min, true, false, ◌==◌, ltb, leb,
  if◌then◌else◌, ap₂, List, [], ◌∷◌, ◌++◌, map, append_assoc, All, length, take, drop,
  length-append, Bytes, be16, be32, ok,
}
use profinet_rs.Transport.Words.{rd_u16-word16, rd_u32-word32, rd_u16-append, rd_u32-append}
use profinet_rs.Transport.Blocks.{
  module_diff_block, submodules_loop, modules_loop, apis_loop, diff_block, diff_loop,
  parse_module_diff_block,
}
use profinet_rs.Transport.Blocks.Wire.{
  SubmoduleEntry, ModuleEntry, ApiEntry, ConnectBlock, iocr_res, module_diff, other_block,
  entry_bytes, entries_bytes, module_bytes, modules_bytes, api_bytes, apis_bytes, block_type_of,
  body_of, block_bytes, blocks_bytes, IsWireEntry, IsWireModule, IsWireApi, IsWireBlock, diff_of,
  module_diffs, api_diffs, content_diffs, block_diffs,
}
use profinet_rs.Transport.Blocks.Reads.{block_at}

submodules_loop-entries :
    (es : List SubmoduleEntry) (front rest : Bytes) (end slot : ℕ)
    → All IsWireEntry es
    → length front + length (entries_bytes es) ≤ end
    → submodules_loop (length es) (front ++ (entries_bytes es ++ rest)) end slot (length front)
      ≡ ok (map (diff_of slot) es, length front + length (entries_bytes es))
unfolding submodules_loop
submodules_loop-entries [] front rest end slot w h = ap (λ p. ok ([], p)) (omega arith)
submodules_loop-entries (e ∷ es) front rest end slot w h =
    let more = entries_bytes es ++ rest in
    let d = front ++ (entry_bytes e ++ more) in
    let go : ltb end (length front + 8) ≡ false = ground arith in
    let tail : submodules_loop (length es) d end slot (length front + 8)
        ≡ ok (map (diff_of slot) es, length front + length (entries_bytes (e ∷ es))) =
      ap (λ b. submodules_loop (length es) b end slot (length front + 8))
        (sym (append_assoc front (entry_bytes e) more))
      ∙ ap (submodules_loop (length es) ((front ++ entry_bytes e) ++ more) end slot)
          (omega (arith, length-append front (entry_bytes e)))
      ∙ submodules_loop-entries es (front ++ entry_bytes e) rest end slot w.1
          (omega (arith, length-append front (entry_bytes e)))
      ∙ ap (λ p. ok (map (diff_of slot) es, p))
          (omega (arith, length-append front (entry_bytes e))) in
    rw
      (
        go,
        rd_u16-word16 front (be32 e.1 ++ (be16 e.2 ++ more)) (length front) e.0 false refl w.0.0,
        rd_u32-append front (entry_bytes e ++ more) (length front + 2) 2 false refl
            ∙ rd_u32-word32 (be16 e.0) (be16 e.2 ++ more) 2 e.1 false refl w.0.1,
        rd_u16-append front (entry_bytes e ++ more) (length front + 6) 6 false refl
            ∙ rd_u16-word16 (be16 e.0 ++ be32 e.1) more 6 e.2 false refl w.0.2,
        tail,
      )
      refl

modules_loop-modules :
    (ms : List ModuleEntry) (front rest : Bytes) (end : ℕ)
    → All IsWireModule ms
    → length front + length (modules_bytes ms) ≤ end
    → modules_loop (length ms) (front ++ (modules_bytes ms ++ rest)) end (length front)
      ≡ ok (module_diffs ms, length front + length (modules_bytes ms))
unfolding modules_loop
modules_loop-modules [] front rest end w h = ap (λ p. ok ([], p)) (omega arith)
modules_loop-modules (m ∷ ms) front rest end w h =
    let head =
      be16 m.slot ++ (be32 m.module_ident ++ (be16 m.module_state ++ be16 (length m.submodules))) in
    let entries = entries_bytes m.submodules in
    let more = modules_bytes ms ++ rest in
    let d = front ++ (head ++ (entries ++ more)) in
    let n = length-append {0} front head in
    let k = length-append {0} (front ++ head) entries in
    let total = length-append {0} entries (modules_bytes ms) in
    let shape : front ++ ((module_bytes m ++ modules_bytes ms) ++ rest) ≡ d =
      ap (λ b. front ++ (head ++ b)) (append_assoc entries (modules_bytes ms) rest) in
    let inner : d ≡ (front ++ head) ++ (entries ++ more) =
      sym (append_assoc front head (entries ++ more)) in
    let outer : d ≡ ((front ++ head) ++ entries) ++ more =
      inner ∙ sym (append_assoc (front ++ head) entries more) in
    let go : ltb end (length front + 10) ≡ false = ground arith in
    let subs : submodules_loop (length m.submodules) d end m.slot (length front + 10)
        ≡ ok (map (diff_of m.slot) m.submodules, length front + 10 + length entries) =
      ap₂ (λ b p. submodules_loop (length m.submodules) b end m.slot p) inner (omega arith)
      ∙ submodules_loop-entries m.submodules (front ++ head) more end m.slot w.0.2 (omega arith)
      ∙ ap (λ p. ok (map (diff_of m.slot) m.submodules, p)) (omega arith) in
    let tail : modules_loop (length ms) d end (length front + 10 + length entries)
        ≡ ok (module_diffs ms, length front + length (modules_bytes (m ∷ ms))) =
      ap₂ (λ b p. modules_loop (length ms) b end p) outer (omega arith)
      ∙ modules_loop-modules ms ((front ++ head) ++ entries) rest end w.1 (omega arith)
      ∙ ap (λ p. ok (module_diffs ms, p)) (omega arith) in
    rw
      (
        shape,
        go,
        rd_u16-word16 front (drop 2 head ++ (entries ++ more)) (length front) m.slot false refl
            w.0.0,
        rd_u16-append front (head ++ (entries ++ more)) (length front + 8) 8 false refl
            ∙ rd_u16-word16 (take 8 head) (entries ++ more) 8 (length m.submodules) false refl
                w.0.1,
        subs,
        tail,
      )
      refl

apis_loop-apis :
    (apis : List ApiEntry) (front rest : Bytes) (end : ℕ)
    → All IsWireApi apis
    → length front + length (apis_bytes apis) ≤ end
    → apis_loop (length apis) (front ++ (apis_bytes apis ++ rest)) end (length front)
      ≡ ok (api_diffs apis)
unfolding apis_loop
apis_loop-apis [] front rest end w h = refl
apis_loop-apis (a ∷ apis) front rest end w h =
    let head = be32 a.api ++ be16 (length a.modules) in
    let modules = modules_bytes a.modules in
    let more = apis_bytes apis ++ rest in
    let d = front ++ (head ++ (modules ++ more)) in
    let n = length-append {0} front head in
    let k = length-append {0} (front ++ head) modules in
    let total = length-append {0} modules (apis_bytes apis) in
    let shape : front ++ ((api_bytes a ++ apis_bytes apis) ++ rest) ≡ d =
      ap (λ b. front ++ (head ++ b)) (append_assoc modules (apis_bytes apis) rest) in
    let inner : d ≡ (front ++ head) ++ (modules ++ more) =
      sym (append_assoc front head (modules ++ more)) in
    let outer : d ≡ ((front ++ head) ++ modules) ++ more =
      inner ∙ sym (append_assoc (front ++ head) modules more) in
    let go : ltb end (length front + 6) ≡ false = ground arith in
    let mods : modules_loop (length a.modules) d end (length front + 6)
        ≡ ok (module_diffs a.modules, length front + 6 + length modules) =
      ap₂ (λ b p. modules_loop (length a.modules) b end p) inner (omega arith)
      ∙ modules_loop-modules a.modules (front ++ head) more end w.0.1 (omega arith)
      ∙ ap (λ p. ok (module_diffs a.modules, p)) (omega arith) in
    let tail : apis_loop (length apis) d end (length front + 6 + length modules)
        ≡ ok (api_diffs apis) =
      ap₂ (λ b p. apis_loop (length apis) b end p) outer (omega arith)
      ∙ apis_loop-apis apis ((front ++ head) ++ modules) rest end w.1 (omega arith) in
    rw
      (
        shape,
        go,
        rd_u16-append front (head ++ (modules ++ more)) (length front + 4) 4 false refl
            ∙ rd_u16-word16 (take 4 head) (modules ++ more) 4 (length a.modules) false refl w.0.0,
        mods,
        tail,
      )
      refl

diff_block-module_diff :
    (apis : List ApiEntry) (front rest : Bytes)
    → IsWireBlock (module_diff apis)
    → diff_block
        (front ++ (block_bytes (module_diff apis) ++ rest))
        (length front)
        (length (body_of (module_diff apis)))
      ≡ ok (api_diffs apis)
unfolding diff_block
diff_block-module_diff apis front rest w =
    let body = body_of (module_diff apis) in
    let head = be16 module_diff_block ++ (be16 (length body) ++ (1 ∷ 0 ∷ be16 (length apis))) in
    let d = front ++ (block_bytes (module_diff apis) ++ rest) in
    let at_block = block_at front (module_diff apis) rest w in
    let n = length-append {0} front head in
    let end : min (length front + 4 + length body) (length d) ≡ length front + 4 + length body =
      omega (arith, at_block.size) in
    let there : leb (length front + 6 + 2) (length front + 4 + length body) ≡ true = ground arith in
    rw
      (
        end,
        there,
        rd_u16-append front (block_bytes (module_diff apis) ++ rest) (length front + 6) 6 false refl
            ∙ rd_u16-word16 (take 6 head) (apis_bytes apis ++ rest) 6 (length apis) false refl
                w.1.0,
      )
      (ap₂ (λ b p. apis_loop (length apis) b (length front + 4 + length body) p)
          (sym (append_assoc front head (apis_bytes apis ++ rest))) (omega arith)
        ∙ apis_loop-apis apis (front ++ head) rest (length front + 4 + length body) w.1.1
            (omega arith))

-- What a block adds.
content :
    (b : ConnectBlock) (front rest : Bytes)
    → IsWireBlock b
    → (if block_type_of b == module_diff_block
        then diff_block (front ++ (block_bytes b ++ rest)) (length front) (length (body_of b))
        else ok [])
      ≡ ok (content_diffs b)
content (iocr_res t r f) front rest w = refl
content (module_diff apis) front rest w = diff_block-module_diff apis front rest w
content (other_block t body) front rest w =
    let other : (t == module_diff_block) ≡ false = ground (arith, w.1.3) in rw other refl

diff_loop-blocks :
    (fuel : ℕ) (front : Bytes) (bs : List ConnectBlock)
    → length (blocks_bytes bs) < fuel
    → All IsWireBlock bs
    → diff_loop fuel (front ++ blocks_bytes bs) (length front) ≡ ok (block_diffs bs)
unfolding diff_loop
diff_loop-blocks zero front bs h w = absurd (omega arith)
diff_loop-blocks (suc fuel) front [] h w =
    let done : leb (length front + 6) (length (front ++ [])) ≡ false =
      ground (arith, length-append {0} front []) in
    rw done refl
diff_loop-blocks (suc fuel) front (b ∷ bs) h w =
    let rest = blocks_bytes bs in
    let here = block_at front b rest w.0 in
    let short = length-append {0} (block_bytes b) rest in
    let tail : diff_loop fuel (front ++ (block_bytes b ++ rest))
          (length front + (4 + length (body_of b)))
        ≡ ok (block_diffs bs) =
      ap₂ (λ d p. diff_loop fuel d p) here.past (sym here.length_past)
      ∙ diff_loop-blocks fuel (front ++ block_bytes b) bs (omega arith) w.1 in
    rw (here.more, here.type_read, here.length_read, content b front rest w.0, tail) refl

-- In a response of whole blocks, the parser lists the submodules of every `ModuleDiffBlock`, of every API and module in it,
-- in order and each with its own slot, identity and state, and nothing else.
pub parse_module_diff_block-blocks_bytes :
    (bs : List ConnectBlock)
    → All IsWireBlock bs
    → parse_module_diff_block (blocks_bytes bs) ≡ ok (block_diffs bs)
unfolding parse_module_diff_block
parse_module_diff_block-blocks_bytes bs w =
    diff_loop-blocks (suc (length (blocks_bytes bs))) [] bs (omega arith) w
