-- ===== src/Transport/Blocks/Wire.antt =====
-- The blocks of a connect response as a device sends them, the entries of its `ModuleDiffBlock` in a tree.
use profinet_rs.Prelude.{
  ℕ, ◌≤◌, ◌≢◌, arith, ◌==◌, if◌then◌else◌, List, [], ◌∷◌, ◌++◌, map, All, length, Bytes, IsU16,
  IsU32, be16, be32,
}
use profinet_rs.Transport.Blocks.{SubmoduleDiff, iocr_block_res, module_diff_block}

-- Subslot, identity and state.
abbrev pub SubmoduleEntry : Type 0
SubmoduleEntry = ℕ × ℕ × ℕ

pub record ModuleEntry : Type 0 where
  pub slot : ℕ
  pub module_ident : ℕ
  pub module_state : ℕ
  pub submodules : List SubmoduleEntry

pub record ApiEntry : Type 0 where
  pub api : ℕ
  pub modules : List ModuleEntry

pub data ConnectBlock : Type 0 where
  iocr_res : ℕ → ℕ → ℕ → ConnectBlock
  module_diff : List ApiEntry → ConnectBlock
  other_block : ℕ → Bytes → ConnectBlock

abbrev pub entry_bytes : SubmoduleEntry → Bytes
entry_bytes e = be16 e.0 ++ (be32 e.1 ++ be16 e.2)

abbrev pub entries_bytes : List SubmoduleEntry → Bytes
entries_bytes [] = []
entries_bytes (e ∷ es) = entry_bytes e ++ entries_bytes es

abbrev pub module_bytes : ModuleEntry → Bytes
module_bytes m =
    be16 m.slot
    ++ (be32 m.module_ident
        ++ (be16 m.module_state ++ (be16 (length m.submodules) ++ entries_bytes m.submodules)))

abbrev pub modules_bytes : List ModuleEntry → Bytes
modules_bytes [] = []
modules_bytes (m ∷ ms) = module_bytes m ++ modules_bytes ms

abbrev pub api_bytes : ApiEntry → Bytes
api_bytes a = be32 a.api ++ (be16 (length a.modules) ++ modules_bytes a.modules)

abbrev pub apis_bytes : List ApiEntry → Bytes
apis_bytes [] = []
apis_bytes (a ∷ apis) = api_bytes a ++ apis_bytes apis

abbrev pub block_type_of : ConnectBlock → ℕ
block_type_of (iocr_res iocr_type reference frame_id) = iocr_block_res
block_type_of (module_diff apis) = module_diff_block
block_type_of (other_block block_type body) = block_type

-- What the block's length counts, the version first.
abbrev pub body_of : ConnectBlock → Bytes
body_of (iocr_res iocr_type reference frame_id) =
    1 ∷ 0 ∷ (be16 iocr_type ++ (be16 reference ++ be16 frame_id))
body_of (module_diff apis) = 1 ∷ 0 ∷ (be16 (length apis) ++ apis_bytes apis)
body_of (other_block block_type body) = body

abbrev pub block_bytes : ConnectBlock → Bytes
block_bytes b = be16 (block_type_of b) ++ (be16 (length (body_of b)) ++ body_of b)

abbrev pub blocks_bytes : List ConnectBlock → Bytes
blocks_bytes [] = []
blocks_bytes (b ∷ bs) = block_bytes b ++ blocks_bytes bs

-- Fields and counts that fit their words.
abbrev pub IsWireEntry : SubmoduleEntry → Type 0
IsWireEntry e = IsU16 e.0 × IsU32 e.1 × IsU16 e.2

abbrev pub IsWireModule : ModuleEntry → Type 0
IsWireModule m = IsU16 m.slot × IsU16 (length m.submodules) × All IsWireEntry m.submodules

abbrev pub IsWireApi : ApiEntry → Type 0
IsWireApi a = IsU16 (length a.modules) × All IsWireModule a.modules

abbrev pub IsWireContent : ConnectBlock → Type 0
IsWireContent (iocr_res iocr_type reference frame_id) = IsU16 iocr_type × IsU16 frame_id
IsWireContent (module_diff apis) = IsU16 (length apis) × All IsWireApi apis
IsWireContent (other_block block_type body) =
    IsU16 block_type
    × (2 ≤ length body)
    × (block_type ≢ iocr_block_res)
    × (block_type ≢ module_diff_block)

abbrev pub IsWireBlock : ConnectBlock → Type 0
IsWireBlock b = IsU16 (length (body_of b)) × IsWireContent b

-- What the blocks say: every submodule of every module of every API, in order.
abbrev pub diff_of : ℕ → SubmoduleEntry → SubmoduleDiff
diff_of slot e = record { slot = slot; subslot = e.0; submodule_ident = e.1; state = e.2 }

abbrev pub module_diffs : List ModuleEntry → List SubmoduleDiff
module_diffs [] = []
module_diffs (m ∷ ms) = map (diff_of m.slot) m.submodules ++ module_diffs ms

abbrev pub api_diffs : List ApiEntry → List SubmoduleDiff
api_diffs [] = []
api_diffs (a ∷ apis) = module_diffs a.modules ++ api_diffs apis

abbrev pub content_diffs : ConnectBlock → List SubmoduleDiff
content_diffs (iocr_res iocr_type reference frame_id) = []
content_diffs (module_diff apis) = api_diffs apis
content_diffs (other_block block_type body) = []

abbrev pub block_diffs : List ConnectBlock → List SubmoduleDiff
block_diffs [] = []
block_diffs (b ∷ bs) = content_diffs b ++ block_diffs bs

-- The frame ID in the first answer for an IOCR of the type; zero where there is none.
abbrev pub first_frame_id : ℕ → List ConnectBlock → ℕ
first_frame_id wanted [] = 0
first_frame_id wanted (iocr_res iocr_type reference frame_id ∷ bs) =
    if iocr_type == wanted then frame_id else first_frame_id wanted bs
first_frame_id wanted (module_diff apis ∷ bs) = first_frame_id wanted bs
first_frame_id wanted (other_block block_type body ∷ bs) = first_frame_id wanted bs

pub body-long : (b : ConnectBlock) → IsWireBlock b → 2 ≤ length (body_of b)
body-long (iocr_res iocr_type reference frame_id) w = omega arith
body-long (module_diff apis) w = omega arith
body-long (other_block block_type body) w = w.1.1

pub type-IsU16 : (b : ConnectBlock) → IsWireBlock b → IsU16 (block_type_of b)
type-IsU16 (iocr_res iocr_type reference frame_id) w = omega arith
type-IsU16 (module_diff apis) w = omega arith
type-IsU16 (other_block block_type body) w = w.1.0
