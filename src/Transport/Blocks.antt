-- ===== src/Transport/Blocks.antt =====
-- src/transport.rs: the blocks of a connect response, `IOCRBlockRes` and `ModuleDiffBlock`.
pub mod Wire
pub mod Reads
pub mod Diff
pub mod Iocr
use profinet_rs.Prelude.{
  ℕ, zero, suc, ◌+◌, ◌/◌, min, bit_and, Bool, true, false, not, ◌&&◌, ◌||◌, ◌==◌, ltb, leb,
  if◌then◌else◌, Option, none, some, List, [], ◌∷◌, ◌++◌, length, Bytes, Exec, ok, stuck, ◌>>=◌,
  ◌>>◌,
}
use profinet_rs.Transport.Words.{rd_u16, rd_u32}

abbrev pub iocr_block_res : ℕ
iocr_block_res = 0x8102

abbrev pub module_diff_block : ℕ
module_diff_block = 0x8104

abbrev pub ar_info_ok : ℕ
ar_info_ok = 0

abbrev pub ar_info_application_ready_pending : ℕ
ar_info_application_ready_pending = 1

abbrev pub ar_info_locked_superordinated : ℕ
ar_info_locked_superordinated = 2

abbrev pub ar_info_locked_by_ioc : ℕ
ar_info_locked_by_ioc = 3

abbrev pub ar_info_locked_by_ios : ℕ
ar_info_locked_by_ios = 4

abbrev pub ident_info_ok : ℕ
ident_info_ok = 0

abbrev pub ident_info_substitute : ℕ
ident_info_substitute = 1

abbrev pub ident_info_wrong : ℕ
ident_info_wrong = 2

abbrev pub ident_info_no_submodule : ℕ
ident_info_no_submodule = 3

abbrev pub submodule_state_has_fields : ℕ
submodule_state_has_fields = 0x8000

-- The `while` of `parse_iocr_block_res`.
unfoldable pub iocr_loop : ℕ → Bytes → ℕ → ℕ → Exec ℕ
iocr_loop zero d iocr_type offset = stuck
iocr_loop (suc fuel) d iocr_type offset =
    if leb (offset + 6) (length d)
    then (do
      block_type ← rd_u16 d offset false
      block_length ← rd_u16 d (offset + 2) false
      let next = iocr_loop fuel d iocr_type (offset + (4 + block_length))
      if block_type == iocr_block_res && leb (offset + 12) (length d)
          then (rd_u16 d (offset + 6) false >>= λ res_type.
              if res_type == iocr_type then rd_u16 d (offset + 10) false else next)
          else next)
    else ok 0

-- A round moves on by four bytes, so the length is fuel enough.
unfoldable pub parse_iocr_block_res : Bytes → ℕ → Exec ℕ
unfolding iocr_loop
parse_iocr_block_res d iocr_type = iocr_loop (suc (length d)) d iocr_type 0

pub record SubmoduleDiff : Type 0 where
  pub slot : ℕ
  pub subslot : ℕ
  pub submodule_ident : ℕ
  pub state : ℕ

unfoldable pub has_fields : SubmoduleDiff → Bool
has_fields s = not (bit_and s.state submodule_state_has_fields == 0)

-- `>> 11` and `>> 7` are divisions
unfoldable pub ident_info : SubmoduleDiff → Option ℕ
unfolding has_fields
ident_info s = if has_fields s then some (bit_and (s.state / 2048) 0xF) else none

unfoldable pub ar_info : SubmoduleDiff → Option ℕ
unfolding has_fields
ar_info s = if has_fields s then some (bit_and (s.state / 128) 0xF) else none

unfoldable pub is_locked : SubmoduleDiff → Bool
unfolding ar_info
is_locked s = elim (ar_info s) [
  | none ↦ false
  | some info ↦
      (info == ar_info_locked_superordinated)
      || ((info == ar_info_locked_by_ioc) || (info == ar_info_locked_by_ios))
]

-- The `match` of `is_ours`.
abbrev pub ours : Option ℕ → Option ℕ → Bool
ours (some ar) (some ident) =
    ((ar == ar_info_ok) || (ar == ar_info_application_ready_pending)) && (ident == ident_info_ok)
ours (some ar) none = true
ours none ident = true

unfoldable pub is_ours : SubmoduleDiff → Bool
unfolding ar_info ident_info
is_ours s = ours (ar_info s) (ident_info s)

-- `for _ in 0..submodules`: what it pushes, and where it stops.
unfoldable pub submodules_loop : ℕ → Bytes → ℕ → ℕ → ℕ → Exec (List SubmoduleDiff × ℕ)
submodules_loop zero d end slot p = ok ([], p)
submodules_loop (suc n) d end slot p = if ltb end (p + 8) then ok ([], p) else (do
  subslot ← rd_u16 d p false
  ident ← rd_u32 d (p + 2) false
  state ← rd_u16 d (p + 6) false
  (found, q) ← submodules_loop n d end slot (p + 8)
  ok (record { slot = slot; subslot = subslot; submodule_ident = ident; state = state } ∷ found, q))

-- `for _ in 0..modules`
unfoldable pub modules_loop : ℕ → Bytes → ℕ → ℕ → Exec (List SubmoduleDiff × ℕ)
unfolding submodules_loop
modules_loop zero d end p = ok ([], p)
modules_loop (suc n) d end p = if ltb end (p + 10) then ok ([], p) else (do
  slot ← rd_u16 d p false
  submodules ← rd_u16 d (p + 8) false
  (found, q) ← submodules_loop submodules d end slot (p + 10)
  (more, r) ← modules_loop n d end q
  ok (found ++ more, r))

-- `for _ in 0..apis`
unfoldable pub apis_loop : ℕ → Bytes → ℕ → ℕ → Exec (List SubmoduleDiff)
unfolding modules_loop
apis_loop zero d end p = ok []
apis_loop (suc n) d end p = if ltb end (p + 6) then ok [] else (do
  modules ← rd_u16 d (p + 4) false
  (found, q) ← modules_loop modules d end (p + 6)
  more ← apis_loop n d end q
  ok (found ++ more))

-- The block at `offset`, as far as its own length and the response reach.
unfoldable pub diff_block : Bytes → ℕ → ℕ → Exec (List SubmoduleDiff)
unfolding apis_loop
diff_block d offset block_length =
    let end = min (offset + 4 + block_length) (length d) in
    if leb (offset + 6 + 2) end
    then (rd_u16 d (offset + 6) false >>= λ apis. apis_loop apis d end (offset + 6 + 2))
    else ok []

-- The `while` of `parse_module_diff_block`.
unfoldable pub diff_loop : ℕ → Bytes → ℕ → Exec (List SubmoduleDiff)
unfolding diff_block
diff_loop zero d offset = stuck
diff_loop (suc fuel) d offset =
    if leb (offset + 6) (length d)
    then (do
      block_type ← rd_u16 d offset false
      block_length ← rd_u16 d (offset + 2) false
      found ← (if block_type == module_diff_block then diff_block d offset block_length else ok [])
      more ← diff_loop fuel d (offset + (4 + block_length))
      ok (found ++ more))
    else ok []

unfoldable pub parse_module_diff_block : Bytes → Exec (List SubmoduleDiff)
unfolding diff_loop
parse_module_diff_block d = diff_loop (suc (length d)) d 0
