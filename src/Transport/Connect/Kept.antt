-- ===== src/Transport/Connect/Kept.antt =====
-- src/transport.rs, `parse_connect_response`: the submodules that a device keeps back.
use profinet_rs.Prelude.{
  none, some, ℕ, ◌*◌, ◌/◌, ◌%◌, ◌<◌, ◌≤◌, ◌≡◌, ◌⊎◌, inl, inr, refl, sym, ◌∙◌, arith, true, false,
  ◌==◌, Bool-cases, All-append, List, [], ◌∷◌, map, All, IsU16, ◌↔◌, bit_and_low_4, bit_and_top,
}
use profinet_rs.Transport.Blocks.{
  SubmoduleDiff, has_fields, ident_info, ar_info, is_ours, is_locked,
}
use profinet_rs.Transport.Blocks.Wire.{
  ConnectBlock, IsWireBlock, block_diffs, SubmoduleEntry, ModuleEntry, ApiEntry, iocr_res,
  module_diff, other_block, IsWireEntry, IsWireModule, IsWireApi, diff_of, module_diffs, api_diffs,
  content_diffs,
}
use profinet_rs.Transport.Connect.{withheld, any_locked, is_empty}

-- The device reports a submodule as given to this AR: the word has the other format, or it says that the submodule is
-- owned, ready or not yet, and is the one that was asked for.
abbrev pub IsGiven : SubmoduleDiff → Type 0
IsGiven s = (s.state < 32768) ⊎ ((s.state / 128 % 16 ≤ 1) × (s.state / 2048 % 16 ≡ 0))

-- The device reports a submodule as held by another relationship: superordinated, a controller or a supervisor.
abbrev pub IsHeld : SubmoduleDiff → Type 0
IsHeld s = (32768 ≤ s.state) × (2 ≤ s.state / 128 % 16) × (s.state / 128 % 16 ≤ 4)

abbrev pub AnyHeld : List SubmoduleDiff → Type 0
AnyHeld [] = ⊥
AnyHeld (s ∷ ss) = IsHeld s ⊎ AnyHeld ss

-- `kept` are the submodules of the list that are not given, all of them, in order.
abbrev pub KeptBack : List SubmoduleDiff → List SubmoduleDiff → Type 0
KeptBack [] kept = kept ≡ []
KeptBack (s ∷ ss) kept =
    (IsGiven s × KeptBack ss kept)
    ⊎ ((¬ IsGiven s) × (rest : List SubmoduleDiff) × (kept ≡ s ∷ rest) × KeptBack ss rest)

-- The states in a response fit 16 bits.
pub HasWord : SubmoduleDiff → Type 0
HasWord s = IsU16 s.state

entries-HasWord :
    (slot : ℕ) (es : List SubmoduleEntry) → All IsWireEntry es → All HasWord (map (diff_of slot) es)
unfolding HasWord
entries-HasWord slot [] w = tt
entries-HasWord slot (e ∷ es) w = (w.0.2, entries-HasWord slot es w.1)

modules-HasWord : (ms : List ModuleEntry) → All IsWireModule ms → All HasWord (module_diffs ms)
modules-HasWord [] w = tt
modules-HasWord (m ∷ ms) w =
    All-append HasWord (map (diff_of m.slot) m.submodules) (module_diffs ms)
      (entries-HasWord m.slot m.submodules w.0.2) (modules-HasWord ms w.1)

apis-HasWord : (apis : List ApiEntry) → All IsWireApi apis → All HasWord (api_diffs apis)
apis-HasWord [] w = tt
apis-HasWord (a ∷ apis) w =
    All-append HasWord (module_diffs a.modules) (api_diffs apis) (modules-HasWord a.modules w.0.1)
      (apis-HasWord apis w.1)

content-HasWord : (b : ConnectBlock) → IsWireBlock b → All HasWord (content_diffs b)
content-HasWord (iocr_res t r f) w = tt
content-HasWord (module_diff apis) w = apis-HasWord apis w.1.1
content-HasWord (other_block t body) w = tt

pub blocks-HasWord : (bs : List ConnectBlock) → All IsWireBlock bs → All HasWord (block_diffs bs)
blocks-HasWord [] w = tt
blocks-HasWord (b ∷ bs) w =
    All-append HasWord (content_diffs b) (block_diffs bs) (content-HasWord b w.0)
      (blocks-HasWord bs w.1)

pub is_ours-IsGiven : (s : SubmoduleDiff) → HasWord s → (is_ours s ≡ true) ↔ IsGiven s
unfolding HasWord is_ours ar_info ident_info has_fields
is_ours-IsGiven s w =
    let top = bit_and_top s.state w in
    let ident = bit_and_low_4 (s.state / 2048) (omega arith) in
    let ar = bit_and_low_4 (s.state / 128) (omega arith) in
    rw (top, ident, ar)
      (elim (Bool-cases (s.state / 32768 * 32768 == 0)) [
        | inl other_format ↦ rw other_format ((λ _. inl (ground arith)), (λ _. refl))
        | inr fields ↦ rw fields (ground arith)
      ])

pub distinct : true ≡ false → ⊥
distinct e = cc

pub withheld-none :
    (ss : List SubmoduleDiff) → All HasWord ss → (is_empty (withheld ss) ≡ true) ↔ All IsGiven ss
unfolding withheld
withheld-none [] w = ((λ _. tt), (λ _. refl))
withheld-none (s ∷ ss) w =
    let here = is_ours-IsGiven s w.0 in
    let there = withheld-none ss w.1 in
    elim (Bool-cases (is_ours s)) [
      | inl given ↦ rw given ((λ e. (here.0 given, there.0 e)), (λ all. there.1 all.1))
      | inr kept ↦ rw kept ((λ e. cc), (λ all. absurd (distinct (sym (here.1 all.0) ∙ kept))))
    ]

pub withheld-KeptBack : (ss : List SubmoduleDiff) → All HasWord ss → KeptBack ss (withheld ss)
unfolding withheld
withheld-KeptBack [] w = refl
withheld-KeptBack (s ∷ ss) w =
    let here = is_ours-IsGiven s w.0 in
    elim (Bool-cases (is_ours s)) [
      | inl given ↦ rw given (inl (here.0 given, withheld-KeptBack ss w.1))
      | inr kept ↦ rw kept (
          inr
            ((λ g. distinct (sym (here.1 g) ∙ kept)), withheld ss, refl, withheld-KeptBack ss w.1))
    ]

pub withheld-HasWord : (ss : List SubmoduleDiff) → All HasWord ss → All HasWord (withheld ss)
unfolding withheld
withheld-HasWord [] w = tt
withheld-HasWord (s ∷ ss) w = elim (Bool-cases (is_ours s)) [
  | inl given ↦ rw given (withheld-HasWord ss w.1)
  | inr kept ↦ rw kept (w.0, withheld-HasWord ss w.1)
]

ar_info-cases :
    (s : SubmoduleDiff)
    → HasWord s
    → ((s.state < 32768) × (ar_info s ≡ none))
      ⊎ ((32768 ≤ s.state) × (ar_info s ≡ some (s.state / 128 % 16)))
unfolding HasWord ar_info has_fields
ar_info-cases s w =
    let top = bit_and_top s.state w in
    let ar = bit_and_low_4 (s.state / 128) (omega arith) in
    rw (top, ar)
      (elim (Bool-cases (s.state / 32768 * 32768 == 0)) [
        | inl other_format ↦ rw other_format (inl (ground arith, refl))
        | inr fields ↦ rw fields (inr (ground arith, refl))
      ])

is_locked-IsHeld : (s : SubmoduleDiff) → HasWord s → (is_locked s ≡ true) ↔ IsHeld s
unfolding is_locked
is_locked-IsHeld s w = elim (ar_info-cases s w) [
  | inl (low, e) ↦ rw (e, is_locked) ((λ f. cc), (λ held. absurd (omega arith)))
  | inr (high, e) ↦ rw (e, is_locked) (ground arith)
]

pub any_locked-AnyHeld :
    (ss : List SubmoduleDiff) → All HasWord ss → (any_locked ss ≡ true) ↔ AnyHeld ss
unfolding any_locked
any_locked-AnyHeld [] w = ((λ e. cc), (λ held. absurd held))
any_locked-AnyHeld (s ∷ ss) w =
    let here = is_locked-IsHeld s w.0 in
    let there = any_locked-AnyHeld ss w.1 in
    elim (Bool-cases (is_locked s)) [
      | inl locked ↦ rw locked ((λ _. inl (here.0 locked)), (λ _. refl))
      | inr free ↦ rw free (
        (λ e. inr (there.0 e)),
        (λ any. elim any [
          | inl held ↦ absurd (distinct (sym (here.1 held) ∙ free))
          | inr held ↦ there.1 held
        ]),
      )
    ]
