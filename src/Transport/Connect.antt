-- ===== src/Transport/Connect.antt =====
-- src/transport.rs, `parse_connect_response`: whether a connect got what it asked for.
pub mod Kept
pub mod Outcome
use profinet_rs.Prelude.{
  ℕ, Bool, true, false, not, ◌||◌, ◌==◌, if◌then◌else◌, List, [], ◌∷◌, map, Bytes, Exec, ok, err,
  ◌>>=◌, ◌>>◌, connect_rejected, submodules_withheld,
}
use profinet_rs.Transport.Reply.{ParsedNrd, parse_nrd}
use profinet_rs.Transport.Blocks.{
  SubmoduleDiff, is_locked, is_ours, parse_iocr_block_res, parse_module_diff_block,
}

pub record ConnectResult : Type 0 where
  pub input_frame_id : ℕ
  pub output_frame_id : ℕ
  pub has_cyclic : Bool

-- `filter(|d| !d.is_ours())`
unfoldable pub withheld : List SubmoduleDiff → List SubmoduleDiff
withheld [] = []
withheld (s ∷ ss) = if is_ours s then withheld ss else s ∷ withheld ss

-- `any(|d| d.is_locked())`, which chooses the advice
unfoldable pub any_locked : List SubmoduleDiff → Bool
any_locked [] = false
any_locked (s ∷ ss) = is_locked s || any_locked ss

-- What the message prints of each; `reason` is a text for the state.
abbrev pub details : List SubmoduleDiff → List (ℕ × ℕ × ℕ × ℕ)
details = map (λ s. (s.slot, s.subslot, s.submodule_ident, s.state))

abbrev pub is_empty : List SubmoduleDiff → Bool
is_empty [] = true
is_empty (s ∷ ss) = false

unfoldable pub parse_connect_response : Bytes → Bool → Exec ConnectResult
unfolding withheld any_locked
parse_connect_response rpc_payload le = do
  nrd ← parse_nrd rpc_payload le
  if not (nrd.args_status == 0) then err (connect_rejected nrd.args_status) else (do
    diffs ← parse_module_diff_block nrd.payload
    let kept_back = withheld diffs
    if not (is_empty kept_back)
        then err (submodules_withheld (details kept_back) (any_locked kept_back))
        else (do
          input ← parse_iocr_block_res nrd.payload 1
          output ← parse_iocr_block_res nrd.payload 2
          ok (record {
            input_frame_id = input;
            output_frame_id = output;
            has_cyclic = not (input == 0) || not (output == 0);
          })))
