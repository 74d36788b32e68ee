-- ===== src/Prelude/Errors.antt =====
-- The error texts. Every function modelled here returns `Result<_, String>`; a constructor stands
-- for a format string, its arguments for the values that the format prints.
use Prim.Native.Nat.{ℕ}
use mathlib.Core.Bool.{Bool}
use mathlib.Core.List.{List}

-- src/cyclic.rs, `CyclicState`: some messages print it.
pub data CyclicState : Type 0 where
  idle starting running stopping stopped fault : CyclicState

pub data Error : Type 0 where
  ethernet_too_short : ℕ → Error
  vlan_too_short : Error
  unexpected_ethertype : ℕ → Error
  unexpected_inner_ethertype : ℕ → Error
  rt_frame_too_short : ℕ → Error
  unknown_subslot : ℕ → ℕ → Error
  output_locked : CyclicState → Error
  cannot_start : CyclicState → Error
  cycle_too_short : ℕ → Error
  io_failed : Error
  dcp_too_short : ℕ → Error
  set_unsupported : Error
  not_dcp_response : ℕ → Error
  not_identify_response : ℕ → Error
  alarm_too_short : Error
  usi_too_short : Error
  diagnosis_truncated : Error
  ext_diagnosis_truncated : Error
  qualified_diagnosis_truncated : Error
  maintenance_truncated : Error
  upload_retrieval_truncated : Error
  pe_alarm_truncated : Error
  rs_alarm_truncated : Error
  pral_alarm_truncated : Error
  rta_too_short : Error
  only_layer2 : Error
  rpc_too_short : ℕ → Error
  rpc_fault : ℕ → Error
  rpc_rejected : Error
  unexpected_packet : ℕ → Error
  nrd_too_short : ℕ → Error
  iod_too_short : ℕ → Error
  pnio_status : ℕ → Error
  connect_rejected : ℕ → Error
  submodules_withheld : List (ℕ × ℕ × ℕ × ℕ) → Bool → Error
  not_request : ℕ → Error
  not_control : ℕ → Error
  ccontrol_too_short : ℕ → Error
  not_connected : Error
  failed_to_connect : Error → Error
  prm_end_failed : Error → Error
  prm_begin_failed : Error → Error
  request_too_short : Error
