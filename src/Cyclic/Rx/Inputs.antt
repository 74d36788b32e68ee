-- ===== src/Cyclic/Rx/Inputs.antt =====
-- src/cyclic.rs, `process_input_frame` and the getters: the input data behind an accepted frame.
use profinet_rs.Prelude.{
  ℕ, ◌≡◌, inl, inr, refl, sym, ◌∙◌, true, if◌then◌else◌, Bool-cases, Yields-bind, Yields-map,
  Option, none, some, Bytes, Yields, running, fault,
}
use mathlib.Core.Path.{subst}
use profinet_rs.Rt.Frame.{RtFrame}
use profinet_rs.Rt.Config.{IoDataObject, IocrConfig, cycle_time_us}
use profinet_rs.Rt.Builder
use profinet_rs.Rt.Builder.{find_object}
use profinet_rs.Rt.Builder.Inv.{IsSound}
use profinet_rs.Rt.Builder.Swap.{set_all_iocs-IsSound}
use profinet_rs.Cyclic.State.{Shared, InputEntry, data_state_good, is_good, ioxs_good, same_state}
use profinet_rs.Cyclic.State.Moves.{transition-Keeps}
use profinet_rs.Cyclic.Rx.{
  frame_is_alive, note_frame, track_from, track_cycle_counter, recover, note_and_track,
  extract_objects, accept_payload, finish_frame, process_frame, get_input_data,
  get_input_data_allow_bad, get_input_status,
}
use profinet_rs.Cyclic.Rx.Liveness.{process_frame_as}
use profinet_rs.Cyclic.Rx.Extracted.{AreDistinct, entry_of, IsInRange, extract_objects-present}

track_same :
    (last : Option ℕ) (rx : ℕ) (s : Shared)
    → ((track_from last rx s).input_iocr ≡ s.input_iocr)
      × ((track_from last rx s).output_builder ≡ s.output_builder)
unfolding track_from
track_same none rx s = (refl, refl)
track_same (some prev) rx s = (refl, refl)

recover_same :
    (s : Shared)
    → ((recover true s).input_iocr ≡ s.input_iocr)
      × ((recover true s).output_builder ≡ s.output_builder)
unfolding recover
recover_same s =
    let k = transition-Keeps running s in
    elim (Bool-cases (same_state s.state fault)) [
      | inl e ↦ rw e (k.input_same, k.builder_same)
      | inr e ↦ rw e (refl, refl)
    ]

-- The layout of the inputs and a sound builder are still there when the payload is read.
note_and_track_keeps :
    {c : IocrConfig} (f : RtFrame) (now : ℕ) (s : Shared)
    → IsSound c s.output_builder
    → ((note_and_track true f now s).input_iocr ≡ s.input_iocr)
      × IsSound c (note_and_track true f now s).output_builder
note_and_track_keeps f now s sound =
    let noted = record s { stats = note_frame true now (cycle_time_us s.input_iocr) s.stats } in
    let r = recover true noted in
    let a = recover_same noted in
    let b = track_same r.last_rx_cycle_counter f.cycle_counter r in
    unfold note_and_track track_cycle_counter in (b.0 ∙ a.0, rw (b.1, a.1) sound)

accept_payload-inputs :
    {c : IocrConfig} (payload : Bytes) (s : Shared) (slot subslot : ℕ) (o : IoDataObject)
    → IsSound c s.output_builder
    → find_object s.input_iocr.objects slot subslot ≡ some o
    → AreDistinct s.input_iocr.objects
    → IsInRange payload o
    → Yields (accept_payload payload s) (λ t. t.input_data slot subslot ≡ some (entry_of payload o))
unfolding accept_payload
accept_payload-inputs {c} payload s slot subslot o sound e distinct inside =
    Yields-bind (Builder.set_all_iocs s.output_builder ioxs_good) _ (IsSound c) _
      (set_all_iocs-IsSound ioxs_good sound)
      (λ b k.
        Yields-bind (extract_objects s.callbacks.on_input_data payload s.input_iocr.objects _) _ _ _
          (extract_objects-present s.callbacks.on_input_data payload s.input_iocr.objects _ slot
            subslot e distinct inside)
          (λ x m. m))

getters :
    (t : Shared) (slot subslot : ℕ) (entry : InputEntry)
    → t.input_data slot subslot ≡ some entry
    → (get_input_data slot subslot t
        ≡ (if data_state_good entry.iops then some entry.bytes else none))
      × (get_input_data_allow_bad slot subslot t ≡ some entry.bytes)
      × (get_input_status slot subslot t ≡ some entry.iops)
unfolding get_input_data get_input_data_allow_bad get_input_status is_good
getters t slot subslot entry e = (
  rw (e, get_input_data) refl,
  rw (e, get_input_data_allow_bad) refl,
  rw (e, get_input_status) refl,
)

-- Where no two objects of the input layout are for one submodule, the getters show after an accepted frame
-- what it carried for a submodule of the layout that lies inside its payload: the submodule's stretch of the payload, and the provider status behind it. Data
-- that the device disowns with a bad status are withheld by `get_input_data`, and by it only.
pub process_frame-inputs :
    {c : IocrConfig} (f : RtFrame) (now : ℕ) (s : Shared) (slot subslot : ℕ) {o : IoDataObject}
    → IsSound c s.output_builder
    → frame_is_alive f ≡ true
    → find_object s.input_iocr.objects slot subslot ≡ some o
    → AreDistinct s.input_iocr.objects
    → IsInRange f.payload o
    → let entry = entry_of f.payload o in
      Yields (process_frame f now s) (λ t.
        (get_input_data slot subslot t
          ≡ (if data_state_good entry.iops then some entry.bytes else none))
        × (get_input_data_allow_bad slot subslot t ≡ some entry.bytes)
        × (get_input_status slot subslot t ≡ some entry.iops))
process_frame-inputs {c} f now s slot subslot {o} sound alive e distinct inside =
    let t = note_and_track true f now s in
    let k = note_and_track_keeps f now s sound in
    rw (process_frame_as true f now s alive) (
      unfold finish_frame in
      Yields-map (accept_payload f.payload t) _ _
        (λ u m. getters u slot subslot (entry_of f.payload o) m)
        (accept_payload-inputs f.payload t slot subslot o k.1 (rw k.0 e)
          (subst (λ (i : IocrConfig). AreDistinct i.objects) (sym k.0) distinct) inside))
