-- ===== src/Cyclic/Calls/Invariant.antt =====
-- src/cyclic.rs: any sequence of calls returns, and keeps the controller well formed.
use profinet_rs.Prelude.{
  ℕ, ◌≤◌, ◌≡◌, inl, refl, arith, false, ltb, Yields-bind, List, [], ◌∷◌, All, length, Bytes, IsU16,
  ◌>>=◌, Yields,
}
use profinet_rs.Rt.Config.{IoSlot, IocrConfig, cycle_time_us, build_iocr_configs}
use profinet_rs.Rt.Config.Layout.{Laid, build_iocr_configs-Laid}
use mathlib.Core.Path.{subst}
use profinet_rs.Rt.Builder
use profinet_rs.Rt.Builder.{CyclicDataBuilder, find_object}
use profinet_rs.Rt.Builder.Inv.{IsSound, new-IsSound}
use profinet_rs.Rt.Builder.Swap.{set_all_iops-IsSound}
use profinet_rs.Cyclic.State
use profinet_rs.Cyclic.State.{
  Shared, CyclicStats, Event, ioxs_good, ioxs_bad, same_state, fire, transition, emit_error,
  communication_lost, rx_error, tx_error, timeout_event, safe_output_error,
}
use profinet_rs.Cyclic.Tx.{tx_pass}
use profinet_rs.Cyclic.Watchdog.{rx_pass}
use profinet_rs.Cyclic.Stop.{start, stop}
use profinet_rs.Cyclic.Calls.{
  Call, receive_call, transmit_call, write_call, image_call, start_call, stop_call, perform,
  perform_all,
}
use profinet_rs.Cyclic.Calls.Good.{Good}
use profinet_rs.Cyclic.Calls.Passes.{IsReceived, rx_pass-Good, tx_pass-Good, set_output_data-Good}
use profinet_rs.Cyclic.Calls.Stops.{stop-Good, start-Good, set_safe_output-Good}

-- The calls whose bytes from the network are bytes.
abbrev pub IsCall : Call → Type 0
IsCall (receive_call r watchdog now later) = IsReceived r
IsCall _ = Unit {0}

module _ {c : IocrConfig} where
  perform-Good :
      (call : Call) (s : Shared) → IsCall call → Good c s → Yields (perform s call) (Good c)
  unfolding perform
  perform-Good (receive_call r watchdog now later) s w g =
      Yields-bind (rx_pass r watchdog now later s) _ (λ p. Good c p.0) _
        (rx_pass-Good r watchdog now later s w g) (λ p k. k)
  perform-Good (transmit_call now sent pacer) s w g =
      Yields-bind (tx_pass now sent pacer s) _ (λ p. Good c p.2) _ (tx_pass-Good now sent pacer s g)
        (λ p k. k)
  perform-Good (write_call slot subslot d) s w g = set_output_data-Good slot subslot d s g
  perform-Good (image_call slot subslot d) s w g = set_safe_output-Good slot subslot d s g
  perform-Good (start_call res now) s w g =
      Yields-bind (start res now s) _ (λ p. Good c p.1) _ (start-Good res now s g) (λ p k. k)
  perform-Good (stop_call sock) s w g =
      Yields-bind (stop sock s) _ (λ p. Good c p.1) _ (stop-Good sock s g) (λ p k. k)

  perform_all-Good :
      (calls : List Call) (s : Shared)
      → All IsCall calls
      → Good c s
      → Yields (perform_all s calls) (Good c)
  unfolding perform_all
  perform_all-Good [] s w g = g
  perform_all-Good (call ∷ calls) s w g =
      Yields-bind (perform s call) _ (Good c) _ (perform-Good call s w.0 g)
        (λ t k. perform_all-Good calls t w.1 k)

new-Good :
    (src_mac dst_mac : Bytes) (input output : IocrConfig) (limit now : ℕ)
    → length src_mac ≡ 6
    → length dst_mac ≡ 6
    → IsU16 output.frame_id
    → Laid 0 output.objects output.data_length
    → 1000 ≤ cycle_time_us output
    → Yields (State.new src_mac dst_mac input output limit now) (Good output)
unfolding State.new
new-Good src_mac dst_mac input output limit now src dst id laid slow =
    let long_enough : ltb (cycle_time_us output) 1000 ≡ false = ground arith in
    rw long_enough (
      Yields-bind (Builder.set_all_iops (Builder.new output) ioxs_good) _ (IsSound output)
        (Good output) (set_all_iops-IsSound ioxs_good (new-IsSound output laid))
        (λ b k. record {
          sound = k;
          dst_fits = dst;
          src_fits = src;
          id_fits = id;
          remembered = inl (unfold same_state in refl);
        }))

-- A controller for any slots of a device, whose cycle takes a millisecond or more, can be called in any order: its
-- constructor succeeds, and after it no sequence of calls panics, whatever passes of the
-- receive and the transmit loop it holds, on any bytes and with any failures of the sockets and of the
-- threads' start, and whatever writes, safe images, starts and stops stand among them. It ends with a
-- sound builder for the output layout, and if it ends in FAULT, the fault is remembered.
pub perform_all-build_iocr_configs :
    (slots : List IoSlot) (in_id out_id scf rr wf : ℕ) (input output : IocrConfig)
    → (src_mac dst_mac : Bytes) (limit now : ℕ) (calls : List Call)
    → build_iocr_configs slots in_id out_id scf rr wf ≡ (input, output)
    → length src_mac ≡ 6
    → length dst_mac ≡ 6
    → IsU16 output.frame_id
    → 1000 ≤ cycle_time_us output
    → All IsCall calls
    → Yields
        (State.new src_mac dst_mac input output limit now >>= λ s. perform_all s calls)
        (Good output)
perform_all-build_iocr_configs slots in_id out_id scf rr wf input output src_mac dst_mac limit now
      calls built src dst id slow w =
    Yields-bind (State.new src_mac dst_mac input output limit now) (λ s. perform_all s calls)
      (Good output) (Good output)
      (new-Good src_mac dst_mac input output limit now src dst id
        (subst (λ (p : IocrConfig × IocrConfig). Laid 0 p.1.objects p.1.data_length) built
          (build_iocr_configs-Laid slots in_id out_id scf rr wf).1)
        slow)
      (λ s g. perform_all-Good calls s w g)
