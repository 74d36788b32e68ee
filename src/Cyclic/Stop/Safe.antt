-- ===== src/Cyclic/Stop/Safe.antt =====
-- src/cyclic.rs, `stop`: what the device sees last.
use profinet_rs.Prelude.{
  ℕ, ◌≤◌, ◌≡◌, refl, sym, ap, ◌∙◌, arith, Bool, true, false, if◌then◌else◌, Yields-bind, Yields-map,
  if-Yields, Option, none, some, List, [], All, length, Bytes, ok, Yields, CyclicState, stopping,
  stopped,
}
use mathlib.Core.Path.{subst}
use profinet_rs.Rt.Config.{IocrConfig}
use profinet_rs.Rt.Builder
use profinet_rs.Rt.Builder.{CyclicDataBuilder, find_object}
use profinet_rs.Rt.Builder.Inv.{IsSound}
use profinet_rs.Rt.Builder.Status.{get_data_same}
use profinet_rs.Cyclic.State.{Shared}
use profinet_rs.Cyclic.State.Moves.{transition-Keeps, transition-state}
use profinet_rs.Cyclic.Tx.Frames.{IsAddressed}
use profinet_rs.Cyclic.Stop.{stop_frame_count, stop_frames, apply_safe_output, halt, halting, stop}
use profinet_rs.Cyclic.Stop.Frames.{IsStopFrame, Sent, stop_frames-Sent}
use profinet_rs.Cyclic.Stop.Image.{IsImage, Applied, apply_safe_output-Applied}

-- The part behind the join, from a state that is Stopping.
record Joined (c : IocrConfig) (s : Shared) (r : List Bytes × Shared) : Type 0 where
  frames : All (IsStopFrame s.output_iocr.frame_id r.1.output_builder.write_buffer) r.0
  at_most : length r.0 ≤ stop_frame_count
  sound : IsSound c r.1.output_builder
  buffer : r.1.output_builder.write_buffer ≡ s.output_builder.write_buffer
  stopped_now : r.1.state ≡ stopped
  flag_same : r.1.run_flag ≡ s.run_flag

halt-Joined :
    {c : IocrConfig} (sock : Option (List Bool)) (s : Shared)
    → IsAddressed s
    → IsSound c s.output_builder
    → Yields (halt sock s) (Joined c s)
unfolding halt
halt-Joined none s a sound =
    let k = transition-Keeps stopped s in
    record {
      frames = tt;
      at_most = omega arith;
      sound = rw k.builder_same sound;
      buffer = ap (λ b. b.write_buffer) k.builder_same;
      stopped_now = transition-state stopped s;
      flag_same = k.flag_same;
    }
halt-Joined {c} (some sends) s a sound =
    Yields-bind (stop_frames stop_frame_count sends s) _ (Sent c s stop_frame_count) (Joined c s)
      (stop_frames-Sent stop_frame_count sends s a sound)
      (λ r m.
        let k = transition-Keeps stopped r.1 in
        let same = ap (λ b. b.write_buffer) k.builder_same ∙ m.buffer in
        record {
          frames =
              subst (λ image. All (IsStopFrame s.output_iocr.frame_id image) r.0) (sym same)
                m.carries;
          at_most = m.at_most;
          sound = rw k.builder_same m.sound;
          buffer = same;
          stopped_now = transition-state stopped r.1;
          flag_same = k.flag_same ∙ m.flag_same;
        })

-- What the joined thread does for a running controller, and the end of `stop`.
pub record Halted (c : IocrConfig) (s : Shared) (r : List Bytes × Shared) : Type 0 where
  pub frames : All (IsStopFrame s.output_iocr.frame_id r.1.output_builder.write_buffer) r.0
  pub at_most : length r.0 ≤ stop_frame_count
  pub sound : IsSound c r.1.output_builder
  pub image :
      (slot subslot : ℕ) (d : Bytes)
      → IsImage c s slot subslot d
      → Builder.get_data r.1.output_builder slot subslot ≡ ok d
  pub stopped_now : s.run_flag ≡ true → r.1.state ≡ stopped
  pub silent : s.run_flag ≡ false → (r.0 ≡ []) × (r.1.state ≡ s.state)
  pub flag_cleared : r.1.run_flag ≡ false

halting-Keeps :
    (s : Shared)
    → ((halting s).output_builder ≡ s.output_builder)
      × ((halting s).output_iocr ≡ s.output_iocr)
      × ((halting s).dst_mac ≡ s.dst_mac)
      × ((halting s).src_mac ≡ s.src_mac)
      × ((halting s).run_flag ≡ false)
unfolding halting
halting-Keeps s =
    let k = transition-Keeps stopping s in
    (k.builder_same, k.output_same, k.dst_same, k.src_same, refl)

running-Halted :
    {c : IocrConfig} (s safe : Shared) (r : List Bytes × Shared)
    → Applied c s safe
    → safe.run_flag ≡ true
    → Joined c (halting safe) r
    → Halted c s r
running-Halted s safe r k on j =
    let h = halting-Keeps safe in
    let id = ap (λ o. o.frame_id) h.1 ∙ k.id_same in
    record {
      frames = subst (λ i. All (IsStopFrame i r.1.output_builder.write_buffer) r.0) id j.frames;
      at_most = j.at_most;
      sound = j.sound;
      image = λ slot subslot d i.
          get_data_same safe.output_builder r.1.output_builder slot subslot
            (j.sound.config_same ∙ sym k.sound.config_same)
            (j.buffer ∙ ap (λ b. b.write_buffer) h.0)
          ∙ k.image slot subslot d i;
      stopped_now = λ _. j.stopped_now;
      silent = λ off. absurd (let flag = k.flag_same in cc);
      flag_cleared = j.flag_same ∙ h.4;
    }

halting-IsAddressed : (s : Shared) → IsAddressed s → IsAddressed (halting s)
halting-IsAddressed s a =
    let h = halting-Keeps s in
    record {
      dst_fits = ap length h.2 ∙ a.dst_fits;
      src_fits = ap length h.3 ∙ a.src_fits;
      id_fits = rw h.1 a.id_fits;
    }

stop-Halted :
    {c : IocrConfig} (sock : Option (List Bool)) (s : Shared)
    → IsAddressed s
    → IsSound c s.output_builder
    → Yields (stop sock s) (Halted c s)
unfolding stop
stop-Halted {c} sock s a sound =
    Yields-bind (apply_safe_output s) _ (Applied c s) (Halted c s)
      (apply_safe_output-Applied s a sound)
      (λ safe k.
        if-Yields safe.run_flag (halt sock (halting safe)) _ (Halted c s)
          (λ on.
            Yields-map (halt sock (halting safe)) (Joined c (halting safe)) (Halted c s)
              (λ r j. running-Halted s safe r k on j)
              (halt-Joined sock (halting safe) (halting-IsAddressed safe k.addressed)
                (rw (halting-Keeps safe).0 k.sound)))
          (λ off. record {
            frames = tt;
            at_most = omega arith;
            sound = k.sound;
            image = k.image;
            stopped_now = λ h. cc;
            silent = λ _. (refl, k.state_same);
            flag_cleared = off;
          }))

by_flag_count :
    (flag : Bool) (n : ℕ)
    → n ≤ stop_frame_count
    → (flag ≡ false → n ≡ 0)
    → n ≤ (if flag then stop_frame_count else 0)
by_flag_count true n h k = h
by_flag_count false n h k = omega (arith, k refl)

by_flag_state :
    (flag : Bool) (now old : CyclicState)
    → (flag ≡ true → now ≡ stopped)
    → (flag ≡ false → now ≡ old)
    → now ≡ (if flag then stopped else old)
by_flag_state true now old h k = h refl
by_flag_state false now old h k = k refl

-- `stop`, whatever the sockets do and whether or not a thread was there to hand one back: it returns; it
-- sends at most three frames, none if the controller was not running, and each parses back to a frame of
-- the output IOCR with the stop status and the bytes that stay in the write buffer. A controller
-- that was running ends in Stopped, another keeps its state, and the run flag is off.
pub stop_lem :
    {c : IocrConfig} (sock : Option (List Bool)) (s : Shared)
    → IsAddressed s
    → IsSound c s.output_builder
    → Yields (stop sock s) (λ r.
      All (IsStopFrame s.output_iocr.frame_id r.1.output_builder.write_buffer) r.0
      × (length r.0 ≤ (if s.run_flag then stop_frame_count else 0))
      × (r.1.state ≡ (if s.run_flag then stopped else s.state))
      × (r.1.run_flag ≡ false)
      × IsSound c r.1.output_builder)
stop_lem {c} sock s a sound =
    Yields-map (stop sock s) (Halted c s) _
      (λ r h. (
        h.frames,
        by_flag_count s.run_flag (length r.0) h.at_most (λ off. ap length (h.silent off).0),
        by_flag_state s.run_flag r.1.state s.state h.stopped_now (λ off. (h.silent off).1),
        h.flag_cleared,
        h.sound,
      ))
      (stop-Halted sock s a sound)

-- With a safe image registered for a submodule of the output layout, in the submodule's length, `stop`
-- leaves exactly that image as the submodule's data, which its stop frames carry.
pub stop-image :
    {c : IocrConfig} (sock : Option (List Bool)) (s : Shared) (slot subslot : ℕ) (d : Bytes)
    → IsAddressed s
    → IsSound c s.output_builder
    → IsImage c s slot subslot d
    → Yields (stop sock s) (λ r.
      (Builder.get_data r.1.output_builder slot subslot ≡ ok d)
      × All (IsStopFrame s.output_iocr.frame_id r.1.output_builder.write_buffer) r.0)
stop-image {c} sock s slot subslot d a sound i =
    Yields-map (stop sock s) (Halted c s) _ (λ r h. (h.image slot subslot d i, h.frames))
      (stop-Halted sock s a sound)
