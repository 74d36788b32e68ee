-- ===== src/Cyclic/Calls/Stops.antt =====
-- src/cyclic.rs, `start` and `stop`: they keep the controller well formed.
use profinet_rs.Prelude.{
  ℕ, zero, suc, inl, inr, ap, Bool, ◌&&◌, Option-cases, Yields-bind, if-Yields, Option, none, some,
  List, [], ◌∷◌, Bytes, Yields, Yields-ok, starting, running, stopping, stopped, fault,
}
use profinet_rs.Rt.Config.{IocrConfig}
use profinet_rs.Rt.Builder
use profinet_rs.Rt.Builder.{CyclicDataBuilder, find_object}
use profinet_rs.Rt.Builder.Inv.{IsSound, swap-IsSound, set_data-IsSound, set_iops-IsSound}
use profinet_rs.Cyclic.State.{Shared, ioxs_good, same_state, safe_output_error}
use profinet_rs.Cyclic.Tx.{next_output_frame, count_sent}
use profinet_rs.Cyclic.Stop.{
  Resources, can_start, start_begun, start, set_safe_output, apply_image, apply_registered,
  apply_safe_output, stop_status, stop_frames, stop_frame_count, halt, halting, stop,
}
use profinet_rs.Cyclic.State.Moves.{transition-state}
use profinet_rs.Cyclic.Calls.Good.{Good, builder-Good, transition-Good, emit_error-Good}
use profinet_rs.Cyclic.Calls.Passes.{next_output_frame-Good, count_sent-Good}

module _ {c : IocrConfig} where
  apply_image-Good :
      (slot subslot : ℕ) (d : Bytes) (s : Shared)
      → Good c s
      → Yields (apply_image slot subslot d s) (Good c)
  unfolding apply_image
  apply_image-Good slot subslot d s g =
      let known = set_data-IsSound g.sound slot subslot d in
      elim (Option-cases (find_object s.output_builder.config.objects slot subslot)) [
        | inl unknown ↦
            rw (known.0 unknown, apply_image) (emit_error-Good (safe_output_error _) s g)
        | inr (o, found) ↦
            let (b1, e, k1) =
              Yields-ok (Builder.set_data s.output_builder slot subslot d) _
                (known.1 (λ gone. cc)) in
            rw (e, apply_image)
              (Yields-bind (Builder.set_iops b1 slot subslot ioxs_good) _ (IsSound c) _
                (set_iops-IsSound k1 slot subslot ioxs_good)
                (λ b2 k2.
                  Yields-bind (Builder.swap b2) _ (IsSound c) _ (swap-IsSound k2)
                    (λ b3 k3. builder-Good s b3 g k3)))
      ]

  apply_safe_output-Good : (s : Shared) → Good c s → Yields (apply_safe_output s) (Good c)
  unfolding apply_safe_output
  apply_safe_output-Good s g = registered s.safe_output
    where
      registered : (r : Option (ℕ × ℕ × Bytes)) → Yields (apply_registered r s) (Good c)
      registered none = unfold apply_registered in g
      registered (some (slot, subslot, d)) =
          unfold apply_registered in apply_image-Good slot subslot d s g

  stop_frames-Good :
      (n : ℕ) (sends : List Bool) (s : Shared)
      → Good c s
      → Yields (stop_frames n sends s) (λ r. Good c r.1)
  unfolding stop_frames
  stop_frames-Good zero sends s g = g
  stop_frames-Good (suc n) [] s g =
      Yields-bind (Builder.swap s.output_builder) _ (IsSound c) _ (swap-IsSound g.sound) (λ b k.
        Yields-bind (next_output_frame (some stop_status) (record s { output_builder = b })) _
          (λ r. Good c r.1) _ (next_output_frame-Good (some stop_status) _ (builder-Good s b g k))
          (λ r h. h))
  stop_frames-Good (suc n) (sent ∷ sends) s g =
      Yields-bind (Builder.swap s.output_builder) _ (IsSound c) _ (swap-IsSound g.sound) (λ b k.
        Yields-bind (next_output_frame (some stop_status) (record s { output_builder = b })) _
          (λ r. Good c r.1) _ (next_output_frame-Good (some stop_status) _ (builder-Good s b g k))
          (λ r h.
            if-Yields sent _ _ _
              (λ _.
                Yields-bind (stop_frames n sends (count_sent r.1)) _ (λ q. Good c q.1) _
                  (stop_frames-Good n sends (count_sent r.1) (count_sent-Good r.1 h)) (λ q m. m))
              (λ _. h)))

  halting-Good : (s : Shared) → Good c s → Good c (halting s)
  unfolding halting
  halting-Good s g =
      let h = transition-Good stopping s g in
      record {
        sound = h.sound;
        dst_fits = h.dst_fits;
        src_fits = h.src_fits;
        id_fits = h.id_fits;
        remembered = h.remembered;
      }

  halt-Good :
      (sock : Option (List Bool)) (s : Shared) → Good c s → Yields (halt sock s) (λ r. Good c r.1)
  unfolding halt
  halt-Good none s g = transition-Good stopped s g
  halt-Good (some sends) s g =
      Yields-bind (stop_frames stop_frame_count sends s) _ (λ r. Good c r.1) _
        (stop_frames-Good stop_frame_count sends s g) (λ r k. transition-Good stopped r.1 k)

  pub stop-Good :
      (sock : Option (List Bool)) (s : Shared) → Good c s → Yields (stop sock s) (λ r. Good c r.1)
  unfolding stop
  stop-Good sock s g =
      Yields-bind (apply_safe_output s) _ (Good c) _ (apply_safe_output-Good s g) (λ safe k.
        if-Yields safe.run_flag _ _ _ (λ _. halt-Good sock (halting safe) (halting-Good safe k))
          (λ _. k))

  start_begun-Good : (now : ℕ) (s : Shared) → Good c s → Good c (start_begun now s)
  unfolding start_begun same_state
  start_begun-Good now s g =
      let h = transition-Good starting s g in
      record {
        sound = h.sound;
        dst_fits = h.dst_fits;
        src_fits = h.src_fits;
        id_fits = h.id_fits;
        remembered = inl (ap (λ st. same_state st fault) (transition-state starting s));
      }

  pub start-Good :
      (res : Resources) (now : ℕ) (s : Shared)
      → Good c s
      → Yields (start res now s) (λ r. Good c r.1)
  unfolding start
  start-Good res now s g =
      let begun = start_begun now s in
      let h = start_begun-Good now s g in
      if-Yields (can_start s.state) _ _ _
        (λ _.
          if-Yields (res.tx_socket && res.rx_socket) _ _ _
            (λ _.
              Yields-bind (Builder.swap begun.output_builder) _ (IsSound c) _ (swap-IsSound h.sound)
                (λ b k.
                  let ready = builder-Good begun b h k in
                  if-Yields (res.tx_spawned && res.rx_spawned) _ _ _
                    (λ _. transition-Good running _ ready) (λ _. ready)))
            (λ _. h))
        (λ _. g)

  pub set_safe_output-Good :
      (slot subslot : ℕ) (d : Bytes) (s : Shared)
      → Good c s
      → Good c (set_safe_output slot subslot d s)
  unfolding set_safe_output
  set_safe_output-Good slot subslot d s g = record {
    sound = g.sound;
    dst_fits = g.dst_fits;
    src_fits = g.src_fits;
    id_fits = g.id_fits;
    remembered = g.remembered;
  }
