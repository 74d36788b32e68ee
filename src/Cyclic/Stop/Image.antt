-- ===== src/Cyclic/Stop/Image.antt =====
-- src/cyclic.rs, `apply_safe_output`: the registered safe image goes into the outputs.
use profinet_rs.Prelude.{
  ℕ, ◌≡◌, inl, inr, refl, sym, ap, ◌∙◌, ◌==◌, Bool-cases, Option-cases, ==_iff, Yields-bind,
  Yields-map, Yields-both, Option, none, some, length, Bytes, ok, Yields, Yields-ok,
}
use profinet_rs.Rt.Config.{IoDataObject, IocrConfig}
use profinet_rs.Rt.Builder
use profinet_rs.Rt.Builder.{CyclicDataBuilder, find_object}
use profinet_rs.Rt.Builder.Inv.{IsSound, set_data-IsSound, set_iops-IsSound, swap-IsSound}
use profinet_rs.Rt.Builder.Swap.{swap_commits}
use profinet_rs.Rt.Builder.Status.{get_data-set_iops, get_data_same, get_data-set_data_whole}
use profinet_rs.Cyclic.State.{Shared, ioxs_good, emit_error}
use profinet_rs.Cyclic.State.Moves.{Keeps, Keeps-refl, fire-Keeps, fire-state}
use profinet_rs.Cyclic.Tx.Frames.{IsAddressed}
use profinet_rs.Cyclic.Stop.{apply_image, apply_registered, apply_safe_output}

-- The safe image of `s` is registered for a submodule of the layout, in the submodule's length.
abbrev pub IsImage : IocrConfig → Shared → ℕ → ℕ → Bytes → Type 0
IsImage c s slot subslot d =
    (o : IoDataObject) × (s.safe_output ≡ some (slot, subslot, d))
    × (find_object c.objects slot subslot ≡ some o)
    × (length d ≡ o.data_length)

-- What `apply_safe_output` leaves.
pub record Applied (c : IocrConfig) (s t : Shared) : Type 0 where
  pub sound : IsSound c t.output_builder
  pub image :
      (slot subslot : ℕ) (d : Bytes)
      → IsImage c s slot subslot d
      → Builder.get_data t.output_builder slot subslot ≡ ok d
  pub id_same : t.output_iocr.frame_id ≡ s.output_iocr.frame_id
  pub addressed : IsAddressed t
  pub state_same : t.state ≡ s.state
  pub flag_same : t.run_flag ≡ s.run_flag

module _ {c : IocrConfig} (s : Shared) (a : IsAddressed s)
    (sound : IsSound c s.output_builder) where
  rebuilt-Applied :
      (b : CyclicDataBuilder)
      → IsSound c b
      → ((slot subslot : ℕ) (d : Bytes)
          → IsImage c s slot subslot d
          → Builder.get_data b slot subslot ≡ ok d)
      → Applied c s (record s { output_builder = b })
  rebuilt-Applied b k image = record {
    sound = k;
    image = image;
    id_same = refl;
    addressed = record { dst_fits = a.dst_fits; src_fits = a.src_fits; id_fits = a.id_fits };
    state_same = refl;
    flag_same = refl;
  }

  -- An image of another submodule, or of none: there is nothing to show.
  no_image-Applied :
      (t : Shared)
      → Keeps s t
      → t.state ≡ s.state
      → ((slot subslot : ℕ) (d : Bytes) → ¬ IsImage c s slot subslot d)
      → Applied c s t
  no_image-Applied t k st none_there = record {
    sound = rw k.builder_same sound;
    image = λ slot subslot d i. absurd (none_there slot subslot d i);
    id_same = ap (λ o. o.frame_id) k.output_same;
    addressed = record {
      dst_fits = ap length k.dst_same ∙ a.dst_fits;
      src_fits = ap length k.src_same ∙ a.src_fits;
      id_fits = rw k.output_same a.id_fits;
    };
    state_same = st;
    flag_same = k.flag_same;
  }

  -- What `set_data` of a known submodule makes of the image.
  taken_image :
      (slot subslot : ℕ) (d : Bytes) {o : IoDataObject}
      → find_object s.output_builder.config.objects slot subslot ≡ some o
      → Yields
          (Builder.set_data s.output_builder slot subslot d)
          (λ b. IsSound c b × (length d ≡ o.data_length → Builder.get_data b slot subslot ≡ ok d))
  taken_image slot subslot d {o} e =
      let m = Builder.set_data s.output_builder slot subslot d in
      Yields-both m _ _ ((set_data-IsSound sound slot subslot d).1 (λ gone. cc))
        (elim (Bool-cases (length d == o.data_length)) [
          | inl fits ↦
              Yields-map m _ _ (λ b h _. h)
                (get_data-set_data_whole slot subslot d sound e
                  ((==_iff (length d) o.data_length).0 fits))
          | inr differs ↦
              Yields-map m (IsSound c) _
                (λ b h n. absurd (let hit = (==_iff (length d) o.data_length).1 n in cc))
                ((set_data-IsSound sound slot subslot d).1 (λ gone. cc))
        ])

  -- An image for no submodule is none.
  unknown-IsImage :
      (slot subslot : ℕ) (d : Bytes)
      → s.safe_output ≡ some (slot, subslot, d)
      → find_object s.output_builder.config.objects slot subslot ≡ none
      → (slot' subslot' : ℕ) (d' : Bytes) → ¬ IsImage c s slot' subslot' d'
  unknown-IsImage slot subslot d e unknown slot' subslot' d' (o', e', known', n) =
      let objects = ap (λ x. x.objects) sound.config_same in
      let moved : find_object c.objects slot subslot ≡ none = rw (sym objects) unknown in
      let slot_same : slot ≡ slot' = cc in let subslot_same : subslot ≡ subslot' = cc in cc

  -- The image that `s` registers is the only one.
  kept_image :
      (slot subslot : ℕ) (d : Bytes) (b : CyclicDataBuilder) {o : IoDataObject}
      → s.safe_output ≡ some (slot, subslot, d)
      → find_object s.output_builder.config.objects slot subslot ≡ some o
      → (length d ≡ o.data_length → Builder.get_data b slot subslot ≡ ok d)
      → (slot' subslot' : ℕ) (d' : Bytes) → IsImage c s slot' subslot' d'
      → Builder.get_data b slot' subslot' ≡ ok d'
  kept_image slot subslot d b {o} e known k slot' subslot' d' (o', e', known', n) =
      let objects = ap (λ x. x.objects) sound.config_same in
      let d_same : d ≡ d' = cc in
      let slot_same : slot ≡ slot' = cc in
      let subslot_same : subslot ≡ subslot' = cc in
      let moved : find_object c.objects slot subslot ≡ some o = rw (sym objects) known in
      let object_same : o ≡ o' = cc in
      rw (sym d_same, sym slot_same, sym subslot_same)
        (k (ap length d_same ∙ n ∙ sym (ap (λ x. x.data_length) object_same)))

  apply_image-Applied :
      (slot subslot : ℕ) (d : Bytes)
      → s.safe_output ≡ some (slot, subslot, d)
      → Yields (apply_image slot subslot d s) (Applied c s)
  unfolding apply_image emit_error
  apply_image-Applied slot subslot d e =
      elim (Option-cases (find_object s.output_builder.config.objects slot subslot)) [
        | inl unknown ↦
            rw ((set_data-IsSound sound slot subslot d).0 unknown, apply_image)
              (no_image-Applied _ (fire-Keeps s.callbacks.on_error _ s s (Keeps-refl s))
                (fire-state s.callbacks.on_error _ s)
                (λ a1 a2 a3 i. unknown-IsImage slot subslot d e unknown a1 a2 a3 i))
        | inr (o, known) ↦
            let (b1, eq, k1) =
              Yields-ok (Builder.set_data s.output_builder slot subslot d) _
                (taken_image slot subslot d known) in
            rw (eq, apply_image)
              (Yields-bind (Builder.set_iops b1 slot subslot ioxs_good) _ _ _
                (Yields-both (Builder.set_iops b1 slot subslot ioxs_good) _ _
                  (set_iops-IsSound k1.0 slot subslot ioxs_good)
                  (get_data-set_iops slot subslot ioxs_good k1.0 (found b1 k1.0 known)))
                (λ b2 k2.
                  Yields-bind (Builder.swap b2) _ _ _
                    (Yields-both (Builder.swap b2) _ _ (swap_commits k2.0) (swap-IsSound k2.0))
                    (λ b3 k3. rebuilt-Applied b3 k3.1 (
                      kept_image slot subslot d b3 e known (λ n.
                        get_data_same b2 b3 slot subslot (k3.1.config_same ∙ sym k2.0.config_same)
                          k3.0.1
                        ∙ k2.1
                        ∙ k1.1 n)))))
      ]
    where
      found :
          (b : CyclicDataBuilder) {o : IoDataObject}
          → IsSound c b
          → find_object s.output_builder.config.objects slot subslot ≡ some o
          → find_object b.config.objects slot subslot ≡ some o
      found b k known = rw (k.config_same, sym sound.config_same) known

  apply_registered-Applied :
      (r : Option (ℕ × ℕ × Bytes)) → s.safe_output ≡ r → Yields (apply_registered r s) (Applied c s)
  unfolding apply_registered
  apply_registered-Applied none e = no_image-Applied s (Keeps-refl s) refl (λ slot subslot d i. cc)
  apply_registered-Applied (some (slot, subslot, d)) e = apply_image-Applied slot subslot d e

  pub apply_safe_output-Applied : Yields (apply_safe_output s) (Applied c s)
  unfolding apply_safe_output
  apply_safe_output-Applied = apply_registered-Applied s.safe_output refl
