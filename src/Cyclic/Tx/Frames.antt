-- ===== src/Cyclic/Tx/Frames.antt =====
-- src/cyclic.rs, `tx_loop`, `send_stop_frames` and `set_output_data`: what the frames of the controller carry.
use profinet_rs.Prelude.{
  sym, ◌∙◌, ◌+◌, ◌-◌, min, at, take, ◌++◌, Yields-unbind, Yields-value, ℕ, ◌≡◌, ◌⊎◌, inl, inr, refl,
  arith, true, false, Bool-cases, Option-cases, Yields-bind, Yields-both, Option, none, some,
  length, Bytes, IsU16, ok, err, Yields, output_locked, unknown_subslot,
}
use profinet_rs.Rt.Frame.{parse_ethernet_frame}
use profinet_rs.Rt.Frame.RoundTrip.{IsWireFrame, parse_ethernet_frame-build_ethernet_frame}
use profinet_rs.Rt.Config.{IocrConfig, IoDataObject}
use profinet_rs.Rt.Builder.Region.{region}
use profinet_rs.Rt.Builder.Data.{get_data-set_data}
use profinet_rs.Rt.Builder.Status.{get_data-set_iops, at-set_iops}
use profinet_rs.Rt.Builder
use profinet_rs.Rt.Builder.{CyclicDataBuilder, find_object}
use profinet_rs.Rt.Builder.Inv.{IsSound, set_data-IsSound, set_iops-IsSound, swap-IsSound}
use profinet_rs.Rt.Builder.Swap.{swap_commits}
use profinet_rs.Cyclic.State.{Shared, ioxs_good, output_writes_locked}
use profinet_rs.Cyclic.Tx.{
  next_counter, output_frame, status_or, next_output_frame, set_output_data,
}

-- What a call of `next_output_frame` keeps and changes: `t` is the state behind it, `w` its frame.
pub record IsSent (c : IocrConfig) (s : Shared) (status : ℕ) (w : Bytes) (t : Shared) : Type 0 where
  pub carries :
      parse_ethernet_frame w
      ≡ ok (some (output_frame (next_counter s) status s s.output_builder.write_buffer))
  pub counter : t.cycle_counter ≡ next_counter s
  pub buffer : t.output_builder.write_buffer ≡ s.output_builder.write_buffer
  pub sound : IsSound c t.output_builder
  pub rest : t ≡ record s { cycle_counter = next_counter s; output_builder = t.output_builder }

-- The device's and the controller's address are six bytes, and the output frame ID fits its field.
pub record IsAddressed (s : Shared) : Type 0 where
  pub dst_fits : length s.dst_mac ≡ 6
  pub src_fits : length s.src_mac ≡ 6
  pub id_fits : IsU16 s.output_iocr.frame_id

next_counter-IsU16 : (s : Shared) → IsU16 (next_counter s)
unfolding next_counter
next_counter-IsU16 s = omega arith

pub next_output_frame-IsSent :
    {c : IocrConfig} (status : Option ℕ) (s : Shared)
    → IsAddressed s
    → IsSound c s.output_builder
    → Yields (next_output_frame status s) (λ r. IsSent c s (status_or status) r.0 r.1)
unfolding next_output_frame
next_output_frame-IsSent {c} status s a sound =
    Yields-bind (Builder.swap s.output_builder) _ _ _
      (Yields-both (Builder.swap s.output_builder) _ _ (swap_commits sound) (swap-IsSound sound))
      (λ b k. record {
        carries = rw k.0.0 (
            parse_ethernet_frame-build_ethernet_frame s.dst_mac s.src_mac
              (output_frame (next_counter s) (status_or status) s s.output_builder.write_buffer)
              a.dst_fits a.src_fits
              (output_frame-IsWireFrame (next_counter s) (status_or status) s
                s.output_builder.write_buffer a (next_counter-IsU16 s)));
        counter = refl;
        buffer = k.0.1;
        sound = k.1;
        rest = refl;
      })
  where
    output_frame-IsWireFrame :
        (n st : ℕ) (t : Shared) (w : Bytes)
        → IsAddressed t
        → IsU16 n
        → IsWireFrame (output_frame n st t w)
    output_frame-IsWireFrame n st t w b h =
        unfold output_frame in record { id_fits = b.id_fits; counter_fits = h }

-- What the write buffer then holds for the submodule: the data, cut to its length, the old bytes behind
-- them, and a good provider status where it has data.
abbrev pub IsWritten : ℕ → ℕ → Bytes → IoDataObject → CyclicDataBuilder → CyclicDataBuilder → Type 0
IsWritten slot subslot d o b b' =
    (Builder.get_data b' slot subslot
      ≡ ok (
          take (min (length d) o.data_length) d
          ++ region b.write_buffer (o.frame_offset + min (length d) o.data_length)
              (o.data_length - min (length d) o.data_length)))
    × ((o.data_length ≡ 0) ⊎ (at b'.write_buffer o.iops_offset ≡ ioxs_good))

set_output_data-IsWritten :
    {c : IocrConfig} (slot subslot : ℕ) (d : Bytes) (s : Shared) {o : IoDataObject}
    → IsSound c s.output_builder
    → output_writes_locked s.state ≡ false
    → find_object s.output_builder.config.objects slot subslot ≡ some o
    → Yields (set_output_data slot subslot d s) (λ t.
      IsSound c t.output_builder
      × (t ≡ record s { output_builder = t.output_builder })
      × IsWritten slot subslot d o s.output_builder t.output_builder)
unfolding set_output_data
set_output_data-IsWritten {c} slot subslot d s {o} sound open_state known =
    let b = s.output_builder in
    let m = Builder.set_data b slot subslot d in
    rw open_state (
      Yields-bind m _ _ _
        (Yields-both m _ _ ((set_data-IsSound sound slot subslot d).1 (λ gone. cc))
          (Yields-unbind m _ _ (get_data-set_data sound slot subslot d known)))
        (λ b1 k1.
          let still : find_object b1.config.objects slot subslot ≡ some o =
            rw (k1.0.config_same, sym sound.config_same) known in
          let n = Builder.set_iops b1 slot subslot ioxs_good in
          Yields-bind n _ _ _
            (Yields-both n _ _ (set_iops-IsSound k1.0 slot subslot ioxs_good) (
              Yields-both n _ _ (get_data-set_iops slot subslot ioxs_good k1.0 still)
                (at-set_iops slot subslot ioxs_good k1.0 still)))
            (λ b2 k2. (
              k2.0,
              refl,
              (k2.1.0 ∙ Yields-value (Builder.get_data b1 slot subslot) _ k1.1, k2.1.1),
            ))))

pub set_output_data_cases :
    {c : IocrConfig} (slot subslot : ℕ) (d : Bytes) (s : Shared)
    → IsSound c s.output_builder
    → ((output_writes_locked s.state ≡ true)
        × (set_output_data slot subslot d s ≡ err (output_locked s.state)))
      ⊎ (((output_writes_locked s.state ≡ false)
            × (find_object s.output_builder.config.objects slot subslot ≡ none)
            × (set_output_data slot subslot d s ≡ err (unknown_subslot slot subslot)))
          ⊎ ((output_writes_locked s.state ≡ false)
              × (o : IoDataObject) × (find_object s.output_builder.config.objects slot subslot
                  ≡ some o)
              × Yields (set_output_data slot subslot d s) (λ t.
                IsSound c t.output_builder
                × (t ≡ record s { output_builder = t.output_builder })
                × IsWritten slot subslot d o s.output_builder t.output_builder)))
unfolding set_output_data
set_output_data_cases slot subslot d s sound = elim (Bool-cases (output_writes_locked s.state)) [
  | inl locked ↦ inl (locked, rw locked refl)
  | inr open_state ↦
      elim (Option-cases (find_object s.output_builder.config.objects slot subslot)) [
        | inl unknown ↦ inr (
            inl (
              open_state,
              unknown,
              rw (open_state, (set_data-IsSound sound slot subslot d).0 unknown) refl,
            ))
        | inr (o, known) ↦ inr (
            inr (
              open_state,
              o,
              known,
              set_output_data-IsWritten slot subslot d s sound open_state known,
            ))
      ]
]
