-- ===== src/Cyclic/Stop/Frames.antt =====
-- src/cyclic.rs, `send_stop_frames`: the loop that tells the device that the provider has stopped.
use profinet_rs.Prelude.{
  ℕ, zero, suc, ◌≤◌, ◌≡◌, refl, ap, ◌∙◌, arith, Bool, true, false, Yields-bind, Yields-both, some,
  List, [], ◌∷◌, All, length, Bytes, Exec, ok, ◌>>=◌, Yields,
}
use mathlib.Core.Path.{subst}
use profinet_rs.Rt.Frame.{RtFrame, parse_ethernet_frame}
use profinet_rs.Rt.Config.{IocrConfig}
use profinet_rs.Rt.Builder
use profinet_rs.Rt.Builder.{CyclicDataBuilder, find_object}
use profinet_rs.Rt.Builder.Inv.{IsSound, swap-IsSound}
use profinet_rs.Rt.Builder.Swap.{swap_commits}
use profinet_rs.Cyclic.State.{Shared}
use profinet_rs.Cyclic.Tx.{next_counter, output_frame, next_output_frame, count_sent}
use profinet_rs.Cyclic.Tx.Frames.{IsSent, IsAddressed, next_output_frame-IsSent}
use profinet_rs.Cyclic.Stop.{stop_status, stop_frames}

-- A frame of the output IOCR with the stop status and the bytes `image`.
abbrev pub IsStopFrame : ℕ → Bytes → Bytes → Type 0
IsStopFrame id image w =
    (f : RtFrame) × (parse_ethernet_frame w ≡ ok (some f))
    × (f.frame_id ≡ id)
    × (f.data_status ≡ stop_status)
    × (f.payload ≡ image)

-- What one round makes of the state `s`.
record Round (c : IocrConfig) (s : Shared) (r : Bytes × Shared) : Type 0 where
  carries : IsStopFrame s.output_iocr.frame_id s.output_builder.write_buffer r.0
  buffer : r.1.output_builder.write_buffer ≡ s.output_builder.write_buffer
  sound : IsSound c r.1.output_builder
  id_same : r.1.output_iocr.frame_id ≡ s.output_iocr.frame_id
  addressed : IsAddressed r.1
  state_same : r.1.state ≡ s.state
  flag_same : r.1.run_flag ≡ s.run_flag

sent-Round :
    {c : IocrConfig} (s : Shared) (b : CyclicDataBuilder) (r : Bytes × Shared)
    → IsAddressed s
    → b.write_buffer ≡ s.output_builder.write_buffer
    → IsSent c (record s { output_builder = b }) stop_status r.0 r.1
    → Round c s r
unfolding output_frame
sent-Round s b r a same k = record {
  carries = (
    output_frame (next_counter (record s { output_builder = b })) stop_status s b.write_buffer,
    k.carries,
    refl,
    refl,
    same,
  );
  buffer = k.buffer ∙ same;
  sound = k.sound;
  id_same = ap (λ t. t.output_iocr.frame_id) k.rest;
  addressed = record {
    dst_fits = ap (λ t. length t.dst_mac) k.rest ∙ a.dst_fits;
    src_fits = ap (λ t. length t.src_mac) k.rest ∙ a.src_fits;
    id_fits = rw (ap (λ t. t.output_iocr.frame_id) k.rest) a.id_fits;
  };
  state_same = ap (λ t. t.state) k.rest;
  flag_same = ap (λ t. t.run_flag) k.rest;
}

round_then {ℓ} :
    {B : Type ℓ} {c : IocrConfig} (s : Shared) (go_on : Bytes × Shared → Exec B) (Q : B → Type 0)
    → IsAddressed s
    → IsSound c s.output_builder
    → ((r : Bytes × Shared) → Round c s r → Yields (go_on r) Q)
    → Yields
        (Builder.swap s.output_builder >>= λ builder.
          next_output_frame (some stop_status) (record s { output_builder = builder }) >>= go_on)
        Q
round_then {c} s go_on Q a sound k =
    Yields-bind (Builder.swap s.output_builder) _ _ Q
      (Yields-both (Builder.swap s.output_builder) _ _ (swap_commits sound) (swap-IsSound sound))
      (λ b m.
        Yields-bind (next_output_frame (some stop_status) (record s { output_builder = b })) go_on _
          Q
          (next_output_frame-IsSent (some stop_status) (record s { output_builder = b })
            (record { dst_fits = a.dst_fits; src_fits = a.src_fits; id_fits = a.id_fits }) m.1)
          (λ r sent. k r (sent-Round s b r a m.0.1 sent)))

-- What the loop that sends stop frames leaves: they carry the write buffer, which stays.
pub record Sent (c : IocrConfig) (s : Shared) (n : ℕ) (r : List Bytes × Shared) : Type 0 where
  pub carries : All (IsStopFrame s.output_iocr.frame_id s.output_builder.write_buffer) r.0
  pub at_most : length r.0 ≤ n
  pub buffer : r.1.output_builder.write_buffer ≡ s.output_builder.write_buffer
  pub sound : IsSound c r.1.output_builder
  pub state_same : r.1.state ≡ s.state
  pub flag_same : r.1.run_flag ≡ s.run_flag

count_sent-IsAddressed : (s : Shared) → IsAddressed s → IsAddressed (count_sent s)
unfolding count_sent
count_sent-IsAddressed s a = record {
  dst_fits = a.dst_fits;
  src_fits = a.src_fits;
  id_fits = a.id_fits;
}

module _ {c : IocrConfig} where
  nothing-Sent : (n : ℕ) (s : Shared) (r : Bytes × Shared) → Round c s r → Sent c s n ([], r.1)
  nothing-Sent n s r k = record {
    carries = tt;
    at_most = omega arith;
    buffer = k.buffer;
    sound = k.sound;
    state_same = k.state_same;
    flag_same = k.flag_same;
  }

  more-Sent :
      (n : ℕ) (s : Shared) (r : Bytes × Shared) (q : List Bytes × Shared)
      → Round c s r
      → Sent c (count_sent r.1) n q
      → Sent c s (suc n) (r.0 ∷ q.0, q.1)
  unfolding count_sent
  more-Sent n s r q k m = record {
    carries = (
      k.carries,
      subst (λ image. All (IsStopFrame s.output_iocr.frame_id image) q.0) k.buffer
          (subst (λ id. All (IsStopFrame id r.1.output_builder.write_buffer) q.0) k.id_same
            m.carries),
    );
    at_most = omega (arith, m.at_most);
    buffer = m.buffer ∙ k.buffer;
    sound = m.sound;
    state_same = m.state_same ∙ k.state_same;
    flag_same = m.flag_same ∙ k.flag_same;
  }

  pub stop_frames-Sent :
      (n : ℕ) (sends : List Bool) (s : Shared)
      → IsAddressed s
      → IsSound c s.output_builder
      → Yields (stop_frames n sends s) (Sent c s n)
  unfolding stop_frames
  stop_frames-Sent zero sends s a sound = record {
    carries = tt;
    at_most = omega arith;
    buffer = refl;
    sound = sound;
    state_same = refl;
    flag_same = refl;
  }
  stop_frames-Sent (suc n) [] s a sound =
      round_then s _ (Sent c s (suc n)) a sound (λ r k. nothing-Sent (suc n) s r k)
  stop_frames-Sent (suc n) (false ∷ sends) s a sound =
      round_then s _ (Sent c s (suc n)) a sound (λ r k. nothing-Sent (suc n) s r k)
  stop_frames-Sent (suc n) (true ∷ sends) s a sound =
      round_then s _ (Sent c s (suc n)) a sound (λ r k.
        Yields-bind (stop_frames n sends (count_sent r.1)) _ (Sent c (count_sent r.1) n) _
          (stop_frames-Sent n sends (count_sent r.1) (count_sent-IsAddressed r.1 k.addressed)
            (unfold count_sent in k.sound))
          (λ q m. more-Sent n s r q k m))
