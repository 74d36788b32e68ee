-- ===== src/Rt/Builder/Swap.antt =====
-- src/rt.rs, `CyclicDataBuilder`: the loops over all objects, the commit by `swap`, and any sequence
-- of method calls.
use profinet_rs.Prelude.{
  ℕ, ◌<◌, ◌≡◌, inl, inr, refl, arith, false, ◌==◌, ltb, Option-cases, ltb→lt, Yields-bind,
  if-Yields, write_at-length, List, [], ◌∷◌, All, length, Bytes, at, byte_at_lem, Exec, ok, err,
  panic, stuck, ◌>>=◌, Yields,
}
use profinet_rs.Rt.Config.{IoDataObject, IocrConfig}
use profinet_rs.Rt.Builder.{
  CyclicDataBuilder, find_object, set_data, set_iops, set_iocs, iops_round, iops_loop, set_all_iops,
  iocs_round, iocs_loop, set_all_iocs, clear, swap, build, load, is_dirty,
}
use profinet_rs.Rt.Builder.Inv.{
  IsSound, Fits, Laid-Fits, written-IsSound, set_data-IsSound, set_iops-IsSound, set_iocs-IsSound,
  clear-IsSound, load-IsSound, swap-IsSound,
}

iops_round-length :
    (o : IoDataObject) (status : ℕ) (buffer : Bytes)
    → Fits (length buffer) o
    → Yields (iops_round o status buffer) (λ w. length w ≡ length buffer)
unfolding iops_round
iops_round-length o status buffer fits =
    if-Yields (ltb 0 o.data_length) _ _ (λ w. length w ≡ length buffer)
      (λ pos. write_at-length buffer o.iops_offset status (fits.1 (ltb→lt 0 o.data_length pos)))
      (λ _. refl)

iops_loop-length :
    (os : List IoDataObject) (status n : ℕ) (buffer : Bytes)
    → All (Fits n) os
    → length buffer ≡ n
    → Yields (iops_loop os status buffer) (λ w. length w ≡ n)
unfolding iops_loop
iops_loop-length [] status n buffer all e = e
iops_loop-length (o ∷ os) status n buffer all e =
    Yields-bind (iops_round o status buffer) (iops_loop os status) (λ w. length w ≡ length buffer)
      (λ w. length w ≡ n) (iops_round-length o status buffer (rw e all.0))
      (λ w h. iops_loop-length os status n w all.1 (omega arith))

module _ {c : IocrConfig} where
  pub set_all_iops-IsSound :
      {b : CyclicDataBuilder} (status : ℕ)
      → IsSound c b
      → Yields (set_all_iops b status) (IsSound c)
  unfolding set_all_iops
  set_all_iops-IsSound {b} status s = written-IsSound s _ (
      iops_loop-length b.config.objects status (length b.write_buffer) b.write_buffer
        (rw (s.write_length, s.config_same) (Laid-Fits 0 c.data_length c.objects s.laid)) refl)

  pub iocs_round-IsSound :
      {b : CyclicDataBuilder} (o : IoDataObject) (status : ℕ)
      → IsSound c b
      → Fits c.data_length o
      → Yields (iocs_round o status b) (IsSound c)
  unfolding iocs_round
  iocs_round-IsSound {b} o status s fits = elim (Option-cases o.iocs_offset) [
    | inl e ↦ rw (e, iocs_round) s
    | inr (off, e) ↦
        let inside : off < length b.write_buffer = rw s.write_length (fits.2 off e) in
        rw (e, iocs_round, byte_at_lem b.write_buffer off inside)
          (if-Yields (at b.write_buffer off == status) _ _ (IsSound c) (λ _. s)
            (λ _. written-IsSound s _ (write_at-length b.write_buffer off status inside)))
  ]

  iocs_loop-IsSound :
      (os : List IoDataObject) (status : ℕ) {b : CyclicDataBuilder}
      → IsSound c b
      → All (Fits c.data_length) os
      → Yields (iocs_loop os status b) (IsSound c)
  unfolding iocs_loop
  iocs_loop-IsSound [] status s all = s
  iocs_loop-IsSound (o ∷ os) status {b} s all =
      Yields-bind (iocs_round o status b) (iocs_loop os status) (IsSound c) (IsSound c)
        (iocs_round-IsSound o status s all.0) (λ b' s'. iocs_loop-IsSound os status s' all.1)

  pub set_all_iocs-IsSound :
      {b : CyclicDataBuilder} (status : ℕ)
      → IsSound c b
      → Yields (set_all_iocs b status) (IsSound c)
  unfolding set_all_iocs
  set_all_iocs-IsSound {b} status s =
      iocs_loop-IsSound b.config.objects status s
        (rw s.config_same (Laid-Fits 0 c.data_length c.objects s.laid))

  -- `swap` commits: whether it copies or finds the builder clean, what `build` returns afterwards is
  -- the write buffer, which it leaves alone, and the builder is clean.
  pub swap_commits :
      {b : CyclicDataBuilder}
      → IsSound c b
      → Yields (swap b) (λ b'.
        (build b' ≡ b.write_buffer) × (b'.write_buffer ≡ b.write_buffer) × (is_dirty b' ≡ false))
  unfolding swap build is_dirty
  swap_commits s = ground (arith, s)

-- The calls that a controller makes of its builder.
pub data Op : Type 0 where
  op_set_data : ℕ → ℕ → Bytes → Op
  op_set_iops : ℕ → ℕ → ℕ → Op
  op_set_iocs : ℕ → ℕ → ℕ → Op
  op_set_all_iops : ℕ → Op
  op_set_all_iocs : ℕ → Op
  op_clear : Op
  op_load : Bytes → Op
  op_swap : Op

unfoldable pub call : CyclicDataBuilder → Op → Exec CyclicDataBuilder
call b (op_set_data slot subslot d) = set_data b slot subslot d
call b (op_set_iops slot subslot status) = set_iops b slot subslot status
call b (op_set_iocs slot subslot status) = set_iocs b slot subslot status
call b (op_set_all_iops status) = set_all_iops b status
call b (op_set_all_iocs status) = set_all_iocs b status
call b op_clear = ok (clear b)
call b (op_load payload) = load b payload
call b op_swap = swap b

-- A call that returns an error has changed nothing, and the caller goes on.
unfoldable pub or_same : CyclicDataBuilder → Exec CyclicDataBuilder → Exec CyclicDataBuilder
or_same b (ok b') = ok b'
or_same b (err e) = ok b
or_same b panic = panic
or_same b stuck = stuck

unfoldable pub run : CyclicDataBuilder → List Op → Exec CyclicDataBuilder
unfolding call or_same
run b [] = ok b
run b (op ∷ ops) = or_same b (call b op) >>= λ b'. run b' ops

or_same-IsSound :
    {c : IocrConfig} {b : CyclicDataBuilder} (m : Exec CyclicDataBuilder)
    → IsSound c b
    → Yields m (IsSound c)
    → Yields (or_same b m) (IsSound c)
unfolding or_same
or_same-IsSound (ok b') s h = h
or_same-IsSound (err e) s h = s
or_same-IsSound panic s h = h
or_same-IsSound stuck s h = h

call-IsSound :
    {c : IocrConfig} {b : CyclicDataBuilder} (op : Op)
    → IsSound c b
    → Yields (or_same b (call b op)) (IsSound c)
unfolding call
call-IsSound {c} {b} (op_set_data slot subslot d) s =
    elim (Option-cases (find_object b.config.objects slot subslot)) [
      | inl e ↦ rw ((set_data-IsSound s slot subslot d).0 e) (unfold or_same in s)
      | inr (o, e) ↦
          or_same-IsSound (set_data b slot subslot d) s
            ((set_data-IsSound s slot subslot d).1 (λ e'. cc))
    ]
call-IsSound (op_set_iops slot subslot status) s =
    or_same-IsSound _ s (set_iops-IsSound s slot subslot status)
call-IsSound (op_set_iocs slot subslot status) s =
    or_same-IsSound _ s (set_iocs-IsSound s slot subslot status)
call-IsSound (op_set_all_iops status) s = or_same-IsSound _ s (set_all_iops-IsSound status s)
call-IsSound (op_set_all_iocs status) s = or_same-IsSound _ s (set_all_iocs-IsSound status s)
call-IsSound op_clear s = or_same-IsSound _ s (clear-IsSound s)
call-IsSound (op_load payload) s = or_same-IsSound _ s (load-IsSound s payload)
call-IsSound op_swap s = or_same-IsSound _ s (swap-IsSound s)

-- From a sound builder no sequence of calls panics, and it ends in a sound builder.
pub run-IsSound :
    {c : IocrConfig} (ops : List Op) {b : CyclicDataBuilder}
    → IsSound c b
    → Yields (run b ops) (IsSound c)
unfolding run
run-IsSound [] s = s
run-IsSound {c} (op ∷ ops) {b} s =
    Yields-bind (or_same b (call b op)) (λ b'. run b' ops) (IsSound c) (IsSound c)
      (call-IsSound op s) (λ b' s'. run-IsSound ops s')
