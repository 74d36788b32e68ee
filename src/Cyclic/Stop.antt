-- ===== src/Cyclic/Stop.antt =====
-- src/cyclic.rs: `start`, the safe output image and `stop`.
pub mod Frames
pub mod Image
pub mod Safe
pub mod Start
use profinet_rs.Prelude.{
  ℕ, zero, suc, bit_or, Bool, true, false, ◌&&◌, if◌then◌else◌, Option, none, some, List, [], ◌∷◌,
  Bytes, Exec, ok, err, panic, stuck, ◌>>=◌, ◌>>◌, CyclicState, idle, starting, running, stopping,
  stopped, fault, io_failed, cannot_start,
}
use profinet_rs.Rt.Frame.{data_status_valid, data_status_station_ok, data_status_state}
use profinet_rs.Rt.Builder
use profinet_rs.Rt.Builder.{CyclicDataBuilder}
use profinet_rs.Cyclic.State.{
  CyclicStats, new_stats, ioxs_good, safe_output_error, Event, Shared, fire, transition, emit_error,
}
use profinet_rs.Cyclic.Tx.{next_output_frame, count_sent}

abbrev pub can_start : CyclicState → Bool
can_start idle = true
can_start stopped = true
can_start fault = true
can_start _ = false

-- What the system answers during `start`: the two sockets and the two threads.
pub record Resources : Type 0 where
  pub tx_socket : Bool
  pub rx_socket : Bool
  pub tx_spawned : Bool
  pub rx_spawned : Bool

-- The state that `start` leaves before it opens the sockets.
unfoldable pub start_begun : ℕ → Shared → Shared
unfolding transition new_stats
start_begun now s = record (transition starting s) {
  run_flag = true;
  stats = new_stats now;
  ever_faulted = false;
  last_rx_cycle_counter = none;
}

-- `start`: its result, and the state that it leaves also where it returns an error.
unfoldable pub start : Resources → ℕ → Shared → Exec (Exec (Unit {0}) × Shared)
unfolding start_begun Builder.swap
start res now s =
    if can_start s.state
    then (let begun = start_begun now s in
        if res.tx_socket && res.rx_socket
        then (Builder.swap begun.output_builder >>= λ builder.
            let ready = record begun { output_builder = builder } in
            if res.tx_spawned && res.rx_spawned
            then ok (ok tt, transition running ready)
            else ok (err io_failed, ready))
        else ok (err io_failed, begun))
    else ok (err (cannot_start s.state), s)

unfoldable pub set_safe_output : ℕ → ℕ → Bytes → Shared → Shared
set_safe_output slot subslot d s = record s { safe_output = some (slot, subslot, d) }

-- The part of `apply_safe_output` behind a registered image. An error of `set_data` is reported, and
-- the builder stays as it was.
unfoldable pub apply_image : ℕ → ℕ → Bytes → Shared → Exec Shared
unfolding Builder.set_data Builder.set_iops Builder.swap emit_error
apply_image slot subslot d s = elim (Builder.set_data s.output_builder slot subslot d) [
  | ok b1 ↦
      (Builder.set_iops b1 slot subslot ioxs_good >>= λ b2.
      Builder.swap b2 >>= λ b3. ok (record s { output_builder = b3 }))
  | err e ↦ ok (emit_error (safe_output_error e) s)
  | panic ↦ panic
  | stuck ↦ stuck
]

unfoldable pub apply_registered : Option (ℕ × ℕ × Bytes) → Shared → Exec Shared
unfolding apply_image
apply_registered none s = ok s
apply_registered (some (slot, subslot, d)) s = apply_image slot subslot d s

unfoldable pub apply_safe_output : Shared → Exec Shared
unfolding apply_registered
apply_safe_output s = apply_registered s.safe_output s

-- `DATA_STATUS_VALID | DATA_STATUS_STATION_OK | DATA_STATUS_STATE`: ProviderRun is not set.
abbrev pub stop_status : ℕ
stop_status = bit_or (bit_or data_status_valid data_status_station_ok) data_status_state

abbrev pub stop_frame_count : ℕ
stop_frame_count = 3

-- The loop of `send_stop_frames` with `n` rounds to go; the list says which sends the socket takes, and
-- a missing entry is a failure. The frames that went out, and the state.
unfoldable pub stop_frames : ℕ → List Bool → Shared → Exec (List Bytes × Shared)
unfolding next_output_frame count_sent Builder.swap
stop_frames zero sends s = ok ([], s)
stop_frames (suc n) [] s = do
  builder ← Builder.swap s.output_builder
  r ← next_output_frame (some stop_status) (record s { output_builder = builder })
  ok ([], r.1)
stop_frames (suc n) (sent ∷ sends) s = do
  builder ← Builder.swap s.output_builder
  r ← next_output_frame (some stop_status) (record s { output_builder = builder })
  let rest = stop_frames n sends (count_sent r.1)
  if sent then (rest >>= λ q. ok (r.0 ∷ q.0, q.1)) else ok ([], r.1)

-- The part of `stop` behind the join. The argument is the TX socket that the thread hands back, with
-- what it does with each send, or `none` where no thread was started or it panicked.
unfoldable pub halt : Option (List Bool) → Shared → Exec (List Bytes × Shared)
unfolding stop_frames transition
halt none s = ok ([], transition stopped s)
halt (some sends) s = stop_frames stop_frame_count sends s >>= λ r. ok (r.0, transition stopped r.1)

unfoldable pub halting : Shared → Shared
unfolding transition
halting s = record (transition stopping s) { run_flag = false }

unfoldable pub stop : Option (List Bool) → Shared → Exec (List Bytes × Shared)
unfolding apply_safe_output halt halting
stop sock s = do
  safe ← apply_safe_output s
  if safe.run_flag then halt sock (halting safe) else ok ([], safe)

unfoldable pub stop_safe : ℕ → ℕ → Bytes → Option (List Bool) → Shared → Exec (List Bytes × Shared)
unfolding set_safe_output stop
stop_safe slot subslot d sock s = stop sock (set_safe_output slot subslot d s)
