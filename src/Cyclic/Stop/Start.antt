-- ===== src/Cyclic/Stop/Start.antt =====
-- src/cyclic.rs, `start`: its ways to end.
use profinet_rs.Prelude.{
  ℕ, ◌≡◌, refl, Bool, true, ◌&&◌, if◌then◌else◌, Yields-bind, if-Yields, ok, err, Yields, starting,
  running, io_failed, cannot_start,
}
use profinet_rs.Rt.Config.{IocrConfig}
use profinet_rs.Rt.Builder
use profinet_rs.Rt.Builder.Inv.{IsSound, swap-IsSound}
use profinet_rs.Cyclic.State.{Shared}
use profinet_rs.Cyclic.State.Moves.{transition-Keeps, transition-state}
use profinet_rs.Cyclic.Stop.{Resources, can_start, start_begun, start}

abbrev pub all_there : Resources → Bool
all_there res = (res.tx_socket && res.rx_socket) && (res.tx_spawned && res.rx_spawned)

start_begun-state : (now : ℕ) (s : Shared) → (start_begun now s).state ≡ starting
unfolding start_begun
start_begun-state now s = transition-state starting s

start_begun-builder : (now : ℕ) (s : Shared) → (start_begun now s).output_builder ≡ s.output_builder
unfolding start_begun
start_begun-builder now s = (transition-Keeps starting s).builder_same

refused :
    (again : Resources) (later : ℕ) (s : Shared)
    → s.state ≡ starting
    → start again later s ≡ ok (err (cannot_start starting), s)
unfolding start
refused again later s h = rw h refl

-- A start from a state that allows it, with a builder that is sound, returns. With both sockets and both
-- threads it succeeds in Running. Without one of them it gives an error and leaves Starting, where every
-- later start is refused, whatever the system would then answer, and changes nothing.
pub start_cases :
    {c : IocrConfig} (res again : Resources) (now later : ℕ) (s : Shared)
    → can_start s.state ≡ true
    → IsSound c s.output_builder
    → Yields (start res now s) (λ r.
      if all_there res
      then (r.0 ≡ ok tt) × (r.1.state ≡ running)
      else (r.0 ≡ err io_failed) × (start again later r.1 ≡ ok (err (cannot_start starting), r.1)))
unfolding start
start_cases {c} res again now later s may sound =
    let begun = start_begun now s in
    let swapped : IsSound c begun.output_builder = rw (start_begun-builder now s) sound in
    rw may (
      if-Yields (res.tx_socket && res.rx_socket) _ _ _
        (λ sockets.
          Yields-bind (Builder.swap begun.output_builder) _ (IsSound c) _ (swap-IsSound swapped)
            (λ b k.
              let ready = record begun { output_builder = b } in
              if-Yields (res.tx_spawned && res.rx_spawned) _ _ _
                (λ threads. rw (sockets, threads) (refl, transition-state running ready))
                (λ no_thread.
                  rw (sockets, no_thread)
                    (refl, refused again later ready (start_begun-state now s)))))
        (λ no_socket. rw no_socket (refl, refused again later begun (start_begun-state now s))))
