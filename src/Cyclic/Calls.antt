-- ===== src/Cyclic/Calls.antt =====
-- src/cyclic.rs: the calls that touch the shared state, in any order: the passes of the two loops and
-- the methods of the application.
pub mod Good
pub mod Passes
pub mod Stops
pub mod Invariant
use profinet_rs.Prelude.{ℕ, Bool, Option, List, [], ◌∷◌, Bytes, Exec, ok, err, panic, stuck, ◌>>=◌}
use profinet_rs.Rt.Config.{IocrConfig}
use profinet_rs.Cyclic.State.{Shared}
use profinet_rs.Cyclic.Watchdog.{Received, rx_pass}
use profinet_rs.Cyclic.Tx.{Pacer, set_output_data, tx_pass}
use profinet_rs.Cyclic.Stop.{Resources, start, set_safe_output, stop}

-- A call with what it meets: the clock, and what the socket and the system answer.
pub data Call : Type 0 where
  receive_call : Received → ℕ → ℕ → ℕ → Call
  transmit_call : ℕ → Bool → Pacer → Call
  write_call : ℕ → ℕ → Bytes → Call
  image_call : ℕ → ℕ → Bytes → Call
  start_call : Resources → ℕ → Call
  stop_call : Option (List Bool) → Call

-- A write that is refused leaves the state, and the caller goes on.
unfoldable pub or_kept : Shared → Exec Shared → Exec Shared
or_kept s (ok t) = ok t
or_kept s (err e) = ok s
or_kept s panic = panic
or_kept s stuck = stuck

unfoldable pub perform : Shared → Call → Exec Shared
unfolding or_kept set_safe_output
perform s (receive_call r watchdog now later) = rx_pass r watchdog now later s >>= λ p. ok p.0
perform s (transmit_call now sent pacer) = tx_pass now sent pacer s >>= λ p. ok p.2
perform s (write_call slot subslot d) = or_kept s (set_output_data slot subslot d s)
perform s (image_call slot subslot d) = ok (set_safe_output slot subslot d s)
perform s (start_call res now) = start res now s >>= λ p. ok p.1
perform s (stop_call sock) = stop sock s >>= λ p. ok p.1

unfoldable pub perform_all : Shared → List Call → Exec Shared
unfolding perform
perform_all s [] = ok s
perform_all s (c ∷ calls) = perform s c >>= λ t. perform_all t calls
