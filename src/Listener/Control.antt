-- ===== src/Listener/Control.antt =====
-- src/alarm_listener.rs, `AlarmListener`: its callbacks, and its start and stop.
use profinet_rs.Prelude.{
  ℕ, ◌+◌, ◌<◌, ◌≡◌, ap, arith, Bool, true, false, not, ◌==◌, if◌then◌else◌, Option, none, some,
  List, [], ◌∷◌, ◌++◌, All, length, replicate, Bytes, Exec, ok, err, only_layer2, io_failed,
}
use profinet_rs.Listener.Frame.{AlarmEndpoint}

-- `callbacks` holds the ids of the registered callbacks; `thread` says whether there is one to join.
pub record AlarmListener : Type 0 where
  pub endpoint : AlarmEndpoint
  pub controller_mac : Bytes
  pub running : Bool
  pub callbacks : List ℕ
  pub next_callback_id : ℕ
  pub thread : Bool

abbrev or_zero : Option Bytes → Bytes
or_zero (some mac) = mac
or_zero none = replicate 6 0

unfoldable pub new_listener : AlarmEndpoint → Option Bytes → AlarmListener
new_listener endpoint controller_mac = record {
  endpoint = endpoint;
  controller_mac = or_zero controller_mac;
  running = false;
  callbacks = [];
  next_callback_id = 0;
  thread = false;
}

unfoldable pub add_callback : AlarmListener → AlarmListener × ℕ
add_callback l = (
  record l {
    callbacks = l.callbacks ++ (l.next_callback_id ∷ []);
    next_callback_id = l.next_callback_id + 1;
  },
  l.next_callback_id,
)

-- `retain(|(cb_id, _)| *cb_id != id)`
unfoldable pub without : ℕ → List ℕ → List ℕ
without id [] = []
without id (c ∷ cs) = let rest = without id cs in if c == id then rest else c ∷ rest

unfoldable pub remove_callback : ℕ → AlarmListener → AlarmListener
unfolding without
remove_callback id l = record l { callbacks = without id l.callbacks }

unfoldable pub callback_count : AlarmListener → ℕ
callback_count l = length l.callbacks

-- `start`: `socket` says whether the raw socket opens.
unfoldable pub start_listener : Bool → AlarmListener → Exec (Unit {0}) × AlarmListener
start_listener socket l =
    if l.running
    then (ok tt, l)
    else (if not (l.endpoint.transport == 0)
        then (err only_layer2, l)
        else (if socket
            then (ok tt, record l { running = true; thread = true })
            else (err io_failed, l)))

unfoldable pub stop_listener : AlarmListener → AlarmListener
stop_listener l = if l.running then record l { running = false; thread = false } else l

-- Every registered id is below the next one.
abbrev pub AreIssued : AlarmListener → Type 0
AreIssued l = All (λ c. c < l.next_callback_id) l.callbacks

without-append : (id : ℕ) (cs : List ℕ) → All (λ c. c < id) cs → without id (cs ++ (id ∷ [])) ≡ cs
unfolding without
without-append id [] h = ground arith
without-append id (c ∷ cs) h =
    let other : (c == id) ≡ false = ground (arith, h.0) in
    rw other (ap (λ l. c ∷ l) (without-append id cs h.1))

-- The id that `add_callback` gives takes exactly that callback off again.
pub remove_callback-add_callback :
    (l : AlarmListener)
    → AreIssued l
    → (remove_callback (add_callback l).1 (add_callback l).0).callbacks ≡ l.callbacks
unfolding remove_callback add_callback
remove_callback-add_callback l h = without-append l.next_callback_id l.callbacks h
