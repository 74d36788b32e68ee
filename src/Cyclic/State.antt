-- ===== src/Cyclic/State.antt =====
-- src/cyclic.rs: the state that the controller shares with its threads, and the state machine.
-- A mutex holds one field here. What a callback is called with goes into `log`, oldest first, if
-- the callback is registered; a callback that calls back is a later call of the model.
pub mod Moves
use profinet_rs.Prelude.{
  ℕ, ◌+◌, ◌-◌, ◌*◌, ◌%◌, ◌^◌, bit_and, Bool, true, false, not, ◌||◌, ◌==◌, ltb, if◌then◌else◌,
  Option, none, List, [], ◌∷◌, ◌++◌, Bytes, Exec, ok, err, ◌>>=◌, Error, CyclicState, idle,
  starting, running, stopping, stopped, fault, cycle_too_short,
}
use profinet_rs.Rt.Config.{IocrConfig, cycle_time_us}
use profinet_rs.Rt.Builder
use profinet_rs.Rt.Builder.{CyclicDataBuilder}

-- `CyclicStats`. Instants and intervals are microseconds; counters of `n` bits wrap at `2 ^ n`, as in
-- a release build.
pub record CyclicStats : Type 0 where
  pub frames_sent : ℕ
  pub frames_received : ℕ
  pub frames_missed : ℕ
  pub frames_invalid : ℕ
  pub frames_duplicate : ℕ
  pub frames_out_of_order : ℕ
  pub last_cycle_time_us : ℕ
  pub max_jitter_us : ℕ
  pub min_cycle_time_us : ℕ
  pub max_cycle_time_us : ℕ
  pub last_rx_interval_us : ℕ
  pub max_rx_jitter_us : ℕ
  pub min_rx_interval_us : ℕ
  pub max_rx_interval_us : ℕ
  pub rx_interval_sum_us : ℕ
  pub rx_interval_count : ℕ
  pub last_receive_time : ℕ
  pub interval_disturbed : Bool
  pub last_accepted_time : Option ℕ
  pub consecutive_timeouts : ℕ
  pub cycle_time_sum_us : ℕ
  pub cycle_count : ℕ

-- `CyclicStats::new`, at the instant `now`
unfoldable pub new_stats : ℕ → CyclicStats
new_stats now = record {
  frames_sent = 0;
  frames_received = 0;
  frames_missed = 0;
  frames_invalid = 0;
  frames_duplicate = 0;
  frames_out_of_order = 0;
  last_cycle_time_us = 0;
  max_jitter_us = 0;
  min_cycle_time_us = 2 ^ 31;
  max_cycle_time_us = 0;
  last_rx_interval_us = 0;
  max_rx_jitter_us = 0;
  min_rx_interval_us = 2 ^ 31;
  max_rx_interval_us = 0;
  rx_interval_sum_us = 0;
  rx_interval_count = 0;
  last_receive_time = now;
  interval_disturbed = false;
  last_accepted_time = none;
  consecutive_timeouts = 0;
  cycle_time_sum_us = 0;
  cycle_count = 0;
}

abbrev pub add64 : ℕ → ℕ → ℕ
add64 a b = (a + b) % 18446744073709551616

abbrev pub add32 : ℕ → ℕ → ℕ
add32 a b = (a + b) % 4294967296

-- `a.abs_diff(b)`
abbrev pub abs_diff : ℕ → ℕ → ℕ
abs_diff a b = (a - b) + (b - a)

pub record InputEntry : Type 0 where
  pub bytes : Bytes
  pub iops : ℕ

abbrev pub ioxs_good : ℕ
ioxs_good = 0x80

abbrev pub ioxs_bad : ℕ
ioxs_bad = 0x00

-- `iops & IOXS_DATA_STATE_GOOD != 0`
unfoldable pub data_state_good : ℕ → Bool
data_state_good iops = not (bit_and iops 0x80 == 0)

unfoldable pub is_good : InputEntry → Bool
unfolding data_state_good
is_good e = data_state_good e.iops

-- Which callbacks are registered.
pub record Callbacks : Type 0 where
  pub on_input_data : Bool
  pub on_input_status : Bool
  pub on_timeout : Bool
  pub on_error : Bool
  pub on_state_change : Bool

pub data Event : Type 0 where
  input_data_event : ℕ → ℕ → Bytes → Event
  input_status_event : ℕ → ℕ → ℕ → Event
  timeout_event : Event
  safe_output_error : Error → Event
  communication_lost : ℕ → Event
  tx_error : Event
  rx_error : Event
  state_change_event : CyclicState → CyclicState → Event

abbrev pub InputMap : Type 0
InputMap = ℕ → ℕ → Option InputEntry

pub record Shared : Type 0 where
  pub src_mac : Bytes
  pub dst_mac : Bytes
  pub input_iocr : IocrConfig
  pub output_iocr : IocrConfig
  pub max_consecutive_timeouts : ℕ
  pub state : CyclicState
  pub run_flag : Bool
  pub ever_faulted : Bool
  pub cycle_counter : ℕ
  pub output_builder : CyclicDataBuilder
  pub input_data : InputMap
  pub last_rx_cycle_counter : Option ℕ
  pub rx_counter_step : ℕ
  pub tx_counter_step : ℕ
  pub callbacks : Callbacks
  pub stats : CyclicStats
  pub safe_output : Option (ℕ × ℕ × Bytes)
  pub log : List Event

-- Calls a callback if it is registered.
abbrev pub fire : Bool → Event → Shared → Shared
fire registered e s = if registered then record s { log = s.log ++ (e ∷ []) } else s

unfoldable pub same_state : CyclicState → CyclicState → Bool
same_state idle idle = true
same_state starting starting = true
same_state running running = true
same_state stopping stopping = true
same_state stopped stopped = true
same_state fault fault = true
same_state _ _ = false

unfoldable pub transition : CyclicState → Shared → Shared
unfolding same_state
transition new_state s =
    if same_state s.state new_state
    then s
    else fire s.callbacks.on_state_change (state_change_event s.state new_state) (record s {
      state = new_state;
      ever_faulted = s.ever_faulted || same_state new_state fault;
    })

unfoldable pub emit_error : Event → Shared → Shared
emit_error e s = fire s.callbacks.on_error e s

unfoldable pub output_writes_locked : CyclicState → Bool
output_writes_locked stopping = true
output_writes_locked fault = true
output_writes_locked stopped = true
output_writes_locked _ = false

-- `CyclicController::new`, without the interface's name. `cycle_time_ms() < 1.0` divides a number
-- of microseconds by 1000.
unfoldable pub new : Bytes → Bytes → IocrConfig → IocrConfig → ℕ → ℕ → Exec Shared
unfolding cycle_time_us new_stats Builder.new Builder.set_all_iops
new src_mac dst_mac input_iocr output_iocr max_consecutive_timeouts now =
    if ltb (cycle_time_us output_iocr) 1000
    then err (cycle_too_short (cycle_time_us output_iocr))
    else (Builder.set_all_iops (Builder.new output_iocr) ioxs_good >>= λ builder. ok (record {
      src_mac = src_mac;
      dst_mac = dst_mac;
      input_iocr = input_iocr;
      output_iocr = output_iocr;
      max_consecutive_timeouts = max_consecutive_timeouts;
      state = idle;
      run_flag = false;
      ever_faulted = false;
      cycle_counter = 0;
      output_builder = builder;
      input_data = λ slot subslot. none;
      last_rx_cycle_counter = none;
      rx_counter_step = input_iocr.send_clock_factor * input_iocr.reduction_ratio;
      tx_counter_step = output_iocr.send_clock_factor * output_iocr.reduction_ratio;
      callbacks = record {
        on_input_data = false;
        on_input_status = false;
        on_timeout = false;
        on_error = false;
        on_state_change = false;
      };
      stats = new_stats now;
      safe_output = none;
      log = [];
    }))
