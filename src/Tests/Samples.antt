-- ===== src/Tests/Samples.antt =====
-- A controller with one data slot and one diagnostic slot, and frames for it.
use profinet_rs.Prelude.{
  ◌≡◌, ◌≢◌, refl, arith, Bool, true, false, ◌&&◌, ltb, ltb→lt, none, some, List, [], ◌∷◌, ◌++◌, All,
  Bytes, IsByte, CyclicState,
}
use profinet_rs.Rt.Frame.{RtFrame}
use profinet_rs.Rt.Frame.RoundTrip.{IsWireFrame}
use profinet_rs.Rt.Config.{IoSlot, IoDataObject, IocrConfig, build_iocr_configs}
use profinet_rs.Rt.Config.Layout.{build_iocr_configs-Laid}
use profinet_rs.Rt.Builder
use profinet_rs.Rt.Builder.{find_object}
use profinet_rs.Rt.Builder.Inv.{IsSound, new-IsSound}
use profinet_rs.Cyclic.State.{Shared, new_stats}
use profinet_rs.Cyclic.Tx.Frames.{IsAddressed}

abbrev pub slots : List IoSlot
slots =
    record {
      slot = 1;
      subslot = 1;
      module_ident = 0x30;
      submodule_ident = 1;
      input_length = 2;
      output_length = 2;
    }
    ∷ record {
      slot = 2;
      subslot = 1;
      module_ident = 0x31;
      submodule_ident = 1;
      input_length = 0;
      output_length = 0;
    }
    ∷ []

abbrev pub input_config : IocrConfig
input_config = (build_iocr_configs slots 0x8001 0x8002 32 32 3).0

abbrev pub output_config : IocrConfig
output_config = (build_iocr_configs slots 0x8001 0x8002 32 32 3).1

abbrev pub output_object : IoDataObject
output_object = record {
  slot = 1;
  subslot = 1;
  frame_offset = 0;
  data_length = 2;
  iops_offset = 2;
  iocs_offset = none;
}

pub output_object-found : find_object output_config.objects 1 1 ≡ some output_object
unfolding find_object build_iocr_configs
output_object-found = refl

pub diagnostic_object-found : find_object output_config.objects 2 1 ≢ none
unfolding find_object build_iocr_configs
diagnostic_object-found e = cc

abbrev pub controller_mac : Bytes
controller_mac = 2 ∷ 0 ∷ 0 ∷ 0 ∷ 0 ∷ 1 ∷ []

abbrev pub device_mac : Bytes
device_mac = 2 ∷ 0 ∷ 0 ∷ 0 ∷ 0 ∷ 2 ∷ []

-- A controller in the state `st`, whose link is dead after two silent periods.
abbrev pub controller : CyclicState → Shared
controller st = record {
  src_mac = controller_mac;
  dst_mac = device_mac;
  input_iocr = input_config;
  output_iocr = output_config;
  max_consecutive_timeouts = 2;
  state = st;
  run_flag = true;
  ever_faulted = false;
  cycle_counter = 65000;
  output_builder = Builder.new output_config;
  input_data = λ slot subslot. none;
  last_rx_cycle_counter = none;
  rx_counter_step = 1024;
  tx_counter_step = 1024;
  callbacks = record {
    on_input_data = true;
    on_input_status = true;
    on_timeout = true;
    on_error = true;
    on_state_change = true;
  };
  stats = new_stats 0;
  safe_output = some (1, 1, 7 ∷ 8 ∷ []);
  log = [];
}

pub builder-IsSound : IsSound output_config (Builder.new output_config)
builder-IsSound = new-IsSound output_config (build_iocr_configs-Laid slots 0x8001 0x8002 32 32 3).1

pub controller-IsAddressed : (st : CyclicState) → IsAddressed (controller st)
unfolding build_iocr_configs
controller-IsAddressed st = record { dst_fits = refl; src_fits = refl; id_fits = omega arith }

-- An input frame with valid, running data.
abbrev pub input_frame : RtFrame
input_frame = record {
  frame_id = 0x8001;
  cycle_counter = 1024;
  data_status = 0x35;
  transfer_status = 0;
  payload = 1 ∷ 2 ∷ 0x80 ∷ 0 ∷ [];
}

-- The device has stopped its provider.
abbrev pub stopped_frame : RtFrame
stopped_frame = record input_frame { data_status = 0x25 }

pub input_frame-IsWireFrame : IsWireFrame input_frame
input_frame-IsWireFrame = record { id_fits = omega arith; counter_fits = omega arith }

abbrev pub are_bytes : Bytes → Bool
are_bytes [] = true
are_bytes (b ∷ bs) = ltb b 256 && are_bytes bs

and_parts : (a b : Bool) → a && b ≡ true → (a ≡ true) × (b ≡ true)
and_parts true b h = (refl, h)
and_parts false b h = cc

pub are_bytes_sound : (d : Bytes) → are_bytes d ≡ true → All IsByte d
are_bytes_sound [] h = tt
are_bytes_sound (b ∷ bs) h =
    let parts = and_parts (ltb b 256) (are_bytes bs) h in
    (ltb→lt b 256 parts.0, are_bytes_sound bs parts.1)

-- An untagged input frame, as it stands on the wire.
abbrev pub raw_frame : Bytes
raw_frame =
    controller_mac
    ++ (device_mac ++ (0x88 ∷ 0x92 ∷ 0x80 ∷ 0x01 ∷ 1 ∷ 2 ∷ 0x80 ∷ 0 ∷ 4 ∷ 0 ∷ 0x35 ∷ 0 ∷ []))
