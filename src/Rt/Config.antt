-- ===== src/Rt/Config.antt =====
-- src/rt.rs: `IoDataObject`, `IocrConfig` and the layout that `build_iocr_configs` gives the cyclic
-- data; src/gsdml.rs, `IoSlot`.
pub mod Layout
use profinet_rs.Prelude.{
  ℕ, ◌+◌, ◌*◌, ◌/◌, max, ◌==◌, ltb, if◌then◌else◌, Option, none, some, List, [], ◌∷◌, ◌++◌,
}

pub record IoSlot : Type 0 where
  pub slot : ℕ
  pub subslot : ℕ
  pub module_ident : ℕ
  pub submodule_ident : ℕ
  pub input_length : ℕ
  pub output_length : ℕ

pub record IoDataObject : Type 0 where
  pub slot : ℕ
  pub subslot : ℕ
  pub frame_offset : ℕ
  pub data_length : ℕ
  pub iops_offset : ℕ
  pub iocs_offset : Option ℕ

abbrev pub iocr_type_input : ℕ
iocr_type_input = 1

abbrev pub iocr_type_output : ℕ
iocr_type_output = 2

pub record IocrConfig : Type 0 where
  pub iocr_type : ℕ
  pub iocr_reference : ℕ
  pub frame_id : ℕ
  pub send_clock_factor : ℕ
  pub reduction_ratio : ℕ
  pub phase : ℕ
  pub watchdog_factor : ℕ
  pub data_length : ℕ
  pub objects : List IoDataObject

-- `u64` products of 16-bit factors: they stay below 2 ^ 55, so nothing wraps.
unfoldable pub cycle_time_us : IocrConfig → ℕ
cycle_time_us c = c.reduction_ratio * c.send_clock_factor * 125 / 4

unfoldable pub watchdog_time_us : IocrConfig → ℕ
unfolding cycle_time_us
watchdog_time_us c = c.watchdog_factor * cycle_time_us c

-- The first loop over the slots, for the slots with data: data, then an IOPS byte. It returns the
-- objects that it pushes and the offset that it ends at. `len` reads `input_length` or
-- `output_length`.
unfoldable pub data_objects : (IoSlot → ℕ) → List IoSlot → ℕ → List IoDataObject × ℕ
data_objects len [] offset = ([], offset)
data_objects len (s ∷ slots) offset =
    let (rest, end) =
      data_objects len slots (if ltb 0 (len s) then offset + (len s + 1) else offset) in
    if ltb 0 (len s)
    then (
      record {
        slot = s.slot;
        subslot = s.subslot;
        frame_offset = offset;
        data_length = len s;
        iops_offset = offset + len s;
        iocs_offset = none;
      }
          ∷ rest,
      end,
    )
    else (rest, end)

-- The second loop of the input IOCR only moves the offset on, by an IOCS byte for each slot without
-- input data.
unfoldable pub skip_iocs : List IoSlot → ℕ → ℕ
skip_iocs [] offset = offset
skip_iocs (s ∷ slots) offset = skip_iocs slots (if s.input_length == 0 then offset + 1 else offset)

-- The second loop of the output IOCR: an IOCS-only object for each slot without output data.
unfoldable pub iocs_objects : List IoSlot → ℕ → List IoDataObject × ℕ
iocs_objects [] offset = ([], offset)
iocs_objects (s ∷ slots) offset =
    let (rest, end) = iocs_objects slots (if s.output_length == 0 then offset + 1 else offset) in
    if s.output_length == 0
    then (
      record {
        slot = s.slot;
        subslot = s.subslot;
        frame_offset = offset;
        data_length = 0;
        iops_offset = 0;
        iocs_offset = some offset;
      }
          ∷ rest,
      end,
    )
    else (rest, end)

module _ (slots : List IoSlot)
    (input_frame_id output_frame_id send_clock_factor reduction_ratio watchdog_factor : ℕ) where
  unfoldable pub input_iocr : IocrConfig
  unfolding data_objects skip_iocs
  input_iocr =
      let (objects, offset) = data_objects (λ s. s.input_length) slots 0 in
      record {
        iocr_type = iocr_type_input;
        iocr_reference = 1;
        frame_id = input_frame_id;
        send_clock_factor = send_clock_factor;
        reduction_ratio = reduction_ratio;
        phase = 0;
        watchdog_factor = watchdog_factor;
        data_length = max (skip_iocs slots offset) 40;
        objects = objects;
      }

  unfoldable pub output_iocr : IocrConfig
  unfolding data_objects iocs_objects
  output_iocr =
      let (objects, offset) = data_objects (λ s. s.output_length) slots 0 in
      let (consumer, end) = iocs_objects slots offset in
      record {
        iocr_type = iocr_type_output;
        iocr_reference = 2;
        frame_id = output_frame_id;
        send_clock_factor = send_clock_factor;
        reduction_ratio = reduction_ratio;
        phase = 0;
        watchdog_factor = watchdog_factor;
        data_length = max end 40;
        objects = objects ++ consumer;
      }

  unfoldable pub build_iocr_configs : IocrConfig × IocrConfig
  unfolding input_iocr output_iocr
  build_iocr_configs = (input_iocr, output_iocr)
