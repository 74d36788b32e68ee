-- ===== src/Connect.antt =====
-- src/connect.rs: the blocks of a connect request.
pub mod Request
pub mod Entries
pub mod Layout
use profinet_rs.Prelude.{
  ℕ, ◌+◌, ◌-◌, ◌*◌, ◌%◌, max, bit_or, Bool, not, ◌&&◌, ◌||◌, ◌==◌, ltb, if◌then◌else◌, List, [],
  ◌∷◌, ◌++◌, length, replicate, Bytes, be16, be32,
}
use profinet_rs.Rt.Config.{IoSlot}
use profinet_rs.Rpc.{nrd, rpc_request}

abbrev pub ar_type_iocar_single : ℕ
ar_type_iocar_single = 0x0001

abbrev pub ar_type_iosar : ℕ
ar_type_iosar = 0x0006

abbrev pub ar_properties_iocar : ℕ
ar_properties_iocar = 0x00000011

abbrev pub ar_properties_device_access : ℕ
ar_properties_device_access = 0x00000111

abbrev pub cm_initiator_object_uuid : Bytes
cm_initiator_object_uuid =
    0xDE ∷ 0xA0 ∷ 0x00 ∷ 0x00 ∷ 0x6C ∷ 0x97 ∷ 0x11 ∷ 0xD1 ∷ 0x82 ∷ 0x71 ∷ 0x00 ∷ 0x01 ∷ 0x76 ∷ 0x54
    ∷ 0x32 ∷ 0x10 ∷ []

abbrev pub default_rta_timeout_factor : ℕ
default_rta_timeout_factor = 1

abbrev pub default_rta_retries : ℕ
default_rta_retries = 3

abbrev pub default_max_alarm_data_length : ℕ
default_max_alarm_data_length = 200

abbrev pub default_tag_header_high : ℕ
default_tag_header_high = 0xC000

abbrev pub default_tag_header_low : ℕ
default_tag_header_low = 0xA000

-- src/rpc.rs: the opnum of a connect
abbrev pub connect : ℕ
connect = 0

pub record IocrSetup : Type 0 where
  pub io_slots : List IoSlot
  pub send_clock_factor : ℕ
  pub reduction_ratio : ℕ
  pub watchdog_factor : ℕ
  pub data_hold_factor : ℕ

-- The slots with data in either direction.
unfoldable pub with_io : List IoSlot → List IoSlot
with_io [] = []
with_io (s ∷ slots) =
    let rest = with_io slots in
    if ltb 0 s.input_length || ltb 0 s.output_length then s ∷ rest else rest

unfoldable pub apply_zero_io_exclusion : List IoSlot → Bool → List IoSlot
unfolding with_io
apply_zero_io_exclusion slots exclude = if not exclude then slots else with_io slots

unfoldable pub block_header : Bytes → ℕ → ℕ → Bytes
block_header out block_type block_length =
    out ++ (be16 block_type ++ (be16 block_length ++ (0x01 ∷ 0x00 ∷ [])))

unfoldable pub ar_block_req : ℕ → Bytes → ℕ → Bytes → ℕ → Bytes → Bytes
unfolding block_header
ar_block_req ar_type ar_uuid session_key cm_mac ar_properties cm_station_name =
    block_header [] 0x0101 ((54 + length cm_station_name) % 65536)
    ++ (be16 ar_type
        ++ (ar_uuid
            ++ (be16 session_key
                ++ (cm_mac
                    ++ (cm_initiator_object_uuid
                        ++ (be32 ar_properties
                            ++ (be16 100
                                ++ (be16 0x8892
                                    ++ (be16 (length cm_station_name % 65536)
                                        ++ cm_station_name)))))))))

unfoldable pub iocr_api_object : ℕ → ℕ → ℕ → Bytes
iocr_api_object slot subslot frame_offset = be16 slot ++ (be16 subslot ++ be16 frame_offset)

-- The loop over the slots with data: the entries, their number and the offset behind them.
unfoldable pub io_data_loop : (IoSlot → ℕ) → List IoSlot → ℕ → ℕ → Bytes × ℕ × ℕ
unfolding iocr_api_object
io_data_loop len [] num offset = ([], num, offset)
io_data_loop len (s ∷ slots) num offset =
    let used = ltb 0 (len s) in
    let rest =
      io_data_loop len slots (if used then (num + 1) % 65536 else num)
        (if used then offset + (len s + 1) else offset) in
    if used
    then (iocr_api_object s.slot s.subslot (offset % 65536) ++ rest.0, rest.1, rest.2)
    else rest

-- The two `continue`s of the second loop.
abbrev pub has_data : ℕ → IoSlot → Bool
has_data iocr_type s =
    ((iocr_type == 1) && ltb 0 s.input_length) || ((iocr_type == 2) && ltb 0 s.output_length)

-- The loop over the other slots.
unfoldable pub consumer_loop : ℕ → List IoSlot → ℕ → ℕ → Bytes × ℕ × ℕ
unfolding iocr_api_object
consumer_loop iocr_type [] num offset = ([], num, offset)
consumer_loop iocr_type (s ∷ slots) num offset =
    let passed = has_data iocr_type s in
    let rest =
      consumer_loop iocr_type slots (if passed then num else (num + 1) % 65536)
        (if passed then offset else offset + 1) in
    if passed
    then rest
    else (iocr_api_object s.slot s.subslot (offset % 65536) ++ rest.0, rest.1, rest.2)

-- The block, with the entries of both kinds and the offset behind them.
unfoldable pub iocr_block : ℕ → ℕ → IocrSetup → Bytes × ℕ → Bytes × ℕ × ℕ → Bytes
unfolding block_header
iocr_block iocr_type iocr_reference setup (objects, num_objects) (iocs, iocs_count, frame_offset) =
    block_header [] 0x0102 ((46 + (4 + 2 + length objects + 2 + length iocs) - 4) % 65536)
    ++ (be16 iocr_type
        ++ (be16 iocr_reference
            ++ (be16 0x8892
                ++ (be32 0x00000001
                    ++ (be16 (max frame_offset 40 % 65536)
                        ++ (be16
                              (if iocr_type == 1 then (0xC000 + iocr_reference) % 65536 else 0xFFFF)
                            ++ (be16 setup.send_clock_factor
                                ++ (be16 setup.reduction_ratio
                                    ++ (be16 1
                                        ++ (be16 0
                                            ++ (be32 0xFFFFFFFF
                                                ++ (be16 setup.watchdog_factor
                                                    ++ (be16 setup.data_hold_factor
                                                        ++ (be16 0xC000
                                                            ++ (replicate 6 0
                                                            ++ (be16 1
                                                            ++ (be32 0
                                                            ++ (be16 num_objects
                                                            ++ (objects
                                                            ++ (be16 iocs_count
                                                            ++ iocs))))))))))))))))))))

unfoldable pub iocr_block_req : ℕ → ℕ → IocrSetup → Bytes
unfolding io_data_loop consumer_loop iocr_block
iocr_block_req iocr_type iocr_reference setup =
    let (objects, num_objects, offset) =
      io_data_loop (λ s. if iocr_type == 1 then s.input_length else s.output_length) setup.io_slots
        0 0 in
    iocr_block iocr_type iocr_reference setup (objects, num_objects)
      (consumer_loop iocr_type setup.io_slots 0 offset)

-- `(transport << 1) | priority`
unfoldable pub alarm_cr_block : ℕ → ℕ → ℕ → Bytes
unfolding block_header
alarm_cr_block local_alarm_reference transport priority =
    block_header [] 0x0103 22
    ++ (be16 0x0001
        ++ (be16 (if transport == 0 then 0x8892 else 0x0800)
            ++ (be32 (bit_or (transport * 2) priority)
                ++ (be16 default_rta_timeout_factor
                    ++ (be16 default_rta_retries
                        ++ (be16 local_alarm_reference
                            ++ (be16 default_max_alarm_data_length
                                ++ (be16 default_tag_header_high
                                    ++ be16 default_tag_header_low))))))))
