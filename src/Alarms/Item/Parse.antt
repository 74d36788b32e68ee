-- ===== src/Alarms/Item/Parse.antt =====
-- src/alarms.rs, `parse_alarm_item` and the parsers that it calls.
use profinet_rs.Prelude.{
  ℕ, ◌+◌, ◌||◌, ◌==◌, ltb, if◌then◌else◌, length, Bytes, byte_at, u16_at, u32_at, slice, Exec, ok,
  err, ◌>>=◌, usi_too_short, diagnosis_truncated, ext_diagnosis_truncated,
  qualified_diagnosis_truncated, maintenance_truncated, upload_retrieval_truncated,
  pe_alarm_truncated, rs_alarm_truncated, pral_alarm_truncated,
}
use profinet_rs.Alarms.Item.{
  usi_channel_diagnosis, usi_ext_channel_diagnosis, usi_qualified_channel_diagnosis,
  usi_maintenance, usi_upload, usi_iparameter, usi_rs_alarm_low, usi_rs_alarm_high,
  usi_rs_alarm_submodule, usi_pe_alarm, usi_pral_alarm, DiagnosisItem, AlarmItem, diagnosis,
  maintenance, upload_retrieval, pe, rs, pral, generic, is_extended, is_qualified,
}

-- The item before its extensions: the rest is `DiagnosisItem::default()`.
abbrev pub basic_item : ℕ → ℕ → ℕ → ℕ → DiagnosisItem
basic_item usi channel_number channel_properties channel_error_type = record {
  user_structure_id = usi;
  channel_number = channel_number;
  channel_properties = channel_properties;
  channel_error_type = channel_error_type;
  ext_channel_error_type = 0;
  ext_channel_add_value = 0;
  qualified_channel_qualifier = 0;
}

-- The extended part of a diagnosis item, at `offset`.
unfoldable pub ext_part : Bytes → ℕ → DiagnosisItem → Exec (DiagnosisItem × ℕ)
ext_part bytes offset item =
    if is_extended item
    then (if ltb (length bytes) (offset + 6) then err ext_diagnosis_truncated else (do
      ext_channel_error_type ← u16_at bytes offset
      ext_channel_add_value ← u32_at bytes (offset + 2)
      ok (
        record item {
          ext_channel_error_type = ext_channel_error_type;
          ext_channel_add_value = ext_channel_add_value;
        },
        offset + 6,
      )))
    else ok (item, offset)

-- The qualifier of a diagnosis item, and the item's end.
unfoldable pub qualified_part : Bytes → DiagnosisItem × ℕ → Exec (AlarmItem × ℕ)
qualified_part bytes (item, offset) =
    if is_qualified item
    then (if ltb (length bytes) (offset + 4) then err qualified_diagnosis_truncated else (do
      qualifier ← u32_at bytes offset
      ok (diagnosis (record item { qualified_channel_qualifier = qualifier }), offset + 4)))
    else ok (diagnosis item, offset)

unfoldable pub parse_diagnosis_item : Bytes → ℕ → ℕ → Exec (AlarmItem × ℕ)
unfolding ext_part qualified_part
parse_diagnosis_item bytes offset usi =
    if ltb (length bytes) (offset + 6) then err diagnosis_truncated else (do
      channel_number ← u16_at bytes offset
      channel_properties ← u16_at bytes (offset + 2)
      channel_error_type ← u16_at bytes (offset + 4)
      let item = basic_item usi channel_number channel_properties channel_error_type
      ext_part bytes (offset + 6) item >>= qualified_part bytes)

unfoldable pub parse_maintenance_item : Bytes → ℕ → Exec (AlarmItem × ℕ)
parse_maintenance_item bytes offset =
    if ltb (length bytes) (offset + 12) then err maintenance_truncated else (do
      block_type ← u16_at bytes offset
      block_length ← u16_at bytes (offset + 2)
      block_version ← u16_at bytes (offset + 4)
      maintenance_status ← u32_at bytes (offset + 8)
      ok (
        maintenance (record {
          block_type = block_type;
          block_length = block_length;
          block_version = block_version;
          maintenance_status = maintenance_status;
        }),
        offset + 12,
      ))

unfoldable pub parse_upload_retrieval_item : Bytes → ℕ → ℕ → Exec (AlarmItem × ℕ)
parse_upload_retrieval_item bytes offset usi =
    if ltb (length bytes) (offset + 16) then err upload_retrieval_truncated else (do
      block_type ← u16_at bytes offset
      block_length ← u16_at bytes (offset + 2)
      block_version ← u16_at bytes (offset + 4)
      ur_record_index ← u32_at bytes (offset + 8)
      ur_record_length ← u32_at bytes (offset + 12)
      ok (
        upload_retrieval (record {
          user_structure_id = usi;
          block_type = block_type;
          block_length = block_length;
          block_version = block_version;
          ur_record_index = ur_record_index;
          ur_record_length = ur_record_length;
        }),
        offset + 16,
      ))

unfoldable pub parse_pe_alarm_item : Bytes → ℕ → Exec (AlarmItem × ℕ)
parse_pe_alarm_item bytes offset =
    if ltb (length bytes) (offset + 7) then err pe_alarm_truncated else (do
      block_type ← u16_at bytes offset
      block_length ← u16_at bytes (offset + 2)
      block_version ← u16_at bytes (offset + 4)
      pe_operational_mode ← byte_at bytes (offset + 6)
      ok (
        pe (record {
          block_type = block_type;
          block_length = block_length;
          block_version = block_version;
          pe_operational_mode = pe_operational_mode;
        }),
        offset + 7,
      ))

unfoldable pub parse_rs_alarm_item : Bytes → ℕ → ℕ → Exec (AlarmItem × ℕ)
parse_rs_alarm_item bytes offset usi =
    if ltb (length bytes) (offset + 2) then err rs_alarm_truncated else (do
      rs_alarm_info ← u16_at bytes offset
      ok (rs (record { user_structure_id = usi; rs_alarm_info = rs_alarm_info }), offset + 2))

unfoldable pub parse_pral_alarm_item : Bytes → ℕ → Exec (AlarmItem × ℕ)
parse_pral_alarm_item bytes offset =
    if ltb (length bytes) (offset + 8) then err pral_alarm_truncated else (do
      channel_number ← u16_at bytes offset
      pral_channel_properties ← u16_at bytes (offset + 2)
      pral_reason ← u16_at bytes (offset + 4)
      pral_ext_reason ← u16_at bytes (offset + 6)
      rest ← slice bytes (offset + 8) (length bytes)
      ok (
        pral (record {
          channel_number = channel_number;
          pral_channel_properties = pral_channel_properties;
          pral_reason = pral_reason;
          pral_ext_reason = pral_ext_reason;
          pral_reason_add_value = rest;
        }),
        length bytes,
      ))

-- The `match` on the User Structure Identifier.
unfoldable pub dispatch_item : Bytes → ℕ → ℕ → Exec (AlarmItem × ℕ)
dispatch_item bytes offset usi =
    if usi == usi_channel_diagnosis
      || (usi == usi_ext_channel_diagnosis || usi == usi_qualified_channel_diagnosis)
    then parse_diagnosis_item bytes offset usi
    else (if usi == usi_maintenance
        then parse_maintenance_item bytes offset
        else (if usi == usi_upload || usi == usi_iparameter
            then parse_upload_retrieval_item bytes offset usi
            else (if usi == usi_rs_alarm_low
                  || (usi == usi_rs_alarm_high || usi == usi_rs_alarm_submodule)
                then parse_rs_alarm_item bytes offset usi
                else (if usi == usi_pe_alarm
                    then parse_pe_alarm_item bytes offset
                    else (if usi == usi_pral_alarm
                        then parse_pral_alarm_item bytes offset
                        else (slice bytes offset (length bytes) >>= λ raw_data.
                            ok (generic usi raw_data, length bytes)))))))

unfoldable pub parse_alarm_item : Bytes → ℕ → Exec (AlarmItem × ℕ)
unfolding dispatch_item parse_diagnosis_item parse_maintenance_item parse_upload_retrieval_item
    parse_rs_alarm_item parse_pe_alarm_item parse_pral_alarm_item
parse_alarm_item bytes offset =
    if ltb (length bytes) (offset + 2)
    then err usi_too_short
    else (u16_at bytes offset >>= λ usi. dispatch_item bytes (offset + 2) usi)
