-- ===== src/Alarms/Item/Wire.antt =====
-- Alarm items on the wire, as IEC 61158-6-10 lays them out.
pub mod Blocks
pub mod Diagnosis
pub mod Parsed
use profinet_rs.Prelude.{
  ℕ, ◌≡◌, ◌⊎◌, Bool, true, false, ◌||◌, ◌==◌, if◌then◌else◌, [], ◌∷◌, ◌++◌, Bytes, IsU16, IsU32,
  be16, be32,
}
use profinet_rs.Alarms.Item.{
  usi_channel_diagnosis, usi_ext_channel_diagnosis, usi_qualified_channel_diagnosis,
  usi_maintenance, usi_upload, usi_iparameter, usi_rs_alarm_low, usi_rs_alarm_high,
  usi_rs_alarm_submodule, usi_pe_alarm, usi_pral_alarm, DiagnosisItem, MaintenanceItem,
  UploadRetrievalItem, PeAlarmItem, RsAlarmItem, PralAlarmItem, AlarmItem, diagnosis, maintenance,
  upload_retrieval, pe, rs, pral, generic, is_extended, is_qualified, user_structure_id,
}

-- The bytes behind the User Structure Identifier.
abbrev pub body_bytes : AlarmItem → Bytes
body_bytes (diagnosis i) =
    be16 i.channel_number
    ++ (be16 i.channel_properties
        ++ (be16 i.channel_error_type
            ++ ((if is_extended i
                  then be16 i.ext_channel_error_type ++ be32 i.ext_channel_add_value
                  else [])
                ++ (if is_qualified i then be32 i.qualified_channel_qualifier else []))))
body_bytes (maintenance i) =
    be16 i.block_type
    ++ (be16 i.block_length ++ (be16 i.block_version ++ (0 ∷ 0 ∷ be32 i.maintenance_status)))
body_bytes (upload_retrieval i) =
    be16 i.block_type
    ++ (be16 i.block_length
        ++ (be16 i.block_version ++ (0 ∷ 0 ∷ (be32 i.ur_record_index ++ be32 i.ur_record_length))))
body_bytes (pe i) =
    be16 i.block_type
    ++ (be16 i.block_length ++ (be16 i.block_version ++ (i.pe_operational_mode ∷ [])))
body_bytes (rs i) = be16 i.rs_alarm_info
body_bytes (pral i) =
    be16 i.channel_number
    ++ (be16 i.pral_channel_properties
        ++ (be16 i.pral_reason ++ (be16 i.pral_ext_reason ++ i.pral_reason_add_value)))
body_bytes (generic usi raw_data) = raw_data

-- An item with its identifier.
abbrev pub item_bytes : AlarmItem → Bytes
item_bytes i = be16 (user_structure_id i) ++ body_bytes i

-- The items that reach to the end of the payload.
abbrev pub takes_rest : AlarmItem → Bool
takes_rest (pral i) = true
takes_rest (generic usi raw_data) = true
takes_rest _ = false

-- The identifiers that have a parser of their own.
abbrev pub is_known : ℕ → Bool
is_known usi =
    (usi == usi_channel_diagnosis
      || (usi == usi_ext_channel_diagnosis || usi == usi_qualified_channel_diagnosis))
    || (usi == usi_maintenance
        || ((usi == usi_upload || usi == usi_iparameter)
            || ((usi == usi_rs_alarm_low
                  || (usi == usi_rs_alarm_high || usi == usi_rs_alarm_submodule))
                || (usi == usi_pe_alarm || usi == usi_pral_alarm))))

-- The fields of a diagnosis item fit, and those that its identifier leaves out are 0.
pub record IsWireDiagnosis (i : DiagnosisItem) : Type 0 where
  pub usi_known : (i.user_structure_id ≡ usi_channel_diagnosis) ⊎ (is_extended i ≡ true)
  pub number_fits : IsU16 i.channel_number
  pub properties_fit : IsU16 i.channel_properties
  pub error_fits : IsU16 i.channel_error_type
  pub ext_error_fits : IsU16 i.ext_channel_error_type
  pub ext_value_fits : IsU32 i.ext_channel_add_value
  pub qualifier_fits : IsU32 i.qualified_channel_qualifier
  pub plain_zero :
      is_extended i ≡ false → (i.ext_channel_error_type ≡ 0) × (i.ext_channel_add_value ≡ 0)
  pub unqualified_zero : is_qualified i ≡ false → i.qualified_channel_qualifier ≡ 0

-- The fields of an item fit, and its identifier belongs to it.
abbrev pub IsWireItem : AlarmItem → Type 0
IsWireItem (diagnosis i) = IsWireDiagnosis i
IsWireItem (maintenance i) =
    IsU16 i.block_type × IsU16 i.block_length × IsU16 i.block_version × IsU32 i.maintenance_status
IsWireItem (upload_retrieval i) =
    ((i.user_structure_id ≡ usi_upload) ⊎ (i.user_structure_id ≡ usi_iparameter))
    × IsU16 i.block_type
    × IsU16 i.block_length
    × IsU16 i.block_version
    × IsU32 i.ur_record_index
    × IsU32 i.ur_record_length
IsWireItem (pe i) = IsU16 i.block_type × IsU16 i.block_length × IsU16 i.block_version
IsWireItem (rs i) =
    ((i.user_structure_id ≡ usi_rs_alarm_low)
      ⊎ ((i.user_structure_id ≡ usi_rs_alarm_high)
          ⊎ (i.user_structure_id ≡ usi_rs_alarm_submodule)))
    × IsU16 i.rs_alarm_info
IsWireItem (pral i) =
    IsU16 i.channel_number
    × IsU16 i.pral_channel_properties
    × IsU16 i.pral_reason
    × IsU16 i.pral_ext_reason
IsWireItem (generic usi raw_data) = IsU16 usi × (is_known usi ≡ false)
