-- ===== src/Alarms/Item.antt =====
-- src/alarms.rs: the alarm items.
pub mod Parse
pub mod Total
pub mod Wire
use profinet_rs.Prelude.{ℕ, Bool, ◌||◌, ◌==◌, Bytes}

abbrev pub usi_channel_diagnosis : ℕ
usi_channel_diagnosis = 0x8000

abbrev pub usi_ext_channel_diagnosis : ℕ
usi_ext_channel_diagnosis = 0x8002

abbrev pub usi_qualified_channel_diagnosis : ℕ
usi_qualified_channel_diagnosis = 0x8003

abbrev pub usi_maintenance : ℕ
usi_maintenance = 0x8100

abbrev pub usi_upload : ℕ
usi_upload = 0x8200

abbrev pub usi_iparameter : ℕ
usi_iparameter = 0x8201

abbrev pub usi_rs_alarm_low : ℕ
usi_rs_alarm_low = 0x8300

abbrev pub usi_rs_alarm_high : ℕ
usi_rs_alarm_high = 0x8301

abbrev pub usi_rs_alarm_submodule : ℕ
usi_rs_alarm_submodule = 0x8302

abbrev pub usi_pe_alarm : ℕ
usi_pe_alarm = 0x8310

abbrev pub usi_pral_alarm : ℕ
usi_pral_alarm = 0x8320

pub record DiagnosisItem : Type 0 where
  pub user_structure_id : ℕ
  pub channel_number : ℕ
  pub channel_properties : ℕ
  pub channel_error_type : ℕ
  pub ext_channel_error_type : ℕ
  pub ext_channel_add_value : ℕ
  pub qualified_channel_qualifier : ℕ

pub record MaintenanceItem : Type 0 where
  pub block_type : ℕ
  pub block_length : ℕ
  pub block_version : ℕ
  pub maintenance_status : ℕ

pub record UploadRetrievalItem : Type 0 where
  pub user_structure_id : ℕ
  pub block_type : ℕ
  pub block_length : ℕ
  pub block_version : ℕ
  pub ur_record_index : ℕ
  pub ur_record_length : ℕ

pub record PeAlarmItem : Type 0 where
  pub block_type : ℕ
  pub block_length : ℕ
  pub block_version : ℕ
  pub pe_operational_mode : ℕ

pub record RsAlarmItem : Type 0 where
  pub user_structure_id : ℕ
  pub rs_alarm_info : ℕ

pub record PralAlarmItem : Type 0 where
  pub channel_number : ℕ
  pub pral_channel_properties : ℕ
  pub pral_reason : ℕ
  pub pral_ext_reason : ℕ
  pub pral_reason_add_value : Bytes

pub data AlarmItem : Type 0 where
  diagnosis : DiagnosisItem → AlarmItem
  maintenance : MaintenanceItem → AlarmItem
  upload_retrieval : UploadRetrievalItem → AlarmItem
  pe : PeAlarmItem → AlarmItem
  rs : RsAlarmItem → AlarmItem
  pral : PralAlarmItem → AlarmItem
  generic : ℕ → Bytes → AlarmItem

-- `DiagnosisItem::is_extended` and `is_qualified`
abbrev pub is_extended : DiagnosisItem → Bool
is_extended i =
    i.user_structure_id == usi_ext_channel_diagnosis
    || i.user_structure_id == usi_qualified_channel_diagnosis

abbrev pub is_qualified : DiagnosisItem → Bool
is_qualified i = i.user_structure_id == usi_qualified_channel_diagnosis

-- `AlarmItem::user_structure_id`
unfoldable pub user_structure_id : AlarmItem → ℕ
user_structure_id (diagnosis i) = i.user_structure_id
user_structure_id (maintenance i) = usi_maintenance
user_structure_id (upload_retrieval i) = i.user_structure_id
user_structure_id (pe i) = usi_pe_alarm
user_structure_id (rs i) = i.user_structure_id
user_structure_id (pral i) = usi_pral_alarm
user_structure_id (generic usi raw_data) = usi
