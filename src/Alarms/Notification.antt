-- ===== src/Alarms/Notification.antt =====
-- src/alarms.rs: `AlarmNotification`, its parser, and the search for the alarm CR's answer.
pub mod Total
pub mod RoundTrip
pub mod CrRes
use profinet_rs.Prelude.{
  ℕ, zero, suc, ◌+◌, bit_and, Bool, not, ◌&&◌, ◌==◌, ltb, leb, if◌then◌else◌, Option, none, some,
  List, [], ◌∷◌, length, Bytes, byte_at, u16_at, u32_at, slice, Exec, ok, err, stuck, ◌>>=◌, ◌>>◌,
  to_option, alarm_too_short,
}
use profinet_rs.Alarms.Item.{AlarmItem}
use profinet_rs.Alarms.Item.Parse.{parse_alarm_item}

abbrev pub block_alarm_notification_high : ℕ
block_alarm_notification_high = 0x0001

abbrev pub block_alarm_notification_low : ℕ
block_alarm_notification_low = 0x0002

abbrev pub block_alarm_cr_res : ℕ
block_alarm_cr_res = 0x8103

abbrev pub alarm_body_len : ℕ
alarm_body_len = 20

pub record AlarmNotification : Type 0 where
  pub block_type : ℕ
  pub block_version : ℕ × ℕ
  pub alarm_type : ℕ
  pub api : ℕ
  pub slot_number : ℕ
  pub subslot_number : ℕ
  pub module_ident_number : ℕ
  pub submodule_ident_number : ℕ
  pub alarm_sequence_number : ℕ
  pub channel_diagnosis : Bool
  pub manufacturer_specific : Bool
  pub submodule_diagnosis_state : Bool
  pub ar_diagnosis_state : Bool
  pub items : List AlarmItem
  pub raw_payload : Bytes

abbrev pub is_high_priority : AlarmNotification → Bool
is_high_priority n = n.block_type == block_alarm_notification_high

abbrev pub is_low_priority : AlarmNotification → Bool
is_low_priority n = n.block_type == block_alarm_notification_low

-- The bit of an alarm specifier that `mask` selects.
abbrev pub has_bit : ℕ → ℕ → Bool
has_bit specifier mask = not (bit_and specifier mask == 0)

-- `while item_offset < payload.len()`: the items from `offset` on. An item that does not parse ends
-- the loop.
unfoldable pub items_loop : ℕ → Bytes → ℕ → Exec (List AlarmItem)
items_loop zero payload offset = stuck
items_loop (suc fuel) payload offset =
    if ltb offset (length payload)
    then (to_option (parse_alarm_item payload offset) >>= λ parsed. elim parsed [
      | none ↦ ok []
      | some (item, next) ↦ items_loop fuel payload next >>= λ items. ok (item ∷ items)
    ])
    else ok []

-- The bytes that belong to the alarm: a block length that makes sense cuts the padding off.
unfoldable pub cut_block : Bytes → Exec Bytes
cut_block bytes = do
  block_length ← u16_at bytes 2
  if leb (6 + alarm_body_len) (4 + block_length) && ltb (4 + block_length) (length bytes)
      then slice bytes 0 (4 + block_length)
      else ok bytes

unfoldable pub parse_alarm_notification : Bytes → Exec AlarmNotification
unfolding cut_block items_loop
parse_alarm_notification bytes =
    if ltb (length bytes) (6 + alarm_body_len) then err alarm_too_short else (do
      block_type ← u16_at bytes 0
      ver_high ← byte_at bytes 4
      ver_low ← byte_at bytes 5
      block ← cut_block bytes
      alarm_type ← u16_at block 6
      api ← u32_at block 8
      slot_number ← u16_at block 12
      subslot_number ← u16_at block 14
      module_ident ← u32_at block 16
      submodule_ident ← u32_at block 20
      alarm_specifier ← u16_at block 24
      payload ← slice block (6 + alarm_body_len) (length block)
      items ← items_loop (suc (length payload)) payload 0
      ok (record {
        block_type = block_type;
        block_version = (ver_high, ver_low);
        alarm_type = alarm_type;
        api = api;
        slot_number = slot_number;
        subslot_number = subslot_number;
        module_ident_number = module_ident;
        submodule_ident_number = submodule_ident;
        alarm_sequence_number = bit_and alarm_specifier 0x07FF;
        channel_diagnosis = has_bit alarm_specifier 0x0800;
        manufacturer_specific = has_bit alarm_specifier 0x1000;
        submodule_diagnosis_state = has_bit alarm_specifier 0x2000;
        ar_diagnosis_state = has_bit alarm_specifier 0x8000;
        items = items;
        raw_payload = payload;
      }))

-- The `while` of `parse_alarm_cr_res`.
unfoldable pub alarm_cr_loop : ℕ → Bytes → ℕ → Exec (Option ℕ)
alarm_cr_loop zero response offset = stuck
alarm_cr_loop (suc fuel) response offset =
    if leb (offset + 6) (length response)
    then (do
      block_type ← u16_at response offset
      block_length ← u16_at response (offset + 2)
      let next = alarm_cr_loop fuel response (offset + (4 + block_length))
      if block_type == block_alarm_cr_res && leb (offset + 12) (length response)
          then (u16_at response (offset + 8) >>= λ reference. ok (some reference))
          else next)
    else ok none

unfoldable pub parse_alarm_cr_res : Bytes → Exec (Option ℕ)
unfolding alarm_cr_loop
parse_alarm_cr_res response = alarm_cr_loop (suc (length response)) response 0
