-- ===== src/Alarms/Item/Wire/Blocks.antt =====
-- src/alarms.rs: the parsers of the items other than diagnosis read back what is on the wire.
use profinet_rs.Prelude.{
  ℕ, ◌+◌, ◌≡◌, arith, [], ◌++◌, append_assoc, length, take, drop, length-append, Bytes, IsU16,
  IsU32, byte_at, byte_at-append, u16_at-be16, u16_at-append, u32_at-append, u32_at-be32,
  slice_rest, ok,
}
use profinet_rs.Alarms.Item.{
  MaintenanceItem, UploadRetrievalItem, PeAlarmItem, RsAlarmItem, PralAlarmItem, maintenance,
  upload_retrieval, pe, rs, pral,
}
use profinet_rs.Alarms.Item.Parse.{
  parse_maintenance_item, parse_upload_retrieval_item, parse_pe_alarm_item, parse_rs_alarm_item,
  parse_pral_alarm_item,
}
use profinet_rs.Alarms.Item.Wire.{body_bytes}

module _ (front rest : Bytes) where
  pub parse_rs_alarm_item-wire :
      (i : RsAlarmItem) (o : ℕ)
      → o ≡ length front
      → IsU16 i.rs_alarm_info
      → parse_rs_alarm_item (front ++ (body_bytes (rs i) ++ rest)) o i.user_structure_id
        ≡ ok (rs i, o + 2)
  unfolding parse_rs_alarm_item
  parse_rs_alarm_item-wire i o e w =
      let d = body_bytes (rs i) ++ rest in
      ground (
        arith,
        u16_at-append front d o 0,
        u16_at-be16 [] rest 0 i.rs_alarm_info,
        length-append front d,
      )

  pub parse_maintenance_item-wire :
      (i : MaintenanceItem) (o : ℕ)
      → o ≡ length front
      → IsU16 i.block_type
      → IsU16 i.block_length
      → IsU16 i.block_version
      → IsU32 i.maintenance_status
      → parse_maintenance_item (front ++ (body_bytes (maintenance i) ++ rest)) o
        ≡ ok (maintenance i, o + 12)
  unfolding parse_maintenance_item
  parse_maintenance_item-wire i o e w x y z =
      let d = body_bytes (maintenance i) ++ rest in
      ground (
        arith,
        u16_at-append front d o 0,
        u16_at-be16 [] (drop 2 d) 0 i.block_type,
        u16_at-append front d (o + 2) 2,
        u16_at-be16 (take 2 d) (drop 4 d) 2 i.block_length,
        u16_at-append front d (o + 4) 4,
        u16_at-be16 (take 4 d) (drop 6 d) 4 i.block_version,
        u32_at-append front d (o + 8) 8,
        u32_at-be32 (take 8 d) rest 8 i.maintenance_status,
        length-append front d,
      )

  pub parse_upload_retrieval_item-wire :
      (i : UploadRetrievalItem) (o : ℕ)
      → o ≡ length front
      → IsU16 i.block_type
      → IsU16 i.block_length
      → IsU16 i.block_version
      → IsU32 i.ur_record_index
      → IsU32 i.ur_record_length
      → parse_upload_retrieval_item
          (front ++ (body_bytes (upload_retrieval i) ++ rest))
          o
          i.user_structure_id
        ≡ ok (upload_retrieval i, o + 16)
  unfolding parse_upload_retrieval_item
  parse_upload_retrieval_item-wire i o e w x y z v =
      let d = body_bytes (upload_retrieval i) ++ rest in
      ground (
        arith,
        u16_at-append front d o 0,
        u16_at-be16 [] (drop 2 d) 0 i.block_type,
        u16_at-append front d (o + 2) 2,
        u16_at-be16 (take 2 d) (drop 4 d) 2 i.block_length,
        u16_at-append front d (o + 4) 4,
        u16_at-be16 (take 4 d) (drop 6 d) 4 i.block_version,
        u32_at-append front d (o + 8) 8,
        u32_at-be32 (take 8 d) (drop 12 d) 8 i.ur_record_index,
        u32_at-append front d (o + 12) 12,
        u32_at-be32 (take 12 d) rest 12 i.ur_record_length,
        length-append front d,
      )

  pub parse_pe_alarm_item-wire :
      (i : PeAlarmItem) (o : ℕ)
      → o ≡ length front
      → IsU16 i.block_type
      → IsU16 i.block_length
      → IsU16 i.block_version
      → parse_pe_alarm_item (front ++ (body_bytes (pe i) ++ rest)) o ≡ ok (pe i, o + 7)
  unfolding parse_pe_alarm_item byte_at
  parse_pe_alarm_item-wire i o e w x y =
      let d = body_bytes (pe i) ++ rest in
      ground (
        arith,
        u16_at-append front d o 0,
        u16_at-be16 [] (drop 2 d) 0 i.block_type,
        u16_at-append front d (o + 2) 2,
        u16_at-be16 (take 2 d) (drop 4 d) 2 i.block_length,
        u16_at-append front d (o + 4) 4,
        u16_at-be16 (take 4 d) (drop 6 d) 4 i.block_version,
        byte_at-append front d (o + 6) 6,
        length-append front d,
      )

  pub parse_pral_alarm_item-wire :
      (i : PralAlarmItem) (o : ℕ)
      → o ≡ length front
      → IsU16 i.channel_number
      → IsU16 i.pral_channel_properties
      → IsU16 i.pral_reason
      → IsU16 i.pral_ext_reason
      → parse_pral_alarm_item (front ++ body_bytes (pral i)) o
        ≡ ok (pral i, length (front ++ body_bytes (pral i)))
  unfolding parse_pral_alarm_item
  parse_pral_alarm_item-wire i o e w x y z =
      let d = body_bytes (pral i) in
      ground (
        arith,
        u16_at-append front d o 0,
        u16_at-be16 [] (drop 2 d) 0 i.channel_number,
        u16_at-append front d (o + 2) 2,
        u16_at-be16 (take 2 d) (drop 4 d) 2 i.pral_channel_properties,
        u16_at-append front d (o + 4) 4,
        u16_at-be16 (take 4 d) (drop 6 d) 4 i.pral_reason,
        u16_at-append front d (o + 6) 6,
        u16_at-be16 (take 6 d) (drop 8 d) 6 i.pral_ext_reason,
        slice_rest (front ++ take 8 d) i.pral_reason_add_value (o + 8) (length (front ++ d)),
        append_assoc front (take 8 d) i.pral_reason_add_value,
        length-append front (take 8 d),
        length-append front d,
      )
