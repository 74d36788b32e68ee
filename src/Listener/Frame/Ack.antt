-- ===== src/Listener/Frame/Ack.antt =====
-- src/alarm_listener.rs, `build_alarm_ack`: it answers for the alarm that it was built for.
use profinet_rs.Prelude.{
  ℕ, ◌+◌, ◌≡◌, ◌⊎◌, refl, arith, bit_and, bit_or, true, if◌then◌else◌, [], ◌∷◌, ◌++◌, Bytes, IsU16,
  be16, be32, ok, ◌>>=◌, agree_below, eq_of_agree_below,
}
use profinet_rs.Alarms.Notification.{has_bit, is_high_priority, parse_alarm_notification}
use profinet_rs.Alarms.Notification.RoundTrip.{
  AlarmPdu, IsWirePdu, pdu_bytes, notification_of, parse_alarm_notification-pdu_bytes,
}
use profinet_rs.Listener.Frame.{ack_specifier, build_alarm_ack}

abbrev bit_of : ℕ → ℕ → ℕ
bit_of s mask = if has_bit s mask then mask else 0

abbrev rebuilt : ℕ → ℕ
rebuilt s =
    bit_or
      (bit_or
        (bit_or (bit_or (bit_and (bit_and s 0x07FF) 0x07FF) (bit_of s 0x0800)) (bit_of s 0x1000))
        (bit_of s 0x2000))
      (bit_of s 0x8000)

specifier_table : agree_below 65536 rebuilt (λ s. bit_and s 0xBFFF) ≡ true
unfolding agree_below
specifier_table = refl

-- Taken apart by the parser and put together again, a specifier loses its reserved bit 14 only.
ack_specifier-notification_of :
    (p : AlarmPdu)
    → IsU16 p.specifier
    → ack_specifier (notification_of p) ≡ bit_and p.specifier 0xBFFF
unfolding ack_specifier
ack_specifier-notification_of p h =
    eq_of_agree_below 65536 rebuilt (λ s. bit_and s 0xBFFF) p.specifier specifier_table h

-- For an alarm whose fields fit and which is of high or low priority, the AlarmAck built from what the
-- parser read has 22 bytes: the block type of the alarm with the top bit set, the length 18 and the version
-- 1.0, then the alarm's type, API, slot, subslot and specifier as they came, but for the reserved bit 14 of
-- the specifier, and the status OK.
pub build_alarm_ack-notification_of :
    (p : AlarmPdu) (padding : Bytes)
    → IsWirePdu p
    → (p.block_type ≡ 1) ⊎ (p.block_type ≡ 2)
    → (parse_alarm_notification (pdu_bytes p ++ padding) >>= λ n. ok (build_alarm_ack n))
      ≡ ok (
          be16 (32768 + p.block_type)
          ++ (be16 18
              ++ (1
                  ∷ 0
                  ∷ (be16 p.alarm_type
                      ++ (be32 p.api
                          ++ (be16 p.slot
                              ++ (be16 p.subslot
                                  ++ (be16 (bit_and p.specifier 0xBFFF)
                                      ++ (0 ∷ 0 ∷ 0 ∷ 0 ∷ [])))))))))
unfolding build_alarm_ack
build_alarm_ack-notification_of p padding w kinds =
    rw
      (
        parse_alarm_notification-pdu_bytes p padding w,
        ack_specifier-notification_of p w.specifier_fits,
        ack_type kinds,
      )
      refl
  where
    ack_type :
        (p.block_type ≡ 1) ⊎ (p.block_type ≡ 2)
        → (if is_high_priority (notification_of p) then 0x8001 else 0x8002) ≡ 32768 + p.block_type
    ack_type k = ground (arith, k)
