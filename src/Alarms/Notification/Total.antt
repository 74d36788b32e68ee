-- ===== src/Alarms/Notification/Total.antt =====
-- src/alarms.rs: the parsers of notifications and of the alarm CR's answer come back.
use profinet_rs.Prelude.{
  ◌⊎◌, inl, inr, ℕ, zero, suc, ◌+◌, ◌-◌, ◌*◌, ◌<◌, ◌≤◌, ◌≡◌, refl, arith, ◌&&◌, ltb, leb,
  Bool-cases, Yields-bind, if-Yields, none, some, List, [], ◌∷◌, length, take, drop, length-take,
  length-drop, Bytes, at16, byte_at_lem, u16_at_lem, u32_at_lem, slice_lem, Exec, ok, err, panic,
  stuck, ◌>>=◌, to_option, Yields, Gives, alarm_too_short,
}
use profinet_rs.Alarms.Item.{AlarmItem}
use profinet_rs.Alarms.Item.Parse.{parse_alarm_item}
use profinet_rs.Alarms.Item.Total.{EndsIn, parse_alarm_item-Gives}
use profinet_rs.Alarms.Notification.{
  alarm_body_len, items_loop, cut_block, parse_alarm_notification, alarm_cr_loop,
  parse_alarm_cr_res,
}

-- Items of two bytes or more fit `room` bytes.
abbrev Fit : ℕ → List AlarmItem → Type 0
Fit room items = 2 * length items ≤ room

items_step :
    (fuel : ℕ) (payload : Bytes) (offset : ℕ) (m : Exec (AlarmItem × ℕ))
    → Gives m (EndsIn payload (offset + 2))
    → ((next : ℕ)
        → offset + 2 ≤ next
        → next ≤ length payload
        → Yields (items_loop fuel payload next) (Fit (length payload - next)))
    → Yields
        (to_option m >>= λ parsed. elim parsed [
          | none ↦ ok []
          | some (item, next) ↦ items_loop fuel payload next >>= λ items. ok (item ∷ items)
        ])
        (Fit (length payload - offset))
items_step fuel payload offset (ok (item, next)) h k =
    Yields-bind (items_loop fuel payload next) _ (Fit (length payload - next)) _ (k next h.0 h.1)
      (λ items fit. omega arith)
items_step fuel payload offset (err e) h k = omega arith
items_step fuel payload offset panic h k = absurd h
items_step fuel payload offset stuck h k = absurd h

items_loop-Yields :
    (fuel : ℕ) (payload : Bytes) (offset : ℕ)
    → offset ≤ length payload
    → length payload < fuel + offset
    → Yields (items_loop fuel payload offset) (Fit (length payload - offset))
unfolding items_loop
items_loop-Yields zero payload offset h k = absurd (omega arith)
items_loop-Yields (suc fuel) payload offset h k =
    if-Yields (ltb offset (length payload)) _ _ _
      (λ _.
        items_step fuel payload offset (parse_alarm_item payload offset)
          (parse_alarm_item-Gives payload offset)
          (λ next p q. items_loop-Yields fuel payload next q (omega arith)))
      (λ _. omega arith)

-- The part that `cut_block` leaves.
cut_block-Yields :
    (bytes : Bytes)
    → 26 ≤ length bytes
    → Yields (cut_block bytes) (λ b. (26 ≤ length b) × (length b ≤ length bytes))
unfolding cut_block
cut_block-Yields bytes h = rw (u16_at_lem bytes 2 (omega arith)) (
    if-Yields (leb (6 + alarm_body_len) (4 + at16 bytes 2) && ltb (4 + at16 bytes 2) (length bytes))
      _ _ _
      (λ cut.
        let k : (26 ≤ 4 + at16 bytes 2) × (4 + at16 bytes 2 ≤ length bytes) = ground arith in
        rw (slice_lem bytes 0 (4 + at16 bytes 2) (omega arith) k.1)
          (omega (arith, length-take (4 + at16 bytes 2 - 0) (drop 0 bytes), length-drop 0 bytes)))
      (λ _. (h, omega arith)))

-- The parser of notifications gives an error on fewer than 26 bytes, and a notification on any other:
-- no length field or item makes it read out of range, its loop ends, and each item stands for two bytes
-- of the payload at least.
pub parse_alarm_notification-Yields :
    (bytes : Bytes)
    → ((length bytes < 26) × (parse_alarm_notification bytes ≡ err alarm_too_short))
      ⊎ ((26 ≤ length bytes)
          × Yields
              (parse_alarm_notification bytes)
              (λ n. 2 * length n.items ≤ length n.raw_payload))
unfolding parse_alarm_notification
parse_alarm_notification-Yields bytes = elim (Bool-cases (ltb (length bytes) 26)) [
  | inl short ↦ inl (ground arith, rw short refl)
  | inr long ↦
      let n : 26 ≤ length bytes = ground arith in
      inr (
        n,
        rw
            (
              long,
              u16_at_lem bytes 0 (omega arith),
              byte_at_lem bytes 4 (omega arith),
              byte_at_lem bytes 5 (omega arith),
            )
            (Yields-bind (cut_block bytes) _ _ _ (cut_block-Yields bytes n) (λ b k.
              let payload = take (length b - 26) (drop 26 b) in
              rw
                (
                  u16_at_lem b 6 (omega arith),
                  u32_at_lem b 8 (omega arith),
                  u16_at_lem b 12 (omega arith),
                  u16_at_lem b 14 (omega arith),
                  u32_at_lem b 16 (omega arith),
                  u32_at_lem b 20 (omega arith),
                  u16_at_lem b 24 (omega arith),
                  slice_lem b 26 (length b) k.0 (omega arith),
                )
                (Yields-bind (items_loop (suc (length payload)) payload 0) _
                  (Fit (length payload - 0)) _
                  (items_loop-Yields (suc (length payload)) payload 0 (omega arith) (omega arith))
                  (λ items fit. omega arith)))),
      )
]

alarm_cr_loop-Yields :
    (fuel : ℕ) (response : Bytes) (offset : ℕ)
    → 0 < fuel
    → length response < fuel + offset
    → Yields (alarm_cr_loop fuel response offset) (λ _. Unit {0})
unfolding alarm_cr_loop
alarm_cr_loop-Yields zero response offset some_fuel h = absurd (omega arith)
alarm_cr_loop-Yields (suc fuel) response offset some_fuel h = ground (
  arith,
  u16_at_lem response offset,
  u16_at_lem response (offset + 2),
  u16_at_lem response (offset + 8),
  alarm_cr_loop-Yields fuel response (offset + (4 + at16 response (offset + 2))),
)

-- The search for the alarm CR's answer returns on all bytes.
pub parse_alarm_cr_res-Yields :
    (response : Bytes) → Yields (parse_alarm_cr_res response) (λ _. Unit {0})
unfolding parse_alarm_cr_res
parse_alarm_cr_res-Yields response =
    alarm_cr_loop-Yields (suc (length response)) response 0 (omega arith) (omega arith)
