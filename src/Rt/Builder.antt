-- ===== src/Rt/Builder.antt =====
-- src/rt.rs, `CyclicDataBuilder`: the double-buffered process data. A method that takes `&mut self`
-- returns the new builder; a write outside the buffer panics.
pub mod Region
pub mod Inv
pub mod Data
pub mod Swap
pub mod Status
use profinet_rs.Prelude.{
  ℕ, ◌+◌, min, Bool, true, false, ◌&&◌, ◌==◌, ltb, if◌then◌else◌, Option, none, some, List, [], ◌∷◌,
  length, take, replicate, Bytes, byte_at, slice, write_at, write_slice, Exec, ok, err, panic,
  ◌>>=◌, unknown_subslot,
}
use profinet_rs.Rt.Config.{IoDataObject, IocrConfig}

pub record CyclicDataBuilder : Type 0 where
  pub config : IocrConfig
  pub write_buffer : Bytes
  pub send_buffer : Bytes
  pub dirty : Bool

unfoldable pub new : IocrConfig → CyclicDataBuilder
new config = record {
  config = config;
  write_buffer = replicate config.data_length 0;
  send_buffer = replicate config.data_length 0;
  dirty = false;
}

-- The first object for a slot and subslot: the `for` loop with a `return` that four methods share.
unfoldable pub find_object : List IoDataObject → ℕ → ℕ → Option IoDataObject
find_object [] slot subslot = none
find_object (o ∷ os) slot subslot =
    if o.slot == slot && o.subslot == subslot then some o else find_object os slot subslot

-- `self.write_buffer = w; self.dirty = true`
abbrev pub written : CyclicDataBuilder → Exec Bytes → Exec CyclicDataBuilder
written b w = w >>= λ buffer. ok (record b { write_buffer = buffer; dirty = true })

unfoldable pub set_data : CyclicDataBuilder → ℕ → ℕ → Bytes → Exec CyclicDataBuilder
set_data b slot subslot d = elim (find_object b.config.objects slot subslot) [
  | some o ↦
      written b (write_slice b.write_buffer o.frame_offset (take (min (length d) o.data_length) d))
  | none ↦ err (unknown_subslot slot subslot)
]

unfoldable pub get_data : CyclicDataBuilder → ℕ → ℕ → Exec Bytes
get_data b slot subslot = elim (find_object b.config.objects slot subslot) [
  | some o ↦ slice b.write_buffer o.frame_offset (o.frame_offset + o.data_length)
  | none ↦ err (unknown_subslot slot subslot)
]

unfoldable pub set_iops : CyclicDataBuilder → ℕ → ℕ → ℕ → Exec CyclicDataBuilder
set_iops b slot subslot status = elim (find_object b.config.objects slot subslot) [
  | some o ↦
      if ltb 0 o.data_length then written b (write_at b.write_buffer o.iops_offset status) else ok b
  | none ↦ ok b
]

unfoldable pub set_iocs : CyclicDataBuilder → ℕ → ℕ → ℕ → Exec CyclicDataBuilder
set_iocs b slot subslot status = elim (find_object b.config.objects slot subslot) [
  | some o ↦ elim o.iocs_offset [
    | some off ↦ written b (write_at b.write_buffer off status)
    | none ↦ ok b
  ]
  | none ↦ ok b
]

-- One round of the loop of `set_all_iops`.
unfoldable pub iops_round : IoDataObject → ℕ → Bytes → Exec Bytes
iops_round o status buffer =
    if ltb 0 o.data_length then write_at buffer o.iops_offset status else ok buffer

unfoldable pub iops_loop : List IoDataObject → ℕ → Bytes → Exec Bytes
unfolding iops_round
iops_loop [] status buffer = ok buffer
iops_loop (o ∷ os) status buffer = iops_round o status buffer >>= iops_loop os status

unfoldable pub set_all_iops : CyclicDataBuilder → ℕ → Exec CyclicDataBuilder
set_all_iops b status = written b (iops_loop b.config.objects status b.write_buffer)

-- One round of the loop of `set_all_iocs`: it writes, and marks the buffer, only where the byte
-- changes.
unfoldable pub iocs_round : IoDataObject → ℕ → CyclicDataBuilder → Exec CyclicDataBuilder
iocs_round o status b = elim o.iocs_offset [
  | some off ↦
      (byte_at b.write_buffer off >>= λ old.
      if old == status then ok b else written b (write_at b.write_buffer off status))
  | none ↦ ok b
]

unfoldable pub iocs_loop : List IoDataObject → ℕ → CyclicDataBuilder → Exec CyclicDataBuilder
unfolding iocs_round
iocs_loop [] status b = ok b
iocs_loop (o ∷ os) status b = iocs_round o status b >>= iocs_loop os status

unfoldable pub set_all_iocs : CyclicDataBuilder → ℕ → Exec CyclicDataBuilder
set_all_iocs b status = iocs_loop b.config.objects status b

unfoldable pub clear : CyclicDataBuilder → CyclicDataBuilder
clear b = record b { write_buffer = replicate (length b.write_buffer) 0; dirty = true }

-- `copy_from_slice` panics where the lengths differ.
unfoldable pub swap : CyclicDataBuilder → Exec CyclicDataBuilder
swap b =
    if b.dirty
    then (if length b.send_buffer == length b.write_buffer
        then ok (record b { send_buffer = b.write_buffer; dirty = false })
        else panic)
    else ok b

unfoldable pub build : CyclicDataBuilder → Bytes
build b = b.send_buffer

unfoldable pub is_dirty : CyclicDataBuilder → Bool
is_dirty b = b.dirty

unfoldable pub load : CyclicDataBuilder → Bytes → Exec CyclicDataBuilder
load b payload =
    written b
      (write_slice b.write_buffer 0 (take (min (length payload) (length b.write_buffer)) payload))
