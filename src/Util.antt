-- ===== src/Util.antt =====
-- src/util.rs: the Ethernet header with any number of VLAN tags.
pub mod Vlan
use profinet_rs.Prelude.{
  ℕ, zero, suc, ◌+◌, Bool, ◌||◌, ◌==◌, ltb, leb, if◌then◌else◌, Bytes, length, u16_at, slice, Exec,
  ok, err, stuck, ◌>>=◌, ethernet_too_short, vlan_too_short, unexpected_ethertype,
  unexpected_inner_ethertype,
}

-- `VLAN_TPIDS.contains(t)`
abbrev pub vlan_tpid : ℕ → Bool
vlan_tpid t = t == 0x8100 || t == 0x88A8

-- The `while` of `skip_vlan_tags`, from `offset` on. `u16_at` is reached only when the frame is
-- long enough, as `&&` has it.
unfoldable pub skip_vlan_loop : ℕ → Bytes → ℕ → Exec ℕ
skip_vlan_loop zero frame offset = stuck
skip_vlan_loop (suc fuel) frame offset =
    let again = skip_vlan_loop fuel frame (offset + 4) in
    if leb (offset + 4) (length frame)
    then (do t ← u16_at frame offset; if vlan_tpid t then again else ok offset)
    else ok offset

-- A round takes four bytes of the frame, so the frame's length is fuel enough.
unfoldable pub skip_vlan_tags : Bytes → Exec ℕ
unfolding skip_vlan_loop
skip_vlan_tags frame = skip_vlan_loop (suc (length frame)) frame 12

-- `strip_eth` once the EtherType's offset is known
unfoldable pub strip_at : Bytes → ℕ → ℕ → Exec Bytes
strip_at frame want offset = if ltb (length frame) (offset + 2) then err vlan_too_short else (do
  ethertype ← u16_at frame offset
  if ethertype == want
      then slice frame (offset + 2) (length frame)
      else err (
          if ltb 12 offset
          then unexpected_inner_ethertype ethertype
          else unexpected_ethertype ethertype))

unfoldable pub strip_eth : Bytes → ℕ → Exec Bytes
strip_eth frame want =
    if ltb (length frame) 14
    then err (ethernet_too_short (length frame))
    else (do offset ← skip_vlan_tags frame; strip_at frame want offset)
