-- ===== src/Rt/Frame.antt =====
-- src/rt.rs, `RtFrame` and the Ethernet frame around it.
pub mod RoundTrip
use profinet_rs.Prelude.{
  ℕ, ◌+◌, ◌-◌, bit_and, Bool, not, ◌&&◌, ◌==◌, ltb, leb, if◌then◌else◌, Option, none, [], ◌∷◌, ◌++◌,
  length, Bytes, byte_at, u16_at, slice, be16, Exec, ok, err, ◌>>=◌, ◌>>◌, to_option,
  rt_frame_too_short,
}
use profinet_rs.Util.{skip_vlan_tags}

pub record RtFrame : Type 0 where
  pub frame_id : ℕ
  pub cycle_counter : ℕ
  pub data_status : ℕ
  pub transfer_status : ℕ
  pub payload : Bytes

abbrev pub frame_id_rt_class_1_min : ℕ
frame_id_rt_class_1_min = 0x8000

abbrev pub frame_id_rt_class_1_max : ℕ
frame_id_rt_class_1_max = 0xFBFF

unfoldable pub is_rt_class_1_frame_id : ℕ → Bool
is_rt_class_1_frame_id frame_id =
    leb frame_id_rt_class_1_min frame_id && leb frame_id frame_id_rt_class_1_max

-- `RtFrame::from_bytes`. The trailer is the last four bytes.
unfoldable pub from_bytes : Bytes → Exec RtFrame
from_bytes d = if ltb (length d) 6 then err (rt_frame_too_short (length d)) else (do
  trailer ← slice d (length d - 4) (length d)
  id ← u16_at d 0
  counter ← u16_at trailer 0
  status ← byte_at trailer 2
  transfer ← byte_at trailer 3
  c_sdu ← slice d 2 (length d - 4)
  ok (record {
    frame_id = id;
    cycle_counter = counter;
    data_status = status;
    transfer_status = transfer;
    payload = c_sdu;
  }))

-- `RtFrame::to_bytes`
unfoldable pub to_bytes : RtFrame → Bytes
to_bytes f =
    be16 f.frame_id
    ++ (f.payload ++ (be16 f.cycle_counter ++ (f.data_status ∷ f.transfer_status ∷ [])))

abbrev pub data_status_state : ℕ
data_status_state = 0x01

abbrev pub data_status_valid : ℕ
data_status_valid = 0x04

abbrev pub data_status_provider_run : ℕ
data_status_provider_run = 0x10

abbrev pub data_status_station_ok : ℕ
data_status_station_ok = 0x20

abbrev pub data_status_ignore : ℕ
data_status_ignore = 0x80

unfoldable pub is_valid : RtFrame → Bool
is_valid f = not (bit_and f.data_status data_status_valid == 0)

unfoldable pub is_running : RtFrame → Bool
is_running f = not (bit_and f.data_status data_status_provider_run == 0)

unfoldable pub is_ok : RtFrame → Bool
is_ok f = not (bit_and f.data_status data_status_station_ok == 0)

unfoldable pub is_primary : RtFrame → Bool
is_primary f = not (bit_and f.data_status data_status_state == 0)

unfoldable pub is_ignored : RtFrame → Bool
is_ignored f = not (bit_and f.data_status data_status_ignore == 0)

abbrev pub ethertype_profinet : ℕ
ethertype_profinet = 0x8892

-- 802.1Q priority tag: TPID 0x8100, PCP 6, VID 0.
abbrev pub vlan_tag_rt : Bytes
vlan_tag_rt = 0x81 ∷ 0x00 ∷ 0xC0 ∷ 0x00 ∷ []

unfoldable pub build_ethernet_frame : Bytes → Bytes → RtFrame → Bytes
unfolding to_bytes
build_ethernet_frame dst_mac src_mac rt_frame =
    dst_mac ++ (src_mac ++ (vlan_tag_rt ++ (be16 ethertype_profinet ++ to_bytes rt_frame)))

-- What `parse_ethernet_frame` does once the EtherType's offset is known.
unfoldable pub parse_rt_at : Bytes → ℕ → Exec (Option RtFrame)
parse_rt_at d eth_offset = if ltb (length d) (eth_offset + 2) then ok none else (do
  ethertype ← u16_at d eth_offset
  if ethertype == ethertype_profinet
      then (do rest ← slice d (eth_offset + 2) (length d); to_option (from_bytes rest))
      else ok none)

unfoldable pub parse_ethernet_frame : Bytes → Exec (Option RtFrame)
parse_ethernet_frame d = if ltb (length d) 18 then ok none else (skip_vlan_tags d >>= parse_rt_at d)
