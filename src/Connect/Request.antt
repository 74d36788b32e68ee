-- ===== src/Connect/Request.antt =====
-- src/connect.rs: the submodules that a connect expects, and the requests.
use profinet_rs.Prelude.{
  ℕ, ◌+◌, ◌%◌, ◌||◌, ◌==◌, ltb, if◌then◌else◌, List, [], ◌∷◌, ◌++◌, length, Bytes, be16, be32,
}
use profinet_rs.Rt.Config.{IoSlot}
use profinet_rs.Rpc.{nrd, rpc_request}
use profinet_rs.Connect.{
  ar_type_iocar_single, ar_type_iosar, ar_properties_iocar, ar_properties_device_access, connect,
  IocrSetup, block_header, ar_block_req, iocr_block_req, alarm_cr_block,
}

abbrev pub submodule_type : IoSlot → ℕ
submodule_type s =
    if ltb 0 s.input_length
    then (if ltb 0 s.output_length then 3 else 1)
    else (if ltb 0 s.output_length then 2 else 0)

unfoldable pub data_description : ℕ → ℕ → Bytes
data_description kind len = be16 kind ++ (be16 (len % 65536) ++ (1 ∷ 1 ∷ []))

-- What a slot adds to the submodules of its module.
unfoldable pub expected_submodule : IoSlot → Bytes
unfolding data_description
expected_submodule s =
    let kind = submodule_type s in
    let input =
      if (kind == 0) || ((kind == 1) || (kind == 3))
      then data_description 1 s.input_length
      else [] in
    let output = if (kind == 2) || (kind == 3) then data_description 2 s.output_length else [] in
    be16 s.subslot ++ (be32 s.submodule_ident ++ (be16 kind ++ (input ++ output)))

-- An entry of `apis`: slot, module identity, submodules and their number.
pub record ExpectedApi : Type 0 where
  pub slot : ℕ
  pub module_ident : ℕ
  pub submodules : Bytes
  pub num_submodules : ℕ

-- The round of a slot: the entry found by `position`, or a new one at the end, takes the submodule.
unfoldable pub add_submodule : List ExpectedApi → IoSlot → List ExpectedApi
unfolding expected_submodule
add_submodule [] s =
    record {
      slot = s.slot;
      module_ident = s.module_ident;
      submodules = expected_submodule s;
      num_submodules = 1;
    }
    ∷ []
add_submodule (a ∷ apis) s =
    let rest = add_submodule apis s in
    if a.slot == s.slot
    then record a {
      submodules = a.submodules ++ expected_submodule s;
      num_submodules = (a.num_submodules + 1) % 65536;
    }
      ∷ apis
    else a ∷ rest

unfoldable pub group_slots : List ExpectedApi → List IoSlot → List ExpectedApi
unfolding add_submodule
group_slots apis [] = apis
group_slots apis (s ∷ slots) = group_slots (add_submodule apis s) slots

unfoldable pub expected_api_bytes : List ExpectedApi → Bytes
expected_api_bytes [] = []
expected_api_bytes (a ∷ apis) =
    be32 0
    ++ (be16 a.slot
        ++ (be32 a.module_ident
            ++ (be16 0 ++ (be16 a.num_submodules ++ (a.submodules ++ expected_api_bytes apis)))))

unfoldable pub expected_submodule_block : IocrSetup → Bytes
unfolding group_slots expected_api_bytes block_header
expected_submodule_block setup =
    let apis = group_slots [] setup.io_slots in
    let body = be16 (length apis % 65536) ++ expected_api_bytes apis in
    block_header [] 0x0104 ((length body + 2) % 65536) ++ body

unfoldable pub build_connect_request :
    Bytes → Bytes → Bytes → Bytes → ℕ → Bytes → Bytes → IocrSetup → ℕ → Bytes
unfolding ar_block_req iocr_block_req alarm_cr_block expected_submodule_block nrd rpc_request
build_connect_request object_uuid iface_uuid activity_uuid ar_uuid session_key cm_mac
      cm_station_name setup seq =
    rpc_request object_uuid iface_uuid activity_uuid seq connect (
      nrd (
        ar_block_req ar_type_iocar_single ar_uuid session_key cm_mac ar_properties_iocar
          cm_station_name
        ++ (iocr_block_req 1 1 setup
            ++ (iocr_block_req 2 2 setup
                ++ (alarm_cr_block 1 0 0 ++ expected_submodule_block setup)))))

unfoldable pub build_device_access_connect_request :
    Bytes → Bytes → Bytes → Bytes → ℕ → Bytes → Bytes → ℕ → Bytes
unfolding ar_block_req nrd rpc_request
build_device_access_connect_request object_uuid iface_uuid activity_uuid ar_uuid session_key cm_mac
      cm_station_name seq =
    rpc_request object_uuid iface_uuid activity_uuid seq connect (
      nrd (
        ar_block_req ar_type_iosar ar_uuid session_key cm_mac ar_properties_device_access
          cm_station_name))
