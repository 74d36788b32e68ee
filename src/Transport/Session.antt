-- ===== src/Transport/Session.antt =====
-- src/transport.rs: `RpcConn`. What the sockets do in a call is an argument of it.
pub mod Answered
use profinet_rs.Prelude.{
  ℕ, ◌+◌, ◌%◌, Bool, true, false, not, if◌then◌else◌, none, some, List, [], ◌∷◌, ◌++◌, map, Bytes,
  Exec, ok, err, panic, stuck, ◌>>=◌, Error, request_too_short, not_connected, failed_to_connect,
  prm_end_failed, prm_begin_failed,
}
use profinet_rs.Blocks.{MultiWrite, WriteMultipleResult, parse_write_multiple_response}
use profinet_rs.Rpc.{
  nrd, rpc_request, read_record_request, read_record_implicit_request, write_record_request,
  write_multiple_request,
}
use profinet_rs.Connect.{IocrSetup}
use profinet_rs.Connect.Request.{build_connect_request, build_device_access_connect_request}
use profinet_rs.Transport.Header.{
  ParsedRpc, Arrival, datagram, failed, parse_rpc_header, drep_normalized_uuid, next_rpc_response,
}
use profinet_rs.Transport.Reply.{parse_read_response, parse_status_response}
use profinet_rs.Transport.Connect.{ConnectResult, parse_connect_response}
use profinet_rs.Transport.Control.{
  CControlRequest, block_iod_control_prm_end_req, control, control_cmd_prm_begin,
  control_cmd_prm_end, iod_control_block, release_request, ccontrol_response, extract_app_ready,
}

-- src/rpc.rs, `IFACE_UUID_DEVICE`
abbrev pub iface_uuid_device : Bytes
iface_uuid_device =
    0xDE ∷ 0xA0 ∷ 0x00 ∷ 0x01 ∷ 0x6C ∷ 0x97 ∷ 0x11 ∷ 0xD1 ∷ 0x82 ∷ 0x71 ∷ 0x00 ∷ 0xA0 ∷ 0x24 ∷ 0x42
    ∷ 0xDF ∷ 0x7D ∷ []

abbrev pub block_prm_begin_req : ℕ
block_prm_begin_req = 0x0118

-- The connection, with what its transport has sent: requests and replies, the newest first.
pub record RpcConn : Type 0 where
  pub object_uuid : Bytes
  pub activity_uuid : Bytes
  pub ar_uuid : Bytes
  pub session_key : ℕ
  pub sequence_number : ℕ
  pub input_frame_id : ℕ
  pub output_frame_id : ℕ
  pub connected : Bool
  pub requests : List Bytes
  pub replies : List Bytes

-- The transport during a call: what `send_request` returns, what `recv_response` and
-- `recv_ccontrol` give one after the other until the deadline, a timeout as the error that the code makes of it, and what
-- `reply_ccontrol` returns.
pub record Link : Type 0 where
  pub send : Exec (Unit {0})
  pub responses : List Arrival
  pub ccontrols : List Arrival
  pub reply : Exec (Unit {0})

-- A method: what it returns, and the connection that it leaves.
abbrev pub Call : Type 0 → Type 0
Call A = RpcConn → Exec A × RpcConn

-- `?` behind a call
abbrev pub after : {A B : Type 0} → Exec A × RpcConn → (A → Call B) → Exec B × RpcConn
after (ok a, c) f = f a c
after (err e, c) f = (err e, c)
after (panic, c) f = (panic, c)
after (stuck, c) f = (stuck, c)

-- A `u32` that wraps as in a release build.
unfoldable pub next_seq : Call ℕ
next_seq c =
    (ok c.sequence_number, record c { sequence_number = (c.sequence_number + 1) % 4294967296 })

unfoldable pub send_request : Link → Bytes → Call (Unit {0})
send_request link bytes c = (link.send, record c { requests = bytes ∷ c.requests })

-- `map_err`
abbrev pub map_err : {A : Type 0} → (Error → Error) → Exec A → Exec A
map_err f (ok a) = ok a
map_err f (err e) = err (f e)
map_err f panic = panic
map_err f stuck = stuck

-- The answer to the request `h` among what arrives.
abbrev pub awaited : Link → ParsedRpc → Exec ParsedRpc
awaited link h =
    next_rpc_response link.responses (drep_normalized_uuid h.activity_uuid h.is_little_endian)
      h.sequence_number
    >>= λ r. ok r.0

unfoldable pub send_receive : Link → Bytes → Call ParsedRpc
unfolding send_request
send_receive link bytes c =
    after (parse_rpc_header bytes, c)
      (λ parsed. elim parsed [
        | none ↦ λ c0. (err request_too_short, c0)
        | some h ↦ λ c0. after (send_request link bytes c0) (λ _ c1. (awaited link h, c1))
      ])

unfoldable pub connect_io : Link → Bytes → Bytes → IocrSetup → Call ConnectResult
unfolding next_seq send_receive
connect_io link cm_mac cm_station_name setup c = after (next_seq c) (λ seq c1.
    let request =
      build_connect_request c1.object_uuid iface_uuid_device c1.activity_uuid c1.ar_uuid
        c1.session_key cm_mac cm_station_name setup seq in
    after (send_receive link request c1) (λ resp c2.
      after
        (map_err failed_to_connect (parse_connect_response resp.payload resp.is_little_endian), c2)
        (λ result c3. (
          ok result,
          record c3 {
            input_frame_id = result.input_frame_id;
            output_frame_id = result.output_frame_id;
            connected = true;
          },
        ))))

unfoldable pub connect_device_access : Link → Bytes → Bytes → Call (Unit {0})
unfolding next_seq send_receive
connect_device_access link cm_mac cm_station_name c = after (next_seq c) (λ seq c1.
    let request =
      build_device_access_connect_request c1.object_uuid iface_uuid_device c1.activity_uuid
        c1.ar_uuid c1.session_key cm_mac cm_station_name seq in
    after (send_receive link request c1) (λ resp c2.
      after
        (map_err failed_to_connect (parse_status_response resp.payload resp.is_little_endian), c2)
        (λ _ c3. (ok tt, record c3 { connected = true }))))

unfoldable pub send_control : Link → ℕ → ℕ → Bytes → Call Bytes
unfolding next_seq send_receive
send_control link block_type control_command sub_blocks c =
    if not c.connected
    then (err not_connected, c)
    else (let payload =
          iod_control_block block_type c.ar_uuid c.session_key control_command ++ sub_blocks in
        after (next_seq c) (λ seq c1.
          let request =
            rpc_request c1.object_uuid iface_uuid_device c1.activity_uuid seq control
              (nrd payload) in
          after (send_receive link request c1)
            (λ resp c2. (parse_status_response resp.payload resp.is_little_endian, c2))))

unfoldable pub prm_end : Link → Call Bytes
unfolding send_control
prm_end link c =
    let r = send_control link block_iod_control_prm_end_req control_cmd_prm_end [] c in
    (map_err prm_end_failed r.0, r.1)

unfoldable pub prm_begin : Link → Call Bytes
unfolding send_control
prm_begin link c =
    let r = send_control link block_prm_begin_req control_cmd_prm_begin [] c in
    (map_err prm_begin_failed r.0, r.1)

-- The confirmation of the request found.
unfoldable pub confirm : Link → ParsedRpc → CControlRequest → Call Bytes
confirm link h cc c =
    after (ccontrol_response h c.ar_uuid c.session_key, c)
      (λ resp c1.
        after (link.reply, record c1 { replies = resp ∷ c1.replies })
          (λ _ c2. (ok cc.nrd_body, c2)))

-- The `loop` of `application_ready`, one `recv_ccontrol` a round.
unfoldable pub ready_loop : Link → List Arrival → Call Bytes
unfolding confirm
ready_loop link [] c = (stuck, c)
ready_loop link (failed e ∷ more) c = (err e, c)
ready_loop link (datagram d ∷ more) c =
    let rest = ready_loop link more c in
    after (extract_app_ready d, c)
      (λ found c1. elim found [ none ↦ rest | some (h, cc) ↦ confirm link h cc c1 ])

unfoldable pub application_ready : Link → Call Bytes
unfolding ready_loop
application_ready link c =
    if not c.connected then (err not_connected, c) else ready_loop link link.ccontrols c

unfoldable pub send_read : Link → Bytes → Call Bytes
unfolding send_receive
send_read link request c =
    after (send_receive link request c)
      (λ resp c1. (parse_read_response resp.payload resp.is_little_endian, c1))

unfoldable pub read_raw : Link → ℕ → ℕ → ℕ → ℕ → Call Bytes
unfolding next_seq send_read
read_raw link idx slot subslot len c = after (next_seq c) (λ seq c1.
    send_read link
      (read_record_request c1.object_uuid iface_uuid_device c1.activity_uuid c1.ar_uuid seq 0 slot
        subslot idx len)
      c1)

unfoldable pub read_raw_implicit : Link → ℕ → ℕ → ℕ → ℕ → Call Bytes
unfolding next_seq send_read
read_raw_implicit link idx slot subslot len c = after (next_seq c) (λ seq c1.
    send_read link
      (read_record_implicit_request c1.object_uuid iface_uuid_device c1.activity_uuid seq 0 slot
        subslot idx len)
      c1)

unfoldable pub write_record : Link → ℕ → ℕ → ℕ → Bytes → Call (Unit {0})
unfolding next_seq send_receive
write_record link idx slot subslot bytes c = after (next_seq c) (λ seq c1.
    let request =
      write_record_request c1.object_uuid iface_uuid_device c1.activity_uuid c1.ar_uuid seq 0 slot
        subslot idx bytes in
    after (send_receive link request c1) (λ resp c2.
      after (parse_status_response resp.payload resp.is_little_endian, c2) (λ _ c3. (ok tt, c3))))

-- `&(idx, slot, subslot, data)` as an entry of the API zero
abbrev pub multi_write_of : ℕ × ℕ × ℕ × Bytes → MultiWrite
multi_write_of (idx, slot, subslot, bytes) = record {
  api = 0;
  slot = slot;
  subslot = subslot;
  index = idx;
  bytes = bytes;
}

unfoldable pub write_multiple : Link → List (ℕ × ℕ × ℕ × Bytes) → Call (List WriteMultipleResult)
unfolding next_seq send_receive
write_multiple link [] c = (ok [], c)
write_multiple link (w ∷ writes) c = after (next_seq c) (λ seq c1.
    let request =
      write_multiple_request c1.object_uuid iface_uuid_device c1.activity_uuid c1.ar_uuid seq
        (map multi_write_of (w ∷ writes)) in
    after (send_receive link request c1) (λ resp c2.
      after (parse_status_response resp.payload resp.is_little_endian, c2)
        (λ payload c3. (parse_write_multiple_response payload, c3))))

-- The result of the send is thrown away.
unfoldable pub release_conn : Link → RpcConn → RpcConn
unfolding next_seq send_request
release_conn link c =
    if not c.connected
    then c
    else (let (_, c1) = next_seq c in
        let request =
          release_request c1.object_uuid iface_uuid_device c1.activity_uuid c1.ar_uuid
            c1.session_key c.sequence_number in
        record (send_request link request c1).1 { connected = false })
