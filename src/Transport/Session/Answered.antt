-- ===== src/Transport/Session/Answered.antt =====
-- src/transport.rs: a read over the connection, and its release.
use profinet_rs.Prelude.{
  ℕ, suc, ◌+◌, ◌%◌, ◌≡◌, inl, inr, refl, ap, ◌∙◌, arith, false, if◌then◌else◌, Bool-cases, some,
  List, ◌∷◌, ◌++◌, map, append_assoc, All, length, Bytes, IsU16, IsU32, ok,
}
use profinet_rs.Rpc.{read, rpc_head, rpc_request, nrd, read_request, read_record_request}
use profinet_rs.Blocks.{iod_read_request}
use profinet_rs.Transport.Header.{
  ParsedRpc, Arrival, datagram, parse_rpc_header, drep_normalized_uuid, next_rpc_response,
}
use profinet_rs.Transport.Header.RoundTrip.{IsWireRpc, rpc_bytes, parse_rpc_header-rpc_bytes}
use profinet_rs.Transport.Header.Match.{IsForeign, IsOwn}
use profinet_rs.Transport.Header.Answer.{next_rpc_response-own}
use profinet_rs.Transport.Reply.{parse_read_response}
use profinet_rs.Transport.Session.{
  RpcConn, Link, after, next_seq, send_request, send_receive, send_read, read_raw, release_conn,
  iface_uuid_device,
}

-- The header of a request of this controller.
abbrev pub request_of : Bytes → Bytes → Bytes → ℕ → ℕ → Bytes → ParsedRpc
request_of object_uuid iface_uuid activity_uuid seq operation body = record {
  version = 4;
  packet_type = 0;
  flags1 = 0x20;
  flags2 = 0;
  drep = (0, 0, 0);
  serial_high = 0;
  object_uuid = object_uuid;
  interface_uuid = iface_uuid;
  activity_uuid = activity_uuid;
  server_boot_time = 0;
  interface_version = 1;
  sequence_number = seq;
  operation_number = operation;
  interface_hint = 0xFFFF;
  activity_hint = 0xFFFF;
  length_of_body = length body % 65536;
  fragment_number = 0;
  auth_protocol = 0;
  serial_low = 0;
  is_little_endian = false;
  payload = body;
}

rpc_request-rpc_bytes :
    (o i a : Bytes) (seq operation : ℕ) (body : Bytes)
    → rpc_request o i a seq operation body ≡ rpc_bytes (request_of o i a seq operation body)
unfolding rpc_request rpc_head
rpc_request-rpc_bytes o i a seq operation body = simp (append_assoc)

request_of-IsWireRpc :
    (o i a : Bytes) (seq operation : ℕ) (body : Bytes)
    → length o ≡ 16
    → length i ≡ 16
    → length a ≡ 16
    → IsU32 seq
    → IsU16 operation
    → IsWireRpc (request_of o i a seq operation body)
request_of-IsWireRpc o i a seq operation body x y z ws wo = record {
  object_fits = x;
  interface_fits = y;
  activity_fits = z;
  boot_fits = omega arith;
  version_fits = omega arith;
  sequence_fits = ws;
  operation_fits = wo;
  interface_hint_fits = omega arith;
  activity_hint_fits = omega arith;
  body_fits = omega arith;
  fragment_fits = omega arith;
  order = refl;
}

-- A request that is sent and answered.
send_receive-answered :
    (link : Link) (c : RpcConn) (seq operation : ℕ) (body : Bytes) (foreign : List ParsedRpc)
    (own : ParsedRpc) (more : List Arrival)
    → length c.object_uuid ≡ 16
    → length c.activity_uuid ≡ 16
    → IsU32 seq
    → IsU16 operation
    → link.send ≡ ok tt
    → link.responses
      ≡ map (λ h. datagram (rpc_bytes h)) foreign ++ (datagram (rpc_bytes own) ∷ more)
    → All IsWireRpc foreign
    → All (IsForeign c.activity_uuid seq) foreign
    → IsWireRpc own
    → IsOwn c.activity_uuid seq own
    → let request =
        rpc_request c.object_uuid iface_uuid_device c.activity_uuid seq operation body in
      send_receive link request c ≡ (ok own, record c { requests = request ∷ c.requests })
unfolding send_receive send_request drep_normalized_uuid
send_receive-answered link c seq operation body foreign own more x y ws wo sent arrived wires others
      w o =
    let i = iface_uuid_device in
    let h = request_of c.object_uuid i c.activity_uuid seq operation body in
    let read_back : parse_rpc_header
          (rpc_request c.object_uuid i c.activity_uuid seq operation body)
        ≡ ok (some h) =
      ap parse_rpc_header (rpc_request-rpc_bytes c.object_uuid i c.activity_uuid seq operation body)
      ∙ parse_rpc_header-rpc_bytes h (
          request_of-IsWireRpc c.object_uuid i c.activity_uuid seq operation body x refl y ws wo) in
    let answer : next_rpc_response link.responses c.activity_uuid seq ≡ ok (own, more) =
      ap (λ rs. next_rpc_response rs c.activity_uuid seq) arrived
      ∙ next_rpc_response-own foreign own more c.activity_uuid seq wires others w o in
    rw (read_back, sent, answer) refl

-- A read over a connection with UUIDs of 16 bytes whose request goes out. Whatever requests that come back and
-- answers to other requests arrive first, the caller gets what the answer to this request
-- says, the answer with the UUID and the sequence number of the connection; the request is sent once, and the next
-- sequence number is the following one.
pub read_raw-answered :
    (link : Link) (c : RpcConn) (idx slot subslot len : ℕ) (foreign : List ParsedRpc)
    (own : ParsedRpc) (more : List Arrival)
    → length c.object_uuid ≡ 16
    → length c.activity_uuid ≡ 16
    → IsU32 c.sequence_number
    → link.send ≡ ok tt
    → link.responses
      ≡ map (λ h. datagram (rpc_bytes h)) foreign ++ (datagram (rpc_bytes own) ∷ more)
    → All IsWireRpc foreign
    → All (IsForeign c.activity_uuid c.sequence_number) foreign
    → IsWireRpc own
    → IsOwn c.activity_uuid c.sequence_number own
    → read_raw link idx slot subslot len c ≡ (
      parse_read_response own.payload own.is_little_endian,
      record c {
        sequence_number = (c.sequence_number + 1) % 4294967296;
        requests =
            read_record_request c.object_uuid iface_uuid_device c.activity_uuid c.ar_uuid
              c.sequence_number 0 slot subslot idx len
            ∷ c.requests;
      },
    )
unfolding read_raw send_read next_seq read_record_request read_request
read_raw-answered link c idx slot subslot len foreign own more x y ws sent arrived wires others w
      o =
    let c1 = record c { sequence_number = (c.sequence_number + 1) % 4294967296 } in
    ap (λ r. after r (λ resp c2. (parse_read_response resp.payload resp.is_little_endian, c2)))
      (send_receive-answered link c1 c.sequence_number read
        (nrd (iod_read_request c.ar_uuid 0 slot subslot idx len)) foreign own more x y ws
        (omega arith) sent arrived wires others w o)

-- A release sends one request where the connection is up and none where it is not, whatever the send returns; it leaves the
-- connection down, and a second release changes nothing.
pub release_conn-twice :
    (link again : Link) (c : RpcConn)
    → ((release_conn link c).connected ≡ false)
      × (length (release_conn link c).requests
          ≡ (if c.connected then suc (length c.requests) else length c.requests))
      × (release_conn again (release_conn link c) ≡ release_conn link c)
unfolding release_conn send_request next_seq
release_conn-twice link again c = elim (Bool-cases c.connected) [
  | inl up ↦ rw up (refl, refl, refl)
  | inr down ↦ rw down (refl, refl, refl)
]
