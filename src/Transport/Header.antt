-- ===== src/Transport/Header.antt =====
-- src/transport.rs: the RPC header, in either byte order, and the choice of the answer to a request.
pub mod Match
pub mod Behind
pub mod RoundTrip
pub mod Answer
use profinet_rs.Prelude.{
  ℕ, bit_and, Bool, true, false, not, ◌&&◌, ◌==◌, ltb, if◌then◌else◌, Option, none, some, List, [],
  ◌∷◌, length, Bytes, byte_at, slice, Exec, ok, err, stuck, ◌>>=◌, ◌>>◌, Error, same_bytes,
  rpc_too_short, rpc_fault, rpc_rejected, unexpected_packet,
}
use profinet_rs.Transport.Words.{rd_u16, rd_u32}

abbrev pub packet_type_request : ℕ
packet_type_request = 0x00

abbrev pub packet_type_response : ℕ
packet_type_response = 0x02

abbrev pub packet_type_fault : ℕ
packet_type_fault = 0x03

abbrev pub packet_type_reject : ℕ
packet_type_reject = 0x06

pub record ParsedRpc : Type 0 where
  pub version : ℕ
  pub packet_type : ℕ
  pub flags1 : ℕ
  pub flags2 : ℕ
  pub drep : ℕ × ℕ × ℕ
  pub serial_high : ℕ
  pub object_uuid : Bytes
  pub interface_uuid : Bytes
  pub activity_uuid : Bytes
  pub server_boot_time : ℕ
  pub interface_version : ℕ
  pub sequence_number : ℕ
  pub operation_number : ℕ
  pub interface_hint : ℕ
  pub activity_hint : ℕ
  pub length_of_body : ℕ
  pub fragment_number : ℕ
  pub auth_protocol : ℕ
  pub serial_low : ℕ
  pub is_little_endian : Bool
  pub payload : Bytes

-- What the first byte of the data representation says of the order.
abbrev pub names_little_endian : ℕ → Bool
names_little_endian drep0 = not (bit_and drep0 0x10 == 0)

-- The fields of a packet that has a header; a read out of range would panic.
unfoldable pub header_fields : Bytes → Exec ParsedRpc
header_fields d = do
  drep0 ← byte_at d 4
  let le = names_little_endian drep0
  version ← byte_at d 0
  packet_type ← byte_at d 1
  flags1 ← byte_at d 2
  flags2 ← byte_at d 3
  drep1 ← byte_at d 5
  drep2 ← byte_at d 6
  serial_high ← byte_at d 7
  object_uuid ← slice d 8 24
  interface_uuid ← slice d 24 40
  activity_uuid ← slice d 40 56
  server_boot_time ← rd_u32 d 56 le
  interface_version ← rd_u32 d 60 le
  sequence_number ← rd_u32 d 64 le
  operation_number ← rd_u16 d 68 le
  interface_hint ← rd_u16 d 70 le
  activity_hint ← rd_u16 d 72 le
  length_of_body ← rd_u16 d 74 le
  fragment_number ← rd_u16 d 76 le
  auth_protocol ← byte_at d 78
  serial_low ← byte_at d 79
  payload ← slice d 80 (length d)
  ok (record {
    version = version;
    packet_type = packet_type;
    flags1 = flags1;
    flags2 = flags2;
    drep = (drep0, drep1, drep2);
    serial_high = serial_high;
    object_uuid = object_uuid;
    interface_uuid = interface_uuid;
    activity_uuid = activity_uuid;
    server_boot_time = server_boot_time;
    interface_version = interface_version;
    sequence_number = sequence_number;
    operation_number = operation_number;
    interface_hint = interface_hint;
    activity_hint = activity_hint;
    length_of_body = length_of_body;
    fragment_number = fragment_number;
    auth_protocol = auth_protocol;
    serial_low = serial_low;
    is_little_endian = le;
    payload = payload;
  })

unfoldable pub parse_rpc_header : Bytes → Exec (Option ParsedRpc)
unfolding header_fields
parse_rpc_header d =
    if ltb (length d) 80 then ok none else (header_fields d >>= λ header. ok (some header))

-- The `match` on the packet's type.
unfoldable pub classify_packet : ParsedRpc → Exec (Option ParsedRpc)
classify_packet h =
    if h.packet_type == packet_type_request
    then ok none
    else (if h.packet_type == packet_type_response
        then ok (some h)
        else (if h.packet_type == packet_type_fault
            then err (rpc_fault h.operation_number)
            else (if h.packet_type == packet_type_reject
                then err rpc_rejected
                else err (unexpected_packet h.packet_type))))

unfoldable pub parse_rpc_response : Bytes → Exec (Option ParsedRpc)
unfolding parse_rpc_header classify_packet
parse_rpc_response d = parse_rpc_header d >>= λ parsed. elim parsed [
  | none ↦ err (rpc_too_short (length d))
  | some h ↦ classify_packet h
]

-- `out[a..b].reverse()` on the first three fields of a UUID
unfoldable pub drep_normalized_uuid : Bytes → Bool → Bytes
drep_normalized_uuid uuid false = uuid
drep_normalized_uuid (a ∷ b ∷ c ∷ d ∷ e ∷ f ∷ g ∷ h ∷ rest) true =
    d ∷ c ∷ b ∷ a ∷ f ∷ e ∷ h ∷ g ∷ rest
drep_normalized_uuid uuid true = uuid

-- What the `recv` of `next_rpc_response` gave: a datagram or an error.
pub data Arrival : Type 0 where
  datagram : Bytes → Arrival
  failed : Error → Arrival

-- The answer is ours: the activity's UUID and the sequence number are those of the request.
unfoldable pub is_answer : Bytes → ℕ → ParsedRpc → Bool
unfolding same_bytes drep_normalized_uuid
is_answer expected_uuid expected_seq h =
    same_bytes (drep_normalized_uuid h.activity_uuid h.is_little_endian) expected_uuid
    && h.sequence_number == expected_seq

-- `loop`, one `recv` a round. Where `recv` gives no more, the loop waits.
unfoldable pub next_rpc_response : List Arrival → Bytes → ℕ → Exec (ParsedRpc × List Arrival)
unfolding parse_rpc_response is_answer
next_rpc_response [] expected_uuid expected_seq = stuck
next_rpc_response (failed e ∷ more) expected_uuid expected_seq = err e
next_rpc_response (datagram d ∷ more) expected_uuid expected_seq =
    let rest = next_rpc_response more expected_uuid expected_seq in
    parse_rpc_response d >>= λ parsed. elim parsed [
      | none ↦ rest
      | some h ↦ if is_answer expected_uuid expected_seq h then ok (h, more) else rest
    ]
