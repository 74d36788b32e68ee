-- ===== src/Rpc.antt =====
-- src/rpc.rs: the DCE/RPC framing of record requests.
pub mod Framing
use profinet_rs.Prelude.{ℕ, ◌%◌, max, List, [], ◌∷◌, ◌++◌, length, Bytes, be16, be32}
use profinet_rs.Blocks.{
  MultiWrite, zeros, iod_read_request, iod_write_request, iod_write_multiple_index,
  iod_write_multiple_payload,
}

abbrev pub read : ℕ
read = 2

abbrev pub write : ℕ
write = 3

abbrev pub implicit_read : ℕ
implicit_read = 5

abbrev pub ndr_args_maximum : ℕ
ndr_args_maximum = 4000

abbrev pub object_uuid_prefix : Bytes
object_uuid_prefix = 0xDE ∷ 0xA0 ∷ 0x00 ∷ 0x00 ∷ 0x6C ∷ 0x97 ∷ 0x11 ∷ 0xD1 ∷ 0x82 ∷ 0x71 ∷ []

unfoldable pub object_uuid : ℕ → ℕ → ℕ → ℕ → Bytes
object_uuid dev_high dev_low ven_high ven_low =
    object_uuid_prefix ++ (0x00 ∷ 0x01 ∷ dev_high ∷ dev_low ∷ ven_high ∷ ven_low ∷ [])

-- `args_maximum` of `nrd`, for a payload of `len` bytes
abbrev pub args_maximum : ℕ → ℕ
args_maximum len = max ndr_args_maximum len

unfoldable pub nrd : Bytes → Bytes
nrd payload =
    let len = length payload % 4294967296 in
    be32 (args_maximum len)
    ++ (be32 len ++ (be32 (args_maximum len) ++ (be32 0 ++ (be32 len ++ payload))))

-- The header up to the length of the body.
unfoldable pub rpc_head : Bytes → Bytes → Bytes → ℕ → ℕ → Bytes
rpc_head object_uuid iface_uuid activity_uuid seq operation =
    (0x04 ∷ 0x00 ∷ 0x20 ∷ 0x00 ∷ 0x00 ∷ 0x00 ∷ 0x00 ∷ 0x00 ∷ [])
    ++ (object_uuid
        ++ (iface_uuid
            ++ (activity_uuid
                ++ (be32 0
                    ++ (be32 1
                        ++ (be32 seq ++ (be16 operation ++ (be16 0xFFFF ++ be16 0xFFFF))))))))

unfoldable pub rpc_request : Bytes → Bytes → Bytes → ℕ → ℕ → Bytes → Bytes
unfolding rpc_head
rpc_request object_uuid iface_uuid activity_uuid seq operation body =
    rpc_head object_uuid iface_uuid activity_uuid seq operation
    ++ (be16 (length body % 65536) ++ ((0 ∷ 0 ∷ []) ++ ((0x00 ∷ 0x00 ∷ []) ++ body)))

unfoldable pub read_request : Bytes → Bytes → Bytes → Bytes → ℕ → ℕ → ℕ → ℕ → ℕ → ℕ → ℕ → Bytes
unfolding nrd iod_read_request rpc_request
read_request object_uuid iface_uuid activity_uuid ar_uuid opnum seq api slot subslot index len =
    rpc_request object_uuid iface_uuid activity_uuid seq opnum
      (nrd (iod_read_request ar_uuid api slot subslot index len))

unfoldable pub read_record_request : Bytes → Bytes → Bytes → Bytes → ℕ → ℕ → ℕ → ℕ → ℕ → ℕ → Bytes
unfolding read_request
read_record_request object_uuid iface_uuid activity_uuid ar_uuid seq api slot subslot index len =
    read_request object_uuid iface_uuid activity_uuid ar_uuid read seq api slot subslot index len

unfoldable pub read_record_implicit_request : Bytes → Bytes → Bytes → ℕ → ℕ → ℕ → ℕ → ℕ → ℕ → Bytes
unfolding read_request
read_record_implicit_request object_uuid iface_uuid activity_uuid seq api slot subslot index len =
    read_request object_uuid iface_uuid activity_uuid (zeros 16) implicit_read seq api slot subslot
      index len

unfoldable pub write_record_request :
    Bytes → Bytes → Bytes → Bytes → ℕ → ℕ → ℕ → ℕ → ℕ → Bytes → Bytes
unfolding nrd iod_write_request rpc_request
write_record_request object_uuid iface_uuid activity_uuid ar_uuid seq api slot subslot index
      payload =
    rpc_request object_uuid iface_uuid activity_uuid seq write
      (nrd (iod_write_request ar_uuid api slot subslot index payload))

unfoldable pub write_multiple_request : Bytes → Bytes → Bytes → Bytes → ℕ → List MultiWrite → Bytes
unfolding nrd iod_write_request iod_write_multiple_payload rpc_request
write_multiple_request object_uuid iface_uuid activity_uuid ar_uuid seq writes =
    rpc_request object_uuid iface_uuid activity_uuid seq write (
      nrd (
        iod_write_request ar_uuid 0xFFFFFFFF 0xFFFF 0xFFFF iod_write_multiple_index
          (iod_write_multiple_payload ar_uuid 0 writes)))
