-- ===== src/Blocks.antt =====
-- src/blocks.rs: the record headers, and the answers to a multiple write. A UUID `[u8; 16]` is a list here.
pub mod Walk
pub mod Entries
use profinet_rs.Prelude.{
  ℕ, zero, suc, ◌+◌, ◌-◌, ◌%◌, min, Bool, ◌==◌, ltb, leb, if◌then◌else◌, List, [], ◌∷◌, ◌++◌,
  length, replicate, Bytes, u16_at, u32_at, slice, be16, be32, Exec, ok, stuck, ◌>>=◌, ◌>>◌,
}

abbrev pub iod_read_request_header : ℕ
iod_read_request_header = 0x0009

abbrev pub iod_write_request_header : ℕ
iod_write_request_header = 0x0008

abbrev pub iod_write_response_header : ℕ
iod_write_response_header = 0x8008

abbrev pub iod_write_multiple_index : ℕ
iod_write_multiple_index = 0xE040

unfoldable pub block_header : ℕ → ℕ → ℕ → ℕ → Bytes
block_header block_type block_length ver_high ver_low =
    be16 block_type ++ (be16 block_length ++ (ver_high ∷ ver_low ∷ []))

abbrev pub zeros : ℕ → Bytes
zeros n = replicate n 0

unfoldable pub pniod_header : ℕ → ℕ → Bytes → ℕ → ℕ → ℕ → ℕ → ℕ → Bytes → Bytes
unfolding block_header
pniod_header block_type seq ar_uuid api slot subslot index len payload =
    block_header block_type 60 1 0
    ++ (be16 seq
        ++ (ar_uuid
            ++ (be32 api
                ++ (be16 slot
                    ++ (be16 subslot
                        ++ (be16 0
                            ++ (be16 index
                                ++ (be32 len ++ (zeros 16 ++ (zeros 8 ++ payload))))))))))

unfoldable pub iod_read_request : Bytes → ℕ → ℕ → ℕ → ℕ → ℕ → Bytes
unfolding pniod_header
iod_read_request ar_uuid api slot subslot index len =
    pniod_header iod_read_request_header 0 ar_uuid api slot subslot index len []

unfoldable pub iod_write_request : Bytes → ℕ → ℕ → ℕ → ℕ → Bytes → Bytes
unfolding pniod_header
iod_write_request ar_uuid api slot subslot index payload =
    pniod_header iod_write_request_header 0 ar_uuid api slot subslot index
      (length payload % 4294967296) payload

-- One write of a multiple write: the tuple `MultiWrite`.
pub record MultiWrite : Type 0 where
  pub api : ℕ
  pub slot : ℕ
  pub subslot : ℕ
  pub index : ℕ
  pub bytes : Bytes

abbrev pub align4 : ℕ → ℕ
align4 n = (4 - n % 4) % 4

unfoldable pub write_block : Bytes → ℕ → MultiWrite → Bytes
unfolding pniod_header
write_block ar_uuid i w =
    pniod_header iod_write_request_header (i % 65536) ar_uuid w.api w.slot w.subslot w.index
      (length w.bytes % 4294967296) w.bytes

-- The `for` over the writes, from position `i` on; only the last block has no padding.
unfoldable pub write_blocks : Bytes → ℕ → List MultiWrite → Bytes
unfolding write_block
write_blocks ar_uuid i [] = []
write_blocks ar_uuid i (w ∷ []) = write_block ar_uuid i w
write_blocks ar_uuid i (w ∷ w' ∷ ws) =
    let block = write_block ar_uuid i w in
    block ++ (zeros (align4 (length block)) ++ write_blocks ar_uuid (i + 1) (w' ∷ ws))

unfoldable pub iod_write_multiple_payload : Bytes → ℕ → List MultiWrite → Bytes
unfolding write_blocks
iod_write_multiple_payload ar_uuid seq_num writes =
    let blocks = write_blocks ar_uuid 0 writes in
    pniod_header iod_write_request_header seq_num ar_uuid 0xFFFFFFFF 0xFFFF 0xFFFF
      iod_write_multiple_index (length blocks % 4294967296) []
    ++ blocks

pub record WriteMultipleResult : Type 0 where
  pub seq_num : ℕ
  pub api : ℕ
  pub slot : ℕ
  pub subslot : ℕ
  pub index : ℕ
  pub status : ℕ
  pub additional_value1 : ℕ
  pub additional_value2 : ℕ

unfoldable pub success : WriteMultipleResult → Bool
success r = r.status == 0

-- The entry's fields; `be16` and `be32` panic out of range.
unfoldable pub result_of : Bytes → Exec WriteMultipleResult
result_of entry = do
  seq_num ← u16_at entry 6
  api ← u32_at entry 24
  slot ← u16_at entry 28
  subslot ← u16_at entry 30
  index ← u16_at entry 34
  status ← u32_at entry 44
  additional_value1 ← u16_at entry 40
  additional_value2 ← u16_at entry 42
  ok (record {
    seq_num = seq_num;
    api = api;
    slot = slot;
    subslot = subslot;
    index = index;
    status = status;
    additional_value1 = additional_value1;
    additional_value2 = additional_value2;
  })

-- The `while` of `parse_write_multiple_response`.
unfoldable pub results_loop : ℕ → Bytes → ℕ → ℕ → Exec (List WriteMultipleResult)
unfolding result_of
results_loop zero d offset end = stuck
results_loop (suc fuel) d offset end =
    if leb (offset + 56) end
    then (do
      entry ← slice d offset (offset + 56)
      block_type ← u16_at entry 0
      if block_type == iod_write_response_header
          then (do
            result ← result_of entry
            block_length ← u16_at entry 2
            rest ← results_loop fuel d (offset + (4 + block_length + align4 (4 + block_length))) end
            ok (result ∷ rest))
          else ok [])
    else ok []

-- A round moves on by four bytes, so the length is fuel enough.
unfoldable pub parse_write_multiple_response : Bytes → Exec (List WriteMultipleResult)
unfolding results_loop
parse_write_multiple_response d = if ltb (length d) 64 then ok [] else (do
  record_len ← u32_at d 36
  results_loop (suc (length d)) d 64 (min (64 + record_len) (length d)))
