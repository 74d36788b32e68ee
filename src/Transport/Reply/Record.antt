-- ===== src/Transport/Reply/Record.antt =====
-- src/transport.rs: a record that a device answers with comes out as it is.
use profinet_rs.Prelude.{
  ℕ, ◌+◌, ◌≡◌, inl, inr, refl, ◌∙◌, arith, Bool, false, ◌==◌, ltb, if◌then◌else◌, Bool-cases, [],
  ◌∷◌, ◌++◌, length, take, drop, length-append, Bytes, IsU16, IsU32, slice, be16, be32,
  slice-append, slice_rest, ok, err, pnio_status, slice_past,
}
use profinet_rs.Blocks.{block_header, pniod_header, zeros}
use profinet_rs.Transport.Words.{
  rd_u16, rd_u32, rd_u32-word32, rd_u16-word16, rd_u16-append, rd_u32-append,
}
use profinet_rs.Transport.Reply.{parse_iod_header, parse_read_response}
use profinet_rs.Transport.Reply.RoundTrip.{nrd_bytes, parse_nrd-nrd_bytes}

behind32 :
    (head u t : Bytes) (k : ℕ)
    → length head ≡ 8
    → length u ≡ 16
    → rd_u32 (head ++ (u ++ t)) (24 + k) false ≡ rd_u32 t k false
behind32 head u t k x y =
    rd_u32-append head (u ++ t) (24 + k) (16 + k) false (omega arith)
    ∙ rd_u32-append u t (16 + k) k false (omega arith)

behind16 :
    (head u t : Bytes) (k : ℕ)
    → length head ≡ 8
    → length u ≡ 16
    → rd_u16 (head ++ (u ++ t)) (24 + k) false ≡ rd_u16 t k false
behind16 head u t k x y =
    rd_u16-append head (u ++ t) (24 + k) (16 + k) false (omega arith)
    ∙ rd_u16-append u t (16 + k) k false (omega arith)

-- A record header of the fields given, as `pniod_header` writes it.
abbrev pub iod_tail : ℕ → ℕ → ℕ → ℕ → ℕ → Bytes → Bytes
iod_tail api slot subslot index len payload =
    be32 api
    ++ (be16 slot
        ++ (be16 subslot
            ++ (be16 0 ++ (be16 index ++ (be32 len ++ (zeros 16 ++ (zeros 8 ++ payload)))))))

iod_reads :
    (block_type seq : ℕ) (ar_uuid : Bytes) (api slot subslot index len : ℕ) (payload : Bytes)
    → length ar_uuid ≡ 16
    → IsU16 block_type
    → IsU16 seq
    → IsU32 api
    → IsU16 slot
    → IsU16 subslot
    → IsU16 index
    → IsU32 len
    → let d = pniod_header block_type seq ar_uuid api slot subslot index len payload in
      (slice d 8 24 ≡ ok ar_uuid)
      × (rd_u16 d 0 false ≡ ok block_type)
      × (rd_u16 d 2 false ≡ ok 60)
      × (rd_u16 d 6 false ≡ ok seq)
      × (rd_u32 d 24 false ≡ ok api)
      × (rd_u16 d 28 false ≡ ok slot)
      × (rd_u16 d 30 false ≡ ok subslot)
      × (rd_u16 d 34 false ≡ ok index)
      × (rd_u32 d 36 false ≡ ok len)
      × (slice d 64 (length d) ≡ ok payload)
      × (length d ≡ 64 + length payload)
unfolding pniod_header block_header
iod_reads b s u api slot sub index len payload wu wb ws wa wl wc wi wn =
    let head = be16 b ++ (be16 60 ++ (1 ∷ 0 ∷ be16 s)) in
    let t = iod_tail api slot sub index len payload in
    let d = head ++ (u ++ t) in
    let size : length d ≡ 64 + length payload = omega (arith, length-append u t) in
    (
      slice-append head u t 8 24 refl (omega arith),
      rd_u16-word16 [] (drop 2 d) 0 b false refl wb,
      rd_u16-word16 (take 2 d) (drop 4 d) 2 60 false refl (omega arith),
      rd_u16-word16 (take 6 d) (drop 8 d) 6 s false refl ws,
      behind32 head u t 0 refl wu ∙ rd_u32-word32 [] (drop 4 t) 0 api false refl wa,
      behind16 head u t 4 refl wu ∙ rd_u16-word16 (take 4 t) (drop 6 t) 4 slot false refl wl,
      behind16 head u t 6 refl wu ∙ rd_u16-word16 (take 6 t) (drop 8 t) 6 sub false refl wc,
      behind16 head u t 10 refl wu ∙ rd_u16-word16 (take 10 t) (drop 12 t) 10 index false refl wi,
      behind32 head u t 12 refl wu ∙ rd_u32-word32 (take 12 t) (drop 16 t) 12 len false refl wn,
      slice_past head (u ++ t) 64 (length d) 56 (56 + length payload) refl (omega arith)
          ∙ slice_past u t 56 (56 + length payload) 40 (40 + length payload) (omega arith)
              (omega arith)
          ∙ slice_rest (take 40 t) payload 40 (40 + length payload) refl refl,
      size,
    )

-- The parser of record headers reads back what `pniod_header` writes, for a UUID of 16 bytes and fields
-- that fit their words.
pub parse_iod_header-pniod_header :
    (block_type seq : ℕ) (ar_uuid : Bytes) (api slot subslot index len : ℕ) (payload : Bytes)
    → length ar_uuid ≡ 16
    → IsU16 block_type
    → IsU16 seq
    → IsU32 api
    → IsU16 slot
    → IsU16 subslot
    → IsU16 index
    → IsU32 len
    → parse_iod_header (pniod_header block_type seq ar_uuid api slot subslot index len payload)
      ≡ ok (record {
        block_type = block_type;
        block_length = 60;
        sequence_number = seq;
        ar_uuid = ar_uuid;
        api = api;
        slot = slot;
        subslot = subslot;
        index = index;
        len = len;
        payload = payload;
      })
unfolding parse_iod_header
parse_iod_header-pniod_header b s u api slot sub index len payload wu wb ws wa wl wc wi wn =
    let r = iod_reads b s u api slot sub index len payload wu wb ws wa wl wc wi wn in
    let long : ltb (length (pniod_header b s u api slot sub index len payload)) 64 ≡ false =
      ground (arith, r.10) in
    rw (long, r.0, r.1, r.2, r.3, r.4, r.5, r.6, r.7, r.8, r.9) refl

-- A read that the device answers gives the caller the record's bytes, where the status is zero, whatever
-- the header's other fields are; on any other status it gives that status as the error. The NRD fields are
-- in the byte order that the RPC header names, either of the two.
pub parse_read_response-answer :
    (le : Bool) (status args maximum offset count : ℕ) (seq : ℕ) (ar_uuid : Bytes)
    (api slot subslot index len : ℕ) (payload : Bytes)
    → IsU32 status
    → IsU32 args
    → IsU32 maximum
    → IsU32 offset
    → IsU32 count
    → length ar_uuid ≡ 16
    → IsU16 seq
    → IsU32 api
    → IsU16 slot
    → IsU16 subslot
    → IsU16 index
    → IsU32 len
    → parse_read_response
        (nrd_bytes le status args maximum offset count
          (pniod_header 0x8009 seq ar_uuid api slot subslot index len payload))
        le
      ≡ (if status == 0 then ok payload else err (pnio_status status))
unfolding parse_read_response
parse_read_response-answer le st a m o c s u api slot sub index len payload w0 w1 w2 w3 w4 wu ws wa
      wl wc wi wn =
    let record_bytes = pniod_header 0x8009 s u api slot sub index len payload in
    rw
      (
        parse_nrd-nrd_bytes le st a m o c record_bytes w0 w1 w2 w3 w4,
        parse_iod_header-pniod_header 0x8009 s u api slot sub index len payload wu (omega arith) ws
            wa wl wc wi wn,
      )
      (elim (Bool-cases (st == 0)) [
        | inl zero_status ↦ rw zero_status refl
        | inr other ↦ rw other refl
      ])
