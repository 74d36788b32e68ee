-- ===== src/Transport/Header/Match.antt =====
-- src/transport.rs: which packets are the answer to a request.
use profinet_rs.Prelude.{
  ℕ, ◌<◌, ◌≤◌, ◌≡◌, ◌≢◌, ◌⊎◌, inl, inr, refl, ap, ◌∙◌, arith, true, false, ◌==◌, ltb, Bool-cases,
  ==_iff, none, some, length, Bytes, at, byte_at_lem, slice_lem, ok, Yields, Yields-ok, same_bytes,
  same_bytes_self, same_bytes_sound,
}
use profinet_rs.Transport.Words.{rd_u16_lem, rd_u32_lem}
use profinet_rs.Transport.Header.{
  packet_type_request, packet_type_response, ParsedRpc, names_little_endian, header_fields,
  parse_rpc_header, drep_normalized_uuid, is_answer,
}

header_fields-Yields :
    (d : Bytes) → 80 ≤ length d → Yields (header_fields d) (λ h. h.packet_type ≡ at d 1)
unfolding header_fields
header_fields-Yields d k =
    let le = names_little_endian (at d 4) in
    rw
      (
        byte_at_lem d 4 (omega arith),
        byte_at_lem d 0 (omega arith),
        byte_at_lem d 1 (omega arith),
        byte_at_lem d 2 (omega arith),
        byte_at_lem d 3 (omega arith),
        byte_at_lem d 5 (omega arith),
        byte_at_lem d 6 (omega arith),
        byte_at_lem d 7 (omega arith),
        slice_lem d 8 24 (omega arith) (omega arith),
        slice_lem d 24 40 (omega arith) (omega arith),
        slice_lem d 40 56 (omega arith) (omega arith),
        rd_u32_lem d 56 le (omega arith),
        rd_u32_lem d 60 le (omega arith),
        rd_u32_lem d 64 le (omega arith),
        rd_u16_lem d 68 le (omega arith),
        rd_u16_lem d 70 le (omega arith),
        rd_u16_lem d 72 le (omega arith),
        rd_u16_lem d 74 le (omega arith),
        rd_u16_lem d 76 le (omega arith),
        byte_at_lem d 78 (omega arith),
        byte_at_lem d 79 (omega arith),
        slice_lem d 80 (length d) (omega arith) (omega arith),
      )
      refl

-- Too short for a header, or a header.
pub parse_rpc_header-cases :
    (d : Bytes)
    → ((length d < 80) × (parse_rpc_header d ≡ ok none))
      ⊎ ((80 ≤ length d) × (h : ParsedRpc) × (parse_rpc_header d ≡ ok (some h)))
unfolding parse_rpc_header
parse_rpc_header-cases d = elim (Bool-cases (ltb (length d) 80)) [
  | inl short ↦ inl (ground arith, rw short refl)
  | inr long ↦
      let n : 80 ≤ length d = ground arith in
      let (h, e, _) = Yields-ok (header_fields d) _ (header_fields-Yields d n) in
      inr (n, h, rw (long, e) refl)
]

-- The packet is not the answer: a request that comes back, or an answer to another request.
abbrev pub IsForeign : Bytes → ℕ → ParsedRpc → Type 0
IsForeign uuid seq h =
    (h.packet_type ≡ packet_type_request)
    ⊎ ((h.packet_type ≡ packet_type_response)
        × ((drep_normalized_uuid h.activity_uuid h.is_little_endian ≢ uuid)
            ⊎ (h.sequence_number ≢ seq)))

-- The packet is the answer.
abbrev pub IsOwn : Bytes → ℕ → ParsedRpc → Type 0
IsOwn uuid seq h =
    (h.packet_type ≡ packet_type_response)
    × (drep_normalized_uuid h.activity_uuid h.is_little_endian ≡ uuid)
    × (h.sequence_number ≡ seq)

pub answer_own_parts :
    (uuid : Bytes) (seq : ℕ) (h : ParsedRpc)
    → drep_normalized_uuid h.activity_uuid h.is_little_endian ≡ uuid
    → h.sequence_number ≡ seq
    → is_answer uuid seq h ≡ true
unfolding is_answer
answer_own_parts uuid seq h u n =
    let same : same_bytes (drep_normalized_uuid h.activity_uuid h.is_little_endian) uuid ≡ true =
      ap (λ u. same_bytes u uuid) u ∙ same_bytes_self uuid in
    let number : (h.sequence_number == seq) ≡ true = (==_iff h.sequence_number seq).1 n in
    rw (same, number) refl

pub answer_own :
    (uuid : Bytes) (seq : ℕ) (h : ParsedRpc) → IsOwn uuid seq h → is_answer uuid seq h ≡ true
answer_own uuid seq h w = answer_own_parts uuid seq h w.1 w.2

pub answer_sound :
    (uuid : Bytes) (seq : ℕ) (h : ParsedRpc)
    → is_answer uuid seq h ≡ true
    → (drep_normalized_uuid h.activity_uuid h.is_little_endian ≡ uuid) × (h.sequence_number ≡ seq)
unfolding is_answer
answer_sound uuid seq h e =
    let own = drep_normalized_uuid h.activity_uuid h.is_little_endian in
    let both : (same_bytes own uuid ≡ true) × ((h.sequence_number == seq) ≡ true) = ground arith in
    (same_bytes_sound own uuid both.0, (==_iff h.sequence_number seq).0 both.1)

pub answer_other :
    (uuid : Bytes) (seq : ℕ) (h : ParsedRpc)
    → (drep_normalized_uuid h.activity_uuid h.is_little_endian ≢ uuid) ⊎ (h.sequence_number ≢ seq)
    → is_answer uuid seq h ≡ false
answer_other uuid seq h other = elim (Bool-cases (is_answer uuid seq h)) [
  | inl mine ↦
      let (u, s) = answer_sound uuid seq h mine in
      elim other [ inl n ↦ absurd (n u) | inr n ↦ absurd (n s) ]
  | inr others ↦ others
]
