-- ===== src/Transport/Header/RoundTrip.antt =====
-- src/transport.rs, `parse_rpc_header`: it reads a packet of either byte order back.
use profinet_rs.Prelude.{
  ℕ, ◌+◌, ◌≡◌, refl, sym, ap, ◌∙◌, arith, Bool, true, false, ltb, some, [], ◌∷◌, ◌++◌, length, take,
  drop, Bytes, IsU16, IsU32, byte_at, slice, slice_rest, ok,
}
use profinet_rs.Transport.Words.{word16, word32, rd_u16, rd_u32, rd_u16-word16, rd_u32-word32}
use profinet_rs.Transport.Header.{ParsedRpc, names_little_endian, parse_rpc_header}
use profinet_rs.Transport.Header.Behind.{
  u32_behind, u16_behind, byte_behind, length_behind, slices_behind,
}

pub record IsWireRpc (h : ParsedRpc) : Type 0 where
  pub object_fits : length h.object_uuid ≡ 16
  pub interface_fits : length h.interface_uuid ≡ 16
  pub activity_fits : length h.activity_uuid ≡ 16
  pub boot_fits : IsU32 h.server_boot_time
  pub version_fits : IsU32 h.interface_version
  pub sequence_fits : IsU32 h.sequence_number
  pub operation_fits : IsU16 h.operation_number
  pub interface_hint_fits : IsU16 h.interface_hint
  pub activity_hint_fits : IsU16 h.activity_hint
  pub body_fits : IsU16 h.length_of_body
  pub fragment_fits : IsU16 h.fragment_number
  pub order : h.is_little_endian ≡ names_little_endian h.drep.0

-- The header behind the UUIDs, in the byte order `le`, and the payload.
abbrev pub rpc_words : Bool → ℕ → ℕ → ℕ → ℕ → ℕ → ℕ → ℕ → ℕ → ℕ → ℕ → Bytes → Bytes
rpc_words le boot version sequence operation hint1 hint2 size fragment auth serial payload =
    word32 boot le
    ++ (word32 version le
        ++ (word32 sequence le
            ++ (word16 operation le
                ++ (word16 hint1 le
                    ++ (word16 hint2 le
                        ++ (word16 size le
                            ++ (word16 fragment le ++ (auth ∷ serial ∷ payload))))))))

abbrev pub rpc_head8 : ParsedRpc → Bytes
rpc_head8 h =
    h.version ∷ h.packet_type ∷ h.flags1 ∷ h.flags2 ∷ h.drep.0 ∷ h.drep.1 ∷ h.drep.2 ∷ h.serial_high
    ∷ []

abbrev pub rpc_tail : ParsedRpc → Bytes
rpc_tail h =
    rpc_words h.is_little_endian h.server_boot_time h.interface_version h.sequence_number
      h.operation_number h.interface_hint h.activity_hint h.length_of_body h.fragment_number
      h.auth_protocol h.serial_low h.payload

-- The packet on the wire.
abbrev pub rpc_bytes : ParsedRpc → Bytes
rpc_bytes h =
    rpc_head8 h ++ (h.object_uuid ++ (h.interface_uuid ++ (h.activity_uuid ++ rpc_tail h)))

length-rpc_words :
    (le : Bool) (boot version sequence operation hint1 hint2 size fragment auth serial : ℕ)
    (payload : Bytes)
    → length
        (rpc_words le boot version sequence operation hint1 hint2 size fragment auth serial payload)
      ≡ 24 + length payload
length-rpc_words true b v s o h1 h2 n f a l payload = omega arith
length-rpc_words false b v s o h1 h2 n f a l payload = omega arith

head_bytes :
    (h : ParsedRpc) (rest : Bytes)
    → let d = rpc_head8 h ++ rest in
      (byte_at d 4 ≡ ok h.drep.0)
      × (byte_at d 0 ≡ ok h.version)
      × (byte_at d 1 ≡ ok h.packet_type)
      × (byte_at d 2 ≡ ok h.flags1)
      × (byte_at d 3 ≡ ok h.flags2)
      × (byte_at d 5 ≡ ok h.drep.1)
      × (byte_at d 6 ≡ ok h.drep.2)
      × (byte_at d 7 ≡ ok h.serial_high)
unfolding byte_at
head_bytes h rest = (refl, refl, refl, refl, refl, refl, refl, refl)

-- What stands in the words.
words_read :
    (le : Bool) (boot version sequence operation hint1 hint2 size fragment auth serial : ℕ)
    (payload : Bytes)
    → IsU32 boot
    → IsU32 version
    → IsU32 sequence
    → IsU16 operation
    → IsU16 hint1
    → IsU16 hint2
    → IsU16 size
    → IsU16 fragment
    → let t =
        rpc_words le boot version sequence operation hint1 hint2 size fragment auth serial
          payload in
      (rd_u32 t 0 le ≡ ok boot)
      × (rd_u32 t 4 le ≡ ok version)
      × (rd_u32 t 8 le ≡ ok sequence)
      × (rd_u16 t 12 le ≡ ok operation)
      × (rd_u16 t 14 le ≡ ok hint1)
      × (rd_u16 t 16 le ≡ ok hint2)
      × (rd_u16 t 18 le ≡ ok size)
      × (rd_u16 t 20 le ≡ ok fragment)
      × (byte_at t 22 ≡ ok auth)
      × (byte_at t 23 ≡ ok serial)
      × (slice t 24 (length t) ≡ ok payload)
unfolding byte_at
words_read true b v s o h1 h2 n f a l payload wb wv ws wo w1 w2 wn wf =
    let t = rpc_words true b v s o h1 h2 n f a l payload in
    (
      rd_u32-word32 [] (drop 4 t) 0 b true refl wb,
      rd_u32-word32 (take 4 t) (drop 8 t) 4 v true refl wv,
      rd_u32-word32 (take 8 t) (drop 12 t) 8 s true refl ws,
      rd_u16-word16 (take 12 t) (drop 14 t) 12 o true refl wo,
      rd_u16-word16 (take 14 t) (drop 16 t) 14 h1 true refl w1,
      rd_u16-word16 (take 16 t) (drop 18 t) 16 h2 true refl w2,
      rd_u16-word16 (take 18 t) (drop 20 t) 18 n true refl wn,
      rd_u16-word16 (take 20 t) (drop 22 t) 20 f true refl wf,
      refl,
      refl,
      slice_rest (take 24 t) payload 24 (length t) refl (omega arith),
    )
words_read false b v s o h1 h2 n f a l payload wb wv ws wo w1 w2 wn wf =
    let t = rpc_words false b v s o h1 h2 n f a l payload in
    (
      rd_u32-word32 [] (drop 4 t) 0 b false refl wb,
      rd_u32-word32 (take 4 t) (drop 8 t) 4 v false refl wv,
      rd_u32-word32 (take 8 t) (drop 12 t) 8 s false refl ws,
      rd_u16-word16 (take 12 t) (drop 14 t) 12 o false refl wo,
      rd_u16-word16 (take 14 t) (drop 16 t) 14 h1 false refl w1,
      rd_u16-word16 (take 16 t) (drop 18 t) 16 h2 false refl w2,
      rd_u16-word16 (take 18 t) (drop 20 t) 18 n false refl wn,
      rd_u16-word16 (take 20 t) (drop 22 t) 20 f false refl wf,
      refl,
      refl,
      slice_rest (take 24 t) payload 24 (length t) refl (omega arith),
    )

pub length-rpc_bytes : (h : ParsedRpc) → IsWireRpc h → length (rpc_bytes h) ≡ 80 + length h.payload
length-rpc_bytes h w =
    length_behind (rpc_head8 h) h.object_uuid h.interface_uuid h.activity_uuid (rpc_tail h) refl
      w.object_fits w.interface_fits w.activity_fits
    ∙ ap (λ n. 56 + n)
        (length-rpc_words h.is_little_endian h.server_boot_time h.interface_version
          h.sequence_number h.operation_number h.interface_hint h.activity_hint h.length_of_body
          h.fragment_number h.auth_protocol h.serial_low h.payload)
    ∙ omega arith

-- A packet whose fields fit and whose data representation names the order that its words are in is read
-- back field by field, whichever of the two orders that is: the three UUIDs and the payload as they are,
-- the words as the numbers that were written.
pub parse_rpc_header-rpc_bytes :
    (h : ParsedRpc) → IsWireRpc h → parse_rpc_header (rpc_bytes h) ≡ ok (some h)
unfolding parse_rpc_header
parse_rpc_header-rpc_bytes h w =
    let head = rpc_head8 h in
    let t = rpc_tail h in
    let le = h.is_little_endian in
    let o = h.object_uuid in
    let i = h.interface_uuid in
    let a = h.activity_uuid in
    let long : ltb (length (rpc_bytes h)) 80 ≡ false = ground (arith, length-rpc_bytes h w) in
    let u32 = u32_behind head o i a t refl w.object_fits w.interface_fits w.activity_fits in
    let u16 = u16_behind head o i a t refl w.object_fits w.interface_fits w.activity_fits in
    let byte = byte_behind head o i a t refl w.object_fits w.interface_fits w.activity_fits in
    let parts = slices_behind head o i a t refl w.object_fits w.interface_fits w.activity_fits in
    let reads =
      words_read le h.server_boot_time h.interface_version h.sequence_number h.operation_number
        h.interface_hint h.activity_hint h.length_of_body h.fragment_number h.auth_protocol
        h.serial_low h.payload w.boot_fits w.version_fits w.sequence_fits w.operation_fits
        w.interface_hint_fits w.activity_hint_fits w.body_fits w.fragment_fits in
    let front = head_bytes h (o ++ (i ++ (a ++ t))) in
    rw
      (
        long,
        front.0,
        front.1,
        front.2,
        front.3,
        front.4,
        front.5,
        front.6,
        front.7,
        sym w.order,
        parts.0,
        parts.1,
        parts.2,
        u32 0 le ∙ reads.0,
        u32 4 le ∙ reads.1,
        u32 8 le ∙ reads.2,
        u16 12 le ∙ reads.3,
        u16 14 le ∙ reads.4,
        u16 16 le ∙ reads.5,
        u16 18 le ∙ reads.6,
        u16 20 le ∙ reads.7,
        byte 22 ∙ reads.8,
        byte 23 ∙ reads.9,
        parts.3 ∙ reads.10,
      )
      refl
