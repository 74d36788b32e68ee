-- ===== src/Rpc/Framing.antt =====
-- src/rpc.rs: where the parts of a write request lie.
use profinet_rs.Prelude.{
  ℕ, ◌+◌, ◌%◌, ◌≤◌, ◌≡◌, refl, sym, ap, ◌∙◌, arith, max, ap₂, [], ◌∷◌, ◌++◌, append_assoc, length,
  take, length-append, Bytes, IsU32, u16_at, u32_at, slice, slice_lem, be16, be32, u16_at-be16,
  u32_at-append, u32_at-be32, slice_rest, ok, drop_past,
}
use profinet_rs.Rpc.{nrd, rpc_head, rpc_request}

slice_back :
    (front rest : Bytes) (i k : ℕ)
    → i ≡ length front + k
    → k ≤ length rest
    → slice (front ++ rest) i (length (front ++ rest)) ≡ slice rest k (length rest)
slice_back front rest i k e h =
    let n = length-append front rest in
    slice_lem (front ++ rest) i (length (front ++ rest)) (omega arith) (omega arith)
    ∙ ap₂ (λ m d. ok (take m d)) (omega arith) (drop_past front rest i k e)
    ∙ sym (slice_lem rest k (length rest) h (omega arith))

-- A body in its frame.
record Framed (body frame : Bytes) : Type 0 where
  long : length frame ≡ 80 + length body
  declared : u16_at frame 74 ≡ ok (length body % 65536)
  word : (k : ℕ) → u32_at frame (80 + k) ≡ u32_at body k
  carried :
      (k : ℕ) → k ≤ length body → slice frame (80 + k) (length frame) ≡ slice body k (length body)

length-rpc_head :
    (o i a : Bytes) (seq operation : ℕ)
    → length o ≡ 16
    → length i ≡ 16
    → length a ≡ 16
    → length (rpc_head o i a seq operation) ≡ 74
unfolding rpc_head
length-rpc_head o i a seq operation x y z =
    let end =
      be32 0 ++ (be32 1 ++ (be32 seq ++ (be16 operation ++ (be16 0xFFFF ++ be16 0xFFFF)))) in
    omega
      (arith, length-append o (i ++ (a ++ end)), length-append i (a ++ end), length-append a end)

rpc_request-Framed :
    (o i a : Bytes) (seq operation : ℕ) (body : Bytes)
    → length o ≡ 16
    → length i ≡ 16
    → length a ≡ 16
    → Framed body (rpc_request o i a seq operation body)
unfolding rpc_request
rpc_request-Framed o i a seq operation body x y z =
    let head = rpc_head o i a seq operation in
    let n = length-rpc_head o i a seq operation x y z in
    let mid = be16 (length body % 65536) ++ (0 ∷ 0 ∷ 0 ∷ 0 ∷ []) in
    record {
      long = omega (arith, length-append head (mid ++ body));
      declared =
          u16_at-be16 head (0 ∷ 0 ∷ 0 ∷ 0 ∷ body) 74 (length body % 65536) (sym n) (omega arith);
      word = λ k.
          ap (λ d. u32_at d (80 + k)) (sym (append_assoc head mid body))
          ∙ u32_at-append (head ++ mid) body (80 + k) k (omega (arith, length-append head mid));
      carried = λ k h.
          ap (λ d. slice d (80 + k) (length d)) (sym (append_assoc head mid body))
          ∙ slice_back (head ++ mid) body (80 + k) k (omega (arith, length-append head mid)) h;
    }

nrd_shape :
    (payload : Bytes)
    → IsU32 (length payload)
    → let n = length payload in
      nrd payload
      ≡ be32 (max 4000 n) ++ (be32 n ++ (be32 (max 4000 n) ++ (be32 0 ++ (be32 n ++ payload))))
unfolding nrd
nrd_shape payload w =
    ap
      (λ n. be32 (max 4000 n) ++ (be32 n ++ (be32 (max 4000 n) ++ (be32 0 ++ (be32 n ++ payload)))))
      (omega arith)

-- An RPC request of any opnum, with UUIDs of 16 bytes: the header is 80 bytes, the body stands behind it, and
-- the header's 16-bit length field at 74 is the body's length, modulo 65536. For an NDR body of a payload below 4 GiB
-- the announced maximum at 80 is at least the argument length at 84, which is the payload's length, and the payload stands at 100.
pub rpc_request-nrd :
    (object_uuid iface_uuid activity_uuid : Bytes) (seq operation : ℕ) (payload : Bytes)
    → length object_uuid ≡ 16
    → length iface_uuid ≡ 16
    → length activity_uuid ≡ 16
    → IsU32 (length payload)
    → let frame = rpc_request object_uuid iface_uuid activity_uuid seq operation (nrd payload) in
      (length frame ≡ 100 + length payload)
      × (u16_at frame 74 ≡ ok ((20 + length payload) % 65536))
      × (u32_at frame 80 ≡ ok (max 4000 (length payload)))
      × (u32_at frame 84 ≡ ok (length payload))
      × (u32_at frame 96 ≡ ok (length payload))
      × (slice frame 100 (length frame) ≡ ok payload)
rpc_request-nrd o i a seq operation payload x y z w =
    let n = length payload in
    let f = rpc_request-Framed o i a seq operation (nrd payload) x y z in
    let shape = nrd_shape payload w in
    let size : length (nrd payload) ≡ 20 + n = ap length shape ∙ omega arith in
    (
      omega (arith, f.long),
      f.declared ∙ ap (λ k. ok (k % 65536)) size,
      f.word 0 ∙ ap (λ d. u32_at d 0) shape ∙ u32_at-be32 [] _ 0 (max 4000 n) refl (omega arith),
      f.word 4 ∙ ap (λ d. u32_at d 4) shape ∙ u32_at-be32 (be32 (max 4000 n)) _ 4 n refl w,
      f.word 16
          ∙ ap (λ d. u32_at d 16) shape
          ∙ u32_at-be32 (be32 (max 4000 n) ++ (be32 n ++ (be32 (max 4000 n) ++ be32 0))) payload 16
              n refl w,
      f.carried 20 (omega arith)
          ∙ ap (λ d. slice d 20 (length d)) shape
          ∙ slice_rest (be32 (max 4000 n) ++ (be32 n ++ (be32 (max 4000 n) ++ (be32 0 ++ be32 n))))
              payload 20 _ refl (omega arith),
    )
