-- ===== src/Transport/Header/Answer.antt =====
-- src/transport.rs, `next_rpc_response`: which datagram it takes for the answer to a request.
use profinet_rs.Prelude.{
  ℕ, ◌≡◌, ◌≢◌, ◌⊎◌, inl, inr, refl, ◌∙◌, arith, false, ◌==◌, Bool-cases, ==_iff, none, some, List,
  [], ◌∷◌, ◌++◌, map, All, length, Bytes, ok, err, stuck, Error, Gives, rpc_too_short, rpc_fault,
  rpc_rejected, unexpected_packet,
}
use profinet_rs.Transport.Header.{
  packet_type_request, packet_type_response, packet_type_fault, packet_type_reject, ParsedRpc,
  parse_rpc_header, classify_packet, parse_rpc_response, drep_normalized_uuid, Arrival, datagram,
  failed, is_answer, next_rpc_response,
}
use profinet_rs.Transport.Header.RoundTrip.{IsWireRpc, rpc_bytes, parse_rpc_header-rpc_bytes}
use profinet_rs.Transport.Header.Match.{
  parse_rpc_header-cases, IsForeign, IsOwn, answer_own_parts, answer_own, answer_sound,
  answer_other,
}

-- The rounds of the loop.
pub round_foreign :
    (d : Bytes) (h : ParsedRpc) (more : List Arrival) (uuid : Bytes) (seq : ℕ)
    → parse_rpc_header d ≡ ok (some h)
    → IsForeign uuid seq h
    → next_rpc_response (datagram d ∷ more) uuid seq ≡ next_rpc_response more uuid seq
unfolding next_rpc_response parse_rpc_response classify_packet
round_foreign d h more uuid seq parsed (inl request) = rw (parsed, request) refl
round_foreign d h more uuid seq parsed (inr (response, other)) =
    rw (parsed, response, answer_other uuid seq h other) refl

pub round_own :
    (d : Bytes) (h : ParsedRpc) (more : List Arrival) (uuid : Bytes) (seq : ℕ)
    → parse_rpc_header d ≡ ok (some h)
    → IsOwn uuid seq h
    → next_rpc_response (datagram d ∷ more) uuid seq ≡ ok (h, more)
unfolding next_rpc_response parse_rpc_response classify_packet
round_own d h more uuid seq parsed own = rw (parsed, own.0, answer_own uuid seq h own) refl

-- However many requests that come back and answers to other requests arrive first, in either byte order,
-- the first answer with the UUID of the activity, in the common form, and the sequence number is the one that the
-- caller gets, and what arrived behind it is left.
pub next_rpc_response-own :
    (foreign : List ParsedRpc) (own : ParsedRpc) (more : List Arrival) (uuid : Bytes) (seq : ℕ)
    → All IsWireRpc foreign
    → All (IsForeign uuid seq) foreign
    → IsWireRpc own
    → IsOwn uuid seq own
    → next_rpc_response
        (map (λ h. datagram (rpc_bytes h)) foreign ++ (datagram (rpc_bytes own) ∷ more))
        uuid
        seq
      ≡ ok (own, more)
next_rpc_response-own [] own more uuid seq wires others w o =
    round_own (rpc_bytes own) own more uuid seq (parse_rpc_header-rpc_bytes own w) o
next_rpc_response-own (h ∷ foreign) own more uuid seq wires others w o =
    round_foreign (rpc_bytes h) h
      (map (λ h. datagram (rpc_bytes h)) foreign ++ (datagram (rpc_bytes own) ∷ more)) uuid seq
      (parse_rpc_header-rpc_bytes h wires.0) others.0
    ∙ next_rpc_response-own foreign own more uuid seq wires.1 others.1 w o

-- A datagram that the loop passes over.
abbrev pub Passes : Bytes → ℕ → Arrival → Type 0
Passes uuid seq (datagram d) =
    (h : ParsedRpc) × (parse_rpc_header d ≡ ok (some h)) × IsForeign uuid seq h
Passes uuid seq (failed e) = ⊥

dec_eq : (n m : ℕ) → (n ≡ m) ⊎ (n ≢ m)
dec_eq n m = elim (Bool-cases (n == m)) [
  | inl e ↦ inl ((==_iff n m).0 e)
  | inr e ↦ inr (λ q. ground arith)
]

not_answer :
    (uuid : Bytes) (seq : ℕ) (h : ParsedRpc)
    → is_answer uuid seq h ≡ false
    → (drep_normalized_uuid h.activity_uuid h.is_little_endian ≢ uuid) ⊎ (h.sequence_number ≢ seq)
not_answer uuid seq h e = elim (dec_eq h.sequence_number seq) [
  | inl number ↦ inl (λ same. ground (arith, answer_own_parts uuid seq h same number))
  | inr other ↦ inr other
]

classify_other :
    (h : ParsedRpc)
    → h.packet_type ≢ packet_type_request
    → h.packet_type ≢ packet_type_response
    → (e : Error) × (classify_packet h ≡ err e)
unfolding classify_packet
classify_other h n m =
    let request : (h.packet_type == packet_type_request) ≡ false = ground arith in
    let response : (h.packet_type == packet_type_response) ≡ false = ground arith in
    elim (Bool-cases (h.packet_type == packet_type_fault)) [
      | inl fault ↦ (rpc_fault h.operation_number, rw (request, response, fault) refl)
      | inr other ↦ elim (Bool-cases (h.packet_type == packet_type_reject)) [
        | inl reject ↦ (rpc_rejected, rw (request, response, other, reject) refl)
        | inr none_of_them ↦
            (unexpected_packet h.packet_type, rw (request, response, other, none_of_them) refl)
      ]
    ]

round_ends :
    (d : Bytes) (h : ParsedRpc) (more : List Arrival) (uuid : Bytes) (seq : ℕ)
    → parse_rpc_header d ≡ ok (some h)
    → h.packet_type ≢ packet_type_request
    → h.packet_type ≢ packet_type_response
    → Gives (next_rpc_response (datagram d ∷ more) uuid seq) (λ r. IsOwn uuid seq r.0)
unfolding next_rpc_response parse_rpc_response
round_ends d h more uuid seq parsed n m =
    let (e, ends) = classify_other h n m in rw (parsed, ends) tt

-- A header that is neither the answer nor passed over ends the loop.
round_cases :
    (d : Bytes) (h : ParsedRpc) (more : List Arrival) (uuid : Bytes) (seq : ℕ)
    → parse_rpc_header d ≡ ok (some h)
    → IsForeign uuid seq h
      ⊎ Gives (next_rpc_response (datagram d ∷ more) uuid seq) (λ r. IsOwn uuid seq r.0)
round_cases d h more uuid seq parsed = elim (dec_eq h.packet_type packet_type_request) [
  | inl request ↦ inl (inl request)
  | inr not_request ↦ elim (dec_eq h.packet_type packet_type_response) [
    | inl response ↦ elim (Bool-cases (is_answer uuid seq h)) [
      | inl mine ↦
          let (u, s) = answer_sound uuid seq h mine in
          let own : IsOwn uuid seq h = (response, u, s) in
          inr (rw (round_own d h more uuid seq parsed own) own)
      | inr others ↦ inl (inr (response, not_answer uuid seq h others))
    ]
    | inr not_response ↦ inr (round_ends d h more uuid seq parsed not_request not_response)
  ]
]

round_short :
    (d : Bytes) (more : List Arrival) (uuid : Bytes) (seq : ℕ)
    → parse_rpc_header d ≡ ok none
    → next_rpc_response (datagram d ∷ more) uuid seq ≡ err (rpc_too_short (length d))
unfolding next_rpc_response parse_rpc_response
round_short d more uuid seq parsed = rw parsed refl

-- Whatever arrives, the loop never reads out of range. It goes on waiting only where everything so far was
-- passed over: requests that came back and answers to other requests. Else it ends, and the packet
-- that it returns, if it returns one, is an answer with the UUID and the sequence number of the request.
pub next_rpc_response-cases :
    (arrived : List Arrival) (uuid : Bytes) (seq : ℕ)
    → ((next_rpc_response arrived uuid seq ≡ stuck) × All (Passes uuid seq) arrived)
      ⊎ Gives (next_rpc_response arrived uuid seq) (λ r. IsOwn uuid seq r.0)
next_rpc_response-cases [] uuid seq = inl (unfold next_rpc_response in refl, tt)
next_rpc_response-cases (failed e ∷ more) uuid seq = inr (unfold next_rpc_response in tt)
next_rpc_response-cases (datagram d ∷ more) uuid seq = elim (parse_rpc_header-cases d) [
  | inl (_, short) ↦ inr (rw (round_short d more uuid seq short) tt)
  | inr (_, h, parsed) ↦ elim (round_cases d h more uuid seq parsed) [
    | inl foreign ↦
        let step = round_foreign d h more uuid seq parsed foreign in
        elim (next_rpc_response-cases more uuid seq) [
          | inl (waits, passed) ↦ inl (step ∙ waits, ((h, parsed, foreign), passed))
          | inr gives ↦ inr (rw step gives)
        ]
    | inr gives ↦ inr gives
  ]
]
