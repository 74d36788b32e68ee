-- ===== src/Dcp/Identify/Utf8.antt =====
-- `String::from_utf8_lossy`: the bytes of the decoded string.
use profinet_rs.Prelude.{
  ℕ, zero, suc, ◌<◌, ◌≡◌, refl, ap, Bool, true, ◌&&◌, ◌||◌, ◌==◌, ltb, leb, if◌then◌else◌, lt→ltb,
  [], ◌∷◌, ◌++◌, All, Bytes,
}

-- U+FFFD
abbrev pub replacement : Bytes
replacement = 0xEF ∷ 0xBF ∷ 0xBD ∷ []

abbrev within : ℕ → ℕ → ℕ → Bool
within lo hi b = leb lo b && leb b hi

-- Whether `b` may follow the first byte `a` of a sequence of three, and of four.
abbrev second_of_three : ℕ → ℕ → Bool
second_of_three a b =
    (a == 0xE0 && within 0xA0 0xBF b)
    || ((within 0xE1 0xEC a && within 0x80 0xBF b)
        || ((a == 0xED && within 0x80 0x9F b) || (within 0xEE 0xEF a && within 0x80 0xBF b)))

abbrev second_of_four : ℕ → ℕ → Bool
second_of_four a b =
    (a == 0xF0 && within 0x90 0xBF b)
    || ((within 0xF1 0xF3 a && within 0x80 0xBF b) || (a == 0xF4 && within 0x80 0x8F b))

-- What the bytes read so far may begin: nothing, or a sequence of which `seen` is read and so many bytes
-- are to come.
pub data Pending : Type 0 where
  nothing_pending : Pending
  second_pending : ℕ → Pending
  more_pending : ℕ → Bytes → Pending

-- A byte where a sequence begins.
abbrev begin : ℕ → Bytes × Pending
begin a =
    if ltb a 0x80
    then (a ∷ [], nothing_pending)
    else (if within 0xC2 0xDF a
        then ([], more_pending 1 (a ∷ []))
        else (if within 0xE0 0xF4 a
            then ([], second_pending a)
            else (replacement, nothing_pending)))

-- A sequence that breaks off gives one replacement, and the byte that broke it begins anew.
abbrev break_off : ℕ → Bytes × Pending
break_off b = let (out, next) = begin b in (replacement ++ out, next)

abbrev decode_byte : Pending → ℕ → Bytes × Pending
decode_byte nothing_pending b = begin b
decode_byte (second_pending a) b =
    if second_of_three a b
    then ([], more_pending 1 (a ∷ b ∷ []))
    else (if second_of_four a b then ([], more_pending 2 (a ∷ b ∷ [])) else break_off b)
decode_byte (more_pending zero seen) b = break_off b
decode_byte (more_pending (suc zero) seen) b =
    if within 0x80 0xBF b then (seen ++ (b ∷ []), nothing_pending) else break_off b
decode_byte (more_pending (suc (suc n)) seen) b =
    if within 0x80 0xBF b then ([], more_pending (suc n) (seen ++ (b ∷ []))) else break_off b

abbrev decode_end : Pending → Bytes
decode_end nothing_pending = []
decode_end _ = replacement

decode : Pending → Bytes → Bytes
decode p [] = decode_end p
decode p (b ∷ bs) = let (out, next) = decode_byte p b in out ++ decode next bs

unfoldable pub from_utf8_lossy : Bytes → Bytes
unfolding decode
from_utf8_lossy d = decode nothing_pending d

-- Bytes below 128 decode to themselves.
pub from_utf8_lossy-ascii : (d : Bytes) → All (λ b. b < 128) d → from_utf8_lossy d ≡ d
unfolding from_utf8_lossy
from_utf8_lossy-ascii [] all = refl
from_utf8_lossy-ascii (b ∷ bs) all =
    let small : ltb b 0x80 ≡ true = lt→ltb b 0x80 all.0 in
    rw small (ap (λ t. b ∷ t) (from_utf8_lossy-ascii bs all.1))
