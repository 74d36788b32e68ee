-- ===== src/Connect/Entries.antt =====
-- src/connect.rs: the loops over the slots list the objects of the configuration.
use profinet_rs.Prelude.{
  ℕ, ◌+◌, ◌%◌, ◌<◌, ◌≡◌, inl, inr, refl, ap, ◌∙◌, arith, true, false, ◌==◌, ltb, Bool-cases, none,
  some, List, [], ◌∷◌, ◌++◌, All, length, Bytes,
}
use profinet_rs.Rt.Config.Layout.{Laid, Laid-ends}
use profinet_rs.Rt.Config.{IoSlot, IoDataObject, data_objects, iocs_objects, skip_iocs}
use profinet_rs.Connect.{iocr_api_object, io_data_loop, consumer_loop}

-- The entries of a connect request for objects.
abbrev pub entries : List IoDataObject → Bytes
entries [] = []
entries (o ∷ os) = iocr_api_object o.slot o.subslot o.frame_offset ++ entries os

-- As the loops write them, with the offsets cut to 16 bits.
abbrev pub cut_entries : List IoDataObject → Bytes
cut_entries [] = []
cut_entries (o ∷ os) = iocr_api_object o.slot o.subslot (o.frame_offset % 65536) ++ cut_entries os

pub cut_entries-entries :
    (lo hi : ℕ) (os : List IoDataObject) → Laid lo os hi → hi < 65536 → cut_entries os ≡ entries os
cut_entries-entries lo hi [] l h = refl
cut_entries-entries lo hi (o ∷ os) l h =
    let ends = Laid-ends (o.frame_offset + o.data_length + 1) hi os l.2 in
    let whole : o.frame_offset % 65536 ≡ o.frame_offset = omega arith in
    rw (whole, cut_entries-entries (o.frame_offset + o.data_length + 1) hi os l.2 h) refl

pub cut_entries-both :
    (lo hi : ℕ) (xs ys : List IoDataObject)
    → Laid lo (xs ++ ys) hi
    → hi < 65536
    → (cut_entries xs ≡ entries xs) × (cut_entries ys ≡ entries ys)
cut_entries-both lo hi [] ys l h = (refl, cut_entries-entries lo hi ys l h)
cut_entries-both lo hi (x ∷ xs) ys l h =
    let next = x.frame_offset + x.data_length + 1 in
    let ends = Laid-ends next hi (xs ++ ys) l.2 in
    let whole : x.frame_offset % 65536 ≡ x.frame_offset = omega arith in
    let both = cut_entries-both next hi xs ys l.2 h in (rw (whole, both.0) refl, both.1)

abbrev pub IsData : IoDataObject → Type 0
IsData o = o.iocs_offset ≡ none

abbrev pub IsConsumer : IoDataObject → Type 0
IsConsumer o = o.iocs_offset ≡ some o.frame_offset

pub data_objects-IsData :
    (len : IoSlot → ℕ) (slots : List IoSlot) (offset : ℕ)
    → All IsData (data_objects len slots offset).0
unfolding data_objects
data_objects-IsData len [] offset = tt
data_objects-IsData len (s ∷ slots) offset = elim (Bool-cases (ltb 0 (len s))) [
  | inl used ↦ rw used (refl, data_objects-IsData len slots (offset + (len s + 1)))
  | inr unused ↦ rw unused (data_objects-IsData len slots offset)
]

pub iocs_objects-IsConsumer :
    (slots : List IoSlot) (offset : ℕ) → All IsConsumer (iocs_objects slots offset).0
unfolding iocs_objects
iocs_objects-IsConsumer [] offset = tt
iocs_objects-IsConsumer (s ∷ slots) offset = elim (Bool-cases (s.output_length == 0)) [
  | inl free ↦ rw free (refl, iocs_objects-IsConsumer slots (offset + 1))
  | inr used ↦ rw used (iocs_objects-IsConsumer slots offset)
]

-- The first loops of the two modules agree.
io_data_loop-data_objects :
    (len : IoSlot → ℕ) (slots : List IoSlot) (num offset : ℕ)
    → num + length slots < 65536
    → let laid = data_objects len slots offset in
      io_data_loop len slots num offset ≡ (cut_entries laid.0, num + length laid.0, laid.1)
unfolding io_data_loop data_objects
io_data_loop-data_objects len [] num offset h = ap (λ n. ([], n, offset)) (omega arith)
io_data_loop-data_objects len (s ∷ slots) num offset h = elim (Bool-cases (ltb 0 (len s))) [
  | inl used ↦
      let e : (num + 1) % 65536 ≡ num + 1 = omega arith in
      let laid = data_objects len slots (offset + (len s + 1)) in
      rw
        (
          used,
          e,
          io_data_loop-data_objects len slots (num + 1) (offset + (len s + 1)) (omega arith),
        )
        (ap
          (λ n.
            (iocr_api_object s.slot s.subslot (offset % 65536) ++ cut_entries laid.0, n, laid.1))
          (omega arith))
  | inr unused ↦ rw (unused, io_data_loop-data_objects len slots num offset (omega arith)) refl
]

-- So do the second loops of the output IOCR.
consumer_loop-iocs_objects :
    (slots : List IoSlot) (num offset : ℕ)
    → num + length slots < 65536
    → let laid = iocs_objects slots offset in
      consumer_loop 2 slots num offset ≡ (cut_entries laid.0, num + length laid.0, laid.1)
unfolding consumer_loop iocs_objects
consumer_loop-iocs_objects [] num offset h = ap (λ n. ([], n, offset)) (omega arith)
consumer_loop-iocs_objects (s ∷ slots) num offset h = elim (Bool-cases (ltb 0 s.output_length)) [
  | inl used ↦
      let other : (s.output_length == 0) ≡ false = ground arith in
      rw (used, other, consumer_loop-iocs_objects slots num offset (omega arith)) refl
  | inr free ↦
      let none_there : (s.output_length == 0) ≡ true = ground arith in
      let e : (num + 1) % 65536 ≡ num + 1 = omega arith in
      let laid = iocs_objects slots (offset + 1) in
      rw
        (free, none_there, e, consumer_loop-iocs_objects slots (num + 1) (offset + 1) (omega arith))
        (ap
          (λ n.
            (iocr_api_object s.slot s.subslot (offset % 65536) ++ cut_entries laid.0, n, laid.1))
          (omega arith))
]

-- The second loops of the input IOCR move the offset on alike.
pub consumer_loop-skip_iocs :
    (slots : List IoSlot) (num offset : ℕ)
    → (consumer_loop 1 slots num offset).2 ≡ skip_iocs slots offset
unfolding consumer_loop skip_iocs
consumer_loop-skip_iocs [] num offset = refl
consumer_loop-skip_iocs (s ∷ slots) num offset = elim (Bool-cases (ltb 0 s.input_length)) [
  | inl used ↦
      let other : (s.input_length == 0) ≡ false = ground arith in
      rw (used, other) (consumer_loop-skip_iocs slots num offset)
  | inr free ↦
      let none_there : (s.input_length == 0) ≡ true = ground arith in
      rw (free, none_there) (consumer_loop-skip_iocs slots ((num + 1) % 65536) (offset + 1))
]

-- Both from the start of the block.
pub from_zero_data :
    (len : IoSlot → ℕ) (slots : List IoSlot) (offset : ℕ)
    → length slots < 65536
    → let laid = data_objects len slots offset in
      io_data_loop len slots 0 offset ≡ (cut_entries laid.0, length laid.0, laid.1)
from_zero_data len slots offset h =
    let laid = data_objects len slots offset in
    io_data_loop-data_objects len slots 0 offset (omega arith)
    ∙ ap (λ n. (cut_entries laid.0, n, laid.1)) (omega arith)

pub from_zero_iocs :
    (slots : List IoSlot) (offset : ℕ)
    → length slots < 65536
    → let laid = iocs_objects slots offset in
      consumer_loop 2 slots 0 offset ≡ (cut_entries laid.0, length laid.0, laid.1)
from_zero_iocs slots offset h =
    let laid = iocs_objects slots offset in
    consumer_loop-iocs_objects slots 0 offset (omega arith)
    ∙ ap (λ n. (cut_entries laid.0, n, laid.1)) (omega arith)
