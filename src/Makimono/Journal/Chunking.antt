-- ===== src/Makimono/Journal/Chunking.antt =====
-- `read_from` of makimono/src/journal.rs inside one segment: the chunk that it takes out of it.
use mathlib.Core.List.{append_assoc, map-append}
use tear.Base.{
  ℕ, zero, suc, ◌+◌, ◌-◌, ◌≤◌, ◌<◌, true, List, [], ◌∷◌, ◌++◌, Option, none, some, length, take,
  drop, min, max, ◌≡◌, refl, ap, ◌∙◌, sym, ◌⊎◌, inl, inr, arith, drop-all, length-map, length-take,
  length-drop, Option-cases, drop-drop, take-append-drop,
}
use tear.Base.Maps.{get}
use tear.Makimono.Lease.{ok}
use tear.Makimono.Journal.{Segment, segment_end, SegmentFiles}
use tear.Makimono.Journal.Reader.{Chunk, read_segment, chunk_of}
use tear.Makimono.Journal.Stream.{
  Stream, hole, length-hole, drop-hole, drop-append, stretch, content, sub_suc, sub_zero_left,
  sub_zero_right,
}
use tear.Makimono.Journal.Finding.{IsHole, onward, BeginsIn}

take-nil {ℓ} : {A : Type ℓ} (n : ℕ) → take {A = A} n [] ≡ []
take-nil zero = refl
take-nil (suc n) = refl

drop-take {ℓ} : {A : Type ℓ} (k n : ℕ) (xs : List A) → drop k (take n xs) ≡ take (n - k) (drop k xs)
drop-take zero n xs = rw (sub_zero_right n) refl
drop-take (suc k) zero xs = rw (sub_zero_left (suc k)) refl
drop-take (suc k) (suc n) [] = sym (take-nil (suc n - suc k))
drop-take (suc k) (suc n) (x ∷ xs) = rw (sub_suc n k) (drop-take k n xs)

min_zero : (m : ℕ) → min m 0 ≡ 0
min_zero m = omega arith

zero_min : (n : ℕ) → min 0 n ≡ 0
zero_min n = omega arith

take-take {ℓ} : {A : Type ℓ} (m n : ℕ) (xs : List A) → take (min m n) xs ≡ take n (take m xs)
take-take m zero xs = rw (min_zero m) refl
take-take zero (suc n) xs = rw (zero_min (suc n)) (sym (take-nil (suc n)))
take-take (suc m) (suc n) [] = take-nil (min (suc m) (suc n))
take-take (suc m) (suc n) (x ∷ xs) = rw (min_suc m n) (ap (◌∷◌ x) (take-take m n xs))
  where
    min_suc : (m n : ℕ) → min (suc m) (suc n) ≡ suc (min m n)
    min_suc m n = omega arith

pub drop-stretch :
    (gap : ℕ) (bytes : List ℕ) (rest : Stream)
    → drop (gap + length bytes) (hole gap ++ (stretch bytes ++ rest)) ≡ rest
drop-stretch gap bytes rest =
    drop-append (gap + length bytes) (hole gap) (stretch bytes ++ rest)
    ∙ rw (drop-hole (gap + length bytes) gap, length-hole gap, none_left, all_of)
        (drop-append (length bytes) (stretch bytes) rest
          ∙ rw
              (
                length-map {B = Option ℕ} bytes some,
                drop-all (length bytes) (stretch bytes)
                    (omega (arith, length-map {B = Option ℕ} bytes some)),
                same,
              )
              refl)
  where
    none_left : gap - (gap + length bytes) ≡ 0
    none_left = omega arith

    all_of : gap + length bytes - gap ≡ length bytes
    all_of = omega arith

    same : length bytes - length bytes ≡ 0
    same = omega arith

-- What a read at an offset gives: nothing, where no byte is left, or the bytes that come next.
abbrev pub Reads : ℕ → ℕ → Stream → Option Chunk → Type 0
Reads at limit stream none = (limit ≡ 0) ⊎ IsHole (drop at stream)
Reads at limit stream (some chunk) =
    (at ≤ chunk.at)
    × (0 < length chunk.bytes)
    × (length chunk.bytes ≤ limit)
    × (drop at stream
        ≡ hole (chunk.at - at)
          ++ (stretch chunk.bytes ++ drop (chunk.at + length chunk.bytes) stream))

chunk_of-some :
    (at : ℕ) (bytes : List ℕ)
    → 0 < length bytes
    → chunk_of at bytes ≡ ok (some (record { at = at; bytes = bytes }))
chunk_of-some at [] h = absurd (omega arith)
chunk_of-some at (b ∷ bytes) h = refl

-- What `read_segment` takes out of a segment.
pub segment_chunk : SegmentFiles → ℕ → ℕ → Segment → Chunk
segment_chunk files at limit s = record {
  at = max at s.start;
  bytes = take limit (onward files at s);
}

module _ (files : SegmentFiles) (at limit : ℕ) (stream : Stream) (s : Segment)
    (b : BeginsIn files 0 at stream s) (some_limit : 0 < limit) where
  length-chunk : 0 < length (segment_chunk files at limit s).bytes
  unfolding segment_chunk
  length-chunk = omega (
    arith,
    length-take limit (onward files at s),
    length-drop (at - s.start) (take s.len (content s.start files)),
    length-take s.len (content s.start files),
    b.inside,
    b.some_len,
    b.there,
  )

  taken :
      take
        (min (segment_end s - max at s.start) limit)
        (drop (max at s.start - s.start) (content s.start files))
      ≡ (segment_chunk files at limit s).bytes
  unfolding segment_chunk
  taken =
      take-take (segment_end s - max at s.start) limit
        (drop (max at s.start - s.start) (content s.start files))
      ∙ rw (skipped, left, sym (drop-take (at - s.start) s.len (content s.start files))) refl
    where
      skipped : max at s.start - s.start ≡ at - s.start
      skipped = omega arith

      left : segment_end s - max at s.start ≡ s.len - (at - s.start)
      left = omega (arith, b.inside)

  pub read_segment_lem :
      read_segment true files at limit s ≡ ok (some (segment_chunk files at limit s))
  unfolding read_segment segment_chunk
  read_segment_lem = elim (Option-cases (get s.start files)) [
    | inl e ↦
        let empty : content s.start files ≡ [] = rw (e, content) refl in
        let there = b.there in let some_len = b.some_len in absurd (omega (arith, ap length empty))
    | inr (c, e) ↦
        let same : content s.start files ≡ c = rw (e, content) refl in
        rw (e, read_segment) (rw (sym same, taken) (chunk_of-some (max at s.start) _ length-chunk))
  ]

  got : List ℕ
  got = take limit (onward files at s)

  rest : Stream
  rest = stretch (drop limit (onward files at s)) ++ b.tail

  whole : drop at stream ≡ hole (max at s.start - at) ++ (stretch got ++ rest)
  unfolding got rest
  whole =
      ap (λ k. drop k stream) (sym (sub_zero_right at))
      ∙ b.split
      ∙ rw (unfloored, parted)
          (ap (◌++◌ (hole (max at s.start - at))) (
            append_assoc (stretch (take limit (onward files at s)))
              (stretch (drop limit (onward files at s))) b.tail))
    where
      unfloored : max at s.start - max at 0 ≡ max at s.start - at
      unfloored = omega arith

      parted :
          stretch (onward files at s)
          ≡ stretch (take limit (onward files at s)) ++ stretch (drop limit (onward files at s))
      parted =
          ap stretch (sym (take-append-drop limit (onward files at s)))
          ∙ map-append some (take limit (onward files at s)) (drop limit (onward files at s))

  after : drop (max at s.start + length got) stream ≡ rest
  after =
      ap (λ k. drop k stream) shift
      ∙ drop-drop at (max at s.start - at + length got) stream
      ∙ rw whole (drop-stretch (max at s.start - at) got rest)
    where
      shift : max at s.start + length got ≡ at + (max at s.start - at + length got)
      shift = omega arith

  pub segment_chunk-Reads : Reads at limit stream (some (segment_chunk files at limit s))
  unfolding segment_chunk got
  segment_chunk-Reads = (
    omega arith,
    length-chunk,
    omega (arith, length-take limit (onward files at s)),
    whole ∙ ap (λ r. hole (max at s.start - at) ++ (stretch got ++ r)) (sym after),
  )
