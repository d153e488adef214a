-- ===== src/Makimono/Journal/Finding.antt =====
-- `read_from` of makimono/src/journal.rs looks for the first segment that has a byte at or above an
-- offset: what that is in the stream that the journal stands for.
use mathlib.Core.List.{append_assoc}
use tear.Base.{
  ℕ, ◌+◌, ◌-◌, ◌≤◌, ◌<◌, false, List, [], ◌∷◌, ◌++◌, Option, none, some, length, take, drop, max,
  ltb, ◌≡◌, refl, ap, ◌∙◌, sym, ◌⊎◌, inl, inr, arith, ◌&&◌, drop-all, length-map, length-take,
  Bool-cases,
}
use tear.Makimono.Journal.{Segment, segment_end, SegmentFiles}
use tear.Makimono.Journal.Reader.{find_segment}
use tear.Makimono.Journal.Stream.{
  Stream, hole, hole-add, length-hole, drop-hole, drop-append, map-drop, stretch, content,
  stream_from,
}
use tear.Makimono.Journal.Valid.{IsOrdered, IsOrdered-lower}

-- No byte is there.
abbrev pub IsHole : Stream → Type 0
IsHole s = (n : ℕ) × (s ≡ hole n)

-- The bytes of a segment from an offset on.
abbrev pub onward : SegmentFiles → ℕ → Segment → List ℕ
onward files at s = drop (at - s.start) (take s.len (content s.start files))

-- A stream, from an offset on, has its first bytes in the given segment.
pub record BeginsIn (files : SegmentFiles) (floor at : ℕ) (stream : Stream) (s : Segment)
    : Type 0 where
  pub above : floor ≤ s.start
  pub there : s.len ≤ length (content s.start files)
  pub inside : at < segment_end s
  pub some_len : 0 < s.len
  pub tail : Stream
  pub split :
      drop (at - floor) stream
      ≡ hole (max at s.start - max at floor) ++ (stretch (onward files at s) ++ tail)

module _ (files : SegmentFiles) (floor at : ℕ) (s : Segment) (segs : List Segment) (lost : ℕ)
    (low : floor ≤ s.start) (there : s.len ≤ length (content s.start files)) where
  bytes : List ℕ
  bytes = take s.len (content s.start files)

  length-bytes : length (stretch bytes) ≡ s.len
  unfolding bytes
  length-bytes = length-map bytes some ∙ omega (arith, length-take s.len (content s.start files))

  later : Stream
  later = stream_from files (segment_end s) segs lost

  drop-stream_from :
      drop (at - floor) (stream_from files floor (s ∷ segs) lost)
      ≡ hole (max at s.start - max at floor)
        ++ (stretch (onward files at s) ++ drop (at - segment_end s) later)
  unfolding later bytes
  drop-stream_from =
      drop-append (at - floor) (hole (s.start - floor)) (stretch bytes ++ later)
      ∙ rw (drop-hole (at - floor) (s.start - floor), length-hole (s.start - floor), gap, skip)
          (ap (λ rest. hole (max at s.start - max at floor) ++ rest)
            (drop-append (at - s.start) (stretch bytes) later
              ∙ rw (length-bytes, past, map-drop {B = Option ℕ} some (at - s.start) bytes) refl))
    where
      gap : s.start - floor - (at - floor) ≡ max at s.start - max at floor
      gap = omega arith

      skip : at - floor - (s.start - floor) ≡ at - s.start
      skip = omega arith

      past : at - s.start - s.len ≡ at - segment_end s
      past = omega arith

  onward_none : (segment_end s ≤ at) ⊎ (s.len ≡ 0) → onward files at s ≡ []
  unfolding bytes
  onward_none h =
      drop-all (at - s.start) bytes (omega (arith, length-take s.len (content s.start files)))

  passed :
      (segment_end s ≤ at) ⊎ (s.len ≡ 0)
      → drop (at - floor) (stream_from files floor (s ∷ segs) lost)
        ≡ hole (max at s.start - max at floor) ++ drop (at - segment_end s) later
  passed h = drop-stream_from ∙ rw (onward_none h) refl

-- What `find_segment` says of the stream.
abbrev pub Finds : SegmentFiles → ℕ → ℕ → Stream → Option Segment → Type 0
Finds files floor at stream none = IsHole (drop (at - floor) stream)
Finds files floor at stream (some s) = BeginsIn files floor at stream s

pub hole_before : (a : ℕ) (s : Stream) → IsHole s → IsHole (hole a ++ s)
hole_before a s (n, e) = (a + n, rw (hole-add a n, e) refl)

-- A segment without a byte at or above the offset is passed over.
Finds-later :
    (files : SegmentFiles) (floor at : ℕ) (s : Segment) (segs : List Segment) (lost : ℕ)
    (found : Option Segment)
    → floor ≤ s.start
    → s.len ≤ length (content s.start files)
    → (segment_end s ≤ at) ⊎ (s.len ≡ 0)
    → Finds files (segment_end s) at (stream_from files (segment_end s) segs lost) found
    → Finds files floor at (stream_from files floor (s ∷ segs) lost) found
unfolding later
Finds-later files floor at s segs lost none low there empty f =
    let (n, e) =
      hole_before (max at s.start - max at floor)
        (drop (at - segment_end s) (stream_from files (segment_end s) segs lost)) f in
    (n, passed files floor at s segs lost low there empty ∙ e)
Finds-later files floor at s segs lost (some t) low there empty f = record {
  above = omega (arith, f.above);
  there = f.there;
  inside = f.inside;
  some_len = f.some_len;
  tail = f.tail;
  split =
      passed files floor at s segs lost low there empty
      ∙ rw f.split (
          sym (
            append_assoc (hole (max at s.start - max at floor))
              (hole (max at t.start - max at (segment_end s)))
              (stretch (onward files at t) ++ f.tail))
          ∙ ap (λ gone. gone ++ (stretch (onward files at t) ++ f.tail))
              (sym (
                  hole-add (max at s.start - max at floor)
                    (max at t.start - max at (segment_end s)))
                ∙ ap hole total));
}
  where
    total :
        max at s.start - max at floor + (max at t.start - max at (segment_end s))
        ≡ max at t.start - max at floor
    total = omega (arith, f.above)

pub find_segment-Finds :
    (files : SegmentFiles) (floor at : ℕ) (segs : List Segment) (lost : ℕ)
    → IsOrdered files floor segs
    → Finds files floor at (stream_from files floor segs lost) (find_segment at segs)
unfolding later
find_segment-Finds files floor at [] lost h = (lost - (at - floor), drop-hole (at - floor) lost)
find_segment-Finds files floor at (s ∷ segs) lost h =
    elim (Bool-cases (ltb at (segment_end s) && ltb 0 s.len)) [
      | inl e ↦ rw e (record {
        above = h.0;
        there = h.1;
        inside = ground arith;
        some_len = ground arith;
        tail = drop (at - segment_end s) (stream_from files (segment_end s) segs lost);
        split = drop-stream_from files floor at s segs lost h.0 h.1;
      })
      | inr e ↦ rw e (
          Finds-later files floor at s segs lost (find_segment at segs) h.0 h.1 (beyond e) (
            find_segment-Finds files (segment_end s) at segs lost (
              IsOrdered-lower files (segment_end s) (s.start + max 1 s.len) segs (omega arith)
                h.2)))
    ]
  where
    beyond : ltb at (segment_end s) && ltb 0 s.len ≡ false → (segment_end s ≤ at) ⊎ (s.len ≡ 0)
    beyond e = elim (Bool-cases (ltb 0 s.len)) [
      | inl f ↦ inl (ground arith)
      | inr f ↦ inr (ground arith)
    ]
