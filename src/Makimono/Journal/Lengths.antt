-- ===== src/Makimono/Journal/Lengths.antt =====
-- The ends of a journal, and the length of the stream that it stands for.
use tear.Base.{
  ℕ, ◌+◌, ◌-◌, ◌≤◌, List, [], ◌∷◌, ◌++◌, Option, some, none, length, take, max, ◌≡◌, ap, arith,
  length-append, length-map, length-take,
}
use tear.Makimono.Journal.{Segment, segment_end, SegmentFiles, Journal, start, end, front}
use tear.Makimono.Journal.Stream.{hole, length-hole, stretch, content, stream_from, view, Stream}
use tear.Makimono.Journal.Valid.{IsOrdered, IsValid, end_of, end-end_of, IsOrdered-lower}

-- The stream reaches to the end of the journal.
length-stream_from :
    (files : SegmentFiles) (floor : ℕ) (segs : List Segment) (lost : ℕ)
    → IsOrdered files floor segs
    → floor + length (stream_from files floor segs lost) ≡ end_of floor segs + lost
length-stream_from files floor [] lost h = omega (arith, length-hole lost)
length-stream_from files floor (s ∷ segs) lost h = omega (
  arith,
  length-append (hole (s.start - floor))
      (stretch (take s.len (content s.start files)) ++ stream_from files (segment_end s) segs lost),
  length-append (stretch (take s.len (content s.start files)))
      (stream_from files (segment_end s) segs lost),
  length-hole (s.start - floor),
  length-map {B = Option ℕ} (take s.len (content s.start files)) some,
  length-take s.len (content s.start files),
  length-stream_from files (segment_end s) segs lost
      (IsOrdered-lower files (segment_end s) (s.start + max 1 s.len) segs (omega arith) h.2),
)

pub length-view : {j : Journal} → IsValid j → length (view j) ≡ end j
length-view {j} v =
    omega (arith, length-stream_from j.files 0 j.segments j.lost v.ordered, end-end_of j)

floor-le-end_of :
    (files : SegmentFiles) (floor : ℕ) (segs : List Segment)
    → IsOrdered files floor segs
    → floor ≤ end_of floor segs
floor-le-end_of files floor [] h = omega arith
floor-le-end_of files floor (s ∷ segs) h = omega (
  arith,
  floor-le-end_of files (segment_end s) segs
      (IsOrdered-lower files (segment_end s) (s.start + max 1 s.len) segs (omega arith) h.2),
)

first-le-end_of :
    (files : SegmentFiles) (segs : List Segment)
    → IsOrdered files 0 segs
    → (elim (front segs) [ none ↦ 0 | some s ↦ s.start ]) ≤ end_of 0 segs
first-le-end_of files [] h = omega arith
first-le-end_of files (s ∷ segs) h = omega (
  arith,
  floor-le-end_of files (segment_end s) segs
      (IsOrdered-lower files (segment_end s) (s.start + max 1 s.len) segs (omega arith) h.2),
)

pub start-le-end : {j : Journal} → IsValid j → start j ≤ end j
unfolding start
start-le-end {j} v = omega (arith, first-le-end_of j.files j.segments v.ordered, end-end_of j)

-- What is put behind a stream moves its end.
pub end_of_view :
    {before after : Journal} (more : Stream)
    → IsValid before
    → IsValid after
    → view after ≡ view before ++ more
    → end after ≡ end before + length more
end_of_view {before} {after} more u v e =
    omega (arith, length-view u, length-view v, ap length e, length-append (view before) more)
