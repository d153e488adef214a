-- ===== src/Makimono/Journal/Reading.antt =====
-- What the readers of makimono/src/journal.rs give of the stream that the journal stands for.
use mathlib.Core.List.{append_assoc}
use tear.Base.{
  ℕ, ◌+◌, ◌-◌, ◌<◌, true, ◌++◌, Option, none, some, length, drop, max, leb, ◌==◌, ◌≡◌, refl, ap,
  ◌∙◌, sym, ◌⊎◌, inl, inr, arith, ◌||◌, drop-all, Bool-cases, drop-drop, leb→le, if◌then◌else◌,
}
use tear.Makimono.Lease.{ok}
use tear.Makimono.Journal.{Segment, Journal, start, end}
use tear.Makimono.Journal.Reader.{Chunk, find_segment, read_segment, read_from}
use tear.Makimono.Journal.Stream.{
  Stream, hole, hole-add, length-hole, drop-hole, drop-append, stretch, view, sub_zero_right,
}
use tear.Makimono.Journal.Valid.{IsValid}
use tear.Makimono.Journal.Finding.{IsHole, Finds, find_segment-Finds, hole_before}
use tear.Makimono.Journal.Lengths.{length-view}
use tear.Makimono.Journal.Writing.{view-forget}
use tear.Makimono.Journal.Chunking.{Reads, segment_chunk, read_segment_lem, segment_chunk-Reads}

-- Below the start there is nothing to be read.
drop-view :
    (from : ℕ) (j : Journal)
    → drop from (view j) ≡ hole (start j - from) ++ drop (max from (start j)) (view j)
drop-view from j =
    ap (drop from) (view-forget j)
    ∙ drop-append from (hole (start j)) (drop (start j) (view j))
    ∙ rw
        (
          drop-hole from (start j),
          length-hole (start j),
          sym (drop-drop (start j) (from - start j) (view j)),
        )
        (ap (λ k. hole (start j - from) ++ drop k (view j)) shift)
  where
    shift : start j + (from - start j) ≡ max from (start j)
    shift = omega arith

Reads-lower :
    (from at limit gap : ℕ) (stream : Stream) (found : Option Chunk)
    → at ≡ from + gap
    → drop from stream ≡ hole gap ++ drop at stream
    → Reads at limit stream found
    → Reads from limit stream found
Reads-lower from at limit gap stream none e d (inl z) = inl z
Reads-lower from at limit gap stream none e d (inr h) =
    inr (rw d (hole_before gap (drop at stream) h))
Reads-lower from at limit gap stream (some chunk) e d (above, some_bytes, within, reads) = (
  omega arith,
  some_bytes,
  within,
  d
      ∙ rw reads (
          sym (
            append_assoc (hole gap) (hole (chunk.at - at))
              (stretch chunk.bytes ++ drop (chunk.at + length chunk.bytes) stream))
          ∙ ap
              (λ gone. gone ++ (stretch chunk.bytes ++ drop (chunk.at + length chunk.bytes) stream))
              (sym (hole-add gap (chunk.at - at)) ∙ ap hole total)),
)
  where
    total : gap + (chunk.at - at) ≡ chunk.at - from
    total = omega arith

module _ (from limit : ℕ) {j : Journal} (v : IsValid j) where
  at : ℕ
  at = max from (start j)

  -- What the reader finds at the offset or above.
  found_at : Option Segment → Option Chunk
  found_at none = none
  found_at (some s) = some (segment_chunk j.files at limit s)

  found_at-Reads :
      (s : Option Segment)
      → 0 < limit
      → Finds j.files 0 at (view j) s
      → Reads at limit (view j) (found_at s)
  unfolding found_at
  found_at-Reads none some_limit (n, e) =
      inr (n, ap (λ k. drop k (view j)) (sym (sub_zero_right at)) ∙ e)
  found_at-Reads (some s) some_limit b =
      segment_chunk-Reads j.files at limit (view j) s b some_limit

  -- What a read gives, where the file can be read.
  found : Option Chunk
  found = if leb (end j) at || limit == 0 then none else found_at (find_segment at j.segments)

  segment_found :
      (s : Option Segment)
      → 0 < limit
      → Finds j.files 0 at (view j) s
      → (elim s [ none ↦ ok none | some s ↦ read_segment true j.files at limit s ])
        ≡ ok (found_at s)
  unfolding found_at
  segment_found none some_limit f = refl
  segment_found (some s) some_limit b = read_segment_lem j.files at limit (view j) s b some_limit

  found-Reads : Reads at limit (view j) found
  unfolding found
  found-Reads = elim (Bool-cases (leb (end j) at || limit == 0)) [
    | inl e ↦ rw e (over e)
    | inr e ↦ rw e (
        found_at-Reads (find_segment at j.segments) (ground arith)
          (find_segment-Finds j.files 0 at j.segments j.lost v.ordered))
  ]
    where
      over : (leb (end j) at || limit == 0) ≡ true → (limit ≡ 0) ⊎ IsHole (drop at (view j))
      over e = elim (Bool-cases (leb (end j) at)) [
        | inl f ↦ inr (0, drop-all at (view j) (rw (length-view v) (leb→le (end j) at f)))
        | inr f ↦ inl (ground arith)
      ]

  read_from-found : read_from true from limit j ≡ ok found
  unfolding read_from found at
  read_from-found = elim (Bool-cases (leb (end j) at || limit == 0)) [
    | inl e ↦ rw e refl
    | inr e ↦ rw e (
        segment_found (find_segment at j.segments) (ground arith)
          (find_segment-Finds j.files 0 at j.segments j.lost v.ordered))
  ]

  -- On a journal in order, and files that can be read, `read_from` gives a chunk at or above the
  -- offset asked for, of at most the length asked for and not empty, whose bytes are those of the
  -- stream at the chunk's offset, with no byte of the stream before it that was passed over; or it
  -- gives none, and then there is no byte at or above the offset, or none was asked for.
  pub read_from-Reads :
      (chunk : Option Chunk) × (read_from true from limit j ≡ ok chunk)
      × Reads from limit (view j) chunk
  unfolding at
  read_from-Reads = (
    found,
    read_from-found,
    Reads-lower from at limit (start j - from) (view j) found (omega arith) (drop-view from j)
        found-Reads,
  )
