-- ===== src/Makimono/Journal/Reader.antt =====
-- makimono/src/journal.rs: reading a journal back, and opening the directory of an earlier one.
use tear.Base.{
  ℕ, zero, suc, ◌+◌, ◌-◌, Bool, ◌&&◌, ◌||◌, List, [], ◌∷◌, ◌++◌, Option, none, some, if◌then◌else◌,
  ltb, leb, ◌==◌, min, max, length, take, drop,
}
use tear.Base.Maps.{get}
use tear.Makimono.Lease.{IoResult, ok, failed}
use tear.Makimono.Journal.{
  JournalBounds, normalized, Segment, segment_end, SegmentFiles, Journal, back, start, end,
}

pub record Chunk : Type 0 where
  pub at : ℕ
  pub bytes : List ℕ

-- The first segment that an offset can be read from.
abbrev pub find_segment : ℕ → List Segment → Option Segment
find_segment at [] = none
find_segment at (s ∷ segs) =
    if ltb at (segment_end s) && ltb 0 s.len then some s else find_segment at segs

-- What was read: nothing, or a chunk.
abbrev pub chunk_of : ℕ → List ℕ → IoResult (Option Chunk)
chunk_of from [] = ok none
chunk_of from (b ∷ bytes) = ok (some (record { at = from; bytes = b ∷ bytes }))

-- `Journal::read_from` inside the segment that it finds. The loop over `read` fills the buffer, or
-- stops at the end of the file.
unfoldable pub read_segment : Bool → SegmentFiles → ℕ → ℕ → Segment → IoResult (Option Chunk)
read_segment readable files at limit s =
    let from = max at s.start in
    elim (get s.start files) [
      | none ↦ failed
      | some content ↦
          if readable
          then chunk_of from
              (take (min (segment_end s - from) limit) (drop (from - s.start) content))
          else failed
    ]

-- `Journal::read_from`; `readable` tells whether the file can be opened and read.
unfoldable pub read_from : Bool → ℕ → ℕ → Journal → IoResult (Option Chunk)
unfolding start end read_segment
read_from readable from limit j =
    let at = max from (start j) in
    if leb (end j) at || limit == 0 then ok none else (elim (find_segment at j.segments) [
      | none ↦ ok none
      | some s ↦ read_segment readable j.files at limit s
    ])

-- The loop of `Journal::read_all`. `none` means that the fuel ran out.
unfoldable pub read_onward : ℕ → Bool → Journal → ℕ → List ℕ → Option (IoResult (List ℕ))
unfolding read_from
read_onward zero readable j at out = none
read_onward (suc fuel) readable j at out = elim (read_from readable at 1048576 j) [
  | failed ↦ some failed
  | ok found ↦ elim found [
    | none ↦ some (ok out)
    | some chunk ↦ read_onward fuel readable j (chunk.at + length chunk.bytes) (out ++ chunk.bytes)
  ]
]

-- `Journal::read_all`. Each round moves on by a byte at least, so that the end bounds the rounds.
unfoldable pub read_all : Bool → Journal → Option (IoResult (List ℕ))
unfolding read_onward start end
read_all readable j = read_onward (suc (end j)) readable j (start j) []

-- The segments that the files of the directory make, in the order of their offsets.
abbrev pub listed : SegmentFiles → List Segment
listed [] = []
listed ((k, content) ∷ files) = record { start = k; len = length content } ∷ listed files

-- `Journal::open`, over a directory that can be read. `opened` is the answer to opening the last
-- segment's file.
unfoldable pub open_journal : Bool → ℕ → JournalBounds → SegmentFiles → IoResult Journal
unfolding normalized
open_journal opened now bounds files =
    let journal : Option ℕ → Journal = λ handle. record {
      bounds = normalized bounds;
      segments = listed files;
      files = files;
      file = handle;
      lost = 0;
      unsynced = 0;
      last_sync = now;
    } in
    elim (back (listed files)) [
      | none ↦ ok (journal none)
      | some s ↦ if opened then ok (journal (some s.start)) else failed
    ]
