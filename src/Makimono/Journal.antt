-- ===== src/Makimono/Journal.antt =====
-- makimono/src/journal.rs: the journal of a pane, which is its output in segment files of one
-- directory. An offset is absolute: it counts every byte of the pane, kept, evicted or lost.
pub mod Reader
pub mod Tests
pub mod Stream
pub mod Valid
pub mod Lengths
pub mod Rotating
pub mod Appending
pub mod Evicting
pub mod Writing
pub mod Recording
pub mod Finding
pub mod Chunking
pub mod Bounded
pub mod Reading
pub mod Replaying
use tear.Base.{
  ℕ, ◌+◌, ◌-◌, Bool, true, not, ◌&&◌, ◌||◌, List, [], ◌∷◌, ◌++◌, Option, none, some, if◌then◌else◌,
  ltb, leb, max, length, take, is_some,
}
use tear.Base.Maps.{BTreeMap, insert, modify, remove, contains_key}
use tear.Makimono.Lease.{IoResult, ok, failed}

pub record JournalBounds : Type 0 where
  pub max_bytes : ℕ
  pub segment_bytes : ℕ
  pub fsync_interval_ms : ℕ

-- `JournalBounds::normalized`
unfoldable pub normalized : JournalBounds → JournalBounds
normalized b =
    let segment_bytes = max b.segment_bytes 4096 in
    record {
      max_bytes = max b.max_bytes segment_bytes;
      segment_bytes = segment_bytes;
      fsync_interval_ms = b.fsync_interval_ms;
    }

pub record Segment : Type 0 where
  pub start : ℕ
  pub len : ℕ

-- `Segment::end`
abbrev pub segment_end : Segment → ℕ
segment_end s = s.start + s.len

-- The files of the directory that have a segment's name, by the offset in the name.
abbrev pub SegmentFiles : Type 0
SegmentFiles = BTreeMap (List ℕ)

-- The journal with the files of its directory. A handle of an open file is the file's offset.
pub record Journal : Type 0 where
  pub bounds : JournalBounds
  pub segments : List Segment
  pub files : SegmentFiles
  pub file : Option ℕ
  pub lost : ℕ
  pub unsynced : ℕ
  pub last_sync : ℕ

-- What the system answers to the calls of one append: the sync and the creation of a rotation,
-- the write (how far it came, where it fails), each removal of a file, the clock, and the sync.
pub record AppendIo : Type 0 where
  pub rotate_synced : Bool
  pub created : Bool
  pub write_stops : Option ℕ
  pub unlinked : ℕ → Bool
  pub now : ℕ
  pub synced : Bool

-- `VecDeque::front` and `VecDeque::back`
abbrev pub front : List Segment → Option Segment
front [] = none
front (s ∷ segs) = some s

abbrev pub back : List Segment → Option Segment
back [] = none
back (s ∷ []) = some s
back (s ∷ t ∷ segs) = back (t ∷ segs)

-- A write through `back_mut`.
abbrev pub lengthen_back : ℕ → List Segment → List Segment
lengthen_back n [] = []
lengthen_back n (s ∷ []) = record s { len = s.len + n } ∷ []
lengthen_back n (s ∷ t ∷ segs) = s ∷ lengthen_back n (t ∷ segs)

-- `Journal::start`
unfoldable pub start : Journal → ℕ
start j = elim (front j.segments) [ none ↦ 0 | some s ↦ s.start ]

-- `Journal::end`
unfoldable pub end : Journal → ℕ
end j = (elim (back j.segments) [ none ↦ 0 | some s ↦ segment_end s ]) + j.lost

-- `Journal::note_lost`
unfoldable pub note_lost : ℕ → Journal → Journal
note_lost n j = record j { lost = j.lost + n }

-- `Journal::retained_bytes`
abbrev pub retained : List Segment → ℕ
retained [] = 0
retained (s ∷ segs) = s.len + retained segs

-- Opening a file for appending creates it, where it is not there.
abbrev pub open_append : ℕ → SegmentFiles → SegmentFiles
open_append k files = if contains_key k files then files else insert k [] files

-- `Journal::rotate`
unfoldable pub rotate : AppendIo → Journal → Journal × IoResult (Unit {0})
unfolding end
rotate io j =
    if is_some j.file && not io.rotate_synced
    then (j, failed)
    else if io.created
    then (
      record j {
        segments = j.segments ++ (record { start = end j; len = 0 } ∷ []);
        files = open_append (end j) j.files;
        file = some (end j);
        lost = 0;
      },
      ok tt,
    )
    else (j, failed)

-- `Journal::evict`: the segments and files that are left. A file that is already gone is no error.
unfoldable pub evict_segments :
    ℕ → (ℕ → Bool) → List Segment → SegmentFiles → List Segment × SegmentFiles × IoResult (Unit {0})
evict_segments max_bytes unlinked [] files = ([], files, ok tt)
evict_segments max_bytes unlinked (s ∷ []) files = (s ∷ [], files, ok tt)
evict_segments max_bytes unlinked (s ∷ t ∷ segs) files =
    let rest = evict_segments max_bytes unlinked (t ∷ segs) (remove s.start files) in
    if ltb max_bytes (retained (s ∷ t ∷ segs))
    then (if contains_key s.start files && not (unlinked s.start)
        then (t ∷ segs, files, failed)
        else rest)
    else (s ∷ t ∷ segs, files, ok tt)

unfoldable pub evict : AppendIo → Journal → Journal × IoResult (Unit {0})
unfolding evict_segments
evict io j =
    let left = evict_segments j.bounds.max_bytes io.unlinked j.segments j.files in
    (record j { segments = left.0; files = left.1 }, left.2)

-- `Journal::sync_due`
unfoldable pub sync_due : ℕ → Journal → Bool
sync_due now j =
    ltb 0 j.unsynced
    && (leb 1048576 j.unsynced || leb j.bounds.fsync_interval_ms (now - j.last_sync))

-- `Journal::sync`
unfoldable pub sync : Bool → ℕ → Journal → Journal × IoResult (Unit {0})
sync synced now j =
    if is_some j.file && not synced
    then (j, failed)
    else (record j { unsynced = 0; last_sync = now }, ok tt)

-- `Journal::sync_if_due`
unfoldable pub sync_if_due : Bool → ℕ → Journal → Journal × IoResult (Unit {0})
unfolding sync sync_due
sync_if_due synced now j = if sync_due now j then sync synced now j else (j, ok tt)

-- Whether `append` opens a new segment first.
unfoldable pub rotates : Journal → Bool
rotates j =
    ltb 0 j.lost
    || (elim (back j.segments) [ none ↦ true | some s ↦ leb j.bounds.segment_bytes s.len ])

-- `append` once the write is done: the eviction, and the sync where it is due.
unfoldable pub settle : AppendIo → Journal → Journal × IoResult (Unit {0})
unfolding evict sync_if_due
settle io j =
    let (kept, evicted) = evict io j in
    elim evicted [ failed ↦ (kept, failed) | ok u ↦ sync_if_due io.synced io.now kept ]

-- `append` from the write on. A write that fails may have put a part of the bytes into the file.
unfoldable pub write_bytes : AppendIo → List ℕ → Journal → Journal × IoResult (Unit {0})
unfolding settle
write_bytes io bytes j = elim j.file [
  | none ↦ (j, failed)
  | some handle ↦ elim io.write_stops [
    | some n ↦ (record j { files = modify handle (λ old. old ++ take n bytes) j.files }, failed)
    | none ↦ settle io (record j {
      files = modify handle (λ old. old ++ bytes) j.files;
      segments = lengthen_back (length bytes) j.segments;
      unsynced = j.unsynced + length bytes;
    })
  ]
]

-- `Journal::append`
unfoldable pub append : AppendIo → List ℕ → Journal → Journal × IoResult (Unit {0})
unfolding rotates rotate write_bytes
append io [] j = (j, ok tt)
append io (b ∷ bytes) j =
    if rotates j
    then (let (rotated, result) = rotate io j in
        elim result [ failed ↦ (rotated, failed) | ok u ↦ write_bytes io (b ∷ bytes) rotated ])
    else write_bytes io (b ∷ bytes) j
