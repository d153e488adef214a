-- ===== src/Makimono/Journal/Tests.antt =====
-- The journal of makimono/src/journal.rs at concrete inputs.
use tear.Base.{ℕ, ◌+◌, ◌≤◌, true, [], ◌∷◌, length, max, Option, none, some, ◌≡◌, refl, subst, arith}
use tear.Makimono.Lease.{ok}
use tear.Makimono.Journal.{
  JournalBounds, Journal, AppendIo, Segment, end, append, note_lost, retained,
}
use tear.Makimono.Journal.Reader.{Chunk, read_from, read_all, open_journal}
use tear.Makimono.Journal.Stream.{present, view}
use tear.Makimono.Journal.Valid.{IsValid, IsWritable}
use tear.Makimono.Journal.Chunking.{Reads}
use tear.Makimono.Journal.Reading.{read_from-Reads}
use tear.Makimono.Journal.Replaying.{read_all-present}
use tear.Makimono.Journal.Bounded.{append-Fits}

abbrev pub small : JournalBounds
small = record { max_bytes = 12288; segment_bytes = 4096; fsync_interval_ms = 1000 }

abbrev pub fine : AppendIo
fine = record {
  rotate_synced = true;
  created = true;
  write_stops = none;
  unlinked = λ k. true;
  now = 0;
  synced = true;
}

-- The journal of an empty directory.
abbrev pub fresh : Journal
fresh = record {
  bounds = small;
  segments = [];
  files = [];
  file = none;
  lost = 0;
  unsynced = 0;
  last_sync = 0;
}

fresh_opens : open_journal true 0 small [] ≡ ok fresh
unfolding open_journal
fresh_opens = refl

pub fresh-IsValid : IsValid fresh
fresh-IsValid = record {
  ordered = tt;
  fresh = λ k above past. refl;
  writable = λ s e. absurd (none_there s e);
  handle = refl;
  room = omega arith;
}
  where
    none_there : (s : Segment) → none ≡ some s → ⊥
    none_there s e = cc

-- Three bytes, five that are lost, and three more.
abbrev pub gap : Journal
gap = record {
  bounds = small;
  segments = record { start = 0; len = 3 } ∷ (record { start = 8; len = 3 } ∷ []);
  files = (0, 97 ∷ (98 ∷ (99 ∷ []))) ∷ ((8, 120 ∷ (121 ∷ (122 ∷ []))) ∷ []);
  file = some 8;
  lost = 0;
  unsynced = 6;
  last_sync = 0;
}

gap_made :
    (append fine
      (120 ∷ (121 ∷ (122 ∷ [])))
      (note_lost 5 (append fine (97 ∷ (98 ∷ (99 ∷ []))) fresh).0)).0
    ≡ gap
unfolding append note_lost end
gap_made = refl

gap_ends : end gap ≡ 11
unfolding end
gap_ends = refl

gap_read :
    read_from true 4 100 gap ≡ ok (some (record { at = 8; bytes = 120 ∷ (121 ∷ (122 ∷ [])) }))
unfolding read_from
gap_read = refl

gap-read_all : read_all true gap ≡ some (ok (97 ∷ (98 ∷ (99 ∷ (120 ∷ (121 ∷ (122 ∷ [])))))))
unfolding read_all
gap-read_all = refl

pub gap-IsValid : IsValid gap
unfolding end
gap-IsValid = record {
  ordered = omega arith;
  fresh = λ k above past. ground arith;
  writable = λ s e.
      let same : record { start = 8; len = 3 } ≡ s = cc in
      subst (IsWritable gap.files 0) same
        (record { held = 120 ∷ (121 ∷ (122 ∷ [])); found = refl; exact = λ z. refl });
  handle = refl;
  room = omega arith;
}

read_from-Reads_example :
    (chunk : Option Chunk) × (read_from true 4 100 gap ≡ ok chunk) × Reads 4 100 (view gap) chunk
read_from-Reads_example = read_from-Reads 4 100 gap-IsValid

read_all-present_example : read_all true gap ≡ some (ok (present (view gap)))
read_all-present_example = read_all-present gap-IsValid

append-Fits_example :
    retained (append fine (65 ∷ []) gap).0.segments
    ≤ max gap.bounds.max_bytes (gap.bounds.segment_bytes + length {A = ℕ} (65 ∷ []))
unfolding append
append-Fits_example = append-Fits fine (65 ∷ []) gap-IsValid (omega arith) refl
