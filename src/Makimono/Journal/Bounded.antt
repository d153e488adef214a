-- ===== src/Makimono/Journal/Bounded.antt =====
-- The room that a journal of makimono/src/journal.rs takes.
use tear.Base.{
  ℕ, ◌+◌, ◌≤◌, ◌<◌, Bool, true, false, List, [], ◌∷◌, ◌++◌, length, ltb, max, ◌≡◌, refl, ap, ◌∙◌,
  sym, ◌⊎◌, inl, inr, arith, some, Option-cases, Bool-cases, not, ◌&&◌,
}
use tear.Base.Maps.{remove, contains_key, modify}
use tear.Makimono.Lease.{IoResult, ok, failed}
use tear.Makimono.Journal.{
  AppendIo, Segment, SegmentFiles, Journal, back, lengthen_back, retained, evict_segments, evict,
  settle, write_bytes, append, rotates, sync, sync_if_due, end,
}
use tear.Makimono.Journal.Valid.{IsValid, back_cases, back-append, single, lengthen_back-append}
use tear.Makimono.Journal.Rotating.{opened}
use tear.Makimono.Journal.Writing.{done_cases, settle_cases}
use tear.Makimono.Journal.Recording.{append_cases}

-- Within the bound, or down to the last segment.
abbrev Fits : ℕ → List Segment → Type 0
Fits max_bytes segs = (retained segs ≤ max_bytes) ⊎ (length segs ≤ 1)

evict_segments-Fits :
    (max_bytes : ℕ) (unlinked : ℕ → Bool) (segs : List Segment) (files : SegmentFiles)
    → (evict_segments max_bytes unlinked segs files).2 ≡ ok tt
    → Fits max_bytes (evict_segments max_bytes unlinked segs files).0
unfolding evict_segments
evict_segments-Fits max_bytes unlinked [] files h = inr (omega arith)
evict_segments-Fits max_bytes unlinked (s ∷ []) files h = inr (omega arith)
evict_segments-Fits max_bytes unlinked (s ∷ t ∷ segs) files h =
    elim (Bool-cases (ltb max_bytes (retained (s ∷ t ∷ segs)))) [
      | inr e ↦ rw (e, evict_segments) (inl (ground arith))
      | inl e ↦ elim (Bool-cases (contains_key s.start files && not (unlinked s.start))) [
        | inl f ↦ absurd (fails_there e f)
        | inr f ↦
            rw (e, evict_segments)
              (rw f (
                evict_segments-Fits max_bytes unlinked (t ∷ segs) (remove s.start files)
                  (goes_on e f)))
      ]
    ]
  where
    fails_there :
        ltb max_bytes (retained (s ∷ t ∷ segs)) ≡ true
        → (contains_key s.start files && not (unlinked s.start)) ≡ true
        → ⊥
    fails_there e f = ground (arith, h)

    goes_on :
        ltb max_bytes (retained (s ∷ t ∷ segs)) ≡ true
        → (contains_key s.start files && not (unlinked s.start)) ≡ false
        → (evict_segments max_bytes unlinked (t ∷ segs) (remove s.start files)).2 ≡ ok tt
    goes_on e f = ground (arith, h)

back-evict_segments :
    (max_bytes : ℕ) (unlinked : ℕ → Bool) (segs : List Segment) (files : SegmentFiles)
    → back (evict_segments max_bytes unlinked segs files).0 ≡ back segs
unfolding evict_segments
back-evict_segments max_bytes unlinked [] files = refl
back-evict_segments max_bytes unlinked (s ∷ []) files = refl
back-evict_segments max_bytes unlinked (s ∷ t ∷ segs) files =
    ground (arith, back-evict_segments max_bytes unlinked (t ∷ segs) (remove s.start files))

synced_segments :
    (synced : Bool) (now : ℕ) (j : Journal) → (sync_if_due synced now j).0.segments ≡ j.segments
unfolding sync_if_due sync
synced_segments synced now j = ground arith

evicted_ok : (io : AppendIo) (j : Journal) → (settle io j).1 ≡ ok tt → (evict io j).1 ≡ ok tt
unfolding settle
evicted_ok io j h = elim (done_cases (evict io j).1) [
  | inl e ↦ e
  | inr e ↦ absurd (no_failure (rw (e, settle) at h))
]
  where
    no_failure : failed ≡ ok (tt {0}) → ⊥
    no_failure z = cc

settle_segments : (io : AppendIo) (j : Journal) → (settle io j).0.segments ≡ (evict io j).0.segments
settle_segments io j = elim (settle_cases io j) [
  | inl e ↦ ap (λ (k : Journal). k.segments) e
  | inr e ↦ ap (λ (k : Journal). k.segments) e ∙ synced_segments io.synced io.now (evict io j).0
]

-- The segments of a journal once an append has settled.
settled :
    (io : AppendIo) (j : Journal)
    → (settle io j).1 ≡ ok tt
    → Fits j.bounds.max_bytes (settle io j).0.segments
      × (back (settle io j).0.segments ≡ back j.segments)
unfolding evict
settled io j h = rw (settle_segments io j) (
  evict_segments-Fits j.bounds.max_bytes io.unlinked j.segments j.files (evicted_ok io j h),
  back-evict_segments j.bounds.max_bytes io.unlinked j.segments j.files,
)

-- A single segment takes what it holds.
retained_of_back :
    (segs : List Segment) (bound : ℕ)
    → length segs ≤ 1
    → ((s : Segment) → back segs ≡ some s → s.len ≤ bound)
    → retained segs ≤ bound
retained_of_back [] bound h k = omega arith
retained_of_back (s ∷ []) bound h k = omega (arith, k s refl)
retained_of_back (s ∷ t ∷ segs) bound h k = absurd (omega arith)

abbrev lengthened : ℕ → SegmentFiles → Journal → Journal
lengthened n files j = record j {
  files = files;
  segments = lengthen_back n j.segments;
  unsynced = j.unsynced + n;
}

write_bytes_cases :
    (io : AppendIo) (bytes : List ℕ) (j : Journal)
    → ((write_bytes io bytes j).1 ≡ failed)
      ⊎ ((files : SegmentFiles) × (write_bytes io bytes j
            ≡ settle io (lengthened (length bytes) files j)))
unfolding write_bytes
write_bytes_cases io bytes j = elim (Option-cases j.file) [
  | inl e ↦ inl (rw (e, write_bytes) refl)
  | inr (handle, e) ↦ elim (Option-cases io.write_stops) [
    | inr (n, f) ↦ inl (rw (e, write_bytes) (rw f refl))
    | inl f ↦ inr (modify handle (λ old. old ++ bytes) j.files, ground arith)
  ]
]

failed_not_ok : {r : IoResult (Unit {0})} → r ≡ failed → r ≡ ok tt → ⊥
failed_not_ok e f = cc

-- The write into a journal that has a last segment with room.
written_fits :
    (io : AppendIo) (bytes : List ℕ) (j : Journal) (limit : ℕ) (init : List Segment) (s : Segment)
    → j.segments ≡ init ++ single s
    → s.len < limit
    → (write_bytes io bytes j).1 ≡ ok tt
    → retained (write_bytes io bytes j).0.segments ≤ max j.bounds.max_bytes (limit + length bytes)
written_fits io bytes j limit init s whole room h = elim (write_bytes_cases io bytes j) [
  | inl e ↦ absurd (failed_not_ok e h)
  | inr (files, e) ↦
      let (fits, same_back) = settled io (lengthened (length bytes) files j) (rw e at h) in
      rw e (elim fits [
        | inl small ↦ omega arith
        | inr one ↦
            let last =
              retained_of_back (settle io (lengthened (length bytes) files j)).0.segments
                (s.len + length bytes) one (is_last files same_back) in
            omega arith
      ])
]
  where
    is_last :
        (files : SegmentFiles)
        → back (settle io (lengthened (length bytes) files j)).0.segments
          ≡ back (lengthen_back (length bytes) j.segments)
        → (t : Segment) → back (settle io (lengthened (length bytes) files j)).0.segments ≡ some t
        → t.len ≤ s.len + length bytes
    is_last files same t e =
        let new : some (record s { len = s.len + length bytes }) ≡ some t =
          sym (
            same
            ∙ rw (whole, lengthen_back-append (length bytes) init s)
                (back-append init (record s { len = s.len + length bytes })))
          ∙ e in
        ground (arith, new)

-- An append of bytes to a journal in order that reports no failure leaves it within `max_bytes`, or
-- within a segment's bound and the bytes that were appended, whichever is more.
pub append-Fits :
    (io : AppendIo) (bytes : List ℕ) {j : Journal}
    → IsValid j
    → 0 < length bytes
    → (append io bytes j).1 ≡ ok tt
    → retained (append io bytes j).0.segments
      ≤ max j.bounds.max_bytes (j.bounds.segment_bytes + length bytes)
unfolding rotates
append-Fits io [] {j} v some_bytes h = absurd (omega arith)
append-Fits io (b ∷ bytes) {j} v some_bytes h = elim (append_cases io b bytes j) [
  | inr (inl a) ↦ absurd (failed_not_ok (ap (λ (p : Journal × IoResult (Unit {0})). p.1) a) h)
  | inr (inr (r, a)) ↦ rw a (
      written_fits io (b ∷ bytes) (opened j) j.bounds.segment_bytes j.segments
        (record { start = end j; len = 0 }) refl v.room (rw a at h))
  | inl (r, a) ↦ elim (back_cases j.segments) [
    | inl none_there ↦ absurd (rotates_empty r none_there)
    | inr (init, s, whole) ↦ rw a (
        written_fits io (b ∷ bytes) j j.bounds.segment_bytes init s whole (has_room r init s whole)
          (rw a at h))
  ]
]
  where
    rotates_empty : rotates j ≡ false → j.segments ≡ [] → ⊥
    rotates_empty r empty = ground (arith, empty)

    has_room :
        rotates j ≡ false
        → (init : List Segment) (s : Segment) → j.segments ≡ init ++ single s
        → s.len < j.bounds.segment_bytes
    has_room r init s whole =
        let last : back j.segments ≡ some s = rw whole (back-append init s) in ground (arith, last)
