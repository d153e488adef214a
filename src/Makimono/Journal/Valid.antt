-- ===== src/Makimono/Journal/Valid.antt =====
-- When a journal is in order: its segments ascend and do not overlap, each file holds what its
-- segment claims, and the file that is open is the last segment's.
use mathlib.Core.List.{append_assoc}
use tear.Base.{
  ℕ, ◌+◌, ◌-◌, ◌≤◌, ◌<◌, List, [], ◌∷◌, ◌++◌, none, some, length, take, max, ◌≡◌, refl, ap, sym,
  ◌⊎◌, inl, inr, arith,
}
use tear.Base.Maps.{get}
use tear.Makimono.Journal.{Segment, segment_end, SegmentFiles, Journal, back, lengthen_back, end}
use tear.Makimono.Journal.Stream.{hole, stretch, content, stream_from}

abbrev pub IsOrdered : SegmentFiles → ℕ → List Segment → Type 0
IsOrdered files floor [] = Unit
IsOrdered files floor (s ∷ segs) =
    (floor ≤ s.start)
    × (s.len ≤ length (content s.start files))
    × IsOrdered files (s.start + max 1 s.len) segs

-- Where segments that begin at an offset end, and the first offset that no file of theirs has.
abbrev pub end_of : ℕ → List Segment → ℕ
end_of floor [] = floor
end_of floor (s ∷ segs) = end_of (segment_end s) segs

abbrev pub past_of : ℕ → List Segment → ℕ
past_of floor [] = floor
past_of floor (s ∷ segs) = past_of (s.start + max 1 s.len) segs

-- The last segment's file, which holds just that segment's bytes where none was lost since.
pub record IsWritable (files : SegmentFiles) (lost : ℕ) (s : Segment) : Type 0 where
  pub held : List ℕ
  pub found : get s.start files ≡ some held
  pub exact : lost ≡ 0 → length held ≡ s.len

pub record IsValid (j : Journal) : Type 0 where
  pub ordered : IsOrdered j.files 0 j.segments
  pub fresh : (k : ℕ) → past_of 0 j.segments ≤ k → end j ≤ k → get k j.files ≡ none
  pub writable : (s : Segment) → back j.segments ≡ some s → IsWritable j.files j.lost s
  pub handle : j.file ≡ (elim (back j.segments) [ none ↦ none | some s ↦ some s.start ])
  pub room : 0 < j.bounds.segment_bytes

abbrev pub single : Segment → List Segment
single s = s ∷ []

-- No segment, or a last one.
pub back_cases :
    (segs : List Segment)
    → (segs ≡ []) ⊎ ((init : List Segment) × (s : Segment) × (segs ≡ init ++ single s))
back_cases [] = inl refl
back_cases (s ∷ segs) = inr (elim (back_cases segs) [
  | inl e ↦ ([], s, ap (◌∷◌ s) e)
  | inr (init, t, e) ↦ (s ∷ init, t, ap (◌∷◌ s) e)
])

pub back-append : (init : List Segment) (s : Segment) → back (init ++ single s) ≡ some s
back-append [] s = refl
back-append (t ∷ []) s = refl
back-append (t ∷ u ∷ init) s = back-append (u ∷ init) s

pub lengthen_back-append :
    (n : ℕ) (init : List Segment) (s : Segment)
    → lengthen_back n (init ++ single s) ≡ init ++ single (record s { len = s.len + n })
lengthen_back-append n [] s = refl
lengthen_back-append n (t ∷ []) s = refl
lengthen_back-append n (t ∷ u ∷ init) s = ap (◌∷◌ t) (lengthen_back-append n (u ∷ init) s)

pub end_of-append :
    (floor : ℕ) (init : List Segment) (s : Segment)
    → end_of floor (init ++ single s) ≡ segment_end s
end_of-append floor [] s = refl
end_of-append floor (t ∷ init) s = end_of-append (segment_end t) init s

pub past_of-append :
    (floor : ℕ) (init : List Segment) (s : Segment)
    → past_of floor (init ++ single s) ≡ s.start + max 1 s.len
past_of-append floor [] s = refl
past_of-append floor (t ∷ init) s = past_of-append (t.start + max 1 t.len) init s

pub end-end_of : (j : Journal) → end j ≡ end_of 0 j.segments + j.lost
unfolding end
end-end_of j = elim (back_cases j.segments) [
  | inl e ↦ rw e refl
  | inr (init, s, e) ↦ rw (e, back-append init s, end_of-append 0 init s) refl
]

pub IsOrdered-append :
    (files : SegmentFiles) (floor : ℕ) (init segs : List Segment)
    → IsOrdered files floor init
    → IsOrdered files (past_of floor init) segs
    → IsOrdered files floor (init ++ segs)
IsOrdered-append files floor [] segs h k = k
IsOrdered-append files floor (s ∷ init) segs h k =
    (h.0, h.1, IsOrdered-append files (s.start + max 1 s.len) init segs h.2 k)

pub IsOrdered-split :
    (files : SegmentFiles) (floor : ℕ) (init segs : List Segment)
    → IsOrdered files floor (init ++ segs)
    → IsOrdered files floor init × IsOrdered files (past_of floor init) segs
IsOrdered-split files floor [] segs h = (tt, h)
IsOrdered-split files floor (s ∷ init) segs h =
    let rest = IsOrdered-split files (s.start + max 1 s.len) init segs h.2 in
    ((h.0, h.1, rest.0), rest.1)

pub IsOrdered-lower :
    (files : SegmentFiles) (low floor : ℕ) (segs : List Segment)
    → low ≤ floor
    → IsOrdered files floor segs
    → IsOrdered files low segs
IsOrdered-lower files low floor [] h k = tt
IsOrdered-lower files low floor (s ∷ segs) h k = (omega arith, k.1, k.2)

pub floor-le-past_of :
    (files : SegmentFiles) (floor : ℕ) (segs : List Segment)
    → IsOrdered files floor segs
    → floor ≤ past_of floor segs
floor-le-past_of files floor [] h = omega arith
floor-le-past_of files floor (s ∷ segs) h =
    omega (arith, floor-le-past_of files (s.start + max 1 s.len) segs h.2)

-- Files that agree on the offsets of some segments serve them equally.
abbrev pub Agree : SegmentFiles → SegmentFiles → ℕ → ℕ → Type 0
Agree f g floor bound = (k : ℕ) → floor ≤ k → k < bound → content k f ≡ content k g

pub Agree-stream_from :
    (f g : SegmentFiles) (floor low bound : ℕ) (segs : List Segment) (lost : ℕ)
    → IsOrdered f low segs
    → floor ≤ low
    → past_of low segs ≤ bound
    → Agree f g floor bound
    → (start : ℕ) → stream_from f start segs lost ≡ stream_from g start segs lost
Agree-stream_from f g floor low bound [] lost h fl b same start = refl
Agree-stream_from f g floor low bound (s ∷ segs) lost h fl b same start =
    let top = floor-le-past_of f (s.start + max 1 s.len) segs h.2 in
    rw (same s.start (omega arith) (omega arith)) (
      ap (λ tail. hole (s.start - start) ++ (stretch (take s.len (content s.start g)) ++ tail))
        (Agree-stream_from f g floor (s.start + max 1 s.len) bound segs lost h.2 (omega arith) b
          same (segment_end s)))

pub Agree-IsOrdered :
    (f g : SegmentFiles) (floor low bound : ℕ) (segs : List Segment)
    → IsOrdered f low segs
    → floor ≤ low
    → past_of low segs ≤ bound
    → Agree f g floor bound
    → IsOrdered g low segs
Agree-IsOrdered f g floor low bound [] h fl b same = tt
Agree-IsOrdered f g floor low bound (s ∷ segs) h fl b same =
    let top = floor-le-past_of f (s.start + max 1 s.len) segs h.2 in
    (
      h.0,
      rw (sym (same s.start (omega arith) (omega arith))) h.1,
      Agree-IsOrdered f g floor (s.start + max 1 s.len) bound segs h.2 (omega arith) b same,
    )

pub stream_from-append :
    (files : SegmentFiles) (floor : ℕ) (init segs : List Segment) (lost : ℕ)
    → stream_from files floor (init ++ segs) lost
      ≡ stream_from files floor init 0 ++ stream_from files (end_of floor init) segs lost
stream_from-append files floor [] segs lost = refl
stream_from-append files floor (s ∷ init) segs lost =
    simp (stream_from-append files (segment_end s) init segs lost, append_assoc)
