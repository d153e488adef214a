-- ===== src/Makimono/Journal/Evicting.antt =====
-- `evict` of makimono/src/journal.rs: the oldest segments leave, and with them the oldest bytes.
use mathlib.Core.List.{append_assoc}
use tear.Base.{
  ℕ, ◌+◌, ◌-◌, ◌≤◌, Bool, false, List, [], ◌∷◌, ◌++◌, none, some, length, take, drop, max, ◌==◌,
  ltb, ◌≡◌, refl, ap, ◌∙◌, sym, inl, inr, arith, drop-drop, not, ◌&&◌, drop-all, length-map,
  length-take, if_both, List-cases,
}
use tear.Base.Maps.{get, remove, get-remove, contains_key}
use tear.Makimono.Lease.{IoResult, ok, failed}
use tear.Makimono.Journal.{
  AppendIo, Segment, segment_end, SegmentFiles, Journal, front, back, start, end, retained, evict,
  evict_segments,
}
use tear.Makimono.Journal.Stream.{
  Stream, hole, length-hole, drop-hole, drop-append, hole-add, stretch, content, stream_from, view,
  forget,
}
use tear.Makimono.Journal.Valid.{
  IsValid, IsOrdered, Agree, Agree-IsOrdered, Agree-stream_from, IsOrdered-lower, floor-le-past_of,
  past_of, back_cases, back-append, past_of-append,
}

-- The bytes below a higher offset are gone whether or not those below a lower one went before.
pub forget-forget :
    (low high : ℕ) (s : Stream) → low ≤ high → forget high (forget low s) ≡ forget high s
forget-forget low high s h = ap (◌++◌ (hole high)) (
    drop-append high (hole low) (drop low s)
    ∙ rw (drop-hole high low, length-hole low, sym (drop-drop low (high - low) s))
        (rest (low - high) (omega arith) ∙ ap (λ k. drop k s) (omega arith)))
  where
    rest : (n : ℕ) → n ≡ 0 → hole n ++ drop (low + (high - low)) s ≡ drop (low + (high - low)) s
    rest n e = rw e refl

drop-past :
    (k : ℕ) (front rest : Stream)
    → length front ≤ k
    → drop k (front ++ rest) ≡ drop (k - length front) rest
drop-past k front rest h = drop-append k front rest ∙ rw (drop-all k front h) refl

drop_none : (k : ℕ) (s : Stream) → k ≡ 0 → drop k s ≡ s
drop_none k s e = rw e refl

forget-hole : (k n : ℕ) (s : Stream) → k ≤ n → forget k (hole n ++ s) ≡ hole n ++ s
forget-hole k n s h =
    ap (◌++◌ (hole k)) (
      drop-append k (hole n) s
      ∙ rw (drop-hole k n, length-hole n)
          (ap (◌++◌ (hole (n - k))) (drop_none (k - n) s (omega arith))))
    ∙ sym (append_assoc (hole k) (hole (n - k)) s)
    ∙ ap (λ gone. gone ++ s) (sym (hole-add k (n - k)) ∙ ap hole (omega arith))

-- Where a stream of segments begins.
abbrev pub first_start : ℕ → List Segment → ℕ
first_start floor [] = floor
first_start floor (s ∷ segs) = s.start

-- The stream of segments from 0 on, without the bytes below an offset up to the first segment's.
pub forget-first :
    (files : SegmentFiles) (k : ℕ) (s : Segment) (segs : List Segment) (lost : ℕ)
    → k ≤ s.start
    → forget k (stream_from files 0 (s ∷ segs) lost) ≡ stream_from files 0 (s ∷ segs) lost
forget-first files k s segs lost h =
    forget-hole k (s.start - 0)
      (stretch (take s.len (content s.start files)) ++ stream_from files (segment_end s) segs lost)
      (omega arith)

-- The bytes up to the second segment's are those of the first.
pub forget-second :
    (files : SegmentFiles) (s t : Segment) (segs : List Segment) (lost : ℕ)
    → IsOrdered files 0 (s ∷ t ∷ segs)
    → forget t.start (stream_from files 0 (s ∷ t ∷ segs) lost) ≡ stream_from files 0 (t ∷ segs) lost
forget-second files s t segs lost h =
    ap (λ kept. hole t.start ++ kept)
      (drop-past t.start (hole (s.start - 0)) (stretch bytes ++ (hole gap ++ later))
          (omega (arith, length-hole (s.start - 0)))
        ∙ drop-past (t.start - length (hole (s.start - 0))) (stretch bytes) (hole gap ++ later)
            (omega (arith, length-hole (s.start - 0), bytes_len))
        ∙ drop-past (t.start - length (hole (s.start - 0)) - length (stretch bytes)) (hole gap)
            later (omega (arith, length-hole (s.start - 0), length-hole gap, bytes_len))
        ∙ drop_none
            (t.start - length (hole (s.start - 0)) - length (stretch bytes) - length (hole gap))
            later (omega (arith, length-hole (s.start - 0), length-hole gap, bytes_len)))
    ∙ ap (λ k. hole k ++ later) (omega arith)
  where
    bytes : List ℕ
    bytes = take s.len (content s.start files)

    gap : ℕ
    gap = t.start - segment_end s

    later : Stream
    later =
        stretch (take t.len (content t.start files)) ++ stream_from files (segment_end t) segs lost

    bytes_len : length (stretch bytes) ≡ s.len
    bytes_len = length-map bytes some ∙ omega (arith, length-take s.len (content s.start files))

-- What an eviction leaves of segments and files that are in order.
pub record Leaves (files : SegmentFiles) (segs : List Segment) (lost : ℕ)
    (left : List Segment × SegmentFiles × IoResult (Unit {0})) : Type 0 where
  pub ordered : IsOrdered left.1 0 left.0
  pub same_back : back left.0 ≡ back segs
  pub later : first_start 0 segs ≤ first_start 0 left.0
  pub same_get : (k : ℕ) → first_start 0 left.0 ≤ k → get k left.1 ≡ get k files
  pub stream :
      stream_from left.1 0 left.0 lost
      ≡ forget (first_start 0 left.0) (stream_from files 0 segs lost)

Leaves-all :
    (files : SegmentFiles) (segs : List Segment) (lost : ℕ) (r : IoResult (Unit {0}))
    → IsOrdered files 0 segs
    → Leaves files segs lost (segs, files, r)
Leaves-all files [] lost r h = record {
  ordered = tt;
  same_back = refl;
  later = omega arith;
  same_get = λ k b. refl;
  stream = refl;
}
Leaves-all files (s ∷ segs) lost r h = record {
  ordered = h;
  same_back = refl;
  later = omega arith;
  same_get = λ k b. refl;
  stream = sym (forget-first files s.start s segs lost (omega arith));
}

module _ (files : SegmentFiles) (s t : Segment) (segs : List Segment) (lost : ℕ)
    (h : IsOrdered files 0 (s ∷ t ∷ segs)) where
  tail-IsOrdered : IsOrdered files 0 (t ∷ segs)
  tail-IsOrdered = (omega arith, h.2.1, h.2.2)

  Leaves-one : (r : IoResult (Unit {0})) → Leaves files (s ∷ t ∷ segs) lost (t ∷ segs, files, r)
  Leaves-one r = record {
    ordered = tail-IsOrdered;
    same_back = refl;
    later = omega arith;
    same_get = λ k b. refl;
    stream = sym (forget-second files s t segs lost h);
  }

  remove-Agree : Agree files (remove s.start files) (s.start + 1) (past_of 0 (t ∷ segs))
  remove-Agree k low high = rw (content, get-remove s.start k files, differs) refl
    where
      differs : (s.start == k) ≡ false
      differs = ground arith

  removed-IsOrdered : IsOrdered (remove s.start files) 0 (t ∷ segs)
  removed-IsOrdered =
      IsOrdered-lower (remove s.start files) 0 (s.start + max 1 s.len) (t ∷ segs) (omega arith) (
        Agree-IsOrdered files (remove s.start files) (s.start + 1) (s.start + max 1 s.len)
          (past_of 0 (t ∷ segs)) (t ∷ segs) h.2 (omega arith) (omega arith) remove-Agree)

  removed_stream :
      stream_from (remove s.start files) 0 (t ∷ segs) lost
      ≡ forget t.start (stream_from files 0 (s ∷ t ∷ segs) lost)
  removed_stream =
      sym (
        Agree-stream_from files (remove s.start files) (s.start + 1) (s.start + max 1 s.len)
          (past_of 0 (t ∷ segs)) (t ∷ segs) lost h.2 (omega arith) (omega arith) remove-Agree 0)
      ∙ sym (forget-second files s t segs lost h)

  Leaves-more :
      (left : List Segment × SegmentFiles × IoResult (Unit {0}))
      → Leaves (remove s.start files) (t ∷ segs) lost left
      → Leaves files (s ∷ t ∷ segs) lost left
  Leaves-more left l = record {
    ordered = l.ordered;
    same_back = l.same_back;
    later = omega (arith, l.later);
    same_get = λ k b. l.same_get k b ∙ ground (arith, get-remove s.start k files, l.later);
    stream =
        l.stream
        ∙ ap (forget (first_start 0 left.0)) removed_stream
        ∙ forget-forget t.start (first_start 0 left.0) (stream_from files 0 (s ∷ t ∷ segs) lost)
            l.later;
  }

pub evict_segments-Leaves :
    (max_bytes : ℕ) (unlinked : ℕ → Bool) (segs : List Segment) (files : SegmentFiles) (lost : ℕ)
    → IsOrdered files 0 segs
    → Leaves files segs lost (evict_segments max_bytes unlinked segs files)
unfolding evict_segments
evict_segments-Leaves max_bytes unlinked [] files lost h = Leaves-all files [] lost (ok tt) h
evict_segments-Leaves max_bytes unlinked (s ∷ []) files lost h =
    Leaves-all files (s ∷ []) lost (ok tt) h
evict_segments-Leaves max_bytes unlinked (s ∷ t ∷ segs) files lost h =
    if_both (Leaves files (s ∷ t ∷ segs) lost) (ltb max_bytes (retained (s ∷ t ∷ segs)))
      (if_both (Leaves files (s ∷ t ∷ segs) lost)
        (contains_key s.start files && not (unlinked s.start))
        (Leaves-one files s t segs lost h failed)
        (Leaves-more files s t segs lost h
          (evict_segments max_bytes unlinked (t ∷ segs) (remove s.start files))
          (evict_segments-Leaves max_bytes unlinked (t ∷ segs) (remove s.start files) lost
            (removed-IsOrdered files s t segs lost h))))
      (Leaves-all files (s ∷ t ∷ segs) lost (ok tt) h)

pub start-first_start : (j : Journal) → start j ≡ first_start 0 j.segments
unfolding start
start-first_start j = elim (List-cases j.segments) [
  | inl e ↦ rw e refl
  | inr (s, segs, e) ↦ rw e refl
]

past_of-back :
    (segs : List Segment)
    → past_of 0 segs ≡ (elim (back segs) [ none ↦ 0 | some s ↦ s.start + max 1 s.len ])
past_of-back segs = elim (back_cases segs) [
  | inl e ↦ rw e refl
  | inr (init, s, e) ↦ rw (e, back-append init s, past_of-append 0 init s) refl
]

first_start-le-past_of :
    (files : SegmentFiles) (segs : List Segment)
    → IsOrdered files 0 segs
    → first_start 0 segs ≤ past_of 0 segs
first_start-le-past_of files [] h = omega arith
first_start-le-past_of files (s ∷ segs) h =
    omega (arith, floor-le-past_of files (s.start + max 1 s.len) segs h.2)

first_start-le-back :
    (files : SegmentFiles) (segs : List Segment) (s : Segment) (floor : ℕ)
    → IsOrdered files floor segs
    → back segs ≡ some s
    → first_start floor segs ≤ s.start
first_start-le-back files [] s floor h e = cc
first_start-le-back files (t ∷ []) s floor h e = ground arith
first_start-le-back files (t ∷ u ∷ segs) s floor h e =
    omega (arith, first_start-le-back files (u ∷ segs) s (t.start + max 1 t.len) h.2 e)

-- An eviction, whether or not it fails on the way, only forgets the bytes below the new start.
pub evict-view :
    (io : AppendIo) {j : Journal}
    → IsValid j
    → view (evict io j).0 ≡ forget (start (evict io j).0) (view j)
unfolding evict
evict-view io {j} v =
    let l =
      evict_segments-Leaves j.bounds.max_bytes io.unlinked j.segments j.files j.lost v.ordered in
    l.stream ∙ ap (λ k. forget k (view j)) (sym (start-first_start (evict io j).0))

pub start-le-evict : (io : AppendIo) {j : Journal} → IsValid j → start j ≤ start (evict io j).0
unfolding evict
start-le-evict io {j} v =
    let l =
      evict_segments-Leaves j.bounds.max_bytes io.unlinked j.segments j.files j.lost v.ordered in
    omega (arith, l.later, start-first_start j, start-first_start (evict io j).0)

pub evict-end : (io : AppendIo) {j : Journal} → IsValid j → end (evict io j).0 ≡ end j
unfolding evict end
evict-end io {j} v =
    let l =
      evict_segments-Leaves j.bounds.max_bytes io.unlinked j.segments j.files j.lost v.ordered in
    rw l.same_back refl

pub evict-IsValid : (io : AppendIo) {j : Journal} → IsValid j → IsValid (evict io j).0
unfolding evict end
evict-IsValid io {j} v =
    let left = evict_segments j.bounds.max_bytes io.unlinked j.segments j.files in
    let l =
      evict_segments-Leaves j.bounds.max_bytes io.unlinked j.segments j.files j.lost v.ordered in
    record {
      ordered = l.ordered;
      fresh = λ k above past.
          l.same_get k (omega (arith, first_start-le-past_of left.1 left.0 l.ordered))
          ∙ v.fresh k
              (rw (past_of-back j.segments, sym l.same_back, sym (past_of-back left.0)) above)
              (rw (sym l.same_back) past);
      writable = λ s e.
          let w = v.writable s (sym l.same_back ∙ e) in
          record {
            held = w.held;
            found =
                l.same_get s.start (first_start-le-back left.1 left.0 s 0 l.ordered e) ∙ w.found;
            exact = w.exact;
          };
      handle = rw l.same_back v.handle;
      room = v.room;
    }
