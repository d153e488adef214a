-- ===== src/Makimono/Journal/Rotating.antt =====
-- `rotate` of makimono/src/journal.rs: the new segment that an append opens.
use mathlib.Core.List.{append-nil}
use tear.Base.{
  ℕ, ◌-◌, ◌≤◌, true, [], ◌++◌, some, ◌==◌, ◌≡◌, refl, ap, ◌∙◌, sym, subst, ◌⊎◌, inl, inr, arith,
  is_some, not, ◌&&◌, Bool-cases, if◌then◌else◌,
}
use tear.Base.Maps.{get, get-insert, contains_key-get}
use tear.Makimono.Lease.{ok, failed}
use tear.Makimono.Journal.{AppendIo, Journal, end, open_append, rotate, rotates}
use tear.Makimono.Journal.Stream.{hole, stretch, stream_from, view, stream_from-lost}
use tear.Makimono.Journal.Valid.{
  IsValid, IsWritable, Agree, Agree-IsOrdered, Agree-stream_from, IsOrdered-append, back-append,
  back_cases, end-end_of, end_of, past_of, past_of-append, single, stream_from-append,
}

module _ {j : Journal} (v : IsValid j) where
  -- Where `append` opens a new segment, its offset is above those of all segments.
  past-le-end : rotates j ≡ true → past_of 0 j.segments ≤ end j
  unfolding rotates end
  past-le-end r = elim (back_cases j.segments) [
    | inl e ↦ rw e (omega arith)
    | inr (init, s, e) ↦
        let room = v.room in
        rw (e, past_of-append 0 init s, back-append init s)
          (ground (arith, rw (e, back-append init s) at r))
  ]

-- The journal with the new segment.
abbrev pub opened : Journal → Journal
opened j = record j {
  segments = j.segments ++ single (record { start = end j; len = 0 });
  files = open_append (end j) j.files;
  file = some (end j);
  lost = 0;
}

pub rotate_cases :
    (io : AppendIo) (j : Journal) → (rotate io j ≡ (j, failed)) ⊎ (rotate io j ≡ (opened j, ok tt))
unfolding rotate
rotate_cases io j = elim (Bool-cases (is_some j.file && not io.rotate_synced)) [
  | inl e ↦ inl (rw e)
  | inr e ↦ elim (Bool-cases io.created) [ inl c ↦ inr (rw (e, c)) | inr c ↦ inl (rw (e, c)) ]
]

module _ {j : Journal} (v : IsValid j) (rotating : rotates j ≡ true) where
  get-open_append :
      (k : ℕ)
      → get k (open_append (end j) j.files) ≡ (if end j == k then some [] else get k j.files)
  get-open_append k =
      let absent = v.fresh (end j) (past-le-end v rotating) (omega arith) in
      ground (arith, absent, contains_key-get (end j) j.files, get-insert (end j) k [] j.files)

  opened-Agree : Agree j.files (opened j).files 0 (end j)
  opened-Agree k low high = ground (arith, get-open_append k)

  pub opened-view : view (opened j) ≡ view j
  opened-view =
      stream_from-append (opened j).files 0 j.segments (single (record { start = end j; len = 0 }))
        0
      ∙ ap (◌++◌ (stream_from (opened j).files 0 j.segments 0)) gap
      ∙ ap (λ front. front ++ hole j.lost)
          (sym (
            Agree-stream_from j.files (opened j).files 0 0 (end j) j.segments 0 v.ordered
              (omega arith) (past-le-end v rotating) opened-Agree 0))
      ∙ sym (stream_from-lost j.files 0 j.segments j.lost)
    where
      gap : hole (end j - end_of 0 j.segments) ++ (stretch [] ++ hole 0) ≡ hole j.lost
      gap =
          rw (append-nil (hole (end j - end_of 0 j.segments)))
            (ap hole (omega (arith, end-end_of j)))

  pub opened-IsValid : IsValid (opened j)
  unfolding end
  opened-IsValid = record {
    ordered =
        IsOrdered-append (opened j).files 0 j.segments (single (record { start = end j; len = 0 }))
          (Agree-IsOrdered j.files (opened j).files 0 0 (end j) j.segments v.ordered (omega arith)
            (past-le-end v rotating) opened-Agree)
          (past-le-end v rotating, omega arith, tt);
    fresh = λ k above past.
        let bound = past_of-append 0 j.segments (record { start = end j; len = 0 }) in
        let low = past-le-end v rotating in ground (arith, get-open_append k, v.fresh k);
    writable = λ s e.
        let same : record { start = end j; len = 0 } ≡ s =
          cc (back-append j.segments (record { start = end j; len = 0 })) in
        subst (IsWritable (opened j).files 0) same (record {
          held = [];
          found = ground (arith, get-open_append (end j));
          exact = λ z. refl;
        });
    handle = rw (back-append j.segments (record { start = end j; len = 0 })) refl;
    room = v.room;
  }
