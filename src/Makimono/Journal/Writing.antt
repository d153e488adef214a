-- ===== src/Makimono/Journal/Writing.antt =====
-- The write of `append` in makimono/src/journal.rs with the eviction and the sync that follow it.
use tear.Base.{
  ℕ, ◌+◌, ◌≤◌, ◌<◌, Bool, List, [], ◌∷◌, ◌++◌, Option, none, some, length, take, ◌≡◌, refl, ap, ◌∙◌,
  sym, ◌⊎◌, inl, inr, arith, Bool-cases, Option-cases, not, ◌&&◌, append-nil, List-cases, is_some,
  length-map,
}
use tear.Makimono.Lease.{IoResult, ok, failed}
use tear.Makimono.Journal.{
  AppendIo, Segment, Journal, start, end, note_lost, evict, sync_if_due, sync_due, sync, settle,
  write_bytes,
}
use tear.Makimono.Journal.Stream.{hole, length-hole, stretch, view, forget, take-all}
use tear.Makimono.Journal.Lengths.{end_of_view}
use tear.Makimono.Journal.Valid.{IsValid, IsWritable, back-append, single, lengthen_back-append}
use tear.Makimono.Journal.Appending.{extended, extended-view, extended-IsValid}
use tear.Makimono.Journal.Evicting.{
  evict-view, evict-IsValid, evict-end, start-le-evict, forget-first, start-first_start,
}

-- The bytes are in the journal, behind all that was in it; the oldest may have been evicted.
abbrev pub IsWritten : List ℕ → Journal → Journal → Type 0
IsWritten bytes before after =
    IsValid after
    × (view after ≡ forget (start after) (view before ++ stretch bytes))
    × (end after ≡ end before + length bytes)
    × (start before ≤ start after)

-- The bytes are not in the journal, and once they are noted as lost it is in order again.
abbrev pub IsTorn : Journal → Journal → Type 0
IsTorn before after =
    (lost : ℕ)
    → 0 < lost
    → IsValid (note_lost lost after)
      × (view (note_lost lost after) ≡ forget (start after) (view before ++ hole lost))
      × (end (note_lost lost after) ≡ end before + lost)
      × (start before ≤ start after)

pub view-forget : (j : Journal) → view j ≡ forget (start j) (view j)
view-forget j = elim (List-cases j.segments) [
  | inl e ↦ rw (start-first_start j, e) refl
  | inr (s, segs, e) ↦
      rw (start-first_start j, e) (sym (forget-first j.files s.start s segs j.lost (omega arith)))
]

pub start-note_lost : (n : ℕ) (j : Journal) → start (note_lost n j) ≡ start j
unfolding start note_lost
start-note_lost n j = refl

sync_cases :
    (synced : Bool) (now : ℕ) (j : Journal)
    → ((sync_if_due synced now j).0 ≡ j)
      ⊎ ((sync_if_due synced now j).0 ≡ record j { unsynced = 0; last_sync = now })
unfolding sync_if_due sync
sync_cases synced now j = elim (Bool-cases (sync_due now j)) [
  | inr e ↦ inl (rw e refl)
  | inl e ↦ elim (Bool-cases (is_some j.file && not synced)) [
    | inl f ↦ inl (rw (e, f) refl)
    | inr f ↦ inr (rw (e, f) refl)
  ]
]

-- What the journal holds does not depend on what is synced.
pub synced-IsValid :
    {j : Journal} (now : ℕ) → IsValid j → IsValid (record j { unsynced = 0; last_sync = now })
unfolding end
synced-IsValid {j} now v = record {
  ordered = v.ordered;
  fresh = v.fresh;
  writable = v.writable;
  handle = v.handle;
  room = v.room;
}

synced-IsWritten :
    (bytes : List ℕ) (before j : Journal) (now : ℕ)
    → IsWritten bytes before j
    → IsWritten bytes before (record j { unsynced = 0; last_sync = now })
unfolding end start
synced-IsWritten bytes before j now (v, e, f, g) = (synced-IsValid now v, e, f, g)

pub sync_outcome :
    (synced : Bool) (now : ℕ) {j : Journal}
    → IsValid j
    → IsValid (sync synced now j).0 × (view (sync synced now j).0 ≡ view j)
unfolding sync
sync_outcome synced now {j} v = elim (Bool-cases (is_some j.file && not synced)) [
  | inl f ↦ rw f (v, refl)
  | inr f ↦ rw f (synced-IsValid now v, refl)
]

pub done_cases : (r : IoResult (Unit {0})) → (r ≡ ok tt) ⊎ (r ≡ failed)
done_cases (ok tt) = inl refl
done_cases failed = inr refl

pub settle_cases :
    (io : AppendIo) (j : Journal)
    → ((settle io j).0 ≡ (evict io j).0)
      ⊎ ((settle io j).0 ≡ (sync_if_due io.synced io.now (evict io j).0).0)
unfolding settle
settle_cases io j = elim (done_cases (evict io j).1) [
  | inl e ↦ inr (rw (e, settle) refl)
  | inr e ↦ inl (rw (e, settle) refl)
]

settle-IsWritten :
    (io : AppendIo) (bytes : List ℕ) {before j : Journal}
    → IsValid before
    → IsValid j
    → view j ≡ view before ++ stretch bytes
    → start before ≤ start j
    → IsWritten bytes before (settle io j).0
settle-IsWritten io bytes {before} {j} u v e later =
    let evicted : IsWritten bytes before (evict io j).0 = (
      evict-IsValid io v,
      rw (sym e) (evict-view io v),
      evict-end io v
          ∙ end_of_view (stretch bytes) u v e
          ∙ ap (λ n. end before + n) (length-map {B = Option ℕ} bytes some),
      omega (arith, start-le-evict io v),
    ) in
    elim (settle_cases io j) [
      | inl s ↦ rw s evicted
      | inr s ↦ elim (sync_cases io.synced io.now (evict io j).0) [
        | inl t ↦ rw (s, t) evicted
        | inr t ↦ rw (s, t) (synced-IsWritten bytes before (evict io j).0 io.now evicted)
      ]
    ]

module _ (io : AppendIo) (bytes : List ℕ) {j : Journal} (v : IsValid j) (none_lost : j.lost ≡ 0)
    (init : List Segment) (s : Segment) (whole : j.segments ≡ init ++ single s) where
  handle_last : j.file ≡ some s.start
  handle_last = v.handle ∙ rw (whole, back-append init s) refl

  written : Journal
  written = extended j s init bytes (length bytes) 0 (j.unsynced + length bytes)

  write_bytes_whole : io.write_stops ≡ none → write_bytes io bytes j ≡ settle io written
  unfolding write_bytes written
  write_bytes_whole e = ground (arith, lengthen_back-append (length bytes) init s, handle_last)

  start-extended :
      (extra : List ℕ) (counted lost unsynced : ℕ)
      → start (extended j s init extra counted lost unsynced) ≡ start j
  unfolding start
  start-extended extra counted lost unsynced = rw whole (same_front init)
    where
      same_front :
          (segs : List Segment)
          → start (record j { segments = segs ++ single (record s { len = s.len + counted }) })
            ≡ start (record j { segments = segs ++ single s })
      same_front [] = refl
      same_front (t ∷ segs) = refl

  written-IsWritten : IsWritten bytes j (settle io written).0
  unfolding written
  written-IsWritten =
      let w = v.writable s (rw (whole, back-append init s) refl) in
      settle-IsWritten io bytes v
        (extended-IsValid v init s whole none_lost w.held w.found (w.exact none_lost) bytes
          (length bytes) 0 (j.unsynced + length bytes) (omega arith) (λ e. refl))
        (extended-view v init s whole none_lost w.held w.found (w.exact none_lost) bytes
            (length bytes) 0 (j.unsynced + length bytes) (omega arith) (λ e. refl)
          ∙ ap (λ kept. view j ++ kept)
              (append-nil (stretch (take (length bytes) bytes))
                ∙ ap stretch (take-all (length bytes) bytes (omega arith))))
        (omega (arith, start-extended bytes (length bytes) 0 (j.unsynced + length bytes)))

  torn-eq :
      (n lost : ℕ)
      → io.write_stops ≡ some n
      → note_lost lost (write_bytes io bytes j).0
        ≡ extended j s init (take n bytes) 0 lost j.unsynced
  unfolding write_bytes note_lost
  torn-eq n lost e = let same : s.len + 0 ≡ s.len = omega arith in ground (arith, handle_last)

  write_bytes-failed : (n : ℕ) → io.write_stops ≡ some n → (write_bytes io bytes j).1 ≡ failed
  unfolding write_bytes
  write_bytes-failed n e = ground (arith, handle_last)

  write_bytes-IsTorn : (n : ℕ) → io.write_stops ≡ some n → IsTorn j (write_bytes io bytes j).0
  write_bytes-IsTorn n e lost some_lost = (
    rw (torn-eq n lost e) torn_valid,
    view-forget (note_lost lost (write_bytes io bytes j).0)
        ∙ rw start-note_lost
            (ap (forget (start (write_bytes io bytes j).0)) (rw (torn-eq n lost e) torn_view)),
    rw (torn-eq n lost e)
        (end_of_view (hole lost) v torn_valid torn_view ∙ ap (λ m. end j + m) (length-hole lost)),
    started,
  )
    where
      started : start j ≤ start (write_bytes io bytes j).0
      started = omega (
        arith,
        start-note_lost lost (write_bytes io bytes j).0,
        ap start (torn-eq n lost e),
        start-extended (take n bytes) 0 lost j.unsynced,
      )

      last : IsWritable j.files j.lost s
      last = v.writable s (rw (whole, back-append init s) refl)

      torn_valid : IsValid (extended j s init (take n bytes) 0 lost j.unsynced)
      torn_valid =
          extended-IsValid v init s whole none_lost last.held last.found (last.exact none_lost)
            (take n bytes) 0 lost j.unsynced (omega arith) (λ z. absurd (omega arith))

      torn_view : view (extended j s init (take n bytes) 0 lost j.unsynced) ≡ view j ++ hole lost
      torn_view =
          extended-view v init s whole none_lost last.held last.found (last.exact none_lost)
            (take n bytes) 0 lost j.unsynced (omega arith) (λ z. absurd (omega arith))

  pub write_bytes_outcome :
      IsWritten bytes j (write_bytes io bytes j).0
      ⊎ (((write_bytes io bytes j).1 ≡ failed) × IsTorn j (write_bytes io bytes j).0)
  write_bytes_outcome = elim (Option-cases io.write_stops) [
    | inl e ↦ inl (rw (write_bytes_whole e) written-IsWritten)
    | inr (n, e) ↦ inr (write_bytes-failed n e, write_bytes-IsTorn n e)
  ]
