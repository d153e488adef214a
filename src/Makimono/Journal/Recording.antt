-- ===== src/Makimono/Journal/Recording.antt =====
-- What `append` of makimono/src/journal.rs makes of the stream that the journal stands for.
use mathlib.Core.List.{append_assoc}
use tear.Base.{
  ℕ, ◌+◌, ◌≤◌, true, false, List, [], ◌∷◌, ◌++◌, ◌≡◌, refl, ap, ◌∙◌, sym, subst, ◌⊎◌, inl, inr,
  arith, Bool-cases, append-nil, List-cases,
}
use tear.Makimono.Lease.{IoResult, failed}
use tear.Makimono.Journal.{AppendIo, Journal, start, end, note_lost, rotates, write_bytes, append}
use tear.Makimono.Journal.Stream.{hole, hole-add, view, forget, stream_from, stream_from-lost}
use tear.Makimono.Journal.Valid.{IsValid, back_cases}
use tear.Makimono.Journal.Writing.{
  IsWritten, IsTorn, view-forget, start-note_lost, write_bytes_outcome,
}
use tear.Makimono.Journal.Lengths.{end_of_view}
use tear.Makimono.Journal.Rotating.{opened, rotate_cases, opened-view, opened-IsValid}

-- A journal that notes bytes as lost, and writes none, is in order with a hole at its end.
pub note_lost-IsTorn : {j : Journal} → IsValid j → IsTorn j j
unfolding note_lost end
note_lost-IsTorn {j} v lost some_lost = (
  record {
    ordered = v.ordered;
    fresh = λ k above past. v.fresh k above (omega arith);
    writable = λ s e.
        let w = v.writable s e in
        record { held = w.held; found = w.found; exact = λ z. absurd (omega arith) };
    handle = v.handle;
    room = v.room;
  },
  view-forget (note_lost lost j) ∙ rw (start-note_lost lost j) (ap (forget (start j)) noted),
  omega arith,
  omega arith,
)
  where
    noted : view (note_lost lost j) ≡ view j ++ hole lost
    noted =
        stream_from-lost j.files 0 j.segments (j.lost + lost)
        ∙ rw (hole-add j.lost lost, stream_from-lost j.files 0 j.segments j.lost)
            (sym (append_assoc (stream_from j.files 0 j.segments 0) (hole j.lost) (hole lost)))

-- The two ways in which an append can end.
abbrev pub Appended : List ℕ → Journal → Journal × IoResult (Unit {0}) → Type 0
Appended bytes before (after, result) =
    IsWritten bytes before after ⊎ ((result ≡ failed) × IsTorn before after)

-- Only what the journal stood for, and its end, count.
Appended-like :
    (bytes : List ℕ) (before other : Journal) (out : Journal × IoResult (Unit {0}))
    → view before ≡ view other
    → end before ≡ end other
    → start before ≤ start other
    → Appended bytes other out
    → Appended bytes before out
Appended-like bytes before other (after, result) e f g (inl (v, w, same_end, later)) =
    inl (v, rw e w, rw f same_end, omega arith)
Appended-like bytes before other (after, result) e f g (inr (failure, torn)) = inr (
  failure,
  λ lost some_lost.
      let (v, w, same_end, later) = torn lost some_lost in (v, rw e w, rw f same_end, omega arith),
)

stays :
    (io : AppendIo) (bytes : List ℕ) {j : Journal}
    → IsValid j
    → rotates j ≡ false
    → Appended bytes j (write_bytes io bytes j)
unfolding rotates
stays io bytes {j} v e = elim (back_cases j.segments) [
  | inl none_there ↦ absurd (rotates_empty none_there)
  | inr (init, s, whole) ↦ write_bytes_outcome io bytes v (ground (arith)) init s whole
]
  where
    rotates_empty : j.segments ≡ [] → ⊥
    rotates_empty empty = ground (arith, empty)

start-le-opened : (j : Journal) → start j ≤ start (opened j)
unfolding start
start-le-opened j = elim (List-cases j.segments) [
  | inl e ↦ rw e (omega arith)
  | inr (s, segs, e) ↦ rw e (omega arith)
]

goes_on :
    (io : AppendIo) (bytes : List ℕ) {j : Journal}
    → IsValid j
    → rotates j ≡ true
    → Appended bytes j (write_bytes io bytes (opened j))
goes_on io bytes {j} v e =
    Appended-like bytes j (opened j) (write_bytes io bytes (opened j)) (sym (opened-view v e))
      (omega (
        arith,
        end_of_view [] v (opened-IsValid v e) (opened-view v e ∙ sym (append-nil (view j))),
      ))
      (start-le-opened j)
      (write_bytes_outcome io bytes (opened-IsValid v e) refl j.segments
        (record { start = end j; len = 0 }) refl)

abbrev Outcome : Type 0
Outcome = Journal × IoResult (Unit {0})

-- Where an append comes to its write, and where it does not.
pub append_cases :
    (io : AppendIo) (b : ℕ) (bytes : List ℕ) (j : Journal)
    → ((rotates j ≡ false) × (append io (b ∷ bytes) j ≡ write_bytes io (b ∷ bytes) j))
      ⊎ ((append io (b ∷ bytes) j ≡ (j, failed))
          ⊎ ((rotates j ≡ true)
              × (append io (b ∷ bytes) j ≡ write_bytes io (b ∷ bytes) (opened j))))
unfolding append
append_cases io b bytes j = elim (Bool-cases (rotates j)) [
  | inr e ↦ inl (e, rw e refl)
  | inl e ↦ inr (elim (rotate_cases io j) [
    | inl r ↦ inl (rw (e, r) (ap {B = Outcome} (λ (p : Outcome). (p.0, failed)) r))
    | inr r ↦
        inr (e, rw (e, r) (ap {B = Outcome} (λ (p : Outcome). write_bytes io (b ∷ bytes) p.0) r))
  ])
]

-- On a journal in order, an append either puts the bytes behind all that the journal stands for and
-- forgets no more than a prefix of it, or it reports a failure and a note of the loss makes the
-- journal stand for the same stream with a hole of that length.
pub append_outcome :
    (io : AppendIo) (bytes : List ℕ) {j : Journal}
    → IsValid j
    → Appended bytes j (append io bytes j)
unfolding append
append_outcome io [] {j} v =
    inl (
      v,
      view-forget j ∙ ap (forget (start j)) (sym (append-nil (view j))),
      omega arith,
      omega arith,
    )
append_outcome io (b ∷ bytes) {j} v = elim (append_cases io b bytes j) [
  | inl (e, a) ↦ subst (Appended (b ∷ bytes) j) (sym a) (stays io (b ∷ bytes) v e)
  | inr (inl a) ↦ subst (Appended (b ∷ bytes) j) (sym a) (inr (refl, note_lost-IsTorn v))
  | inr (inr (e, a)) ↦ subst (Appended (b ∷ bytes) j) (sym a) (goes_on io (b ∷ bytes) v e)
]
