-- ===== src/Tamotsu/Holder/Records.antt =====
-- tamotsu/src/holder.rs: what the output of a pane becomes in its journal, whatever the system
-- answers, over any run of `ingest`.
use mathlib.Core.List.{append_assoc}
use tear.Base.{
  ℕ, ◌+◌, ◌-◌, ◌≤◌, ◌<◌, List, [], ◌∷◌, ◌++◌, length, drop, ◌≡◌, refl, ap, ◌∙◌, sym, ◌⊎◌, inl, inr,
  arith, length-append, length-map, Option, some, append-nil, List-cases,
}
use tear.Makimono.Lease.{IoResult, ok, failed}
use tear.Makimono.Journal.{Journal, AppendIo, append, note_lost, start, end}
use tear.Makimono.Journal.Stream.{Stream, hole, length-hole, stretch, view, forget, drop-append}
use tear.Makimono.Journal.Valid.{IsValid}
use tear.Makimono.Journal.Lengths.{length-view, start-le-end}
use tear.Makimono.Journal.Evicting.{forget-forget}
use tear.Makimono.Journal.Writing.{view-forget, start-note_lost, done_cases}
use tear.Makimono.Journal.Recording.{append_outcome, note_lost-IsTorn}
use tear.Tamotsu.Holder.{record_bytes}

-- What one call puts behind the stream. A call that reports no failure puts just its bytes there.
pub data Contributes (bytes : List ℕ) : IoResult (Unit {0}) → Stream → Type 0 where
  kept : Contributes bytes (ok tt) (stretch bytes)
  missed : Contributes bytes failed (hole (length bytes))
  kept_and_missed : Contributes bytes failed (stretch bytes ++ hole (length bytes))

-- What is put behind a stream before or after its prefix is forgotten.
forget-append :
    (low high : ℕ) (s t : Stream)
    → low ≤ length s
    → low ≤ high
    → forget high (forget low s ++ t) ≡ forget high (s ++ t)
forget-append low high s t within h =
    ap (forget high) (
      append_assoc (hole low) (drop low s) t
      ∙ ap (◌++◌ (hole low))
          (ap (λ k. drop low s ++ drop k t) none_left ∙ sym (drop-append low s t)))
    ∙ forget-forget low high (s ++ t) h
  where
    none_left : 0 ≡ low - length s
    none_left = omega arith

-- The journal after a call, with what the call put behind the stream.
pub record Recorded (bytes : List ℕ) (before after : Journal) (result : IoResult (Unit {0}))
    : Type 0 where
  pub valid : IsValid after
  pub more : Stream
  pub contributes : Contributes bytes result more
  pub stream : view after ≡ forget (start after) (view before ++ more)
  pub reach : end after ≡ end before + length more
  pub later : start before ≤ start after

module _ (io : AppendIo) (bytes : List ℕ) {j : Journal} (v : IsValid j) where
  -- The three ends of a call: written, written with a failure after it, and not written.
  Recorded-kept :
      {after : Journal}
      → IsValid after
      → view after ≡ forget (start after) (view j ++ stretch bytes)
      → end after ≡ end j + length bytes
      → start j ≤ start after
      → Recorded bytes j after (ok tt)
  Recorded-kept {after} w e f later = record {
    valid = w;
    more = stretch bytes;
    contributes = kept;
    stream = e;
    reach = f ∙ ap (λ n. end j + n) (sym (length-map {B = Option ℕ} bytes some));
    later = later;
  }

  Recorded-twice :
      {after : Journal}
      → 0 < length bytes
      → IsValid after
      → view after ≡ forget (start after) (view j ++ stretch bytes)
      → end after ≡ end j + length bytes
      → start j ≤ start after
      → Recorded bytes j (note_lost (length bytes) after) failed
  Recorded-twice {after} some_bytes w e f later =
      let (noted, seen, reach, _) = note_lost-IsTorn w (length bytes) some_bytes in
      record {
        valid = noted;
        more = stretch bytes ++ hole (length bytes);
        contributes = kept_and_missed;
        stream = rw start-note_lost (
            seen
            ∙ rw e (
                forget-append (start after) (start after) (view j ++ stretch bytes)
                  (hole (length bytes))
                  (omega (
                    arith,
                    start-le-end w,
                    length-append (view j) (stretch bytes),
                    length-view v,
                    length-map {B = Option ℕ} bytes some,
                  ))
                  (omega arith)
                ∙ ap (forget (start after))
                    (append_assoc (view j) (stretch bytes) (hole (length bytes)))));
        reach = omega (
          arith,
          length-append (stretch bytes) (hole (length bytes)),
          length-hole (length bytes),
          length-map {B = Option ℕ} bytes some,
        );
        later = omega (arith, start-note_lost (length bytes) after);
      }

  Recorded-missed :
      (after : Journal)
      → IsValid (note_lost (length bytes) after)
      → view (note_lost (length bytes) after) ≡ forget (start after) (view j ++ hole (length bytes))
      → end (note_lost (length bytes) after) ≡ end j + length bytes
      → start j ≤ start after
      → Recorded bytes j (note_lost (length bytes) after) failed
  Recorded-missed after w e f later = record {
    valid = w;
    more = hole (length bytes);
    contributes = missed;
    stream = rw start-note_lost e;
    reach = f ∙ ap (λ n. end j + n) (sym (length-hole (length bytes)));
    later = omega (arith, start-note_lost (length bytes) after);
  }

append_nothing : (io : AppendIo) (j : Journal) → (append io [] j).1 ≡ failed → ⊥
unfolding append
append_nothing io j r = cc

record_bytes_cases :
    (io : AppendIo) (bytes : List ℕ) (j : Journal)
    → (((append io bytes j).1 ≡ ok tt) × (record_bytes io bytes j ≡ ((append io bytes j).0, ok tt)))
      ⊎ (((append io bytes j).1 ≡ failed)
          × (record_bytes io bytes j ≡ (note_lost (length bytes) (append io bytes j).0, failed)))
unfolding record_bytes
record_bytes_cases io bytes j = elim (done_cases (append io bytes j).1) [
  | inl e ↦ inl (e, rw (e, record_bytes) refl)
  | inr e ↦ inr (e, rw (e, record_bytes) refl)
]

-- One call of `ingest` on a journal in order: the journal is in order again, and stands for its
-- stream with what the call contributes behind it, of which a prefix may be forgotten.
pub record_bytes-Recorded :
    (io : AppendIo) (bytes : List ℕ) {j : Journal}
    → IsValid j
    → Recorded bytes j (record_bytes io bytes j).0 (record_bytes io bytes j).1
record_bytes-Recorded io bytes {j} v = elim (record_bytes_cases io bytes j) [
  | inl (r, e) ↦ rw e (elim (append_outcome io bytes v) [
    | inl (w, seen, reach, later) ↦ Recorded-kept io bytes v w seen reach later
    | inr (failure, torn) ↦ absurd (cc)
  ])
  | inr (r, e) ↦ rw e (elim (append_outcome io bytes v) [
    | inl (w, seen, reach, later) ↦ Recorded-twice io bytes v (some_bytes r) w seen reach later
    | inr (failure, torn) ↦
        let (w, seen, reach, later) = torn (length bytes) (some_bytes r) in
        Recorded-missed io bytes v (append io bytes j).0 w seen reach later
  ])
]
  where
    some_bytes : (append io bytes j).1 ≡ failed → 0 < length bytes
    some_bytes r = elim (List-cases bytes) [
      | inl empty ↦ absurd (append_nothing io j (rw empty at r))
      | inr (b, more, e) ↦ rw e (omega arith)
    ]

-- A run of calls.
unfoldable pub record_all :
    List (AppendIo × List ℕ) → Journal → Journal × List (IoResult (Unit {0}))
unfolding record_bytes
record_all [] j = (j, [])
record_all ((io, bytes) ∷ calls) j =
    let (next_j, result) = record_bytes io bytes j in
    let (last, results) = record_all calls next_j in (last, result ∷ results)

-- What a run puts behind the stream, call by call.
pub data AllContribute
    : List (AppendIo × List ℕ) → List (IoResult (Unit {0})) → Stream → Type 0 where
  no_more : AllContribute [] [] []
  and_more :
      (io : AppendIo) (bytes : List ℕ) (calls : List (AppendIo × List ℕ))
      (result : IoResult (Unit {0})) (results : List (IoResult (Unit {0}))) (s t : Stream)
      → Contributes bytes result s
      → AllContribute calls results t
      → AllContribute ((io, bytes) ∷ calls) (result ∷ results) (s ++ t)

pub record RunRecorded (calls : List (AppendIo × List ℕ)) (before : Journal)
    (out : Journal × List (IoResult (Unit {0}))) : Type 0 where
  pub valid : IsValid out.0
  pub more : Stream
  pub contribute : AllContribute calls out.1 more
  pub stream : view out.0 ≡ forget (start out.0) (view before ++ more)
  pub reach : end out.0 ≡ end before + length more
  pub later : start before ≤ start out.0

-- Over any run of calls and whatever the system answers, a journal in order stays in order, and
-- stands for its stream with the contributions of the calls behind it in their order: just the bytes
-- of a call that reports no failure, and a hole of their length, after them or in their place, of one
-- that does. Of that stream no more than a prefix is forgotten, and an offset once given stays.
pub record_all-RunRecorded :
    (calls : List (AppendIo × List ℕ)) {j : Journal}
    → IsValid j
    → RunRecorded calls j (record_all calls j)
unfolding record_all
record_all-RunRecorded [] {j} v = record {
  valid = v;
  more = [];
  contribute = no_more;
  stream = view-forget j ∙ ap (forget (start j)) (sym (append-nil (view j)));
  reach = omega arith;
  later = omega arith;
}
record_all-RunRecorded ((io, bytes) ∷ calls) {j} v =
    let one = record_bytes-Recorded io bytes v in
    let rest = record_all-RunRecorded calls one.valid in
    record {
      valid = rest.valid;
      more = one.more ++ rest.more;
      contribute =
          and_more io bytes calls (record_bytes io bytes j).1
            (record_all calls (record_bytes io bytes j).0).1 one.more rest.more one.contributes
            rest.contribute;
      stream =
          rest.stream
          ∙ rw one.stream (
              forget-append (start (record_bytes io bytes j).0)
                (start (record_all calls (record_bytes io bytes j).0).0) (view j ++ one.more)
                rest.more
                (omega (
                  arith,
                  start-le-end one.valid,
                  one.reach,
                  length-append (view j) one.more,
                  length-view v,
                ))
                rest.later
              ∙ ap (forget (start (record_all calls (record_bytes io bytes j).0).0))
                  (append_assoc (view j) one.more rest.more));
      reach = omega (arith, one.reach, rest.reach, length-append one.more rest.more);
      later = omega (arith, one.later, rest.later);
    }
