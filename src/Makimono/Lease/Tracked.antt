-- ===== src/Makimono/Lease/Tracked.antt =====
-- makimono/src/lease.rs: the leases that daemons took from one document are told apart, and stay so
-- when one more is taken, or one is raised.
use tear.Base.{
  ℕ, ◌+◌, ◌≤◌, ◌<◌, ◌≡◌, ◌≢◌, ◌⊎◌, inl, inr, refl, List, [], ◌∷◌, ◌++◌, arith, max, All, All-imp,
  true, count_if, Bool-cases, leb, ap,
}
use tear.Makimono.Lease.{
  LeaseDoc, document, IoResult, ok, failed, Lease, Raised, to, lost, recorded, recorded-document,
  held, take, raise_above, u64_mod, read_by, LeaseIo,
}
use tear.Makimono.Lease.Raising.{take_outcome, raise_above-IsRaised}

read_back :
    (io : LeaseIo) (doc : LeaseDoc) → io.read_ok ≡ true → recorded (read_by io doc) ≡ recorded doc
read_back io doc readable = rw readable refl

-- The leases with a new one, if it was taken.
abbrev pub with_lease : IoResult Lease → List Lease → List Lease
with_lease (ok lease) leases = lease ∷ leases
with_lease failed leases = leases

-- No two leases have the same incarnation.
abbrev pub NoneShared : List Lease → Type 0
NoneShared [] = Unit
NoneShared (l ∷ ls) = All (λ (m : Lease). m.incarnation ≢ l.incarnation) ls × NoneShared ls

-- The leases are recorded, and told apart.
pub record IsTracked (doc : LeaseDoc) (leases : List Lease) : Type 0 where
  pub below : All (λ (l : Lease). l.incarnation ≤ recorded doc) leases
  pub apart : NoneShared leases
  pub readable : (leases ≡ []) ⊎ ((n : ℕ) × (doc ≡ document n))

All-replace :
    (P : Lease → Type 0) (before : List Lease) (l l' : Lease) (after : List Lease)
    → All P (before ++ (l ∷ after))
    → P l'
    → All P (before ++ (l' ∷ after))
All-replace P [] l l' after h k = (k, h.1)
All-replace P (b ∷ before) l l' after h k = (h.0, All-replace P before l l' after h.1 k)

All-at :
    (P : Lease → Type 0) (before : List Lease) (l : Lease) (after : List Lease)
    → All P (before ++ (l ∷ after))
    → P l
All-at P [] l after h = h.0
All-at P (b ∷ before) l after h = All-at P before l after h.1

NoneShared-replace :
    (before : List Lease) (l l' : Lease) (after : List Lease)
    → NoneShared (before ++ (l ∷ after))
    → All (λ (m : Lease). m.incarnation < l'.incarnation) (before ++ (l ∷ after))
    → NoneShared (before ++ (l' ∷ after))
NoneShared-replace [] l l' after h k = (All-imp (λ m lt. omega arith) after k.1, h.1)
NoneShared-replace (b ∷ before) l l' after h k = (
  All-replace (λ m. m.incarnation ≢ b.incarnation) before l l' after h.0 (omega (arith, k.0)),
  NoneShared-replace before l l' after h.1 k.1,
)

pub taken-IsTracked :
    (io : LeaseIo) (doc : LeaseDoc) (leases : List Lease)
    → io.read_ok ≡ true
    → recorded doc + 1 < u64_mod
    → IsTracked doc leases
    → (result : IoResult Lease) → (take io doc).1 ≡ result
    → IsTracked (take io doc).0 (with_lease result leases)
taken-IsTracked io doc leases readable fits t (ok lease) e =
    let (doc_eq, above, _, _) = (take_outcome io doc (rw readable fits)).0 lease e in
    rw doc_eq (record {
      below = (
        omega (arith, recorded-document lease.incarnation),
        All-imp
            (λ m h.
              omega (arith, above, read_back io doc readable, recorded-document lease.incarnation))
            leases t.below,
      );
      apart = (
        All-imp (λ m h. omega (arith, above, read_back io doc readable)) leases t.below,
        t.apart,
      );
      readable = inr (lease.incarnation, refl);
    })
taken-IsTracked io doc leases readable fits t failed e =
    rw ((take_outcome io doc (rw readable fits)).1 e) t

not-empty : (before : List Lease) (l : Lease) (after : List Lease) → before ++ (l ∷ after) ≡ [] → ⊥
not-empty [] l after h = cc
not-empty (b ∷ before) l after h = cc

-- A raised lease is above every other; otherwise nothing has changed.
pub raised-IsTracked :
    (io : LeaseIo) (doc : LeaseDoc) (before : List Lease) (lease : Lease) (after : List Lease)
    (seen : ℕ)
    → io.read_ok ≡ true
    → max (max (recorded doc) seen) lease.incarnation + 1 < u64_mod
    → IsTracked doc (before ++ (lease ∷ after))
    → (result : IoResult Raised) → (raise_above io lease seen doc).2 ≡ result
    → IsTracked
        (raise_above io lease seen doc).0
        (before ++ ((raise_above io lease seen doc).1 ∷ after))
raised-IsTracked io doc before lease after seen readable fits t (ok (to n)) e =
    let r = raise_above-IsRaised io lease seen doc (rw readable fits) in
    let (_, above, _, doc_eq, own_eq, _) = r.raises n e in
    rw doc_eq (record {
      below =
          All-replace (λ m. m.incarnation ≤ recorded (document n)) before lease _ after
            (All-imp (λ m h. omega (arith, above, read_back io doc readable, recorded-document n))
              (before ++ (lease ∷ after)) t.below)
            (omega (arith, own_eq, recorded-document n));
      apart = NoneShared-replace before lease _ after t.apart (
          All-imp (λ m h. omega (arith, above, read_back io doc readable, own_eq))
            (before ++ (lease ∷ after)) t.below);
      readable = inr (n, refl);
    })
raised-IsTracked io doc before lease after seen readable fits t (ok (lost by)) e =
    let r = raise_above-IsRaised io lease seen doc (rw readable fits) in
    let (_, _, doc_eq, own_eq) = r.loses by e in rw (doc_eq, own_eq) t
raised-IsTracked io doc before lease after seen readable fits t failed e =
    let r = raise_above-IsRaised io lease seen doc (rw readable fits) in
    let (doc_eq, own_eq) = r.fails e in rw (doc_eq, own_eq) t

-- A lease below the document's incarnation does not hold the store.
none_held :
    (n : ℕ) (ls : List Lease)
    → All (λ (l : Lease). l.incarnation ≤ n) ls
    → All (λ (l : Lease). l.incarnation ≢ n) ls
    → count_if (λ (l : Lease). held l (document n)) ls ≡ 0
unfolding held
none_held n [] below other = refl
none_held n (l ∷ ls) below other = ground (arith, none_held n ls below.1 other.1)

-- Of leases at most as high as the document and not shared, at most one holds the store.
holders :
    (n : ℕ) (ls : List Lease)
    → All (λ (l : Lease). l.incarnation ≤ n) ls
    → NoneShared ls
    → count_if (λ (l : Lease). held l (document n)) ls ≤ 1
unfolding held
holders n [] below apart = omega arith
holders n (l ∷ ls) below apart = elim (Bool-cases (leb n l.incarnation)) [
  | inl top ↦
      let e : l.incarnation ≡ n = ground arith in
      let rest : All (λ (m : Lease). m.incarnation ≢ n) ls =
        All-imp (λ m ne. omega arith) ls apart.0 in
      rw top (omega (arith, none_held n ls below.1 rest))
  | inr under ↦ rw under (holders n ls below.1 apart.1)
]

pub tracked_holders :
    (doc : LeaseDoc) (leases : List Lease)
    → IsTracked doc leases
    → count_if (λ (l : Lease). held l doc) leases ≤ 1
tracked_holders doc leases t = elim t.readable [
  | inl none_yet ↦ rw none_yet (omega arith)
  | inr (n, e) ↦ rw e (
      holders n leases
        (All-imp (λ m h. omega (arith, ap recorded e, recorded-document n)) leases t.below) t.apart)
]
