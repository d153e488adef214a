-- ===== src/Makimono/Lease/Exclusion.antt =====
-- Many daemons on one store: any sequence of their starts and of the calls of tamotsu/src/authority.rs
-- by any of them, over the shared document of makimono/src/lease.rs. The lock makes each call one step.
use tear.Base.{
  ℕ, ◌+◌, ◌≤◌, ◌<◌, ◌≡◌, ◌⊎◌, inl, inr, refl, Bool, true, false, List, [], ◌∷◌, ◌++◌, none, some,
  arith, max, count_if, Option-cases, Bool-cases, subst,
}
use tear.Makimono.Lease.{
  LeaseDoc, IoResult, ok, failed, LeaseIo, Lease, Raised, recorded, held, take, raise_above,
  u64_mod,
}
use tear.Makimono.Lease.Tracked.{
  with_lease, NoneShared, IsTracked, taken-IsTracked, raised-IsTracked, tracked_holders,
}
use tear.Tamotsu.Authority
use tear.Tamotsu.Authority.{Authority, holds, displaced, displaced_from, lose, newest}

-- The `match` on `take_lease` of tear-daemon/src/durability.rs: a daemon that gets no lease goes on
-- without one.
unfoldable pub authority_of : IoResult Lease → Authority
unfolding Authority.with_lease
authority_of (ok lease) = Authority.with_lease (some lease)
authority_of failed = Authority.with_lease none

-- The document, and the authority of each daemon, the latest first.
pub record Daemons : Type 0 where
  pub doc : LeaseDoc
  pub authorities : List Authority

-- A daemon starts, and gets its lease or not; a holder tells one of the daemons that it is displaced;
-- or one of them asks whether it holds the store. Every read of the document succeeds.
pub data Step : Daemons → Daemons → Type 0 where
  starts :
      (s : Daemons) (io : LeaseIo)
      → io.read_ok ≡ true
      → recorded s.doc + 1 < u64_mod
      → Step s (record {
        doc = (take io s.doc).0;
        authorities = authority_of (take io s.doc).1 ∷ s.authorities;
      })
  is_displaced :
      (doc : LeaseDoc) (before : List Authority) (a : Authority) (after : List Authority)
      (io : LeaseIo) (by : ℕ)
      → io.read_ok ≡ true
      → ((lease : Lease)
          → a.lease ≡ some lease
          → max (max (recorded doc) by) lease.incarnation + 1 < u64_mod)
      → Step
          (record { doc = doc; authorities = before ++ (a ∷ after) })
          (record {
            doc = (displaced io by doc a).0;
            authorities = before ++ ((displaced io by doc a).1 ∷ after);
          })
  asks :
      (doc : LeaseDoc) (before : List Authority) (a : Authority) (after : List Authority)
      → Step
          (record { doc = doc; authorities = before ++ (a ∷ after) })
          (record { doc = doc; authorities = before ++ ((holds doc a).0 ∷ after) })

pub data Reach (s : Daemons) : Daemons → Type 0 where
  here : Reach s s
  next : {t u : Daemons} → Reach s t → Step t u → Reach s u

-- The leases of the daemons that have one.
abbrev pub leases_of : List Authority → List Lease
leases_of [] = []
leases_of (a ∷ more) =
    let rest = leases_of more in elim a.lease [ none ↦ rest | some lease ↦ lease ∷ rest ]

abbrev pub has_no_lease : Authority → Bool
has_no_lease a = elim a.lease [ none ↦ true | some lease ↦ false ]

leases_of-append : (xs ys : List Authority) → leases_of (xs ++ ys) ≡ leases_of xs ++ leases_of ys
leases_of-append [] ys = refl
leases_of-append (a ∷ xs) ys = ground (arith, leases_of-append xs ys)

-- An authority in the place of another one with the same lease.
leases_of-same :
    (before after : List Authority) (a a' : Authority)
    → a'.lease ≡ a.lease
    → leases_of (before ++ (a' ∷ after)) ≡ leases_of (before ++ (a ∷ after))
leases_of-same [] after a a' same = rw same refl
leases_of-same (b ∷ before) after a a' same = ground (arith, leases_of-same before after a a' same)

leases_of-at :
    (before after : List Authority) (a : Authority) (lease : Lease)
    → a.lease ≡ some lease
    → leases_of (before ++ (a ∷ after)) ≡ leases_of before ++ (lease ∷ leases_of after)
leases_of-at before after a lease has = rw leases_of-append (rw has refl)

holds-lease : (doc : LeaseDoc) (a : Authority) → (holds doc a).0.lease ≡ a.lease
unfolding holds lose
holds-lease doc a = ground arith

displaced_from-keeps :
    (by : ℕ) (a : Authority) (doc : LeaseDoc) (own : Lease) (result : IoResult Raised)
    → ((displaced_from by a (doc, own, result)).0 ≡ doc)
      × ((displaced_from by a (doc, own, result)).1.lease ≡ some own)
unfolding displaced_from lose
displaced_from-keeps by a doc own failed = ground arith
displaced_from-keeps by a doc own (ok (Raised.to n)) = (refl, refl)
displaced_from-keeps by a doc own (ok (Raised.lost newer)) = ground arith

-- What `displaced` does to the document and the lease: nothing, or what `raise_above` does.
displaced-raises :
    (io : LeaseIo) (by : ℕ) (doc : LeaseDoc) (a : Authority)
    → (((displaced io by doc a).0 ≡ doc) × ((displaced io by doc a).1.lease ≡ a.lease))
      ⊎ ((lease : Lease) × (a.lease ≡ some lease)
          × ((displaced io by doc a).0 ≡ (raise_above io lease by doc).0)
          × ((displaced io by doc a).1.lease ≡ some (raise_above io lease by doc).1))
unfolding displaced
displaced-raises io by doc a = elim (Bool-cases a.lost) [
  | inl gone ↦ inl (rw gone (refl, refl))
  | inr kept ↦ elim (Option-cases a.lease) [
    | inl undeclared ↦ inl (rw (kept, undeclared) (refl, undeclared))
    | inr (lease, has) ↦
        let (doc', own, result) = raise_above io lease by doc in
        let (doc_eq, own_eq) = displaced_from-keeps by a doc' own result in
        inr (lease, has, rw (kept, has) doc_eq, rw (kept, has) own_eq)
  ]
]

AreTracked : Daemons → Type 0
AreTracked s = IsTracked s.doc (leases_of s.authorities)

leases_of-authority_of :
    (result : IoResult Lease) (more : List Authority)
    → leases_of (authority_of result ∷ more) ≡ with_lease result (leases_of more)
unfolding authority_of
leases_of-authority_of (ok lease) more = refl
leases_of-authority_of failed more = refl

Step-AreTracked : {s t : Daemons} → Step s t → AreTracked s → AreTracked t
unfolding AreTracked
Step-AreTracked (starts s io readable fits) h =
    rw leases_of-authority_of
      (taken-IsTracked io s.doc (leases_of s.authorities) readable fits h _ refl)
Step-AreTracked (is_displaced doc before a after io by readable fits) h =
    elim (displaced-raises io by doc a) [
      | inl (same_doc, same) ↦
          rw (same_doc, leases_of-same before after a (displaced io by doc a).1 same) h
      | inr (lease, has, raised, own) ↦
          let tracked : IsTracked doc (leases_of before ++ (lease ∷ leases_of after)) =
            subst (IsTracked doc) (leases_of-at before after a lease has) h in
          rw (raised, leases_of-at before after (displaced io by doc a).1 _ own)
            (raised-IsTracked io doc (leases_of before) lease (leases_of after) by readable
              (fits lease has) tracked _ refl)
    ]
Step-AreTracked (asks doc before a after) h =
    rw (leases_of-same before after a (holds doc a).0 (holds-lease doc a)) h

Reach-AreTracked : {s t : Daemons} → AreTracked s → Reach s t → AreTracked t
Reach-AreTracked h here = h
Reach-AreTracked h (next r st) = Step-AreTracked st (Reach-AreTracked h r)

-- A daemon that holds the store has no lease, or one that the document is not above.
holders_bound :
    (doc : LeaseDoc) (daemons : List Authority)
    → (count_if (λ a. (holds doc a).1) daemons
        ≤ count_if has_no_lease daemons + count_if (λ (l : Lease). held l doc) (leases_of daemons))
      × (count_if has_no_lease daemons ≤ count_if (λ a. (holds doc a).1) daemons)
unfolding holds
holders_bound doc [] = omega arith
holders_bound doc (a ∷ daemons) = elim (Option-cases a.lease) [
  | inl undeclared ↦ ground (arith, holders_bound doc daemons)
  | inr (lease, has) ↦ ground (arith, holders_bound doc daemons)
]

-- Start from a store with any document and no daemon on it, and let daemons start, with a lease or
-- without one, be told that they are displaced, and ask whether they hold the store, in any order and
-- with any failures of the lock and the writes, while the document is read whenever it is asked for
-- and the counter stays below its last value. No two daemons that have a lease ever have the same
-- incarnation. Every daemon that could get none holds the store, and of the others at most one does.
pub Reach-exclusive :
    {doc : LeaseDoc} {t : Daemons}
    → Reach (record { doc = doc; authorities = [] }) t
    → NoneShared (leases_of t.authorities)
      × (count_if has_no_lease t.authorities ≤ count_if (λ a. (holds t.doc a).1) t.authorities)
      × (count_if (λ a. (holds t.doc a).1) t.authorities ≤ count_if has_no_lease t.authorities + 1)
unfolding AreTracked
Reach-exclusive {t} r =
    let h = Reach-AreTracked (record { below = tt; apart = tt; readable = inl refl }) r in
    let (most, least) = holders_bound t.doc t.authorities in
    (h.apart, least, omega (arith, most, tracked_holders t.doc (leases_of t.authorities) h))
