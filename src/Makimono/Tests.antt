-- ===== src/Makimono/Tests.antt =====
-- The lease of makimono/src/lease.rs at concrete inputs.
use tear.Base.{
  ℕ, some, none, refl, if◌then◌else◌, ◌&&◌, ◌≡◌, ◌≤◌, ◌+◌, arith, true, false, [], ◌∷◌, count_if,
}
use tear.Makimono.Lease.{
  document, absent, ok, failed, LeaseIo, Lease, take, held, raise_above, recorded, read_by,
}
use tear.Makimono.Lease.Raising.{take_outcome, IsRaised, raise_above-IsRaised}
use tear.Makimono.Lease.Tracked.{NoneShared}
use tear.Makimono.Lease.Exclusion.{
  authority_of, Daemons, Step, Reach, here, next, leases_of, has_no_lease, Reach-exclusive,
}
use tear.Tamotsu.Authority.{Authority, holds}

abbrev io : LeaseIo
io = record { lock_ok = true; read_ok = true; write_ok = true }

abbrev third : Lease
third = record { incarnation = 3 }

take_outcome_example :
    ((lease : Lease)
      → (take io (document 3)).1 ≡ ok lease
      → ((take io (document 3)).0 ≡ document lease.incarnation)
        × (lease.incarnation ≡ recorded (read_by io (document 3)) + 1)
        × (held lease (take io (document 3)).0 ≡ true)
        × ((older : Lease)
            → older.incarnation ≤ recorded (read_by io (document 3))
            → held older (take io (document 3)).0 ≡ false))
    × ((take io (document 3)).1 ≡ failed → (take io (document 3)).0 ≡ document 3)
    × ((take io (document 3)).1 ≡ (
        if io.lock_ok && io.write_ok
        then ok (record { incarnation = recorded (read_by io (document 3)) + 1 })
        else failed))
unfolding recorded
take_outcome_example = take_outcome io (document 3) (omega arith)

raise_above-IsRaised_example :
    IsRaised io third 7 (document 3) (raise_above io third 7 (document 3))
unfolding recorded
raise_above-IsRaised_example = raise_above-IsRaised io third 7 (document 3) (omega arith)

-- Two daemons start, of which the first one is then below the document, and a third one that cannot
-- write the document and goes on without a lease.
abbrev started : ℕ → Authority
started n = record {
  lease = some (record { incarnation = n });
  lost = false;
  waits = false;
  told = [];
}

abbrev unleased : Authority
unleased = record { lease = none; lost = false; waits = false; told = [] }

abbrev unwritable : LeaseIo
unwritable = record { lock_ok = true; read_ok = true; write_ok = false }

abbrev three_daemons : Daemons
three_daemons = record { doc = document 2; authorities = unleased ∷ started 2 ∷ started 1 ∷ [] }

three_daemons-Reach : Reach (record { doc = absent; authorities = [] }) three_daemons
unfolding take recorded authority_of
three_daemons-Reach =
    next
      (next
        (next here (Step.starts (record { doc = absent; authorities = [] }) io refl (omega arith)))
        (Step.starts (record { doc = document 1; authorities = started 1 ∷ [] }) io refl
          (omega arith)))
      (Step.starts (record { doc = document 2; authorities = started 2 ∷ started 1 ∷ [] })
        unwritable refl (omega arith))

Reach-exclusive_example :
    NoneShared (leases_of three_daemons.authorities)
    × (count_if has_no_lease three_daemons.authorities
        ≤ count_if (λ a. (holds three_daemons.doc a).1) three_daemons.authorities)
    × (count_if (λ a. (holds three_daemons.doc a).1) three_daemons.authorities
        ≤ count_if has_no_lease three_daemons.authorities + 1)
Reach-exclusive_example = Reach-exclusive three_daemons-Reach

-- The daemon without a lease and the last one that got one both hold the store.
two_hold : count_if (λ a. (holds three_daemons.doc a).1) three_daemons.authorities ≡ 2
unfolding holds held
two_hold = refl

-- A read that fails, although the document is there, takes an incarnation that was taken before; the
-- daemon with the higher one then holds the store as well.
abbrev unread : LeaseIo
unread = record { lock_ok = true; read_ok = false; write_ok = true }

taken_again : take unread (document 3) ≡ (document 1, ok (record { incarnation = 1 }))
unfolding take recorded
taken_again = refl

third_holds : held third (take unread (document 3)).0 ≡ true
unfolding take recorded held
third_holds = refl
