-- ===== src/Makimono/Lease/Raising.antt =====
-- `take` and `raise_above` of makimono/src/lease.rs, one call at a time.
use tear.Base.{ℕ, ◌+◌, ◌≤◌, ◌<◌, ◌≡◌, ◌&&◌, if◌then◌else◌, true, false, max, arith}
use tear.Makimono.Lease.{
  LeaseDoc, document, IoResult, ok, failed, LeaseIo, Lease, Raised, to, lost, recorded, held, take,
  raise_above, u64_mod, read_by,
}

-- What the document records is what the operation reads of it: nothing, where the read fails.
-- Below the last value of the counter: `take` gives a lease exactly if the lock is had and the write
-- succeeds. The lease is one above what the document recorded, is recorded, and holds the store, which
-- no lease that the document knew of then does; a `take` that fails leaves the document as it was.
pub take_outcome :
    (io : LeaseIo) (doc : LeaseDoc)
    → recorded (read_by io doc) + 1 < u64_mod
    → ((lease : Lease)
        → (take io doc).1 ≡ ok lease
        → ((take io doc).0 ≡ document lease.incarnation)
          × (lease.incarnation ≡ recorded (read_by io doc) + 1)
          × (held lease (take io doc).0 ≡ true)
          × ((older : Lease)
              → older.incarnation ≤ recorded (read_by io doc)
              → held older (take io doc).0 ≡ false))
      × ((take io doc).1 ≡ failed → (take io doc).0 ≡ doc)
      × ((take io doc).1 ≡ (
          if io.lock_ok && io.write_ok
          then ok (record { incarnation = recorded (read_by io doc) + 1 })
          else failed))
unfolding take held
take_outcome io doc fits = (
  λ lease h. (ground arith, ground arith, ground arith, λ older k. ground arith),
  λ h. ground arith,
  ground arith,
)

-- What `raise_above` does to a lease and the document.
pub record IsRaised (io : LeaseIo) (lease : Lease) (seen : ℕ) (doc : LeaseDoc)
    (result : LeaseDoc × Lease × IoResult Raised) : Type 0 where
  pub raises :
      (n : ℕ)
      → result.2 ≡ ok (to n)
      → (seen < n)
        × (recorded (read_by io doc) < n)
        × (lease.incarnation < n)
        × (result.0 ≡ document n)
        × (result.1.incarnation ≡ n)
        × (held result.1 result.0 ≡ true)
  pub loses :
      (by : ℕ)
      → result.2 ≡ ok (lost by)
      → (by ≡ recorded (read_by io doc))
        × (lease.incarnation < by)
        × (result.0 ≡ doc)
        × (result.1 ≡ lease)
  pub above_loses :
      io.lock_ok ≡ true
      → lease.incarnation < recorded (read_by io doc)
      → result.2 ≡ ok (lost (recorded (read_by io doc)))
  pub succeeds :
      io.lock_ok && io.write_ok ≡ true
      → recorded (read_by io doc) ≤ lease.incarnation
      → result.2 ≡ ok (to (max seen lease.incarnation + 1))
  pub fails : result.2 ≡ failed → (result.0 ≡ doc) × (result.1 ≡ lease)
  pub never_lowers :
      (recorded (read_by io doc) ≤ recorded result.0) × (lease.incarnation ≤ result.1.incarnation)

-- What the document records is what the operation reads of it: nothing, where the read fails.
-- Below the last value of the counter: with the lock and a write that succeeds, `raise_above` raises a
-- lease that the document is not above, to one above what it and the holder had. Where it raises, the
-- new incarnation is above the one that a holder had seen, above the document's and above the lease's
-- old one, is recorded, and holds the store; with the lock it reports a loss if the document is above
-- the lease, and a loss, like a failure, changes nothing. It never lowers the incarnation that it has
-- read, or the lease's.
pub raise_above-IsRaised :
    (io : LeaseIo) (lease : Lease) (seen : ℕ) (doc : LeaseDoc)
    → max (max (recorded (read_by io doc)) seen) lease.incarnation + 1 < u64_mod
    → IsRaised io lease seen doc (raise_above io lease seen doc)
unfolding raise_above held recorded
raise_above-IsRaised io lease seen doc fits = record {
  raises = λ n h. ground arith;
  loses = λ by h. ground arith;
  above_loses = λ locked above. ground arith;
  succeeds = λ ready known. ground arith;
  fails = λ h. ground arith;
  never_lowers = ground arith;
}
