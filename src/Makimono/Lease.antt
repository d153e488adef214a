-- ===== src/Makimono/Lease.antt =====
-- makimono/src/lease.rs: which daemon holds a session store. The lease document is the one file
-- that all daemons share; the lock serialises the operations that write it.
pub mod Raising
pub mod Tracked
pub mod Exclusion
use tear.Base.{
  ℕ, ◌+◌, ◌%◌, Bool, true, false, List, Option, none, some, if◌then◌else◌, leb, ltb, max, ◌≡◌, refl,
}

abbrev pub u64_mod : ℕ
u64_mod = 18446744073709551616

-- What reading `authority.json` gives: no file, a file that is no lease document or cannot be read,
-- or a document with its incarnation. The document's pid and time are not read back.
pub data LeaseDoc : Type 0 where
  absent unreadable : LeaseDoc
  document : ℕ → LeaseDoc

-- `io::Result`
pub data IoResult {ℓ} (A : Type ℓ) : Type ℓ where
  ok : A → IoResult A
  failed : IoResult A

-- The `?` operator.
abbrev pub and_then {ℓ κ} : {A : Type ℓ} {B : Type κ} → IoResult A → (A → IoResult B) → IoResult B
and_then (ok a) f = f a
and_then failed f = failed

pub and_then-eq-ok {ℓ κ} :
    {A : Type ℓ} {B : Type κ} (m : IoResult A) (f : A → IoResult B) {b : B}
    → and_then m f ≡ ok b
    → (a : A) × (m ≡ ok a) × (f a ≡ ok b)
and_then-eq-ok (ok a) f h = (a, refl, h)
and_then-eq-ok failed f h = cc

-- What the system answers to the calls of one operation: the lock, the read of the document, which
-- may fail although there is one, and the atomic write.
pub record LeaseIo : Type 0 where
  pub lock_ok : Bool
  pub read_ok : Bool
  pub write_ok : Bool

pub record Lease : Type 0 where
  pub incarnation : ℕ

pub data Raised : Type 0 where
  to : ℕ → Raised
  lost : ℕ → Raised

-- `Lease::current`, over `Lease::read`
unfoldable pub current : LeaseDoc → IoResult (Option ℕ)
current absent = ok none
current unreadable = failed
current (document n) = ok (some n)

-- `Lease::recorded`: an unreadable document is read as incarnation 0.
unfoldable pub recorded : LeaseDoc → ℕ
recorded absent = 0
recorded unreadable = 0
recorded (document n) = n

pub recorded-document : (n : ℕ) → recorded (document n) ≡ n
unfolding recorded
recorded-document n = refl

-- What a read of the document gives to one operation.
abbrev pub read_by : LeaseIo → LeaseDoc → LeaseDoc
read_by io doc = if io.read_ok then doc else unreadable

-- `u64` addition of one, which wraps.
abbrev pub next_u64 : ℕ → ℕ
next_u64 n = (n + 1) % u64_mod

-- `Lease::take`
unfoldable pub take : LeaseIo → LeaseDoc → LeaseDoc × IoResult Lease
take io doc =
    let next = next_u64 (recorded (read_by io doc)) in
    if io.lock_ok
    then (if io.write_ok
        then (document next, ok (record { incarnation = next }))
        else (doc, failed))
    else (doc, failed)

-- `Lease::held`
unfoldable pub held : Lease → LeaseDoc → Bool
unfolding current
held lease doc = elim (current doc) [
  | ok c ↦ elim c [ some n ↦ leb n lease.incarnation | none ↦ true ]
  | failed ↦ true
]

-- `Lease::raise_above`: the document, the lease and the result.
unfoldable pub raise_above : LeaseIo → Lease → ℕ → LeaseDoc → LeaseDoc × Lease × IoResult Raised
raise_above io lease seen doc =
    let mine = lease.incarnation in
    let seen_doc = recorded (read_by io doc) in
    let next = next_u64 (max (max seen_doc seen) mine) in
    if io.lock_ok
    then (if ltb mine seen_doc
        then (doc, lease, ok (lost seen_doc))
        else if io.write_ok
        then (document next, record { incarnation = next }, ok (to next))
        else (doc, lease, failed))
    else (doc, lease, failed)
