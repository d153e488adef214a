-- ===== src/Tamotsu/Authority.antt =====
-- tamotsu/src/authority.rs: what a daemon knows of its lease on the session store. All its panes
-- share it. The switch of the benchmark that turns the lease off is not in the built program.
use tear.Base.{ℕ, Bool, true, false, List, [], ◌∷◌, Option, none, some, if◌then◌else◌}
use tear.Makimono.Lease.{
  LeaseDoc, IoResult, ok, failed, Lease, LeaseIo, Raised, to, current, held, raise_above,
}

-- Whether a callback waits in `on_lost`, and what callbacks were given, the latest first.
pub record Authority : Type 0 where
  pub lease : Option Lease
  pub lost : Bool
  pub waits : Bool
  pub told : List ℕ

pub data Verdict : Type 0 where
  retry lost : Verdict

-- `Authority::with`
unfoldable pub with_lease : Option Lease → Authority
with_lease lease = record { lease = lease; lost = false; waits = false; told = [] }

-- `Authority::on_lost`
unfoldable pub on_lost : Authority → Authority
on_lost a = record a { waits = true }

-- `Authority::declared`
abbrev pub declared : Authority → Option ℕ
declared a = elim a.lease [ none ↦ none | some lease ↦ some lease.incarnation ]

-- The incarnation that `holds` names to `lose`.
unfoldable pub newest : LeaseDoc → ℕ
unfolding current
newest doc = elim (current doc) [ ok found ↦ elim found [ some n ↦ n | none ↦ 0 ] | failed ↦ 0 ]

-- `Authority::lose`
unfoldable pub lose : ℕ → Authority → Authority
lose by a =
    if a.lost
    then a
    else record a { lost = true; waits = false; told = if a.waits then by ∷ a.told else a.told }

-- `Authority::holds`
unfoldable pub holds : LeaseDoc → Authority → Authority × Bool
unfolding held newest lose
holds doc a = elim a.lease [
  | none ↦ (a, true)
  | some lease ↦
      if a.lost
      then (a, false)
      else if held lease doc
      then (a, true)
      else (lose (newest doc) a, false)
]

-- `Authority::displaced` once there is a lease to raise.
unfoldable pub displaced_from :
    ℕ → Authority → LeaseDoc × Lease × IoResult Raised → LeaseDoc × Authority × Verdict
unfolding lose
displaced_from by a (doc, own, failed) =
    (doc, lose by (record a { lease = some own }), Verdict.lost)
displaced_from by a (doc, own, ok (to n)) = (doc, record a { lease = some own }, retry)
displaced_from by a (doc, own, ok (Raised.lost newer)) =
    (doc, lose newer (record a { lease = some own }), Verdict.lost)

-- `Authority::displaced`
unfoldable pub displaced : LeaseIo → ℕ → LeaseDoc → Authority → LeaseDoc × Authority × Verdict
unfolding displaced_from raise_above
displaced io by doc a = if a.lost then (doc, a, Verdict.lost) else elim a.lease [
  | none ↦ (doc, a, Verdict.lost)
  | some lease ↦ displaced_from by a (raise_above io lease by doc)
]
