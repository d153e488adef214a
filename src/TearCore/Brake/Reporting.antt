-- ===== src/TearCore/Brake/Reporting.antt =====
-- What `set_freio` of tear-core/src/inproc.rs reports for one session, and `TearSession::unbrakable`.
use tear.Base.{
  ℕ, ◌≡◌, refl, subst, ◌∙◌, true, List, [], ◌∷◌, some, none, arith, nat_eq, append-nil, Bool-cases,
  inl, inr, ◌==◌, elem, Distinct, ap, false,
}
use tear.Base.Maps.{BTreeMap, get, Ascending, AllAbove}
use tear.Base.Maps.Entries.{AllAbove-absent}
use tear.Kukaku.Float.{Float}
use tear.TearTypes.Pane.{TearPane, is_automation, is_unknown}
use tear.TearTypes.Session.{TearSession, unbrakable, unbrakable_panes}
use tear.TearCore.Registry.{Registry}
use tear.TearCore.Runtime.{InProcess}
use tear.TearCore.Brake.{braked_panes, unreached_panes, collect_panes, set_freio}
use tear.TearCore.Validity.{RegistryIsValid}

unreached_panes-unbrakable_panes : (m : BTreeMap TearPane) → unreached_panes m ≡ unbrakable_panes m
unfolding unreached_panes unbrakable_panes
unreached_panes-unbrakable_panes [] = refl
unreached_panes-unbrakable_panes ((k, p) ∷ m) = ground (arith, unreached_panes-unbrakable_panes m)

-- A pane is reported exactly if the map has it and its origin passes the test; and once.
elem-braked_panes :
    (q : ℕ) (m : BTreeMap TearPane)
    → Ascending m
    → elem q (braked_panes m) ≡ (elim (get q m) [ none ↦ false | some p ↦ is_automation p.yurai ])
unfolding braked_panes
elem-braked_panes q [] asc = refl
elem-braked_panes q ((k, p) ∷ m) asc =
    ground (arith, elem-braked_panes q m asc.1, AllAbove-absent k m asc.0)

elem-unreached_panes :
    (q : ℕ) (m : BTreeMap TearPane)
    → Ascending m
    → elem q (unreached_panes m) ≡ (elim (get q m) [ none ↦ false | some p ↦ is_unknown p.yurai ])
unfolding unreached_panes
elem-unreached_panes q [] asc = refl
elem-unreached_panes q ((k, p) ∷ m) asc =
    ground (arith, elem-unreached_panes q m asc.1, AllAbove-absent k m asc.0)

braked_panes-Distinct : (m : BTreeMap TearPane) → Ascending m → Distinct (braked_panes m)
unfolding braked_panes
braked_panes-Distinct [] asc = tt
braked_panes-Distinct ((k, p) ∷ m) asc =
    ground
      (arith, braked_panes-Distinct m asc.1, elem-braked_panes k m asc.1, AllAbove-absent k m asc.0)

unreached_panes-Distinct : (m : BTreeMap TearPane) → Ascending m → Distinct (unreached_panes m)
unfolding unreached_panes
unreached_panes-Distinct [] asc = tt
unreached_panes-Distinct ((k, p) ∷ m) asc = ground (
  arith,
  unreached_panes-Distinct m asc.1,
  elem-unreached_panes k m asc.1,
  AllAbove-absent k m asc.0,
)

module _ {Num : Type 0} where
  collect_panes-absent :
      (pick : BTreeMap TearPane → List ℕ) (sid : ℕ) (r : Registry Num)
      → get sid r ≡ none
      → collect_panes pick (some sid) true r ≡ []
  unfolding collect_panes
  collect_panes-absent pick sid [] h = refl
  collect_panes-absent pick sid ((j, u) ∷ r) h = ground (arith, collect_panes-absent pick sid r)

  collect_panes-session :
      (pick : BTreeMap TearPane → List ℕ) (sid : ℕ) (s : TearSession Num) (r : Registry Num)
      → Ascending r
      → get sid r ≡ some s
      → collect_panes pick (some sid) true r ≡ pick s.panes
  unfolding collect_panes
  collect_panes-session pick sid s [] asc at = absurd (cc at)
  collect_panes-session pick sid s ((j, u) ∷ r) asc at = elim (Bool-cases (j == sid)) [
    | inl here ↦ ground (
      arith,
      collect_panes-absent pick sid r,
      first_only (ground arith),
      append-nil (pick u.panes),
      at,
    )
    | inr later ↦ ground (arith, collect_panes-session pick sid s r asc.1)
  ]
    where
      first_only : j ≡ sid → get sid r ≡ none
      first_only e = AllAbove-absent sid r (subst (λ (k : ℕ). AllAbove k r) e asc.0)

module _ {Num : Type 0} ⦃f : Float Num⦄ where
  -- Engaging the brake on one session of a valid registry, with the session's panes in the order of
  -- their ids, reports as braked exactly the panes of the session that automation drives, and as out
  -- of reach exactly those of unknown origin, each once. The latter are what the session's `unbrakable`
  -- names, in the same order.
  pub set_freio-Reports :
      (at_unix sid : ℕ) (st : InProcess Num) (s : TearSession Num)
      → RegistryIsValid st.registry
      → get sid st.registry ≡ some s
      → Ascending s.panes
      → ((pane : ℕ)
          → elem pane (set_freio at_unix (some sid) true st).2
            ≡ (elim (get pane s.panes) [ none ↦ false | some p ↦ is_automation p.yurai ]))
        × ((pane : ℕ)
            → elem pane (set_freio at_unix (some sid) true st).3
              ≡ (elim (get pane s.panes) [ none ↦ false | some p ↦ is_unknown p.yurai ]))
        × Distinct (set_freio at_unix (some sid) true st).2
        × Distinct (set_freio at_unix (some sid) true st).3
        × ((set_freio at_unix (some sid) true st).3 ≡ unbrakable s)
  unfolding set_freio unbrakable
  set_freio-Reports at_unix sid st s v at asc =
      let braked = collect_panes-session braked_panes sid s st.registry v.ordered at in
      let unreached = collect_panes-session unreached_panes sid s st.registry v.ordered at in
      (
        λ pane. ap (elem pane) braked ∙ elem-braked_panes pane s.panes asc,
        λ pane. ap (elem pane) unreached ∙ elem-unreached_panes pane s.panes asc,
        rw braked (braked_panes-Distinct s.panes asc),
        rw unreached (unreached_panes-Distinct s.panes asc),
        unreached ∙ unreached_panes-unbrakable_panes s.panes,
      )
