-- ===== src/TearCore/Reachable/Owned.antt =====
-- Terminals and the records of panes (tear-core/src/inproc.rs): which changes of the registry keep a
-- pane's record, and what it is for every terminal to belong to a recorded pane.
use tear.Base.{nat_eq, ◌≡◌, ◌∙◌, ◌∷◌, ◌==◌}
use tear.Base.{
  ℕ, refl, sym, subst, Bool, true, false, [], Option, none, some, arith, inl, inr, Bool-cases,
}
use tear.Base.Maps.{
  BTreeMap, AllAbove, Ascending, get, insert, contains_key, modify, remove, modify_first,
}
use tear.Base.Maps.Entries.{AllAbove-absent}
use tear.TearCore.Registry.{Registry}
use tear.TearTypes.Session.{TearSession, Freio}
use tear.TearCore.Arranging.Steady.{IsSteady}
use tear.TearCore.Runtime.{InProcess, in_registry}
use tear.TearCore.Brake.{brake_sessions}

pub remove_absent : {V : Type 0} (k : ℕ) (m : BTreeMap V) → get k m ≡ none → remove k m ≡ m
remove_absent k [] h = refl
remove_absent k ((j, v) ∷ m) h = ground (arith, remove_absent k m)

pub modify_absent :
    {V : Type 0} (k : ℕ) (g : V → V) (m : BTreeMap V) → get k m ≡ none → modify k g m ≡ m
modify_absent k g [] h = refl
modify_absent k g ((j, v) ∷ m) h = ground (arith, modify_absent k g m)

pub remove_fresh : {V : Type 0} (k : ℕ) (m : BTreeMap V) → contains_key k m ≡ false → remove k m ≡ m
remove_fresh k [] h = refl
remove_fresh k ((j, w) ∷ m) h = ground (arith, remove_fresh k m)

pub remove-insert :
    {V : Type 0} (k : ℕ) (v : V) (m : BTreeMap V)
    → contains_key k m ≡ false
    → remove k (insert k v m) ≡ m
remove-insert k v [] h = ground arith
remove-insert k v ((j, w) ∷ m) h = ground (arith, remove-insert k v m, remove_fresh k m)

pub remove-modify :
    {V : Type 0} (k : ℕ) (g : V → V) (m : BTreeMap V) → remove k (modify k g m) ≡ remove k m
remove-modify k g [] = refl
remove-modify k g ((j, w) ∷ m) = ground (arith, remove-modify k g m)

module _ {Num : Type 0} where
  pub in_registry-modify_first :
      (pane : ℕ) (test : TearSession Num → Bool) (g : TearSession Num → TearSession Num)
      (r : Registry Num)
      → ((s : TearSession Num) → contains_key pane (g s).panes ≡ contains_key pane s.panes)
      → in_registry pane (modify_first test g r) ≡ in_registry pane r
  in_registry-modify_first pane test g [] h = refl
  in_registry-modify_first pane test g ((j, s) ∷ r) h =
      ground (arith, h s, in_registry-modify_first pane test g r h)

  -- A session that does not record the pane leaves the registry.
  pub in_registry-remove :
      (pane sid : ℕ) (s : TearSession Num) (r : Registry Num)
      → Ascending r
      → get sid r ≡ some s
      → contains_key pane s.panes ≡ false
      → in_registry pane (remove sid r) ≡ in_registry pane r
  in_registry-remove pane sid s [] asc at lacks = absurd (cc at)
  in_registry-remove pane sid s ((j, u) ∷ r) asc at lacks = elim (Bool-cases (j == sid)) [
    | inl here ↦ ground (arith, remove_absent sid r (first_only (ground arith)), at, lacks)
    | inr later ↦ ground (arith, in_registry-remove pane sid s r asc.1)
  ]
    where
      first_only : j ≡ sid → get sid r ≡ none
      first_only e = AllAbove-absent sid r (subst (λ (k : ℕ). AllAbove k r) e asc.0)

  -- Each terminal belongs to a pane that some session records.
  abbrev pub AreOwned : InProcess Num → Type 0
  AreOwned st = (pane : ℕ) → contains_key pane st.ptys ≡ true → in_registry pane st.registry ≡ true

  pub IsSteady-AreOwned : (st t : InProcess Num) → IsSteady st t → AreOwned st → AreOwned t
  IsSteady-AreOwned st t same own pane h =
      same.recorded pane ∙ own pane (sym (same.terminals pane) ∙ h)

  -- A change of sessions that drops no record of the pane.
  pub in_registry-grow :
      (pane k : ℕ) (g : TearSession Num → TearSession Num) (r : Registry Num)
      → ((s : TearSession Num)
          → get k r ≡ some s
          → contains_key pane s.panes ≡ true
          → contains_key pane (g s).panes ≡ true)
      → Ascending r
      → in_registry pane r ≡ true
      → in_registry pane (modify k g r) ≡ true
  in_registry-grow pane k g [] h asc has = has
  in_registry-grow pane k g ((j, s) ∷ r) h asc has = elim (Bool-cases (j == k)) [
    | inl here ↦
        let rest : modify k g r ≡ r = modify_absent k g r (first_only (ground arith)) in
        ground (arith, h s, rest)
    | inr later ↦
        ground (arith, in_registry-grow pane k g r (λ u at. h u (ground (arith, at))) asc.1)
  ]
    where
      first_only : j ≡ k → get k r ≡ none
      first_only e = AllAbove-absent k r (subst (λ (i : ℕ). AllAbove i r) e asc.0)

  pub in_registry-insert :
      (pane k : ℕ) (s : TearSession Num) (r : Registry Num)
      → contains_key k r ≡ false
      → in_registry pane r ≡ true
      → in_registry pane (insert k s r) ≡ true
  in_registry-insert pane k s [] new has = absurd (cc has)
  in_registry-insert pane k s ((j, u) ∷ r) new has = ground (arith, in_registry-insert pane k s r)

  pub in_registry-brake_sessions :
      (pane : ℕ) (session : Option ℕ) (brake : Freio) (r : Registry Num)
      → in_registry pane (brake_sessions session brake r) ≡ in_registry pane r
  unfolding brake_sessions
  in_registry-brake_sessions pane session brake [] = refl
  in_registry-brake_sessions pane session brake ((j, s) ∷ r) =
      ground (arith, in_registry-brake_sessions pane session brake r)
