-- ===== src/TearCore/Validity/Panes.antt =====
-- Changes of one session that keep `AreValid`: a pane that one window gains or loses.
use mathlib.Core.Path.{◌∙◌}
use tear.Base.{
  ℕ, ◌≡◌, ◌≢◌, ◌⊎◌, inl, inr, sym, true, false, some, arith, nat_eq, ◌==◌, ==_iff, Bool-cases,
}
use tear.Base.Maps.{BTreeMap, get, contains_key, modify, get-modify, contains-modify}
use tear.Base.Maps.Entries.{get-modify_cases, modify-Ascending}
use tear.Kukaku.Float.{Float}
use tear.TearTypes.Pane.{TearPane}
use tear.TearTypes.Session.{TearWindow}
use tear.TearCore.Validity.{shows, WindowIsValid, AreValid}

-- One window and the records change at one pane alone, in the same way.
module _ {Num : Type 0} ⦃f : Float Num⦄ (wid id : ℕ) (change : TearWindow Num → TearWindow Num)
    (windows : BTreeMap (TearWindow Num)) (records records' : BTreeMap TearPane) (active_window : ℕ)
    (w₀ : TearWindow Num) (there : get wid windows ≡ some w₀)
    (changed_valid : WindowIsValid (change w₀))
    (shows_rest : (q : ℕ) → id ≢ q → shows (change w₀) q ≡ shows w₀ q)
    (has_rest : (q : ℕ) → id ≢ q → contains_key q records' ≡ contains_key q records)
    (agree : shows (change w₀) id ≡ contains_key id records')
    (only_here : (j : ℕ) (w : TearWindow Num)
      → get j windows ≡ some w
      → wid ≢ j
      → shows w id ≡ false)
    (v : AreValid windows records active_window) where
  -- An entry of the changed map is the changed window, or an old one of another id.
  abbrev Origin : ℕ → TearWindow Num → Type 0
  Origin j w' = ((wid ≡ j) × (w' ≡ change w₀)) ⊎ ((wid ≢ j) × (get j windows ≡ some w'))

  origin : (j : ℕ) (w' : TearWindow Num) → get j (modify wid change windows) ≡ some w' → Origin j w'
  origin j w' at = elim (get-modify_cases wid j change windows w' at) [
    | inl (e, (w, found, is)) ↦ inl (e, cc (there, found, is, e))
    | inr miss ↦ inr miss
  ]

  at_wid : get wid (modify wid change windows) ≡ some (change w₀)
  at_wid = ground (arith, get-modify wid wid change windows, there)

  recorded' :
      (j : ℕ) (w' : TearWindow Num)
      → get j (modify wid change windows) ≡ some w'
      → (pane : ℕ) → shows w' pane ≡ true
      → contains_key pane records' ≡ true
  recorded' j w' at pane s = elim (Bool-cases (id == pane)) [
    | inl hit ↦
        let e : id ≡ pane = (==_iff id pane).0 hit in
        elim (origin j w' at) [
          | inl (here, is) ↦ rw (← e) (sym agree ∙ (rw (← is, e) s))
          | inr (ne, found) ↦ absurd (cc (only_here j w' found ne, e, s))
        ]
    | inr miss ↦
        let ne : id ≢ pane = ground arith in
        has_rest pane ne ∙ elim (origin j w' at) [
          | inl (here, is) ↦ v.recorded wid w₀ there pane (sym (shows_rest pane ne) ∙ (rw (← is) s))
          | inr (other, found) ↦ v.recorded j w' found pane s
        ]
  ]

  shown' :
      (pane : ℕ)
      → contains_key pane records' ≡ true
      → (j : ℕ) × (w' : TearWindow Num) × (get j (modify wid change windows) ≡ some w')
        × (shows w' pane ≡ true)
  shown' pane has = elim (Bool-cases (id == pane)) [
    | inl hit ↦
        let e : id ≡ pane = (==_iff id pane).0 hit in
        (wid, change w₀, at_wid, rw (← e) (agree ∙ (rw e has)))
    | inr miss ↦
        let ne : id ≢ pane = ground arith in
        let (j, w, found, s) = v.shown pane (sym (has_rest pane ne) ∙ has) in
        elim (Bool-cases (wid == j)) [
          | inl here ↦
              let e : wid ≡ j = (==_iff wid j).0 here in
              let same : w ≡ w₀ = cc (there, found, e) in
              (wid, change w₀, at_wid, shows_rest pane ne ∙ (rw (← same) s))
          | inr other ↦ (j, w, ground (arith, get-modify wid j change windows), s)
        ]
  ]

  -- A window that shows the pane at which the change happens is the changed one.
  here_only :
      (j : ℕ) (w : TearWindow Num)
      → get j (modify wid change windows) ≡ some w
      → shows w id ≡ true
      → wid ≡ j
  here_only j w at s = elim (origin j w at) [
    | inl (here, is) ↦ here
    | inr (ne, found) ↦ absurd (cc (only_here j w found ne, s))
  ]

  before :
      (j : ℕ) (w : TearWindow Num) (pane : ℕ)
      → get j (modify wid change windows) ≡ some w
      → id ≢ pane
      → shows w pane ≡ true
      → (u : TearWindow Num) × (get j windows ≡ some u) × (shows u pane ≡ true)
  before j w pane at ne s = elim (origin j w at) [
    | inl (here, is) ↦ (w₀, rw (← here) there, sym (shows_rest pane ne) ∙ (rw (← is) s))
    | inr (other, found) ↦ (w, found, s)
  ]

  pub pane-AreValid : AreValid (modify wid change windows) records' active_window
  pane-AreValid = record {
    ordered = modify-Ascending wid change windows v.ordered;
    valid = λ j w' at. elim (origin j w' at) [
      | inl (here, is) ↦ rw is changed_valid
      | inr (ne, found) ↦ v.valid j w' found
    ];
    recorded = recorded';
    shown = shown';
    once = λ j j' w w' at at' pane s s'. elim (Bool-cases (id == pane)) [
      | inl hit ↦
          let e : id ≡ pane = (==_iff id pane).0 hit in
          sym (here_only j w at (rw e s)) ∙ here_only j' w' at' (rw e s')
      | inr miss ↦
          let ne : id ≢ pane = ground arith in
          let (u, found, su) = before j w pane at ne s in
          let (u', found', su') = before j' w' pane at' ne s' in
          v.once j j' u u' found found' pane su su'
    ];
    focus = elim v.focus [
      | inl (none_yet, null) ↦ absurd (cc (there, none_yet))
      | inr at ↦ inr (contains-modify wid active_window change windows ∙ at)
    ];
  }
