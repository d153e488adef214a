-- ===== src/TearCore/Validity/Windows.antt =====
-- Changes of one session that keep `AreValid`: to a window, to the panes' records, a window opened
-- and a window closed.
use mathlib.Core.Path.{◌∙◌}
use tear.Base.{ℕ, ◌≡◌, inl, inr, refl, sym, ap, some, arith, elem, nat_eq, ◌==◌, ==_iff, Bool-cases}
use tear.Base.Maps.{BTreeMap, get, contains_key, modify, get-modify, contains-modify}
use tear.Base.Maps.Entries.{get-modify_cases, modify-Ascending}
use tear.Kukaku.Float.{Float}
use tear.Kukaku.Layout.{panes}
use tear.TearTypes.Pane.{TearPane}
use tear.TearTypes.Session.{TearWindow}
use tear.TearCore.Validity.{WindowIsValid, AreValid}

module _ {Num : Type 0} ⦃f : Float Num⦄ where
  -- A change of the panes' records that keeps which panes have one.
  pub records-AreValid :
      (windows : BTreeMap (TearWindow Num)) (records records' : BTreeMap TearPane)
      (active_window : ℕ)
      → ((pane : ℕ) → contains_key pane records' ≡ contains_key pane records)
      → AreValid windows records active_window
      → AreValid windows records' active_window
  records-AreValid windows records records' active_window same v = record {
    ordered = v.ordered;
    valid = v.valid;
    recorded = λ wid w at pane s. same pane ∙ v.recorded wid w at pane s;
    shown = λ pane has. v.shown pane (sym (same pane) ∙ has);
    once = v.once;
    focus = v.focus;
  }

  -- What a change of a window's tree may not do: show other panes.
  pub record WindowKeeps (w w' : TearWindow Num) : Type 0 where
    pub same_panes : panes w'.layout ≡ panes w.layout
    pub valid : WindowIsValid w'

  pub window-AreValid :
      (wid : ℕ) (change : TearWindow Num → TearWindow Num) (windows : BTreeMap (TearWindow Num))
      (records : BTreeMap TearPane) (active_window : ℕ)
      → ((w : TearWindow Num) → get wid windows ≡ some w → WindowKeeps w (change w))
      → AreValid windows records active_window
      → AreValid (modify wid change windows) records active_window
  window-AreValid wid change windows records active_window keeps v = record {
    ordered = modify-Ascending wid change windows v.ordered;
    valid = λ j w' at. elim (get-modify_cases wid j change windows w' at) [
      | inl (e, (w, found, is)) ↦ rw is ((old j w e found).valid)
      | inr (ne, found) ↦ v.valid j w' found
    ];
    recorded = λ j w' at pane s.
        let (w, found, same) = origin j w' at in
        v.recorded j w found pane (sym (ap (elem pane) same) ∙ s);
    shown = λ pane has.
        let (j, w, found, s) = v.shown pane has in
        elim (Bool-cases (wid == j)) [
          | inl hit ↦
              let e : wid ≡ j = (==_iff wid j).0 hit in
              (
                j,
                change w,
                ground (arith, get-modify wid j change windows),
                ap (elem pane) ((old j w e found).same_panes) ∙ s,
              )
          | inr miss ↦ (j, w, ground (arith, get-modify wid j change windows), s)
        ];
    once = λ j j' w w' at at' pane s s'.
        let (u, found, same) = origin j w at in
        let (u', found', same') = origin j' w' at' in
        v.once j j' u u' found found' pane (sym (ap (elem pane) same) ∙ s)
          (sym (ap (elem pane) same') ∙ s');
    focus = elim v.focus [
      | inl (none_yet, null) ↦ inl (rw none_yet, null)
      | inr at ↦ inr (contains-modify wid active_window change windows ∙ at)
    ];
  }
    where
      old :
          (j : ℕ) (w : TearWindow Num) → wid ≡ j → get j windows ≡ some w → WindowKeeps w (change w)
      old j w e found = keeps w (rw e found)

      origin :
          (j : ℕ) (w' : TearWindow Num)
          → get j (modify wid change windows) ≡ some w'
          → (w : TearWindow Num) × (get j windows ≡ some w) × (panes w'.layout ≡ panes w.layout)
      origin j w' at = elim (get-modify_cases wid j change windows w' at) [
        | inl (e, (w, found, is)) ↦ (
          w,
          found,
          ap (λ (x : TearWindow Num). panes x.layout) is ∙ (old j w e found).same_panes,
        )
        | inr (ne, found) ↦ (w', found, refl)
      ]
