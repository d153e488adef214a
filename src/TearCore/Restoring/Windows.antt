-- ===== src/TearCore/Restoring/Windows.antt =====
-- tear-core/src/inproc/durable.rs: what the loop of `prune_pane` does to the windows of a
-- session of which one shows the pane, and to those of which none does.
use mathlib.Core.Path.{◌∙◌}
use tear.Base.{
  ℕ, ◌≡◌, ◌≢◌, inl, inr, refl, sym, ap, false, [], ◌∷◌, some, none, arith, ◌==◌, ==_iff, Bool-cases,
  nat_eq, elem,
}
use tear.Base.Maps.{BTreeMap, get, remove, modify, AllAbove, Ascending}
use tear.Base.Maps.Entries.{AllAbove-absent, AllAbove-lt}
use tear.Kukaku.Layout.{LeafRemoval, removed, was_root, not_found, remove_leaf}
use tear.Kukaku.Layout.Panes.{panes-ids}
use tear.Kukaku.Layout.Removal.{remove_leaf-miss}
use tear.TearTypes.Session.{TearWindow}
use tear.TearCore.Closing.{shrink_window}
use tear.TearCore.Validity.{shows}
use tear.TearCore.Reachable.Owned.{modify_absent, remove_absent}
use tear.TearCore.Restoring.{prune_windows}

-- An outcome of `remove_leaf` for a pane that the tree shows.
abbrev pub Found : LeafRemoval → Type 0
Found not_found = ⊥
Found _ = Unit {0}

module _ {Num : Type 0} where
  -- No window of a map shows the pane.
  abbrev pub NoneShows : ℕ → BTreeMap (TearWindow Num) → Type 0
  NoneShows pid ws = (wid : ℕ) (w : TearWindow Num) → get wid ws ≡ some w → shows w pid ≡ false

  missed :
      (pid : ℕ) (w : TearWindow Num)
      → shows w pid ≡ false
      → remove_leaf w.layout pid ≡ (w.layout, not_found)
  missed pid w h = remove_leaf-miss w.layout pid (sym (ap (elem pid) (panes-ids w.layout)) ∙ h)

  -- An entry of an ascending map, behind its first.
  behind :
      (j wid : ℕ) (u w : TearWindow Num) (ws : BTreeMap (TearWindow Num))
      → AllAbove j ws
      → get wid ws ≡ some w
      → get wid ((j, u) ∷ ws) ≡ some w
  behind j wid u w ws above at = ground (arith, AllAbove-absent j ws above)

  prune_windows_kept :
      (pid j : ℕ) (u : TearWindow Num) (ws : BTreeMap (TearWindow Num))
      → shows u pid ≡ false
      → prune_windows pid ((j, u) ∷ ws) ≡ (j, u) ∷ prune_windows pid ws
  unfolding prune_windows
  prune_windows_kept pid j u ws h = ground (arith, missed pid u h)

  pub prune_windows_absent :
      (pid : ℕ) (ws : BTreeMap (TearWindow Num))
      → Ascending ws
      → NoneShows pid ws
      → prune_windows pid ws ≡ ws
  unfolding prune_windows
  prune_windows_absent pid [] asc h = refl
  prune_windows_absent pid ((j, u) ∷ ws) asc h =
      prune_windows_kept pid j u ws (h j u (ground arith))
      ∙ ap (◌∷◌ (j, u))
          (prune_windows_absent pid ws asc.1 (λ wid w at. h wid w (behind j wid u w ws asc.0 at)))

  -- What `prune_windows` does where one window shows the pane.
  abbrev pub closed_windows :
      LeafRemoval → ℕ → ℕ → BTreeMap (TearWindow Num) → BTreeMap (TearWindow Num)
  closed_windows was_root pid wid ws = remove wid ws
  closed_windows removed pid wid ws = modify wid (shrink_window pid) ws
  closed_windows not_found pid wid ws = ws

  prune_windows_head :
      (pid j : ℕ) (u : TearWindow Num) (ws : BTreeMap (TearWindow Num)) (outcome : LeafRemoval)
      → (remove_leaf u.layout pid).1 ≡ outcome
      → Found outcome
      → AllAbove j ws
      → prune_windows pid ws ≡ ws
      → prune_windows pid ((j, u) ∷ ws) ≡ closed_windows outcome pid j ((j, u) ∷ ws)
  unfolding prune_windows
  prune_windows_head pid j u ws was_root e found above rest =
      let none_here : get j ws ≡ none = AllAbove-absent j ws above in
      rw (remove_absent j ws none_here) (ground (arith, e, rest))
  prune_windows_head pid j u ws removed e found above rest =
      let none_here : get j ws ≡ none = AllAbove-absent j ws above in
      rw (modify_absent j (shrink_window pid) ws none_here) (ground (arith, e, rest))
  prune_windows_head pid j u ws not_found e found above rest = absurd found

  closed_windows_behind :
      (pid wid j : ℕ) (u : TearWindow Num) (ws : BTreeMap (TearWindow Num)) (outcome : LeafRemoval)
      → (j == wid) ≡ false
      → closed_windows outcome pid wid ((j, u) ∷ ws) ≡ (j, u) ∷ closed_windows outcome pid wid ws
  closed_windows_behind pid wid j u ws was_root ne = rw ne refl
  closed_windows_behind pid wid j u ws removed ne = rw ne refl
  closed_windows_behind pid wid j u ws not_found ne = refl

  pub prune_windows_present :
      (pid wid : ℕ) (w : TearWindow Num) (ws : BTreeMap (TearWindow Num))
      → Ascending ws
      → get wid ws ≡ some w
      → Found (remove_leaf w.layout pid).1
      → ((j : ℕ) (u : TearWindow Num) → get j ws ≡ some u → wid ≢ j → shows u pid ≡ false)
      → prune_windows pid ws ≡ closed_windows (remove_leaf w.layout pid).1 pid wid ws
  prune_windows_present pid wid w [] asc at held others = absurd (cc at)
  prune_windows_present pid wid w ((j, u) ∷ ws) asc at held others = elim (Bool-cases (j == wid)) [
    | inl here ↦
        let same : u ≡ w = ground arith in
        let e : j ≡ wid = (==_iff j wid).0 here in
        let rest : prune_windows pid ws ≡ ws = prune_windows_absent pid ws asc.1 (λ k v found.
          others k v (behind j k u v ws asc.0 found)
            (omega (arith, e, AllAbove-lt j k ws v asc.0 found))) in
        rw (← same, ← e) (prune_windows_head pid j u ws _ refl (rw same held) asc.0 rest)
    | inr there ↦
        prune_windows_kept pid j u ws (others j u (ground arith) (ground arith))
        ∙ ap (◌∷◌ (j, u)) (
            prune_windows_present pid wid w ws asc.1 (ground arith) held
              (λ k v found. others k v (behind j k u v ws asc.0 found)))
        ∙ sym (closed_windows_behind pid wid j u ws (remove_leaf w.layout pid).1 there)
  ]
