-- ===== src/TearCore/Restoring/Pruning.antt =====
-- tear-core/src/inproc/durable.rs: `prune_pane` on a valid session does what closing the pane would do
-- to the session, so that it stays valid.
use mathlib.Core.Path.{◌∙◌}
use tear.Base.{
  ℕ, ◌≡◌, ◌≢◌, inl, inr, refl, ap, true, false, List, [], ◌∷◌, some, arith, ==_iff, Bool-cases,
  nat_eq, elem, if◌then◌else◌, not, ◌&&◌,
}
use tear.Base.Maps.{get, contains_key, remove, first_key, contains-remove, contains-modify}
use tear.Kukaku.Float.{Float, IsIeee}
use tear.Kukaku.Layout.{LeafRemoval, removed, was_root, not_found, remove_leaf}
use tear.TearTypes.Session.{TearSession, TearWindow}
use tear.TearCore.Closing.{shrink_window, close_pane}
use tear.TearCore.Closing.Validity.{close_pane-Evolves}
use tear.TearCore.Validity.{shows, WindowIsValid, SessionIsValid}
use tear.TearCore.Validity.Layouts.{remove_leaf-IsShrunk}
use tear.TearCore.Validity.Windows.{records-AreValid}
use tear.TearCore.Restoring.{prune_windows, prune_pane, prune_all}
use tear.TearCore.Restoring.Windows.{
  Found, closed_windows, NoneShows, prune_windows_absent, prune_windows_present,
}

module _ {Num : Type 0} where
  prune_pane_closes :
      (pid wid : ℕ) (s : TearSession Num) (outcome : LeafRemoval)
      → Found outcome
      → prune_windows pid s.windows ≡ closed_windows outcome pid wid s.windows
      → contains_key s.active_window s.windows ≡ true
      → prune_pane pid s ≡ close_pane wid pid outcome s
  unfolding prune_pane close_pane
  prune_pane_closes pid wid s removed found e focus =
      rw (e, contains-modify wid s.active_window (shrink_window pid) s.windows, focus) refl
  prune_pane_closes pid wid s was_root found e focus = rw e (
      ground (
        arith,
        focus,
        contains-remove wid s.active_window s.windows,
        ==_iff s.active_window wid,
        ==_iff wid s.active_window,
      ))
  prune_pane_closes pid wid s not_found found e focus = absurd found

  -- The panes that are left when several are pruned.
  pub prune_all-panes :
      (over : List ℕ) (s : TearSession Num) (q : ℕ)
      → contains_key q (prune_all over s).panes ≡ (not (elem q over) && contains_key q s.panes)
  unfolding prune_all prune_pane
  prune_all-panes [] s q = refl
  prune_all-panes (pid ∷ more) s q =
      prune_all-panes more (prune_pane pid s) q ∙ ground (arith, contains-remove pid q s.panes)

-- A session after some of its panes were pruned.
pub record Shrinks {Num : Type 0} ⦃f : Float Num⦄ (s s' : TearSession Num) : Type 0 where
  pub valid : SessionIsValid s'
  pub same_id : s'.id ≡ s.id
  pub windows_from :
      (wid : ℕ) → contains_key wid s'.windows ≡ true → contains_key wid s.windows ≡ true

module _ {Num : Type 0} ⦃f : Float Num⦄ (ieee : IsIeee f) where
  -- Where some window is, the focused window is one of them.
  focused :
      (wid : ℕ) (s : TearSession Num) (w : TearWindow Num)
      → get wid s.windows ≡ some w
      → SessionIsValid s
      → contains_key s.active_window s.windows ≡ true
  focused wid s w there v = elim v.focus [
    | inl (none_yet, null) ↦ absurd (cc (there, ap (get wid) none_yet))
    | inr at ↦ at
  ]

  shown_once :
      (pid wid : ℕ) (s : TearSession Num) (w : TearWindow Num)
      → get wid s.windows ≡ some w
      → shows w pid ≡ true
      → SessionIsValid s
      → (j : ℕ) (u : TearWindow Num) → get j s.windows ≡ some u
      → wid ≢ j
      → shows u pid ≡ false
  shown_once pid wid s w there held v j u found ne = elim (Bool-cases (shows u pid)) [
    | inl shown ↦ absurd (ne (v.once wid j w u there found pid held shown))
    | inr not_shown ↦ not_shown
  ]

  in_its_window :
      (pid : ℕ) (w : TearWindow Num)
      → shows w pid ≡ true
      → WindowIsValid w
      → Found (remove_leaf w.layout pid).1
  in_its_window pid w held v = elim (remove_leaf-IsShrunk ieee w.layout pid v.well_formed held) [
    | inl (root, _) ↦ rw root tt
    | inr (inner, _) ↦ rw inner tt
  ]

  prune_pane_shown :
      (pid wid : ℕ) (s : TearSession Num) (w : TearWindow Num)
      → get wid s.windows ≡ some w
      → shows w pid ≡ true
      → SessionIsValid s
      → Shrinks s (prune_pane pid s)
  prune_pane_shown pid wid s w there held v =
      let outcome = (remove_leaf w.layout pid).1 in
      let found = in_its_window pid w held (v.valid wid w there) in
      let windows =
        prune_windows_present pid wid w s.windows v.ordered there found
          (shown_once pid wid s w there held v) in
      let closed = close_pane-Evolves ieee [] 0 1 wid pid s w there held v in
      rw (prune_pane_closes pid wid s outcome found windows (focused wid s w there v)) (record {
        valid = closed.valid;
        same_id = closed.same_id;
        windows_from = λ j h. elim (closed.windows_from j h) [
          | inl old ↦ old
          | inr (elsewhere, _) ↦ absurd (omega arith)
        ];
      })

  -- A pane that the session does not record is in none of its windows.
  prune_pane_hidden :
      (pid : ℕ) (s : TearSession Num)
      → contains_key pid s.panes ≡ false
      → SessionIsValid s
      → Shrinks s (prune_pane pid s)
  unfolding prune_pane
  prune_pane_hidden pid s absent v =
      rw (prune_windows_absent pid s.windows v.ordered hidden, still)
        (record {
          valid =
              records-AreValid s.windows s.panes (remove pid s.panes) s.active_window
                (λ q. ground (arith, contains-remove pid q s.panes)) v;
          same_id = refl;
          windows_from = λ wid h. h;
        })
    where
      hidden : NoneShows pid s.windows
      hidden wid w at = elim (Bool-cases (shows w pid)) [
        | inl shown ↦ absurd (cc (v.recorded wid w at pid shown, absent))
        | inr not_shown ↦ not_shown
      ]

      still :
          (if contains_key s.active_window s.windows then s.active_window else first_key s.windows)
          ≡ s.active_window
      still = elim v.focus [ inl (none_yet, null) ↦ rw (none_yet, null) refl | inr at ↦ rw at refl ]

  pub prune_pane-Shrinks :
      (pid : ℕ) (s : TearSession Num) → SessionIsValid s → Shrinks s (prune_pane pid s)
  prune_pane-Shrinks pid s v = elim (Bool-cases (contains_key pid s.panes)) [
    | inl has ↦
        let (wid, w, there, held) = v.shown pid has in prune_pane_shown pid wid s w there held v
    | inr absent ↦ prune_pane_hidden pid s absent v
  ]

  pub prune_all-Shrinks :
      (over : List ℕ) (s : TearSession Num) → SessionIsValid s → Shrinks s (prune_all over s)
  unfolding prune_all
  prune_all-Shrinks [] s v = record { valid = v; same_id = refl; windows_from = λ wid h. h }
  prune_all-Shrinks (pid ∷ more) s v =
      let one = prune_pane-Shrinks pid s v in
      let rest = prune_all-Shrinks more (prune_pane pid s) one.valid in
      record {
        valid = rest.valid;
        same_id = rest.same_id ∙ one.same_id;
        windows_from = λ wid h. one.windows_from wid (rest.windows_from wid h);
      }
