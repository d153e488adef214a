-- ===== src/TearCore/Closing/Validity.antt =====
-- Closing sessions, windows and panes (tear-core/src/inproc.rs) keeps the registry valid.
use mathlib.Core.Path.{◌∙◌}
use tear.Base.{
  ℕ, ◌≡◌, ◌≢◌, inl, inr, refl, sym, ap, true, false, List, [], ◌∷◌, some, arith, ◌==◌, ==_iff,
  Bool-cases, Option-cases, nat_eq, subst,
}
use tear.Base.Maps.{
  get, contains_key, remove, remove_all, contains-remove, contains-modify, Ascending,
  get_of_contains, contains_of_get,
}
use tear.Base.Maps.Entries.{AllAbove-lt}
use tear.Base.Maps.Removal.{contains-remove_all}
use tear.Kukaku.Float.{Float, IsIeee}
use tear.Kukaku.Layout.{panes, remove_leaf}
use tear.TearTypes.Session.{TearSession, TearWindow}
use tear.TearCore.Registry.{Registry}
use tear.TearCore.Runtime.{InProcess, SystemIo}
use tear.TearCore.Closing.{close_window, window_panes, kill_window, shrink_window, close_pane}
use tear.TearCore.Validity.{shows, WindowIsValid, SessionIsValid, RegistryIsValid}
use tear.TearCore.Validity.Layouts.{IsShrunk, remove_leaf-IsShrunk}
use tear.TearCore.Validity.Opening.{closed-AreValid}
use tear.TearCore.Validity.Panes.{pane-AreValid}
use tear.TearCore.Validity.Sessions.{Evolves, modify_first-RegistryIsValid}

module _ {Num : Type 0} where
  -- The panes that `kill_window` collects are those of one window of one session.
  pub window_panes-found :
      (wid pane : ℕ) (more : List ℕ) (r : Registry Num)
      → Ascending r
      → window_panes wid r ≡ pane ∷ more
      → (sid : ℕ) × (s : TearSession Num) × (w : TearWindow Num) × (get sid r ≡ some s)
        × (get wid s.windows ≡ some w)
        × (panes w.layout ≡ pane ∷ more)
  unfolding window_panes
  window_panes-found wid pane more [] asc h = absurd (cc h)
  window_panes-found wid pane more ((j, u) ∷ r) asc h = elim (Option-cases (get wid u.windows)) [
    | inl missed ↦
        let (sid, s, w, at, there, same) =
          window_panes-found wid pane more r asc.1 (rw (missed, window_panes) at h) in
        (sid, s, w, ground (arith, AllAbove-lt j sid r s asc.0 at), there, same)
    | inr (w, hit) ↦ (j, u, w, ground arith, hit, rw (hit, window_panes) at h)
  ]

module _ {Num : Type 0} ⦃f : Float Num⦄ where
  -- A session without one of its windows.
  close_window-Evolves :
      (r : Registry Num) (target sid wid : ℕ) (s : TearSession Num) (w : TearWindow Num)
      → get wid s.windows ≡ some w
      → SessionIsValid s
      → Evolves r target sid s (close_window wid (panes w.layout) s)
  unfolding close_window
  close_window-Evolves r target sid wid s w there v = record {
    valid =
        closed-AreValid wid w s.windows s.panes (remove_all (panes w.layout) s.panes)
          s.active_window there (λ q. contains-remove_all (panes w.layout) q s.panes) v;
    same_id = refl;
    panes_from = λ q h. inl (ground (arith, contains-remove_all (panes w.layout) q s.panes));
    windows_from = λ j h. inl (ground (arith, contains-remove wid j s.windows));
  }

  pub kill_window-IsValid :
      (io : SystemIo) (id : ℕ) (st : InProcess Num)
      → RegistryIsValid st.registry
      → RegistryIsValid (kill_window io id st).0.registry
  unfolding kill_window
  kill_window-IsValid io id st v = split_on (window_panes id st.registry) refl
    where
      same_window :
          (pane : ℕ) (more : List ℕ) (sid : ℕ) (s : TearSession Num)
          → window_panes id st.registry ≡ pane ∷ more
          → get sid st.registry ≡ some s
          → contains_key id s.windows ≡ true
          → Evolves st.registry 0 sid s (close_window id (pane ∷ more) s)
      same_window pane more sid s e at has =
          let (w, there) = get_of_contains id s.windows has in
          let (sid', s', w', at', there', same) =
            window_panes-found id pane more st.registry v.ordered e in
          let one : sid ≡ sid' =
            v.windows_apart sid sid' s s' at at' id has (contains_of_get id w' s'.windows there') in
          let equal : w ≡ w' = cc (one, at, at', there, there') in
          let dying : panes w.layout ≡ pane ∷ more =
            ap (λ (x : TearWindow Num). panes x.layout) equal ∙ same in
          subst (λ ps. Evolves st.registry 0 sid s (close_window id ps s)) dying
            (close_window-Evolves st.registry 0 sid id s w there (v.valid sid s at))

      split_on :
          (dying : List ℕ)
          → window_panes id st.registry ≡ dying
          → RegistryIsValid (kill_window io id st).0.registry
      split_on [] e = rw (e, kill_window) v
      split_on (pane ∷ more) e =
          rw (e, kill_window)
            (modify_first-RegistryIsValid st.registry (λ s. contains_key id s.windows)
              (close_window id (pane ∷ more)) v
              (λ sid s at has. same_window pane more sid s e at has))

module _ {Num : Type 0} ⦃f : Float Num⦄ (ieee : IsIeee f) where
  shrink_window-IsValid :
      (id : ℕ) (w : TearWindow Num)
      → WindowIsValid w
      → IsShrunk w.layout (remove_leaf w.layout id).0 id
      → WindowIsValid (shrink_window id w)
  unfolding shrink_window
  shrink_window-IsValid id w v s = record {
    well_formed = s.well_formed;
    focused = elim (Bool-cases (w.active_pane == id)) [
      | inl had ↦ rw had s.first
      | inr other ↦
          rw other (
            s.keeps w.active_pane (λ e. cc ((==_iff w.active_pane id).1 (sym e), other))
            ∙ v.focused)
    ];
  }

  pub close_pane-Evolves :
      (r : Registry Num) (target sid wid id : ℕ) (s : TearSession Num) (w : TearWindow Num)
      → get wid s.windows ≡ some w
      → shows w id ≡ true
      → SessionIsValid s
      → Evolves r target sid s (close_pane wid id (remove_leaf w.layout id).1 s)
  unfolding close_pane
  close_pane-Evolves r target sid wid id s w there held v =
      elim (remove_leaf-IsShrunk ieee w.layout id (v.valid wid w there).well_formed held) [
        | inl (root, only) ↦
            rw (root, close_pane)
              (record {
                valid =
                    closed-AreValid wid w s.windows s.panes (remove id s.panes) s.active_window
                      there (λ q. rw only (contains-remove id q s.panes)) v;
                same_id = refl;
                panes_from = λ q h. inl (ground (arith, contains-remove id q s.panes));
                windows_from = λ j h. inl (ground (arith, contains-remove wid j s.windows));
              })
        | inr (inner, shrunk) ↦
            rw (inner, close_pane)
              (record {
                valid =
                    pane-AreValid wid id (shrink_window id) s.windows s.panes (remove id s.panes)
                      s.active_window w there
                      (shrink_window-IsValid id w (v.valid wid w there) shrunk)
                      (λ q ne. unfold shrink_window in shrunk.keeps q ne)
                      (λ q ne. ground (arith, contains-remove id q s.panes))
                      (unfold shrink_window in
                        (shrunk.loses ∙ sym (ground (arith, contains-remove id id s.panes))))
                      (λ j u found ne. elsewhere j u found ne) v;
                same_id = refl;
                panes_from = λ q h. inl (ground (arith, contains-remove id q s.panes));
                windows_from = λ j h. inl (sym (contains-modify wid j _ s.windows) ∙ h);
              })
      ]
    where
      elsewhere :
          (j : ℕ) (u : TearWindow Num) → get j s.windows ≡ some u → wid ≢ j → shows u id ≡ false
      elsewhere j u found ne = elim (Bool-cases (shows u id)) [
        | inl shown ↦ absurd (ne (v.once wid j w u there found id held shown))
        | inr not_shown ↦ not_shown
      ]
