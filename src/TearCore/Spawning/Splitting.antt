-- ===== src/TearCore/Spawning/Splitting.antt =====
-- `split_pane_yurai` of tear-core/src/inproc.rs keeps the registry valid.
use mathlib.Core.Path.{◌∙◌}
use tear.Base.{
  ℕ, ◌≡◌, inl, inr, refl, sym, true, false, [], some, arith, ◌==◌, ==_iff, Bool-cases, Option-cases,
  nat_eq,
}
use tear.Base.Maps.{get, contains_key, insert, modify, contains-insert, contains-modify}
use tear.Kukaku.Direction.{Direction}
use tear.Kukaku.Float.{Float, IsIeee}
use tear.TearTypes.Pane.{Cells}
use tear.TearTypes.Session.{TearSession, TearWindow}
use tear.TearCore.Registry.{Registry, PaneSpec, fresh_pane, locate_pane}
use tear.TearCore.Runtime.{InProcess, SystemIo, in_registry}
use tear.TearCore.Spawning.{spawn_pty_with, split_window, split_session, split_pane}
use tear.TearCore.Spawning.Validity.{spawn_pty_with-registry}
use tear.TearCore.Validity.{shows, WindowIsValid, SessionIsValid, RegistryIsValid}
use tear.TearCore.Validity.Geometry.{apply_layout_geometry-IsValid}
use tear.TearCore.Validity.Layouts.{IsSplit, split_leaf-IsSplit}
use tear.TearCore.Validity.Locating.{locate_pane_lem}
use tear.TearCore.Validity.Panes.{pane-AreValid}
use tear.TearCore.Validity.Sessions.{Evolves, in_registry-get, modify-RegistryIsValid}

module _ {Num : Type 0} ⦃f : Float Num⦄ (ieee : IsIeee f) where
  -- A window that shows the origin is split, and the new pane has the keyboard.
  split_window_lem :
      (origin new_pid : ℕ) (d : Direction) (w : TearWindow Num)
      → WindowIsValid w
      → shows w origin ≡ true
      → shows w new_pid ≡ false
      → ((split_window origin new_pid d w).1 ≡ true)
        × WindowIsValid (split_window origin new_pid d w).0
        × IsSplit w.layout (split_window origin new_pid d w).0.layout new_pid
  unfolding split_window
  split_window_lem origin new_pid d w v held new =
      let (hit, parts) =
        split_leaf-IsSplit ieee w.layout origin new_pid d f.half v.well_formed held new in
      (hit, record { well_formed = parts.well_formed; focused = rw hit parts.gains }, parts)

  -- The session after the split, with a pane that was new to it.
  pub split_session-Evolves :
      (r : Registry Num) (sid wid origin new_pid : ℕ) (d : Direction) (spec : PaneSpec)
      (s : TearSession Num) (w : TearWindow Num)
      → get sid r ≡ some s
      → get wid s.windows ≡ some w
      → shows w origin ≡ true
      → in_registry new_pid r ≡ false
      → SessionIsValid s
      → ((split_session wid origin new_pid d spec s).1 ≡ true)
        × Evolves r sid sid s (split_session wid origin new_pid d spec s).0
  unfolding split_session
  split_session-Evolves r sid wid origin new_pid d spec s w at there held new v =
      let size : Cells = record { cols = 80; rows = 12 } in
      let absent : contains_key new_pid s.panes ≡ false = in_registry-get new_pid sid s r new at in
      let (hit, valid, parts) =
        split_window_lem origin new_pid d w (v.valid wid w there) held
          (unshown wid w there absent) in
      rw (there, split_session, hit)
        (
          refl,
          record {
            valid =
                pane-AreValid wid new_pid (λ old. (split_window origin new_pid d w).0) s.windows
                  s.panes (insert new_pid (fresh_pane new_pid spec size) s.panes) s.active_window w
                  there valid parts.keeps
                  (λ q ne.
                    ground
                      (arith, contains-insert new_pid q (fresh_pane new_pid spec size) s.panes))
                  (parts.gains
                    ∙ sym (
                        ground (
                          arith,
                          contains-insert new_pid new_pid (fresh_pane new_pid spec size) s.panes,
                        )))
                  (λ j u found ne. unshown j u found absent) v;
            same_id = refl;
            panes_from = λ q h. elim (Bool-cases (new_pid == q)) [
              | inl is ↦ inr (refl, rw (← (==_iff new_pid q).0 is) new)
              | inr other ↦
                  inl (
                    ground
                      (arith, contains-insert new_pid q (fresh_pane new_pid spec size) s.panes))
            ];
            windows_from = λ j h. inl (sym (contains-modify wid j _ s.windows) ∙ h);
          },
        )
    where
      unshown :
          (j : ℕ) (u : TearWindow Num)
          → get j s.windows ≡ some u
          → contains_key new_pid s.panes ≡ false
          → shows u new_pid ≡ false
      unshown j u found absent = elim (Bool-cases (shows u new_pid)) [
        | inl shown ↦ absurd (cc (v.recorded j u found new_pid shown, absent))
        | inr not_shown ↦ not_shown
      ]

  pub split_pane-IsValid :
      (io : SystemIo) (new_pid origin : ℕ) (d : Direction) (spec : PaneSpec) (st : InProcess Num)
      → in_registry new_pid st.registry ≡ false
      → RegistryIsValid st.registry
      → RegistryIsValid (split_pane io new_pid origin d spec st).0.registry
  unfolding split_pane
  split_pane-IsValid io new_pid origin d spec st new v =
      elim (Option-cases (locate_pane st.registry origin)) [
        | inl missed ↦ rw (missed, split_pane) v
        | inr (found, is) ↦
            let (s, w, at, there, has, held) = (locate_pane_lem st.registry origin v).0 found is in
            let size : Cells = record { cols = 80; rows = 12 } in
            let located = record spec { cwd = st.spawn_cwd; env = [] } in
            let (hit, evolves) =
              split_session-Evolves st.registry found.0 found.1 origin new_pid d located s w at
                there held new (v.valid found.0 s at) in
            let after = record st {
              registry =
                  modify found.0 (λ old. (split_session found.1 origin new_pid d located s).0)
                    st.registry;
            } in
            let valid =
              modify-RegistryIsValid st.registry found.0 _ v
                (λ u at'. same_session found.0 s u at at' evolves) in
            let kept = spawn_pty_with-registry io new_pid size after in
            elim (Bool-cases (spawn_pty_with io new_pid size after).1) [
              | inl up ↦
                  rw (is, at, hit, split_pane, up)
                    (apply_layout_geometry-IsValid io found.0 found.1 _ (rw kept valid))
              | inr down ↦ rw (is, at, hit, split_pane, down, kept) valid
            ]
      ]
    where
      same_session :
          (sid : ℕ) (s u : TearSession Num) {s' : TearSession Num}
          → get sid st.registry ≡ some s
          → get sid st.registry ≡ some u
          → Evolves st.registry sid sid s s'
          → Evolves st.registry sid sid u s'
      same_session sid s u at at' e = let eq : u ≡ s = cc (at, at') in rw eq e
