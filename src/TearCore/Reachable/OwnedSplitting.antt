-- ===== src/TearCore/Reachable/OwnedSplitting.antt =====
-- Splitting a pane (`split_pane_yurai` of tear-core/src/inproc.rs) gives a terminal to a recorded pane
-- only.
use tear.Kukaku.Float.{Float}
use tear.Base.{nat_eq, ◌≡◌, ◌⊎◌}
use tear.Base.{ℕ, refl, true, false, [], some, arith, Option-cases, inl, inr, Bool-cases}
use tear.Base.Maps.{get-modify, get, insert, contains_key, modify, contains-insert}
use tear.TearTypes.Pane.{Cells, TearPane}
use tear.TearCore.Registry.{PaneSpec, fresh_pane, locate_pane}
use tear.TearCore.Spawning.{spawn_pty_with, split_pane, split_session, split_window}
use tear.TearCore.Spawning.Outcome.{in_registry-of}
use tear.Kukaku.Float.{IsIeee}
use tear.TearTypes.Session.{TearSession}
use tear.TearCore.Arranging.Steady.{apply_layout_geometry-IsSteady}
use tear.TearCore.Runtime.{InProcess, SystemIo, in_registry}
use tear.Kukaku.Direction.{Direction}
use tear.TearCore.Validity.Locating.{locate_pane_lem}
use tear.TearCore.Spawning.Splitting.{split_session-Evolves}
use tear.TearCore.Validity.{RegistryIsValid}
use tear.TearCore.Reachable.Owned.{in_registry-grow, AreOwned, IsSteady-AreOwned}
use tear.TearCore.Reachable.OwnedOpening.{spawned-AreOwned}

module _ {Num : Type 0} ⦃f : Float Num⦄ where
  pub split_session-panes :
      (wid origin new_pid : ℕ) (d : Direction) (spec : PaneSpec) (s : TearSession Num)
      → ((split_session wid origin new_pid d spec s).1 ≡ false)
        ⊎ ((split_session wid origin new_pid d spec s).0.panes
            ≡ insert new_pid (fresh_pane new_pid spec (record { cols = 80; rows = 12 })) s.panes)
  unfolding split_session
  split_session-panes wid origin new_pid d spec s = elim (Option-cases (get wid s.windows)) [
    | inl missed ↦ rw (missed, split_session) (inl refl)
    | inr (w, at) ↦ elim (Bool-cases (split_window origin new_pid d w).1) [
      | inl ok ↦ rw (at, split_session, ok) (inr refl)
      | inr fail ↦ rw (at, split_session, fail) (inl refl)
    ]
  ]

  pub split_pane-AreOwned :
      IsIeee f
      → (io : SystemIo) (new_pid origin : ℕ) (d : Direction) (spec : PaneSpec) (st : InProcess Num)
      → in_registry new_pid st.registry ≡ false
      → RegistryIsValid st.registry
      → AreOwned st
      → AreOwned (split_pane io new_pid origin d spec st).0
  unfolding split_pane
  split_pane-AreOwned ieee io new_pid origin d spec st new v own =
      elim (Option-cases (locate_pane st.registry origin)) [
        | inl missed ↦ rw (missed, split_pane) own
        | inr (found, is) ↦
            let (s, w, at, there, has, held) = (locate_pane_lem st.registry origin v).0 found is in
            let size : Cells = record { cols = 80; rows = 12 } in
            let located = record spec { cwd = st.spawn_cwd; env = [] } in
            let (hit, evolves) =
              split_session-Evolves ieee st.registry found.0 found.1 origin new_pid d located s w at
                there held new (v.valid found.0 s at) in
            let grown = (split_session found.1 origin new_pid d located s).0 in
            let panes_eq : grown.panes ≡ insert new_pid (fresh_pane new_pid located size) s.panes =
              elim (split_session-panes found.1 origin new_pid d located s) [
                | inl fail ↦ absurd (cc (hit, fail))
                | inr e ↦ e
              ] in
            let after = record st { registry = modify found.0 (λ old. grown) st.registry } in
            let placed : get found.0 after.registry ≡ some grown =
              ground (arith, get-modify found.0 found.0 (λ old. grown) st.registry) in
            let recorded : contains_key new_pid grown.panes ≡ true = rw panes_eq (
              ground (
                arith,
                contains-insert new_pid new_pid (fresh_pane new_pid located size) s.panes,
              )) in
            let keeps : (pane : ℕ)
                → in_registry pane st.registry ≡ true
                → in_registry pane after.registry ≡ true =
              λ pane.
                in_registry-grow pane found.0 (λ old. grown) st.registry
                  (λ u at' h.
                    kept_panes pane new_pid s u grown (fresh_pane new_pid located size)
                      (cc (at, at')) panes_eq h)
                  v.ordered in
            let owned =
              spawned-AreOwned io new_pid size st after refl keeps
                (in_registry-of new_pid found.0 grown after.registry placed recorded) own in
            elim (Bool-cases (spawn_pty_with io new_pid size after).1) [
              | inl up ↦
                  rw (is, at, hit, split_pane, up)
                    (IsSteady-AreOwned _ _ (apply_layout_geometry-IsSteady io found.0 found.1 _)
                      owned)
              | inr down ↦ rw (is, at, hit, split_pane, down) owned
            ]
      ]
    where
      kept_panes :
          (pane id : ℕ) (s u grown : TearSession Num) (p : TearPane)
          → s ≡ u
          → grown.panes ≡ insert id p s.panes
          → contains_key pane u.panes ≡ true
          → contains_key pane grown.panes ≡ true
      kept_panes pane id s u grown p same e h =
          let kept : contains_key pane s.panes ≡ true = rw same h in
          rw e (ground (arith, contains-insert id pane p s.panes, kept))
