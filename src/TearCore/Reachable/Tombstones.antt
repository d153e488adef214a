-- ===== src/TearCore/Reachable/Tombstones.antt =====
-- The operations of tear-core/src/inproc.rs that write no tombstone.
use tear.Base.{
  ℕ, ◌≡◌, refl, ◌∙◌, Bool, ◌||◌, List, [], ◌∷◌, Option, none, some, arith, nat_eq, Option-cases,
  inl, inr, if_both, Bool-cases,
}
use Prim.Native.String.{String}
use tear.TearTypes.Pane.{Cells}
use tear.TearCore.Registry.{PaneSpec}
use tear.TearCore.Runtime.{at_least_one}
use tear.TearCore.Spawning.{Minted}
use tear.TearTypes.Session.{SessionSource}
use tear.Base.Maps.{modify}
use tear.Base.Int.{ℤ}
use tear.Base.Maps.{get, contains_key, find_first}
use tear.Kukaku.Arrange.{LayoutKind, from_kind}
use tear.Kukaku.Direction.{Direction}
use tear.Kukaku.Float.{Float}
use tear.Kukaku.Geometry.{Rect}
use tear.Kukaku.Layout.{panes}
use tear.TearCore.Registry.{locate_pane}
use tear.TearCore.Runtime.{
  InProcess, SystemIo, detach_panes, pane_resize_absolute, resize_ptys, apply_layout_geometry,
  window_rects,
}
use tear.TearCore.Closing.{witness, reap_proven_dead}
use tear.TearCore.Exit.{reap_unwatched, reap_if_dead, session_watched}
use tear.TearCore.Spawning.{
  new_session, new_window, split_pane, spawn_pty_with, drop_if_orphaned, split_session,
}
use tear.TearCore.Arranging.{resize_pane, apply_layout}
use tear.TearCore.Steering.{holds_window}

module _ {Num : Type 0} ⦃f : Float Num⦄ where
  pub resize_ptys-tombstones :
      (io : SystemIo) (rects : List (ℕ × Rect)) (st : InProcess Num)
      → (resize_ptys io rects st).tombstones ≡ st.tombstones
  unfolding resize_ptys pane_resize_absolute
  resize_ptys-tombstones io [] st = refl
  resize_ptys-tombstones io ((pane, rect) ∷ rects) st =
      resize_ptys-tombstones io rects _ ∙ ground arith

  pub apply_layout_geometry-tombstones :
      (io : SystemIo) (sid wid : ℕ) (st : InProcess Num)
      → (apply_layout_geometry io sid wid st).tombstones ≡ st.tombstones
  unfolding apply_layout_geometry
  apply_layout_geometry-tombstones io sid wid st = elim (Option-cases (get sid st.registry)) [
    | inl missed ↦ rw (missed, apply_layout_geometry) refl
    | inr (s, at) ↦ elim (Option-cases (get wid s.windows)) [
      | inl missed ↦ rw (at, missed, apply_layout_geometry) refl
      | inr (w, there) ↦
          rw (at, there, apply_layout_geometry) (resize_ptys-tombstones io (window_rects w) _)
    ]
  ]

  pub spawn_pty_with-tombstones :
      (io : SystemIo) (id : ℕ) (size : _) (st : InProcess Num)
      → (spawn_pty_with io id size st).0.tombstones ≡ st.tombstones
  unfolding spawn_pty_with drop_if_orphaned
  spawn_pty_with-tombstones io id size st = ground arith

  pub reap_proven_dead-tombstones :
      (sid : ℕ) (st : InProcess Num) → (reap_proven_dead sid st).0.tombstones ≡ st.tombstones
  unfolding reap_proven_dead detach_panes
  reap_proven_dead-tombstones sid st = elim (Option-cases (get sid st.registry)) [
    | inl missed ↦ rw (missed, reap_proven_dead) refl
    | inr (s, at) ↦ elim (Option-cases (witness s)) [
      | inl alive ↦ rw (at, alive, reap_proven_dead) refl
      | inr (dead, proof) ↦ rw (at, proof, reap_proven_dead) refl
    ]
  ]

  pub reap_unwatched-tombstones :
      (sid : Option ℕ) (id : ℕ) (watched : Bool) (st : InProcess Num)
      → (reap_unwatched sid id watched st).tombstones ≡ st.tombstones
  unfolding reap_unwatched reap_if_dead
  reap_unwatched-tombstones none id watched st = refl
  reap_unwatched-tombstones (some sid) id watched st =
      if_both (λ (t : InProcess Num). t.tombstones ≡ st.tombstones)
        (watched || session_watched id st.subscribers (get sid st.registry)) refl
        (elim (Option-cases (get sid st.registry)) [
          | inl missed ↦ rw (missed, reap_if_dead) refl
          | inr (s, at) ↦ elim (Option-cases (witness s)) [
            | inl alive ↦ rw (at, alive, reap_if_dead) refl
            | inr (dead, proof) ↦ rw (at, proof, reap_if_dead) (reap_proven_dead-tombstones dead st)
          ]
        ])

  pub new_session-tombstones :
      (io : SystemIo) (ids : Minted) (name : String) (spec : PaneSpec) (source : SessionSource)
      (size : Cells) (st : InProcess Num)
      → (new_session io ids name spec source size st).0.tombstones ≡ st.tombstones
  unfolding new_session
  new_session-tombstones io ids name spec source size st =
      ground (arith, spawn_pty_with-tombstones io ids.pane_id (at_least_one size))

  pub new_window-tombstones :
      (io : SystemIo) (ids : Minted) (session : ℕ) (name : String) (spec : PaneSpec)
      (st : InProcess Num)
      → (new_window io ids session name spec st).0.tombstones ≡ st.tombstones
  unfolding new_window
  new_window-tombstones io ids session name spec st =
      ground (arith, spawn_pty_with-tombstones io ids.pane_id (record { cols = 80; rows = 24 }))

  pub split_pane-tombstones :
      (io : SystemIo) (new_pid origin : ℕ) (d : Direction) (spec : PaneSpec) (st : InProcess Num)
      → (split_pane io new_pid origin d spec st).0.tombstones ≡ st.tombstones
  unfolding split_pane
  split_pane-tombstones io new_pid origin d spec st =
      elim (Option-cases (locate_pane st.registry origin)) [
        | inl missed ↦ rw (missed, split_pane) refl
        | inr (at, is) ↦ elim (Option-cases (get at.0 st.registry)) [
          | inl missed ↦ rw (is, missed, split_pane) refl
          | inr (s, found) ↦
              let located = record spec { cwd = st.spawn_cwd; env = [] } in
              let (s', ok) = split_session at.1 origin new_pid d located s in
              let st₁ = record st { registry = modify at.0 (λ old. s') st.registry } in
              let size : Cells = record { cols = 80; rows = 12 } in
              let kept = spawn_pty_with-tombstones io new_pid size st₁ in
              elim (Bool-cases (split_session at.1 origin new_pid d located s).1) [
                | inr failed ↦ rw (is, found, failed, split_pane) refl
                | inl hit ↦ elim (Bool-cases (spawn_pty_with io new_pid size st₁).1) [
                  | inr down ↦ rw (is, found, hit, split_pane, down) kept
                  | inl up ↦
                      rw (is, found, hit, split_pane, up)
                        (apply_layout_geometry-tombstones io at.0 at.1 _ ∙ kept)
                ]
              ]
        ]
      ]

  pub resize_pane-tombstones :
      (io : SystemIo) (id : ℕ) (d : Direction) (delta_cells : ℤ) (st : InProcess Num)
      → (resize_pane io id d delta_cells st).0.tombstones ≡ st.tombstones
  unfolding resize_pane
  resize_pane-tombstones io id d delta_cells st = elim (Option-cases (locate_pane st.registry id)) [
    | inl missed ↦ rw (missed, resize_pane) refl
    | inr (at, is) ↦ elim (Option-cases (get at.0 st.registry)) [
      | inl missed ↦ rw (is, missed, resize_pane) refl
      | inr (s, found) ↦ elim (Bool-cases (contains_key at.1 s.windows)) [
        | inl has ↦
            rw (is, found, resize_pane, has) (apply_layout_geometry-tombstones io at.0 at.1 _)
        | inr lacks ↦ rw (is, found, resize_pane, lacks) refl
      ]
    ]
  ]

  pub apply_layout-tombstones :
      (io : SystemIo) (window : ℕ) (kind : LayoutKind) (st : InProcess Num)
      → (apply_layout io window kind st).0.tombstones ≡ st.tombstones
  unfolding apply_layout
  apply_layout-tombstones io window kind st =
      elim (Option-cases (find_first (holds_window window) st.registry)) [
        | inl missed ↦ rw (missed, apply_layout) refl
        | inr (at, is) ↦ elim (Option-cases (get window at.1.windows)) [
          | inl missed ↦ rw (is, missed, apply_layout) refl
          | inr (w, found) ↦ elim (Option-cases (from_kind {Num = Num} kind (panes w.layout))) [
            | inl custom ↦ rw (is, found, custom, apply_layout) refl
            | inr (tree, made) ↦
                rw (is, found, made, apply_layout)
                  (apply_layout_geometry-tombstones io at.0 window _)
          ]
        ]
      ]
