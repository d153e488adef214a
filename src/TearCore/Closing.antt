-- ===== src/TearCore/Closing.antt =====
-- tear-core/src/inproc.rs and reap.rs: closing sessions, windows and panes, and the removal of a
-- session whose children have all exited.
pub mod Validity
pub mod Killing
pub mod Detaching
use tear.Base.{
  ℕ, Bool, true, false, ◌&&◌, List, [], ◌∷◌, Option, none, some, if◌then◌else◌, ◌==◌, nat_eq,
}
use tear.Base.Maps.{
  BTreeMap, get, remove, remove_all, modify, contains_key, keys, first_key, modify_first,
}
use tear.Kukaku.Float.{Float}
use tear.Kukaku.Layout.{LeafRemoval, removed, was_root, not_found, remove_leaf, panes}
use tear.TearTypes.Control.{ControlResult, done, fails, ControlError}
use tear.TearTypes.Pane.{TearPane, is_exited}
use tear.TearTypes.Session.{TearSession, TearWindow, null_id}
use tear.TearCore.Registry.{Registry, locate_pane}
use tear.TearCore.Runtime.{
  InProcess, SystemIo, record_human_end, detach_panes, apply_layout_geometry,
}

-- The first pane of a layout, or the null id.
abbrev pub first_pane : List ℕ → ℕ
first_pane [] = null_id
first_pane (pane ∷ more) = pane

-- `panes.values().all(|p| matches!(p.state, PaneState::Exited { .. }))`
abbrev pub all_exited : BTreeMap TearPane → Bool
all_exited [] = true
all_exited ((id, p) ∷ panes) = is_exited p.state && all_exited panes

-- `AllPanesExited::witness`: the id of a session that has a pane and none that runs.
unfoldable pub witness : {Num : Type 0} → TearSession Num → Option ℕ
witness s = elim s.panes [
  | [] ↦ none
  | p ∷ more ↦ if all_exited (p ∷ more) then some s.id else none
]

module _ {Num : Type 0} where
  -- `InProcess::kill_session`
  unfoldable pub kill_session :
      SystemIo → ℕ → InProcess Num → InProcess Num × ControlResult (Unit {0})
  unfolding record_human_end detach_panes
  kill_session io id st = elim (get id st.registry) [
    | none ↦ (st, fails (ControlError.no_such_session id))
    | some s ↦
        let detached = detach_panes (keys s.panes) (record_human_end io (keys s.panes) st) in
        (record detached { registry = remove id detached.registry }, done tt)
  ]

  -- What is left of a session when one of its windows is closed.
  unfoldable pub close_window : ℕ → List ℕ → TearSession Num → TearSession Num
  close_window id dying s =
      let windows = remove id s.windows in
      record s {
        windows = windows;
        panes = remove_all dying s.panes;
        active_window = if s.active_window == id then first_key windows else s.active_window;
      }

  -- The panes that the loop of `kill_window` collects: those of the window with this id.
  unfoldable pub window_panes : ℕ → Registry Num → List ℕ
  window_panes id [] = []
  window_panes id ((sid, s) ∷ r) =
      let later = window_panes id r in
      elim (get id s.windows) [ some w ↦ panes w.layout | none ↦ later ]

  -- `InProcess::kill_window`
  unfoldable pub kill_window :
      SystemIo → ℕ → InProcess Num → InProcess Num × ControlResult (Unit {0})
  unfolding window_panes record_human_end detach_panes close_window
  kill_window io id st = elim (window_panes id st.registry) [
    | [] ↦ (st, fails (ControlError.no_such_window id))
    | pane ∷ more ↦
        let detached = detach_panes (pane ∷ more) (record_human_end io (pane ∷ more) st) in
        (
          record detached {
            registry =
                modify_first (λ s. contains_key id s.windows) (close_window id (pane ∷ more))
                  detached.registry;
          },
          done tt,
        )
  ]

  -- The window's part of a removed pane: another pane has the keyboard, if it had it.
  unfoldable pub shrink_window : ℕ → TearWindow Num → TearWindow Num
  shrink_window id w =
      let layout = (remove_leaf w.layout id).0 in
      record w {
        layout = layout;
        active_pane = if w.active_pane == id then first_pane (panes layout) else w.active_pane;
      }

  -- What `kill_pane` does to the session under the lock, by the outcome of `remove_leaf`.
  unfoldable pub close_pane : ℕ → ℕ → LeafRemoval → TearSession Num → TearSession Num
  close_pane wid id not_found s = s
  close_pane wid id removed s = record s {
    panes = remove id s.panes;
    windows = modify wid (shrink_window id) s.windows;
  }
  close_pane wid id was_root s =
      let windows = remove wid s.windows in
      record s {
        panes = remove id s.panes;
        windows = windows;
        active_window = if s.active_window == wid then first_key windows else s.active_window;
      }

  -- `w.layout.remove_leaf(id)`, where there is such a window.
  abbrev pub leaf_outcome : ℕ → Option (TearWindow Num) → LeafRemoval
  leaf_outcome id none = not_found
  leaf_outcome id (some w) = (remove_leaf w.layout id).1

  -- `InProcess::kill_pane`
  unfoldable pub kill_pane :
      ⦃f : Float Num⦄ → SystemIo → ℕ → InProcess Num → InProcess Num × ControlResult (Unit {0})
  unfolding record_human_end detach_panes close_pane
  kill_pane io id st = elim (locate_pane st.registry id) [
    | none ↦ (st, fails (ControlError.no_such_pane id))
    | some at ↦
        let detached = detach_panes (id ∷ []) (record_human_end io (id ∷ []) st) in
        elim (get at.0 detached.registry) [
          | none ↦ (detached, fails (ControlError.no_such_session at.0))
          | some s ↦
              let outcome = leaf_outcome id (get at.1 s.windows) in
              let closed = record detached {
                registry = modify at.0 (close_pane at.1 id outcome) detached.registry;
              } in
              elim outcome [
                | not_found ↦ (detached, fails (ControlError.no_such_pane id))
                | removed ↦ (apply_layout_geometry io at.0 at.1 closed, done tt)
                | was_root ↦ (closed, done tt)
              ]
        ]
  ]

  -- `reap_proven_dead`: the session is looked at again before it is removed.
  unfoldable pub reap_proven_dead : ℕ → InProcess Num → InProcess Num × Bool
  unfolding detach_panes
  reap_proven_dead sid st = elim (get sid st.registry) [
    | none ↦ (st, false)
    | some s ↦ elim (witness s) [
      | none ↦ (st, false)
      | some dead ↦
          (detach_panes (keys s.panes) (record st { registry = remove sid st.registry }), true)
    ]
  ]
