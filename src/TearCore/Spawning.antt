-- ===== src/TearCore/Spawning.antt =====
-- tear-core/src/inproc.rs: opening sessions, windows and panes. The ids that the source mints are
-- arguments; the child of a pane is the system's.
pub mod Validity
pub mod Sessions
pub mod Splitting
pub mod Outcome
use Prim.Native.String.{String}
use tear.Base.{ℕ, Bool, true, false, [], none, some, if◌then◌else◌, nat_eq}
use tear.Base.Maps.{get, insert, remove, modify}
use tear.Kukaku.Direction.{Direction}
use tear.Kukaku.Float.{Float}
use tear.Kukaku.Layout.{split_leaf}
use tear.TearTypes.Control.{ControlResult, done, fails, ControlError}
use tear.TearTypes.Pane.{Cells}
use tear.TearTypes.Session.{TearSession, TearWindow, SessionSource}
use tear.TearCore.Registry.{PaneSpec, fresh_pane, create_session, add_window, locate_pane}
use tear.TearCore.Runtime.{InProcess, SystemIo, in_registry, apply_layout_geometry, at_least_one}

-- The ids that one operation mints.
pub record Minted : Type 0 where
  pub session_id : ℕ
  pub window_id : ℕ
  pub pane_id : ℕ

module _ {Num : Type 0} where
  -- The check at the end of `spawn_pty_with`, for a pane that left the registry meanwhile.
  unfoldable pub drop_if_orphaned : ℕ → InProcess Num → InProcess Num
  drop_if_orphaned id st = if in_registry id st.registry then st else record st {
    grids = remove id st.grids;
    subscribers = remove id st.subscribers;
    recordings = remove id st.recordings;
    ptys = remove id st.ptys;
  }

  -- `InProcess::spawn_pty_with`: the grid is there before the child is started.
  unfoldable pub spawn_pty_with : SystemIo → ℕ → Cells → InProcess Num → InProcess Num × Bool
  unfolding drop_if_orphaned
  spawn_pty_with io id size st =
      let with_grid = record st { grids = insert id size st.grids } in
      if io.spawn_ok
      then (
        drop_if_orphaned id (record with_grid {
          ptys = insert id (record { winsize = size; written = [] }) with_grid.ptys;
        }),
        true,
      )
      else (with_grid, false)

  -- `InProcess::new_session_yurai_in`, with the directory and the command in `spec`.
  unfoldable pub new_session :
      SystemIo
      → Minted
      → String
      → PaneSpec
      → SessionSource
      → Cells
      → InProcess Num
      → InProcess Num × ControlResult ℕ
  unfolding create_session add_window spawn_pty_with
  new_session io ids name spec source size_cells st =
      let size = at_least_one size_cells in
      let recorded = record spec { env = [] } in
      let created =
        modify ids.session_id (λ s. record s { source = source })
          (create_session ids.session_id name io.now_unix st.registry) in
      elim (add_window ids.session_id ids.window_id ids.pane_id "main" recorded size created) [
        | none ↦ (record st { registry = created }, fails ControlError.internal)
        | some opened ↦
            let (st', spawned) =
              spawn_pty_with io ids.pane_id size (record st { registry = opened }) in
            if spawned then (st', done ids.session_id) else (
              record st' { registry = remove ids.session_id st'.registry },
              fails ControlError.internal,
            )
      ]

  -- `InProcess::new_window_yurai`
  unfoldable pub new_window :
      SystemIo → Minted → ℕ → String → PaneSpec → InProcess Num → InProcess Num × ControlResult ℕ
  unfolding add_window spawn_pty_with
  new_window io ids session name spec st =
      let size : Cells = record { cols = 80; rows = 24 } in
      let located = record spec { cwd = st.spawn_cwd; env = [] } in
      elim (add_window session ids.window_id ids.pane_id name located size st.registry) [
        | none ↦ (st, fails (ControlError.no_such_session session))
        | some opened ↦
            let (st', spawned) =
              spawn_pty_with io ids.pane_id size (record st { registry = opened }) in
            if spawned then (st', done ids.window_id) else (st', fails ControlError.internal)
      ]

module _ {Num : Type 0} ⦃f : Float Num⦄ where
  -- The window's part of a split: the origin's leaf is split, and the new pane has the keyboard.
  unfoldable pub split_window : ℕ → ℕ → Direction → TearWindow Num → TearWindow Num × Bool
  split_window origin new_pid direction w =
      let (layout, ok) = split_leaf w.layout origin new_pid direction f.half in
      (record w { layout = layout; active_pane = if ok then new_pid else w.active_pane }, ok)

  -- What `split_pane_yurai` does to the session under the lock; `false` where it takes the pane's
  -- record out again.
  unfoldable pub split_session :
      ℕ → ℕ → ℕ → Direction → PaneSpec → TearSession Num → TearSession Num × Bool
  split_session wid origin new_pid direction spec s =
      let size : Cells = record { cols = 80; rows = 12 } in
      let panes = insert new_pid (fresh_pane new_pid spec size) s.panes in
      let undone = record s { panes = remove new_pid panes } in
      elim (get wid s.windows) [
        | none ↦ (undone, false)
        | some w ↦
            let (w', ok) = split_window origin new_pid direction w in
            let windows = modify wid (λ old. w') s.windows in
            if ok
            then (record s { panes = panes; windows = windows }, true)
            else (record undone { windows = windows }, false)
      ]

  -- `InProcess::split_pane_yurai`
  unfoldable pub split_pane :
      SystemIo → ℕ → ℕ → Direction → PaneSpec → InProcess Num → InProcess Num × ControlResult ℕ
  unfolding split_session spawn_pty_with
  split_pane io new_pid origin direction spec st =
      let size : Cells = record { cols = 80; rows = 12 } in
      let located = record spec { cwd = st.spawn_cwd; env = [] } in
      elim (locate_pane st.registry origin) [
        | none ↦ (st, fails (ControlError.no_such_pane origin))
        | some at ↦ elim (get at.0 st.registry) [
          | none ↦ (st, fails (ControlError.no_such_session at.0))
          | some s ↦
              let (s', ok) = split_session at.1 origin new_pid direction located s in
              let st₁ = record st { registry = modify at.0 (λ old. s') st.registry } in
              let (st₂, spawned) = spawn_pty_with io new_pid size st₁ in
              if ok
              then (if spawned
                  then (apply_layout_geometry io at.0 at.1 st₂, done new_pid)
                  else (st₂, fails ControlError.internal))
              else (st₁, fails (ControlError.no_such_pane origin))
        ]
      ]
