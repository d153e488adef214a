-- ===== src/TearCore/Runtime.antt =====
-- tear-core/src/inproc.rs: the state of `InProcess`, what is removed with a pane, and the geometry
-- of a window's panes. Each call runs as one step. The threads, the locks, the wakers and the text
-- of the child's environment are left out; what the system answers to a call is an argument.
use Prim.Native.String.{String}
use tear.Base.{
  ℕ, Bool, false, ◌&&◌, ◌||◌, List, [], ◌∷◌, Option, none, some, if◌then◌else◌, ◌==◌, max, length,
  nat_eq,
}
use tear.Base.Int.{ℤ}
use tear.Base.Maps.{BTreeMap, get, insert, remove_all, modify, contains_key}
use tear.Kukaku.Float.{Float}
use tear.Kukaku.Geometry.{Rect, sized}
use tear.Kukaku.Layout.{panes}
use tear.Kukaku.Rects.{compute_rects}
use tear.TearTypes.Control.{ControlResult, done, fails, ControlError}
use tear.TearTypes.Pane.{TearPane, Cells}
use tear.TearTypes.Session.{TearSession, TearWindow}
use tear.TearCore.Registry.{Registry, locate_pane}

-- A `PaneIo`: the size of its terminal and the writes that it was given, the first one first.
pub record Pty : Type 0 where
  pub winsize : Cells
  pub written : List (List ℕ)

-- `PaneSubscribers`; a sender is known by a number.
pub record PaneSubscribers : Type 0 where
  pub closed : Option ℤ
  pub senders : List ℕ

-- makimono's `Ending`, which a pane's tombstone holds.
pub data Ending : Type 0 where
  exited : Option ℤ → Ending
  ended_by_control : ℕ → Ending

-- `InProcess`. Of a grid and a recording only the size that it was given and whether it is on.
pub record InProcess (Num : Type 0) : Type 0 where
  pub registry : Registry Num
  pub ptys : BTreeMap Pty
  pub grids : BTreeMap Cells
  pub subscribers : BTreeMap PaneSubscribers
  pub recordings : BTreeMap Bool
  pub tombstones : BTreeMap Ending
  pub spawn_cwd : Option String

-- What the system answers to the calls of one operation: whether a pane's terminal and child can be
-- had, whether a terminal takes a size, whether it takes a write and how many of its bytes if not,
-- whether a session store is attached whose authority this process holds, whether a tombstone can be
-- written, and the time.
pub record SystemIo : Type 0 where
  pub spawn_ok : Bool
  pub resize_ok : ℕ → Bool
  pub write_ok : Bool
  pub delivered : ℕ
  pub durable : Bool
  pub tombstone_ok : ℕ → Bool
  pub now_unix : ℕ

abbrev pub no_subscribers : PaneSubscribers
no_subscribers = record { closed = none; senders = [] }

-- `PaneDir::write_tombstone` of makimono/src/store.rs: the first ending stays.
unfoldable pub write_tombstone : SystemIo → ℕ → Ending → BTreeMap Ending → BTreeMap Ending
write_tombstone io pane ending tombstones =
    if contains_key pane tombstones
    then tombstones
    else if io.tombstone_ok pane
    then insert pane ending tombstones
    else tombstones

-- A size of at least one cell each way.
abbrev pub at_least_one : Cells → Cells
at_least_one size = record { cols = max size.cols 1; rows = max size.rows 1 }

-- The first phase of `apply_layout_geometry`, for the rectangles of one window.
unfoldable pub stamp_rects : List (ℕ × Rect) → BTreeMap TearPane → BTreeMap TearPane
stamp_rects [] records = records
stamp_rects ((pane, rect) ∷ rects) records = stamp_rects rects (
    modify pane
      (λ p. record p {
        size_cells = record { cols = max rect.w 1; rows = max rect.h 1 };
        origin_cells = record { cols = rect.x; rows = rect.y };
      })
      records)

module _ {Num : Type 0} where
  -- `sessions.values().any(|s| s.panes.contains_key(pane))`
  abbrev pub in_registry : ℕ → Registry Num → Bool
  in_registry pane [] = false
  in_registry pane ((sid, s) ∷ r) = contains_key pane s.panes || in_registry pane r

  -- The loop of `record_human_end`, over the panes of a store that is attached.
  unfoldable pub end_by_human : SystemIo → Registry Num → List ℕ → BTreeMap Ending → BTreeMap Ending
  unfolding write_tombstone
  end_by_human io r [] tombstones = tombstones
  end_by_human io r (pane ∷ more) tombstones = end_by_human io r more (
      if io.durable && in_registry pane r
      then write_tombstone io pane (ended_by_control io.now_unix) tombstones
      else tombstones)

  -- `InProcess::record_human_end` of inproc/durable.rs
  unfoldable pub record_human_end : SystemIo → List ℕ → InProcess Num → InProcess Num
  record_human_end io dying st = record st {
    tombstones = end_by_human io st.registry dying st.tombstones;
  }

  -- `InProcess::detach_panes`
  unfoldable pub detach_panes : List ℕ → InProcess Num → InProcess Num
  detach_panes dying st = record st {
    ptys = remove_all dying st.ptys;
    grids = remove_all dying st.grids;
    subscribers = remove_all dying st.subscribers;
    recordings = remove_all dying st.recordings;
  }

  -- The two writes of `record_absolute_size` in the session that shows the pane.
  unfoldable pub record_size : ℕ → ℕ → Cells → TearSession Num → TearSession Num
  record_size wid id size s = record s {
    panes = modify id (λ p. record p { size_cells = at_least_one size }) s.panes;
    windows =
        modify wid
          (λ w.
            if length (panes w.layout) == 1 then record w { size_cells = at_least_one size } else w)
          s.windows;
  }

  -- `InProcess::record_absolute_size`
  unfoldable pub record_absolute_size : ℕ → Cells → Registry Num → Registry Num
  unfolding record_size
  record_absolute_size id size r = elim (locate_pane r id) [
    | none ↦ r
    | some at ↦ modify at.0 (record_size at.1 id size) r
  ]

  -- `InProcess::pane_resize_absolute`
  unfoldable pub pane_resize_absolute :
      SystemIo → ℕ → Cells → InProcess Num → InProcess Num × ControlResult (Unit {0})
  unfolding record_absolute_size
  pane_resize_absolute io id size st =
      if contains_key id st.ptys
      then (if io.resize_ok id
          then (
            record st {
              ptys = modify id (λ pty. record pty { winsize = size }) st.ptys;
              grids = modify id (λ grid. size) st.grids;
              registry = record_absolute_size id size st.registry;
            },
            done tt,
          )
          else (st, fails ControlError.internal))
      else (st, fails (ControlError.no_such_pane id))

  -- Its second phase: each terminal is given its size, and a failure is passed over.
  unfoldable pub resize_ptys : SystemIo → List (ℕ × Rect) → InProcess Num → InProcess Num
  unfolding pane_resize_absolute
  resize_ptys io [] st = st
  resize_ptys io ((pane, rect) ∷ rects) st = resize_ptys io rects (
      if rect.w == 0 || rect.h == 0
      then st
      else (pane_resize_absolute io pane (record { cols = rect.w; rows = rect.h }) st).0)

  -- The rectangles of a window's panes in its own size.
  unfoldable pub window_rects : ⦃f : Float Num⦄ → TearWindow Num → List (ℕ × Rect)
  window_rects w = compute_rects w.layout (sized w.size_cells.cols w.size_cells.rows)

  -- `InProcess::apply_layout_geometry`
  unfoldable pub apply_layout_geometry :
      ⦃f : Float Num⦄ → SystemIo → ℕ → ℕ → InProcess Num → InProcess Num
  unfolding stamp_rects resize_ptys window_rects
  apply_layout_geometry io sid wid st = elim (get sid st.registry) [
    | none ↦ st
    | some s ↦ elim (get wid s.windows) [
      | none ↦ st
      | some w ↦ resize_ptys io (window_rects w) (record st {
        registry =
            modify sid (λ s. record s { panes = stamp_rects (window_rects w) s.panes }) st.registry;
      })
    ]
  ]
