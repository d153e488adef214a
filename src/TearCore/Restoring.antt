-- ===== src/TearCore/Restoring.antt =====
-- tear-core/src/inproc/durable.rs: what a daemon makes, when it starts, of the sessions that an earlier
-- one has left in the store.
pub mod Windows
pub mod Pruning
pub mod Attaching
pub mod Validity
pub mod Marks
pub mod Outcome
pub mod Documents
pub mod Started
pub mod Restart
use tear.Base.{
  ℕ, Bool, true, false, ◌&&◌, List, [], ◌∷◌, Option, none, some, if◌then◌else◌, ◌+◌, nat_eq, length,
}
use tear.Base.Int.{minus_one}
use tear.Base.Maps.{BTreeMap, get, contains_key, insert, remove, modify, first_key}
use tear.Kukaku.Layout.{removed, was_root, not_found, remove_leaf}
use tear.Makimono.Lease.{IoResult, ok, failed}
use tear.TearTypes.Pane.{TearPane, Cells, PaneState}
use tear.TearTypes.Session.{TearSession, TearWindow}
use tear.TearCore.Runtime.{InProcess, Ending, at_least_one}
use tear.TearCore.Closing.{shrink_window}
use tear.TearCore.Exit.{mark_exited, entry_or_default}

-- `Verdict` and `classify` of makimono/src/ending.rs
pub data Verdict : Type 0 where
  held orphaned : Verdict
  ended : Ending → Verdict

unfoldable pub classify : Option Ending → Bool → Verdict
classify (some ending) holder_answers = ended ending
classify none true = held
classify none false = orphaned

-- What the store has of a pane: its metadata, of which only the size is kept, its tombstone; and
-- whether a holder answers at the socket that the metadata names.
pub record PaneOnDisk : Type 0 where
  pub size : Option Cells
  pub tombstone : IoResult (Option Ending)
  pub answers : Bool

-- How the attempt to take over a holder ends: `denied` where the daemon has lost the store.
pub data Adoption : Type 0 where
  adopted denied gone : Adoption

-- What the system answers to `attach_restored` for one pane: the two looks at the authority, the
-- pane's directory, the holder that answered, and, for a new one, the metadata and the launch.
pub record AttachIo : Type 0 where
  pub holds : Bool
  pub created : Bool
  pub adoption : Adoption
  pub still_holds : Bool
  pub meta_written : Bool
  pub launched : Bool

pub record RestoreReport : Type 0 where
  pub sessions : ℕ
  pub adopted : ℕ
  pub resurrected : ℕ
  pub ended : ℕ
  pub failed : ℕ

abbrev pub empty_report : RestoreReport
empty_report = record { sessions = 0; adopted = 0; resurrected = 0; ended = 0; failed = 0 }

-- A pane to be attached: its id, the size in its metadata, and whether it is revived.
abbrev pub Planned : Type 0
Planned = ℕ × Cells × Bool

module _ (disk : ℕ → PaneOnDisk) where
  -- The verdict on a pane. A tombstone that cannot be read counts as none.
  unfoldable pub verdict_on : ℕ → Verdict
  unfolding classify
  verdict_on pane =
      let found : Option Ending = elim (disk pane).tombstone [ ok t ↦ t | failed ↦ none ] in
      classify found (disk pane).answers

  -- The panes that the first loop of `restore_session` finds ended.
  unfoldable pub ended_panes : BTreeMap TearPane → List ℕ
  ended_panes [] = []
  ended_panes ((pid, pane) ∷ panes) =
      let rest = ended_panes panes in
      elim (verdict_on pid) [ ended e ↦ pid ∷ rest | held ↦ rest | orphaned ↦ rest ]

  -- The others, with what to do for them. `synth_meta` takes the size of the pane's record.
  unfoldable pub restore_plan : BTreeMap TearPane → List Planned
  restore_plan [] = []
  restore_plan ((pid, pane) ∷ panes) =
      let rest = restore_plan panes in
      let size : Cells = elim (disk pid).size [ some s ↦ s | none ↦ pane.size_cells ] in
      elim (verdict_on pid) [
        | ended e ↦ rest
        | held ↦ (pid, size, false) ∷ rest
        | orphaned ↦ (pid, size, true) ∷ rest
      ]

-- `for p in session.panes.values_mut() { p.state = PaneState::Running; }`
unfoldable pub set_running : BTreeMap TearPane → BTreeMap TearPane
set_running [] = []
set_running ((pid, pane) ∷ panes) =
    (pid, record pane { state = PaneState.running }) ∷ set_running panes

-- The end of `attach_restored`: a holder that is started anew.
unfoldable pub launch_restored : AttachIo → Bool
launch_restored io = io.still_holds && io.meta_written && io.launched

-- Whether `attach_restored` gets a holder, once the pane has its grid.
unfoldable pub gets_holder : AttachIo → Bool → Bool
unfolding launch_restored
gets_holder io true = launch_restored io
gets_holder io false = elim io.adoption [
  | adopted ↦ true
  | denied ↦ false
  | gone ↦ launch_restored io
]

-- A directory of the store, with the document in it.
pub record SessionOnDisk (Num : Type 0) : Type 0 where
  pub id : ℕ
  pub doc : IoResult (Option (TearSession Num))

module _ {Num : Type 0} where
  -- The loop of `prune_pane` over the windows, and the removal of those that it has emptied.
  unfoldable pub prune_windows : ℕ → BTreeMap (TearWindow Num) → BTreeMap (TearWindow Num)
  unfolding shrink_window
  prune_windows pid [] = []
  prune_windows pid ((wid, w) ∷ windows) =
      let rest = prune_windows pid windows in
      elim (remove_leaf w.layout pid).1 [
        | was_root ↦ rest
        | removed ↦ (wid, shrink_window pid w) ∷ rest
        | not_found ↦ (wid, record w { layout = (remove_leaf w.layout pid).0 }) ∷ rest
      ]

  -- `prune_pane`
  unfoldable pub prune_pane : ℕ → TearSession Num → TearSession Num
  prune_pane pid s =
      let windows = prune_windows pid s.windows in
      record s {
        panes = remove pid s.panes;
        windows = windows;
        active_window =
            if contains_key s.active_window windows then s.active_window else first_key windows;
      }

  unfoldable pub prune_all : List ℕ → TearSession Num → TearSession Num
  prune_all [] s = s
  prune_all (pid ∷ more) s = prune_all more (prune_pane pid s)

  -- `InProcess::attach_restored`
  unfoldable pub attach_restored :
      AttachIo → Planned → InProcess Num → InProcess Num × IoResult (Unit {0})
  unfolding gets_holder
  attach_restored io (pid, meta_size, revive) st =
      let size = at_least_one meta_size in
      let with_grid = record st { grids = insert pid size st.grids } in
      if io.holds && io.created
      then (if gets_holder io revive
          then (
            record with_grid {
              ptys = insert pid (record { winsize = size; written = [] }) st.ptys;
            },
            ok tt,
          )
          else (with_grid, failed))
      else (st, failed)

  -- The `Err` arm of the loop: the pane is shown as exited, and its stream as closed.
  unfoldable pub give_up : ℕ → ℕ → InProcess Num → InProcess Num
  unfolding mark_exited
  give_up sid pid st = record st {
    grids = remove pid st.grids;
    registry = modify sid (mark_exited pid minus_one) st.registry;
    subscribers =
        insert pid (record (entry_or_default (get pid st.subscribers)) { closed = some minus_one })
          st.subscribers;
  }

  -- One round of the loop over the plan.
  unfoldable pub attach_planned :
      (ℕ → AttachIo) → ℕ → Planned → InProcess Num × RestoreReport → InProcess Num × RestoreReport
  attach_planned ios sid (pid, size, revive) (st, report) =
      let (after, result) = attach_restored (ios pid) (pid, size, revive) st in
      elim result [
        | ok u ↦ (
          after,
          if revive
              then record report { resurrected = report.resurrected + 1 }
              else record report { adopted = report.adopted + 1 },
        )
        | failed ↦ (give_up sid pid after, record report { failed = report.failed + 1 })
      ]

  unfoldable pub attach_all :
      (ℕ → AttachIo)
      → ℕ
      → List Planned
      → InProcess Num × RestoreReport
      → InProcess Num × RestoreReport
  attach_all ios sid [] st = st
  attach_all ios sid (p ∷ plan) st = attach_all ios sid plan (attach_planned ios sid p st)

  -- `InProcess::restore_session`. A session of which nothing is left goes to the archive.
  unfoldable pub restore_session :
      (ℕ → PaneOnDisk)
      → (ℕ → AttachIo)
      → TearSession Num
      → InProcess Num × RestoreReport
      → InProcess Num × RestoreReport
  restore_session disk ios doc (st, report) =
      let over = ended_panes disk doc.panes in
      let counted = record report { ended = report.ended + length over } in
      let pruned = prune_all over doc in
      elim pruned.panes [
        | [] ↦ (st, counted)
        | p ∷ more ↦ attach_all ios doc.id (restore_plan disk doc.panes) (
          record st {
            registry =
                insert doc.id (record pruned { panes = set_running pruned.panes }) st.registry;
          },
          record counted { sessions = counted.sessions + 1 },
        )
      ]

  -- The loop of `restore_durable` over the directories.
  unfoldable pub restore_durable :
      (ℕ → PaneOnDisk)
      → (ℕ → AttachIo)
      → List (SessionOnDisk Num)
      → InProcess Num × RestoreReport
      → InProcess Num × RestoreReport
  restore_durable disk ios [] (st, report) = (st, report)
  restore_durable disk ios (dir ∷ dirs) (st, report) = restore_durable disk ios dirs (
      if contains_key dir.id st.registry then (st, report) else elim dir.doc [
        | failed ↦ (st, record report { failed = report.failed + 1 })
        | ok found ↦ elim found [
          | none ↦ (st, report)
          | some doc ↦ restore_session disk ios doc (st, report)
        ]
      ])
