-- ===== src/TearCore/Tests/Restarting.antt =====
-- A daemon that starts over a store (tear-core/src/inproc/durable.rs), at one session of which a pane
-- has ended, and one that has ended as a whole.
use tear.Base.{
  ℕ, ◌≡◌, ◌||◌, refl, true, false, [], ◌∷◌, none, some, arith, ◌==◌, if◌then◌else◌, nat_eq,
  Bool-cases, inl, inr, subst, List,
}
use tear.Base.Int.{pos}
use tear.Base.Maps.{get, contains_key, Ascending}
use tear.Kukaku.Fixed.{Fixed, fixed_float, fixed-IsIeee}
use tear.Kukaku.Layout.{leaf, remove_leaf, split_leaf, panes}
use tear.Kukaku.Rects.{lay_out, split_rect, split_extent, compute_rects}
use tear.Makimono.Lease.{ok, failed}
use tear.TearTypes.Session.{TearSession, TearWindow, WindowState, SessionSource}
use tear.TearCore.Registry.{create_session, add_window, open_window, locate_pane, window_showing}
use tear.TearCore.Runtime.{
  InProcess, Ending, apply_layout_geometry, resize_ptys, stamp_rects, pane_resize_absolute,
  record_absolute_size, record_size, window_rects,
}
use tear.TearCore.Spawning.{
  Minted, new_session, split_pane, split_session, split_window, spawn_pty_with, drop_if_orphaned,
}
use tear.TearCore.Closing.{shrink_window}
use tear.TearCore.Reachable.{
  Step, Reach, here, next, empty_process, AreFresh, Reach-RegistryIsValid,
}
use tear.TearCore.Validity.{RegistryIsValid}
use tear.TearCore.Restoring.{
  PaneOnDisk, Adoption, AttachIo, RestoreReport, SessionOnDisk, empty_report, restore_session,
  restore_durable, restore_plan, ended_panes, attach_all, attach_planned, attach_restored,
  gets_holder, prune_all, prune_pane, prune_windows, set_running, verdict_on, classify,
}
use tear.TearCore.Restoring.Validity.{IsApart}
use tear.TearCore.Restoring.Documents.{documents}
use tear.TearCore.Restoring.Started.{IsRestarted}
use tear.TearCore.Restoring.Restart.{restore_durable-IsRestarted}
use tear.TearCore.Tests.{io, spec, pane_at, session_two, two, two-Reach, size}

-- The children of panes 100 and 300 have exited; that of pane 101 runs, and its holder answers.
abbrev on_disk : ℕ → PaneOnDisk
on_disk pane = record {
  size = some size;
  tombstone =
      if pane == 100 || pane == 300 then ok (some (Ending.exited (some (pos 0)))) else ok none;
  answers = true;
}

abbrev answer : ℕ → AttachIo
answer pane = record {
  holds = true;
  created = true;
  adoption = Adoption.adopted;
  still_holds = true;
  meta_written = true;
  launched = true;
}

abbrev window_two : TearWindow Fixed
window_two = record {
  id = 10;
  name = "main";
  layout = leaf 101;
  active_pane = 101;
  size_cells = size;
  state = WindowState.active;
}

-- A second session, of one pane, which has exited as well.
abbrev ids_three : Minted
ids_three = record { session_id = 3; window_id = 30; pane_id = 300 }

abbrev both : InProcess Fixed
both = (new_session io ids_three "logs" spec SessionSource.agent size two).0

new_to_two : (contains_key 3 two.registry ≡ false) × AreFresh ids_three two
unfolding new_session add_window create_session spawn_pty_with drop_if_orphaned open_window
    split_pane split_session split_window locate_pane window_showing apply_layout_geometry
    stamp_rects resize_ptys window_rects pane_resize_absolute record_absolute_size record_size
    split_leaf compute_rects lay_out split_rect split_extent panes
new_to_two = (refl, record { new_window_id = refl; new_pane_id = refl })

both-Reach : Reach (empty_process none) both
both-Reach =
    next two-Reach (
      Step.session_opens io ids_three "logs" spec SessionSource.agent size new_to_two.0
        new_to_two.1)

abbrev session_three : TearSession Fixed
session_three = record session_two {
  id = 3;
  name = "logs";
  windows = (30, record window_two { id = 30; layout = leaf 300; active_pane = 300 }) ∷ [];
  panes = (300, pane_at 300 0 80) ∷ [];
  active_window = 30;
}

-- The documents of the two sessions, and one between them that cannot be read.
abbrev dirs : List (SessionOnDisk Fixed)
dirs =
    record { id = 1; doc = ok (some session_two) }
    ∷ record { id = 2; doc = failed }
    ∷ record { id = 3; doc = ok (some session_three) }
    ∷ []

both_reads : both.registry ≡ documents dirs
unfolding new_session add_window create_session spawn_pty_with drop_if_orphaned open_window
    split_pane split_session split_window locate_pane window_showing apply_layout_geometry
    stamp_rects resize_ptys window_rects pane_resize_absolute record_absolute_size record_size
    split_leaf compute_rects lay_out split_rect split_extent panes
both_reads = refl

in_order :
    (sid : ℕ) (doc : TearSession Fixed)
    → get sid (documents dirs) ≡ some doc
    → Ascending doc.panes × IsApart {Num = Fixed} [] doc
in_order sid doc at = (
  elim (Bool-cases (1 == sid)) [
    | inl own ↦
        let e : session_two ≡ doc = ground arith in subst (λ x. Ascending x.panes) e (ground arith)
    | inr other ↦ elim (Bool-cases (3 == sid)) [
      | inl own ↦
          let e : session_three ≡ doc = ground arith in subst (λ x. Ascending x.panes) e (tt, tt)
      | inr none_other ↦ absurd (ground arith)
    ]
  ],
  record { panes_new = λ pane h. refl; windows_new = λ wid h. refl },
)

abbrev restored : InProcess Fixed × RestoreReport
restored = restore_durable on_disk answer dirs (empty_process none, empty_report)

restore_durable-IsRestarted_example :
    IsRestarted on_disk answer (documents dirs) (empty_process none) restored.0
restore_durable-IsRestarted_example =
    restore_durable-IsRestarted fixed-IsIeee on_disk answer dirs (empty_process none) empty_report
      (Reach-RegistryIsValid fixed-IsIeee {cwd = none} here)
      (subst RegistryIsValid both_reads (Reach-RegistryIsValid fixed-IsIeee both-Reach)) in_order

-- Of the first session the pane that runs is left, and nothing of the second.
reads_restored :
    get 1 restored.0.registry
    ≡ some (record session_two {
      windows = (10, window_two) ∷ [];
      panes = (101, pane_at 101 40 40) ∷ [];
    })
unfolding restore_durable restore_session restore_plan ended_panes attach_all attach_planned
    attach_restored gets_holder prune_all prune_pane prune_windows shrink_window remove_leaf
    set_running verdict_on classify
reads_restored = refl

report_restored :
    restored.1 ≡ record { sessions = 1; adopted = 1; resurrected = 0; ended = 2; failed = 1 }
unfolding restore_durable restore_session restore_plan ended_panes attach_all attach_planned
    attach_restored gets_holder prune_all prune_pane prune_windows remove_leaf verdict_on classify
report_restored = refl
