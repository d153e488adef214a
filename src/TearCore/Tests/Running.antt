-- ===== src/TearCore/Tests/Running.antt =====
-- Sequences of calls, and the exit of a child, on two panes of one session
-- (tear-core/src/inproc.rs).
use tear.Base.{ℕ, ◌≡◌, refl, true, none, some, if◌then◌else◌, arith, nat_eq}
use tear.Base.Int.{pos}
use tear.Base.Maps.{get, contains_key}
use tear.Kukaku.Fixed.{fixed_float, fixed-IsIeee}
use tear.TearCore.Registry.{create_session, add_window, open_window, locate_pane, window_showing}
use tear.TearCore.Runtime.{
  apply_layout_geometry, resize_ptys, stamp_rects, pane_resize_absolute, record_absolute_size,
  record_size, window_rects,
}
use tear.TearCore.Spawning.{
  new_session, split_pane, split_session, split_window, spawn_pty_with, drop_if_orphaned,
}
use tear.TearCore.Reachable.{Step, here, next, Reach-RegistryIsValid}
use tear.TearCore.Validity.{RegistryIsValid}
use tear.Kukaku.Layout.{split_leaf, panes}
use tear.Kukaku.Rects.{lay_out, split_rect, split_extent, compute_rects}
use tear.TearCore.Runtime.{Ending, write_tombstone}
use tear.TearCore.Exit.{on_exit, end_pane, close_stream, reap_unwatched, mark_exited}
use tear.TearCore.Exit.Safety.{Runs, on_exit-KeepsRunning}
use tear.TearCore.Exit.Reaping.{on_exit-Reaps}
use tear.TearCore.Closing.{kill_session}
use tear.TearCore.Reachable.Endings.{Reach-KeepsEndings}
use tear.TearCore.Reachable.Owned.{AreOwned}
use tear.TearCore.Reachable.Terminals.{Reach-AreOwned}
use tear.TearCore.Tests.{
  io, one, two, one-Reach, two-Reach, pane_at, session_one, session_two, one_reads, two_reads,
  two_IsValid,
}

Reach-RegistryIsValid_example : RegistryIsValid two.registry
Reach-RegistryIsValid_example = Reach-RegistryIsValid fixed-IsIeee two-Reach

Runs-101 : Runs 1 101 (pane_at 101 40 40) two
Runs-101 = record { session = session_two; there = two_reads; recorded = refl; running = refl }

on_exit-KeepsRunning_example :
    Runs 1 101 (pane_at 101 40 40) (on_exit io true 100 (some (pos 0)) two)
    × (get 101 (on_exit io true 100 (some (pos 0)) two).ptys ≡ get 101 two.ptys)
on_exit-KeepsRunning_example =
    on_exit-KeepsRunning io true 100 (some (pos 0)) 1 101 (pane_at 101 40 40) two two_IsValid
      (λ e. omega (arith, e)) Runs-101

on_exit-Reaps_example :
    (get 1 (on_exit io true 100 (some (pos 0)) one).registry ≡ none)
    × ((q : ℕ)
        → get q (on_exit io true 100 (some (pos 0)) one).ptys
          ≡ (if contains_key q session_one.panes then none else get q one.ptys))
unfolding new_session add_window create_session spawn_pty_with drop_if_orphaned open_window
on_exit-Reaps_example =
    on_exit-Reaps io true 100 (some (pos 0)) 1 one session_one
      (Reach-RegistryIsValid fixed-IsIeee one-Reach) one_reads refl refl (λ q h. refl)

ended : get 100 (on_exit io true 100 none two).tombstones ≡ some (Ending.exited none)
unfolding new_session add_window create_session spawn_pty_with drop_if_orphaned open_window
    split_pane split_session split_window locate_pane window_showing apply_layout_geometry
    stamp_rects resize_ptys window_rects pane_resize_absolute record_absolute_size record_size
    split_leaf compute_rects lay_out split_rect split_extent on_exit end_pane close_stream
    reap_unwatched mark_exited write_tombstone panes
ended = refl

Reach-KeepsEndings_example :
    get 100 (kill_session io 1 (on_exit io true 100 none two)).0.tombstones
    ≡ some (Ending.exited none)
Reach-KeepsEndings_example =
    Reach-KeepsEndings (next here (Step.session_killed io 1)) 100 (Ending.exited none) ended

Reach-AreOwned_example : AreOwned (kill_session io 1 two).0
Reach-AreOwned_example = Reach-AreOwned fixed-IsIeee (next two-Reach (Step.session_killed io 1))
