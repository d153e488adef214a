-- ===== src/TearCore/Tests.antt =====
-- The multiplexer of tear-core/src/inproc.rs at concrete inputs. Numbers are the fixed-point ones.
mod Running
mod Operating
mod Restarting
use Prim.Native.String.{String}
use tear.Base.{
  ℕ, ◌≡◌, ◌≢◌, ◌↔◌, ◌⊎◌, refl, Bool, true, false, ◌&&◌, ◌||◌, List, [], ◌∷◌, ◌++◌, Option, none,
  some, if◌then◌else◌, ◌==◌, arith, elem, nat_eq,
}
use tear.Base.Int.{ℤ, pos}
use tear.Base.Maps.{get, contains_key, remove, keys}
use tear.Kukaku.Direction.{Direction, SplitOrientation}
use tear.Kukaku.Fixed.{Fixed, num, fixed_float, fixed-IsIeee}
use tear.Kukaku.Layout.{leaf, split}
use tear.TearTypes.Control.{ControlError, done, fails}
use tear.TearTypes.Pane.{
  TearPane, Cells, Yurai, InputPolicy, PaneState, is_automation, is_unknown, is_exited,
}
use tear.TearTypes.Session.{
  TearSession, SessionSource, WindowState, SessionState, Freio, Admission, RefusalReason,
  policy_admission, admits,
}
use tear.TearCore.Registry
use tear.TearCore.Registry.{
  PaneSpec, create_session, add_window, open_window, locate_pane, window_showing,
}
use tear.TearCore.Runtime
use tear.TearCore.Runtime.{
  InProcess, SystemIo, apply_layout_geometry, resize_ptys, stamp_rects, pane_resize_absolute,
  record_absolute_size, record_size, window_rects,
}
use tear.TearCore.Spawning.{
  Minted, new_session, new_window, split_pane, split_session, split_window, spawn_pty_with,
  drop_if_orphaned,
}
use tear.TearCore.Reachable.{Step, Reach, here, next, empty_process, Reach-RegistryIsValid}
use tear.TearCore.Validity.{RegistryIsValid}
use tear.Kukaku.Layout.{split_leaf, panes}
use tear.Kukaku.Rects.{lay_out, split_rect, split_extent, compute_rects}
use tear.TearCore.Validity.Locating.{Holds, locate_pane_lem}
use tear.TearCore.Runtime.{Ending, write_tombstone}
use tear.TearCore.Exit.{on_exit, end_pane, close_stream, reap_unwatched, mark_exited}
use tear.TearCore.Exit.Safety.{Runs, on_exit-KeepsRunning}
use tear.TearCore.Exit.Reaping.{on_exit-Reaps}
use tear.TearCore.Closing.{kill_session}
use tear.TearCore.Closing.Detaching.{IsDetached, ending_of, kill_session-Closes}
use tear.TearCore.Reachable.Endings.{Reach-KeepsEndings}
use tear.TearCore.Brake.{is_wanted, set_freio}
use tear.TearCore.Brake.Admission.{set_freio-Brakes}
use tear.TearCore.Steering.{send_keys}
use tear.TearCore.Steering.Input.{takes, written_to, send_keys-Delivers}
use tear.TearCore.Spawning.Outcome.{new_window-Opens}

abbrev io : SystemIo
io = record {
  spawn_ok = true;
  resize_ok = λ pane. true;
  write_ok = true;
  delivered = 0;
  durable = true;
  tombstone_ok = λ pane. true;
  now_unix = 1700000000;
}

abbrev ids : Minted
ids = record { session_id = 1; window_id = 10; pane_id = 100 }

abbrev spec : PaneSpec
spec = record {
  shell = "zsh";
  args = [];
  cwd = none;
  env = [];
  yurai = Yurai.automation (some "ci");
}

abbrev size : Cells
size = record { cols = 80; rows = 24 }

-- One session with one pane, and the same with the pane split to the right.
abbrev one : InProcess Fixed
one = (new_session io ids "work" spec SessionSource.agent size (empty_process none)).0

abbrev two : InProcess Fixed
two = (split_pane io 101 100 Direction.right spec one).0

one-Reach : Reach (empty_process none) one
one-Reach = next here (
    Step.session_opens io ids "work" spec SessionSource.agent size refl
      (record { new_window_id = refl; new_pane_id = refl }))

fresh_101 : Runtime.in_registry 101 one.registry ≡ false
unfolding new_session add_window create_session spawn_pty_with drop_if_orphaned open_window
fresh_101 = refl

two-Reach : Reach (empty_process none) two
two-Reach = next one-Reach (Step.pane_splits io 101 100 Direction.right spec fresh_101)

-- A pane of the session, at its column.
abbrev pane_at : ℕ → ℕ → ℕ → TearPane
pane_at id col cols = record {
  id = id;
  shell = "zsh";
  args = [];
  cwd = none;
  env = [];
  size_cells = record { cols = cols; rows = 24 };
  origin_cells = record { cols = col; rows = 0 };
  state = PaneState.running;
  title = "zsh";
  input_policy = InputPolicy.free;
  yurai = Yurai.automation (some "ci");
}

abbrev session_one : TearSession Fixed
session_one = record {
  id = 1;
  name = "work";
  windows =
      (
        10,
        record {
          id = 10;
          name = "main";
          layout = leaf 100;
          active_pane = 100;
          size_cells = size;
          state = WindowState.active;
        },
      )
      ∷ [];
  panes = (100, pane_at 100 0 80) ∷ [];
  active_window = 10;
  state = SessionState.active;
  created_at_unix = 1700000000;
  description = "";
  source = SessionSource.agent;
  freio = Freio.released;
}

abbrev session_two : TearSession Fixed
session_two = record session_one {
  windows =
      (
        10,
        record {
          id = 10;
          name = "main";
          layout =
              split SplitOrientation.vertical (record { value = num 1000500 }) (leaf 100)
                (leaf 101);
          active_pane = 101;
          size_cells = size;
          state = WindowState.active;
        },
      )
      ∷ [];
  panes = (100, pane_at 100 0 40) ∷ (101, pane_at 101 40 40) ∷ [];
}

one_reads : get 1 one.registry ≡ some session_one
unfolding new_session add_window create_session spawn_pty_with drop_if_orphaned open_window
one_reads = refl

two_reads : get 1 two.registry ≡ some session_two
unfolding new_session add_window create_session spawn_pty_with drop_if_orphaned open_window
    split_pane split_session split_window locate_pane window_showing apply_layout_geometry
    stamp_rects resize_ptys window_rects pane_resize_absolute record_absolute_size record_size
    split_leaf compute_rects lay_out split_rect split_extent panes
two_reads = refl

two_IsValid : RegistryIsValid two.registry
two_IsValid = Reach-RegistryIsValid fixed-IsIeee two-Reach
