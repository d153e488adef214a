-- ===== src/TearCore/Registry.antt =====
-- tear-core/src/registry.rs: which sessions, windows and panes exist. The ids that the source mints
-- from a hash of the clock and a counter are arguments here.
use Prim.Native.String.{String}
use tear.Base.{ℕ, List, [], ◌∷◌, Option, none, some, if◌then◌else◌, ◌==◌, elem, nat_eq}
use tear.Base.Maps.{BTreeMap, insert, modify, contains_key}
use tear.Kukaku.Layout.{leaf, panes}
use tear.TearTypes.Pane.{TearPane, Cells, InputPolicy, PaneState, Yurai}
use tear.TearTypes.Session.{
  TearSession, TearWindow, WindowState, SessionState, SessionSource, Freio, null_id,
}

abbrev pub Registry : Type 0 → Type 0
Registry Num = BTreeMap (TearSession Num)

-- What a pane is spawned with.
pub record PaneSpec : Type 0 where
  pub shell : String
  pub args : List String
  pub cwd : Option String
  pub env : List (String × String)
  pub yurai : Yurai

-- The record of a pane that has just been spawned.
abbrev pub fresh_pane : ℕ → PaneSpec → Cells → TearPane
fresh_pane pane_id spec size = record {
  id = pane_id;
  shell = spec.shell;
  args = spec.args;
  cwd = spec.cwd;
  env = spec.env;
  size_cells = size;
  origin_cells = record { cols = 0; rows = 0 };
  state = PaneState.running;
  title = spec.shell;
  input_policy = InputPolicy.free;
  yurai = spec.yurai;
}

module _ {Num : Type 0} where
  -- The session that `Registry::create_session` inserts.
  abbrev pub empty_session : ℕ → String → ℕ → TearSession Num
  empty_session id name now = record {
    id = id;
    name = name;
    windows = [];
    panes = [];
    active_window = null_id;
    state = SessionState.active;
    created_at_unix = now;
    description = "";
    source = SessionSource.human;
    freio = Freio.released;
  }

  -- `Registry::create_session`
  unfoldable pub create_session : ℕ → String → ℕ → Registry Num → Registry Num
  create_session id name now r = insert id (empty_session id name now) r

  -- The window that `Registry::add_window` builds, with its one pane.
  abbrev pub seed_window : ℕ → String → ℕ → Cells → TearWindow Num
  seed_window win_id name pane_id size = record {
    id = win_id;
    name = name;
    layout = leaf pane_id;
    active_pane = pane_id;
    size_cells = size;
    state = WindowState.active;
  }

  -- What `Registry::add_window` does to the session that it finds.
  unfoldable pub open_window : ℕ → ℕ → String → PaneSpec → Cells → TearSession Num → TearSession Num
  open_window win_id pane_id name spec size s = record s {
    windows = insert win_id (seed_window win_id name pane_id size) s.windows;
    panes = insert pane_id (fresh_pane pane_id spec size) s.panes;
    active_window = if s.active_window == null_id then win_id else s.active_window;
  }

  -- `Registry::add_window`
  unfoldable pub add_window :
      ℕ → ℕ → ℕ → String → PaneSpec → Cells → Registry Num → Option (Registry Num)
  add_window session_id win_id pane_id name spec size r =
      if contains_key session_id r
      then some (modify session_id (open_window win_id pane_id name spec size) r)
      else none

  -- The inner loop of `Registry::locate_pane`.
  unfoldable pub window_showing : BTreeMap (TearWindow Num) → ℕ → Option ℕ
  window_showing [] pane = none
  window_showing ((wid, w) ∷ windows) pane =
      if elem pane (panes w.layout) then some wid else window_showing windows pane

  -- `Registry::locate_pane`
  unfoldable pub locate_pane : Registry Num → ℕ → Option (ℕ × ℕ)
  locate_pane [] pane = none
  locate_pane ((sid, s) ∷ r) pane =
      let later = locate_pane r pane in
      if contains_key pane s.panes
      then (elim (window_showing s.windows pane) [ some wid ↦ some (s.id, wid) | none ↦ later ])
      else later
