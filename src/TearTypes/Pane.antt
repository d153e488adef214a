-- ===== src/TearTypes/Pane.antt =====
-- tear-types/src/pane.rs and yurai.rs: a pane's record, who spawned it and what input it accepts.
use Prim.Native.String.{String}
use tear.Base.{ℕ, Bool, true, false, List, Option, none, some}
use tear.Base.Int.{ℤ}

-- `Yurai`: what kind of actor spawned the pane.
pub data Yurai : Type 0 where
  unknown human : Yurai
  automation : Option String → Yurai

-- `Yurai::is_automation`
abbrev pub is_automation : Yurai → Bool
is_automation (Yurai.automation label) = true
is_automation _ = false

-- `matches!(yurai, Yurai::Unknown)`
abbrev pub is_unknown : Yurai → Bool
is_unknown Yurai.unknown = true
is_unknown _ = false

pub data InputPolicy : Type 0 where
  free locked : InputPolicy
  leader : ℕ → InputPolicy

-- `InputPolicy::leader_id`
abbrev pub leader_id : InputPolicy → Option ℕ
leader_id (InputPolicy.leader id) = some id
leader_id _ = none

-- `matches!(policy, InputPolicy::Locked)`
abbrev pub is_locked : InputPolicy → Bool
is_locked InputPolicy.locked = true
is_locked _ = false

pub data PaneState : Type 0 where
  running spawning : PaneState
  exited : ℤ → PaneState

-- `matches!(state, PaneState::Exited { .. })`
abbrev pub is_exited : PaneState → Bool
is_exited (PaneState.exited code) = true
is_exited _ = false

-- A size or a position in cells.
pub record Cells : Type 0 where
  pub cols : ℕ
  pub rows : ℕ

pub record TearPane : Type 0 where
  pub id : ℕ
  pub shell : String
  pub args : List String
  pub cwd : Option String
  pub env : List (String × String)
  pub size_cells : Cells
  pub origin_cells : Cells
  pub state : PaneState
  pub title : String
  pub input_policy : InputPolicy
  pub yurai : Yurai
