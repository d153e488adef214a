-- ===== src/TearTypes/Session.antt =====
-- tear-types/src/session.rs, window.rs and freio.rs: a session's windows and panes, and the
-- operator's brake on the panes that automation drives. `Num` is the type of `f32` values.
use Prim.Native.String.{String}
use tear.Base.{ℕ, Bool, true, false, ◌&&◌, List, [], ◌∷◌, Option, none, some, if◌then◌else◌}
use tear.Base.Maps.{BTreeMap, get}
use tear.Kukaku.Layout.{LayoutNode}
use tear.TearTypes.Pane.{TearPane, Cells, InputPolicy, is_automation, is_unknown}

pub data WindowState : Type 0 where
  active closed : WindowState

pub record TearWindow (Num : Type 0) : Type 0 where
  pub id : ℕ
  pub name : String
  pub layout : LayoutNode Num ℕ
  pub active_pane : ℕ
  pub size_cells : Cells
  pub state : WindowState

pub data SessionState : Type 0 where
  active detached : SessionState

pub data SessionSource : Type 0 where
  human agent : SessionSource
  named : String → SessionSource

-- `Freio`: the brake, with the time at which the daemon engaged it.
pub data Freio : Type 0 where
  released : Freio
  engaged : ℕ → Freio

-- `Freio::is_engaged`
abbrev pub is_engaged : Freio → Bool
is_engaged (Freio.engaged at_unix) = true
is_engaged Freio.released = false

pub record TearSession (Num : Type 0) : Type 0 where
  pub id : ℕ
  pub name : String
  pub windows : BTreeMap (TearWindow Num)
  pub panes : BTreeMap TearPane
  pub active_window : ℕ
  pub state : SessionState
  pub created_at_unix : ℕ
  pub description : String
  pub source : SessionSource
  pub freio : Freio

-- `WindowId::NULL` and `PaneId::NULL`
abbrev pub null_id : ℕ
null_id = 0

pub data RefusalReason : Type 0 where
  policy freio : RefusalReason

pub data Admission : Type 0 where
  accept : Admission
  refuse : RefusalReason → Admission
  only_leader : ℕ → Admission

-- The `match` on the pane's policy, for a pane that is not braked.
abbrev pub policy_admission : InputPolicy → Admission
policy_admission InputPolicy.free = Admission.accept
policy_admission InputPolicy.locked = Admission.refuse RefusalReason.policy
policy_admission (InputPolicy.leader id) = Admission.only_leader id

-- `TearSession::admits`
unfoldable pub admits : {Num : Type 0} → TearSession Num → ℕ → Option Admission
admits s pane = elim (get pane s.panes) [
  | none ↦ none
  | some p ↦
      if is_engaged s.freio && is_automation p.yurai
      then some (Admission.refuse RefusalReason.freio)
      else some (policy_admission p.input_policy)
]

-- `TearSession::unbrakable`
unfoldable pub unbrakable_panes : BTreeMap TearPane → List ℕ
unbrakable_panes [] = []
unbrakable_panes ((id, p) ∷ panes) =
    if is_unknown p.yurai then id ∷ unbrakable_panes panes else unbrakable_panes panes

unfoldable pub unbrakable : {Num : Type 0} → TearSession Num → List ℕ
unfolding unbrakable_panes
unbrakable s = unbrakable_panes s.panes
