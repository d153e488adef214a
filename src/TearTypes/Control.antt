-- ===== src/TearTypes/Control.antt =====
-- tear-types/src/control.rs: what an operation of the multiplexer answers. The texts of the errors
-- are left out.
use tear.Base.{ℕ, Bool, true, false, ◌||◌, ltb}

pub data ControlError : Type 0 where
  no_such_session no_such_window no_such_pane : ℕ → ControlError
  transport rejected unsupported internal : ControlError
  partial_input : ℕ → ℕ → ControlError → ControlError

pub data ControlResult {ℓ} (A : Type ℓ) : Type ℓ where
  done : A → ControlResult A
  fails : ControlError → ControlResult A

-- `ControlError::may_have_delivered`
unfoldable pub may_have_delivered : ControlError → Bool
may_have_delivered (ControlError.partial_input delivered total cause) =
    ltb 0 delivered || may_have_delivered cause
may_have_delivered ControlError.transport = true
may_have_delivered ControlError.internal = true
may_have_delivered (ControlError.no_such_session id) = false
may_have_delivered (ControlError.no_such_window id) = false
may_have_delivered (ControlError.no_such_pane id) = false
may_have_delivered ControlError.rejected = false
may_have_delivered ControlError.unsupported = false
