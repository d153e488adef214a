-- ===== src/TearCore/Steering.antt =====
-- tear-core/src/inproc.rs: naming, focus, dividers, arrangements, input, the brake and the streams
-- of a pane's bytes.
pub mod Validity
pub mod Input
use Prim.Native.String.{String}
use tear.Base.{
  take, ℕ, Bool, true, false, List, [], ◌∷◌, ◌++◌, Option, none, some, if◌then◌else◌, nat_eq,
  is_some,
}
use tear.Base.Maps.{get, insert, modify, contains_key, find_first, modify_first}
use tear.TearTypes.Control.{ControlResult, done, fails, ControlError}
use tear.TearTypes.Pane.{TearPane, InputPolicy, is_locked}
use tear.TearTypes.Session.{TearSession}
use tear.TearCore.Registry.{Registry, locate_pane}
use tear.TearCore.Exit.{holds_pane, entry_or_default}
use tear.TearCore.Runtime.{InProcess, SystemIo}

module _ {Num : Type 0} where
  -- `InProcess::rename_session`
  unfoldable pub rename_session :
      ℕ → String → InProcess Num → InProcess Num × ControlResult (Unit {0})
  rename_session id new_name st =
      if contains_key id st.registry
      then (
        record st { registry = modify id (λ s. record s { name = new_name }) st.registry },
        done tt,
      )
      else (st, fails (ControlError.no_such_session id))

  abbrev pub holds_window : ℕ → TearSession Num → Bool
  holds_window id s = contains_key id s.windows

  -- `InProcess::select_window`
  unfoldable pub select_window : ℕ → InProcess Num → InProcess Num × ControlResult (Unit {0})
  select_window id st =
      if is_some (find_first (holds_window id) st.registry)
      then (
        record st {
          registry =
              modify_first (holds_window id) (λ s. record s { active_window = id }) st.registry;
        },
        done tt,
      )
      else (st, fails (ControlError.no_such_window id))

  -- The window's focus, in `select_pane`.
  abbrev pub focus_pane : ℕ → ℕ → TearSession Num → TearSession Num
  focus_pane wid id s = record s {
    windows = modify wid (λ w. record w { active_pane = id }) s.windows;
  }

  -- `InProcess::select_pane`
  unfoldable pub select_pane : ℕ → InProcess Num → InProcess Num × ControlResult (Unit {0})
  select_pane id st = elim (locate_pane st.registry id) [
    | none ↦ (st, fails (ControlError.no_such_pane id))
    | some at ↦ (record st { registry = modify at.0 (focus_pane at.1 id) st.registry }, done tt)
  ]

  -- `InProcess::set_input_policy`
  unfoldable pub set_input_policy :
      ℕ → InputPolicy → InProcess Num → InProcess Num × ControlResult (Unit {0})
  set_input_policy id policy st =
      if is_some (find_first (holds_pane id) st.registry)
      then (
        record st {
          registry =
              modify_first (holds_pane id)
                (λ s. record s {
                  panes = modify id (λ p. record p { input_policy = policy }) s.panes;
                })
                st.registry;
        },
        done tt,
      )
      else (st, fails (ControlError.no_such_pane id))

  -- The record of a pane that `locate_pane` has found.
  abbrev pub located_pane : Registry Num → ℕ → Option (ℕ × ℕ) → Option TearPane
  located_pane r id none = none
  located_pane r id (some at) = elim (get at.0 r) [ none ↦ none | some s ↦ get id s.panes ]

  -- `InProcess::send_keys`. A write is a `write_all`: one that fails may have delivered a part.
  unfoldable pub send_keys :
      SystemIo → ℕ → List ℕ → InProcess Num → InProcess Num × ControlResult (Unit {0})
  send_keys io id bytes st = elim (located_pane st.registry id (locate_pane st.registry id)) [
    | none ↦ (st, fails (ControlError.no_such_pane id))
    | some p ↦
        let part = if io.write_ok then bytes else take io.delivered bytes in
        let after = record st {
          ptys = modify id (λ pty. record pty { written = pty.written ++ part ∷ [] }) st.ptys;
        } in
        if is_locked p.input_policy
        then (st, fails ControlError.rejected)
        else if contains_key id st.ptys
        then (if io.write_ok then (after, done tt) else (after, fails ControlError.transport))
        else (st, fails (ControlError.no_such_pane id))
  ]

  -- `register_locked`: a stream that has closed takes no sender. The result says whether it did.
  unfoldable pub register_locked : ℕ → ℕ → InProcess Num → InProcess Num × Bool
  register_locked pane sender st =
      let ps = entry_or_default (get pane st.subscribers) in
      if is_some ps.closed
      then (record st { subscribers = insert pane ps st.subscribers }, false)
      else (
        record st {
          subscribers =
              insert pane (record ps { senders = ps.senders ++ sender ∷ [] }) st.subscribers;
        },
        true,
      )

  -- `subscribe_pane_bytes_waking`
  unfoldable pub subscribe_pane_bytes : ℕ → ℕ → InProcess Num → InProcess Num × ControlResult Bool
  unfolding register_locked
  subscribe_pane_bytes pane sender st =
      let (st', live) = register_locked pane sender st in
      if contains_key pane st.ptys
      then (st', done live)
      else (st, fails (ControlError.no_such_pane pane))
