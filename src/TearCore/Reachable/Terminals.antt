-- ===== src/TearCore/Reachable/Terminals.antt =====
-- The terminals through any sequence of calls of tear-core/src/inproc.rs.
use tear.Kukaku.Float.{Float}
use tear.Base.{take, if◌then◌else◌, nat_eq, ◌≡◌, ◌∙◌, ◌∷◌, ◌++◌}
use tear.Base.{ℕ, refl, sym, List, [], Option, arith, Option-cases, inl, inr, if_both, is_some}
use Prim.Native.String.{String}
use tear.Base.Maps.{contains_key, contains-modify, find_first}
use tear.TearCore.Exit.{holds_pane}
use tear.TearCore.Registry.{locate_pane}
use tear.Kukaku.Float.{IsIeee}
use tear.TearCore.Arranging.Steady.{
  in_registry-modify, resize_pane-IsSteady, apply_layout-IsSteady, pane_resize_absolute-IsSteady,
}
use tear.TearCore.Runtime.{InProcess, SystemIo}
use tear.TearTypes.Control.{ControlResult}
use tear.TearCore.Brake.{set_freio}
use tear.TearCore.Steering.{
  rename_session, select_window, select_pane, set_input_policy, send_keys, subscribe_pane_bytes,
  holds_window,
}
use tear.TearCore.Validity.{RegistryIsValid}
use tear.TearCore.Reachable.Owned.{
  in_registry-modify_first, in_registry-brake_sessions, AreOwned, IsSteady-AreOwned,
}
use tear.TearCore.Reachable.OwnedClosing.{
  kill_session-AreOwned, reap_proven_dead-AreOwned, kill_window-AreOwned, on_exit-AreOwned,
  kill_pane-AreOwned,
}
use tear.TearCore.Reachable.OwnedSplitting.{split_pane-AreOwned}
use tear.TearCore.Reachable.OwnedOpening.{new_window-AreOwned, new_session-AreOwned}
use tear.TearCore.Reachable.{
  Step, Reach, here, next, empty_process, send_keys-registry, Reach-RegistryIsValid,
}

module _ {Num : Type 0} ⦃f : Float Num⦄ where
  pub send_keys-terminals :
      (io : SystemIo) (id : ℕ) (bytes : List ℕ) (st : InProcess Num) (pane : ℕ)
      → contains_key pane (send_keys io id bytes st).0.ptys ≡ contains_key pane st.ptys
  unfolding send_keys
  send_keys-terminals io id bytes st pane =
      let part = if io.write_ok then bytes else take io.delivered bytes in
      ground (
        arith,
        contains-modify id pane (λ pty. record pty { written = pty.written ++ part ∷ [] }) st.ptys,
      )

  pub Step-AreOwned :
      {st t : InProcess Num}
      → IsIeee f
      → Step st t
      → RegistryIsValid st.registry
      → AreOwned st
      → AreOwned t
  unfolding rename_session select_window select_pane set_input_policy set_freio send_keys
      subscribe_pane_bytes
  Step-AreOwned {st} ieee (Step.session_opens io ids name spec source size new fresh) v own =
      new_session-AreOwned io ids name spec source size st new v.ordered own
  Step-AreOwned {st} ieee (Step.window_opens io ids session name spec fresh) v own =
      new_window-AreOwned io ids session name spec st v.ordered own
  Step-AreOwned {st} ieee (Step.pane_splits io fresh origin d spec new) v own =
      split_pane-AreOwned ieee io fresh origin d spec st new v own
  Step-AreOwned {st} ieee (Step.session_killed io id) v own =
      kill_session-AreOwned io id st v.ordered own
  Step-AreOwned {st} ieee (Step.window_killed io id) v own = kill_window-AreOwned io id st own
  Step-AreOwned {st} ieee (Step.pane_killed io id) v own = kill_pane-AreOwned io id st own
  Step-AreOwned {st} ieee (Step.session_reaped id) v own =
      reap_proven_dead-AreOwned id st v.ordered own
  Step-AreOwned {st} ieee (Step.child_exits io held id code) v own =
      on_exit-AreOwned io held id code st v.ordered own
  Step-AreOwned {st} ieee (Step.renamed id name) v own =
      if_both (λ (r : InProcess Num × ControlResult (Unit {0})). AreOwned r.0)
        (contains_key id st.registry)
        (λ pane h. in_registry-modify pane id _ st.registry (λ s. refl) ∙ own pane h) own
  Step-AreOwned {st} ieee (Step.window_selected id) v own =
      if_both (λ (r : InProcess Num × ControlResult (Unit {0})). AreOwned r.0)
        (is_some (find_first (holds_window id) st.registry))
        (λ pane h.
          in_registry-modify_first pane (holds_window id) _ st.registry (λ s. refl) ∙ own pane h)
        own
  Step-AreOwned {st} ieee (Step.pane_selected id) v own =
      elim (Option-cases (locate_pane st.registry id)) [
        | inl missed ↦ rw (missed, select_pane) own
        | inr (at, is) ↦
            rw (is, select_pane)
              (λ pane h. in_registry-modify pane at.0 _ st.registry (λ s. refl) ∙ own pane h)
      ]
  Step-AreOwned {st} ieee (Step.divider_moved io id d delta_cells) v own =
      IsSteady-AreOwned st _ (resize_pane-IsSteady io id d delta_cells st) own
  Step-AreOwned {st} ieee (Step.rearranged io window kind few) v own =
      IsSteady-AreOwned st _ (apply_layout-IsSteady io window kind st) own
  Step-AreOwned {st} ieee (Step.resized io id size) v own =
      IsSteady-AreOwned st _ (pane_resize_absolute-IsSteady io id size st) own
  Step-AreOwned {st} ieee (Step.policy_set id policy) v own =
      if_both (λ (r : InProcess Num × ControlResult (Unit {0})). AreOwned r.0)
        (is_some (find_first (holds_pane id) st.registry))
        (λ pane h.
          in_registry-modify_first pane (holds_pane id) _ st.registry
            (λ s. contains-modify id pane _ s.panes)
          ∙ own pane h)
        own
  Step-AreOwned {st} ieee (Step.brake_set at_unix session engaged) v own =
      λ pane h. in_registry-brake_sessions pane session _ st.registry ∙ own pane h
  Step-AreOwned {st} ieee (Step.keys_sent io id bytes) v own = λ pane h.
      rw (send_keys-registry io id bytes st)
        (own pane (sym (send_keys-terminals io id bytes st pane) ∙ h))
  Step-AreOwned {st} ieee (Step.subscribed id sender) v own = λ pane h. ground (arith, own pane, h)

  -- With numbers that obey the laws of IEEE arithmetic: from an empty multiplexer, after any sequence
  -- of calls, with minted ids that are new, fewer than 2 ^ 32 panes in a window that is rearranged, and
  -- any answers of the system, each terminal belongs to a pane that some session records. So none is
  -- left behind a session, a window or a pane that was closed.
  pub Reach-AreOwned :
      {cwd : Option String} {st : InProcess Num}
      → IsIeee f
      → Reach (empty_process cwd) st
      → AreOwned st
  Reach-AreOwned ieee here = λ pane h. absurd (cc h)
  Reach-AreOwned ieee (next r step) =
      Step-AreOwned ieee step (Reach-RegistryIsValid ieee r) (Reach-AreOwned ieee r)
