-- ===== src/TearCore/Reachable/Endings.antt =====
-- The tombstones through any sequence of calls of tear-core/src/inproc.rs.
use tear.Base.{
  ℕ, ◌≡◌, refl, Bool, List, [], ◌∷◌, Option, some, arith, nat_eq, Option-cases, inl, inr,
  List-cases,
}
use tear.Base.Maps.{keys}
use tear.Base.Int.{ℤ}
use tear.Base.Maps.{BTreeMap, get, contains_key-get, get-insert}
use tear.Kukaku.Float.{Float}
use tear.Kukaku.Layout.{LeafRemoval, removed, was_root, not_found}
use tear.TearTypes.Session.{TearSession}
use tear.TearCore.Registry.{locate_pane}
use tear.TearCore.Runtime.{
  InProcess, SystemIo, Ending, write_tombstone, record_human_end, detach_panes,
  pane_resize_absolute,
}
use tear.TearCore.Closing.{kill_session, kill_window, kill_pane, window_panes, leaf_outcome}
use tear.TearCore.Closing.Detaching.{get-end_by_human}
use tear.TearCore.Exit.{on_exit, end_pane}
use tear.TearCore.Brake.{set_freio}
use tear.TearCore.Steering.{
  rename_session, select_window, select_pane, set_input_policy, send_keys, subscribe_pane_bytes,
}
use tear.TearCore.Reachable.{Step, Reach, here, next}
use tear.TearCore.Reachable.Tombstones.{
  apply_layout_geometry-tombstones, reap_proven_dead-tombstones, reap_unwatched-tombstones,
  new_session-tombstones, new_window-tombstones, split_pane-tombstones, resize_pane-tombstones,
  apply_layout-tombstones,
}

same :
    {before after : BTreeMap Ending}
    → after ≡ before
    → (pane : ℕ) (ending : Ending) → get pane before ≡ some ending
    → get pane after ≡ some ending
same e pane ending h = rw e h

module _ {Num : Type 0} ⦃f : Float Num⦄ where
  -- Every ending that is there stays as it is.
  abbrev pub KeepsEndings : InProcess Num → InProcess Num → Type 0
  KeepsEndings st t =
      (pane : ℕ) (ending : Ending)
      → get pane st.tombstones ≡ some ending
      → get pane t.tombstones ≡ some ending

  record_human_end-keeps :
      (io : SystemIo) (dying : List ℕ) (st : InProcess Num)
      → KeepsEndings st (record_human_end io dying st)
  unfolding record_human_end
  record_human_end-keeps io dying st pane ending h =
      ground (arith, get-end_by_human io st.registry dying pane st.tombstones)

  on_exit-keeps :
      (io : SystemIo) (held : Bool) (id : ℕ) (code : Option ℤ) (st : InProcess Num)
      → KeepsEndings st (on_exit io held id code st)
  unfolding on_exit end_pane write_tombstone
  on_exit-keeps io held id code st pane ending h = rw (reap_unwatched-tombstones _ id _ _) (
      ground (
        arith,
        get-insert id pane (Ending.exited code) st.tombstones,
        contains_key-get id st.tombstones,
      ))

  kill_session-keeps :
      (io : SystemIo) (id : ℕ) (st : InProcess Num) → KeepsEndings st (kill_session io id st).0
  unfolding kill_session detach_panes
  kill_session-keeps io id st pane ending h = elim (Option-cases (get id st.registry)) [
    | inl missed ↦ rw (missed, kill_session) h
    | inr (s, at) ↦
        rw (at, kill_session) (record_human_end-keeps io (keys s.panes) st pane ending h)
  ]

  kill_window-keeps :
      (io : SystemIo) (id : ℕ) (st : InProcess Num) → KeepsEndings st (kill_window io id st).0
  unfolding kill_window detach_panes
  kill_window-keeps io id st pane ending h = elim (List-cases (window_panes id st.registry)) [
    | inl e ↦ rw (e, kill_window) h
    | inr (p, more, e) ↦ rw (e, kill_window) (record_human_end-keeps io (p ∷ more) st pane ending h)
  ]

  kill_pane-keeps :
      (io : SystemIo) (id : ℕ) (st : InProcess Num) → KeepsEndings st (kill_pane io id st).0
  unfolding kill_pane detach_panes
  kill_pane-keeps io id st pane ending h = elim (Option-cases (locate_pane st.registry id)) [
    | inl missed ↦ rw (missed, kill_pane) h
    | inr (at, is) ↦
        let kept = record_human_end-keeps io (id ∷ []) st pane ending h in
        elim (Option-cases (get at.0 st.registry)) [
          | inl missed ↦ rw (is, missed, kill_pane) kept
          | inr (s, found) ↦ by_outcome at is s found _ refl kept
        ]
  ]
    where
      by_outcome :
          (at : ℕ × ℕ)
          → locate_pane st.registry id ≡ some at
          → (s : TearSession Num) → get at.0 st.registry ≡ some s
          → (outcome : LeafRemoval) → leaf_outcome id (get at.1 s.windows) ≡ outcome
          → get pane (record_human_end io (id ∷ []) st).tombstones ≡ some ending
          → get pane (kill_pane io id st).0.tombstones ≡ some ending
      by_outcome at is s found not_found e kept = rw (is, found, kill_pane, e) kept
      by_outcome at is s found was_root e kept = rw (is, found, kill_pane, e) kept
      by_outcome at is s found removed e kept =
          rw (is, found, kill_pane, e) (rw (apply_layout_geometry-tombstones io at.0 at.1 _) kept)

  Step-KeepsEndings : {st t : InProcess Num} → Step st t → KeepsEndings st t
  unfolding rename_session select_window select_pane set_input_policy set_freio send_keys
      subscribe_pane_bytes pane_resize_absolute
  Step-KeepsEndings {st} (Step.session_opens io ids name spec source size new fresh) =
      same (new_session-tombstones io ids name spec source size st)
  Step-KeepsEndings {st} (Step.window_opens io ids session name spec fresh) =
      same (new_window-tombstones io ids session name spec st)
  Step-KeepsEndings {st} (Step.pane_splits io fresh origin d spec new) =
      same (split_pane-tombstones io fresh origin d spec st)
  Step-KeepsEndings {st} (Step.session_killed io id) = kill_session-keeps io id st
  Step-KeepsEndings {st} (Step.window_killed io id) = kill_window-keeps io id st
  Step-KeepsEndings {st} (Step.pane_killed io id) = kill_pane-keeps io id st
  Step-KeepsEndings {st} (Step.session_reaped id) = same (reap_proven_dead-tombstones id st)
  Step-KeepsEndings {st} (Step.child_exits io held id code) = on_exit-keeps io held id code st
  Step-KeepsEndings {st} (Step.renamed id name) = same (ground arith)
  Step-KeepsEndings {st} (Step.window_selected id) = same (ground arith)
  Step-KeepsEndings {st} (Step.pane_selected id) = same (ground arith)
  Step-KeepsEndings {st} (Step.divider_moved io id d delta_cells) =
      same (resize_pane-tombstones io id d delta_cells st)
  Step-KeepsEndings {st} (Step.rearranged io window kind few) =
      same (apply_layout-tombstones io window kind st)
  Step-KeepsEndings {st} (Step.resized io id size) = same (ground arith)
  Step-KeepsEndings {st} (Step.policy_set id policy) = same (ground arith)
  Step-KeepsEndings {st} (Step.brake_set at_unix session engaged) = same refl
  Step-KeepsEndings {st} (Step.keys_sent io id bytes) = same (ground arith)
  Step-KeepsEndings {st} (Step.subscribed id sender) = same (ground arith)

  -- An ending that was once written for a pane stays as it is through any sequence of calls, with any
  -- answers of the system.
  pub Reach-KeepsEndings : {st t : InProcess Num} → Reach st t → KeepsEndings st t
  Reach-KeepsEndings here pane ending h = h
  Reach-KeepsEndings (next r step) pane ending h =
      Step-KeepsEndings step pane ending (Reach-KeepsEndings r pane ending h)
