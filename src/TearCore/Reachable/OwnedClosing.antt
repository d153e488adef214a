-- ===== src/TearCore/Reachable/OwnedClosing.antt =====
-- Closing and exit (tear-core/src/inproc.rs) leave no terminal without its pane's record.
use tear.Kukaku.Float.{Float}
use tear.Base.{nat_eq, ◌≡◌, ◌∙◌, ◌∷◌, ◌||◌, ◌==◌}
use tear.Base.{
  ℕ, refl, Bool, true, false, Option, none, some, arith, elem, Option-cases, inl, inr, if_both,
  Bool-cases, List-cases,
}
use tear.Base.Maps.{
  Ascending, get, contains_key, modify, remove, remove_all, keys, contains-modify, contains-remove,
}
use tear.Base.Maps.Entries.{modify_first-Ascending}
use tear.Kukaku.Layout.{LeafRemoval, removed, was_root, not_found}
use tear.TearCore.Exit.{
  exit_status, on_exit, end_pane, reap_unwatched, reap_if_dead, session_watched, mark_exited,
  holds_pane,
}
use tear.TearCore.Registry.{locate_pane}
use tear.Base.Int.{ℤ}
use tear.Base.Maps.Removal.{contains-remove_all}
use tear.TearTypes.Session.{TearSession}
use tear.TearCore.Closing.{
  kill_session, kill_window, kill_pane, close_window, close_pane, window_panes, leaf_outcome,
  witness, reap_proven_dead,
}
use tear.TearCore.Closing.Detaching.{elem-keys}
use tear.TearCore.Arranging.Steady.{in_registry-modify, apply_layout_geometry-IsSteady}
use tear.TearCore.Runtime.{InProcess, SystemIo, in_registry, detach_panes, record_human_end}
use tear.TearCore.Reachable.Owned.{
  in_registry-modify_first, in_registry-remove, AreOwned, IsSteady-AreOwned,
}

module _ {Num : Type 0} where
  -- The panes of a session lose their terminals with its record.
  pub remove-AreOwned :
      (sid : ℕ) (s : TearSession Num) (st : InProcess Num)
      → Ascending st.registry
      → get sid st.registry ≡ some s
      → AreOwned st
      → (pane : ℕ) → contains_key pane (remove_all (keys s.panes) st.ptys) ≡ true
      → in_registry pane (remove sid st.registry) ≡ true
  remove-AreOwned sid s st asc at own pane h = elim (Bool-cases (contains_key pane s.panes)) [
    | inl has ↦
        absurd
          (ground (arith, contains-remove_all (keys s.panes) pane st.ptys, elem-keys pane s.panes))
    | inr lacks ↦
        in_registry-remove pane sid s st.registry asc at lacks
        ∙ own pane (
            ground (arith, contains-remove_all (keys s.panes) pane st.ptys, elem-keys pane s.panes))
  ]

  pub kill_session-AreOwned :
      (io : SystemIo) (id : ℕ) (st : InProcess Num)
      → Ascending st.registry
      → AreOwned st
      → AreOwned (kill_session io id st).0
  unfolding kill_session detach_panes record_human_end
  kill_session-AreOwned io id st asc own = elim (Option-cases (get id st.registry)) [
    | inl missed ↦ rw (missed, kill_session) own
    | inr (s, at) ↦ rw (at, kill_session) (remove-AreOwned id s st asc at own)
  ]

  pub reap_proven_dead-AreOwned :
      (sid : ℕ) (st : InProcess Num)
      → Ascending st.registry
      → AreOwned st
      → AreOwned (reap_proven_dead sid st).0
  unfolding reap_proven_dead detach_panes
  reap_proven_dead-AreOwned sid st asc own = elim (Option-cases (get sid st.registry)) [
    | inl missed ↦ rw (missed, reap_proven_dead) own
    | inr (s, at) ↦ elim (Option-cases (witness s)) [
      | inl alive ↦ rw (at, alive, reap_proven_dead) own
      | inr (dead, proof) ↦ rw (at, proof, reap_proven_dead) (remove-AreOwned sid s st asc at own)
    ]
  ]

  pub kill_window-AreOwned :
      (io : SystemIo) (id : ℕ) (st : InProcess Num)
      → AreOwned st
      → AreOwned (kill_window io id st).0
  unfolding kill_window detach_panes record_human_end close_window
  kill_window-AreOwned io id st own = elim (List-cases (window_panes id st.registry)) [
    | inl e ↦ rw (e, kill_window) own
    | inr (p, more, e) ↦
        rw (e, kill_window)
          (λ pane h.
            let kept : elem pane (p ∷ more) ≡ false =
              ground (arith, contains-remove_all (p ∷ more) pane st.ptys, h) in
            in_registry-modify_first pane _ (close_window id (p ∷ more)) st.registry
              (λ s. ground (arith, contains-remove_all (p ∷ more) pane s.panes, kept))
            ∙ own pane (ground (arith, contains-remove_all (p ∷ more) pane st.ptys, h)))
  ]

  pub reap_unwatched-AreOwned :
      (sid : Option ℕ) (id : ℕ) (watched : Bool) (st : InProcess Num)
      → Ascending st.registry
      → AreOwned st
      → AreOwned (reap_unwatched sid id watched st)
  unfolding reap_unwatched reap_if_dead
  reap_unwatched-AreOwned none id watched st asc own = own
  reap_unwatched-AreOwned (some sid) id watched st asc own =
      if_both AreOwned (watched || session_watched id st.subscribers (get sid st.registry)) own
        (elim (Option-cases (get sid st.registry)) [
          | inl missed ↦ rw (missed, reap_if_dead) own
          | inr (s, at) ↦ elim (Option-cases (witness s)) [
            | inl alive ↦ rw (at, alive, reap_if_dead) own
            | inr (dead, proof) ↦
                rw (at, proof, reap_if_dead) (reap_proven_dead-AreOwned dead st asc own)
          ]
        ])

  pub on_exit-AreOwned :
      (io : SystemIo) (held : Bool) (id : ℕ) (code : Option ℤ) (st : InProcess Num)
      → Ascending st.registry
      → AreOwned st
      → AreOwned (on_exit io held id code st)
  unfolding on_exit end_pane mark_exited
  on_exit-AreOwned io held id code st asc own =
      reap_unwatched-AreOwned _ id _ _ (modify_first-Ascending _ _ st.registry asc) (λ pane h.
        in_registry-modify_first pane (holds_pane id) (mark_exited id (exit_status code))
          st.registry (λ s. contains-modify id pane _ s.panes)
        ∙ own pane h)

module _ {Num : Type 0} ⦃f : Float Num⦄ where
  pub close_pane_keeps :
      (id wid : ℕ) (outcome : LeafRemoval) (s : TearSession Num) (pane : ℕ)
      → (id == pane) ≡ false
      → contains_key pane (close_pane wid id outcome s).panes ≡ contains_key pane s.panes
  unfolding close_pane
  close_pane_keeps id wid not_found s pane ne = refl
  close_pane_keeps id wid removed s pane ne = ground (arith, contains-remove id pane s.panes)
  close_pane_keeps id wid was_root s pane ne = ground (arith, contains-remove id pane s.panes)

  pub kill_pane-AreOwned :
      (io : SystemIo) (id : ℕ) (st : InProcess Num) → AreOwned st → AreOwned (kill_pane io id st).0
  unfolding kill_pane detach_panes record_human_end
  kill_pane-AreOwned io id st own = elim (Option-cases (locate_pane st.registry id)) [
    | inl missed ↦ rw (missed, kill_pane) own
    | inr (at, is) ↦ elim (Option-cases (get at.0 st.registry)) [
      | inl missed ↦ rw (is, missed, kill_pane) (λ pane h. own pane (other pane h).1)
      | inr (s, found) ↦ by_outcome at is s found _ refl
    ]
  ]
    where
      other :
          (pane : ℕ)
          → contains_key pane (remove id st.ptys) ≡ true
          → ((id == pane) ≡ false) × (contains_key pane st.ptys ≡ true)
      other pane h = (
        ground (arith, contains-remove id pane st.ptys),
        ground (arith, contains-remove id pane st.ptys),
      )

      closed :
          (sid wid : ℕ) (outcome : LeafRemoval) (pane : ℕ)
          → contains_key pane (remove id st.ptys) ≡ true
          → in_registry pane (modify sid (close_pane wid id outcome) st.registry) ≡ true
      closed sid wid outcome pane h =
          in_registry-modify pane sid (close_pane wid id outcome) st.registry
            (λ s. close_pane_keeps id wid outcome s pane (other pane h).0)
          ∙ own pane (other pane h).1

      by_outcome :
          (at : ℕ × ℕ)
          → locate_pane st.registry id ≡ some at
          → (s : TearSession Num) → get at.0 st.registry ≡ some s
          → (outcome : LeafRemoval) → leaf_outcome id (get at.1 s.windows) ≡ outcome
          → AreOwned (kill_pane io id st).0
      by_outcome at is s found not_found e =
          rw (is, found, kill_pane, e) (λ pane h. own pane (other pane h).1)
      by_outcome at is s found was_root e =
          rw (is, found, kill_pane, e) (closed at.0 at.1 (leaf_outcome id (get at.1 s.windows)))
      by_outcome at is s found removed e =
          rw (is, found, kill_pane, e)
            (IsSteady-AreOwned _ _ (apply_layout_geometry-IsSteady io at.0 at.1 _)
              (closed at.0 at.1 (leaf_outcome id (get at.1 s.windows))))
