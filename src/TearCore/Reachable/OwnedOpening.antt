-- ===== src/TearCore/Reachable/OwnedOpening.antt =====
-- Opening (tear-core/src/inproc.rs) gives terminals to recorded panes only.
use tear.Base.{nat_eq, ◌≡◌, ◌∙◌, ◌==◌}
use tear.Base.{
  ℕ, refl, sym, true, false, [], none, some, arith, Option-cases, inl, inr, Bool-cases, ==_iff,
}
use Prim.Native.String.{String}
use tear.Base.Maps.{
  contains_of_get, contains_key-get, get-modify, Ascending, get, insert, contains_key, modify,
  contains-insert,
}
use tear.Base.Maps.Entries.{insert-Ascending, modify-Ascending}
use tear.TearTypes.Pane.{Cells}
use tear.TearCore.Registry.{
  PaneSpec, fresh_pane, add_window, open_window, Registry, create_session, empty_session,
}
use tear.TearCore.Spawning.{Minted, spawn_pty_with, new_window, new_session}
use tear.TearCore.Spawning.Outcome.{in_registry-of, spawned, opens, add_window-known, created_reads}
use tear.TearTypes.Session.{TearSession, SessionSource}
use tear.TearCore.Arranging.Steady.{in_registry-modify}
use tear.TearCore.Runtime.{InProcess, SystemIo, in_registry, at_least_one}
use tear.TearCore.Reachable.Owned.{
  remove-insert, remove-modify, in_registry-grow, in_registry-insert, AreOwned,
}

module _ {Num : Type 0} where
  -- A pane that is recorded gets its terminal.
  pub spawned-AreOwned :
      (io : SystemIo) (id : ℕ) (size : Cells) (st after : InProcess Num)
      → after.ptys ≡ st.ptys
      → ((pane : ℕ) → in_registry pane st.registry ≡ true → in_registry pane after.registry ≡ true)
      → in_registry id after.registry ≡ true
      → AreOwned st
      → AreOwned (spawn_pty_with io id size after).0
  spawned-AreOwned io id size st after same keeps known own pane h =
      let (up, kept, grid, terminals) = spawned io id size after known in
      elim (Bool-cases (id == pane)) [
        | inl is ↦ rw (kept, ← (==_iff id pane).0 is) known
        | inr other ↦ rw kept (keeps pane (own pane (ground (arith, terminals pane, h, same))))
      ]

  pub opens_keeps :
      (window id : ℕ) (name : String) (spec : PaneSpec) (size : Cells) (s : TearSession Num)
      (pane : ℕ)
      → contains_key pane s.panes ≡ true
      → contains_key pane (open_window window id name spec size s).panes ≡ true
  unfolding open_window
  opens_keeps window id name spec size s pane has =
      ground (arith, contains-insert id pane (fresh_pane id spec size) s.panes)

  pub add_window_unknown :
      (session window pane : ℕ) (name : String) (spec : PaneSpec) (size : Cells) (r : Registry Num)
      → get session r ≡ none
      → add_window session window pane name spec size r ≡ none
  unfolding add_window
  add_window_unknown session window pane name spec size r missed =
      ground (arith, contains_key-get session r)

  pub new_window-AreOwned :
      (io : SystemIo) (ids : Minted) (session : ℕ) (name : String) (spec : PaneSpec)
      (st : InProcess Num)
      → Ascending st.registry
      → AreOwned st
      → AreOwned (new_window io ids session name spec st).0
  unfolding new_window
  new_window-AreOwned io ids session name spec st asc own =
      let size : Cells = record { cols = 80; rows = 24 } in
      let located = record spec { cwd = st.spawn_cwd; env = [] } in
      let grow = open_window ids.window_id ids.pane_id name located size in
      let opened = modify session grow st.registry in
      let after = record st { registry = opened } in
      elim (Option-cases (get session st.registry)) [
        | inl missed ↦
            rw
              (
                add_window_unknown session ids.window_id ids.pane_id name located size st.registry
                    missed,
                new_window,
              )
              own
        | inr (s, at) ↦
            let made =
              add_window-known session ids.window_id ids.pane_id name located size st.registry
                (contains_of_get session s st.registry at) in
            let there : get session opened ≡ some (grow s) =
              ground (arith, get-modify session session grow st.registry) in
            let owned =
              spawned-AreOwned io ids.pane_id size st after refl
                (λ pane.
                  in_registry-grow pane session grow st.registry
                    (λ u at' has.
                      opens_keeps ids.window_id ids.pane_id name located size u pane has)
                    asc)
                (in_registry-of ids.pane_id session _ opened there
                  (opens ids.window_id ids.pane_id name located size s).1)
                own in
            elim (Bool-cases (spawn_pty_with io ids.pane_id size after).1) [
              | inl starts ↦ rw (made, new_window, starts) owned
              | inr down ↦ rw (made, new_window, down) owned
            ]
      ]

  pub new_session-AreOwned :
      (io : SystemIo) (ids : Minted) (name : String) (spec : PaneSpec) (source : SessionSource)
      (size_cells : Cells) (st : InProcess Num)
      → contains_key ids.session_id st.registry ≡ false
      → Ascending st.registry
      → AreOwned st
      → AreOwned (new_session io ids name spec source size_cells st).0
  unfolding new_session create_session
  new_session-AreOwned io ids name spec source size_cells st new asc own =
      let size = at_least_one size_cells in
      let recorded = record spec { env = [] } in
      let source_set = λ (s : TearSession Num). record s { source = source } in
      let inserted =
        insert ids.session_id (empty_session ids.session_id name io.now_unix) st.registry in
      let created = modify ids.session_id source_set inserted in
      let born = record (empty_session ids.session_id name io.now_unix) { source = source } in
      let grow = open_window ids.window_id ids.pane_id "main" recorded size in
      let opened = modify ids.session_id grow created in
      let after = record st { registry = opened } in
      let (at, others) = created_reads ids.session_id name io.now_unix source st.registry in
      let made =
        add_window-known ids.session_id ids.window_id ids.pane_id "main" recorded size created
          (contains_of_get ids.session_id born created at) in
      let there : get ids.session_id opened ≡ some (grow born) =
        ground (arith, get-modify ids.session_id ids.session_id grow created, at) in
      let known =
        in_registry-of ids.pane_id ids.session_id _ opened there
          (opens ids.window_id ids.pane_id "main" recorded size born).1 in
      let (up, kept, grid, terminals) = spawned io ids.pane_id size after known in
      elim (Bool-cases (spawn_pty_with io ids.pane_id size after).1) [
        | inl starts ↦
            rw (made, new_session, starts)
              (spawned-AreOwned io ids.pane_id size st after refl
                (λ pane has.
                  in_registry-grow pane ids.session_id grow created
                    (λ u at' h. opens_keeps ids.window_id ids.pane_id "main" recorded size u pane h)
                    (modify-Ascending ids.session_id source_set inserted
                      (insert-Ascending ids.session_id _ st.registry asc))
                    (in_registry-modify pane ids.session_id source_set inserted (λ s. refl)
                      ∙ in_registry-insert pane ids.session_id _ st.registry new has))
                known own)
        | inr down ↦
            rw (made, new_session, down)
              (λ pane h.
                rw
                  (
                    kept,
                    remove-modify ids.session_id grow created,
                    remove-modify ids.session_id source_set inserted,
                    remove-insert ids.session_id (empty_session ids.session_id name io.now_unix)
                        st.registry new,
                  )
                  (own pane (ground (arith, terminals pane, h, sym up ∙ down))))
      ]
