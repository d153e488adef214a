-- ===== src/TearCore/Spawning/Outcome.antt =====
-- What an opening leaves when the child starts and when it does not (tear-core/src/inproc.rs).
use Prim.Native.String.{String}
use tear.Base.{
  ℕ, ◌≡◌, sym, if-true, if-false, ◌∙◌, true, false, ◌&&◌, ◌||◌, [], some, if◌then◌else◌, ◌==◌,
  arith, nat_eq, Bool-cases, inl, inr,
}
use tear.Base.Maps.{
  get, insert, contains_key, modify, contains-insert, get-insert, get-modify, contains_of_get,
}
use tear.TearTypes.Control.{done, fails, ControlError}
use tear.TearTypes.Pane.{Cells}
use tear.TearTypes.Session.{TearSession}
use tear.TearCore.Registry.{Registry, PaneSpec, fresh_pane, add_window, open_window, seed_window}
use tear.TearCore.Runtime.{InProcess, SystemIo, in_registry}
use tear.TearCore.Spawning.{Minted, drop_if_orphaned, spawn_pty_with, new_window}
use tear.TearCore.Validity.Sessions.{in_registry-get}
use tear.Base.Maps.{get-remove, contains-remove}
use tear.Base.{ap}
use tear.TearTypes.Session.{SessionSource}
use tear.TearCore.Registry.{create_session, empty_session}
use tear.TearCore.Runtime.{at_least_one}
use tear.TearCore.Spawning.{new_session}

module _ {Num : Type 0} where
  pub in_registry-of :
      (pane sid : ℕ) (s : TearSession Num) (r : Registry Num)
      → get sid r ≡ some s
      → contains_key pane s.panes ≡ true
      → in_registry pane r ≡ true
  in_registry-of pane sid s r at has = elim (Bool-cases (in_registry pane r)) [
    | inl known ↦ known
    | inr unknown ↦ cc (in_registry-get pane sid s r unknown at, has)
  ]

  -- The terminals, the grids and the answer of `spawn_pty_with` for a pane that is recorded.
  pub spawned :
      (io : SystemIo) (id : ℕ) (size : Cells) (st : InProcess Num)
      → in_registry id st.registry ≡ true
      → ((spawn_pty_with io id size st).1 ≡ io.spawn_ok)
        × ((spawn_pty_with io id size st).0.registry ≡ st.registry)
        × (get id (spawn_pty_with io id size st).0.grids ≡ some size)
        × ((pane : ℕ)
            → contains_key pane (spawn_pty_with io id size st).0.ptys
              ≡ (io.spawn_ok && id == pane || contains_key pane st.ptys))
  unfolding spawn_pty_with drop_if_orphaned
  spawned io id size st known = rw known (
    ground arith,
    ground arith,
    ground (arith, get-insert id id size st.grids),
    (λ pane.
        ground (arith, contains-insert id pane (record { winsize = size; written = [] }) st.ptys)),
  )

  pub add_window-known :
      (session window pane : ℕ) (name : String) (spec : PaneSpec) (size : Cells) (r : Registry Num)
      → contains_key session r ≡ true
      → add_window session window pane name spec size r
        ≡ some (modify session (open_window window pane name spec size) r)
  unfolding add_window
  add_window-known session window pane name spec size r known = if-true _ _ known

  pub opens :
      (window pane : ℕ) (name : String) (spec : PaneSpec) (size : Cells) (s : TearSession Num)
      → (contains_key window (open_window window pane name spec size s).windows ≡ true)
        × (contains_key pane (open_window window pane name spec size s).panes ≡ true)
  unfolding open_window
  opens window pane name spec size s = (
    ground (
      arith,
      contains-insert window window (seed_window {Num = Num} window name pane size) s.windows,
    ),
    ground (arith, contains-insert pane pane (fresh_pane pane spec size) s.panes),
  )

  -- `new_window` on a session that exists answers the new window's id or an internal error, as the
  -- child starts or not. Either way the window and its pane are recorded in the session and the pane
  -- has a grid; the pane has a terminal exactly if the child has started, and no other pane's
  -- terminal comes or goes. So after the error the session shows a pane without a terminal.
  pub new_window-Opens :
      (io : SystemIo) (ids : Minted) (session : ℕ) (name : String) (spec : PaneSpec)
      (st : InProcess Num) (s : TearSession Num)
      → get session st.registry ≡ some s
      → ((new_window io ids session name spec st).1
          ≡ (if io.spawn_ok then done ids.window_id else fails ControlError.internal))
        × ((s' : TearSession Num) × (get session (new_window io ids session name spec st).0.registry
              ≡ some s')
            × (contains_key ids.window_id s'.windows ≡ true)
            × (contains_key ids.pane_id s'.panes ≡ true))
        × (contains_key ids.pane_id (new_window io ids session name spec st).0.grids ≡ true)
        × ((pane : ℕ)
            → contains_key pane (new_window io ids session name spec st).0.ptys
              ≡ (io.spawn_ok && ids.pane_id == pane || contains_key pane st.ptys))
  unfolding new_window
  new_window-Opens io ids session name spec st s at =
      let size : Cells = record { cols = 80; rows = 24 } in
      let located = record spec { cwd = st.spawn_cwd; env = [] } in
      let grow = open_window ids.window_id ids.pane_id name located size in
      let opened = modify session grow st.registry in
      let after = record st { registry = opened } in
      let known = contains_of_get session s st.registry at in
      let made =
        add_window-known session ids.window_id ids.pane_id name located size st.registry known in
      let there : get session opened ≡ some (grow s) =
        ground (arith, get-modify session session grow st.registry) in
      let (windows, records) = opens ids.window_id ids.pane_id name located size s in
      let (up, kept, grid, terminals) =
        spawned io ids.pane_id size after
          (in_registry-of ids.pane_id session _ opened there records) in
      elim (Bool-cases (spawn_pty_with io ids.pane_id size after).1) [
        | inl starts ↦
            rw (made, new_window, starts)
              (
                sym (if-true _ _ (sym up ∙ starts)),
                (grow s, rw kept there, windows, records),
                contains_of_get ids.pane_id size _ grid,
                terminals,
              )
        | inr down ↦
            rw (made, new_window, down)
              (
                sym (if-false _ _ (sym up ∙ down)),
                (grow s, rw kept there, windows, records),
                contains_of_get ids.pane_id size _ grid,
                terminals,
              )
      ]

  pub created_reads :
      (id : ℕ) (name : String) (now : ℕ) (source : SessionSource) (r : Registry Num)
      → (get id (modify id (λ s. record s { source = source }) (create_session id name now r))
          ≡ some (record (empty_session id name now) { source = source }))
        × ((j : ℕ)
            → (id == j) ≡ false
            → get j (modify id (λ s. record s { source = source }) (create_session id name now r))
              ≡ get j r)
  unfolding create_session
  created_reads id name now source r = (
    ground (
      arith,
      get-modify id id (λ (s : TearSession Num). record s { source = source })
          (insert id (empty_session id name now) r),
      get-insert id id (empty_session id name now) r,
    ),
    λ j ne. ground (
      arith,
      get-modify id j (λ (s : TearSession Num). record s { source = source })
          (insert id (empty_session id name now) r),
      get-insert id j (empty_session id name now) r,
    ),
  )

  -- `new_session` answers the new session's id or an internal error, as the child starts or not, and
  -- the session is there exactly in the first case; no other session changes. The pane has a
  -- terminal exactly if the child has started or it had one before, and no other pane's terminal
  -- comes or goes. The pane's grid is there in both cases: the error takes the session back, but not
  -- the grid.
  pub new_session-Opens :
      (io : SystemIo) (ids : Minted) (name : String) (spec : PaneSpec) (source : SessionSource)
      (size_cells : Cells) (st : InProcess Num)
      → ((new_session io ids name spec source size_cells st).1
          ≡ (if io.spawn_ok then done ids.session_id else fails ControlError.internal))
        × (contains_key ids.session_id
              (new_session io ids name spec source size_cells st).0.registry
            ≡ io.spawn_ok)
        × ((j : ℕ)
            → (ids.session_id == j) ≡ false
            → get j (new_session io ids name spec source size_cells st).0.registry
              ≡ get j st.registry)
        × (get ids.pane_id (new_session io ids name spec source size_cells st).0.grids
            ≡ some (at_least_one size_cells))
        × ((pane : ℕ)
            → contains_key pane (new_session io ids name spec source size_cells st).0.ptys
              ≡ (io.spawn_ok && ids.pane_id == pane || contains_key pane st.ptys))
  unfolding new_session
  new_session-Opens io ids name spec source size_cells st =
      let size = at_least_one size_cells in
      let recorded = record spec { env = [] } in
      let created =
        modify ids.session_id (λ s. record s { source = source })
          (create_session ids.session_id name io.now_unix st.registry) in
      let born = record (empty_session ids.session_id name io.now_unix) { source = source } in
      let grow = open_window ids.window_id ids.pane_id "main" recorded size in
      let opened = modify ids.session_id grow created in
      let after = record st { registry = opened } in
      let (at, others) = created_reads ids.session_id name io.now_unix source st.registry in
      let made =
        add_window-known ids.session_id ids.window_id ids.pane_id "main" recorded size created
          (contains_of_get ids.session_id born created at) in
      let there : get ids.session_id opened ≡ some (grow born) =
        ground (arith, get-modify ids.session_id ids.session_id grow created) in
      let (windows, records) = opens ids.window_id ids.pane_id "main" recorded size born in
      let (up, kept, grid, terminals) =
        spawned io ids.pane_id size after
          (in_registry-of ids.pane_id ids.session_id _ opened there records) in
      let same : (j : ℕ) → (ids.session_id == j) ≡ false → get j opened ≡ get j st.registry =
        λ j ne. ground (arith, get-modify ids.session_id j grow created, others j ne) in
      elim (Bool-cases (spawn_pty_with io ids.pane_id size after).1) [
        | inl starts ↦
            rw (made, new_session, starts)
              (
                sym (if-true _ _ (sym up ∙ starts)),
                rw kept (contains_of_get ids.session_id _ opened there ∙ sym (sym up ∙ starts)),
                (λ j ne. rw kept (same j ne)),
                grid,
                terminals,
              )
        | inr down ↦
            rw (made, new_session, down)
              (
                sym (if-false _ _ (sym up ∙ down)),
                contains-remove ids.session_id ids.session_id _ ∙ ground (arith, sym up ∙ down),
                (λ j ne.
                    get-remove ids.session_id j _ ∙ ground (arith, ap (get j) kept, same j ne)),
                grid,
                terminals,
              )
      ]
