-- ===== src/TearCore/Spawning/Sessions.antt =====
-- `new_session_yurai_in` of tear-core/src/inproc.rs keeps the registry valid.
use Prim.Native.String.{String}
use mathlib.Core.Path.{◌∙◌}
use tear.Base.{
  ℕ, ◌≡◌, ◌≢◌, ◌⊎◌, inl, inr, refl, sym, Bool, true, false, [], some, none, arith, ◌==◌, ==_iff,
  Bool-cases, Option-cases,
}
use tear.Base.Maps.{
  get, contains_key, insert, remove, modify, contains-insert, contains-modify, contains_of_get,
}
use tear.Base.Maps.Entries.{get-modify_cases, get-insert_cases, insert-Ascending, modify-Ascending}
use tear.Kukaku.Float.{Float}
use tear.TearTypes.Pane.{Cells}
use tear.TearTypes.Session.{TearSession, SessionSource}
use tear.TearCore.Registry.{
  Registry, PaneSpec, create_session, add_window, open_window, empty_session,
}
use tear.TearCore.Runtime.{InProcess, SystemIo, in_registry, at_least_one}
use tear.TearCore.Spawning.{Minted, spawn_pty_with, new_session}
use tear.TearCore.Spawning.Validity.{spawn_pty_with-registry, open_window-SessionIsValid}
use tear.TearCore.Validity.{AreValid, SessionIsValid, RegistryIsValid}
use tear.TearCore.Validity.Sessions.{
  window_known, in_registry-get, window_known-get, remove-RegistryIsValid,
}

module _ {Num : Type 0} ⦃f : Float Num⦄ where
  no_windows-AreValid : AreValid {Num = Num} [] [] 0
  no_windows-AreValid = record {
    ordered = tt;
    valid = λ wid w at. absurd (cc at);
    recorded = λ wid w at. absurd (cc at);
    shown = λ pane has. absurd (cc has);
    once = λ wid wid' w w' at. absurd (cc at);
    focus = inl (refl, refl);
  }

  -- A registry with one session more, whose panes and windows are new to it.
  added-RegistryIsValid :
      (r r' : Registry Num) (sid : ℕ) (s₀ : TearSession Num)
      → RegistryIsValid r
      → tear.Base.Maps.Ascending r'
      → ((j : ℕ) (s : TearSession Num)
          → get j r' ≡ some s
          → ((sid ≡ j) × (s ≡ s₀)) ⊎ (get j r ≡ some s))
      → SessionIsValid s₀
      → s₀.id ≡ sid
      → ((pane : ℕ) → contains_key pane s₀.panes ≡ true → in_registry pane r ≡ false)
      → ((wid : ℕ) → contains_key wid s₀.windows ≡ true → window_known wid r ≡ false)
      → RegistryIsValid r'
  added-RegistryIsValid r r' sid s₀ v asc from valid own new_panes new_windows = record {
    ordered = asc;
    valid =
        λ j s at. elim (from j s at) [ inl (e, is) ↦ rw is valid | inr found ↦ v.valid j s found ];
    own_id = λ j s at. elim (from j s at) [
      | inl (e, is) ↦ rw is (own ∙ e)
      | inr found ↦ v.own_id j s found
    ];
    panes_apart = λ j j' s s' at at' pane h h'. elim (from j s at) [
      | inl (e, is) ↦ elim (from j' s' at') [
        | inl (e', is') ↦ sym e ∙ e'
        | inr found' ↦
            absurd (cc (in_registry-get pane j' s' r (new_panes pane (rw (← is) h)) found', h'))
      ]
      | inr found ↦ elim (from j' s' at') [
        | inl (e', is') ↦
            absurd (cc (in_registry-get pane j s r (new_panes pane (rw (← is') h')) found, h))
        | inr found' ↦ v.panes_apart j j' s s' found found' pane h h'
      ]
    ];
    windows_apart = λ j j' s s' at at' wid h h'. elim (from j s at) [
      | inl (e, is) ↦ elim (from j' s' at') [
        | inl (e', is') ↦ sym e ∙ e'
        | inr found' ↦
            absurd (cc (window_known-get wid j' s' r (new_windows wid (rw (← is) h)) found', h'))
      ]
      | inr found ↦ elim (from j' s' at') [
        | inl (e', is') ↦
            absurd (cc (window_known-get wid j s r (new_windows wid (rw (← is') h')) found, h))
        | inr found' ↦ v.windows_apart j j' s s' found found' wid h h'
      ]
    ];
  }

  -- The registry when the session's record and its first window are in it.
  module _ (io : SystemIo) (ids : Minted) (name : String) (spec : PaneSpec) (source : SessionSource)
      (size : Cells) (r : Registry Num) (fresh_window : window_known ids.window_id r ≡ false)
      (fresh_id : in_registry ids.pane_id r ≡ false) (v : RegistryIsValid r) where
    abbrev born : TearSession Num
    born = record (empty_session ids.session_id name io.now_unix) { source = source }

    abbrev grown : TearSession Num
    grown = open_window ids.window_id ids.pane_id "main" spec size born

    abbrev created : Registry Num
    created =
        modify ids.session_id (λ s. record s { source = source })
          (create_session ids.session_id name io.now_unix r)

    abbrev opened : Registry Num
    opened = modify ids.session_id (open_window ids.window_id ids.pane_id "main" spec size) created

    opened-entries :
        (j : ℕ) (s : TearSession Num)
        → get j opened ≡ some s
        → ((ids.session_id ≡ j) × (s ≡ grown)) ⊎ (get j r ≡ some s)
    unfolding create_session
    opened-entries j s at = elim (get-modify_cases ids.session_id j _ created s at) [
      | inl (e, (u, found, is)) ↦ elim (get-modify_cases ids.session_id j _ _ u found) [
        | inl (e', (t, found', is')) ↦ elim (get-insert_cases ids.session_id j _ r t found') [
          | inl (e'', is'') ↦ inl (e, is ∙ (rw (is', is'')))
          | inr (ne, old) ↦ absurd (ne e)
        ]
        | inr (ne, old) ↦ absurd (ne e)
      ]
      | inr (ne, found) ↦ elim (get-modify_cases ids.session_id j _ _ s found) [
        | inl (e', (t, found', is')) ↦ absurd (ne e')
        | inr (ne', found') ↦ elim (get-insert_cases ids.session_id j _ r s found') [
          | inl (e'', is'') ↦ absurd (ne e'')
          | inr (ne'', old) ↦ inr old
        ]
      ]
    ]

    opened-RegistryIsValid : RegistryIsValid opened
    unfolding create_session open_window
    opened-RegistryIsValid =
        added-RegistryIsValid r opened ids.session_id grown v
          (modify-Ascending ids.session_id _ _
            (modify-Ascending ids.session_id _ _ (insert-Ascending ids.session_id _ r v.ordered)))
          opened-entries
          (open_window-SessionIsValid ids.window_id ids.pane_id "main" spec size born refl refl
            no_windows-AreValid)
          refl (λ pane has. rw (← (==_iff ids.pane_id pane).0 (ground (arith, has))) fresh_id)
          (λ wid has. rw (← (==_iff ids.window_id wid).0 (ground (arith, has))) fresh_window)

    add_window-opened :
        add_window ids.session_id ids.window_id ids.pane_id "main" spec size created ≡ some opened
    unfolding add_window create_session
    add_window-opened = ground (
      arith,
      contains-modify ids.session_id ids.session_id
          (λ (s : TearSession Num). record s { source = source })
          (insert ids.session_id (empty_session ids.session_id name io.now_unix) r),
      contains-insert ids.session_id ids.session_id (empty_session ids.session_id name io.now_unix)
          r,
    )

  pub new_session-IsValid :
      (io : SystemIo) (ids : Minted) (name : String) (spec : PaneSpec) (source : SessionSource)
      (size_cells : Cells) (st : InProcess Num)
      → window_known ids.window_id st.registry ≡ false
      → in_registry ids.pane_id st.registry ≡ false
      → RegistryIsValid st.registry
      → RegistryIsValid (new_session io ids name spec source size_cells st).0.registry
  unfolding new_session
  new_session-IsValid io ids name spec source size_cells st fresh_window fresh_id v =
      let size = at_least_one size_cells in
      let recorded = record spec { env = [] } in
      let after = record st {
        registry = opened io ids name recorded source size st.registry fresh_window fresh_id v;
      } in
      let valid =
        opened-RegistryIsValid io ids name recorded source size st.registry fresh_window fresh_id
          v in
      let made =
        add_window-opened io ids name recorded source size st.registry fresh_window fresh_id v in
      let kept = spawn_pty_with-registry io ids.pane_id size after in
      elim (Bool-cases (spawn_pty_with io ids.pane_id size after).1) [
        | inl up ↦ rw (made, new_session, up, kept) valid
        | inr down ↦
            rw (made, new_session, down, kept) (remove-RegistryIsValid _ ids.session_id valid)
      ]
