-- ===== src/TearCore/Steering/Validity.antt =====
-- Naming, focus, input policies and the brake (tear-core/src/inproc.rs) keep the registry valid.
use Prim.Native.String.{String}
use tear.Base.{
  ℕ, ◌≡◌, inl, inr, refl, Bool, true, false, [], ◌∷◌, Option, some, Option-cases, Bool-cases,
  is_some, ◌==◌, if◌then◌else◌, arith,
}
use tear.Base.Maps.{get, contains_key, find_first, contains-modify, AllAbove, Ascending}
use tear.Kukaku.Float.{Float}
use tear.TearTypes.Pane.{InputPolicy}
use tear.TearTypes.Session.{TearSession, Freio}
use tear.TearCore.Registry.{Registry, locate_pane}
use tear.TearCore.Brake.{is_wanted, brake_sessions, set_freio}
use tear.TearCore.Exit.{holds_pane}
use tear.TearCore.Runtime.{InProcess}
use tear.TearCore.Steering.{
  holds_window, rename_session, select_window, focus_pane, select_pane, set_input_policy,
}
use tear.TearCore.Validity.{AreValid, SessionIsValid, RegistryIsValid}
use tear.TearCore.Validity.Geometry.{records-Evolves, window-Evolves}
use tear.TearCore.Validity.Locating.{locate_pane_lem}
use tear.TearCore.Validity.Sessions.{
  Evolves, modify-RegistryIsValid, modify_first-RegistryIsValid, evolved-RegistryIsValid,
}

module _ {Num : Type 0} ⦃f : Float Num⦄ where
  -- The same windows, panes and id.
  relabelled-Evolves :
      (r : Registry Num) (target sid : ℕ) (s s' : TearSession Num)
      → SessionIsValid s'
      → s'.id ≡ s.id
      → s'.panes ≡ s.panes
      → s'.windows ≡ s.windows
      → Evolves r target sid s s'
  relabelled-Evolves r target sid s s' v own ps ws = record {
    valid = v;
    same_id = own;
    panes_from = λ pane h. inl (rw ps at h);
    windows_from = λ wid h. inl (rw ws at h);
  }

  pub rename_session-IsValid :
      (id : ℕ) (new_name : String) (st : InProcess Num)
      → RegistryIsValid st.registry
      → RegistryIsValid (rename_session id new_name st).0.registry
  unfolding rename_session
  rename_session-IsValid id new_name st v = elim (Bool-cases (contains_key id st.registry)) [
    | inl has ↦
        rw (has, rename_session)
          (modify-RegistryIsValid st.registry id _ v
            (λ s at. relabelled-Evolves st.registry id id s _ (v.valid id s at) refl refl refl))
    | inr gone ↦ rw (gone, rename_session) v
  ]

  pub select_window-IsValid :
      (id : ℕ) (st : InProcess Num)
      → RegistryIsValid st.registry
      → RegistryIsValid (select_window id st).0.registry
  unfolding select_window
  select_window-IsValid id st v =
      elim (Bool-cases (is_some (find_first (holds_window id) st.registry))) [
        | inl has ↦
            rw (has, select_window)
              (modify_first-RegistryIsValid st.registry (holds_window id) _ v (λ sid s at here.
                relabelled-Evolves st.registry 0 sid s _ (focused s (v.valid sid s at) here) refl
                  refl refl))
        | inr gone ↦ rw (gone, select_window) v
      ]
    where
      focused :
          (s : TearSession Num)
          → SessionIsValid s
          → contains_key id s.windows ≡ true
          → AreValid s.windows s.panes id
      focused s h here = record {
        ordered = h.ordered;
        valid = h.valid;
        recorded = h.recorded;
        shown = h.shown;
        once = h.once;
        focus = inr here;
      }

  pub select_pane-IsValid :
      (id : ℕ) (st : InProcess Num)
      → RegistryIsValid st.registry
      → RegistryIsValid (select_pane id st).0.registry
  unfolding select_pane
  select_pane-IsValid id st v = elim (Option-cases (locate_pane st.registry id)) [
    | inl missed ↦ rw (missed, select_pane) v
    | inr (at, is) ↦
        let (s, w, found, there, has, held) = (locate_pane_lem st.registry id v).0 at is in
        rw (is, select_pane)
          (modify-RegistryIsValid st.registry at.0 (focus_pane at.1 id) v (λ u found'.
            window-Evolves st.registry at.0 at.0 u at.1 _
              (λ w' there'.
                let same : w' ≡ w = cc (found, found', there, there') in
                record {
                  same_panes = refl;
                  valid = record {
                    well_formed = ((v.valid at.0 u found').valid at.1 w' there').well_formed;
                    focused = rw same held;
                  };
                })
              (v.valid at.0 u found')))
  ]

  pub set_input_policy-IsValid :
      (id : ℕ) (policy : InputPolicy) (st : InProcess Num)
      → RegistryIsValid st.registry
      → RegistryIsValid (set_input_policy id policy st).0.registry
  unfolding set_input_policy
  set_input_policy-IsValid id policy st v =
      elim (Bool-cases (is_some (find_first (holds_pane id) st.registry))) [
        | inl has ↦
            rw (has, set_input_policy)
              (modify_first-RegistryIsValid st.registry (holds_pane id) _ v (λ sid s at here.
                records-Evolves st.registry 0 sid s _ (λ pane. contains-modify id pane _ s.panes)
                  (v.valid sid s at)))
        | inr gone ↦ rw (gone, set_input_policy) v
      ]

  brake_sessions-above :
      (b : ℕ) (session : Option ℕ) (next : Freio) (r : Registry Num)
      → AllAbove b r
      → AllAbove b (brake_sessions session next r)
  unfolding brake_sessions
  brake_sessions-above b session next [] h = tt
  brake_sessions-above b session next ((sid, s) ∷ r) h =
      (h.0, brake_sessions-above b session next r h.1)

  brake_sessions-Ascending :
      (session : Option ℕ) (next : Freio) (r : Registry Num)
      → Ascending r
      → Ascending (brake_sessions session next r)
  unfolding brake_sessions
  brake_sessions-Ascending session next [] h = tt
  brake_sessions-Ascending session next ((sid, s) ∷ r) h =
      (brake_sessions-above sid session next r h.0, brake_sessions-Ascending session next r h.1)

  -- The session under a key, before and after the brake.
  pub brake_sessions-get :
      (session : Option ℕ) (next : Freio) (r : Registry Num) (sid : ℕ) (s' : TearSession Num)
      → get sid (brake_sessions session next r) ≡ some s'
      → (s : TearSession Num) × (get sid r ≡ some s)
        × (s' ≡ (if is_wanted session sid then record s { freio = next } else s))
  unfolding brake_sessions
  brake_sessions-get session next [] sid s' at = absurd (cc at)
  brake_sessions-get session next ((j, u) ∷ r) sid s' at = elim (Bool-cases (j == sid)) [
    | inl here ↦ (u, ground arith, ground arith)
    | inr later ↦
        let (s, found, is) = brake_sessions-get session next r sid s' (ground arith) in
        (s, ground arith, is)
  ]

  pub set_freio-IsValid :
      (at_unix : ℕ) (session : Option ℕ) (engaged : Bool) (st : InProcess Num)
      → RegistryIsValid st.registry
      → RegistryIsValid (set_freio at_unix session engaged st).0.registry
  unfolding set_freio
  set_freio-IsValid at_unix session engaged st v =
      let next = if engaged then Freio.engaged at_unix else Freio.released in
      evolved-RegistryIsValid st.registry _ 0 v
        (brake_sessions-Ascending session next st.registry v.ordered)
        (λ sid s' at.
          let (s, found, is) = brake_sessions-get session next st.registry sid s' at in
          (s, found, rw is (braked (is_wanted session sid) next sid s (v.valid sid s found))))
    where
      braked :
          (b : Bool) (next : Freio) (sid : ℕ) (s : TearSession Num)
          → SessionIsValid s
          → Evolves st.registry 0 sid s (if b then record s { freio = next } else s)
      braked true next sid s h = relabelled-Evolves st.registry 0 sid s _ h refl refl refl
      braked false next sid s h = relabelled-Evolves st.registry 0 sid s s h refl refl refl
