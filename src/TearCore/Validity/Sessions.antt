-- ===== src/TearCore/Validity/Sessions.antt =====
-- Changes of the registry that keep `RegistryIsValid`: of some sessions, an empty session added, a
-- session removed; and what `locate_pane` finds in a valid registry.
use mathlib.Core.Path.{◌∙◌}
use tear.Base.{
  ℕ, ◌≡◌, ◌⊎◌, inl, inr, refl, sym, Bool, true, false, ◌||◌, [], ◌∷◌, some, arith, nat_eq,
}
use tear.Base.Maps.{get, contains_key, remove, modify, modify_first, Ascending}
use tear.Base.Maps.Entries.{
  get-modify_cases, get-modify_first_cases, get-remove_found, modify-Ascending,
  modify_first-Ascending, remove-Ascending,
}
use tear.Kukaku.Float.{Float}
use tear.TearTypes.Session.{TearSession}
use tear.TearCore.Registry.{Registry}
use tear.TearCore.Runtime.{in_registry}
use tear.TearCore.Validity.{SessionIsValid, RegistryIsValid}

module _ {Num : Type 0} where
  -- Whether some session has the window.
  abbrev pub window_known : ℕ → Registry Num → Bool
  window_known wid [] = false
  window_known wid ((sid, s) ∷ r) = contains_key wid s.windows || window_known wid r

  pub in_registry-get :
      (pane sid : ℕ) (s : TearSession Num) (r : Registry Num)
      → in_registry pane r ≡ false
      → get sid r ≡ some s
      → contains_key pane s.panes ≡ false
  in_registry-get pane sid s [] n h = absurd (cc h)
  in_registry-get pane sid s ((j, u) ∷ r) n h = ground (arith, in_registry-get pane sid s r)

  pub window_known-get :
      (wid sid : ℕ) (s : TearSession Num) (r : Registry Num)
      → window_known wid r ≡ false
      → get sid r ≡ some s
      → contains_key wid s.windows ≡ false
  window_known-get wid sid s [] n h = absurd (cc h)
  window_known-get wid sid s ((j, u) ∷ r) n h = ground (arith, window_known-get wid sid s r)

module _ {Num : Type 0} ⦃f : Float Num⦄ where
  -- A session after a change: only the target may have got a pane or a window that is new to the
  -- registry.
  pub record Evolves (r : Registry Num) (target sid : ℕ) (s s' : TearSession Num) : Type 0 where
    pub valid : SessionIsValid s'
    pub same_id : s'.id ≡ s.id
    pub panes_from :
        (pane : ℕ)
        → contains_key pane s'.panes ≡ true
        → (contains_key pane s.panes ≡ true) ⊎ ((sid ≡ target) × (in_registry pane r ≡ false))
    pub windows_from :
        (wid : ℕ)
        → contains_key wid s'.windows ≡ true
        → (contains_key wid s.windows ≡ true) ⊎ ((sid ≡ target) × (window_known wid r ≡ false))

  pub stays-Evolves :
      (r : Registry Num) (target sid : ℕ) (s : TearSession Num)
      → SessionIsValid s
      → Evolves r target sid s s
  stays-Evolves r target sid s v = record {
    valid = v;
    same_id = refl;
    panes_from = λ pane h. inl h;
    windows_from = λ wid h. inl h;
  }

  pub evolved-RegistryIsValid :
      (r r' : Registry Num) (target : ℕ)
      → RegistryIsValid r
      → Ascending r'
      → ((sid : ℕ) (s' : TearSession Num)
          → get sid r' ≡ some s'
          → (s : TearSession Num) × (get sid r ≡ some s) × Evolves r target sid s s')
      → RegistryIsValid r'
  evolved-RegistryIsValid r r' target v asc from = record {
    ordered = asc;
    valid = λ sid s' at. (from sid s' at).2.valid;
    own_id = λ sid s' at. let (s, found, e) = from sid s' at in e.same_id ∙ v.own_id sid s found;
    panes_apart = λ sid sid' s s' at at' pane h h'.
        let (u, found, e) = from sid s at in
        let (u', found', e') = from sid' s' at' in
        elim (e.panes_from pane h) [
          | inl old ↦ elim (e'.panes_from pane h') [
            | inl old' ↦ v.panes_apart sid sid' u u' found found' pane old old'
            | inr (here', new') ↦ absurd (cc (in_registry-get pane sid u r new' found, old))
          ]
          | inr (here, new) ↦ elim (e'.panes_from pane h') [
            | inl old' ↦ absurd (cc (in_registry-get pane sid' u' r new found', old'))
            | inr (here', new') ↦ here ∙ sym here'
          ]
        ];
    windows_apart = λ sid sid' s s' at at' wid h h'.
        let (u, found, e) = from sid s at in
        let (u', found', e') = from sid' s' at' in
        elim (e.windows_from wid h) [
          | inl old ↦ elim (e'.windows_from wid h') [
            | inl old' ↦ v.windows_apart sid sid' u u' found found' wid old old'
            | inr (here', new') ↦ absurd (cc (window_known-get wid sid u r new' found, old))
          ]
          | inr (here, new) ↦ elim (e'.windows_from wid h') [
            | inl old' ↦ absurd (cc (window_known-get wid sid' u' r new found', old'))
            | inr (here', new') ↦ here ∙ sym here'
          ]
        ];
  }

  pub modify-RegistryIsValid :
      (r : Registry Num) (target : ℕ) (change : TearSession Num → TearSession Num)
      → RegistryIsValid r
      → ((s : TearSession Num) → get target r ≡ some s → Evolves r target target s (change s))
      → RegistryIsValid (modify target change r)
  modify-RegistryIsValid r target change v e =
      evolved-RegistryIsValid r _ target v (modify-Ascending target change r v.ordered)
        (λ sid s' at. elim (get-modify_cases target sid change r s' at) [
          | inl (here, (s, found, is)) ↦ (s, found, rw (is, ← here) (e s (rw here found)))
          | inr (ne, found) ↦ (s', found, stays-Evolves r target sid s' (v.valid sid s' found))
        ])

  pub modify_first-RegistryIsValid :
      (r : Registry Num) (test : TearSession Num → Bool)
      (change : TearSession Num → TearSession Num)
      → RegistryIsValid r
      → ((sid : ℕ) (s : TearSession Num)
          → get sid r ≡ some s
          → test s ≡ true
          → Evolves r 0 sid s (change s))
      → RegistryIsValid (modify_first test change r)
  modify_first-RegistryIsValid r test change v e =
      evolved-RegistryIsValid r _ 0 v (modify_first-Ascending test change r v.ordered) (λ sid s' at.
        elim (get-modify_first_cases test change sid r s' at) [
          | inl found ↦ (s', found, stays-Evolves r 0 sid s' (v.valid sid s' found))
          | inr (s, found, passed, is) ↦ (s, found, rw is (e sid s found passed))
        ])

  pub remove-RegistryIsValid :
      (r : Registry Num) (sid : ℕ) → RegistryIsValid r → RegistryIsValid (remove sid r)
  remove-RegistryIsValid r sid v =
      evolved-RegistryIsValid r _ 0 v (remove-Ascending sid r v.ordered) (λ j s at.
        let found = (get-remove_found sid j r s at).1 in
        (s, found, stays-Evolves r 0 j s (v.valid j s found)))
