-- ===== src/TearCore/Validity/Locating.antt =====
-- `Registry::locate_pane` of tear-core/src/registry.rs in a valid registry: it finds the session
-- and the window that have the pane.
use mathlib.Core.Path.{◌∙◌}
use tear.Base.{
  ℕ, ◌≡◌, ◌⊎◌, inl, inr, true, false, [], ◌∷◌, some, none, arith, nat_eq, Bool-cases, Option-cases,
}
use tear.Base.Maps.{BTreeMap, get, contains_key, Ascending}
use tear.Base.Maps.Entries.{AllAbove-lt}
use tear.Kukaku.Float.{Float}
use tear.TearTypes.Session.{TearSession, TearWindow}
use tear.TearCore.Registry.{Registry, locate_pane, window_showing}
use tear.TearCore.Validity.{shows, RegistryIsValid}

module _ {Num : Type 0} where
  window_showing_sound :
      (windows : BTreeMap (TearWindow Num)) (pane wid : ℕ)
      → Ascending windows
      → window_showing windows pane ≡ some wid
      → (w : TearWindow Num) × (get wid windows ≡ some w) × (shows w pane ≡ true)
  unfolding window_showing
  window_showing_sound [] pane wid asc h = absurd (cc h)
  window_showing_sound ((j, u) ∷ windows) pane wid asc h = elim (Bool-cases (shows u pane)) [
    | inl hit ↦ (u, ground arith, hit)
    | inr miss ↦
        let (w, found, s) = window_showing_sound windows pane wid asc.1 (ground arith) in
        (w, ground (arith, AllAbove-lt j wid windows w asc.0 found), s)
  ]

  window_showing_complete :
      (windows : BTreeMap (TearWindow Num)) (pane wid : ℕ) (w : TearWindow Num)
      → window_showing windows pane ≡ none
      → get wid windows ≡ some w
      → shows w pane ≡ false
  unfolding window_showing
  window_showing_complete [] pane wid w h e = absurd (cc e)
  window_showing_complete ((j, u) ∷ windows) pane wid w h e =
      ground (arith, window_showing_complete windows pane wid w)

  -- What the result of `locate_pane` names.
  abbrev pub Holds : Registry Num → ℕ → ℕ × ℕ → Type 0
  Holds r pane at =
      (s : TearSession Num) × (w : TearWindow Num) × (get at.0 r ≡ some s)
      × (get at.1 s.windows ≡ some w)
      × (contains_key pane s.panes ≡ true)
      × (shows w pane ≡ true)

  -- The keys are the sessions' own ids, and the windows are in order.
  abbrev pub Keyed : Registry Num → Type 0
  Keyed r =
      (sid : ℕ) (s : TearSession Num) → get sid r ≡ some s → (s.id ≡ sid) × Ascending s.windows

  Keyed-rest :
      (j : ℕ) (u : TearSession Num) (r : Registry Num)
      → Ascending ((j, u) ∷ r)
      → Keyed ((j, u) ∷ r)
      → Keyed r
  Keyed-rest j u r asc k sid s found = k sid s (ground (arith, AllAbove-lt j sid r s asc.0 found))

  Keyed-head :
      (j : ℕ) (u : TearSession Num) (r : Registry Num)
      → Keyed ((j, u) ∷ r)
      → (u.id ≡ j) × Ascending u.windows
  Keyed-head j u r k = k j u (ground arith)

  locate_pane-cons :
      (j : ℕ) (u : TearSession Num) (r : Registry Num) (pane : ℕ) (at : ℕ × ℕ)
      → locate_pane ((j, u) ∷ r) pane ≡ some at
      → ((contains_key pane u.panes ≡ true)
          × ((wid : ℕ) × (window_showing u.windows pane ≡ some wid) × (at ≡ (u.id, wid))))
        ⊎ (locate_pane r pane ≡ some at)
  unfolding locate_pane
  locate_pane-cons j u r pane at h = elim (Option-cases (window_showing u.windows pane)) [
    | inl missed ↦ inr (ground arith)
    | inr (wid, hit) ↦ elim (Bool-cases (contains_key pane u.panes)) [
      | inl has ↦ inl (has, (wid, hit, ground arith))
      | inr other ↦ inr (ground arith)
    ]
  ]

  locate_pane_sound :
      (r : Registry Num) (pane : ℕ) (at : ℕ × ℕ)
      → Ascending r
      → Keyed r
      → locate_pane r pane ≡ some at
      → Holds r pane at
  unfolding locate_pane
  locate_pane_sound [] pane at asc k h = absurd (cc h)
  locate_pane_sound ((j, u) ∷ r) pane at asc k h = elim (locate_pane-cons j u r pane at h) [
    | inl (has, (wid, hit, is)) ↦
        let (own, ordered) = Keyed-head j u r k in
        let (w, found, s) = window_showing_sound u.windows pane wid ordered hit in
        rw is (u, w, ground (arith, own), found, has, s)
    | inr later ↦
        let (s, w, found, inside, has, sh) =
          locate_pane_sound r pane at asc.1 (Keyed-rest j u r asc k) later in
        (s, w, ground (arith, AllAbove-lt j at.0 r s asc.0 found), inside, has, sh)
  ]

  locate_pane_complete :
      (r : Registry Num) (pane sid wid : ℕ) (s : TearSession Num) (w : TearWindow Num)
      → get sid r ≡ some s
      → contains_key pane s.panes ≡ true
      → get wid s.windows ≡ some w
      → shows w pane ≡ true
      → locate_pane r pane ≡ none
      → ⊥
  unfolding locate_pane
  locate_pane_complete [] pane sid wid s w at has there sh none_found = absurd (cc at)
  locate_pane_complete ((j, u) ∷ r) pane sid wid s w at has there sh none_found =
      ground (
        arith,
        locate_pane_complete r pane sid wid s w,
        window_showing_complete u.windows pane wid w,
      )

module _ {Num : Type 0} ⦃f : Float Num⦄ where
  pub valid-Keyed : (r : Registry Num) → RegistryIsValid r → Keyed r
  valid-Keyed r v sid s at = (v.own_id sid s at, (v.valid sid s at).ordered)

  -- In a valid registry `locate_pane` names a session and a window of it that have the pane, and it
  -- finds every pane that some session has.
  pub locate_pane_lem :
      (r : Registry Num) (pane : ℕ)
      → RegistryIsValid r
      → ((at : ℕ × ℕ) → locate_pane r pane ≡ some at → Holds r pane at)
        × ((sid : ℕ) (s : TearSession Num)
            → get sid r ≡ some s
            → contains_key pane s.panes ≡ true
            → (wid : ℕ) × (locate_pane r pane ≡ some (sid, wid)))
  locate_pane_lem r pane v = (sound, complete)
    where
      sound : (at : ℕ × ℕ) → locate_pane r pane ≡ some at → Holds r pane at
      sound at h = locate_pane_sound r pane at v.ordered (valid-Keyed r v) h

      complete :
          (sid : ℕ) (s : TearSession Num)
          → get sid r ≡ some s
          → contains_key pane s.panes ≡ true
          → (wid : ℕ) × (locate_pane r pane ≡ some (sid, wid))
      complete sid s at has =
          let (wid, w, there, sh) = (v.valid sid s at).shown pane has in
          elim (Option-cases (locate_pane r pane)) [
            | inl missed ↦ absurd (locate_pane_complete r pane sid wid s w at has there sh missed)
            | inr (found, is) ↦
                let (s', w', at', there', has', sh') = sound found is in
                let same : found.0 ≡ sid = v.panes_apart found.0 sid s' s at' at pane has' has in
                (found.1, is ∙ (λ i. some (same i, found.1)))
          ]
