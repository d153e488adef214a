-- ===== src/TearCore/Closing/Killing.antt =====
-- `kill_session`, `kill_pane` and the removal of a dead session (tear-core/src/inproc.rs) keep the
-- registry valid.
use tear.Base.{ℕ, ◌≡◌, inl, inr, true, some, Option-cases, elem, nat_eq}
use tear.Base.Maps.{get, modify}
use tear.Kukaku.Float.{Float, IsIeee}
use tear.Kukaku.Layout.{removed, was_root, not_found, remove_leaf, LeafRemoval}
use tear.TearTypes.Session.{TearSession, TearWindow}
use tear.TearCore.Registry.{Registry, locate_pane}
use tear.TearCore.Runtime.{InProcess, SystemIo}
use tear.TearCore.Closing.{
  kill_session, kill_pane, close_pane, leaf_outcome, witness, reap_proven_dead,
}
use tear.TearCore.Closing.Validity.{close_pane-Evolves}
use tear.TearCore.Validity.{RegistryIsValid}
use tear.TearCore.Validity.Geometry.{apply_layout_geometry-IsValid}
use tear.TearCore.Validity.Layouts.{remove_leaf-IsShrunk}
use tear.TearCore.Validity.Locating.{locate_pane_lem}
use tear.TearCore.Validity.Sessions.{modify-RegistryIsValid, remove-RegistryIsValid}

module _ {Num : Type 0} ⦃f : Float Num⦄ where
  pub kill_session-IsValid :
      (io : SystemIo) (id : ℕ) (st : InProcess Num)
      → RegistryIsValid st.registry
      → RegistryIsValid (kill_session io id st).0.registry
  unfolding kill_session
  kill_session-IsValid io id st v = elim (Option-cases (get id st.registry)) [
    | inl missed ↦ rw (missed, kill_session) v
    | inr (s, at) ↦ rw (at, kill_session) (remove-RegistryIsValid st.registry id v)
  ]

  pub reap_proven_dead-IsValid :
      (sid : ℕ) (st : InProcess Num)
      → RegistryIsValid st.registry
      → RegistryIsValid (reap_proven_dead sid st).0.registry
  unfolding reap_proven_dead
  reap_proven_dead-IsValid sid st v = elim (Option-cases (get sid st.registry)) [
    | inl missed ↦ rw (missed, reap_proven_dead) v
    | inr (s, at) ↦ elim (Option-cases (witness s)) [
      | inl alive ↦ rw (at, alive, reap_proven_dead) v
      | inr (dead, proof) ↦
          rw (at, proof, reap_proven_dead) (remove-RegistryIsValid st.registry sid v)
    ]
  ]

module _ {Num : Type 0} ⦃f : Float Num⦄ (ieee : IsIeee f) where
  -- The registry of `kill_pane` after the session was changed.
  closed-RegistryIsValid :
      (r : Registry Num) (id : ℕ) (at : ℕ × ℕ) (s : TearSession Num) (w : TearWindow Num)
      → RegistryIsValid r
      → get at.0 r ≡ some s
      → get at.1 s.windows ≡ some w
      → elem id (tear.Kukaku.Layout.panes w.layout) ≡ true
      → RegistryIsValid (modify at.0 (close_pane at.1 id (remove_leaf w.layout id).1) r)
  closed-RegistryIsValid r id at s w v found there held =
      modify-RegistryIsValid r at.0 _ v (λ u found'.
        let same : u ≡ s = cc (found, found') in
        rw same (close_pane-Evolves ieee r at.0 at.0 at.1 id s w there held (v.valid at.0 s found)))

  pub kill_pane-IsValid :
      (io : SystemIo) (id : ℕ) (st : InProcess Num)
      → RegistryIsValid st.registry
      → RegistryIsValid (kill_pane io id st).0.registry
  unfolding kill_pane
  kill_pane-IsValid io id st v = elim (Option-cases (locate_pane st.registry id)) [
    | inl missed ↦ rw (missed, kill_pane) v
    | inr (at, is) ↦
        let (s, w, found, there, has, held) = (locate_pane_lem st.registry id v).0 at is in
        let closed = closed-RegistryIsValid st.registry id at s w v found there held in
        elim (remove_leaf-IsShrunk ieee w.layout id
          ((v.valid at.0 s found).valid at.1 w there).well_formed held) [
            | inl (root, only) ↦
                let out : leaf_outcome id (get at.1 s.windows) ≡ was_root = rw there root in
                rw (is, found, kill_pane, out) (rw out (rw root at closed))
            | inr (inner, shrunk) ↦
                let out : leaf_outcome id (get at.1 s.windows) ≡ removed = rw there inner in
                rw (is, found, kill_pane, out)
                  (apply_layout_geometry-IsValid io at.0 at.1 _ (rw out (rw inner at closed)))
          ]
  ]
