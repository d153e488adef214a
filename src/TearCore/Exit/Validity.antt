-- ===== src/TearCore/Exit/Validity.antt =====
-- The exit of a child (tear-core/src/inproc.rs) keeps the registry valid.
use tear.Base.{ℕ, inl, inr, Bool, ◌||◌, Option, some, none, Option-cases, if_both}
use tear.Base.Int.{ℤ}
use tear.Base.Maps.{get, modify_first, contains-modify}
use tear.Kukaku.Float.{Float}
use tear.TearCore.Closing.{witness}
use tear.TearCore.Closing.Killing.{reap_proven_dead-IsValid}
use tear.TearCore.Exit.{
  holds_pane, mark_exited, exit_status, session_watched, reap_if_dead, reap_unwatched, end_pane,
  on_exit,
}
use tear.TearCore.Runtime.{InProcess, SystemIo}
use tear.TearCore.Validity.{RegistryIsValid}
use tear.TearCore.Validity.Geometry.{records-Evolves}
use tear.TearCore.Validity.Sessions.{modify_first-RegistryIsValid}

module _ {Num : Type 0} ⦃f : Float Num⦄ where
  pub reap_if_dead-IsValid :
      (sid : ℕ) (st : InProcess Num)
      → RegistryIsValid st.registry
      → RegistryIsValid (reap_if_dead sid st).registry
  unfolding reap_if_dead
  reap_if_dead-IsValid sid st v = elim (Option-cases (get sid st.registry)) [
    | inl missed ↦ rw (missed, reap_if_dead) v
    | inr (s, at) ↦ elim (Option-cases (witness s)) [
      | inl alive ↦ rw (at, alive, reap_if_dead) v
      | inr (dead, proof) ↦ rw (at, proof, reap_if_dead) (reap_proven_dead-IsValid dead st v)
    ]
  ]

  pub marked-RegistryIsValid :
      (id : ℕ) (status : ℤ) (st : InProcess Num)
      → RegistryIsValid st.registry
      → RegistryIsValid (modify_first (holds_pane id) (mark_exited id status) st.registry)
  unfolding mark_exited
  marked-RegistryIsValid id status st v =
      modify_first-RegistryIsValid st.registry (holds_pane id) (mark_exited id status) v
        (λ sid s at has.
          records-Evolves st.registry 0 sid s _ (λ pane. contains-modify id pane _ s.panes)
            (v.valid sid s at))

  reap_unwatched-IsValid :
      (sid : Option ℕ) (id : ℕ) (watched : Bool) (st : InProcess Num)
      → RegistryIsValid st.registry
      → RegistryIsValid (reap_unwatched sid id watched st).registry
  unfolding reap_unwatched
  reap_unwatched-IsValid none id watched st v = v
  reap_unwatched-IsValid (some sid) id watched st v =
      if_both (λ (st : InProcess Num). RegistryIsValid st.registry)
        (watched || session_watched id st.subscribers (get sid st.registry)) v
        (reap_if_dead-IsValid sid st v)

  pub on_exit-IsValid :
      (io : SystemIo) (held : Bool) (id : ℕ) (code : Option ℤ) (st : InProcess Num)
      → RegistryIsValid st.registry
      → RegistryIsValid (on_exit io held id code st).registry
  unfolding on_exit end_pane
  on_exit-IsValid io held id code st v =
      reap_unwatched-IsValid _ id _ _ (marked-RegistryIsValid id (exit_status code) st v)
