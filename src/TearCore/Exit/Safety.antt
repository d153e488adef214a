-- ===== src/TearCore/Exit/Safety.antt =====
-- What the exit of one child leaves alone (`on_exit` of tear-core/src/inproc.rs).
use tear.Base.{
  ℕ, ◌≡◌, ◌≢◌, ◌⊎◌, inl, inr, refl, Bool, true, false, ◌||◌, [], ◌∷◌, Option, none, some, arith,
  nat_eq, Option-cases, Bool-cases, if_both,
}
use tear.Base.Int.{ℤ}
use tear.Base.Maps.{
  BTreeMap, get, keys, contains_key, contains_of_get, get-modify, get-remove, modify_first,
}
use tear.Base.Maps.Removal.{get-remove_all}
use tear.Kukaku.Float.{Float}
use tear.TearTypes.Pane.{TearPane, PaneState, is_exited}
use tear.TearTypes.Session.{TearSession}
use tear.TearCore.Closing.{witness, all_exited, reap_proven_dead}
use tear.TearCore.Closing.Detaching.{elem-keys}
use tear.TearCore.Exit.{
  holds_pane, mark_exited, exit_status, session_watched, reap_if_dead, reap_unwatched, end_pane,
  on_exit,
}
use tear.TearCore.Exit.Validity.{marked-RegistryIsValid}
use tear.TearCore.Runtime.{InProcess, SystemIo, detach_panes}
use tear.TearCore.Validity.{RegistryIsValid}

get-modify_first :
    {V : Type 0} (test : V → Bool) (g : V → V) (j : ℕ) (m : BTreeMap V) (v : V)
    → get j m ≡ some v
    → (get j (modify_first test g m) ≡ some v) ⊎ (get j (modify_first test g m) ≡ some (g v))
get-modify_first test g j [] v h = absurd (cc h)
get-modify_first test g j ((i, u) ∷ m) v h = ground (arith, get-modify_first test g j m v)

all_exited-get :
    (pane : ℕ) (p : TearPane) (m : BTreeMap TearPane)
    → get pane m ≡ some p
    → all_exited m ≡ true
    → is_exited p.state ≡ true
all_exited-get pane p [] at h = absurd (cc at)
all_exited-get pane p ((j, q) ∷ m) at h = ground (arith, all_exited-get pane p m)

module _ {Num : Type 0} ⦃f : Float Num⦄ where
  -- A proof that a session is dead names that session, and none of its panes runs.
  witness_sound :
      (s : TearSession Num) (dead : ℕ)
      → witness s ≡ some dead
      → (dead ≡ s.id) × (all_exited s.panes ≡ true)
  unfolding witness
  witness_sound s dead h = ground arith

  -- A pane that runs, with its session and its terminal.
  pub record Runs (sid pane : ℕ) (p : TearPane) (st : InProcess Num) : Type 0 where
    pub session : TearSession Num
    pub there : get sid st.registry ≡ some session
    pub recorded : get pane session.panes ≡ some p
    pub running : is_exited p.state ≡ false

  -- `reap_proven_dead` takes nothing of a session with a pane that runs.
  pub reap_proven_dead-keeps :
      (dead sid pane : ℕ) (p : TearPane) (st : InProcess Num)
      → RegistryIsValid st.registry
      → Runs sid pane p st
      → Runs sid pane p (reap_proven_dead dead st).0
        × (get pane (reap_proven_dead dead st).0.ptys ≡ get pane st.ptys)
  unfolding reap_proven_dead detach_panes
  reap_proven_dead-keeps dead sid pane p st v runs = elim (Option-cases (get dead st.registry)) [
    | inl missed ↦ rw (missed, reap_proven_dead) (runs, refl)
    | inr (s, at) ↦ elim (Option-cases (witness s)) [
      | inl alive ↦ rw (at, alive, reap_proven_dead) (runs, refl)
      | inr (d, proof) ↦
          rw (at, proof, reap_proven_dead)
            (
              record {
                session = runs.session;
                there =
                    ground
                      (arith, get-remove dead sid st.registry, other s at (all_dead s d proof));
                recorded = runs.recorded;
                running = runs.running;
              },
              ground (
                arith,
                get-remove_all (keys s.panes) pane st.ptys,
                elem-keys pane s.panes,
                absent s at (other s at (all_dead s d proof)),
              ),
            )
    ]
  ]
    where
      all_dead : (s : TearSession Num) (d : ℕ) → witness s ≡ some d → all_exited s.panes ≡ true
      all_dead s d proof = (witness_sound s d proof).1

      other :
          (s : TearSession Num)
          → get dead st.registry ≡ some s
          → all_exited s.panes ≡ true
          → dead ≢ sid
      other s at all same =
          let one : s ≡ runs.session = cc (at, runs.there, same) in
          let has : get pane s.panes ≡ some p = rw one runs.recorded in
          cc (all_exited-get pane p s.panes has all, runs.running)

      absent :
          (s : TearSession Num)
          → get dead st.registry ≡ some s
          → dead ≢ sid
          → contains_key pane s.panes ≡ false
      absent s at ne = elim (Bool-cases (contains_key pane s.panes)) [
        | inl has ↦ absurd (
            ne (
              v.panes_apart dead sid s runs.session at runs.there pane has
                (contains_of_get pane p runs.session.panes runs.recorded)))
        | inr lacks ↦ lacks
      ]

  reap_unwatched-keeps :
      (dead : Option ℕ) (id : ℕ) (watched : Bool) (sid pane : ℕ) (p : TearPane) (st : InProcess Num)
      → RegistryIsValid st.registry
      → Runs sid pane p st
      → Runs sid pane p (reap_unwatched dead id watched st)
        × (get pane (reap_unwatched dead id watched st).ptys ≡ get pane st.ptys)
  unfolding reap_unwatched reap_if_dead
  reap_unwatched-keeps none id watched sid pane p st v runs = (runs, refl)
  reap_unwatched-keeps (some dead) id watched sid pane p st v runs =
      if_both (λ (t : InProcess Num). Runs sid pane p t × (get pane t.ptys ≡ get pane st.ptys))
        (watched || session_watched id st.subscribers (get dead st.registry)) (runs, refl)
        (elim (Option-cases (get dead st.registry)) [
          | inl missed ↦ rw (missed, reap_if_dead) (runs, refl)
          | inr (s, at) ↦ elim (Option-cases (witness s)) [
            | inl alive ↦ rw (at, alive, reap_if_dead) (runs, refl)
            | inr (d, proof) ↦
                rw (at, proof, reap_if_dead) (reap_proven_dead-keeps d sid pane p st v runs)
          ]
        ])

  marked-Runs :
      (id : ℕ) (status : ℤ) (sid pane : ℕ) (p : TearPane) (st : InProcess Num)
      → id ≢ pane
      → Runs sid pane p st
      → (s : TearSession Num) × (get sid
            (modify_first (holds_pane id) (mark_exited id status) st.registry)
          ≡ some s)
        × (get pane s.panes ≡ some p)
  unfolding mark_exited
  marked-Runs id status sid pane p st ne runs =
      elim (get-modify_first (holds_pane id) (mark_exited id status) sid st.registry runs.session
        runs.there) [
          | inl same ↦ (runs.session, same, runs.recorded)
          | inr marked ↦ (
            mark_exited id status runs.session,
            marked,
            ground (
              arith,
              get-modify id pane (λ p. record p { state = PaneState.exited status })
                  runs.session.panes,
              runs.recorded,
            ),
          )
        ]

  -- In a valid registry the exit of one pane's child changes nothing of any other pane that runs: its
  -- session stays, its record stays as it is, and it keeps its terminal.
  pub on_exit-KeepsRunning :
      (io : SystemIo) (held : Bool) (id : ℕ) (code : Option ℤ) (sid pane : ℕ) (p : TearPane)
      (st : InProcess Num)
      → RegistryIsValid st.registry
      → id ≢ pane
      → Runs sid pane p st
      → Runs sid pane p (on_exit io held id code st)
        × (get pane (on_exit io held id code st).ptys ≡ get pane st.ptys)
  unfolding on_exit end_pane
  on_exit-KeepsRunning io held id code sid pane p st v ne runs =
      let (s, there, recorded) = marked-Runs id (exit_status code) sid pane p st ne runs in
      reap_unwatched-keeps _ id _ sid pane p _ (marked-RegistryIsValid id (exit_status code) st v)
        (record { session = s; there = there; recorded = recorded; running = runs.running })
