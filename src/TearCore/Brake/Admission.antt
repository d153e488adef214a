-- ===== src/TearCore/Brake/Admission.antt =====
-- What `set_freio` of tear-core/src/inproc.rs does to the input that a pane's session admits.
use tear.Base.{
  ℕ, ◌≡◌, ◌⊎◌, Bool, true, false, ◌&&◌, List, [], ◌∷◌, Option, some, if◌then◌else◌, arith, elem,
  elem-append, nat_eq,
}
use tear.Base.Maps.{BTreeMap, get}
use tear.TearTypes.Pane.{TearPane, is_automation, is_unknown}
use tear.TearTypes.Session.{TearSession, Freio, Admission, RefusalReason, policy_admission, admits}
use tear.TearCore.Registry.{Registry}
use tear.TearCore.Runtime.{InProcess}
use tear.TearCore.Brake.{
  is_wanted, braked_panes, unreached_panes, brake_sessions, collect_panes, set_freio,
}

braked_panes-holds :
    (pane : ℕ) (p : TearPane) (m : BTreeMap TearPane)
    → get pane m ≡ some p
    → (is_automation p.yurai ≡ false) ⊎ (elem pane (braked_panes m) ≡ true)
unfolding braked_panes
braked_panes-holds pane p [] at = absurd (cc at)
braked_panes-holds pane p ((k, q) ∷ m) at = ground (arith, braked_panes-holds pane p m)

unreached_panes-holds :
    (pane : ℕ) (p : TearPane) (m : BTreeMap TearPane)
    → get pane m ≡ some p
    → (is_unknown p.yurai ≡ false) ⊎ (elem pane (unreached_panes m) ≡ true)
unfolding unreached_panes
unreached_panes-holds pane p [] at = absurd (cc at)
unreached_panes-holds pane p ((k, q) ∷ m) at = ground (arith, unreached_panes-holds pane p m)

module _ {Num : Type 0} where
  -- The session under a key, after the brake.
  brake_sessions-reads :
      (session : Option ℕ) (next : Freio) (r : Registry Num) (sid : ℕ) (s : TearSession Num)
      → get sid r ≡ some s
      → get sid (brake_sessions session next r)
        ≡ some (if is_wanted session sid then record s { freio = next } else s)
  unfolding brake_sessions
  brake_sessions-reads session next [] sid s at = absurd (cc at)
  brake_sessions-reads session next ((j, u) ∷ r) sid s at =
      ground (arith, brake_sessions-reads session next r sid s)

  collect_panes-holds :
      (pick : BTreeMap TearPane → List ℕ) (session : Option ℕ) (r : Registry Num) (sid : ℕ)
      (s : TearSession Num) (pane : ℕ)
      → get sid r ≡ some s
      → is_wanted session sid ≡ true
      → elem pane (pick s.panes) ≡ true
      → elem pane (collect_panes pick session true r) ≡ true
  unfolding collect_panes
  collect_panes-holds pick session [] sid s pane at wanted has = absurd (cc at)
  collect_panes-holds pick session ((j, u) ∷ r) sid s pane at wanted has = ground (
    arith,
    collect_panes-holds pick session r sid s pane,
    elem-append pane (if is_wanted session j then pick u.panes else [])
        (collect_panes pick session true r),
  )

  -- After `set_freio` on every session, or on the one that is named, each pane of such a session
  -- admits what its policy says, except that with the brake engaged a pane that automation drives
  -- refuses all input. The result tells these panes, and those of unknown origin, which the brake
  -- does not reach. A session that is not named keeps what it admits.
  pub set_freio-Brakes :
      (at_unix : ℕ) (session : Option ℕ) (engaged : Bool) (st : InProcess Num) (sid : ℕ)
      (s : TearSession Num) (pane : ℕ) (p : TearPane)
      → get sid st.registry ≡ some s
      → get pane s.panes ≡ some p
      → (s' : TearSession Num) × (get sid (set_freio at_unix session engaged st).0.registry
          ≡ some s')
        × (admits s' pane ≡ (
            if is_wanted session sid
            then some (
                if engaged && is_automation p.yurai
                then Admission.refuse RefusalReason.freio
                else policy_admission p.input_policy)
            else admits s pane))
        × ((is_wanted session sid && engaged && is_automation p.yurai ≡ false)
            ⊎ (elem pane (set_freio at_unix session engaged st).2 ≡ true))
        × ((is_wanted session sid && engaged && is_unknown p.yurai ≡ false)
            ⊎ (elem pane (set_freio at_unix session engaged st).3 ≡ true))
  unfolding set_freio admits
  set_freio-Brakes at_unix session engaged st sid s pane p at there =
      let next = if engaged then Freio.engaged at_unix else Freio.released in
      (
        (if is_wanted session sid then record s { freio = next } else s),
        brake_sessions-reads session next st.registry sid s at,
        ground arith,
        reported braked_panes (λ (p : TearPane). is_automation p.yurai) engaged
            (braked_panes-holds pane p s.panes there),
        reported unreached_panes (λ (p : TearPane). is_unknown p.yurai) engaged
            (unreached_panes-holds pane p s.panes there),
      )
    where
      reported :
          (pick : BTreeMap TearPane → List ℕ) (test : TearPane → Bool) (engaged : Bool)
          → (test p ≡ false) ⊎ (elem pane (pick s.panes) ≡ true)
          → (is_wanted session sid && engaged && test p ≡ false)
            ⊎ (elem pane (collect_panes pick session engaged st.registry) ≡ true)
      reported pick test engaged h =
          ground (arith, collect_panes-holds pick session st.registry sid s pane at)
