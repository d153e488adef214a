-- ===== src/TearCore/Brake.antt =====
-- tear-core/src/inproc.rs, `set_freio` and `freio_state`: the operator's brake on the panes that
-- automation drives.
pub mod Admission
pub mod Reporting
use tear.Base.{ℕ, Bool, true, List, [], ◌∷◌, ◌++◌, Option, none, some, if◌then◌else◌, ◌==◌}
use tear.Base.Maps.{BTreeMap}
use tear.TearTypes.Pane.{TearPane, is_automation, is_unknown}
use tear.TearTypes.Session.{Freio}
use tear.TearCore.Registry.{Registry}
use tear.TearCore.Runtime.{InProcess}

-- `!session.is_some_and(|want| want != *sid)`
abbrev pub is_wanted : Option ℕ → ℕ → Bool
is_wanted none sid = true
is_wanted (some want) sid = want == sid

-- The panes that the brake stops, and those that it cannot classify.
unfoldable pub braked_panes : BTreeMap TearPane → List ℕ
braked_panes [] = []
braked_panes ((pid, p) ∷ panes) =
    if is_automation p.yurai then pid ∷ braked_panes panes else braked_panes panes

unfoldable pub unreached_panes : BTreeMap TearPane → List ℕ
unreached_panes [] = []
unreached_panes ((pid, p) ∷ panes) =
    if is_automation p.yurai
    then unreached_panes panes
    else if is_unknown p.yurai
    then pid ∷ unreached_panes panes
    else unreached_panes panes

module _ {Num : Type 0} where
  -- The loop over the sessions.
  unfoldable pub brake_sessions : Option ℕ → Freio → Registry Num → Registry Num
  brake_sessions session next [] = []
  brake_sessions session next ((sid, s) ∷ r) =
      (sid, if is_wanted session sid then record s { freio = next } else s)
      ∷ brake_sessions session next r

  -- What the loop collects, by one of the two tests.
  unfoldable pub collect_panes :
      (BTreeMap TearPane → List ℕ) → Option ℕ → Bool → Registry Num → List ℕ
  collect_panes pick session engaged [] = []
  collect_panes pick session engaged ((sid, s) ∷ r) =
      (if is_wanted session sid then (if engaged then pick s.panes else []) else [])
      ++ collect_panes pick session engaged r

  -- `InProcess::freio_state`
  unfoldable pub freio_state : Registry Num → List (ℕ × Freio)
  freio_state [] = []
  freio_state ((sid, s) ∷ r) = (sid, s.freio) ∷ freio_state r

  -- `InProcess::set_freio`, with the daemon's clock: the states, the braked panes and the others.
  unfoldable pub set_freio :
      ℕ → Option ℕ → Bool → InProcess Num → InProcess Num × List (ℕ × Freio) × List ℕ × List ℕ
  unfolding brake_sessions collect_panes freio_state braked_panes unreached_panes
  set_freio at_unix session engaged st =
      let next = if engaged then Freio.engaged at_unix else Freio.released in
      let registry = brake_sessions session next st.registry in
      (
        record st { registry = registry },
        freio_state registry,
        collect_panes braked_panes session engaged st.registry,
        collect_panes unreached_panes session engaged st.registry,
      )
