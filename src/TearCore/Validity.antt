-- ===== src/TearCore/Validity.antt =====
-- The invariant of the registry of tear-core/src/registry.rs: what the comments on the fields of
-- tear-types/src/session.rs and window.rs ask for, for one session and for all of them.
pub mod Windows
pub mod Panes
pub mod Opening
pub mod Sessions
pub mod Layouts
pub mod Locating
pub mod Geometry
use tear.Base.{ℕ, ◌≡◌, ◌⊎◌, inl, inr, Bool, true, false, [], some, elem, nat_eq, ◌==◌}
use tear.Base.Maps.{BTreeMap, get, contains_key, Ascending}
use tear.Kukaku.Float.{Float}
use tear.Kukaku.Layout.{panes}
use tear.Kukaku.Layout.Validation.{IsWellFormed}
use tear.TearTypes.Pane.{TearPane}
use tear.TearTypes.Session.{TearSession, TearWindow, null_id}
use tear.TearCore.Registry.{Registry}

-- The window shows the pane.
abbrev pub shows : {Num : Type 0} → TearWindow Num → ℕ → Bool
shows w pane = elem pane (panes w.layout)

module _ {Num : Type 0} ⦃f : Float Num⦄ where
  -- A window's tree is well formed and shows the pane that gets the keys.
  pub record WindowIsValid (w : TearWindow Num) : Type 0 where
    pub well_formed : IsWellFormed w.layout
    pub focused : shows w w.active_pane ≡ true

  -- The panes of the session are those that its windows show, each in one window, and the
  -- focused window is one of the session's; without any, it is the null id.
  pub record AreValid (windows : BTreeMap (TearWindow Num)) (records : BTreeMap TearPane)
      (active_window : ℕ) : Type 0 where
    pub ordered : Ascending windows
    pub valid : (wid : ℕ) (w : TearWindow Num) → get wid windows ≡ some w → WindowIsValid w
    pub recorded :
        (wid : ℕ) (w : TearWindow Num)
        → get wid windows ≡ some w
        → (pane : ℕ) → shows w pane ≡ true
        → contains_key pane records ≡ true
    pub shown :
        (pane : ℕ)
        → contains_key pane records ≡ true
        → (wid : ℕ) × (w : TearWindow Num) × (get wid windows ≡ some w) × (shows w pane ≡ true)
    pub once :
        (wid wid' : ℕ) (w w' : TearWindow Num)
        → get wid windows ≡ some w
        → get wid' windows ≡ some w'
        → (pane : ℕ) → shows w pane ≡ true
        → shows w' pane ≡ true
        → wid ≡ wid'
    pub focus :
        ((windows ≡ []) × (active_window ≡ null_id)) ⊎ (contains_key active_window windows ≡ true)

  abbrev pub SessionIsValid : TearSession Num → Type 0
  SessionIsValid s = AreValid s.windows s.panes s.active_window

  -- Every session is valid and stands under its id, and no two of them share a pane or a window.
  pub record RegistryIsValid (r : Registry Num) : Type 0 where
    pub ordered : Ascending r
    pub valid : (sid : ℕ) (s : TearSession Num) → get sid r ≡ some s → SessionIsValid s
    pub own_id : (sid : ℕ) (s : TearSession Num) → get sid r ≡ some s → s.id ≡ sid
    pub panes_apart :
        (sid sid' : ℕ) (s s' : TearSession Num)
        → get sid r ≡ some s
        → get sid' r ≡ some s'
        → (pane : ℕ) → contains_key pane s.panes ≡ true
        → contains_key pane s'.panes ≡ true
        → sid ≡ sid'
    pub windows_apart :
        (sid sid' : ℕ) (s s' : TearSession Num)
        → get sid r ≡ some s
        → get sid' r ≡ some s'
        → (wid : ℕ) → contains_key wid s.windows ≡ true
        → contains_key wid s'.windows ≡ true
        → sid ≡ sid'
