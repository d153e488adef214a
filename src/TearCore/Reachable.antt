-- ===== src/TearCore/Reachable.antt =====
-- Every sequence of calls of tear-core/src/inproc.rs, from `InProcess::new`: each call is one step,
-- with any answers of the system. A minted id is new to the registry.
pub mod Owned
pub mod OwnedClosing
pub mod OwnedOpening
pub mod OwnedSplitting
pub mod Terminals
pub mod Tombstones
pub mod Endings
use Prim.Native.String.{String}
use tear.Base.{ℕ, ◌<◌, ◌≡◌, Bool, false, List, [], Option, some, length, arith}
use tear.Base.Int.{ℤ}
use tear.Base.Maps.{get, contains_key}
use tear.Kukaku.Arrange.{LayoutKind}
use tear.Kukaku.Direction.{Direction}
use tear.Kukaku.Float.{Float, IsIeee}
use tear.Kukaku.Layout.{panes}
use tear.TearTypes.Pane.{Cells, InputPolicy}
use tear.TearTypes.Session.{TearSession, TearWindow, SessionSource}
use tear.TearCore.Arranging.{resize_pane, apply_layout}
use tear.TearCore.Arranging.Validity.{resize_pane-IsValid, apply_layout-IsValid}
use tear.TearCore.Brake.{set_freio}
use tear.TearCore.Closing.{kill_session, kill_window, kill_pane, reap_proven_dead}
use tear.TearCore.Closing.Killing.{
  kill_session-IsValid, kill_pane-IsValid, reap_proven_dead-IsValid,
}
use tear.TearCore.Closing.Validity.{kill_window-IsValid}
use tear.TearCore.Exit.{on_exit}
use tear.TearCore.Exit.Validity.{on_exit-IsValid}
use tear.TearCore.Registry.{PaneSpec}
use tear.TearCore.Runtime.{InProcess, SystemIo, in_registry, pane_resize_absolute}
use tear.TearCore.Spawning.{Minted, new_session, new_window, split_pane}
use tear.TearCore.Spawning.Sessions.{new_session-IsValid}
use tear.TearCore.Spawning.Splitting.{split_pane-IsValid}
use tear.TearCore.Spawning.Validity.{new_window-IsValid}
use tear.TearCore.Steering.{
  rename_session, select_window, select_pane, set_input_policy, send_keys, subscribe_pane_bytes,
}
use tear.TearCore.Steering.Validity.{
  rename_session-IsValid, select_window-IsValid, select_pane-IsValid, set_input_policy-IsValid,
  set_freio-IsValid,
}
use tear.TearCore.Validity.{RegistryIsValid}
use tear.TearCore.Validity.Geometry.{pane_resize_absolute-IsValid}
use tear.TearCore.Validity.Sessions.{window_known}

-- `InProcess::new`, with the directory that panes are spawned in.
abbrev pub empty_process : {Num : Type 0} → Option String → InProcess Num
empty_process cwd = record {
  registry = [];
  ptys = [];
  grids = [];
  subscribers = [];
  recordings = [];
  tombstones = [];
  spawn_cwd = cwd;
}

-- The ids of a new window and its pane are new to the registry.
pub record AreFresh {Num : Type 0} (ids : Minted) (st : InProcess Num) : Type 0 where
  pub new_window_id : window_known ids.window_id st.registry ≡ false
  pub new_pane_id : in_registry ids.pane_id st.registry ≡ false

module _ {Num : Type 0} ⦃f : Float Num⦄ where
  -- A window that is rearranged has fewer than 2 ^ 32 panes.
  abbrev pub FewPanes : ℕ → InProcess Num → Type 0
  FewPanes window st =
      (sid : ℕ) (s : TearSession Num) (w : TearWindow Num)
      → get sid st.registry ≡ some s
      → get window s.windows ≡ some w
      → length (panes w.layout) < 4294967296

  pub data Step (st : InProcess Num) : InProcess Num → Type 0 where
    session_opens :
        (io : SystemIo) (ids : Minted) (name : String) (spec : PaneSpec) (source : SessionSource)
        (size : Cells)
        → contains_key ids.session_id st.registry ≡ false
        → AreFresh ids st
        → Step st (new_session io ids name spec source size st).0
    window_opens :
        (io : SystemIo) (ids : Minted) (session : ℕ) (name : String) (spec : PaneSpec)
        → AreFresh ids st
        → Step st (new_window io ids session name spec st).0
    pane_splits :
        (io : SystemIo) (fresh origin : ℕ) (d : Direction) (spec : PaneSpec)
        → in_registry fresh st.registry ≡ false
        → Step st (split_pane io fresh origin d spec st).0
    session_killed : (io : SystemIo) (id : ℕ) → Step st (kill_session io id st).0
    window_killed : (io : SystemIo) (id : ℕ) → Step st (kill_window io id st).0
    pane_killed : (io : SystemIo) (id : ℕ) → Step st (kill_pane io id st).0
    session_reaped : (id : ℕ) → Step st (reap_proven_dead id st).0
    child_exits :
        (io : SystemIo) (held : Bool) (id : ℕ) (code : Option ℤ)
        → Step st (on_exit io held id code st)
    renamed : (id : ℕ) (name : String) → Step st (rename_session id name st).0
    window_selected : (id : ℕ) → Step st (select_window id st).0
    pane_selected : (id : ℕ) → Step st (select_pane id st).0
    divider_moved :
        (io : SystemIo) (id : ℕ) (d : Direction) (delta_cells : ℤ)
        → Step st (resize_pane io id d delta_cells st).0
    rearranged :
        (io : SystemIo) (window : ℕ) (kind : LayoutKind)
        → FewPanes window st
        → Step st (apply_layout io window kind st).0
    resized :
        (io : SystemIo) (id : ℕ) (size : Cells) → Step st (pane_resize_absolute io id size st).0
    policy_set : (id : ℕ) (policy : InputPolicy) → Step st (set_input_policy id policy st).0
    brake_set :
        (at_unix : ℕ) (session : Option ℕ) (engaged : Bool)
        → Step st (set_freio at_unix session engaged st).0
    keys_sent : (io : SystemIo) (id : ℕ) (bytes : List ℕ) → Step st (send_keys io id bytes st).0
    subscribed : (id sender : ℕ) → Step st (subscribe_pane_bytes id sender st).0

  pub data Reach (st : InProcess Num) : InProcess Num → Type 0 where
    here : Reach st st
    next : {t u : InProcess Num} → Reach st t → Step t u → Reach st u

  pub send_keys-registry :
      (io : SystemIo) (id : ℕ) (bytes : List ℕ) (st : InProcess Num)
      → (send_keys io id bytes st).0.registry ≡ st.registry
  unfolding send_keys
  send_keys-registry io id bytes st = ground arith

  subscribe_pane_bytes-registry :
      (id sender : ℕ) (st : InProcess Num)
      → (subscribe_pane_bytes id sender st).0.registry ≡ st.registry
  unfolding subscribe_pane_bytes
  subscribe_pane_bytes-registry id sender st = ground arith

  module _ (ieee : IsIeee f) where
    pub Step-IsValid :
        {st t : InProcess Num}
        → Step st t
        → RegistryIsValid st.registry
        → RegistryIsValid t.registry
    Step-IsValid {st} (session_opens io ids name spec source size new fresh) v =
        new_session-IsValid io ids name spec source size st fresh.new_window_id fresh.new_pane_id v
    Step-IsValid {st} (window_opens io ids session name spec fresh) v =
        new_window-IsValid io ids session name spec st fresh.new_window_id fresh.new_pane_id v
    Step-IsValid {st} (pane_splits io fresh origin d spec new) v =
        split_pane-IsValid ieee io fresh origin d spec st new v
    Step-IsValid {st} (session_killed io id) v = kill_session-IsValid io id st v
    Step-IsValid {st} (window_killed io id) v = kill_window-IsValid io id st v
    Step-IsValid {st} (pane_killed io id) v = kill_pane-IsValid ieee io id st v
    Step-IsValid {st} (session_reaped id) v = reap_proven_dead-IsValid id st v
    Step-IsValid {st} (child_exits io held id code) v = on_exit-IsValid io held id code st v
    Step-IsValid {st} (renamed id name) v = rename_session-IsValid id name st v
    Step-IsValid {st} (window_selected id) v = select_window-IsValid id st v
    Step-IsValid {st} (pane_selected id) v = select_pane-IsValid id st v
    Step-IsValid {st} (divider_moved io id d delta_cells) v =
        resize_pane-IsValid ieee io id d delta_cells st v
    Step-IsValid {st} (rearranged io window kind few) v =
        apply_layout-IsValid ieee io window kind st few v
    Step-IsValid {st} (resized io id size) v = pane_resize_absolute-IsValid io id size st v
    Step-IsValid {st} (policy_set id policy) v = set_input_policy-IsValid id policy st v
    Step-IsValid {st} (brake_set at_unix session engaged) v =
        set_freio-IsValid at_unix session engaged st v
    Step-IsValid {st} (keys_sent io id bytes) v = rw (send_keys-registry io id bytes st) v
    Step-IsValid {st} (subscribed id sender) v = rw (subscribe_pane_bytes-registry id sender st) v

    empty-IsValid : RegistryIsValid {Num = Num} []
    empty-IsValid = record {
      ordered = tt;
      valid = λ sid s at. absurd (cc at);
      own_id = λ sid s at. absurd (cc at);
      panes_apart = λ sid sid' s s' at. absurd (cc at);
      windows_apart = λ sid sid' s s' at. absurd (cc at);
    }

    -- With numbers that obey the laws of IEEE arithmetic: from an empty multiplexer, any sequence of
    -- calls, with minted ids that are new, fewer than 2 ^ 32 panes in a window that is rearranged, and
    -- any answers of the system, failed spawns and resizes among them, leads to a valid registry: every session
    -- stands under its id; the panes with a record are those that the session's windows show, each in
    -- one window; every window's tree is well formed and shows the pane that gets the keys; the
    -- focused window is one of the session's, or the null id where it has none; and no pane and no
    -- window belongs to two sessions.
    pub Reach-RegistryIsValid :
        {cwd : Option String} {st : InProcess Num}
        → Reach (empty_process cwd) st
        → RegistryIsValid st.registry
    Reach-RegistryIsValid here = empty-IsValid
    Reach-RegistryIsValid (next r step) = Step-IsValid step (Reach-RegistryIsValid r)
