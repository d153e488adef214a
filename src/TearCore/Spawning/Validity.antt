-- ===== src/TearCore/Spawning/Validity.antt =====
-- Opening sessions, windows and panes (tear-core/src/inproc.rs) keeps the registry valid, also
-- where the child cannot be started.
use Prim.Native.String.{String}
use mathlib.Core.Path.{◌∙◌}
use tear.Base.{
  ℕ, ◌≡◌, ◌⊎◌, inl, inr, refl, subst, true, false, [], some, arith, nat_eq, ◌==◌, ==_iff,
  Bool-cases, Option-cases,
}
use tear.Base.Maps.{BTreeMap, get, contains_key, insert, modify, contains-insert}
use tear.Kukaku.Float.{Float}
use tear.TearTypes.Pane.{Cells}
use tear.TearTypes.Session.{TearSession}
use tear.TearCore.Registry.{Registry, PaneSpec, fresh_pane, add_window, open_window, seed_window}
use tear.TearCore.Runtime.{InProcess, SystemIo, in_registry}
use tear.TearCore.Spawning.{Minted, spawn_pty_with, new_window}
use tear.TearCore.Validity.{shows, WindowIsValid, SessionIsValid, RegistryIsValid}
use tear.TearCore.Validity.Opening.{opened-AreValid}
use tear.TearCore.Validity.Sessions.{
  Evolves, window_known, in_registry-get, window_known-get, modify-RegistryIsValid,
}
use tear.TearCore.Validity.Layouts.{panes-leaf, leaf-IsWellFormed}

module _ {Num : Type 0} where
  -- Starting a child changes nothing in the registry.
  pub spawn_pty_with-registry :
      (io : SystemIo) (id : ℕ) (size : Cells) (st : InProcess Num)
      → (spawn_pty_with io id size st).0.registry ≡ st.registry
  unfolding spawn_pty_with
  spawn_pty_with-registry io id size st = ground arith

seed-shows :
    (Num : Type 0) (win_id pane_id q : ℕ) (name : String) (size : Cells)
    → shows {Num = Num} (seed_window win_id name pane_id size) q ≡ (pane_id == q)
seed-shows Num win_id pane_id q name size = rw (panes-leaf Num pane_id) (ground arith)

module _ {Num : Type 0} ⦃f : Float Num⦄ where
  seed-WindowIsValid :
      (win_id pane_id : ℕ) (name : String) (size : Cells)
      → WindowIsValid {Num = Num} (seed_window win_id name pane_id size)
  seed-WindowIsValid win_id pane_id name size = record {
    well_formed = leaf-IsWellFormed pane_id;
    focused = seed-shows Num win_id pane_id pane_id name size ∙ (==_iff pane_id pane_id).1 refl;
  }

  pub open_window-SessionIsValid :
      (win_id pane_id : ℕ) (name : String) (spec : PaneSpec) (size : Cells) (s : TearSession Num)
      → contains_key win_id s.windows ≡ false
      → contains_key pane_id s.panes ≡ false
      → SessionIsValid s
      → SessionIsValid (open_window win_id pane_id name spec size s)
  unfolding open_window
  open_window-SessionIsValid win_id pane_id name spec size s new_window new_pane v =
      opened-AreValid win_id pane_id (seed_window win_id name pane_id size)
        (fresh_pane pane_id spec size) s.windows s.panes s.active_window new_window new_pane
        (seed-WindowIsValid win_id pane_id name size)
        (λ q. seed-shows Num win_id pane_id q name size) v

  open_window-Evolves :
      (r : Registry Num) (sid win_id pane_id : ℕ) (name : String) (spec : PaneSpec) (size : Cells)
      (s : TearSession Num)
      → get sid r ≡ some s
      → window_known win_id r ≡ false
      → in_registry pane_id r ≡ false
      → SessionIsValid s
      → Evolves r sid sid s (open_window win_id pane_id name spec size s)
  unfolding open_window
  open_window-Evolves r sid win_id pane_id name spec size s at new_window new_pane v = record {
    valid =
        open_window-SessionIsValid win_id pane_id name spec size s
          (window_known-get win_id sid s r new_window at)
          (in_registry-get pane_id sid s r new_pane at) v;
    same_id = refl;
    panes_from = λ q h.
        came pane_id q s.panes (fresh_pane pane_id spec size) h (λ e. (refl, rw (← e) new_pane));
    windows_from = λ q h.
        came win_id q s.windows (seed_window win_id name pane_id size) h
          (λ e. (refl, rw (← e) new_window));
  }
    where
      came :
          {V P : Type 0} (k q : ℕ) (m : BTreeMap V) (v : V)
          → contains_key q (insert k v m) ≡ true
          → (k ≡ q → P)
          → (contains_key q m ≡ true) ⊎ P
      came k q m v h p = elim (Bool-cases (k == q)) [
        | inl hit ↦ inr (p ((==_iff k q).0 hit))
        | inr miss ↦ inl (ground (arith, contains-insert k q v m))
      ]

  pub add_window-RegistryIsValid :
      (sid win_id pane_id : ℕ) (name : String) (spec : PaneSpec) (size : Cells)
      (r r' : Registry Num)
      → window_known win_id r ≡ false
      → in_registry pane_id r ≡ false
      → RegistryIsValid r
      → add_window sid win_id pane_id name spec size r ≡ some r'
      → RegistryIsValid r'
  unfolding add_window
  add_window-RegistryIsValid sid win_id pane_id name spec size r r' new_window new_pane v made =
      let e : modify sid (open_window win_id pane_id name spec size) r ≡ r' = ground arith in
      subst RegistryIsValid e (
        modify-RegistryIsValid r sid (open_window win_id pane_id name spec size) v (λ s at.
          open_window-Evolves r sid win_id pane_id name spec size s at new_window new_pane
            (v.valid sid s at)))

  pub new_window-IsValid :
      (io : SystemIo) (ids : Minted) (session : ℕ) (name : String) (spec : PaneSpec)
      (st : InProcess Num)
      → window_known ids.window_id st.registry ≡ false
      → in_registry ids.pane_id st.registry ≡ false
      → RegistryIsValid st.registry
      → RegistryIsValid (new_window io ids session name spec st).0.registry
  unfolding new_window
  new_window-IsValid io ids session name spec st fresh_window fresh_id v =
      let size : Cells = record { cols = 80; rows = 24 } in
      let located = record spec { cwd = st.spawn_cwd; env = [] } in
      elim (Option-cases
        (add_window session ids.window_id ids.pane_id name located size st.registry)) [
          | inl refused ↦ rw (refused, new_window) v
          | inr (opened, made) ↦
              let kept =
                spawn_pty_with-registry io ids.pane_id size (record st { registry = opened }) in
              let valid =
                add_window-RegistryIsValid session ids.window_id ids.pane_id name located size
                  st.registry opened fresh_window fresh_id v made in
              elim (Bool-cases
                (spawn_pty_with io ids.pane_id size (record st { registry = opened })).1) [
                  | inl up ↦ rw (made, new_window, up, kept) valid
                  | inr down ↦ rw (made, new_window, down, kept) valid
                ]
        ]
