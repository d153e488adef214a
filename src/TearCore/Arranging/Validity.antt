-- ===== src/TearCore/Arranging/Validity.antt =====
-- Moving a divider and rearranging a window (tear-core/src/inproc.rs) keep the registry valid.
use mathlib.Core.Path.{◌∙◌}
use tear.Base.{
  ℕ, ◌≡◌, inl, inr, refl, ap, List, [], ◌∷◌, ◌<◌, some, Option-cases, Bool-cases, length, elem,
  nat_eq,
}
use tear.Base.Int.{ℤ}
use tear.Base.Maps.{get, contains_key, find_first}
use tear.Base.Maps.Entries.{find_first_found}
use tear.Kukaku.Arrange.{LayoutKind, from_kind, custom}
use tear.Kukaku.Arrange.Presets.{Shows, from_kind-Preset}
use tear.Kukaku.Direction.{Direction, orientation}
use tear.Kukaku.Float.{Float, IsIeee}
use tear.Kukaku.Layout.{LayoutNode, leaf, panes}
use tear.Kukaku.Resize.{resize_leaf}
use tear.Kukaku.Resize.Effect.{resize_leaf_moves}
use tear.TearTypes.Session.{TearSession, TearWindow}
use tear.TearCore.Arranging.{span_of, delta_fraction, slide_divider, resize_pane, apply_layout}
use tear.TearCore.Registry.{locate_pane}
use tear.TearCore.Runtime.{InProcess, SystemIo}
use tear.TearCore.Steering.{holds_window}
use tear.TearCore.Validity.{shows, WindowIsValid, RegistryIsValid}
use tear.TearCore.Validity.Geometry.{window-Evolves, apply_layout_geometry-IsValid}
use tear.TearCore.Validity.Layouts.{panes-leaf}
use tear.TearCore.Validity.Windows.{WindowKeeps}
use tear.TearCore.Validity.Sessions.{modify-RegistryIsValid}

module _ {Num : Type 0} ⦃f : Float Num⦄ (ieee : IsIeee f) where
  -- A tree with the same panes and refined ratios, in the place of a window's tree.
  same_panes-WindowKeeps :
      (w : TearWindow Num) (tree : LayoutNode Num ℕ)
      → WindowIsValid w
      → panes tree ≡ panes w.layout
      → tear.Kukaku.Layout.Splitting.AllRefined tree
      → WindowKeeps w (record w { layout = tree })
  same_panes-WindowKeeps w tree v same refined = record {
    same_panes = same;
    valid = record {
      well_formed = record { distinct = rw same v.well_formed.distinct; refined = refined };
      focused = ap (elem w.active_pane) same ∙ v.focused;
    };
  }

  slide_divider-WindowKeeps :
      (id : ℕ) (d : Direction) (delta_cells : ℤ) (w : TearWindow Num)
      → WindowIsValid w
      → WindowKeeps w (slide_divider id d delta_cells w)
  unfolding slide_divider
  slide_divider-WindowKeeps id d delta_cells w v =
      let delta = delta_fraction ⦃f = f⦄ delta_cells (span_of (orientation d) w.size_cells) in
      elim (resize_leaf_moves ieee w.layout id delta v.well_formed.distinct d) [
        | inl (path, governs, deepest, hit, moved) ↦
            same_panes-WindowKeeps w (resize_leaf w.layout id d delta).0 v moved.same_panes
              (moved.stays_refined v.well_formed.refined)
        | inr (none_governs, same) ↦
            rw same (same_panes-WindowKeeps w w.layout v refl v.well_formed.refined)
      ]

  pub resize_pane-IsValid :
      (io : SystemIo) (id : ℕ) (d : Direction) (delta_cells : ℤ) (st : InProcess Num)
      → RegistryIsValid st.registry
      → RegistryIsValid (resize_pane io id d delta_cells st).0.registry
  unfolding resize_pane
  resize_pane-IsValid io id d delta_cells st v = elim (Option-cases (locate_pane st.registry id)) [
    | inl missed ↦ rw (missed, resize_pane) v
    | inr (at, is) ↦ elim (Option-cases (get at.0 st.registry)) [
      | inl gone ↦ rw (is, gone, resize_pane) v
      | inr (s, found) ↦ elim (Bool-cases (contains_key at.1 s.windows)) [
        | inl has ↦
            rw (is, found, resize_pane, has)
              (apply_layout_geometry-IsValid io at.0 at.1 _ (
                modify-RegistryIsValid st.registry at.0 _ v (λ u found'.
                  window-Evolves st.registry at.0 at.0 u at.1 _
                    (λ w there.
                      slide_divider-WindowKeeps id d delta_cells w
                        ((v.valid at.0 u found').valid at.1 w there))
                    (v.valid at.0 u found'))))
        | inr closed ↦ rw (is, found, resize_pane, closed) v
      ]
    ]
  ]

  -- An arrangement shows the panes that it was made for.
  from_kind-Shows :
      (kind : LayoutKind) (ps : List ℕ) (tree : LayoutNode Num ℕ)
      → length ps < 4294967296
      → from_kind kind ps ≡ some tree
      → Shows ps tree
  from_kind-Shows kind [] tree small made = absurd (cc (from_kind-Preset ieee kind [] small, made))
  from_kind-Shows kind (only ∷ []) tree small made =
      let is : tree ≡ leaf only = cc (from_kind-Preset ieee kind (only ∷ []) small, made) in
      rw is (record { in_order = panes-leaf Num only; refined = tt })
  from_kind-Shows custom (p ∷ q ∷ rest) tree small made =
      absurd (cc (from_kind-Preset ieee custom (p ∷ q ∷ rest) small, made))
  from_kind-Shows kind (p ∷ q ∷ rest) tree small made =
      let (t, is, shows) = from_kind-Preset ieee kind (p ∷ q ∷ rest) small in
      let same : tree ≡ t = cc (is, made) in rw same shows

  pub apply_layout-IsValid :
      (io : SystemIo) (window : ℕ) (kind : LayoutKind) (st : InProcess Num)
      → ((sid : ℕ) (s : TearSession Num) (w : TearWindow Num)
          → get sid st.registry ≡ some s
          → get window s.windows ≡ some w
          → length (panes w.layout) < 4294967296)
      → RegistryIsValid st.registry
      → RegistryIsValid (apply_layout io window kind st).0.registry
  unfolding apply_layout
  apply_layout-IsValid io window kind st small v =
      elim (Option-cases (find_first (holds_window window) st.registry)) [
        | inl missed ↦ rw (missed, apply_layout) v
        | inr (found, is) ↦ elim (Option-cases (get window found.1.windows)) [
          | inl gone ↦ rw (is, gone, apply_layout) v
          | inr (w, there) ↦ elim (Option-cases (from_kind ⦃f = f⦄ kind (panes w.layout))) [
            | inl nothing ↦ rw (is, there, nothing, apply_layout) v
            | inr (tree, made) ↦
                let at =
                  (find_first_found (holds_window window) st.registry found.0 found.1 v.ordered
                    is).0 in
                let fits =
                  from_kind-Shows kind (panes w.layout) tree (small found.0 found.1 w at there)
                    made in
                rw (is, there, made, apply_layout)
                  (apply_layout_geometry-IsValid io found.0 window _ (
                    modify-RegistryIsValid st.registry found.0 _ v (λ u at'.
                      window-Evolves st.registry found.0 found.0 u window _
                        (λ w' there'.
                          let same : w' ≡ w = cc (at, at', there, there') in
                          rw same (
                            same_panes-WindowKeeps w tree
                              ((v.valid found.0 found.1 at).valid window w there) fits.in_order
                              fits.refined))
                        (v.valid found.0 u at'))))
          ]
        ]
      ]
