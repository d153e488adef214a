-- ===== src/Kukaku/Resize/Effect.antt =====
-- `resize_leaf` of kukaku/src/layout.rs: when it succeeds, and that it moves one divider only.
use tear.Base.{
  ◌≡◌, ◌≢◌, refl, ap, Bool, true, false, List, [], ◌∷◌, Option, none, some, Eq, ◌≤◌, length, ◌∙◌,
  ◌⊎◌, arith, if◌then◌else◌, Distinct, Bool-cases, inl, inr,
}
use tear.Kukaku.Direction.{Direction, SplitOrientation, orientation, toward_b}
use tear.Kukaku.Float.{Float, IsIeee, max_ratio}
use tear.Kukaku.Ratio.{SplitRatio, IsRefined, new-IsRefined}
use tear.Kukaku.Ratio
use tear.Kukaku.Layout.{LayoutNode, leaf, split, panes}
use tear.Kukaku.Layout.Panes.{ids, panes-ids}
use tear.Kukaku.Layout.Splitting.{AllRefined}
use tear.Kukaku.Resize.{
  governing_split_path, split_at_path, write_ratio, moved_ratio, move_divider, resize_leaf,
}
use tear.Kukaku.Resize.Governing.{Governs, IsDeepest, governing_split_path-IsDeepest}

module _ {Num PaneId : Type 0} where
  -- The ratio of the split that a path leads to.
  abbrev pub ratio_at : LayoutNode Num PaneId → List Bool → Option (SplitRatio Num)
  ratio_at (leaf p) path = none
  ratio_at (split o r a b) [] = some r
  ratio_at (split o r a b) (true ∷ path) = ratio_at a path
  ratio_at (split o r a b) (false ∷ path) = ratio_at b path

  ids-write_ratio :
      (t : LayoutNode Num PaneId) (path : List Bool) (r : SplitRatio Num)
      → ids (write_ratio t path r) ≡ ids t
  unfolding write_ratio
  ids-write_ratio (leaf p) path r = refl
  ids-write_ratio (split o q a b) [] r = refl
  ids-write_ratio (split o q a b) (true ∷ path) r = rw (ids-write_ratio a path r)
  ids-write_ratio (split o q a b) (false ∷ path) r = rw (ids-write_ratio b path r)

  ratio_at-write_ratio_ne :
      (t : LayoutNode Num PaneId) (path other : List Bool) (r : SplitRatio Num)
      → path ≢ other
      → ratio_at (write_ratio t path r) other ≡ ratio_at t other
  unfolding write_ratio
  ratio_at-write_ratio_ne (leaf p) path other r h = refl
  ratio_at-write_ratio_ne (split o q a b) [] [] r h = absurd (h refl)
  ratio_at-write_ratio_ne (split o q a b) [] (true ∷ other) r h = refl
  ratio_at-write_ratio_ne (split o q a b) [] (false ∷ other) r h = refl
  ratio_at-write_ratio_ne (split o q a b) (true ∷ path) [] r h = refl
  ratio_at-write_ratio_ne (split o q a b) (false ∷ path) [] r h = refl
  ratio_at-write_ratio_ne (split o q a b) (true ∷ path) (true ∷ other) r h =
      ratio_at-write_ratio_ne a path other r (λ e. h (ap (◌∷◌ true) e))
  ratio_at-write_ratio_ne (split o q a b) (false ∷ path) (false ∷ other) r h =
      ratio_at-write_ratio_ne b path other r (λ e. h (ap (◌∷◌ false) e))
  ratio_at-write_ratio_ne (split o q a b) (true ∷ path) (false ∷ other) r h = refl
  ratio_at-write_ratio_ne (split o q a b) (false ∷ path) (true ∷ other) r h = refl

  ratio_at-write_ratio_self :
      (t : LayoutNode Num PaneId) (path : List Bool) {r' : SplitRatio Num} (r : SplitRatio Num)
      → ratio_at t path ≡ some r'
      → ratio_at (write_ratio t path r) path ≡ some r
  unfolding write_ratio
  ratio_at-write_ratio_self (leaf p) path r h = cc
  ratio_at-write_ratio_self (split o q a b) [] r h = refl
  ratio_at-write_ratio_self (split o q a b) (true ∷ path) r h = ratio_at-write_ratio_self a path r h
  ratio_at-write_ratio_self (split o q a b) (false ∷ path) r h =
      ratio_at-write_ratio_self b path r h

  write_ratio-AllRefined :
      ⦃f : Float Num⦄ (t : LayoutNode Num PaneId) (path : List Bool) (r : SplitRatio Num)
      → IsRefined r
      → AllRefined t
      → AllRefined (write_ratio t path r)
  unfolding write_ratio
  write_ratio-AllRefined (leaf p) path r h k = tt
  write_ratio-AllRefined (split o q a b) [] r h k = (h, k.1, k.2)
  write_ratio-AllRefined (split o q a b) (true ∷ path) r h k =
      (k.0, write_ratio-AllRefined a path r h k.1, k.2)
  write_ratio-AllRefined (split o q a b) (false ∷ path) r h k =
      (k.0, k.1, write_ratio-AllRefined b path r h k.2)

  -- What `split_at_path` finds along a governing path.
  Governs-split :
      ⦃e : Eq PaneId⦄ (target : PaneId) (want : SplitOrientation) (need : Bool)
      (t : LayoutNode Num PaneId) (path : List Bool)
      → Governs target want need t path
      → (o : SplitOrientation) × (r : SplitRatio Num) × (a : LayoutNode Num PaneId)
        × (b : LayoutNode Num PaneId) × (split_at_path t path ≡ some (split o r a b))
        × (ratio_at t path ≡ some r)
  unfolding split_at_path
  Governs-split target want need (leaf p) path g = absurd g
  Governs-split target want need (split o r a b) [] g = (o, r, a, b, refl, refl)
  Governs-split target want need (split o r a b) (true ∷ path) g =
      Governs-split target want need a path g.1
  Governs-split target want need (split o r a b) (false ∷ path) g =
      Governs-split target want need b path g.1

module _ {Num : Type 0} ⦃f : Float Num⦄ where
  -- The new ratio, before it is clamped: to the right and down the divider moves towards the end.
  abbrev pub next_ratio : Direction → Num → Num → Num
  next_ratio Direction.right delta_frac v = f.add_f v delta_frac
  next_ratio Direction.below delta_frac v = f.add_f v delta_frac
  next_ratio Direction.left delta_frac v = f.sub_f v delta_frac
  next_ratio Direction.above delta_frac v = f.sub_f v delta_frac

  moved_ratio-next :
      IsIeee f
      → (d : Direction) (r : SplitRatio Num) (delta_frac : Num)
      → moved_ratio (toward_b d) r delta_frac ≡ next_ratio d delta_frac r.value
  moved_ratio-next ieee Direction.right r delta_frac = ieee.mul_one r.value delta_frac
  moved_ratio-next ieee Direction.below r delta_frac = ieee.mul_one r.value delta_frac
  moved_ratio-next ieee Direction.left r delta_frac = ieee.mul_neg_one r.value delta_frac
  moved_ratio-next ieee Direction.above r delta_frac = ieee.mul_neg_one r.value delta_frac

  new-finite :
      (v : Num)
      → f.is_finite v ≡ true
      → Ratio.new v ≡ record { value = f.clamp v f.min_ratio (max_ratio f) }
  unfolding Ratio.new
  new-finite v h = ground arith

-- The tree after the divider at a path is moved: the ratio there, and all others.
module _ {Num PaneId : Type 0} ⦃f : Float Num⦄ where
  pub record IsMoved (t t' : LayoutNode Num PaneId) (path : List Bool) (next : Num → Num)
      : Type 0 where
    pub same_panes : panes t' ≡ panes t
    pub others_stay : (other : List Bool) → path ≢ other → ratio_at t' other ≡ ratio_at t other
    pub ratio_moves :
        (r : SplitRatio Num)
        → ratio_at t path ≡ some r
        → ratio_at t' path
          ≡ some (
              if f.is_finite (next r.value)
              then record { value = f.clamp (next r.value) f.min_ratio (max_ratio f) }
              else r)
    pub stays_refined : AllRefined t → AllRefined t'

  -- The divider of the split at a path bounds the target on that side: the split is along the axis of
  -- the direction, and holds the target before the divider, or behind it.
  abbrev pub Bounds :
      ⦃e : Eq PaneId⦄ → Direction → PaneId → LayoutNode Num PaneId → List Bool → Type 0
  Bounds Direction.right target t path = Governs target SplitOrientation.vertical true t path
  Bounds Direction.left target t path = Governs target SplitOrientation.vertical false t path
  Bounds Direction.below target t path = Governs target SplitOrientation.horizontal true t path
  Bounds Direction.above target t path = Governs target SplitOrientation.horizontal false t path

  -- The write of the new ratio, or of none.
  written : LayoutNode Num PaneId → List Bool → Num → LayoutNode Num PaneId
  written t path next = if f.is_finite next then write_ratio t path (Ratio.new next) else t

  written-IsMoved :
      IsIeee f
      → (t : LayoutNode Num PaneId) (path : List Bool) (next : Num → Num) (r : SplitRatio Num)
      → ratio_at t path ≡ some r
      → IsMoved t (written t path (next r.value)) path next
  unfolding written
  written-IsMoved ieee t path next r at = elim (Bool-cases (f.is_finite (next r.value))) [
    | inl finite ↦
        let ratio = Ratio.new (next r.value) in
        rw finite (record {
          same_panes = rw (panes-ids, panes-ids) (ids-write_ratio t path ratio);
          others_stay = λ other h. ratio_at-write_ratio_ne t path other ratio h;
          ratio_moves = λ r' at'.
              let same : r ≡ r' = ground (arith, at, at') in
              ground (
                arith,
                finite,
                ratio_at-write_ratio_self t path ratio at,
                new-finite (next r.value),
              );
          stays_refined =
              λ h. write_ratio-AllRefined t path ratio (new-IsRefined ieee (next r.value)) h;
        })
    | inr infinite ↦ rw infinite (record {
      same_panes = refl;
      others_stay = λ other h. refl;
      ratio_moves =
          λ r' at'. let same : r ≡ r' = ground (arith, at, at') in ground (arith, infinite);
      stays_refined = λ h. h;
    })
  ]

  move_divider-written :
      (t : LayoutNode Num PaneId) (path : List Bool) (toward : Bool) (delta_frac : Num)
      (o : SplitOrientation) (r : SplitRatio Num) (a b : LayoutNode Num PaneId)
      → move_divider t path toward delta_frac (some (split o r a b))
        ≡ (written t path (moved_ratio toward r delta_frac), true)
  unfolding move_divider written
  move_divider-written t path toward delta_frac o r a b = ground arith

  -- What `resize_leaf` answers, for what bounds the target and the way that the ratio changes.
  abbrev pub Resizes :
      LayoutNode Num PaneId
      → LayoutNode Num PaneId × Bool
      → (List Bool → Type 0)
      → (Num → Num)
      → Type 0
  Resizes t result bounds next =
      ((path : List Bool) × bounds path
        × ((other : List Bool) → bounds other → length other ≤ length path)
        × (result.1 ≡ true)
        × IsMoved t result.0 path next)
      ⊎ (((path : List Bool) → ¬ bounds path) × (result ≡ (t, false)))

  module _ ⦃e : Eq PaneId⦄ (ieee : IsIeee f) (t : LayoutNode Num PaneId) (target : PaneId)
      (delta_frac : Num) (distinct : Distinct (panes t)) where
    governed-Resizes :
        (d : Direction)
        → Resizes t
            (resize_leaf t target d delta_frac)
            (Governs target (orientation d) (toward_b d) t)
            (next_ratio d delta_frac)
    unfolding resize_leaf
    governed-Resizes d =
        cases (governing_split_path t target (orientation d) (toward_b d))
          (governing_split_path-IsDeepest target (orientation d) (toward_b d) t distinct)
      where
        cases :
            (found : Option (List Bool))
            → IsDeepest target (orientation d) (toward_b d) t found
            → Resizes t
                (elim found [
                  | none ↦ (t, false)
                  | some path ↦ move_divider t path (toward_b d) delta_frac (split_at_path t path)
                ])
                (Governs target (orientation d) (toward_b d) t)
                (next_ratio d delta_frac)
        cases none empty = inr (empty, refl)
        cases (some path) (g, most) =
            let (o, r, a, b, at_split, at_ratio) =
              Governs-split target (orientation d) (toward_b d) t path g in
            let moved = written-IsMoved ieee t path (next_ratio d delta_frac) r at_ratio in
            let write =
              move_divider-written t path (toward_b d) delta_frac o r a b
              ∙ ap (λ v. (written t path v, true)) (moved_ratio-next ieee d r delta_frac) in
            rw (at_split, write) (inl (path, g, most, refl, moved))

    -- In a tree whose panes are distinct, `resize_leaf` succeeds exactly when some divider bounds the
    -- target on the side of the direction. It then moves the deepest such divider alone: the panes and
    -- every other ratio stay, and its ratio is the old one plus the delta for right and below, or minus
    -- the delta for left and above, clamped to the bounds of ratios; or the old one, where that is not
    -- finite. Refined ratios stay refined. Where no divider does, the tree is unchanged.
    pub resize_leaf_moves :
        (d : Direction)
        → Resizes t
            (resize_leaf t target d delta_frac)
            (Bounds d target t)
            (next_ratio d delta_frac)
    resize_leaf_moves Direction.right = governed-Resizes Direction.right
    resize_leaf_moves Direction.left = governed-Resizes Direction.left
    resize_leaf_moves Direction.below = governed-Resizes Direction.below
    resize_leaf_moves Direction.above = governed-Resizes Direction.above
