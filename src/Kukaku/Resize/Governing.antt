-- ===== src/Kukaku/Resize/Governing.antt =====
-- `governing_split_path` of kukaku/src/layout.rs finds the deepest divider on the wanted side.
use mathlib.Core.List.{append_assoc, append-nil}
use tear.Base.{
  ◌≤◌, ◌≡◌, refl, Bool, true, false, not, ◌&&◌, ◌||◌, List, [], ◌∷◌, ◌++◌, Option, none, some, Eq,
  arith, if◌then◌else◌, length, Distinct, Distinct-split, Apart-elem, Bool-cases, if-true, if-false,
  subst, suc, sym, ap, ◌∙◌, inl, inr,
}
use tear.Kukaku.Direction.{SplitOrientation, same_orientation}
use tear.Kukaku.Ratio.{SplitRatio}
use tear.Kukaku.Layout.{LayoutNode, leaf, split, panes, contains_pane}
use tear.Kukaku.Layout.Panes.{ids, panes-ids, elem-ids}
use tear.Kukaku.Resize.{walk_governing, governing_split_path}

-- A path found below one step, and the choice between a deeper path and this split.
abbrev pub under : Bool → Option (List Bool) → Option (List Bool) → Option (List Bool)
under side none here = here
under side (some path) here = some (side ∷ path)

abbrev pub from : List Bool → Option (List Bool) → Option (List Bool) → Option (List Bool)
from path none best = best
from path (some rest) best = some (path ++ rest)

from-under :
    (path : List Bool) (side pushed : Bool) (deeper best : Option (List Bool))
    → from (path ++ side ∷ []) deeper (if pushed then some path else best)
      ≡ from path (under side deeper (if pushed then some [] else none)) best
from-under path side true none best = ap some (sym (append-nil path))
from-under path side false none best = refl
from-under path side pushed (some rest) best = ap some (append_assoc path (side ∷ []) rest)

from-nil : (p : Option (List Bool)) → from [] p none ≡ p
from-nil none = refl
from-nil (some rest) = refl

from-here :
    (path : List Bool) (pushed : Bool) (best : Option (List Bool))
    → (if pushed then some path else best) ≡ from path (if pushed then some [] else none) best
from-here path true best = ap some (sym (append-nil path))
from-here path false best = refl

module _ {Num PaneId : Type 0} ⦃e : Eq PaneId⦄ (target : PaneId) (want : SplitOrientation)
    (need : Bool) where
  -- The divider between the two sides of the split is one that the target can push.
  abbrev pub pushes : SplitOrientation → LayoutNode Num PaneId → LayoutNode Num PaneId → Bool
  pushes o a b =
      same_orientation o want
      && (contains_pane a target && need || contains_pane b target && not need)

  -- The path leads, always into the side that holds the target, to such a split.
  abbrev pub Governs : LayoutNode Num PaneId → List Bool → Type 0
  Governs (leaf p) path = ⊥
  Governs (split o r a b) [] = pushes o a b ≡ true
  Governs (split o r a b) (true ∷ path) = (contains_pane a target ≡ true) × Governs a path
  Governs (split o r a b) (false ∷ path) = (contains_pane b target ≡ true) × Governs b path

  abbrev deepest : LayoutNode Num PaneId → Option (List Bool)
  deepest (leaf p) = none
  deepest (split o r a b) =
      let here = if pushes o a b then some [] else none in
      let in_a = under true (deepest a) here in
      let in_b = under false (deepest b) here in
      if contains_pane a target then in_a else if contains_pane b target then in_b else here

  walk-b :
      (b : LayoutNode Num PaneId) (path : List Bool) (pushed : Bool)
      (into deeper best : Option (List Bool))
      → into ≡ from (path ++ false ∷ []) deeper (if pushed then some path else best)
      → (if contains_pane b target then into else if pushed then some path else best)
        ≡ from path
            (if contains_pane b target
              then under false deeper (if pushed then some [] else none)
              else if pushed
              then some []
              else none)
            best
  walk-b b path pushed into deeper best ih = elim (Bool-cases (contains_pane b target)) [
    | inl in_b ↦ rw (in_b, ih) (from-under path false pushed deeper best)
    | inr out_b ↦ rw out_b (from-here path pushed best)
  ]

  walk-deepest :
      (t : LayoutNode Num PaneId) (path : List Bool) (best : Option (List Bool))
      → walk_governing t target want need path best ≡ from path (deepest t) best
  unfolding walk_governing
  walk-deepest (leaf p) path best = refl
  walk-deepest (split o r a b) path best = elim (Bool-cases (contains_pane a target)) [
    | inl in_a ↦
        if-true _ _ in_a
        ∙ walk-deepest a (path ++ true ∷ []) _
        ∙ from-under path true (pushes o a b) (deepest a) best
        ∙ sym (ap (λ (p : Option (List Bool)). from path p best) (if-true _ _ in_a))
    | inr out_a ↦
        if-false _ _ out_a
        ∙ walk-b b path (pushes o a b) _ (deepest b) best (walk-deepest b (path ++ false ∷ []) _)
        ∙ sym (ap (λ (p : Option (List Bool)). from path p best) (if-false _ _ out_a))
  ]

  -- What the search is to find.
  abbrev pub IsDeepest : LayoutNode Num PaneId → Option (List Bool) → Type 0
  IsDeepest t none = (path : List Bool) → ¬ Governs t path
  IsDeepest t (some path) =
      Governs t path × ((other : List Bool) → Governs t other → length other ≤ length path)

  on_a :
      (o : SplitOrientation) (r : SplitRatio Num) (a b : LayoutNode Num PaneId) (pushed : Bool)
      → contains_pane a target ≡ true
      → contains_pane b target ≡ false
      → pushes o a b ≡ pushed
      → (deeper : Option (List Bool)) → IsDeepest a deeper
      → IsDeepest (split o r a b) (under true deeper (if pushed then some [] else none))
  on_a o r a b true in_a out_b h none ih = (h, λ other g. short other g)
    where
      short : (other : List Bool) → Governs (split o r a b) other → length other ≤ 0
      short [] g = omega arith
      short (true ∷ q) g = absurd (ih q g.1)
      short (false ∷ q) g = cc
  on_a o r a b false in_a out_b h none ih = impossible
    where
      impossible : (other : List Bool) → ¬ Governs (split o r a b) other
      impossible [] g = cc
      impossible (true ∷ q) g = ih q g.1
      impossible (false ∷ q) g = cc
  on_a o r a b pushed in_a out_b h (some path) ih = ((in_a, ih.0), short)
    where
      short : (other : List Bool) → Governs (split o r a b) other → length other ≤ suc (length path)
      short [] g = omega arith
      short (true ∷ q) g = omega (arith, ih.1 q g.1)
      short (false ∷ q) g = cc

  on_b :
      (o : SplitOrientation) (r : SplitRatio Num) (a b : LayoutNode Num PaneId) (pushed : Bool)
      → contains_pane a target ≡ false
      → contains_pane b target ≡ true
      → pushes o a b ≡ pushed
      → (deeper : Option (List Bool)) → IsDeepest b deeper
      → IsDeepest (split o r a b) (under false deeper (if pushed then some [] else none))
  on_b o r a b true out_a in_b h none ih = (h, λ other g. short other g)
    where
      short : (other : List Bool) → Governs (split o r a b) other → length other ≤ 0
      short [] g = omega arith
      short (true ∷ q) g = cc
      short (false ∷ q) g = absurd (ih q g.1)
  on_b o r a b false out_a in_b h none ih = impossible
    where
      impossible : (other : List Bool) → ¬ Governs (split o r a b) other
      impossible [] g = cc
      impossible (true ∷ q) g = cc
      impossible (false ∷ q) g = ih q g.1
  on_b o r a b pushed out_a in_b h (some path) ih = ((in_b, ih.0), short)
    where
      short : (other : List Bool) → Governs (split o r a b) other → length other ≤ suc (length path)
      short [] g = omega arith
      short (true ∷ q) g = cc
      short (false ∷ q) g = omega (arith, ih.1 q g.1)

  on_neither :
      (o : SplitOrientation) (r : SplitRatio Num) (a b : LayoutNode Num PaneId)
      → contains_pane a target ≡ false
      → contains_pane b target ≡ false
      → IsDeepest (split o r a b) (if pushes o a b then some [] else none)
  on_neither o r a b out_a out_b =
      subst (IsDeepest (split o r a b)) (sym (if-false _ _ idle)) impossible
    where
      idle : pushes o a b ≡ false
      idle = ground arith

      impossible : (other : List Bool) → ¬ Governs (split o r a b) other
      impossible [] g = ground (arith, idle)
      impossible (true ∷ q) g = cc
      impossible (false ∷ q) g = cc

  deepest-IsDeepest : (t : LayoutNode Num PaneId) → Distinct (ids t) → IsDeepest t (deepest t)
  deepest-IsDeepest (leaf p) d = λ path g. g
  deepest-IsDeepest (split o r a b) d =
      let parts = Distinct-split (ids a) (ids b) d in
      let deepest_is = IsDeepest (split o r a b) in
      elim (Bool-cases (contains_pane a target)) [
        | inl in_a ↦
            let out_b =
              elem-ids b target
              ∙ Apart-elem target (ids a) (ids b) parts.2 (sym (elem-ids a target) ∙ in_a) in
            subst deepest_is (sym (if-true _ _ in_a)) (
              on_a o r a b (pushes o a b) in_a out_b refl (deepest a) (deepest-IsDeepest a parts.0))
        | inr out_a ↦
            subst deepest_is (sym (if-false _ _ out_a))
              (elim (Bool-cases (contains_pane b target)) [
                | inl in_b ↦ subst deepest_is (sym (if-true _ _ in_b)) (
                    on_b o r a b (pushes o a b) out_a in_b refl (deepest b)
                      (deepest-IsDeepest b parts.1))
                | inr out_b ↦
                    subst deepest_is (sym (if-false _ _ out_b)) (on_neither o r a b out_a out_b)
              ])
      ]

  -- In a tree whose panes are distinct, the path that `governing_split_path` gives leads to a
  -- split of the wanted orientation that holds the target on the wanted side, and no such split
  -- lies deeper; where it gives none, there is no such split.
  pub governing_split_path-IsDeepest :
      (t : LayoutNode Num PaneId)
      → Distinct (panes t)
      → IsDeepest t (governing_split_path t target want need)
  unfolding governing_split_path
  governing_split_path-IsDeepest t d =
      subst (IsDeepest t) (sym (walk-deepest t [] none ∙ from-nil (deepest t)))
        (deepest-IsDeepest t (subst Distinct (panes-ids t) d))
