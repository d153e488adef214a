-- ===== src/Kukaku/Layout/Removal.antt =====
-- `remove_leaf` of kukaku/src/layout.rs: its three outcomes, the panes it leaves, and that it
-- undoes `split_leaf`.
use mathlib.Core.List.{append-nil}
use tear.Base.{
  ◌≡◌, refl, Bool, true, false, [], ◌∷◌, subst, Eq, ◌=?◌, elem, elem-append, arith, if◌then◌else◌,
  Distinct, Distinct-split, Apart-elem, without, without-absent, without-append, beq_refl,
}
use tear.Kukaku.Direction.{Direction}
use tear.Kukaku.Float.{Float}
use tear.Kukaku.Ratio
use tear.Kukaku.Layout.{
  LayoutNode, leaf, split, LeafRemoval, removed, was_root, not_found, panes, contains_pane,
  is_leaf_of, remove_leaf, split_leaf, beside,
}
use tear.Kukaku.Layout.Panes.{ids, panes-ids, elem-ids}
use tear.Kukaku.Layout.Splitting.{AllRefined, split_leaf-hit, split_leaf-miss}

-- The outcome that the tree and the target decide.
abbrev pub outcome : Bool → Bool → LeafRemoval
outcome true held = was_root
outcome false true = removed
outcome false false = not_found

module _ {Num PaneId : Type 0} ⦃e : Eq PaneId⦄ where
  pub is_leaf_of-ids :
      (t : LayoutNode Num PaneId) (p : PaneId) → is_leaf_of t p ≡ true → ids t ≡ p ∷ []
  unfolding is_leaf_of
  is_leaf_of-ids (leaf q) p h = ground (arith, e.beq_iff q p)
  is_leaf_of-ids (split o r a b) p h = ground arith

  without-leaf :
      (t : LayoutNode Num PaneId) (p : PaneId) → is_leaf_of t p ≡ true → without p (ids t) ≡ []
  unfolding is_leaf_of
  without-leaf (leaf q) p h = ground arith
  without-leaf (split o r a b) p h = ground arith

  pub remove_leaf-outcome :
      (t : LayoutNode Num PaneId) (p : PaneId)
      → (remove_leaf t p).1 ≡ outcome (is_leaf_of t p) (elem p (ids t))
  unfolding remove_leaf is_leaf_of
  remove_leaf-outcome (leaf q) p = ground arith
  remove_leaf-outcome (split o r a b) p = ground (
    arith,
    remove_leaf-outcome a p,
    remove_leaf-outcome b p,
    elem-append p (ids a) (ids b),
    is_leaf_of-ids a p,
    is_leaf_of-ids b p,
    beq_refl p,
  )

  pub remove_leaf-miss :
      (t : LayoutNode Num PaneId) (p : PaneId)
      → elem p (ids t) ≡ false
      → remove_leaf t p ≡ (t, not_found)
  unfolding remove_leaf
  remove_leaf-miss (leaf q) p h = ground arith
  remove_leaf-miss (split o r a b) p h = ground (
    arith,
    remove_leaf-miss a p,
    remove_leaf-miss b p,
    elem-append p (ids a) (ids b),
    is_leaf_of-ids a p,
    is_leaf_of-ids b p,
    beq_refl p,
  )

  pub remove_leaf-root :
      (t : LayoutNode Num PaneId) (p : PaneId)
      → is_leaf_of t p ≡ true
      → remove_leaf t p ≡ (t, was_root)
  unfolding remove_leaf is_leaf_of
  remove_leaf-root (leaf q) p h = ground arith
  remove_leaf-root (split o r a b) p h = ground arith

  pub remove_leaf-ids :
      (t : LayoutNode Num PaneId) (p : PaneId)
      → Distinct (ids t)
      → is_leaf_of t p ≡ false
      → ids (remove_leaf t p).0 ≡ without p (ids t)
  unfolding remove_leaf is_leaf_of
  remove_leaf-ids (leaf q) p d h = ground arith
  remove_leaf-ids (split o r a b) p d h =
      let parts = Distinct-split (ids a) (ids b) d in
      ground (
        arith,
        remove_leaf-ids a p parts.0,
        remove_leaf-ids b p parts.1,
        remove_leaf-outcome a p,
        remove_leaf-miss a p,
        elem-append p (ids a) (ids b),
        without-append p (ids a) (ids b),
        without-absent p (ids a),
        without-absent p (ids b),
        Apart-elem p (ids a) (ids b) parts.2,
        is_leaf_of-ids a p,
        is_leaf_of-ids b p,
        without-leaf a p,
        without-leaf b p,
        append-nil (ids a),
        beq_refl p,
      )

  -- In a tree whose panes are distinct, `remove_leaf` reports `was_root` for the only pane and
  -- leaves the tree, reports `not_found` for a pane that is not there and leaves the tree, and
  -- otherwise reports `removed` and takes out that pane alone, the others keeping their order.
  pub remove_leaf_outcomes :
      (t : LayoutNode Num PaneId) (p : PaneId)
      → Distinct (panes t)
      → ((remove_leaf t p).1 ≡ outcome (is_leaf_of t p) (contains_pane t p))
        × (panes (remove_leaf t p).0 ≡ (if is_leaf_of t p then panes t else without p (panes t)))
  remove_leaf_outcomes t p d =
      let distinct = subst Distinct (panes-ids t) d in
      rw (panes-ids, panes-ids, elem-ids t p)
        (
          remove_leaf-outcome t p,
          ground (arith, remove_leaf-ids t p distinct, remove_leaf-root t p),
        )

module _ {Num PaneId : Type 0} ⦃e : Eq PaneId⦄ ⦃f : Float Num⦄ where
  pub remove_leaf-AllRefined :
      (t : LayoutNode Num PaneId) (p : PaneId) → AllRefined t → AllRefined (remove_leaf t p).0
  unfolding remove_leaf
  remove_leaf-AllRefined (leaf q) p h = ground arith
  remove_leaf-AllRefined (split o r a b) p h =
      ground (arith, remove_leaf-AllRefined a p h.1, remove_leaf-AllRefined b p h.2)

  split_leaf-not_leaf :
      (t : LayoutNode Num PaneId) (target fresh x : PaneId) (d : Direction) (r : Num)
      → elem target (ids t) ≡ true
      → is_leaf_of (split_leaf t target fresh d r).0 x ≡ false
  unfolding split_leaf is_leaf_of beside
  split_leaf-not_leaf (leaf p) target fresh x d r h = ground arith
  split_leaf-not_leaf (split o q a b) target fresh x d r h = ground arith

  remove-beside :
      (p fresh : PaneId) (d : Direction) (keep : Num)
      → (p =? fresh) ≡ false
      → remove_leaf (beside d p fresh keep) fresh ≡ (leaf p, removed)
  unfolding remove_leaf beside is_leaf_of
  remove-beside p fresh Direction.right keep h = ground (arith, beq_refl fresh)
  remove-beside p fresh Direction.below keep h = ground (arith, beq_refl fresh)
  remove-beside p fresh Direction.left keep h = ground (arith, beq_refl fresh)
  remove-beside p fresh Direction.above keep h = ground (arith, beq_refl fresh)

  is_leaf_of-absent :
      (t : LayoutNode Num PaneId) (p : PaneId) → elem p (ids t) ≡ false → is_leaf_of t p ≡ false
  unfolding is_leaf_of
  is_leaf_of-absent (leaf q) p h = ground arith
  is_leaf_of-absent (split o r a b) p h = refl

  undo :
      (t : LayoutNode Num PaneId) (target fresh : PaneId) (d : Direction) (r : Num)
      → elem target (ids t) ≡ true
      → elem fresh (ids t) ≡ false
      → remove_leaf (split_leaf t target fresh d r).0 fresh ≡ (t, removed)
  unfolding split_leaf remove_leaf
  undo (leaf p) target fresh d r h n = ground (arith, remove-beside p fresh d (Ratio.new r).value)
  undo (split o q a b) target fresh d r h n = ground (
    arith,
    undo a target fresh d r,
    undo b target fresh d r,
    split_leaf-hit a target fresh d r,
    split_leaf-miss a target fresh d r,
    split_leaf-not_leaf a target fresh fresh d r,
    split_leaf-not_leaf b target fresh fresh d r,
    is_leaf_of-absent a fresh,
    is_leaf_of-absent b fresh,
    remove_leaf-miss a fresh,
    elem-append target (ids a) (ids b),
    elem-append fresh (ids a) (ids b),
  )

  -- Removing the pane that a split has just added, to a tree that holds the target and did not
  -- hold the new pane, reports `removed` and gives back the tree as it was, ratios included.
  pub remove_leaf-split_leaf :
      (t : LayoutNode Num PaneId) (target fresh : PaneId) (d : Direction) (r : Num)
      → contains_pane t target ≡ true
      → contains_pane t fresh ≡ false
      → remove_leaf (split_leaf t target fresh d r).0 fresh ≡ (t, removed)
  remove_leaf-split_leaf t target fresh d r h n =
      undo t target fresh d r (rw (elem-ids t target) at h) (rw (elem-ids t fresh) at n)
