-- ===== src/Kukaku/Layout/Panes.antt =====
-- The panes of a tree in display order: the plain recursion that the accumulator of
-- `collect` (kukaku/src/layout.rs) computes, and the counts and tests stated over it.
use mathlib.Core.List.{append_assoc}
use tear.Base.{◌≡◌, refl, List, [], ◌∷◌, ◌++◌, Eq, elem, elem-append, arith, length, length-append}
use tear.Kukaku.Layout.{LayoutNode, leaf, split, collect, panes, pane_count, contains_pane}

module _ {Num PaneId : Type 0} where
  abbrev pub ids : LayoutNode Num PaneId → List PaneId
  ids (leaf p) = p ∷ []
  ids (split o r a b) = ids a ++ ids b

  pub collect-ids : (t : LayoutNode Num PaneId) (out : List PaneId) → collect t out ≡ out ++ ids t
  unfolding collect
  collect-ids (leaf p) out = refl
  collect-ids (split o r a b) out = simp (collect-ids a, collect-ids b, append_assoc)

  pub panes-ids : (t : LayoutNode Num PaneId) → panes t ≡ ids t
  unfolding panes
  panes-ids t = collect-ids t []

  pub length-ids : (t : LayoutNode Num PaneId) → pane_count t ≡ length (ids t)
  unfolding pane_count
  length-ids (leaf p) = refl
  length-ids (split o r a b) =
      omega (arith, length-ids a, length-ids b, length-append (ids a) (ids b))

  pub elem-ids :
      ⦃e : Eq PaneId⦄ (t : LayoutNode Num PaneId) (p : PaneId) → contains_pane t p ≡ elem p (ids t)
  unfolding contains_pane
  elem-ids (leaf q) p = ground arith
  elem-ids (split o r a b) p =
      ground (arith, elem-ids a p, elem-ids b p, elem-append p (ids a) (ids b))

  -- `pane_count` is the number of panes that `panes` lists, and `contains_pane` tests whether a
  -- pane is among them.
  pub panes_agree :
      ⦃e : Eq PaneId⦄ (t : LayoutNode Num PaneId)
      → (pane_count t ≡ length (panes t)) × ((p : PaneId) → contains_pane t p ≡ elem p (panes t))
  panes_agree t = rw (panes-ids t) (length-ids t, elem-ids t)
