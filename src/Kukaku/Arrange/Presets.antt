-- ===== src/Kukaku/Arrange/Presets.antt =====
-- `from_kind` of kukaku/src/layout.rs: every arrangement but the custom one succeeds, keeps the
-- panes in their order, and has refined ratios.
use mathlib.Core.List.{append-nil}
use mathlib.Core.Path.{ap₂}
use native.Mathlib.Nat.{div-add-mod, mod-lt}
use tear.Base.{
  ℕ, zero, suc, ◌+◌, ◌-◌, ◌*◌, ◌/◌, ◌%◌, ◌≤◌, ◌<◌, ◌≡◌, refl, ap, sym, ◌∙◌, subst, false, List, [],
  ◌∷◌, ◌++◌, Option, none, some, arith, ◌==◌, length, take, drop, length-take, length-drop,
  take-append-drop, drop-drop, drop-all, All,
}
use tear.Kukaku.Direction.{SplitOrientation}
use tear.Kukaku.Float.{Float, IsIeee}
use tear.Kukaku.Ratio.{balanced-IsRefined, new-IsRefined}
use tear.Kukaku.Ratio
use tear.Kukaku.Layout.{LayoutNode, leaf, split, panes}
use tear.Kukaku.Layout.Panes.{ids, panes-ids}
use tear.Kukaku.Layout.Splitting.{AllRefined}
use tear.Kukaku.Arrange.{
  LayoutKind, even_horizontal, even_vertical, main_horizontal, main_vertical, tiled, custom, leaves,
  slice, extra_cell, even_chain, tiled_rows, tiled_tree, from_kind, ◌>>=◌,
}

le-mul_self : (k : ℕ) → k ≤ k * k
le-mul_self zero = omega arith
le-mul_self (suc k) = grind arith

extra_cell_lem : (r extra : ℕ) → extra_cell r extra + (extra - (r + 1)) ≡ extra - r
extra_cell_lem r extra = ground arith

module _ {PaneId : Type 0} where
  slice-eq :
      (ps : List PaneId) (i cnt : ℕ)
      → i + cnt ≤ length ps
      → slice ps i cnt ≡ some (take cnt (drop i ps))
  slice-eq ps i cnt h = ground arith

  cells-drop :
      (ps : List PaneId) (i cnt : ℕ) → take cnt (drop i ps) ++ drop (i + cnt) ps ≡ drop i ps
  cells-drop ps i cnt = rw (drop-drop i cnt ps) (take-append-drop cnt (drop i ps))

square_le : (k n : ℕ) → k * k < n → suc k ≤ n
square_le k n h = omega (arith, le-mul_self k)

-- As many rows as the square root, rounded up: at least one, and none of them empty.
rows_in_range :
    {Num : Type 0} ⦃f : Float Num⦄
    → IsIeee f
    → (n : ℕ) → 1 ≤ n
    → n < 4294967296
    → (1 ≤ f.ceil_sqrt n) × (f.ceil_sqrt n ≤ n)
rows_in_range ⦃f⦄ ieee n one small = (
  positive (f.ceil_sqrt n) (ieee.sqrt_upper n small),
  at_most (f.ceil_sqrt n) λ k. ieee.sqrt_lower n k small,
)
  where
    positive : (rows : ℕ) → n ≤ rows * rows → 1 ≤ rows
    positive zero h = omega arith
    positive (suc k) h = omega arith

    at_most : (rows : ℕ) → ((k : ℕ) → k < rows → k * k < n) → rows ≤ n
    at_most zero h = omega arith
    at_most (suc k) h = square_le k n (h k (omega arith))

grid_total : (n rows : ℕ) → 0 + rows * (n / rows) + (n % rows - 0) ≡ n
grid_total n rows = omega (arith, div-add-mod n rows)

per_pos : (n rows : ℕ) → 1 ≤ rows → rows ≤ n → 1 ≤ n / rows
per_pos n rows low high = from_quotient (n / rows) (div-add-mod n rows)
  where
    from_quotient : (q : ℕ) → rows * q + n % rows ≡ n → 1 ≤ q
    from_quotient zero e = omega (arith, mod-lt n low)
    from_quotient (suc q) e = omega arith

-- The panes of a sequence of trees.
abbrev pub all_ids : {Num PaneId : Type 0} → List (LayoutNode Num PaneId) → List PaneId
all_ids [] = []
all_ids (t ∷ ts) = ids t ++ all_ids ts

all_ids-leaves :
    (Num : Type 0) {PaneId : Type 0} (ps : List PaneId) → all_ids (leaves {Num = Num} ps) ≡ ps
all_ids-leaves Num [] = refl
all_ids-leaves Num (p ∷ ps) = ap (◌∷◌ p) (all_ids-leaves Num ps)

leaves-AllRefined :
    (Num : Type 0) ⦃f : Float Num⦄ {PaneId : Type 0} (ps : List PaneId)
    → All AllRefined (leaves {Num = Num} ps)
leaves-AllRefined Num [] = tt
leaves-AllRefined Num (p ∷ ps) = (tt, leaves-AllRefined Num ps)

module _ {Num PaneId : Type 0} ⦃f : Float Num⦄ where
  -- A tree that shows these panes, in this order, and has refined ratios.
  pub record Shows (ps : List PaneId) (t : LayoutNode Num PaneId) : Type 0 where
    pub in_order : panes t ≡ ps
    pub refined : AllRefined t

  abbrev Arranged : List PaneId → Option (LayoutNode Num PaneId) → Type 0
  Arranged ps none = ⊥
  Arranged ps (some t) = (ids t ≡ ps) × AllRefined t

module _ {Num PaneId : Type 0} ⦃f : Float Num⦄ (ieee : IsIeee f) where
  chain_step :
      (o : SplitOrientation) (ratio : Num) (first : LayoutNode Num PaneId) (ps : List PaneId)
      (rest : Option (LayoutNode Num PaneId))
      → AllRefined first
      → Arranged ps rest
      → Arranged
          (ids first ++ ps)
          (rest >>= λ rest_tree. some (split o (Ratio.new ratio) first rest_tree))
  chain_step o ratio first ps none h k = k
  chain_step o ratio first ps (some t) h k =
      (ap (◌++◌ (ids first)) k.0, (new-IsRefined ieee ratio, h, k.1))

  even_chain-Arranged :
      (o : SplitOrientation) (t : LayoutNode Num PaneId) (ts : List (LayoutNode Num PaneId))
      → All AllRefined (t ∷ ts)
      → Arranged (all_ids (t ∷ ts)) (even_chain o (t ∷ ts))
  unfolding even_chain
  even_chain-Arranged o t [] h = (sym (append-nil (ids t)), h.0)
  even_chain-Arranged o t (s ∷ rest) h =
      chain_step o _ t (all_ids (s ∷ rest)) (even_chain o (s ∷ rest)) h.0
        (even_chain-Arranged o s rest h.1)

  leaves-Arranged :
      (o : SplitOrientation) (ps : List PaneId)
      → 0 < length ps
      → Arranged {Num = Num} ps (even_chain o (leaves ps))
  leaves-Arranged o [] h = absurd (omega arith)
  leaves-Arranged o (p ∷ ps) h =
      subst (λ (qs : List PaneId). Arranged {Num = Num} qs (even_chain o (leaves (p ∷ ps))))
        (all_ids-leaves Num (p ∷ ps))
        (even_chain-Arranged o (leaf p) (leaves ps) (leaves-AllRefined Num (p ∷ ps)))

  abbrev row_then :
      Option (LayoutNode Num PaneId)
      → Option (List (LayoutNode Num PaneId))
      → Option (List (LayoutNode Num PaneId))
  row_then row rows = row >>= λ t. rows >>= λ ts. some (t ∷ ts)

  -- The rows of a grid: as many as wanted, together showing these panes.
  abbrev Grid : ℕ → List PaneId → Option (List (LayoutNode Num PaneId)) → Type 0
  Grid n ps none = ⊥
  Grid n ps (some ts) = (all_ids ts ≡ ps) × All AllRefined ts × (length ts ≡ n)

  row_step :
      (left : ℕ) (cells ps : List PaneId) (row : Option (LayoutNode Num PaneId))
      (rows : Option (List (LayoutNode Num PaneId)))
      → Arranged cells row
      → Grid left ps rows
      → Grid (suc left) (cells ++ ps) (row_then row rows)
  row_step left cells ps none rows h k = h
  row_step left cells ps (some t) none h k = k
  row_step left cells ps (some t) (some ts) h k = (ap₂ ◌++◌ h.0 k.0, (h.1, k.1), ap suc k.2)

  -- The rows that are left take up the panes that are left.
  tiled_rows-Grid :
      (left r i per extra : ℕ) (ps : List PaneId)
      → i + left * per + (extra - r) ≡ length ps
      → extra ≤ left + r
      → 1 ≤ per
      → Grid left (drop i ps) (tiled_rows left r i per extra ps)
  unfolding tiled_rows
  tiled_rows-Grid zero r i per extra ps total most one =
      (sym (drop-all i ps (omega arith)), tt, refl)
  tiled_rows-Grid (suc left) r i per extra ps total most one =
      let cnt = per + extra_cell r extra in
      let cells = take cnt (drop i ps) in
      let sum = extra_cell_lem r extra in
      let fits : i + cnt ≤ length ps = omega (arith, sum) in
      let size : 0 < length cells = omega (arith, length-take cnt (drop i ps), length-drop i ps) in
      let ih =
        tiled_rows-Grid left (r + 1) (i + cnt) per extra ps (omega (arith, sum)) (omega arith)
          one in
      let row = even_chain SplitOrientation.vertical (leaves cells) in
      rw (slice-eq ps i cnt fits) (
        subst
          (λ (qs : List PaneId).
            Grid (suc left) qs (row_then row (tiled_rows left (r + 1) (i + cnt) per extra ps)))
          (cells-drop ps i cnt)
          (row_step left cells (drop (i + cnt) ps) row _
            (leaves-Arranged SplitOrientation.vertical cells size) ih))

  Grid-chain :
      (n : ℕ) (ps : List PaneId) (grid : Option (List (LayoutNode Num PaneId)))
      → 1 ≤ n
      → Grid n ps grid
      → Arranged ps (grid >>= even_chain SplitOrientation.horizontal)
  Grid-chain n ps none one h = h
  Grid-chain n ps (some []) one h = absurd (omega (arith, h.2))
  Grid-chain n ps (some (t ∷ ts)) one h =
      subst (λ (qs : List PaneId). Arranged qs (even_chain SplitOrientation.horizontal (t ∷ ts)))
        h.0 (even_chain-Arranged SplitOrientation.horizontal t ts h.1)

  tiled_tree-Arranged :
      (ps : List PaneId)
      → 1 ≤ length ps
      → length ps < 4294967296
      → Arranged {Num = Num} ps (tiled_tree ps)
  unfolding tiled_tree
  tiled_tree-Arranged ps one small =
      let n = length ps in
      let rows = f.ceil_sqrt n in
      let (low, high) = rows_in_range ieee n one small in
      let grid =
        tiled_rows-Grid rows 0 0 (n / rows) (n % rows) ps (grid_total n rows)
          (omega (arith, mod-lt n low)) (per_pos n rows low high) in
      let filled : (length ps == 0) ≡ false = ground arith in
      rw filled (Grid-chain rows ps _ low grid)

  shows :
      (ps : List PaneId) (made : Option (LayoutNode Num PaneId))
      → Arranged ps made
      → (t : LayoutNode Num PaneId) × (made ≡ some t) × Shows ps t
  shows ps none h = absurd h
  shows ps (some t) h = (t, refl, record { in_order = panes-ids t ∙ h.0; refined = h.1 })

  main_first :
      (o : SplitOrientation) (main : PaneId) (rest : List PaneId)
      (made : Option (LayoutNode Num PaneId))
      → Arranged rest made
      → Arranged (main ∷ rest) (made >>= λ other. some (split o Ratio.balanced (leaf main) other))
  main_first o main rest none h = h
  main_first o main rest (some t) h = (ap (◌∷◌ main) h.0, (balanced-IsRefined ieee, tt, h.1))

  -- What an arrangement of these panes is to be.
  abbrev pub Preset : LayoutKind → List PaneId → Option (LayoutNode Num PaneId) → Type 0
  Preset kind [] made = made ≡ none
  Preset kind (only ∷ []) made = made ≡ some (leaf only)
  Preset custom (p ∷ q ∷ rest) made = made ≡ none
  Preset _ (p ∷ q ∷ rest) made =
      (t : LayoutNode Num PaneId) × (made ≡ some t) × Shows (p ∷ q ∷ rest) t

  -- For fewer than 2 ^ 32 panes, `from_kind` gives nothing for no panes, a leaf for one, nothing
  -- for two or more under `custom`, and under every other kind a tree that shows exactly these
  -- panes in their order, with refined ratios.
  pub from_kind-Preset :
      (kind : LayoutKind) (ps : List PaneId)
      → length ps < 4294967296
      → Preset kind ps (from_kind kind ps)
  unfolding from_kind
  from_kind-Preset kind [] small = refl
  from_kind-Preset kind (only ∷ []) small = refl
  from_kind-Preset even_horizontal (p ∷ q ∷ rest) small =
      shows _ _ (leaves-Arranged SplitOrientation.vertical (p ∷ q ∷ rest) (omega arith))
  from_kind-Preset even_vertical (p ∷ q ∷ rest) small =
      shows _ _ (leaves-Arranged SplitOrientation.horizontal (p ∷ q ∷ rest) (omega arith))
  from_kind-Preset main_horizontal (p ∷ q ∷ rest) small = shows _ _ (
      main_first SplitOrientation.horizontal p (q ∷ rest) _
        (leaves-Arranged SplitOrientation.vertical (q ∷ rest) (omega arith)))
  from_kind-Preset main_vertical (p ∷ q ∷ rest) small = shows _ _ (
      main_first SplitOrientation.vertical p (q ∷ rest) _
        (leaves-Arranged SplitOrientation.horizontal (q ∷ rest) (omega arith)))
  from_kind-Preset tiled (p ∷ q ∷ rest) small =
      shows _ _ (tiled_tree-Arranged (p ∷ q ∷ rest) (omega arith) small)
  from_kind-Preset custom (p ∷ q ∷ rest) small = refl
