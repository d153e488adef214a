-- ===== src/TearCore/Validity/Layouts.antt =====
-- What the operations of kukaku's trees do to the panes that a window shows.
use mathlib.Core.Path.{◌∙◌}
use tear.Base.{
  ℕ, ◌≡◌, ◌≢◌, ◌⊎◌, inl, inr, refl, ap, true, false, List, [], ◌∷◌, ◌++◌, arith, elem, nat_eq, ◌==◌,
  Bool-cases, without, elem-without_self,
}
use tear.Kukaku.Direction.{Direction}
use tear.Kukaku.Float.{Float, IsIeee}
use tear.Kukaku.Layout.{
  LayoutNode, panes, leaf, split, collect, split_leaf, remove_leaf, removed, was_root,
  contains_pane, is_leaf_of,
}
use tear.Kukaku.Layout.Panes.{panes_agree, ids, panes-ids}
use tear.Kukaku.Layout.Insertion.{insert_beside}
use tear.Kukaku.Layout.Splitting.{split_leaf_places}
use tear.Kukaku.Layout.Removal.{remove_leaf_outcomes, is_leaf_of-ids}
use tear.Kukaku.Layout.Validation.{IsWellFormed, operations-IsWellFormed}
use tear.TearCore.Closing.{first_pane}

elem-insert_beside_other :
    (d : Direction) (target fresh q : ℕ) (xs : List ℕ)
    → fresh ≢ q
    → elem q (insert_beside d target fresh xs) ≡ elem q xs
elem-insert_beside_other d target fresh q [] ne = refl
elem-insert_beside_other d target fresh q (x ∷ xs) ne =
    ground (arith, elem-insert_beside_other d target fresh q xs)

elem-insert_beside_self :
    (d : Direction) (target fresh : ℕ) (xs : List ℕ)
    → elem target xs ≡ true
    → elem fresh (insert_beside d target fresh xs) ≡ true
elem-insert_beside_self d target fresh [] h = absurd (cc h)
elem-insert_beside_self d target fresh (x ∷ xs) h =
    ground (arith, elem-insert_beside_self d target fresh xs)

elem-without_other : (p q : ℕ) (xs : List ℕ) → p ≢ q → elem q (without p xs) ≡ elem q xs
elem-without_other p q [] ne = refl
elem-without_other p q (x ∷ xs) ne = ground (arith, elem-without_other p q xs)

-- A tree shows at least one pane.
ids-first : {Num : Type 0} (t : LayoutNode Num ℕ) → (p : ℕ) × (rest : List ℕ) × (ids t ≡ p ∷ rest)
ids-first (leaf p) = (p, [], refl)
ids-first (split o r a b) =
    let (p, rest, e) = ids-first a in (p, rest ++ ids b, ap (λ (xs : List ℕ). xs ++ ids b) e)

pub first_pane-shown :
    {Num : Type 0} (t : LayoutNode Num ℕ) → elem (first_pane (panes t)) (panes t) ≡ true
first_pane-shown t = let (p, rest, e) = ids-first t in rw (panes-ids t, e) (ground arith)

pub panes-leaf : (Num : Type 0) (pane : ℕ) → panes {Num = Num} (leaf pane) ≡ pane ∷ []
unfolding panes collect
panes-leaf Num pane = refl

module _ {Num : Type 0} ⦃f : Float Num⦄ where
  pub leaf-IsWellFormed : (pane : ℕ) → IsWellFormed {Num = Num} (leaf pane)
  leaf-IsWellFormed pane = record { distinct = rw (panes-leaf Num pane) (refl, tt); refined = tt }

  -- A split of a pane that the tree shows, by one that it does not.
  pub record IsSplit (t t' : LayoutNode Num ℕ) (fresh : ℕ) : Type 0 where
    pub well_formed : IsWellFormed t'
    pub gains : elem fresh (panes t') ≡ true
    pub keeps : (q : ℕ) → fresh ≢ q → elem q (panes t') ≡ elem q (panes t)

  pub split_leaf-IsSplit :
      IsIeee f
      → (t : LayoutNode Num ℕ) (target fresh : ℕ) (d : Direction) (r : Num) → IsWellFormed t
      → elem target (panes t) ≡ true
      → elem fresh (panes t) ≡ false
      → ((split_leaf t target fresh d r).1 ≡ true)
        × IsSplit t (split_leaf t target fresh d r).0 fresh
  split_leaf-IsSplit ieee t target fresh d r h held new =
      let (hit, order, _) = split_leaf_places t target fresh d r in
      (
        hit ∙ (panes_agree t).1 target ∙ held,
        record {
          well_formed =
              (operations-IsWellFormed ieee t h).1 target fresh d r ((panes_agree t).1 fresh ∙ new);
          gains = rw order (elem-insert_beside_self d target fresh (panes t) held);
          keeps = λ q ne. rw order (elem-insert_beside_other d target fresh q (panes t) ne);
        },
      )

  -- A pane taken out of a tree that shows others too.
  pub record IsShrunk (t t' : LayoutNode Num ℕ) (gone : ℕ) : Type 0 where
    pub well_formed : IsWellFormed t'
    pub loses : elem gone (panes t') ≡ false
    pub keeps : (q : ℕ) → gone ≢ q → elem q (panes t') ≡ elem q (panes t)
    pub first : elem (first_pane (panes t')) (panes t') ≡ true

  -- The pane is the tree's only one; or it is taken out and the tree shows the others.
  pub remove_leaf-IsShrunk :
      IsIeee f
      → (t : LayoutNode Num ℕ) (p : ℕ) → IsWellFormed t
      → elem p (panes t) ≡ true
      → (((remove_leaf t p).1 ≡ was_root) × ((q : ℕ) → elem q (panes t) ≡ (p == q)))
        ⊎ (((remove_leaf t p).1 ≡ removed) × IsShrunk t (remove_leaf t p).0 p)
  remove_leaf-IsShrunk ieee t p h held =
      let (what, order) = remove_leaf_outcomes t p h.distinct in
      let has : contains_pane t p ≡ true = (panes_agree t).1 p ∙ held in
      elim (Bool-cases (is_leaf_of t p)) [
        | inl root ↦
            let only : panes t ≡ p ∷ [] = panes-ids t ∙ is_leaf_of-ids t p root in
            inl (ground (arith, what, root, has), λ q. rw only (ground arith))
        | inr inner ↦
            let order' : panes (remove_leaf t p).0 ≡ without p (panes t) =
              ground (arith, order, inner) in
            inr (
              ground (arith, what, inner, has),
              record {
                well_formed = (operations-IsWellFormed ieee t h).2 p;
                loses = rw order' (elem-without_self p (panes t));
                keeps = λ q ne. rw order' (elem-without_other p q (panes t) ne);
                first = first_pane-shown (remove_leaf t p).0;
              },
            )
      ]
