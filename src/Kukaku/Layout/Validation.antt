-- ===== src/Kukaku/Layout/Validation.antt =====
-- `validate` of kukaku/src/layout.rs accepts exactly the well-formed trees, and the operations
-- keep them well formed.
use mathlib.Core.List.{append_assoc, append-nil}
use tear.Base.{
  ◌≡◌, refl, true, false, ◌↔◌, List, [], ◌∷◌, ◌++◌, subst, ap, ◌∙◌, inl, inr, Bool-cases, Eq, elem,
  elem-append, arith, Distinct, Apart, without-Distinct,
}
use tear.Kukaku.Direction.{Direction, SplitOrientation}
use tear.Kukaku.Float.{Float, IsIeee}
use tear.Kukaku.Ratio.{SplitRatio, IsRefined-open}
use tear.Kukaku.Layout.{
  LayoutNode, leaf, split, Checked, and_then, ok, err, panes, contains_pane, validate,
  validate_into, split_leaf, remove_leaf, is_leaf_of,
}
use tear.Kukaku.Layout.Panes.{ids, panes-ids, elem-ids}
use tear.Kukaku.Layout.Insertion.{insert_beside-Distinct}
use tear.Kukaku.Layout.Splitting.{AllRefined, split_leaf-ids, split_leaf-AllRefined}
use tear.Kukaku.Layout.Removal.{remove_leaf-ids, remove_leaf-root, remove_leaf-AllRefined}

module _ {PaneId : Type 0} ⦃e : Eq PaneId⦄ where
  -- None of `xs` has been seen, in the order in which they are looked up.
  abbrev Unseen : List PaneId → List PaneId → Type 0
  Unseen [] seen = Unit
  Unseen (x ∷ xs) seen = (elem x seen ≡ false) × Unseen xs (seen ++ x ∷ [])

  Unseen-append :
      (xs ys seen : List PaneId)
      → Unseen (xs ++ ys) seen ↔ (Unseen xs seen × Unseen ys (seen ++ xs))
  Unseen-append [] ys seen = rw (append-nil seen) (λ h. (tt, h), λ h. h.1)
  Unseen-append (x ∷ xs) ys seen =
      let ih = Unseen-append xs ys (seen ++ x ∷ []) in
      let same = append_assoc seen (x ∷ []) xs in
      (
        λ h. ((h.0, (ih.0 h.1).0), subst (Unseen ys) same (ih.0 h.1).1),
        λ h. (h.0.0, ih.1 (h.0.1, rw same h.1)),
      )

  Apart-snoc :
      (x : PaneId) (xs seen : List PaneId)
      → Apart xs (seen ++ x ∷ []) ↔ (Apart xs seen × (elem x xs ≡ false))
  Apart-snoc x [] seen = (λ h. (tt, refl), λ h. tt)
  Apart-snoc x (y ∷ ys) seen =
      ground
        (arith, Apart-snoc x ys seen, elem-append y seen (x ∷ []), e.beq_iff x y, e.beq_iff y x)

  Unseen-Distinct : (xs seen : List PaneId) → Unseen xs seen ↔ (Distinct xs × Apart xs seen)
  Unseen-Distinct [] seen = (λ h. (tt, tt), λ h. tt)
  Unseen-Distinct (x ∷ xs) seen =
      let ih = Unseen-Distinct xs (seen ++ x ∷ []) in
      let snoc = Apart-snoc x xs seen in
      (
        λ h. (((snoc.0 (ih.0 h.1).1).1, (ih.0 h.1).0), (h.0, (snoc.0 (ih.0 h.1).1).0)),
        λ h. (h.1.0, ih.1 (h.0.1, snoc.1 (h.1.1, h.0.0))),
      )

  Apart-nil : (xs : List PaneId) → Apart xs []
  Apart-nil [] = tt
  Apart-nil (x ∷ xs) = (refl, Apart-nil xs)

module _ {Num PaneId : Type 0} ⦃e : Eq PaneId⦄ where
  removed-Distinct :
      (t : LayoutNode Num PaneId) (p : PaneId)
      → Distinct (ids t)
      → Distinct (panes (remove_leaf t p).0)
  removed-Distinct t p h = elim (Bool-cases (is_leaf_of t p)) [
    | inl root ↦ rw (panes-ids, remove_leaf-root t p root) h
    | inr inner ↦ rw (panes-ids, remove_leaf-ids t p h inner) (without-Distinct p (ids t) h)
  ]

module _ {Num PaneId : Type 0} ⦃e : Eq PaneId⦄ ⦃f : Float Num⦄ where
  -- Every ratio lies strictly between 0 and 1.
  abbrev pub AllOpen : LayoutNode Num PaneId → Type 0
  AllOpen (leaf p) = Unit
  AllOpen (split o r a b) =
      (f.lt_f f.zero_f r.value ≡ true) × (f.lt_f r.value f.one_f ≡ true) × AllOpen a × AllOpen b

  validate_into-ok :
      (t : LayoutNode Num PaneId) (seen : List PaneId)
      → Unseen (ids t) seen
      → AllOpen t
      → validate_into t seen ≡ ok (seen ++ ids t)
  unfolding validate_into
  validate_into-ok (leaf p) seen u o = ground arith
  validate_into-ok (split o r a b) seen u op =
      let parts = (Unseen-append (ids a) (ids b) seen).0 u in
      rw (
        op.0,
        op.1,
        validate_into-ok a seen parts.0 op.2,
        validate_into-ok b (seen ++ ids a) parts.1 op.3,
        append_assoc seen (ids a) (ids b),
      )

  and_then-eq-ok :
      (m : Checked Num PaneId) (k : List PaneId → Checked Num PaneId) (out : List PaneId)
      → and_then m k ≡ ok out
      → (mid : List PaneId) × (m ≡ ok mid) × (k mid ≡ ok out)
  and_then-eq-ok (ok mid) k out h = (mid, refl, h)
  and_then-eq-ok (err x) k out h = cc

  in_range :
      (o : SplitOrientation) (r : SplitRatio Num) (a b : LayoutNode Num PaneId)
      (seen out : List PaneId)
      → validate_into (split o r a b) seen ≡ ok out
      → (f.lt_f f.zero_f r.value ≡ true)
        × (f.lt_f r.value f.one_f ≡ true)
        × (and_then (validate_into a seen) (validate_into b) ≡ ok out)
  unfolding validate_into
  in_range o r a b seen out h = ground arith

  validate_into_sound :
      (t : LayoutNode Num PaneId) (seen out : List PaneId)
      → validate_into t seen ≡ ok out
      → Unseen (ids t) seen × AllOpen t × (out ≡ seen ++ ids t)
  unfolding validate_into
  validate_into_sound (leaf p) seen out h = ground arith
  validate_into_sound (split o r a b) seen out h =
      let (low, high, both) = in_range o r a b seen out h in
      let (mid, ha, hb) = and_then-eq-ok (validate_into a seen) (validate_into b) out both in
      let (ua, oa, ea) = validate_into_sound a seen mid ha in
      let (ub, ob, eb) = validate_into_sound b mid out hb in
      (
        (Unseen-append (ids a) (ids b) seen).1 (ua, subst (Unseen (ids b)) ea ub),
        (low, high, oa, ob),
        eb ∙ ap (λ (m : List PaneId). m ++ ids b) ea ∙ append_assoc seen (ids a) (ids b),
      )

  AllRefined-AllOpen : IsIeee f → (t : LayoutNode Num PaneId) → AllRefined t → AllOpen t
  AllRefined-AllOpen ieee (leaf p) h = tt
  AllRefined-AllOpen ieee (split o r a b) h =
      let (low, high) = IsRefined-open ieee r h.0 in
      (low, high, AllRefined-AllOpen ieee a h.1, AllRefined-AllOpen ieee b h.2)

  -- `validate` accepts a tree exactly when no pane stands in two leaves and every ratio lies
  -- strictly between 0 and 1.
  pub validate_decides :
      (t : LayoutNode Num PaneId)
      → ((seen : List PaneId) × (validate t ≡ ok seen)) ↔ (Distinct (panes t) × AllOpen t)
  unfolding validate
  validate_decides t = rw panes-ids (
    λ h.
        let (u, o, _) = validate_into_sound t [] h.0 h.1 in
        (((Unseen-Distinct (ids t) []).0 u).0, o),
    λ h. (
      ids t,
      validate_into-ok t [] ((Unseen-Distinct (ids t) []).1 (h.0, Apart-nil (ids t))) h.1,
    ),
  )

  -- A tree whose ratios are refined and whose panes are distinct.
  pub record IsWellFormed (t : LayoutNode Num PaneId) : Type 0 where
    pub distinct : Distinct (panes t)
    pub refined : AllRefined t

  -- A well-formed tree validates, and stays well formed when a pane that it does not hold is
  -- split in anywhere, with any `f32` as ratio, and when any pane is removed.
  pub operations-IsWellFormed :
      IsIeee f
      → (t : LayoutNode Num PaneId) → IsWellFormed t
      → ((seen : List PaneId) × (validate t ≡ ok seen))
        × ((target fresh : PaneId) (d : Direction) (r : Num)
            → contains_pane t fresh ≡ false
            → IsWellFormed (split_leaf t target fresh d r).0)
        × ((target : PaneId) → IsWellFormed (remove_leaf t target).0)
  operations-IsWellFormed ieee t h =
      let distinct = subst Distinct (panes-ids t) h.distinct in
      (
        (validate_decides t).1 (h.distinct, AllRefined-AllOpen ieee t h.refined),
        λ target fresh d r n. record {
          distinct =
              rw (panes-ids, split_leaf-ids t target fresh d r)
                (insert_beside-Distinct d target fresh (ids t) distinct
                  (rw (elem-ids t fresh) at n));
          refined = split_leaf-AllRefined ieee t target fresh d r h.refined;
        },
        λ target. record {
          distinct = removed-Distinct t target distinct;
          refined = remove_leaf-AllRefined t target h.refined;
        },
      )
