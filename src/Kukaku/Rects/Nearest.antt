-- ===== src/Kukaku/Rects/Nearest.antt =====
-- `neighbor` of kukaku/src/layout.rs: the pane it picks is the best of all candidates.
use tear.Base.{
  ℕ, ◌≤◌, ◌<◌, ◌≡◌, refl, Bool, true, false, ◌&&◌, ◌⊎◌, inl, inr, List, [], ◌∷◌, Option, none, some,
  Eq, ◌=?◌, arith, ltb, All, Any, Bool-cases, ◌+◌, ◌-◌, ◌↔◌, min, max,
}
use tear.Kukaku.Direction.{Direction, SplitOrientation}
use tear.Kukaku.Geometry.{Rect}
use tear.Kukaku.Float.{Float}
use tear.Kukaku.Layout.{LayoutNode}
use tear.Kukaku.Rects.{
  compute_rects, score, better, rect_of, consider, nearest, neighbor, first_of_best,
}

abbrev found : {PaneId : Type 0} → PaneId → ℕ → ℕ → Option (PaneId × ℕ × ℕ)
found p gap overlap = some (p, gap, overlap)

-- The ends of a rectangle on an axis: on that of a split's areas, one beside the other or one above
-- the other.
abbrev pub start : SplitOrientation → Rect → ℕ
start SplitOrientation.vertical r = r.x
start SplitOrientation.horizontal r = r.y

abbrev pub stop : SplitOrientation → Rect → ℕ
stop SplitOrientation.vertical r = r.x + r.w
stop SplitOrientation.horizontal r = r.y + r.h

-- The first rectangle ends where the second one starts, or before.
abbrev pub Ahead : SplitOrientation → Rect → Rect → Type 0
Ahead axis r r' = stop axis r ≤ start axis r'

-- The second rectangle lies on that side of the first one.
abbrev pub Lies : Direction → Rect → Rect → Type 0
Lies Direction.left me r = Ahead SplitOrientation.vertical r me
Lies Direction.right me r = Ahead SplitOrientation.vertical me r
Lies Direction.above me r = Ahead SplitOrientation.horizontal r me
Lies Direction.below me r = Ahead SplitOrientation.horizontal me r

-- How many cells are between them.
abbrev pub distance : Direction → Rect → Rect → ℕ
distance Direction.left me r = me.x - (r.x + r.w)
distance Direction.right me r = r.x - (me.x + me.w)
distance Direction.above me r = me.y - (r.y + r.h)
distance Direction.below me r = r.y - (me.y + me.h)

-- How many rows or columns they have in common.
abbrev pub common : SplitOrientation → Rect → Rect → ℕ
common axis me r = min (stop axis me) (stop axis r) - max (start axis me) (start axis r)

abbrev pub shared_edge : Direction → Rect → Rect → ℕ
shared_edge Direction.left me r = common SplitOrientation.horizontal me r
shared_edge Direction.right me r = common SplitOrientation.horizontal me r
shared_edge Direction.above me r = common SplitOrientation.vertical me r
shared_edge Direction.below me r = common SplitOrientation.vertical me r

score-rates :
    (d : Direction) (me r : Rect)
    → (((score d me r).0 ≡ true) ↔ Lies d me r)
      × ((score d me r).1 ≡ distance d me r)
      × ((score d me r).2 ≡ shared_edge d me r)
unfolding score
score-rates Direction.left me r = ground arith
score-rates Direction.right me r = ground arith
score-rates Direction.above me r = ground arith
score-rates Direction.below me r = ground arith

module _ {PaneId : Type 0} ⦃e : Eq PaneId⦄ (target : PaneId) (d : Direction) (me : Rect) where
  -- An entry that the loop may pick: another pane, on the wanted side, sharing an edge.
  pub record IsCandidate (entry : PaneId × Rect) : Type 0 where
    pub other : (entry.0 =? target) ≡ false
    pub on_side : Lies d me entry.1
    pub shares : 0 < shared_edge d me entry.1

  -- The first score is at least as good: closer, or as close with at least as long an edge.
  abbrev pub Beats : ℕ → ℕ → ℕ → ℕ → Type 0
  Beats gap overlap gap' overlap' = (gap < gap') ⊎ ((gap ≡ gap') × (overlap' ≤ overlap))

  -- As good as the entry, if the entry is a candidate.
  abbrev pub Tops : ℕ → ℕ → PaneId × Rect → Type 0
  Tops gap overlap entry =
      IsCandidate entry → Beats gap overlap (distance d me entry.1) (shared_edge d me entry.1)

  -- The entry is a candidate with this pane and this score.
  pub record IsScored (p : PaneId) (gap overlap : ℕ) (entry : PaneId × Rect) : Type 0 where
    pub pane_eq : entry.0 ≡ p
    pub candidate : IsCandidate entry
    pub gap_eq : (distance d me entry.1) ≡ gap
    pub overlap_eq : (shared_edge d me entry.1) ≡ overlap

  -- What one turn does: it keeps the best so far, which then beats the entry, or takes the entry,
  -- which then beats the best so far.
  data Turn (best : Option (PaneId × ℕ × ℕ)) (entry : PaneId × Rect) : Type 0 where
    skips :
        consider target d me best entry ≡ best
        → (best ≡ none → ¬ IsCandidate entry)
        → ((q : PaneId) (h k : ℕ) → best ≡ some (q, h, k) → Tops h k entry)
        → Turn best entry
    takes :
        (p : PaneId) (gap overlap : ℕ)
        → consider target d me best entry ≡ some (p, gap, overlap)
        → IsScored p gap overlap entry
        → ((q : PaneId) (h k : ℕ) → best ≡ some (q, h, k) → Beats gap overlap h k)
        → Turn best entry

  open_test : Option (PaneId × ℕ × ℕ) → Rect → Bool
  open_test best r =
      (score d me r).0 && ltb 0 (score d me r).2 && better best (score d me r).1 (score d me r).2

  skipped :
      (best : Option (PaneId × ℕ × ℕ)) (p : PaneId) (r : Rect)
      → ((p =? target) ≡ true) ⊎ (open_test best r ≡ false)
      → Turn best (p, r)
  unfolding consider better open_test
  skipped none p r why =
      skips (ground arith) (λ _ c. ground (arith, score-rates d me r, c.other, c.on_side, c.shares))
        (λ q h k b. cc)
  skipped (some (q, g, o)) p r why =
      skips (ground arith) (λ b. cc)
        (λ q' h k b c. ground (arith, score-rates d me r, c.other, c.on_side, c.shares))

  taken :
      (best : Option (PaneId × ℕ × ℕ)) (p : PaneId) (r : Rect)
      → (p =? target) ≡ false
      → open_test best r ≡ true
      → Turn best (p, r)
  unfolding consider better open_test
  taken best p r other test =
      takes p (distance d me r) (shared_edge d me r) (ground (arith, score-rates d me r))
        (record {
          pane_eq = refl;
          candidate = record {
            other = other;
            on_side = ground (arith, score-rates d me r);
            shares = ground (arith, score-rates d me r);
          };
          gap_eq = refl;
          overlap_eq = refl;
        })
        (λ q h k b. ground (arith, score-rates d me r))

  turn : (best : Option (PaneId × ℕ × ℕ)) (entry : PaneId × Rect) → Turn best entry
  turn best (p, r) = elim (Bool-cases (p =? target)) [
    | inl same ↦ skipped best p r (inl same)
    | inr other ↦ elim (Bool-cases (open_test best r)) [
      | inl passes ↦ taken best p r other passes
      | inr fails ↦ skipped best p r (inr fails)
    ]
  ]

  Beats-trans :
      (a b c : ℕ × ℕ) → Beats a.0 a.1 b.0 b.1 → Beats b.0 b.1 c.0 c.1 → Beats a.0 a.1 c.0 c.1
  Beats-trans a b c h k = ground arith

  -- What the loop ends with: nothing, if there was no candidate; or the best so far or a
  -- candidate, which beats the best so far and every candidate.
  data Outcome (best : Option (PaneId × ℕ × ℕ)) (rest : List (PaneId × Rect)) : Type 0 where
    nothing :
        nearest target d me best rest ≡ none
        → best ≡ none
        → All (λ entry. ¬ IsCandidate entry) rest
        → Outcome best rest
    winner :
        (p : PaneId) (gap overlap : ℕ)
        → nearest target d me best rest ≡ some (p, gap, overlap)
        → (best ≡ some (p, gap, overlap)) ⊎ Any (IsScored p gap overlap) rest
        → ((q : PaneId) (h k : ℕ) → best ≡ some (q, h, k) → Beats gap overlap h k)
        → All (Tops gap overlap) rest
        → Outcome best rest

  nearest-nil : (best : Option (PaneId × ℕ × ℕ)) → nearest target d me best [] ≡ best
  unfolding nearest
  nearest-nil best = refl

  IsScored-eq :
      (entry : PaneId × Rect) (p q : PaneId) (a b : ℕ × ℕ)
      → IsScored p a.0 a.1 entry
      → found p a.0 a.1 ≡ found q b.0 b.1
      → IsScored q b.0 b.1 entry
  IsScored-eq entry p q a b s same = record {
    pane_eq = cc s.pane_eq;
    candidate = s.candidate;
    gap_eq = ground (arith, s.gap_eq);
    overlap_eq = ground (arith, s.overlap_eq);
  }

  later :
      {best won : Option (PaneId × ℕ × ℕ)} (S : PaneId × Rect → Type 0)
      (rest : List (PaneId × Rect)) (entry : PaneId × Rect)
      → (best ≡ won) ⊎ Any S rest
      → (best ≡ won) ⊎ Any S (entry ∷ rest)
  later S rest entry (inl b) = inl b
  later S rest entry (inr a) = inr (inr a)

  behind :
      (best : Option (PaneId × ℕ × ℕ)) (entry : PaneId × Rect) (gap overlap : ℕ)
      → (best ≡ none → ¬ IsCandidate entry)
      → ((q : PaneId) (h k : ℕ) → best ≡ some (q, h, k) → Tops h k entry)
      → ((q : PaneId) (h k : ℕ) → best ≡ some (q, h, k) → Beats gap overlap h k)
      → Tops gap overlap entry
  behind none entry gap overlap empty tops beats c = absurd (empty refl c)
  behind (some (q, h, k)) entry gap overlap empty tops beats c =
      Beats-trans (gap, overlap) (h, k) ((distance d me entry.1), (shared_edge d me entry.1))
        (beats q h k refl) (tops q h k refl c)

  loop_skip :
      (best : Option (PaneId × ℕ × ℕ)) (entry : PaneId × Rect) (rest : List (PaneId × Rect))
      → consider target d me best entry ≡ best
      → (best ≡ none → ¬ IsCandidate entry)
      → ((q : PaneId) (h k : ℕ) → best ≡ some (q, h, k) → Tops h k entry)
      → Outcome best rest
      → Outcome best (entry ∷ rest)
  unfolding nearest
  loop_skip best entry rest keep empty tops (nothing e' b all) =
      nothing (rw keep e') b (empty b, all)
  loop_skip best entry rest keep empty tops (winner p gap overlap e' origin beats all) =
      winner p gap overlap (rw keep e') (later (IsScored p gap overlap) rest entry origin) beats
        (behind best entry gap overlap empty tops beats, all)

  loop_take :
      (best : Option (PaneId × ℕ × ℕ)) (entry : PaneId × Rect) (rest : List (PaneId × Rect))
      (p : PaneId) (gap overlap : ℕ)
      → consider target d me best entry ≡ some (p, gap, overlap)
      → IsScored p gap overlap entry
      → ((q : PaneId) (h k : ℕ) → best ≡ some (q, h, k) → Beats gap overlap h k)
      → Outcome (some (p, gap, overlap)) rest
      → Outcome best (entry ∷ rest)
  unfolding nearest
  loop_take best entry rest p gap overlap new scored beats (nothing e' b all) = cc
  loop_take best entry rest p gap overlap new scored beats (winner q g o e' origin over all) =
      winner q g o (rw new e') (inr (here-or-later origin))
        (λ q' h k b. Beats-trans (g, o) (gap, overlap) (h, k) first (beats q' h k b))
        (λ c. rw (scored.gap_eq, scored.overlap_eq) first, all)
    where
      first : Beats g o gap overlap
      first = over p gap overlap refl

      here-or-later :
          (found p gap overlap ≡ found q g o) ⊎ Any (IsScored q g o) rest
          → IsScored q g o entry ⊎ Any (IsScored q g o) rest
      here-or-later (inl same) = inl (IsScored-eq entry p q (gap, overlap) (g, o) scored same)
      here-or-later (inr more) = inr more

  step :
      (best : Option (PaneId × ℕ × ℕ)) (entry : PaneId × Rect) (rest : List (PaneId × Rect))
      → Turn best entry
      → ((b : Option (PaneId × ℕ × ℕ)) → Outcome b rest)
      → Outcome best (entry ∷ rest)
  step best entry rest (skips keep empty tops) ih =
      loop_skip best entry rest keep empty tops (ih best)
  step best entry rest (takes p gap overlap new scored beats) ih =
      loop_take best entry rest p gap overlap new scored beats (ih (some (p, gap, overlap)))

  outcome : (best : Option (PaneId × ℕ × ℕ)) (rest : List (PaneId × Rect)) → Outcome best rest
  outcome none [] = nothing (nearest-nil none) refl tt
  outcome (some (p, gap, overlap)) [] =
      winner p gap overlap (nearest-nil _) (inl refl) (λ q h k b. ground arith) tt
  outcome best (entry ∷ rest) = step best entry rest (turn best entry) (λ b. outcome b rest)

-- What `neighbor` answers, in terms of the rectangles of the layout.
abbrev pub Answers :
    {PaneId : Type 0} ⦃e : Eq PaneId⦄
    → PaneId
    → Direction
    → List (PaneId × Rect)
    → Option Rect
    → Option PaneId
    → Type 0
Answers target d rects none answer = answer ≡ none
Answers target d rects (some me) none = All (λ entry. ¬ IsCandidate target d me entry) rects
Answers target d rects (some me) (some p) =
    (gap overlap : ℕ) × Any (IsScored target d me p gap overlap) rects
    × All (Tops target d me gap overlap) rects

module _ {Num PaneId : Type 0} ⦃e : Eq PaneId⦄ ⦃f : Float Num⦄ where
  -- `neighbor` answers none for a pane that the layout does not hold, and where no other pane lies
  -- on the side of the direction and has a row of cells (for above and below: a column) in common
  -- with it; else it answers such a pane, and no such pane is fewer cells away, nor as many with more
  -- rows or columns in common.
  pub neighbor-Answers :
      (t : LayoutNode Num PaneId) (target : PaneId) (d : Direction) (bounds : Rect)
      → let rects = compute_rects t bounds in
        Answers target d rects (rect_of target rects) (neighbor t target d bounds)
  unfolding neighbor
  neighbor-Answers t target d bounds =
      answer (compute_rects t bounds) (rect_of target (compute_rects t bounds))
    where
      picked :
          (rects : List (PaneId × Rect)) (me : Rect)
          → Outcome target d me none rects
          → Answers target d rects (some me) (first_of_best (nearest target d me none rects))
      picked rects me (nothing e' _ all) = rw e' all
      picked rects me (winner p gap overlap e' (inl b) beats all) = cc
      picked rects me (winner p gap overlap e' (inr any) beats all) = rw e' (gap, overlap, any, all)

      answer :
          (rects : List (PaneId × Rect)) (mine : Option Rect)
          → Answers target d rects mine
              (elim mine [ none ↦ none | some me ↦ first_of_best (nearest target d me none rects) ])
      answer rects none = refl
      answer rects (some me) = picked rects me (outcome target d me none rects)
