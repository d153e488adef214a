-- ===== src/TearCore/Blocks/Lookup.antt =====
-- Over any stream, the block extractor of tear-core/src/blocks.rs stays orderly, and finds a block by
-- its index.
use tear.Base.{
  ℕ, suc, ◌-◌, ◌<◌, List, [], ◌∷◌, Option, none, ltb, get_elem?, ◌==◌, ◌≡◌, refl, inl, inr, arith,
  Bool-cases, if◌then◌else◌,
}
use tear.Base.Int.{ℤ}
use tear.TearTypes.Pane.{Yurai, is_unknown}
use tear.TearCore.Blocks.{Block, BlockExtractor, with_output_cap, stamp_yurai, set_cwd_from_osc7}
use tear.TearCore.Blocks.{
  Event, printed, raw, marked, stamped, moved, handle, handle_all, get_block,
}
use tear.TearCore.Blocks.Orderly.{Numbered, IsOrderly, on_print-IsOrderly, on_raw_byte-IsOrderly}
use tear.TearCore.Blocks.Marking.{on_osc_133-IsOrderly}

with_output_cap-IsOrderly :
    (most output_limit : ℕ) → 0 < most → IsOrderly (with_output_cap most output_limit)
unfolding with_output_cap
with_output_cap-IsOrderly most output_limit h = record {
  oldest = 0;
  numbered = tt;
  counted = omega arith;
  few = omega arith;
  some_cap = h;
  short = tt;
  running = refl;
}

-- The provenance and the directory do not count.
same-IsOrderly :
    (x : BlockExtractor) (y : Yurai) (cwd : Option (List ℕ))
    → IsOrderly x
    → IsOrderly (record x { yurai = y; current_cwd = cwd })
same-IsOrderly x y cwd v = record {
  oldest = v.oldest;
  numbered = v.numbered;
  counted = v.counted;
  few = v.few;
  some_cap = v.some_cap;
  short = v.short;
  running = v.running;
}

stamp_yurai-IsOrderly :
    (y : Yurai) {x : BlockExtractor} → IsOrderly x → IsOrderly (stamp_yurai y x).0
unfolding stamp_yurai
stamp_yurai-IsOrderly y {x} v = elim (Bool-cases (is_unknown x.yurai)) [
  | inl e ↦ rw (e, stamp_yurai) (same-IsOrderly x y x.current_cwd v)
  | inr e ↦ rw (e, stamp_yurai) v
]

handle-IsOrderly :
    (parse : List ℕ → Option ℤ) (event : Event) {x : BlockExtractor}
    → IsOrderly x
    → IsOrderly (handle parse event x)
unfolding handle set_cwd_from_osc7
handle-IsOrderly parse (printed c) v = on_print-IsOrderly c v
handle-IsOrderly parse (raw b) v = on_raw_byte-IsOrderly b v
handle-IsOrderly parse (marked now marker) v = on_osc_133-IsOrderly parse now marker v
handle-IsOrderly parse (stamped y) v = stamp_yurai-IsOrderly y v
handle-IsOrderly parse (moved path) {x} v = same-IsOrderly x x.yurai _ v

handle_all-IsOrderly :
    (parse : List ℕ → Option ℤ) (events : List Event) {x : BlockExtractor}
    → IsOrderly x
    → IsOrderly (handle_all parse events x)
unfolding handle_all
handle_all-IsOrderly parse [] v = v
handle_all-IsOrderly parse (event ∷ events) v =
    handle_all-IsOrderly parse events (handle-IsOrderly parse event v)

get_block-Numbered :
    (i k : ℕ) (blocks : List Block)
    → Numbered k blocks
    → get_block i blocks ≡ (if ltb i k then none else get_elem? blocks (i - k))
unfolding get_block
get_block-Numbered i k [] h = ground arith
get_block-Numbered i k (b ∷ blocks) h =
    let rest = get_block-Numbered i (suc k) blocks h.1 in
    let index = h.0 in
    elim (Bool-cases (ltb i k)) [
      | inl e ↦ ground arith
      | inr e ↦ elim (Bool-cases (k == i)) [
        | inl f ↦ let place : i - k ≡ 0 = ground arith in rw place (ground arith)
        | inr f ↦ let place : i - k ≡ suc (i - suc k) = ground arith in rw place (ground arith)
      ]
    ]

-- An extractor with a cap that is not 0, after any stream of characters, bytes, marks and paths: no
-- more blocks are kept than the cap; their indices go up one by one, the block that is open has the
-- next one, and a block is open just when the phase is not the idle one; no output, of an ended
-- block or of the open one, is longer than the output cap; and the block of an index is found where
-- it is still kept, by its place behind the oldest, and no block otherwise.
pub handle_all_outcome :
    (parse : List ℕ → Option ℤ) (most output_limit : ℕ) (events : List Event)
    → 0 < most
    → (v : IsOrderly (handle_all parse events (with_output_cap most output_limit))) × ((i : ℕ)
        → get_block i (handle_all parse events (with_output_cap most output_limit)).blocks ≡ (
            if ltb i v.oldest
            then none
            else get_elem?
                (handle_all parse events (with_output_cap most output_limit)).blocks
                (i - v.oldest)))
handle_all_outcome parse most output_limit events h =
    let v = handle_all-IsOrderly parse events (with_output_cap-IsOrderly most output_limit h) in
    (
      v,
      λ i.
          get_block-Numbered i v.oldest
            (handle_all parse events (with_output_cap most output_limit)).blocks v.numbered,
    )
