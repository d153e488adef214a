-- ===== src/TearCore/Blocks/Marking.antt =====
-- The marks of tear-core/src/blocks.rs keep the extractor orderly: a block opens, changes its phase
-- and ends, and the oldest block leaves at the cap.
use tear.Base.{
  ℕ, suc, ◌+◌, ◌≤◌, ◌<◌, true, false, List, [], ◌∷◌, ◌++◌, Option, none, some, length, ◌==◌, ◌≡◌,
  ◌≢◌, refl, subst, ap, ◌∙◌, sym, inl, inr, arith, All, All-append, length-append, Bool-cases,
  if_both, if◌then◌else◌, is_some,
}
use tear.Base.Int.{ℤ}
use tear.TearCore.Blocks.{
  Block, Phase, idle, in_command, in_output, BlockExtractor, byte_len, pop_front, finalize_current,
  open_block, start_prompt, start_command, start_output, parse_exit_code, first_char, on_osc_133,
}
use tear.TearCore.Blocks.Orderly.{Numbered, IsOpen, count_open, IsOrderly, Numbered-append}

-- What an eviction at the cap leaves.
abbrev trimmed : BlockExtractor → List Block
trimmed x = if length x.blocks == x.cap then pop_front x.blocks else x.blocks

record Trimmed (x : BlockExtractor) (oldest : ℕ) : Type 0 where
  first : ℕ
  numbered : Numbered first (trimmed x)
  same_end : first + length (trimmed x) ≡ oldest + length x.blocks
  room : length (trimmed x) < x.cap
  short : All (λ (b : Block). byte_len b.output ≤ x.output_cap) (trimmed x)

pop_front-Numbered :
    (k : ℕ) (blocks : List Block) → Numbered k blocks → Numbered (suc k) (pop_front blocks)
pop_front-Numbered k [] h = tt
pop_front-Numbered k (b ∷ blocks) h = h.1

length-pop_front :
    (blocks : List Block) → 0 < length blocks → suc (length (pop_front blocks)) ≡ length blocks
length-pop_front [] h = absurd (omega arith)
length-pop_front (b ∷ blocks) h = refl

pop_front-All : (P : Block → Type 0) (blocks : List Block) → All P blocks → All P (pop_front blocks)
pop_front-All P [] h = tt
pop_front-All P (b ∷ blocks) h = h.1

trim : (x : BlockExtractor) (v : IsOrderly x) → Trimmed x v.oldest
trim x v = elim (Bool-cases (length x.blocks == x.cap)) [
  | inr e ↦ record {
    first = v.oldest;
    numbered = rw e v.numbered;
    same_end = rw e refl;
    room = rw e (below e v.few);
    short = rw e v.short;
  }
  | inl e ↦
      let one_less = length-pop_front x.blocks (full e v.some_cap) in
      record {
        first = suc v.oldest;
        numbered = rw e (pop_front-Numbered v.oldest x.blocks v.numbered);
        same_end = rw e (omega arith);
        room = rw e (fits e one_less);
        short =
            rw e (pop_front-All (λ (b : Block). byte_len b.output ≤ x.output_cap) x.blocks v.short);
      }
]
  where
    below : (length x.blocks == x.cap) ≡ false → length x.blocks ≤ x.cap → length x.blocks < x.cap
    below e h = ground arith

    full : (length x.blocks == x.cap) ≡ true → 0 < x.cap → 0 < length x.blocks
    full e h = ground arith

    fits :
        (length x.blocks == x.cap) ≡ true
        → suc (length (pop_front x.blocks)) ≡ length x.blocks
        → length (pop_front x.blocks) < x.cap
    fits e h = ground arith

finalize_current-IsOrderly :
    (exit_code : Option ℤ) (now : ℕ) {x : BlockExtractor}
    → IsOrderly x
    → IsOrderly (finalize_current exit_code now x)
      × ((finalize_current exit_code now x).current ≡ none)
unfolding finalize_current
finalize_current-IsOrderly exit_code now {x} v = by_current x.current refl
  where
    ended : Block → Block
    ended b = record b { exit_code = exit_code; ended_at = some now }

    by_current :
        (o : Option Block)
        → x.current ≡ o
        → (let after : BlockExtractor = elim o [
          | none ↦ x
          | some b ↦ record x {
            current = none;
            blocks = trimmed x ++ (record b { exit_code = exit_code; ended_at = some now } ∷ []);
            phase = idle;
          }
        ] in
            IsOrderly after × (after.current ≡ none))
    by_current none e = (v, e)
    by_current (some b) e =
        let was : IsOpen x.next_index x.output_cap x.phase (some b) =
          subst (IsOpen x.next_index x.output_cap x.phase) e v.running in
        let t = trim x v in
        let counted = ap (λ o. v.oldest + length x.blocks + count_open o) (sym e) ∙ v.counted in
        let last : Block = record b { exit_code = exit_code; ended_at = some now } in
        (
          record {
            oldest = t.first;
            numbered =
                Numbered-append t.first (trimmed x) last t.numbered
                  (omega (arith, t.same_end, was.1));
            counted = omega (arith, t.same_end, was.1, length-append (trimmed x) (last ∷ []));
            few = omega (arith, t.room, length-append (trimmed x) (last ∷ []));
            some_cap = v.some_cap;
            short = All-append _ (trimmed x) (last ∷ []) t.short (was.2, tt);
            running = refl;
          },
          refl,
        )

open_block-IsOrderly :
    (now : ℕ) {x : BlockExtractor} → IsOrderly x → x.current ≡ none → IsOrderly (open_block now x)
open_block-IsOrderly now {x} v e =
    let counted = ap (λ o. v.oldest + length x.blocks + count_open o) (sym e) ∙ v.counted in
    record {
      oldest = v.oldest;
      numbered = v.numbered;
      counted = omega arith;
      few = v.few;
      some_cap = v.some_cap;
      short = v.short;
      running = (λ same. cc, refl, omega arith);
    }

start_prompt-IsOrderly :
    (now : ℕ) {x : BlockExtractor} → IsOrderly x → IsOrderly (start_prompt now x)
unfolding start_prompt
start_prompt-IsOrderly now {x} v = by_current x.current refl
  where
    by_current :
        (o : Option Block)
        → x.current ≡ o
        → IsOrderly (open_block now (if is_some o then finalize_current none now x else x))
    by_current none e = open_block-IsOrderly now v e
    by_current (some b) e =
        let (after, closed) = finalize_current-IsOrderly none now v in
        open_block-IsOrderly now after closed

-- The phase of a block that is open may change.
phase-IsOrderly :
    (phase : Phase) {x : BlockExtractor}
    → phase ≢ idle
    → IsOrderly x
    → IsOrderly (if is_some x.current then record x { phase = phase } else x)
phase-IsOrderly phase {x} moved v = by_current x.current refl
  where
    by_current :
        (o : Option Block)
        → x.current ≡ o
        → IsOrderly (if is_some o then record x { phase = phase } else x)
    by_current none e = v
    by_current (some b) e =
        let was : IsOpen x.next_index x.output_cap x.phase (some b) =
          subst (IsOpen x.next_index x.output_cap x.phase) e v.running in
        record {
          oldest = v.oldest;
          numbered = v.numbered;
          counted = v.counted;
          few = v.few;
          some_cap = v.some_cap;
          short = v.short;
          running = subst (IsOpen x.next_index x.output_cap phase) (sym e) (moved, was.1, was.2);
        }

pub on_osc_133-IsOrderly :
    (parse : List ℕ → Option ℤ) (now : ℕ) (marker : List ℕ) {x : BlockExtractor}
    → IsOrderly x
    → IsOrderly (on_osc_133 parse now marker x)
unfolding on_osc_133 start_command start_output
on_osc_133-IsOrderly parse now marker {x} v =
    if_both IsOrderly (first_char marker == 65) (start_prompt-IsOrderly now v) (
      if_both IsOrderly (first_char marker == 66) (phase-IsOrderly in_command (λ same. cc) v) (
        if_both IsOrderly (first_char marker == 67) (phase-IsOrderly in_output (λ same. cc) v) (
          if_both IsOrderly (first_char marker == 68)
            ((finalize_current-IsOrderly (parse_exit_code parse marker) now v).0) v)))
