-- ===== src/TearCore/Blocks/Orderly.antt =====
-- What holds of the block extractor of tear-core/src/blocks.rs at all times: the blocks are no more
-- than the cap, their indices go up one by one, and no output is longer than its cap.
use tear.Base.{
  ℕ, suc, ◌+◌, ◌≤◌, ◌<◌, List, [], ◌∷◌, ◌++◌, Option, none, some, length, leb, ◌≡◌, ◌≢◌, refl,
  subst, ap, ◌∙◌, sym, inl, inr, arith, All, Bool-cases, leb→le,
}
use tear.TearCore.Blocks.{
  Block, Phase, idle, in_prompt, in_command, in_output, BlockExtractor, byte_len, len_utf8,
  push_bounded, put_output, print_into, on_print, raw_into, on_raw_byte,
}

-- Blocks whose indices go up one by one.
abbrev pub Numbered : ℕ → List Block → Type 0
Numbered k [] = Unit
Numbered k (b ∷ blocks) = (b.index ≡ k) × Numbered (suc k) blocks

-- What holds of the block that is open: it has the last index that was given, and its phase is its
-- own.
abbrev pub IsOpen : ℕ → ℕ → Phase → Option Block → Type 0
IsOpen next_index output_cap phase none = phase ≡ idle
IsOpen next_index output_cap phase (some b) =
    (phase ≢ idle) × (b.index + 1 ≡ next_index) × (byte_len b.output ≤ output_cap)

abbrev pub count_open : Option Block → ℕ
count_open none = 0
count_open (some b) = 1

pub record IsOrderly (x : BlockExtractor) : Type 0 where
  pub oldest : ℕ
  pub numbered : Numbered oldest x.blocks
  pub counted : oldest + length x.blocks + count_open x.current ≡ x.next_index
  pub few : length x.blocks ≤ x.cap
  pub some_cap : 0 < x.cap
  pub short : All (λ (b : Block). byte_len b.output ≤ x.output_cap) x.blocks
  pub running : IsOpen x.next_index x.output_cap x.phase x.current

pub Numbered-append :
    (k : ℕ) (blocks : List Block) (b : Block)
    → Numbered k blocks
    → b.index ≡ k + length blocks
    → Numbered k (blocks ++ (b ∷ []))
Numbered-append k [] b h e = (omega arith, tt)
Numbered-append k (c ∷ blocks) b h e = (h.0, Numbered-append (suc k) blocks b h.1 (omega arith))

byte_len-append : (s t : List ℕ) → byte_len (s ++ t) ≡ byte_len s + byte_len t
byte_len-append [] t = omega arith
byte_len-append (c ∷ s) t = omega (arith, byte_len-append s t)

-- No append to an output goes past its cap, and it loses no count: what is not put is dropped.
put_output-short :
    (limit c : ℕ) (b : Block)
    → byte_len b.output ≤ limit
    → byte_len (put_output limit c b).output ≤ limit
unfolding push_bounded
put_output-short limit c b h = elim (Bool-cases (leb (byte_len b.output + len_utf8 c) limit)) [
  | inl e ↦ rw e (
      omega
        (arith, byte_len-append b.output (c ∷ []), leb→le (byte_len b.output + len_utf8 c) limit e))
  | inr e ↦ rw e h
]

print_into-index :
    (limit c : ℕ) (phase : Phase) (b : Block)
    → byte_len b.output ≤ limit
    → ((print_into limit c phase b).index ≡ b.index)
      × (byte_len (print_into limit c phase b).output ≤ limit)
unfolding print_into
print_into-index limit c in_prompt b h = (refl, h)
print_into-index limit c in_command b h = (refl, h)
print_into-index limit c in_output b h = (refl, put_output-short limit c b h)
print_into-index limit c idle b h = (refl, h)

raw_into-index :
    (limit c : ℕ) (phase : Phase) (b : Block)
    → byte_len b.output ≤ limit
    → ((raw_into limit c phase b).index ≡ b.index)
      × (byte_len (raw_into limit c phase b).output ≤ limit)
unfolding raw_into
raw_into-index limit c in_prompt b h = (refl, h)
raw_into-index limit c in_command b h = (refl, h)
raw_into-index limit c in_output b h = (refl, put_output-short limit c b h)
raw_into-index limit c idle b h = (refl, h)

-- A change of the block that is open which leaves its index.
rewritten :
    (x : BlockExtractor) (b new : Block) (v : IsOrderly x)
    → x.current ≡ some b
    → new.index ≡ b.index
    → byte_len new.output ≤ x.output_cap
    → IsOrderly (record x { current = some new })
rewritten x b new v e i h = record {
  oldest = v.oldest;
  numbered = v.numbered;
  counted = ap (λ o. v.oldest + length x.blocks + count_open o) (sym e) ∙ v.counted;
  few = v.few;
  some_cap = v.some_cap;
  short = v.short;
  running = let was = open_now in (was.0, omega arith, h);
}
  where
    open_now : IsOpen x.next_index x.output_cap x.phase (some b)
    open_now = subst (IsOpen x.next_index x.output_cap x.phase) e v.running

pub on_print-IsOrderly : (c : ℕ) {x : BlockExtractor} → IsOrderly x → IsOrderly (on_print c x)
unfolding on_print
on_print-IsOrderly c {x} v = by_current x.current refl
  where
    by_current :
        (o : Option Block)
        → x.current ≡ o
        → IsOrderly (elim o [
          | none ↦ x
          | some b ↦ record x { current = some (print_into x.output_cap c x.phase b) }
        ])
    by_current none e = v
    by_current (some b) e =
        let was : IsOpen x.next_index x.output_cap x.phase (some b) =
          subst (IsOpen x.next_index x.output_cap x.phase) e v.running in
        let (same, short) = print_into-index x.output_cap c x.phase b was.2 in
        rewritten x b (print_into x.output_cap c x.phase b) v e same short

pub on_raw_byte-IsOrderly : (c : ℕ) {x : BlockExtractor} → IsOrderly x → IsOrderly (on_raw_byte c x)
unfolding on_raw_byte
on_raw_byte-IsOrderly c {x} v = by_current x.current refl
  where
    by_current :
        (o : Option Block)
        → x.current ≡ o
        → IsOrderly (elim o [
          | none ↦ x
          | some b ↦ record x { current = some (raw_into x.output_cap c x.phase b) }
        ])
    by_current none e = v
    by_current (some b) e =
        let was : IsOpen x.next_index x.output_cap x.phase (some b) =
          subst (IsOpen x.next_index x.output_cap x.phase) e v.running in
        let (same, short) = raw_into-index x.output_cap c x.phase b was.2 in
        rewritten x b (raw_into x.output_cap c x.phase b) v e same short
