-- ===== src/TearCore/Blocks/Tests.antt =====
-- The block extractor of tear-core/src/blocks.rs at concrete inputs.
use tear.Base.{
  ℕ, ◌-◌, List, [], ◌∷◌, ◌++◌, map, Option, none, some, ◌≡◌, refl, arith, ltb, get_elem?,
  if◌then◌else◌,
}
use tear.Base.Int.{ℤ, pos}
use tear.TearCore.Blocks.{Event, printed, raw, marked, handle_all, with_output_cap, get_block}
use tear.TearCore.Blocks.Orderly.{IsOrderly}
use tear.TearCore.Blocks.Lookup.{handle_all_outcome}

-- A digit as an exit code.
abbrev digit : List ℕ → Option ℤ
digit [] = none
digit (c ∷ text) = some (pos (c - 48))

abbrev command_of : ℕ → List Event
command_of c =
    marked 1 (65 ∷ [])
    ∷ (marked 2 (66 ∷ [])
        ∷ (printed c
            ∷ (marked 3 (67 ∷ [])
                ∷ (printed 111 ∷ (raw 10 ∷ (marked 4 (68 ∷ (59 ∷ (48 ∷ []))) ∷ []))))))

-- Three commands, and room for two.
abbrev three_commands : List Event
three_commands = command_of 97 ++ (command_of 98 ++ command_of 99)

kept_blocks :
    map {B = ℕ × List ℕ × List ℕ × Option ℤ}
      (λ b. (b.index, b.command, b.output, b.exit_code))
      (handle_all digit three_commands (with_output_cap 2 100)).blocks
    ≡ (1, 98 ∷ [], 111 ∷ (10 ∷ []), some (pos 0))
      ∷ ((2, 99 ∷ [], 111 ∷ (10 ∷ []), some (pos 0)) ∷ [])
unfolding handle_all with_output_cap
kept_blocks = refl

handle_all_outcome_example :
    (v : IsOrderly (handle_all digit three_commands (with_output_cap 2 100))) × ((i : ℕ)
      → get_block i (handle_all digit three_commands (with_output_cap 2 100)).blocks ≡ (
          if ltb i v.oldest
          then none
          else get_elem?
              (handle_all digit three_commands (with_output_cap 2 100)).blocks
              (i - v.oldest)))
handle_all_outcome_example = handle_all_outcome digit 2 100 three_commands (omega arith)
