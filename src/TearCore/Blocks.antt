-- ===== src/TearCore/Blocks.antt =====
-- tear-core/src/blocks.rs: the commands of a pane as blocks, cut out of its output by the shell's
-- OSC 133 marks. A text is the list of its characters, a character its code point.
pub mod Orderly
pub mod Marking
pub mod Lookup
mod Tests
use tear.Base.{
  ℕ, ◌+◌, Bool, true, false, List, [], ◌∷◌, ◌++◌, Option, none, some, if◌then◌else◌, ltb, leb, ◌==◌,
  ◌≡◌, length, is_some,
}
use tear.Base.Int.{ℤ}
use tear.TearTypes.Pane.{Yurai, unknown, is_unknown}

-- tear-types' `Block`
pub record Block : Type 0 where
  pub index : ℕ
  pub prompt : List ℕ
  pub command : List ℕ
  pub output : List ℕ
  pub output_dropped_bytes : ℕ
  pub exit_code : Option ℤ
  pub started_at : ℕ
  pub ended_at : Option ℕ
  pub cwd : Option (List ℕ)
  pub yurai : Yurai

pub data Phase : Type 0 where
  idle in_prompt in_command in_output : Phase

pub record BlockExtractor : Type 0 where
  pub blocks : List Block
  pub cap : ℕ
  pub output_cap : ℕ
  pub current : Option Block
  pub phase : Phase
  pub next_index : ℕ
  pub current_cwd : Option (List ℕ)
  pub yurai : Yurai

-- `char::len_utf8`
abbrev pub len_utf8 : ℕ → ℕ
len_utf8 c = if ltb c 128 then 1 else if ltb c 2048 then 2 else if ltb c 65536 then 3 else 4

-- `String::len`
abbrev pub byte_len : List ℕ → ℕ
byte_len [] = 0
byte_len (c ∷ text) = len_utf8 c + byte_len text

-- `push_bounded`: the text, and the bytes that were dropped.
unfoldable pub push_bounded : List ℕ → ℕ → ℕ → ℕ → List ℕ × ℕ
push_bounded out dropped limit c =
    if leb (byte_len out + len_utf8 c) limit
    then (out ++ (c ∷ []), dropped)
    else (out, dropped + len_utf8 c)

-- `BlockExtractor::with_output_cap`
unfoldable pub with_output_cap : ℕ → ℕ → BlockExtractor
with_output_cap most output_limit = record {
  blocks = [];
  cap = most;
  output_cap = output_limit;
  current = none;
  phase = idle;
  next_index = 0;
  current_cwd = none;
  yurai = unknown;
}

-- `BlockExtractor::stamp_yurai`: the first provenance stays.
unfoldable pub stamp_yurai : Yurai → BlockExtractor → BlockExtractor × Bool
stamp_yurai y x = if is_unknown x.yurai then (record x { yurai = y }, true) else (x, false)

-- `str::strip_prefix`
abbrev pub strip_prefix : List ℕ → List ℕ → Option (List ℕ)
strip_prefix [] text = some text
strip_prefix (p ∷ prefix) [] = none
strip_prefix (p ∷ prefix) (c ∷ text) = if p == c then strip_prefix prefix text else none

-- The text from its first slash on.
abbrev pub from_slash : List ℕ → Option (List ℕ)
from_slash [] = none
from_slash (c ∷ text) = if c == 47 then some (c ∷ text) else from_slash text

abbrev pub file_scheme : List ℕ
file_scheme = 102 ∷ (105 ∷ (108 ∷ (101 ∷ (58 ∷ (47 ∷ (47 ∷ []))))))

-- `BlockExtractor::set_cwd_from_osc7`
unfoldable pub set_cwd_from_osc7 : List ℕ → BlockExtractor → BlockExtractor
set_cwd_from_osc7 raw x =
    let path : List ℕ = elim (strip_prefix file_scheme raw) [
      | none ↦ raw
      | some rest ↦ elim (from_slash rest) [ none ↦ raw | some path ↦ path ]
    ] in
    record x { current_cwd = some path }

-- `BlockExtractor::get`
unfoldable pub get_block : ℕ → List Block → Option Block
get_block index [] = none
get_block index (b ∷ blocks) = if b.index == index then some b else get_block index blocks

-- One more character of output, within the cap.
abbrev pub put_output : ℕ → ℕ → Block → Block
put_output limit c b =
    let pushed = push_bounded b.output b.output_dropped_bytes limit c in
    record b { output = pushed.0; output_dropped_bytes = pushed.1 }

-- `BlockExtractor::on_print` on the block that is open.
unfoldable pub print_into : ℕ → ℕ → Phase → Block → Block
unfolding push_bounded
print_into limit c in_prompt b = record b { prompt = b.prompt ++ (c ∷ []) }
print_into limit c in_command b = record b { command = b.command ++ (c ∷ []) }
print_into limit c in_output b = put_output limit c b
print_into limit c idle b = b

-- `BlockExtractor::on_print`
unfoldable pub on_print : ℕ → BlockExtractor → BlockExtractor
unfolding print_into
on_print c x = elim x.current [
  | none ↦ x
  | some b ↦ record x { current = some (print_into x.output_cap c x.phase b) }
]

-- `BlockExtractor::on_raw_byte` on the block that is open.
unfoldable pub raw_into : ℕ → ℕ → Phase → Block → Block
unfolding push_bounded
raw_into limit c in_output b = put_output limit c b
raw_into limit c in_prompt b = b
raw_into limit c in_command b = b
raw_into limit c idle b = b

unfoldable pub on_raw_byte : ℕ → BlockExtractor → BlockExtractor
unfolding raw_into
on_raw_byte c x = elim x.current [
  | none ↦ x
  | some b ↦ record x { current = some (raw_into x.output_cap c x.phase b) }
]

-- `VecDeque::pop_front`
abbrev pub pop_front : List Block → List Block
pop_front [] = []
pop_front (b ∷ blocks) = blocks

-- `BlockExtractor::finalize_current`
unfoldable pub finalize_current : Option ℤ → ℕ → BlockExtractor → BlockExtractor
finalize_current exit_code now x = elim x.current [
  | none ↦ x
  | some b ↦ record x {
    current = none;
    blocks =
        (if length x.blocks == x.cap then pop_front x.blocks else x.blocks)
        ++ (record b { exit_code = exit_code; ended_at = some now } ∷ []);
    phase = idle;
  }
]

-- The block that `BlockExtractor::start_prompt` opens.
abbrev pub open_block : ℕ → BlockExtractor → BlockExtractor
open_block now x = record x {
  current = some (record {
    index = x.next_index;
    prompt = [];
    command = [];
    output = [];
    output_dropped_bytes = 0;
    exit_code = none;
    started_at = now;
    ended_at = none;
    cwd = x.current_cwd;
    yurai = x.yurai;
  });
  next_index = x.next_index + 1;
  phase = in_prompt;
}

-- `BlockExtractor::start_prompt`
unfoldable pub start_prompt : ℕ → BlockExtractor → BlockExtractor
unfolding finalize_current
start_prompt now x = open_block now (if is_some x.current then finalize_current none now x else x)

-- `BlockExtractor::start_command` and `BlockExtractor::start_output`
unfoldable pub start_command : BlockExtractor → BlockExtractor
start_command x = if is_some x.current then record x { phase = in_command } else x

unfoldable pub start_output : BlockExtractor → BlockExtractor
start_output x = if is_some x.current then record x { phase = in_output } else x

-- What stands behind the first semicolon, up to the second.
abbrev pub until_semicolon : List ℕ → List ℕ
until_semicolon [] = []
until_semicolon (c ∷ text) = if c == 59 then [] else c ∷ until_semicolon text

abbrev pub second_part : List ℕ → Option (List ℕ)
second_part [] = none
second_part (c ∷ text) = if c == 59 then some (until_semicolon text) else second_part text

-- `parse_exit_code`; `parse` stands for the trimming and the parsing of an `i32`.
unfoldable pub parse_exit_code : (List ℕ → Option ℤ) → List ℕ → Option ℤ
parse_exit_code parse marker = elim (second_part marker) [ none ↦ none | some s ↦ parse s ]

abbrev pub first_char : List ℕ → ℕ
first_char [] = 32
first_char (c ∷ text) = c

-- `BlockExtractor::on_osc_133`
unfoldable pub on_osc_133 : (List ℕ → Option ℤ) → ℕ → List ℕ → BlockExtractor → BlockExtractor
unfolding start_prompt start_command start_output finalize_current parse_exit_code
on_osc_133 parse now marker x =
    let kind = first_char marker in
    if kind == 65
    then start_prompt now x
    else if kind == 66
    then start_command x
    else if kind == 67
    then start_output x
    else if kind == 68
    then finalize_current (parse_exit_code parse marker) now x
    else x

-- What a pane's stream does to its extractor: a character, a byte that is none, a mark with the time,
-- the pane's provenance, a directory.
pub data Event : Type 0 where
  printed raw : ℕ → Event
  marked : ℕ → List ℕ → Event
  stamped : Yurai → Event
  moved : List ℕ → Event

unfoldable pub handle : (List ℕ → Option ℤ) → Event → BlockExtractor → BlockExtractor
unfolding on_print on_raw_byte on_osc_133 stamp_yurai set_cwd_from_osc7
handle parse (printed c) x = on_print c x
handle parse (raw b) x = on_raw_byte b x
handle parse (marked now marker) x = on_osc_133 parse now marker x
handle parse (stamped y) x = (stamp_yurai y x).0
handle parse (moved path) x = set_cwd_from_osc7 path x

unfoldable pub handle_all : (List ℕ → Option ℤ) → List Event → BlockExtractor → BlockExtractor
unfolding handle
handle_all parse [] x = x
handle_all parse (event ∷ events) x = handle_all parse events (handle parse event x)
