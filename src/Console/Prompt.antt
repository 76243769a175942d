-- ===== src/Console/Prompt.antt =====
-- `readPrompt` of packages/cyberlegion/src/console/prompt-guard.ts: what a harness's input box holds, read
-- off a plain-text scrape of its pane.
use Prim.Native.Char.{code}
use cyberlegion.Prelude.{
  ℕ, suc, String, Bool, true, false, not, ◌&&◌, ◌||◌, ◌==◌, nat_eq, ltb, is_some, any, filter,
  length, get_or, if◌then◌else◌, Option, none, some, List, [], ◌∷◌, ◌<>◌, ◌≡◌, refl,
}
use cyberlegion.Prelude.Text.{trim, trim_end}
use cyberlegion.Prelude.Prefix.{after_prefix}
use cyberlegion.Prelude.Rows.{rows_of}
use cyberlegion.Hub.Types.{Harness}

pub data PromptState : Type 0 where
  empty unknown : PromptState
  draft : String → ℕ → PromptState

pub record PromptShape : Type 0 where
  -- the text on the box's first row, where the row is one
  pub head : String → Option String
  pub indent : String
  pub ruled : Bool
  pub placeholder : String → Bool

abbrev codex_placeholders : List String
codex_placeholders =
    "Ask Codex to do anything" ∷ "Explain this codebase" ∷ "Summarize recent commits"
    ∷ "Implement {feature}" ∷ "Find and fix a bug in @filename" ∷ "Write tests for @filename"
    ∷ "Improve documentation in @filename" ∷ "Run /review on my current changes"
    ∷ "Use /skills to list available skills" ∷ []

-- `.` matches no line terminator; a row has no newline, but may have the others.
unfoldable pub one_line : String → Bool
one_line String.[] = true
one_line (String.◌∷◌ c s) =
    let rest = one_line s in
    let ends =
      nat_eq (code c) 10
      || nat_eq (code c) 13
      || nat_eq (code c) 0x2028
      || nat_eq (code c) 0x2029 in
    not ends && rest

unfoldable pub ends_quoted : String → Bool
ends_quoted String.[] = false
ends_quoted (String.◌∷◌ c s) =
    let rest = ends_quoted s in if s == "" then nat_eq (code c) 34 else rest

-- `/^Try ".*"$/`
abbrev try_quoted : Option String → Bool
try_quoted none = false
try_quoted (some rest) = one_line rest && ends_quoted rest

-- After the sign: nothing, or one of the separators and the text.
abbrev after_separator : Option String → Option String → Option String
after_separator (some text) other = if one_line text then some text else none
after_separator none (some text) = if one_line text then some text else none
after_separator none none = none

-- a no-break space
abbrev after_nbsp : String → Option String
after_nbsp String.[] = none
after_nbsp (String.◌∷◌ c s) = if nat_eq (code c) 160 then some s else none

abbrev after_sign : Bool → Option String → Option String
after_sign wide none = none
after_sign wide (some rest) =
    if rest == ""
    then some ""
    else after_separator (after_prefix " " rest) (if wide then after_nbsp rest else none)

abbrev pub shape_of : Harness → PromptShape
shape_of Harness.claude = record {
  head = λ row. after_sign true (after_prefix "❯" row);
  indent = "  ";
  ruled = true;
  placeholder = λ text. try_quoted (after_prefix "Try \"" text);
}
shape_of Harness.codex = record {
  head = λ row. after_sign false (after_prefix "›" row);
  indent = "  ";
  ruled = false;
  placeholder = λ text. any (λ p. p == text) codex_placeholders;
}
shape_of Harness.cursor = record {
  head = λ row. after_sign false (after_prefix "  →" row);
  indent = "    ";
  ruled = false;
  placeholder = λ text. text == "Plan, search, build anything";
}

abbrev max_rows_below : ℕ
max_rows_below = 6

abbrev is_rule : String → Bool
is_rule row = is_some (after_prefix "───" row)

abbrev first_of : List String → String
first_of [] = ""
first_of (row ∷ rows) = row

abbrev blank : String → Bool
blank row = trim row == ""

-- The rows of the box below its first, unindented, and the rows after them.
box_rows : String → List String → List String × List String
box_rows indent [] = ([], [])
box_rows indent (row ∷ rows) =
    let rest = box_rows indent rows in
    elim (after_prefix indent row) [
      | none ↦ ([], row ∷ rows)
      | some text ↦ if blank row then ([], row ∷ rows) else (trim_end text ∷ rest.0, rest.1)
    ]

-- What must stand below the box.
abbrev is_closed : PromptShape → List String → Bool
is_closed shape below =
    if shape.ruled
    then is_rule (first_of below)
    else blank (first_of below)
      && not (ltb max_rows_below (length (filter (λ r. not (blank r)) below)))

abbrev joined : String → List String → String
joined line [] = line
joined line (l ∷ ls) = line <> "\n" <> joined l ls

abbrev box_state : PromptShape → String → List String → PromptState
box_state shape line more =
    let text = joined line more in
    if text == "" || (nat_eq (length more) 0 && shape.placeholder text)
    then PromptState.empty
    else PromptState.draft text (suc (length more))

abbrev read_box : PromptShape → String → List String × List String → Option PromptState
read_box shape line rows =
    if is_closed shape rows.1 then some (box_state shape line rows.0) else none

abbrev read_row : PromptShape → String → Option String → List String → Option PromptState
read_row shape before none below = none
read_row shape before (some text) below =
    if shape.ruled && not (is_rule before)
    then none
    else read_box shape (trim_end text) (box_rows shape.indent below)

-- The lowest row that opens a box; `before` is the row above the first one given.
read_rows : PromptShape → String → List String → Option PromptState
unfolding box_rows
read_rows shape before [] = none
read_rows shape before (row ∷ below) =
    let later = read_rows shape row below in
    elim later [ some state ↦ some state | none ↦ read_row shape before (shape.head row) below ]

unfoldable pub read_shape : List String → PromptShape → PromptState
unfolding read_rows
read_shape rows shape = get_or (read_rows shape "" rows) PromptState.unknown

-- A harness that is not known is tried as each.
unfoldable pub read_prompt : String → Option Harness → PromptState
read_prompt screen (some harness) = read_shape (rows_of screen) (shape_of harness)
read_prompt screen none = elim (read_shape (rows_of screen) (shape_of Harness.claude)) [
  | PromptState.unknown ↦ elim (read_shape (rows_of screen) (shape_of Harness.codex)) [
    | PromptState.unknown ↦ read_shape (rows_of screen) (shape_of Harness.cursor)
    | other ↦ other
  ]
  | other ↦ other
]

codex_draft :
    read_prompt "log\n› hi\n  there\n\n  footer" (some Harness.codex)
    ≡ PromptState.draft "hi\nthere" 2
unfolding read_prompt read_shape rows_of after_prefix one_line trim trim_end
codex_draft = refl
