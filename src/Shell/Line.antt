-- ===== src/Shell/Line.antt =====
-- How lab_shell/my_shell.c reads a line: `tokenize`, and the loop of `main` that cuts the tokens
-- at `&&` and `|`. The blocks that hold the tokens are lists, and a write beyond a block is
-- `none`, or the action `overrun`.
pub mod Tokens
pub mod Commands
pub mod Slots
mod Tests
use cs.Base.{
  ℕ, ◌+◌, ◌-◌, Bool, true, false, ◌||◌, ◌&&◌, Option, none, some, List, [], ◌∷◌, ◌++◌, ◌==◌, ltb,
  leb, if◌then◌else◌, length, Bytes, eq_bytes,
}

abbrev pub max_token_size : ℕ
max_token_size = 64

abbrev pub max_num_tokens : ℕ
max_num_tokens = 64

-- A space, a newline or a tab.
unfoldable pub is_separator : ℕ → Bool
is_separator b = (b == 32) || (b == 10) || (b == 9)

-- `token`, up to `tokenIndex`, and `tokens`, up to `tokenNo`.
pub record Scan : Type 0 where
  pub token : Bytes
  pub tokens : List Bytes

-- `tokens[tokenNo++] = token`, unless the token is empty.
unfoldable pub end_token : Bytes → List Bytes → Option Scan
end_token [] tokens = some (record { token = []; tokens = tokens })
end_token (b ∷ bs) tokens =
    if ltb (length tokens) max_num_tokens
    then some (record { token = []; tokens = tokens ++ (b ∷ bs) ∷ [] })
    else none

-- One round of the loop.
unfoldable pub scan_byte : ℕ → Scan → Option Scan
scan_byte b s =
    if ltb (length s.token) max_token_size
    then (if is_separator b
        then end_token s.token s.tokens
        else some (record { token = s.token ++ b ∷ []; tokens = s.tokens }))
    else none

unfoldable pub tokenize_loop : Bytes → Scan → Option Scan
tokenize_loop [] s = some s
tokenize_loop (b ∷ bs) s = elim (scan_byte b s) [ none ↦ none | some s1 ↦ tokenize_loop bs s1 ]

-- `tokens[tokenNo] = NULL`: what stands in `token` at the end is dropped.
unfoldable pub end_tokens : Option Scan → Option (List Bytes)
end_tokens none = none
end_tokens (some s) = if ltb (length s.tokens) max_num_tokens then some s.tokens else none

unfoldable pub tokenize : Bytes → Option (List Bytes)
unfolding tokenize_loop end_tokens
tokenize line = end_tokens (tokenize_loop line (record { token = []; tokens = [] }))

-- What `main` has executed for a line; `overrun` is a write beyond `command` or `pipe_commands`.
pub data Action : Type 0 where
  run : List Bytes → Action
  pipeline : List (List Bytes) → Action
  overrun : Action

-- `command`, `pipe_commands` and `pipe_command`.
pub record Split : Type 0 where
  pub command : List Bytes
  pub pipe_commands : List (List Bytes)
  pub pipe_command : Bool

abbrev pub and_token : Bytes
and_token = 38 ∷ 38 ∷ []

abbrev pub bar_token : Bytes
bar_token = 124 ∷ []

-- The state after one token.
unfoldable pub split_token : Bytes → Split → Split
split_token t s =
    if eq_bytes t and_token
    then record s { command = [] }
    else if eq_bytes t bar_token
    then record {
      command = [];
      pipe_commands = s.pipe_commands ++ s.command ∷ [];
      pipe_command = true;
    }
    else record s { command = s.command ++ t ∷ [] }

-- `command[command_index]` is written, and `pipe_commands[pipe_command_number]` where `more` are.
abbrev pub has_slots : ℕ → Split → Bool
has_slots more s =
    ltb (length s.command) max_num_tokens && leb (length s.pipe_commands + more) max_num_tokens

-- The writes at a token, and at the end of the line.
abbrev pub fits : Bytes → Split → Bool
fits t s = has_slots (if eq_bytes t bar_token then 1 else 0) s

abbrev pub fits_end : Split → Bool
fits_end s = has_slots (if s.pipe_command then 2 else 0) s

abbrev pub last_action : Split → Action
last_action s =
    if s.pipe_command then pipeline (s.pipe_commands ++ s.command ∷ []) else run s.command

unfoldable pub split_loop : List Bytes → Split → List Action
split_loop [] s = (if fits_end s then last_action s else overrun) ∷ []
split_loop (t ∷ ts) s =
    let rest = split_loop ts (split_token t s) in
    if fits t s then (if eq_bytes t and_token then run s.command ∷ rest else rest) else overrun ∷ []

unfoldable pub run_line : List Bytes → List Action
unfolding split_loop
run_line tokens =
    split_loop tokens (record { command = []; pipe_commands = []; pipe_command = false })
