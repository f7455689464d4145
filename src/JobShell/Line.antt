-- ===== src/JobShell/Line.antt =====
-- How lab_shell/shell reads a line: `splitCommandIntoTokens` of helper.c, over the array that it makes
-- larger, and the tests of redirection.c on the tokens. A write beyond the array is `none`.
pub mod Words
mod Tests
use cs.Base.{
  ℕ, zero, suc, ◌+◌, ◌*◌, Bool, true, false, ◌||◌, Option, none, some, List, [], ◌∷◌, ◌++◌, ◌==◌,
  ltb, if◌then◌else◌, length, Bytes, eq_bytes,
}

abbrev pub space : ℕ
space = 32

-- The bytes up to a space, and those behind it.
unfoldable pub take_token : Bytes → Bytes × Bytes
take_token [] = ([], [])
take_token (b ∷ bs) =
    let rest = take_token bs in if b == space then ([], bs) else (b ∷ rest.0, rest.1)

-- `strtok` with " ".
unfoldable pub next_token : Bytes → Option (Bytes × Bytes)
next_token [] = none
next_token (b ∷ bs) =
    let rest = next_token bs in if b == space then rest else some (take_token (b ∷ bs))

-- `tokens`, `numTokens` long, and `arrayCapacity`.
pub record Tokens : Type 0 where
  pub tokens : List Bytes
  pub capacity : ℕ

-- `if (*numTokens >= arrayCapacity) arrayCapacity <<= 1`
unfoldable pub grow : Tokens → Tokens
grow t = if ltb (length t.tokens) t.capacity then t else record t { capacity = t.capacity * 2 }

-- `tokens[(*numTokens)++] = strdup(currToken)`
unfoldable pub push_token : Bytes → Tokens → Option Tokens
push_token w t =
    if ltb (length t.tokens) t.capacity
    then some (record t { tokens = t.tokens ++ w ∷ [] })
    else none

unfoldable pub split_loop : ℕ → Bytes → Tokens → Option Tokens
split_loop zero rest t = none
split_loop (suc k) rest t = elim (next_token rest) [
  | none ↦ some t
  | some (w, rest1) ↦ elim (push_token w (grow t)) [ none ↦ none | some t1 ↦ split_loop k rest1 t1 ]
]

-- `tokens[*numTokens] = NULL`, for which the array may grow once more.
unfoldable pub end_array : Option Tokens → Option (List Bytes)
end_array none = none
end_array (some t) =
    let capacity = if ltb (length t.tokens) t.capacity then t.capacity else t.capacity + 1 in
    if ltb (length t.tokens) capacity then some t.tokens else none

unfoldable pub split_command_into_tokens : Bytes → Option (List Bytes)
split_command_into_tokens command =
    end_array (split_loop (length command + 1) command (record { tokens = []; capacity = 10 }))

abbrev pub gt : Bytes
gt = b'>' ∷ []

abbrev pub one_gt : Bytes
one_gt = b'1' ∷ b'>' ∷ []

abbrev pub gt_gt : Bytes
gt_gt = b'>' ∷ b'>' ∷ []

abbrev pub one_gt_gt : Bytes
one_gt_gt = b'1' ∷ b'>' ∷ b'>' ∷ []

unfoldable pub is_redirection : Bytes → Bool
is_redirection t = eq_bytes t gt || eq_bytes t one_gt

unfoldable pub is_append : Bytes → Bool
is_append t = eq_bytes t gt_gt || eq_bytes t one_gt_gt

unfoldable pub check_redirection_mode : List Bytes → Bool
check_redirection_mode [] = false
check_redirection_mode (t ∷ ts) =
    let rest = check_redirection_mode ts in if is_redirection t then true else rest

unfoldable pub check_append_redirection_mode : List Bytes → Bool
check_append_redirection_mode [] = false
check_append_redirection_mode (t ∷ ts) =
    let rest = check_append_redirection_mode ts in if is_append t then true else rest
