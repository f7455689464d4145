-- ===== src/JobShell/Completion.antt =====
-- The completion of lab_shell/shell/completion.c: the two generators that readline calls until they
-- return NULL, over directories and tests of files that are arguments, and commandCompletion.
mod Texts
pub mod Matches
mod Tests
use cs.Base.{
  ℕ, zero, suc, ◌+◌, Bool, true, false, not, ◌&&◌, ◌||◌, Option, none, some, List, [], ◌∷◌, ◌++◌,
  ◌==◌, if◌then◌else◌, take, Bytes, codes, eq_bytes,
}

-- The names in a directory, or `none` if it cannot be opened, `access(path, X_OK) == 0`, and whether
-- `stat` says that a path is a directory.
pub record Files : Type 0 where
  pub opendir : Bytes → Option (List Bytes)
  pub is_executable : Bytes → Bool
  pub is_directory : Bytes → Bool

-- `strncmp(name, text, strlen(text)) == 0`
unfoldable pub is_prefix : Bytes → Bytes → Bool
is_prefix [] name = true
is_prefix (t ∷ ts) [] = false
is_prefix (t ∷ ts) (b ∷ bs) = (t == b) && is_prefix ts bs

abbrev pub dot : Bytes
dot = codes "."

abbrev pub is_dots : Bytes → Bool
is_dots name = eq_bytes name dot || eq_bytes name (codes "..")

-- A match, and what `rl_completion_append_character` is set to.
abbrev pub Match : Type 0
Match = Bytes × Option ℕ

-- The first of the names left that passes, and those behind it.
unfoldable pub read_dir : (Bytes → Bool) → List Bytes → Option (Bytes × List Bytes)
read_dir test [] = none
read_dir test (e ∷ es) = if test e then some (e, es) else read_dir test es

-- An empty piece is no token.
abbrev pub piece : Bytes → List Bytes → List Bytes
piece [] next = next
piece (b ∷ bs) next = (b ∷ bs) ∷ next

-- The pieces between colons that are not empty: `strtok`, called until it returns NULL.
unfoldable pub strtok_loop : Bytes → Bytes → List Bytes
strtok_loop item [] = piece item []
strtok_loop item (c ∷ s) =
    let more = strtok_loop (item ++ c ∷ []) s in
    let next = strtok_loop [] s in if c == b':' then piece item next else more

-- The static variables of completeCommandExecutable: `currentDir` and what `strtok` has left, and the
-- names that `dir` has left.
pub record PathState : Type 0 where
  pub dirs : List Bytes
  pub dir : Option (List Bytes)

abbrev pub open_first : Files → List Bytes → Option (List Bytes)
open_first fs [] = none
open_first fs (d ∷ ds) = fs.opendir d

unfoldable pub start_path : Files → Option Bytes → PathState
unfolding strtok_loop
start_path fs path =
    let dirs = strtok_loop [] (elim path [ none ↦ dot | some p ↦ p ++ codes ":." ]) in
    record { dirs = dirs; dir = open_first fs dirs }

-- A name that is not skipped; `filePath` has room for 1023 bytes.
unfoldable pub is_command : Files → Bytes → Bytes → Bytes → Bool
unfolding is_prefix eq_bytes
is_command fs text dir name =
    is_prefix text name && (not (is_dots name) && fs.is_executable (take 1023 (dir ++ b'/' ∷ name)))

-- The loop over directories: one that could not be opened is left with `dir` at NULL.
unfoldable pub next_command :
    Files → Bytes → List Bytes → Option (List Bytes) → Option (Match × PathState)
unfolding read_dir is_command
next_command fs text [] dir = none
next_command fs text (d ∷ ds) none = next_command fs text ds none
next_command fs text (d ∷ ds) (some es) = elim (read_dir (is_command fs text d) es) [
  | some (name, rest) ↦ some ((name, none), record { dirs = d ∷ ds; dir = some rest })
  | none ↦ next_command fs text ds (open_first fs ds)
]

unfoldable pub complete_command_executable :
    Files → Option Bytes → Bytes → ℕ → PathState → Option (Match × PathState)
unfolding next_command start_path
complete_command_executable fs path text state s =
    let s1 = if state == 0 then start_path fs path else s in next_command fs text s1.dirs s1.dir

-- The static variables of completeFilename.
pub record NameState : Type 0 where
  pub dir_path : Option Bytes
  pub file_prefix : Bytes
  pub dir : Option (List Bytes)

-- The text up to the last slash, and behind it.
unfoldable pub last_slash : Bytes → Option (Bytes × Bytes)
last_slash [] = none
last_slash (c ∷ s) = elim (last_slash s) [
  | some (d, f) ↦ some (c ∷ d, f)
  | none ↦ if c == b'/' then some (c ∷ [], s) else none
]

unfoldable pub start_name : Files → Bytes → NameState
unfolding last_slash
start_name fs text = elim (last_slash text) [
  | some (d, f) ↦ record { dir_path = some d; file_prefix = f; dir = fs.opendir d }
  | none ↦ record { dir_path = none; file_prefix = text; dir = fs.opendir dot }
]

unfoldable pub is_filename : Bytes → Bytes → Bool
unfolding is_prefix eq_bytes
is_filename prefix name = is_prefix prefix name && not (is_dots name)

abbrev pub under : Option Bytes → Bytes → Bytes
under none name = name
under (some d) name = d ++ name

abbrev pub append_character : Files → Bytes → ℕ
append_character fs name = if fs.is_directory name then b'/' else 32

unfoldable pub next_name : Files → NameState → Option (List Bytes) → Option (Match × NameState)
unfolding read_dir is_filename
next_name fs s none = none
next_name fs s (some es) = elim (read_dir (is_filename s.file_prefix) es) [
  | some (name, rest) ↦ some (
    (under s.dir_path name, some (append_character fs (under s.dir_path name))),
    record s { dir = some rest },
  )
  | none ↦ none
]

unfoldable pub complete_filename : Files → Bytes → ℕ → NameState → Option (Match × NameState)
unfolding next_name start_name
complete_filename fs text state s =
    let s1 = if state == 0 then start_name fs text else s in next_name fs s1 s1.dir

-- `rl_completion_matches` calls a generator with 0, 1, ... until it returns NULL; `none` is that the
-- fuel ran out.
unfoldable pub rl_completion_matches :
    {S : Type 0} → ℕ → (ℕ → S → Option (Match × S)) → ℕ → S → Option (List Match)
rl_completion_matches zero generator state s = none
rl_completion_matches (suc k) generator state s = elim (generator state s) [
  | none ↦ some []
  | some (m, s1) ↦ elim (rl_completion_matches k generator (state + 1) s1) [
    | none ↦ none
    | some ms ↦ some (m ∷ ms)
  ]
]

unfoldable pub command_completion :
    ℕ → Files → Option Bytes → Bytes → ℕ → PathState → NameState → Option (List Match)
unfolding rl_completion_matches complete_command_executable complete_filename
command_completion fuel fs path text start s t =
    let commands = rl_completion_matches fuel (complete_command_executable fs path text) 0 s in
    let names = rl_completion_matches fuel (complete_filename fs text) 0 t in
    if start == 0 then commands else names
