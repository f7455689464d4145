-- ===== src/Shell/History.antt =====
-- The history of temp.c: a ring of `MAX_HISTORY_SIZE` lines, the file that it is saved in, and its
-- reading back. The file is a list of bytes; Shell.Session says whether it opens.
pub mod Ring
pub mod Saved
mod Tests
use cs.Base.{
  ℕ, zero, suc, ◌+◌, ◌-◌, ◌%◌, Bool, true, false, ◌||◌, Option, none, some, List, [], ◌∷◌, ◌++◌,
  ◌==◌, ltb, if◌then◌else◌, length, get_or, set, replicate, Bytes, eq_bytes,
}

abbrev pub max_history_size : ℕ
max_history_size = 20

abbrev pub newline : ℕ
newline = 10

-- `MAX_INPUT_SIZE`: `fgets` reads one byte less.
abbrev pub max_input_size : ℕ
max_input_size = 1024

abbrev pub history_word : Bytes
history_word = b'h' ∷ b'i' ∷ b's' ∷ b't' ∷ b'o' ∷ b'r' ∷ b'y' ∷ []

-- The globals `history`, `history_count` and `history_idx`.
pub record History : Type 0 where
  pub slots : List (Option Bytes)
  pub count : ℕ
  pub idx : ℕ

unfoldable pub no_history : History
no_history = record { slots = replicate max_history_size none; count = 0; idx = 0 }

-- `strcpy(temp_line, line)`, which ends at a zero, and `temp_line[strcspn(temp_line, "\n")] = 0`. A line is
-- shorter than 1024 bytes, as `fgets` gives it, so that `temp_line` has room for it.
unfoldable pub cut_newline : Bytes → Bytes
cut_newline [] = []
cut_newline (b ∷ bs) = if (b == newline) || (b == 0) then [] else b ∷ cut_newline bs

abbrev pub is_empty : Bytes → Bool
is_empty [] = true
is_empty (_ ∷ _) = false

-- A line that is not kept.
unfoldable pub is_skipped : Bytes → Bool
is_skipped t = is_empty t || eq_bytes t history_word

unfoldable pub add_to_history : History → Bytes → History
add_to_history h line =
    let t = cut_newline line in
    if is_skipped t then h else record {
      slots = set h.slots h.idx (some t);
      count = if ltb h.count max_history_size then h.count + 1 else h.count;
      idx = (h.idx + 1) % max_history_size;
    }

unfoldable pub start_point : History → ℕ
start_point h = if h.count == max_history_size then h.idx else 0

-- The loop of `print_history` and `save_history`: the slots from `i` on, `n` of them; `none` is a
-- null pointer.
unfoldable pub lines_from : History → ℕ → ℕ → List (Option Bytes)
unfolding start_point
lines_from h i zero = []
lines_from h i (suc n) =
    get_or h.slots ((start_point h + i) % max_history_size) none ∷ lines_from h (i + 1) n

unfoldable pub print_history : History → List (Option Bytes)
unfolding lines_from
print_history h = lines_from h 0 h.count

abbrev pub write_lines : List (Option Bytes) → Option Bytes
write_lines [] = some []
write_lines (none ∷ ls) = none
write_lines (some l ∷ ls) = elim (write_lines ls) [
  | none ↦ none
  | some rest ↦ some (l ++ (newline ∷ rest))
]

-- The bytes of the file, `none` where a null pointer would be printed.
unfoldable pub save_history : History → Option Bytes
unfolding lines_from
save_history h = write_lines (lines_from h 0 h.count)

-- `fgets` with room for `n` bytes: what it reads, up to a newline, and what is left.
unfoldable pub fgets : ℕ → Bytes → Bytes × Bytes
fgets zero file = ([], file)
fgets (suc n) [] = ([], [])
fgets (suc n) (b ∷ file) =
    if b == newline then (b ∷ [], file) else (let (line, rest) = fgets n file in (b ∷ line, rest))

-- The loop of `load_history`.
unfoldable pub load_loop : ℕ → Bytes → History → History
load_loop fuel [] h = h
load_loop zero (b ∷ file) h = h
load_loop (suc fuel) (b ∷ file) h =
    load_loop fuel (fgets (max_input_size - 1) (b ∷ file)).1
      (add_to_history h (fgets (max_input_size - 1) (b ∷ file)).0)

unfoldable pub load_history : Bytes → History
unfolding load_loop no_history
load_history file = load_loop (length file) file no_history
