-- ===== src/Shell/History/Tests.antt =====
-- The history of temp.c on concrete lines.
use cs.Base.{◌≡◌, refl, some, [], ◌∷◌, map, Bytes, if◌then◌else◌, arith}
use cs.Shell.History.{
  newline, no_history, cut_newline, is_skipped, add_to_history, save_history, load_history,
}
use cs.Shell.History.Ring.{Shows, push_line, no_history-Shows, add_to_history-Shows}
use cs.Shell.History.Saved.{Entries, save_history-load_history}

abbrev ls : Bytes
ls = b'l' ∷ b's' ∷ []

abbrev typed : Bytes
typed = b'l' ∷ b's' ∷ newline ∷ []

add_to_history-Shows_example :
    Shows
      (add_to_history no_history typed)
      (if is_skipped (cut_newline typed) then [] else push_line [] (cut_newline typed))
add_to_history-Shows_example = add_to_history-Shows no_history [] typed no_history-Shows

one_line_Shows : Shows (add_to_history no_history typed) (ls ∷ [])
unfolding is_skipped cut_newline push_line cs.Base.eq_bytes
one_line_Shows = add_to_history-Shows no_history [] typed no_history-Shows

ls-Entries : Entries (ls ∷ [])
unfolding is_skipped cs.Base.eq_bytes
ls-Entries = (
  record {
    one_line = (
      (λ e. absurd (omega arith)),
      (λ e. absurd (omega arith)),
      ((λ e. absurd (omega arith)), (λ e. absurd (omega arith)), tt),
    );
    kept = refl;
    short = omega arith;
  },
  tt,
)

save_history-load_history_example :
    (file : Bytes) × (save_history (add_to_history no_history typed) ≡ some file)
    × Shows (load_history file) (ls ∷ [])
save_history-load_history_example = save_history-load_history one_line_Shows ls-Entries
