-- ===== src/JobShell/Completion/Tests.antt =====
-- Runs of the completion, and the witness.
use cs.Base.{
  true, ◌||◌, ◌≡◌, refl, Option, none, some, List, [], ◌∷◌, if◌then◌else◌, Bytes, codes, eq_bytes,
  arith,
}
use cs.JobShell.Completion.{
  Files, dot, PathState, NameState, command_completion, is_command, is_filename,
}
use cs.JobShell.Completion.Texts.{text_of}
use cs.JobShell.Completion.Matches.{completions, path_of, command_completion-completions}

abbrev files : Files
files = record {
  opendir = λ d.
      if eq_bytes d (codes "/bin") || eq_bytes d (codes "/bin/")
      then some (dot ∷ codes "ls" ∷ codes "lsof" ∷ codes "cat" ∷ [])
      else if eq_bytes d dot
      then some (codes "lsx" ∷ [])
      else none;
  is_executable = λ path. true;
  is_directory = λ path. eq_bytes path (codes "/bin/ls");
}

abbrev bin : Option (List Bytes)
bin = some (codes "/bin" ∷ [])

abbrev closed : PathState
closed = record { dirs = []; dir = none }

abbrev unnamed : NameState
unnamed = record { dir_path = none; file_prefix = []; dir = none }

first_word :
    completions files bin none (codes "ls") 0
    ≡ (codes "ls", none) ∷ (codes "lsof", none) ∷ (codes "lsx", none) ∷ []
unfolding completions eq_bytes is_command is_filename
first_word = refl

behind_missing :
    completions files (some (codes "/opt" ∷ codes "/bin" ∷ [])) none (codes "ls") 0 ≡ []
unfolding completions eq_bytes is_command is_filename
behind_missing = refl

other_word :
    completions files bin (some (codes "/bin")) (codes "ls") 5
    ≡ (codes "/bin/ls", some b'/') ∷ (codes "/bin/lsof", some 32) ∷ []
unfolding completions eq_bytes is_command is_filename
other_word = refl

command_completion-completions_example :
    command_completion 9 files (path_of bin) (text_of none (codes "ls")) 0 closed unnamed
    ≡ some (completions files bin none (codes "ls") 0)
unfolding completions eq_bytes is_command
command_completion-completions_example =
    command_completion-completions 9 files bin none (codes "ls") 0 closed unnamed
      ((λ e. cc), ((omega arith, (omega arith, (omega arith, (omega arith, tt)))), tt))
      (omega arith, (omega arith, tt)) (omega arith)
