-- ===== src/JobShell/Redirection.antt =====
-- `executeStdoutRedirection` and `executeStdoutAppend` of lab_shell/shell/redirection.c, and
-- `executeCatCommand` of eval.c. The descriptors of a process are those of Shell.Pipes; what `open`
-- returns, and what a file holds, are arguments.
pub mod Descriptors
mod Tests
use cs.Base.{ℕ, Bool, true, false, Option, none, some, List, [], ◌∷◌, Bytes}
use cs.Base.Family.{update}
use cs.Shell.Pipes.{End, file, Table, close, dup2}

-- How `open` is called.
pub data Flag : Type 0 where
  write_only create append truncate : Flag

-- The file that the command writes to, as it was opened, and the descriptors it is executed with.
pub record Child : Type 0 where
  pub flags : List Flag
  pub table : Table

abbrev close_file : List Flag → ℕ → Option Table → Option Child
close_file flags fd none = none
close_file flags fd (some t) = some (record { flags = flags; table = close t fd })

-- The child up to `execvp`; `none` where it exits before.
unfoldable pub stdout_child : List Flag → ℕ → Option ℕ → Table → Option Child
stdout_child flags f none t = none
stdout_child flags f (some fd) t =
    close_file flags fd (dup2 (some fd) 1 (update t fd (some (file f))))

unfoldable pub execute_stdout_redirection : ℕ → Option ℕ → Table → Option Child
execute_stdout_redirection = stdout_child (write_only ∷ create ∷ truncate ∷ [])

unfoldable pub execute_stdout_append : ℕ → Option ℕ → Table → Option Child
execute_stdout_append = stdout_child (write_only ∷ create ∷ append ∷ [])

-- What `cat` prints for a file: all it holds, or that there is none.
pub data Printed : Type 0 where
  contents : Bytes → Printed
  not_found : Bytes → Printed

unfoldable pub execute_cat_command : (Bytes → Option Bytes) → List Bytes → List Printed
execute_cat_command open_file [] = []
execute_cat_command open_file (t ∷ ts) =
    elim (open_file t) [ none ↦ not_found t | some b ↦ contents b ]
    ∷ execute_cat_command open_file ts
