-- ===== src/JobShell/Redirection/Descriptors.antt =====
-- The descriptors of a redirected command of lab_shell/shell/redirection.c.
use cs.Base.{ℕ, ◌≡◌, ◌≢◌, refl, ap, none, some, List, [], ◌∷◌, arith, eq→==}
use cs.Base.Family.{update}
use mathlib.Core.Path.{fun_ext}
use cs.Shell.Pipes.{file, Table, dup2}
use cs.JobShell.Redirection.{
  Flag, write_only, create, append, truncate, Child, stdout_child, execute_stdout_redirection,
  execute_stdout_append,
}

-- The child that has the file as its output, and nothing else that the shell has not.
abbrev pub writing_to : List Flag → ℕ → Table → Child
writing_to flags f t = record { flags = flags; table = update t 1 (some (file f)) }

stdout_child-writing_to :
    (flags : List Flag) (f fd : ℕ) (t : Table)
    → t fd ≡ none
    → t 1 ≢ none
    → stdout_child flags f (some fd) t ≡ some (writing_to flags f t)
unfolding stdout_child dup2
stdout_child-writing_to flags f fd t free std_out =
    let held : update t fd (some (file f)) fd ≡ some (file f) = rw (eq→== fd fd refl) refl in
    rw held (
      ap (λ u. some (record { flags = flags; table = u }))
        (fun_ext {g = update t 1 (some (file f))} (λ x. ground (arith, free, std_out))))

-- When open gives a descriptor that was not open and the shell has its output open, the child of
-- a redirected command has the file as its output and every other descriptor as the shell has it,
-- with the file opened for writing and created, and emptied for > but appended to for >>.
execute_stdout-writing_to :
    (f fd : ℕ) (t : Table)
    → t fd ≡ none
    → t 1 ≢ none
    → (execute_stdout_redirection f (some fd) t
        ≡ some (writing_to (write_only ∷ create ∷ truncate ∷ []) f t))
      × (execute_stdout_append f (some fd) t
          ≡ some (writing_to (write_only ∷ create ∷ append ∷ []) f t))
unfolding execute_stdout_redirection execute_stdout_append
execute_stdout-writing_to f fd t free std_out =
    (stdout_child-writing_to _ f fd t free std_out, stdout_child-writing_to _ f fd t free std_out)
