-- ===== src/Shell/Pipes.antt =====
-- The descriptors of `execute_pipe_command` in lab_shell/my_shell.c: those of the shell, and those that each
-- command of a pipe is executed with. `pipe` and `fork` succeed; the pairs that the calls of `pipe`
-- return are an argument, one for each command but the last.
pub mod Wiring
mod Tests
use cs.Base.{ℕ, ◌+◌, Bool, Option, none, some, List, [], ◌∷◌, ltb, ◌==◌, if◌then◌else◌}
use cs.Base.Family.{update}

-- What stands behind a descriptor: a file that the shell has open, or an end of the pipe that the
-- command with that number writes to.
pub data End : Type 0 where
  file : ℕ → End
  read_end : ℕ → End
  write_end : ℕ → End

-- The open descriptors of a process.
abbrev pub Table : Type 0
Table = ℕ → Option End

abbrev pub Pair : Type 0
Pair = ℕ × ℕ

-- `close`
abbrev pub close : Table → ℕ → Table
close t fd = update t fd none

-- `if (fd != -1) close(fd)`
unfoldable pub close_if : Option ℕ → Table → Table
close_if none t = t
close_if (some fd) t = close t fd

abbrev pub dup_end : Option End → ℕ → Table → Option Table
dup_end none fd t = none
dup_end (some e) fd t = some (update t fd (some e))

-- `dup2`, which fails on a descriptor that is not open.
unfoldable pub dup2 : Option ℕ → ℕ → Table → Option Table
dup2 none fd t = none
dup2 (some old) fd t = dup_end (t old) fd t

unfoldable pub connect_stdin : ℕ → Option ℕ → Table → Option Table
connect_stdin i prev t = if ltb 0 i then dup2 prev 0 t else some t

unfoldable pub connect_stdout : Option Pair → Table → Option Table
connect_stdout none t = some t
connect_stdout (some fds) t = dup2 (some fds.1) 1 t

unfoldable pub close_pair : Option Pair → Table → Table
close_pair none t = t
close_pair (some fds) t = close (close t fds.0) fds.1

abbrev then_stdout : Option Pair → Option Table → Option Table
then_stdout fds none = none
then_stdout fds (some t) = connect_stdout fds t

abbrev then_close : Option ℕ → Option Pair → Option Table → Option Table
then_close prev fds none = none
then_close prev fds (some t) = some (close_pair fds (close_if prev t))

-- The child, up to `execvp`; `none` where it exits before.
unfoldable pub child_table : ℕ → Option ℕ → Option Pair → Table → Option Table
unfolding connect_stdin connect_stdout close_if close_pair
child_table i prev fds t = then_close prev fds (then_stdout fds (connect_stdin i prev t))

-- `pipe`
abbrev pub open_pipe : ℕ → Pair → Table → Table
open_pipe i fds t = update (update t fds.0 (some (read_end i))) fds.1 (some (write_end i))

-- The loop, from the `i`-th command on: what the children execute with, and what the shell is left
-- with.
unfoldable pub pipe_loop : ℕ → Option ℕ → List Pair → Table → List (Option Table) × Table
unfolding child_table
pipe_loop i prev [] t = (child_table i prev none t ∷ [], close_if prev t)
pipe_loop i prev (fds ∷ more) t =
    let t1 = open_pipe i fds t in
    let rest = pipe_loop (i + 1) (some fds.0) more (close_if prev (close t1 fds.1)) in
    (child_table i prev (some fds) t1 ∷ rest.0, rest.1)

unfoldable pub execute_pipe_command : List Pair → Table → List (Option Table) × Table
unfolding pipe_loop
execute_pipe_command fds t = pipe_loop 0 none fds t
