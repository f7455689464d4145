-- ===== src/Shell/Pipes/Tests.antt =====
-- A pipe of three commands in lab_shell/my_shell.c.
use cs.Base.{◌≡◌, refl, none, some, List, [], ◌∷◌, ltb, if◌then◌else◌, arith}
use cs.Shell.Pipes.{file, Table, Pair, execute_pipe_command}
use cs.Shell.Pipes.Wiring.{wired_commands, execute_pipe_command-wired}

-- A shell with descriptors 0, 1 and 2.
abbrev shell_table : Table
shell_table fd = if ltb fd 3 then some (file fd) else none

abbrev pairs : List Pair
pairs = (3, 4) ∷ (4, 5) ∷ []

execute_pipe_command-wired_example :
    execute_pipe_command pairs shell_table ≡ (wired_commands shell_table 0 none pairs, shell_table)
execute_pipe_command-wired_example =
    execute_pipe_command-wired shell_table (λ e. cc) (λ e. cc) pairs
      (
        refl,
        refl,
        (λ e. absurd (omega arith)),
        (λ e. cc),
        (λ e. cc),
        (
          refl,
          refl,
          (λ e. absurd (omega arith)),
          (λ e. absurd (grind arith)),
          (λ e. absurd (grind arith)),
          tt,
        ),
      )
