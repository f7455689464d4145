-- ===== src/Shell/Pipes/Wiring.antt =====
-- The input and the output of each command of a pipe in lab_shell/my_shell.c.
use cs.Base.{
  ℕ, ◌+◌, ◌≡◌, ◌≢◌, refl, ap, ◌∙◌, Option, none, some, List, [], ◌∷◌, arith, lt→ltb, eq→==,
}
use mathlib.Core.Path.{fun_ext}
use cs.Base.Family.{update}
use cs.Shell.Pipes.{
  End, read_end, write_end, Table, Pair, close_if, dup2, connect_stdin, connect_stdout, close_pair,
  child_table, open_pipe, pipe_loop, execute_pipe_command,
}

-- `pipe` returns two descriptors that are not open: not in the shell's own table `t`, nor the end
-- `prev` that it keeps.
abbrev pub AreFresh : Table → Option ℕ → List Pair → Type 0
AreFresh t prev [] = Unit {0}
AreFresh t prev (fds ∷ more) =
    (t fds.0 ≡ none)
    × (t fds.1 ≡ none)
    × (fds.0 ≢ fds.1)
    × (prev ≢ some fds.0)
    × (prev ≢ some fds.1)
    × AreFresh t (some fds.0) more

-- The table a command should have: the shell's, with its input and its output replaced.
abbrev pub wired : (input output : Option End) → Table → Table
wired none none t = t
wired none (some o) t = update t 1 (some o)
wired (some e) none t = update t 0 (some e)
wired (some e) (some o) t = update (update t 0 (some e)) 1 (some o)

-- The tables of the commands from the `i`-th on, of which `input` is the input.
abbrev pub wired_commands : Table → ℕ → Option End → List Pair → List (Option Table)
wired_commands t i input [] = some (wired input none t) ∷ []
wired_commands t i input (fds ∷ more) =
    some (wired input (some (write_end i)) t) ∷ wired_commands t (i + 1) (some (read_end i)) more

dup2-open :
    (old fd : ℕ) (t : Table) (e : End)
    → t old ≡ some e
    → dup2 (some old) fd t ≡ some (update t fd (some e))
unfolding dup2
dup2-open old fd t e h = rw (dup2, h) refl

child_table-alone : (t : Table) → child_table 0 none none t ≡ some t
unfolding child_table connect_stdin connect_stdout close_if close_pair
child_table-alone t = refl

children_and_shell :
    {c d : Option Table} {rest : List (Option Table) × Table} {ds : List (Option Table)} {t : Table}
    → c ≡ d
    → rest ≡ (ds, t)
    → ◌≡◌ {A = List (Option Table) × Table} (c ∷ rest.0, rest.1) (d ∷ ds, t)
children_and_shell e f = λ k. (e k ∷ (f k).0, (f k).1)

module _ (t : Table) (std_in : t 0 ≢ none) (std_out : t 1 ≢ none) where
  -- The shell's table while it keeps `r`, the read end of pipe `i`.
  abbrev held : ℕ → ℕ → Table
  held r i = update t r (some (read_end i))

  child_table-last :
      (r i : ℕ)
      → t r ≡ none
      → child_table (i + 1) (some r) none (held r i) ≡ some (wired (some (read_end i)) none t)
  unfolding child_table connect_stdin connect_stdout close_if close_pair
  child_table-last r i closed =
      let held_open : held r i r ≡ some (read_end i) = rw (eq→== r r refl) refl in
      rw (lt→ltb 0 (i + 1) (omega arith), dup2-open r 0 (held r i) (read_end i) held_open)
        (ap some (fun_ext (λ x. ground (arith, closed, std_in))))

  child_table-first :
      (a b : ℕ)
      → t a ≡ none
      → t b ≡ none
      → a ≢ b
      → child_table 0 none (some (a, b)) (open_pipe 0 (a, b) t)
        ≡ some (wired none (some (write_end 0)) t)
  unfolding child_table connect_stdin connect_stdout close_if close_pair
  child_table-first a b free_a free_b apart =
      let held_open : open_pipe 0 (a, b) t b ≡ some (write_end 0) = rw (eq→== b b refl) refl in
      rw (dup2-open b 1 (open_pipe 0 (a, b) t) (write_end 0) held_open)
        (ap some (fun_ext (λ x. ground (arith, free_a, free_b, std_out))))

  child_table-between :
      (r i a b : ℕ)
      → t r ≡ none
      → t a ≡ none
      → t b ≡ none
      → a ≢ b
      → r ≢ a
      → r ≢ b
      → child_table (i + 1) (some r) (some (a, b)) (open_pipe (i + 1) (a, b) (held r i))
        ≡ some (wired (some (read_end i)) (some (write_end (i + 1))) t)
  unfolding child_table connect_stdin connect_stdout close_if close_pair
  child_table-between r i a b closed free_a free_b apart other_a other_b =
      let t1 = open_pipe (i + 1) (a, b) (held r i) in
      let in_open : t1 r ≡ some (read_end i) = ground arith in
      let out_open : update t1 0 (some (read_end i)) b ≡ some (write_end (i + 1)) =
        ground (arith, free_b, std_in) in
      rw
        (
          lt→ltb 0 (i + 1) (omega arith),
          dup2-open r 0 t1 (read_end i) in_open,
          dup2-open b 1 (update t1 0 (some (read_end i))) (write_end (i + 1)) out_open,
        )
        (ap some (fun_ext (λ x. ground (arith, closed, free_a, free_b, std_in, std_out))))

  pipe_loop-wired :
      (fds : List Pair) (i r : ℕ)
      → t r ≡ none
      → AreFresh t (some r) fds
      → pipe_loop (i + 1) (some r) fds (held r i)
        ≡ (wired_commands t (i + 1) (some (read_end i)) fds, t)
  unfolding pipe_loop close_if
  pipe_loop-wired [] i r closed are =
      children_and_shell (child_table-last r i closed)
        (ap (λ u. ([], u)) (fun_ext (λ x. ground (arith, closed))))
  pipe_loop-wired ((a, b) ∷ more) i r closed (free_a, free_b, apart, other_a, other_b, are) =
      let other : r ≢ a = λ e. other_a (ap some e) in
      children_and_shell
        (child_table-between r i a b closed free_a free_b apart other (λ e. other_b (ap some e)))
        (ap (λ u. pipe_loop (i + 1 + 1) (some a) more u)
            (fun_ext {g = held a (i + 1)} (λ x. ground (arith, closed, free_b, other)))
          ∙ pipe_loop-wired more (i + 1) a free_a are)

  -- When each call of pipe returns two different descriptors that are not open, and the shell has
  -- 0 and 1 open, each command of a pipe is executed with the read end of the pipe before it as
  -- 0, the write end of the pipe behind it as 1, and otherwise the descriptors the shell had, no
  -- other end among them; the loop leaves the shell with the descriptors it had.
  pub execute_pipe_command-wired :
      (fds : List Pair)
      → AreFresh t none fds
      → execute_pipe_command fds t ≡ (wired_commands t 0 none fds, t)
  unfolding execute_pipe_command pipe_loop close_if
  execute_pipe_command-wired [] are = ap (λ c. (c ∷ [], t)) (child_table-alone t)
  execute_pipe_command-wired ((a, b) ∷ more) (free_a, free_b, apart, other_a, other_b, are) =
      children_and_shell (child_table-first a b free_a free_b apart) (
        ap (λ u. pipe_loop 1 (some a) more u) (fun_ext {g = held a 0} (λ x. ground (arith, free_b)))
        ∙ pipe_loop-wired more 0 a free_a are)
