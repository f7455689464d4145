-- ===== src/Shell/Execute/Tests.antt =====
-- Commands and a round of lab_shell/my_shell.c, and the witnesses.
use cs.Base.{
  ℕ, ◌+◌, ◌≡◌, ◌==◌, refl, true, Option, none, some, List, [], ◌∷◌, if◌then◌else◌, length,
  replicate, Bytes, codes, eq_bytes, arith,
}
use cs.Shell.Jobs.{Jobs, reap}
use cs.Shell.Line.{tokenize, run_line, split_loop, split_token, is_separator, scan_byte, end_token}
use cs.Shell.Execute.{
  Read, got, ended, failed, Kernel, wrote, complained, piped, run_actions, run_action, run_pipe,
  fork_loop, done, execute_command, shell_round,
}
use cs.Shell.Execute.Cat.{names, shown, execute_command-cat}

abbrev pieces : ℕ → Read
pieces i = if i == 0 then got (codes "hello") else if i == 1 then got (codes "!") else ended

-- A file, and a directory, whose reads fail.
abbrev files : Bytes → Option (ℕ → Read)
files name =
    if eq_bytes name (codes "greeting")
    then some pieces
    else if eq_bytes name (codes "src")
    then some (λ i. failed)
    else none

abbrev kernel : Kernel
kernel = record {
  home = some (codes "/root");
  chdir = λ d. true;
  stdin = λ i. ended;
  open_file = files;
  write = λ bs. some (length bs);
  write_beyond = none;
  fork = some 40;
  pipe = λ i. true;
  pipe_fork = λ i. some (50 + i);
}

abbrev jobs : Jobs
jobs = record { child_process = 11 ∷ 12 ∷ replicate 62 0; child_process_idx = 2 }

abbrev two_files : List (Bytes × Option (List Bytes))
two_files = (codes "greeting", some (codes "hello" ∷ codes "!" ∷ [])) ∷ (codes "missing", none) ∷ []

cat_two_files :
    execute_command 3 kernel (codes "cat" ∷ names two_files) jobs
    ≡ some (done (wrote (codes "hello") ∷ wrote (codes "!") ∷ complained ∷ []) jobs)
unfolding execute_command eq_bytes
cat_two_files = refl

execute_command-cat_example :
    execute_command 3 kernel (codes "cat" ∷ names two_files) jobs
    ≡ some (done (shown two_files) jobs)
unfolding eq_bytes
execute_command-cat_example =
    execute_command-cat 3 kernel (codes "greeting", some (codes "hello" ∷ codes "!" ∷ []))
      ((codes "missing", none) ∷ []) jobs (λ bs. refl)
      ((pieces, refl, (refl, (refl, refl)), omega arith), (refl, tt))

-- A pipe whose second fork fails ends the shell.
broken_pipe :
    shell_round 1
      (λ i. record kernel { pipe_fork = λ j. if j == 0 then some 50 else none })
      []
      (codes "ls | wc")
      jobs
    ≡ some (record {
      effects = piped ((codes "ls" ∷ []) ∷ []) ∷ complained ∷ [];
      jobs = jobs;
      is_over = true;
    })
unfolding shell_round reap run_actions run_action run_pipe fork_loop run_line split_loop split_token
    tokenize is_separator scan_byte end_token eq_bytes
broken_pipe = refl
