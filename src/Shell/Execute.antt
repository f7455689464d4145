-- ===== src/Shell/Execute.antt =====
-- The commands of lab_shell/my_shell.c: execute_command, with its built-in cat, and one round of the loop
-- of main. What the kernel does is an argument of each command, and an execution is what it has done.
-- `none` is a fault, or a loop that the fuel did not see the end of.
pub mod Cat
pub mod Table
pub mod Rounds
mod Tests
use cs.Base.{
  ℕ, zero, suc, ◌+◌, ◌-◌, ◌^◌, Bool, true, false, not, ◌&&◌, ◌||◌, Option, none, some, List, [],
  ◌∷◌, ◌++◌, ◌==◌, ltb, leb, if◌then◌else◌, length, take, set, Bytes, codes, eq_bytes,
}
use mathlib.Core.Option
use cs.Shell.Jobs.{Jobs, reap}
use cs.Shell.Line.{tokenize, Action, run, pipeline, overrun, run_line}

-- What a call of `read` into `buf` gives; `ended` is 0 bytes, and `failed` -1.
pub data Read : Type 0 where
  got : Bytes → Read
  ended : Read
  failed : Read

-- What the calls give: `chdir` whether it succeeds, `open` the reads of the file, `write` and `fork` what
-- they return but for -1. `pipe` and `pipe_fork` are the calls for each command of a pipe, and
-- `write_beyond` is a write of the whole address space.
pub record Kernel : Type 0 where
  pub home : Option Bytes
  pub chdir : Option Bytes → Bool
  pub stdin : ℕ → Read
  pub open_file : Bytes → Option (ℕ → Read)
  pub write : Bytes → Option ℕ
  pub write_beyond : Option ℕ
  pub fork : Option ℕ
  pub pipe : ℕ → Bool
  pub pipe_fork : ℕ → Option ℕ

-- What an execution has done, first to last.
pub data Effect : Type 0 where
  wrote : Bytes → Effect
  complained : Effect  -- a message on stderr
  moved : Option Bytes → Effect
  killed : Effect  -- SIGKILL to the process group
  started : List Bytes → Option ℕ → Effect  -- in the background
  waited : List Bytes → Option ℕ → Effect  -- in the foreground
  piped : List (List Bytes) → Effect  -- those that were forked

-- The outcome of the loop over reads: whether a write came short, and what was done.
pub record Copied : Type 0 where
  pub is_short : Bool
  pub effects : List Effect

abbrev pub accepted : Option ℕ → Bytes → Bytes
accepted none bs = []
accepted (some n) bs = take n bs

abbrev pub is_all : Option ℕ → Bytes → Bool
is_all none bs = false
is_all (some n) bs = n == length bs

abbrev pub and_then : List Effect → Option Copied → Option Copied
and_then es none = none
and_then es (some c) = some (record c { effects = es ++ c.effects })

-- `bytes_read` is unsigned, so that -1 is more than 0, and equal to what a failed write returns.
unfoldable pub copy_loop : ℕ → Kernel → (ℕ → Read) → ℕ → Option Copied
copy_loop zero k reads i = none
copy_loop (suc fuel) k reads i = elim (reads i) [
  | ended ↦ some (record { is_short = false; effects = [] })
  | got bs ↦
      let rest = copy_loop fuel k reads (i + 1) in
      if is_all (k.write bs) bs
      then and_then (wrote bs ∷ []) rest
      else some
          (record { is_short = true; effects = wrote (accepted (k.write bs) bs) ∷ complained ∷ [] })
  | failed ↦ elim k.write_beyond [
    | none ↦ copy_loop fuel k reads (i + 1)
    | some n ↦ some (record { is_short = true; effects = complained ∷ [] })
  ]
]

-- The loop of cat over its files.
unfoldable pub cat_loop : ℕ → Kernel → List Bytes → Option (List Effect)
unfolding copy_loop
cat_loop fuel k [] = some []
cat_loop fuel k (name ∷ names) =
    let rest = cat_loop fuel k names in
    elim (k.open_file name) [
      | none ↦ Option.map (λ es. complained ∷ es) rest
      | some reads ↦ elim (copy_loop fuel k reads 0) [
        | none ↦ none
        | some c ↦ if c.is_short then some c.effects else Option.map (λ es. c.effects ++ es) rest
      ]
    ]

unfoldable pub cat : ℕ → Kernel → List Bytes → Option (List Effect)
unfolding cat_loop copy_loop
cat fuel k [] = Option.map (λ (c : Copied). c.effects) (copy_loop fuel k k.stdin 0)
cat fuel k (name ∷ names) = cat_loop fuel k (name ∷ names)

abbrev pub complain_if : Bool → List Effect
complain_if true = complained ∷ []
complain_if false = []

-- `fork_result` as it is kept.
abbrev pub kept : Option ℕ → ℕ
kept none = 2 ^ 32 - 1
kept (some pid) = pid

abbrev pub is_none : Option ℕ → Bool
is_none none = true
is_none (some n) = false

-- `child_process[child_process_idx++] = fork_result`, where the index is not negative.
unfoldable pub put_child : ℕ → Jobs → Option Jobs
put_child pid jobs =
    if ltb jobs.child_process_idx 64
    then some (record {
      child_process = set jobs.child_process jobs.child_process_idx pid;
      child_process_idx = jobs.child_process_idx + 1;
    })
    else none

-- What is done, and the jobs; `is_over` is that the shell is killed or exits.
pub record Outcome : Type 0 where
  pub effects : List Effect
  pub jobs : Jobs
  pub is_over : Bool

abbrev pub done : List Effect → Jobs → Outcome
done es jobs = record { effects = es; jobs = jobs; is_over = false }

-- A negative index is a write before the table.
unfoldable pub run_background : Kernel → List Bytes → Jobs → Option Outcome
unfolding put_child
run_background k command jobs =
    if leb 64 jobs.child_process_idx && ltb jobs.child_process_idx (2 ^ 31)
    then some (done (complained ∷ []) jobs)
    else Option.map (λ jobs1. done (started command k.fork ∷ complain_if (is_none k.fork)) jobs1)
        (put_child (kept k.fork) jobs)

-- The tokens but the last, if that is `&` and there is one before it.
unfoldable pub background : List Bytes → Option (List Bytes)
unfolding eq_bytes
background [] = none
background (t ∷ []) = none
background (t ∷ u ∷ []) = if eq_bytes u (codes "&") then some (t ∷ []) else none
background (t ∷ u ∷ v ∷ ts) = Option.map (λ cs. t ∷ cs) (background (u ∷ v ∷ ts))

abbrev pub change_dir : Kernel → List Bytes → List Effect
change_dir k [] = moved k.home ∷ complain_if (not (k.chdir k.home))
change_dir k (d ∷ ds) = moved (some d) ∷ complain_if (not (k.chdir (some d)))

-- The last two branches.
abbrev pub run_program : Kernel → List Bytes → Option (List Bytes) → Jobs → Option Outcome
run_program k tokens (some command) jobs = run_background k command jobs
run_program k tokens none jobs =
    some (done (waited tokens k.fork ∷ complain_if (is_none k.fork)) jobs)

unfoldable pub execute_command : ℕ → Kernel → List Bytes → Jobs → Option Outcome
unfolding cat run_background background eq_bytes
execute_command fuel k [] jobs = some (done [] jobs)
execute_command fuel k (name ∷ args) jobs =
    if eq_bytes name (codes "cd")
    then some (done (change_dir k args) jobs)
    else if eq_bytes name (codes "exit")
    then some (record { effects = killed ∷ []; jobs = jobs; is_over = true })
    else if eq_bytes name (codes "cat")
    then Option.map (λ es. done es jobs) (cat fuel k args)
    else run_program k (name ∷ args) (background (name ∷ args)) jobs

-- The commands of a pipe that are forked, and whether all are.
pub record Forked : Type 0 where
  pub commands : List (List Bytes)
  pub is_whole : Bool

-- The loop over the commands, the i-th first. The last needs no pipe.
unfoldable pub fork_loop : Kernel → ℕ → List (List Bytes) → Forked
fork_loop k i [] = record { commands = []; is_whole = true }
fork_loop k i (c ∷ cs) =
    let more = fork_loop k (i + 1) cs in
    if ltb 0 (length cs) && not (k.pipe i) || is_none (k.pipe_fork i)
    then record { commands = []; is_whole = false }
    else record more { commands = c ∷ more.commands }

-- `execute_pipe_command`, with an exit of the shell where a call fails.
unfoldable pub run_pipe : Kernel → List (List Bytes) → Jobs → Outcome
unfolding fork_loop
run_pipe k commands jobs =
    let f = fork_loop k 0 commands in
    if f.is_whole
    then done (piped f.commands ∷ []) jobs
    else record { effects = piped f.commands ∷ complained ∷ []; jobs = jobs; is_over = true }

unfoldable pub run_action : ℕ → Kernel → Action → Jobs → Option Outcome
unfolding execute_command run_pipe
run_action fuel k (run tokens) jobs = execute_command fuel k tokens jobs
run_action fuel k (pipeline commands) jobs = some (run_pipe k commands jobs)
run_action fuel k overrun jobs = none

abbrev pub after : List Effect → Option Outcome → Option Outcome
after es none = none
after es (some o) = some (record o { effects = es ++ o.effects })

-- What a line is cut into, one behind the other; the kernel of the i-th is `ks i`.
unfoldable pub run_actions : ℕ → (ℕ → Kernel) → ℕ → List Action → Jobs → Option Outcome
unfolding run_action
run_actions fuel ks i [] jobs = some (done [] jobs)
run_actions fuel ks i (a ∷ rest_of) jobs = elim (run_action fuel (ks i) a jobs) [
  | none ↦ none
  | some o ↦
      let more = run_actions fuel ks (i + 1) rest_of o.jobs in
      if o.is_over then some o else after o.effects more
]

-- One round of the loop of main: the children that have ended, and the line that scanf reads, which
-- has to leave room for the newline and the zero.
unfoldable pub shell_round : ℕ → (ℕ → Kernel) → List ℕ → Bytes → Jobs → Option Outcome
unfolding run_actions reap tokenize run_line
shell_round fuel ks pids line jobs =
    let tokens = if ltb (length line) 1023 then tokenize (line ++ 10 ∷ []) else none in
    elim tokens [ none ↦ none | some ts ↦ run_actions fuel ks 0 (run_line ts) (reap pids jobs) ]
