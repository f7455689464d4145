-- ===== src/Shell/Session.antt =====
-- The shell of temp.c: execute_command, and main, which loads the history, runs the lines that fgets reads,
-- and saves the history. tokenize, the cutting of the tokens and the table of children are the code of
-- lab_shell/my_shell.c again. `none` is an access out of bounds, or a block that is freed twice.
pub mod Lines
pub mod Pipes
mod Tests
use mathlib.Core.Option
use cs.Base.{
  ℕ, zero, suc, ◌+◌, ◌-◌, Bool, true, false, not, ◌&&◌, Option, none, some, List, [], ◌∷◌, ◌++◌,
  ◌==◌, if◌then◌else◌, map, length, take, replicate, Bytes, codes, eq_bytes,
}
use cs.Shell.Jobs.{Jobs, reap}
use cs.Shell.Line.{is_separator, tokenize, Action, run, pipeline, overrun, bar_token, run_line}
use cs.Shell.History.{
  max_history_size, History, add_to_history, print_history, save_history, load_history, no_history,
}
use cs.Shell.Execute.{
  Kernel, Effect, moved, killed, complained, waited, piped, complain_if, is_none, Outcome,
  run_background, fork_loop,
}

-- What is done: what my_shell.c does too, the history on the screen, and the history in a file.
pub data Deed : Type 0 where
  did : Effect → Deed
  printed : List (Option Bytes) → Deed
  saved : Bytes → Bytes → Deed  -- the path, and what is written

pub record Shell : Type 0 where
  pub history : History
  pub jobs : Jobs

pub record Turn : Type 0 where
  pub deeds : List Deed
  pub shell : Shell
  pub is_over : Bool

-- A path has room for 1023 bytes.
unfoldable pub get_history_filepath : Option Bytes → Option Bytes
get_history_filepath none = none
get_history_filepath (some home) = some (take 1023 (home ++ codes "/.my_shell_history"))

abbrev pub write_to : Bytes → Option Bytes → Option (List Deed)
write_to path none = none
write_to path (some bytes) = some (saved path bytes ∷ [])

abbrev pub save_at : (Bytes → Bool) → Option Bytes → History → Option (List Deed)
save_at opens none h = some []
save_at opens (some path) h =
    if opens path then write_to path (save_history h) else some (did complained ∷ [])

-- `save_history`, where `opens` says whether fopen succeeds.
unfoldable pub save : (Bytes → Bool) → Option Bytes → History → Option (List Deed)
save opens home h = save_at opens (get_history_filepath home) h

unfoldable pub free_history : History → History
free_history h = record h { slots = replicate max_history_size none }

abbrev pub stays : List Effect → Shell → Turn
stays es s = record { deeds = map did es; shell = s; is_over = false }

abbrev pub change_dir : Kernel → List Bytes → List Effect
change_dir k [] = elim k.home [
  | none ↦ []
  | some d ↦ moved (some d) ∷ complain_if (not (k.chdir (some d)))
]
change_dir k (d ∷ ds) = moved (some d) ∷ complain_if (not (k.chdir (some d)))

-- The tokens but the last, if that is `&`.
unfoldable pub background : List Bytes → Option (List Bytes)
unfolding eq_bytes
background [] = none
background (t ∷ []) = if eq_bytes t (codes "&") then some [] else none
background (t ∷ u ∷ ts) = Option.map (λ cs. t ∷ cs) (background (u ∷ ts))

abbrev pub run_program : Kernel → List Bytes → Option (List Bytes) → Shell → Option Turn
run_program k tokens (some command) s =
    Option.map (λ (o : Outcome). stays o.effects (record s { jobs = o.jobs }))
      (run_background k command s.jobs)
run_program k tokens none s = some (stays (waited tokens k.fork ∷ complain_if (is_none k.fork)) s)

abbrev pub exits : Shell → List Deed → Turn
exits s ds = record {
  deeds = ds ++ did killed ∷ [];
  shell = record s { history = free_history s.history };
  is_over = true;
}

unfoldable pub execute_command : (Bytes → Bool) → Kernel → List Bytes → Shell → Option Turn
unfolding eq_bytes
execute_command opens k [] s = some (stays [] s)
execute_command opens k (name ∷ args) s =
    if eq_bytes name (codes "cd")
    then some (stays (change_dir k args) s)
    else if eq_bytes name (codes "history")
    then some
        (record { deeds = printed (print_history s.history) ∷ []; shell = s; is_over = false })
    else if eq_bytes name (codes "exit")
    then Option.map (exits s) (save opens k.home s.history)
    else run_program k (name ∷ args) (background (name ∷ args)) s

-- Whether a block is among those that are freed.
unfoldable pub is_freed : ℕ → List ℕ → Bool
is_freed b [] = false
is_freed b (c ∷ cs) = if b == c then true else is_freed b cs

-- The calls of `free`, in order, given what is freed.
unfoldable pub free_all : List ℕ → List ℕ → Option (List ℕ)
unfolding is_freed
free_all freed [] = some freed
free_all freed (b ∷ bs) = if is_freed b freed then none else free_all (b ∷ freed) bs

-- The blocks of `malloc` in a round: `pipe_commands` has the number 1, and `command` first 0.
pub record Blocks : Type 0 where
  pub command : ℕ
  pub pipe_commands : List ℕ
  pub pipe_command : Bool
  pub fresh : ℕ

abbrev pub array_block : ℕ
array_block = 1

abbrev pub first_blocks : Blocks
first_blocks = record { command = 0; pipe_commands = []; pipe_command = false; fresh = 2 }

-- A `|` puts `command` into the array, and takes a new block.
abbrev pub block_token : Bytes → Blocks → Blocks
block_token t b =
    if eq_bytes t bar_token
    then record {
      command = b.fresh;
      pipe_commands = b.pipe_commands ++ b.command ∷ [];
      pipe_command = true;
      fresh = b.fresh + 1;
    }
    else b

unfoldable pub block_loop : List Bytes → Blocks → Blocks
block_loop [] b = b
block_loop (t ∷ ts) b = block_loop ts (block_token t b)

-- The loop that frees the commands of a pipe, to which the last `command` was added.
abbrev pub pipe_frees : Blocks → List ℕ
pipe_frees b = if b.pipe_command then b.pipe_commands ++ b.command ∷ [] else []

-- `free(pipe_commands)` and `free(command)` behind it.
unfoldable pub round_frees : List Bytes → List ℕ
unfolding block_loop
round_frees tokens =
    let b = block_loop tokens first_blocks in pipe_frees b ++ (array_block ∷ b.command ∷ [])

-- A pipe, with an exit of the shell where pipe or fork fails.
unfoldable pub run_pipe : Kernel → List (List Bytes) → Shell → Turn
unfolding fork_loop
run_pipe k commands s =
    let f = fork_loop k 0 commands in
    if f.is_whole
    then stays (piped f.commands ∷ []) s
    else record { deeds = map did (piped f.commands ∷ complained ∷ []); shell = s; is_over = true }

unfoldable pub run_action : (Bytes → Bool) → Kernel → Action → Shell → Option Turn
unfolding run_pipe
run_action opens k (run tokens) s = execute_command opens k tokens s
run_action opens k (pipeline commands) s = some (run_pipe k commands s)
run_action opens k overrun s = none

abbrev pub after : List Deed → Option Turn → Option Turn
after ds none = none
after ds (some t) = some (record t { deeds = ds ++ t.deeds })

unfoldable pub run_actions : (Bytes → Bool) → (ℕ → Kernel) → ℕ → List Action → Shell → Option Turn
run_actions opens ks i [] s = some (stays [] s)
run_actions opens ks i (a ∷ rest) s = elim (run_action opens (ks i) a s) [
  | none ↦ none
  | some t ↦
      let more = run_actions opens ks (i + 1) rest t.shell in
      if t.is_over then some t else after t.deeds more
]

-- `strspn(line, " \t\n") == strlen(line)`
unfoldable pub is_blank : Bytes → Bool
unfolding is_separator
is_blank [] = true
is_blank (b ∷ bs) = is_separator b && is_blank bs

abbrev pub remember : Bytes → History → History
remember line h = if is_blank line then h else add_to_history h line

-- What a round of the loop of main is given.
pub record Input : Type 0 where
  pub pids : List ℕ
  pub line : Bytes
  pub kernels : ℕ → Kernel

-- The end of a round, unless the shell is over.
abbrev pub freed_round : List ℕ → Option Turn → Option Turn
freed_round bs none = none
freed_round bs (some t) = if t.is_over then some t else Option.map (λ freed. t) (free_all [] bs)

unfoldable pub main_round : (Bytes → Bool) → Input → Shell → Option Turn
unfolding run_actions free_all round_frees
main_round opens i s =
    let s1 : Shell = record { history = remember i.line s.history; jobs = reap i.pids s.jobs } in
    elim (tokenize i.line) [
      | none ↦ none
      | some ts ↦ freed_round (round_frees ts) (run_actions opens i.kernels 0 (run_line ts) s1)
    ]

-- The loop of main, up to the end of the input or an exit.
unfoldable pub main_loop : (Bytes → Bool) → List Input → Shell → Option Turn
main_loop opens [] s = some (stays [] s)
main_loop opens (i ∷ rest) s = elim (main_round opens i s) [
  | none ↦ none
  | some t ↦
      let more = main_loop opens rest t.shell in if t.is_over then some t else after t.deeds more
]

-- What is saved at the end of the input.
unfoldable pub end_session : (Bytes → Bool) → Option Bytes → Turn → Option Turn
unfolding save
end_session opens home t =
    if t.is_over
    then some t
    else Option.map
        (λ ds. record t {
          deeds = t.deeds ++ ds;
          shell = record t.shell { history = free_history t.shell.history };
        })
        (save opens home t.shell.history)

-- The file of the history, which may not be there, or not be opened.
abbrev pub load_opened : Option Bytes → History
load_opened none = no_history
load_opened (some bytes) = load_history bytes

abbrev pub load_from : (Bytes → Option Bytes) → Option Bytes → History
load_from files none = no_history
load_from files (some path) = load_opened (files path)

-- `load_history`, where `files` gives the bytes of what fopen opens.
unfoldable pub load : (Bytes → Option Bytes) → Option Bytes → History
load files home = load_from files (get_history_filepath home)

-- main, where `opens` says which files can be written.
unfoldable pub main_session :
    (Bytes → Option Bytes) → (Bytes → Bool) → Option Bytes → List Input → Jobs → Option Turn
unfolding main_loop end_session load
main_session files opens home is jobs =
    elim (main_loop opens is (record { history = load files home; jobs = jobs })) [
      | none ↦ none
      | some t ↦ end_session opens home t
    ]
