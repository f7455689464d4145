-- ===== src/Shell/Session/Tests.antt =====
-- Sessions of temp.c's shell on concrete lines, and the witnesses.
use cs.Base.{
  List, ◌+◌, if◌then◌else◌, ◌≡◌, refl, true, false, none, some, [], ◌∷◌, ◌++◌, replicate, Bytes,
  codes, eq_bytes, arith,
}
use cs.Shell.Jobs.{Jobs, reap}
use cs.Shell.Line.{tokenize, is_separator, scan_byte, end_token, run_line, split_loop, split_token}
use cs.Shell.History.{newline, no_history, add_to_history}
use cs.Shell.History.Ring.{Shows, no_history-Shows}
use cs.Shell.Execute.{Kernel, ended, moved, piped, fork_loop}
use cs.Shell.Session.{
  did, saved, Shell, Turn, Input, remember, run_pipe, run_action, run_actions, is_blank,
  get_history_filepath, execute_command, load, main_round, main_loop, main_session,
}
use cs.Shell.Session.Lines.{remembered, main_session-Shows}
use cs.Shell.Session.Pipes.{has_bar, main_round-frees}

abbrev kernel : Kernel
kernel = record {
  home = some (codes "/root");
  chdir = λ d. true;
  stdin = λ i. ended;
  open_file = λ name. none;
  write = λ bs. none;
  write_beyond = none;
  fork = some 40;
  pipe = λ i. true;
  pipe_fork = λ i. some (50 + i);
}

abbrev jobs : Jobs
jobs = record { child_process = replicate 64 0; child_process_idx = 0 }

abbrev types : Bytes → Input
types line = record { pids = []; line = line; kernels = λ i. kernel }

abbrev cd_line : Bytes
cd_line = b'c' ∷ b'd' ∷ newline ∷ []

abbrev path : Bytes
path = codes "/root/.my_shell_history"

abbrev start : Shell
start = record { history = load (λ p. none) (some (codes "/root")); jobs = jobs }

-- What the loop of main does behind the line "cd".
abbrev at_home : Turn
at_home = record {
  deeds = did (moved (some (codes "/root"))) ∷ [];
  shell = record { history = add_to_history no_history cd_line; jobs = jobs };
  is_over = false;
}

loop_at_cd : main_loop (λ p. true) (types cd_line ∷ []) start ≡ some at_home
unfolding load get_history_filepath main_loop main_round run_actions run_action execute_command
    tokenize is_separator scan_byte end_token eq_bytes run_line split_loop split_token is_blank reap
loop_at_cd = refl

main_session-Shows_example :
    (r : Turn) × (bytes : Bytes) × (main_session
        (λ p. none)
        (λ p. true)
        (some (codes "/root"))
        (types cd_line ∷ [])
        jobs
      ≡ some r)
    × (r.deeds ≡ at_home.deeds ++ saved path bytes ∷ [])
    × Shows (load (λ p. some bytes) (some (codes "/root"))) (remembered (types cd_line ∷ []) [])
unfolding get_history_filepath load
main_session-Shows_example =
    main_session-Shows (λ p. none) (λ p. true) (codes "/root") path (types cd_line ∷ []) jobs []
      at_home no_history-Shows tt (omega arith, tt) loop_at_cd refl refl refl

abbrev pipe_line : Bytes
pipe_line = codes "ls | wc" ++ newline ∷ []

abbrev pipe_tokens : List Bytes
pipe_tokens = codes "ls" ∷ codes "|" ∷ codes "wc" ∷ []

abbrev behind_pipe : Turn
behind_pipe = record {
  deeds = did (piped ((codes "ls" ∷ []) ∷ (codes "wc" ∷ []) ∷ [])) ∷ [];
  shell = record { history = remember pipe_line start.history; jobs = jobs };
  is_over = false;
}

main_round-frees_example : main_round (λ p. true) (types pipe_line) start ≡ (
    if behind_pipe.is_over
    then some behind_pipe
    else if has_bar pipe_tokens
    then none
    else some behind_pipe)
unfolding run_actions run_action run_pipe fork_loop tokenize is_separator scan_byte end_token
    run_line split_loop split_token reap eq_bytes
main_round-frees_example =
    main_round-frees (λ p. true) (types pipe_line) start pipe_tokens behind_pipe refl refl

double_free : main_round (λ p. true) (types pipe_line) start ≡ none
unfolding run_actions run_action run_pipe fork_loop tokenize is_separator scan_byte end_token
    run_line split_loop split_token reap eq_bytes
double_free = main_round-frees (λ p. true) (types pipe_line) start pipe_tokens behind_pipe refl refl
