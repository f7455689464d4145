-- ===== src/JobShell/Eval.antt =====
-- `evalCommand` of lab_shell/shell/eval.c: what it does for a line, and what that leaves in the list of
-- jobs; and the loop of main.c. What the system does is an argument.
pub mod Dispatch
pub mod Rounds
mod Tests
use cs.Base.{
  ℕ, ◌+◌, ◌-◌, Bool, true, false, ◌&&◌, Option, none, some, List, [], ◌∷◌, ◌==◌, ltb, if◌then◌else◌,
  length, drop, Bytes, eq_bytes,
}
use cs.JobShell.Jobs.{
  Ptr, Job, JobList, Run, ok, fault, ◌>>=◌, add_job_to_background_jobs_list,
  update_background_jobs_list, print_job_completion_message,
}
use cs.JobShell.Line.{
  is_redirection, is_append, check_redirection_mode, check_append_redirection_mode,
  split_command_into_tokens,
}

pub data Action : Type 0 where
  exit_shell : Action
  no_output_file : Action
  redirect : (appends : Bool) → List Bytes → Bytes → Action
  background : List Bytes → Action
  change_home : Action
  change_directory : Bytes → Action
  cat : List Bytes → Action
  echo : Bytes → Action
  list_jobs : Action
  run : List Bytes → Action

-- `strncmp(command, prefix, strlen(prefix)) == 0`
unfoldable pub starts_with : Bytes → Bytes → Bool
starts_with [] bs = true
starts_with (p ∷ ps) [] = false
starts_with (p ∷ ps) (b ∷ bs) = (p == b) && starts_with ps bs

abbrev pub first_of : List Bytes → Option Bytes
first_of [] = none
first_of (t ∷ ts) = some t

-- The loop that ends the tokens at an operator, and the token behind it.
unfoldable pub cut_loop : (Bytes → Bool) → List Bytes → List Bytes × Option Bytes
cut_loop is_operator [] = ([], none)
cut_loop is_operator (t ∷ ts) =
    let rest = cut_loop is_operator ts in
    if is_operator t then ([], first_of ts) else (t ∷ rest.0, rest.1)

abbrev pub redirect_to : Bool → List Bytes × Option Bytes → Action
redirect_to appends (tokens, none) = no_output_file
redirect_to appends (tokens, some file) = redirect appends tokens file

-- All tokens but the last, and the last.
abbrev pub but_last : List Bytes → List Bytes
but_last [] = []
but_last (t ∷ []) = []
but_last (t ∷ (u ∷ us)) = t ∷ but_last (u ∷ us)

unfoldable pub last_is : Bytes → List Bytes → Bool
last_is b [] = false
last_is b (t ∷ []) = eq_bytes t b
last_is b (t ∷ (u ∷ us)) = last_is b (u ∷ us)

abbrev pub exit_word : Bytes
exit_word = b'e' ∷ b'x' ∷ b'i' ∷ b't' ∷ []

abbrev pub cd_word : Bytes
cd_word = b'c' ∷ b'd' ∷ []

abbrev pub cat_word : Bytes
cat_word = b'c' ∷ b'a' ∷ b't' ∷ []

abbrev pub echo_word : Bytes
echo_word = b'e' ∷ b'c' ∷ b'h' ∷ b'o' ∷ []

abbrev pub jobs_word : Bytes
jobs_word = b'j' ∷ b'o' ∷ b'b' ∷ b's' ∷ []

abbrev pub and_sign : Bytes
and_sign = b'&' ∷ []

-- `executeEchoCommand`
unfoldable pub execute_echo_command : Bytes → Bytes
execute_echo_command command = if ltb 5 (length command) then drop 5 command else []

-- From `strcmp(globalTokens[0], "cd")` on: it faults where there is no token.
unfoldable pub eval_builtin : Bytes → List Bytes → Option Action
eval_builtin command [] = none
eval_builtin command (t ∷ ts) =
    if eq_bytes t cd_word
    then some (elim (first_of ts) [ none ↦ change_home | some d ↦ change_directory d ])
    else if starts_with cat_word command
    then some (cat ts)
    else if starts_with echo_word command
    then some (echo (execute_echo_command command))
    else if eq_bytes t jobs_word
    then some list_jobs
    else some (run (t ∷ ts))

unfoldable pub eval_tokens : Bytes → List Bytes → Option Action
eval_tokens command tokens =
    if starts_with exit_word command
    then some exit_shell
    else if check_redirection_mode tokens
    then some (redirect_to false (cut_loop is_redirection tokens))
    else if check_append_redirection_mode tokens
    then some (redirect_to true (cut_loop is_append tokens))
    else if ltb 1 (length tokens) && last_is and_sign tokens
    then some (background (but_last tokens))
    else eval_builtin command tokens

-- `none` is a fault.
unfoldable pub eval_command : Bytes → Option Action
eval_command command = elim (split_command_into_tokens command) [
  | none ↦ none
  | some tokens ↦ eval_tokens command tokens
]

-- `bgJobs` and `backgroundJobID`.
pub record Shell : Type 0 where
  pub jobs : JobList
  pub background_job_id : ℕ

-- The shell's side: `fresh` is the node that `malloc` returns, and `pid` what `fork` does.
unfoldable pub execute_background_command : Ptr → ℕ → List Bytes → Shell → Run Shell
execute_background_command fresh pid tokens s = do
  l ←
      add_job_to_background_jobs_list fresh
        (record { job_id = s.background_job_id; pid = pid; command_tokens = tokens }) s.jobs
  ok (record { jobs = l; background_job_id = s.background_job_id + 1 })

unfoldable pub perform : Ptr → ℕ → Action → Shell → Run Shell
perform fresh pid (background tokens) s = execute_background_command fresh pid tokens s
perform fresh pid _ s = ok s

-- The loop over the children that `waitpid` gives.
unfoldable pub reap_loop : ℕ → List ℕ → Shell → Run Shell
reap_loop fuel [] s = ok s
reap_loop fuel (pid ∷ pids) s = do
  printed ← print_job_completion_message fuel pid s.jobs
  l ← update_background_jobs_list fuel pid s.jobs
  reap_loop fuel pids (record s { jobs = l })

abbrev pub is_exit : Action → Bool
is_exit exit_shell = true
is_exit _ = false

-- What one round of the loop of `main` is given: the children that have ended before and behind
-- `readline`, what that returns, and what `malloc` and `fork` do.
pub record Round : Type 0 where
  pub ended : List ℕ
  pub line : Option Bytes
  pub ended_later : List ℕ
  pub fresh : Ptr
  pub pid : ℕ

-- The shell, or `none` where it has left the loop.
unfoldable pub perform_line : Round → Bytes → Shell → Run (Option Shell)
perform_line r [] s = ok (some s)
perform_line r (b ∷ bs) s = elim (eval_command (b ∷ bs)) [
  | none ↦ fault
  | some a ↦ if is_exit a then ok none else do s1 ← perform r.fresh r.pid a s; ok (some s1)
]

unfoldable pub main_round : ℕ → Round → Shell → Run (Option Shell)
main_round fuel r s = do
  s1 ← reap_loop fuel r.ended s
  s2 ← reap_loop fuel r.ended_later s1
  elim r.line [ none ↦ ok none | some line ↦ perform_line r line s2 ]
