-- ===== src/JobShell/Eval/Rounds.antt =====
-- The loop of `main` in lab_shell/shell/main.c over the list of jobs.
use cs.Base.{
  ℕ, ◌+◌, ◌<◌, ◌≤◌, ◌≡◌, ◌≢◌, refl, ap, ◌∙◌, subst, inl, inr, false, Option, none, some, List, [],
  ◌∷◌, ◌++◌, arith, ◌==◌, Bool-cases, length, Bytes,
}
use cs.JobShell.Jobs.{Ptr, null, Job, Run, ok}
use cs.JobShell.Jobs.Segments.{Cell, cell, Cells, IsJobs}
use cs.JobShell.Jobs.Find.{before, behind, find}
use cs.JobShell.Jobs.Add.{add_job_to_background_jobs_list-IsJobs}
use cs.JobShell.Jobs.Update.{update_background_jobs_list-found}
use cs.JobShell.Jobs.Show.{print-found}
use cs.JobShell.Eval.{
  Action, exit_shell, no_output_file, redirect, background, change_home, change_directory, cat,
  echo, list_jobs, run, eval_command, Shell, execute_background_command, perform, reap_loop,
  is_exit, Round, perform_line, main_round,
}

abbrev pub erase : ℕ → Cells → Cells
erase pid cs = before pid cs ++ behind pid cs

abbrev pub erase_all : List ℕ → Cells → Cells
erase_all [] cs = cs
erase_all (pid ∷ pids) cs = erase_all pids (erase pid cs)

-- Every child is a job, the later ones among what the earlier ones leave.
abbrev pub AreJobs : List ℕ → Cells → Type 0
AreJobs [] cs = Unit {0}
AreJobs (pid ∷ pids) cs = ((c : Cell) × (find pid cs ≡ some c)) × AreJobs pids (erase pid cs)

length-erase : (pid : ℕ) (cs : Cells) → length (erase pid cs) ≤ length cs
unfolding before behind
length-erase pid [] = omega arith
length-erase pid (c ∷ cs) = elim (Bool-cases (c.job.pid == pid)) [
  | inl hit ↦ rw hit (omega arith)
  | inr miss ↦ rw miss (omega (arith, length-erase pid cs))
]

length-erase_all : (pids : List ℕ) (cs : Cells) → length (erase_all pids cs) ≤ length cs
length-erase_all [] cs = omega arith
length-erase_all (pid ∷ pids) cs =
    omega (arith, length-erase pid cs, length-erase_all pids (erase pid cs))

-- What a shell has after some children were taken out.
record Reaped (s : Shell) (cs : Cells) (t : Shell) : Type 0 where
  jobs : IsJobs t.jobs cs
  same_id : t.background_job_id ≡ s.background_job_id
  free_stay : (a : Ptr) → s.jobs.heap a ≡ none → t.jobs.heap a ≡ none

reap_loop-Reaped :
    (fuel : ℕ) (pids : List ℕ) (s : Shell) (cs : Cells)
    → IsJobs s.jobs cs
    → length cs < fuel
    → AreJobs pids cs
    → (t : Shell) × (reap_loop fuel pids s ≡ ok t) × Reaped s (erase_all pids cs) t
unfolding reap_loop
reap_loop-Reaped fuel [] s cs is enough are =
    (s, refl, record { jobs = is; same_id = refl; free_stay = λ a u. u })
reap_loop-Reaped fuel (pid ∷ pids) s cs is enough ((c, there), are) =
    let (l, updated, (is_l, freed, stay)) =
      update_background_jobs_list-found fuel pid s.jobs cs is enough there in
    let (t, reaped, r) =
      reap_loop-Reaped fuel pids (record s { jobs = l }) (erase pid cs) is_l
        (omega (arith, length-erase pid cs)) are in
    (
      t,
      rw (print-found fuel pid s.jobs cs is enough there, updated) reaped,
      record { jobs = r.jobs; same_id = r.same_id; free_stay = λ a u. r.free_stay a (stay a u) },
    )

-- The jobs after an action, with the number that a new one gets.
abbrev pub performed : Ptr → ℕ → ℕ → Action → Cells → Cells
performed fresh pid id (background tokens) cs =
    cs ++ cell fresh (record { job_id = id; pid = pid; command_tokens = tokens }) ∷ []
performed fresh pid id _ cs = cs

perform-IsJobs :
    (fresh : Ptr) (pid : ℕ) (a : Action) (s : Shell) (cs : Cells)
    → IsJobs s.jobs cs
    → fresh ≢ null
    → s.jobs.heap fresh ≡ none
    → (t : Shell) × (perform fresh pid a s ≡ ok t)
      × IsJobs t.jobs (performed fresh pid s.background_job_id a cs)
unfolding perform execute_background_command
perform-IsJobs fresh pid (background tokens) s cs is ne unused =
    let job : Job = record { job_id = s.background_job_id; pid = pid; command_tokens = tokens } in
    let (l, added, (is_l, _, _)) =
      add_job_to_background_jobs_list-IsJobs s.jobs cs fresh job is ne unused in
    (record { jobs = l; background_job_id = s.background_job_id + 1 }, rw added refl, is_l)
perform-IsJobs fresh pid exit_shell s cs is ne unused = (s, refl, is)
perform-IsJobs fresh pid no_output_file s cs is ne unused = (s, refl, is)
perform-IsJobs fresh pid (redirect x y z) s cs is ne unused = (s, refl, is)
perform-IsJobs fresh pid change_home s cs is ne unused = (s, refl, is)
perform-IsJobs fresh pid (change_directory d) s cs is ne unused = (s, refl, is)
perform-IsJobs fresh pid (cat fs) s cs is ne unused = (s, refl, is)
perform-IsJobs fresh pid (echo b) s cs is ne unused = (s, refl, is)
perform-IsJobs fresh pid list_jobs s cs is ne unused = (s, refl, is)
perform-IsJobs fresh pid (run ts) s cs is ne unused = (s, refl, is)

perform_line-IsJobs :
    (r : Round) (b : ℕ) (bs : Bytes) (a : Action) (s : Shell) (cs : Cells)
    → IsJobs s.jobs cs
    → r.fresh ≢ null
    → s.jobs.heap r.fresh ≡ none
    → eval_command (b ∷ bs) ≡ some a
    → is_exit a ≡ false
    → (t : Shell) × (perform_line r (b ∷ bs) s ≡ ok (some t))
      × IsJobs t.jobs (performed r.fresh r.pid s.background_job_id a cs)
unfolding perform_line
perform_line-IsJobs r b bs a s cs is ne unused evals stays =
    let (t, runs, is_t) = perform-IsJobs r.fresh r.pid a s cs is ne unused in
    (t, rw (perform_line, evals, stays, runs) refl, is_t)

main_round_parts :
    (fuel : ℕ) (r : Round) (s s1 s2 : Shell) (line : Bytes) (o : Run (Option Shell))
    → reap_loop fuel r.ended s ≡ ok s1
    → reap_loop fuel r.ended_later s1 ≡ ok s2
    → r.line ≡ some line
    → perform_line r line s2 ≡ o
    → main_round fuel r s ≡ o
unfolding main_round
main_round_parts fuel r s s1 s2 line o first later typed runs =
    rw (main_round, first, later)
      (ap (λ l. elim l [ none ↦ ok none | some x ↦ perform_line r x s2 ]) typed ∙ runs)

-- On a doubly linked list of jobs with right ends and distinct addresses, with more fuel than
-- cells, when the children that have ended before and behind the reading of the line are jobs
-- that are left, the fresh address is not null and not in use, and the line is not empty and
-- evaluated to an action other than exit, a round of the loop of main returns a list of the same
-- kind: those jobs without those children, and with a new one at the end if the action starts a
-- job in the background.
pub main_round-IsJobs :
    (fuel : ℕ) (r : Round) (s : Shell) (cs : Cells) (b : ℕ) (bs : Bytes) (a : Action)
    → IsJobs s.jobs cs
    → length cs < fuel
    → AreJobs r.ended cs
    → AreJobs r.ended_later (erase_all r.ended cs)
    → r.fresh ≢ null
    → s.jobs.heap r.fresh ≡ none
    → r.line ≡ some (b ∷ bs)
    → eval_command (b ∷ bs) ≡ some a
    → is_exit a ≡ false
    → (t : Shell) × (main_round fuel r s ≡ ok (some t))
      × IsJobs t.jobs (
          performed r.fresh r.pid s.background_job_id a
            (erase_all r.ended_later (erase_all r.ended cs)))
main_round-IsJobs fuel r s cs b bs a is enough are later ne unused typed evals stays =
    let (s1, reaped, r1) = reap_loop-Reaped fuel r.ended s cs is enough are in
    let cs1 = erase_all r.ended cs in
    let (s2, reaped_later, r2) =
      reap_loop-Reaped fuel r.ended_later s1 cs1 r1.jobs
        (omega (arith, length-erase_all r.ended cs)) later in
    let (t, runs, is_t) =
      perform_line-IsJobs r b bs a s2 (erase_all r.ended_later cs1) r2.jobs ne
        (r2.free_stay r.fresh (r1.free_stay r.fresh unused)) evals stays in
    (
      t,
      main_round_parts fuel r s s1 s2 (b ∷ bs) (ok (some t)) reaped reaped_later typed runs,
      subst (λ id. IsJobs t.jobs (performed r.fresh r.pid id a (erase_all r.ended_later cs1)))
          (r2.same_id ∙ r1.same_id) is_t,
    )
