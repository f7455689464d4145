-- ===== src/JobShell/Jobs/Tests.antt =====
-- Three background jobs of lab_shell/shell/eval.c.
use cs.Base.{◌≡◌, ◌++◌, refl, none, some, [], ◌∷◌, arith}
use cs.Base.Family.{update}
use cs.JobShell.Jobs.{
  Job, node, Heap, JobList, ok, add_job_to_background_jobs_list, update_background_jobs_list,
}
use cs.JobShell.Jobs.Segments.{cell, Cells, nil, cons, IsJobs}
use cs.JobShell.Jobs.Find.{find, before, behind}
use cs.JobShell.Jobs.Remove.{Removed}
use cs.JobShell.Jobs.Add.{Added, add_job_to_background_jobs_list-IsJobs}
use cs.JobShell.Jobs.Update.{update_background_jobs_list-found}

abbrev job_1 : Job
job_1 = record { job_id = 1; pid = 101; command_tokens = (b'a' ∷ []) ∷ [] }

abbrev job_2 : Job
job_2 = record { job_id = 2; pid = 102; command_tokens = (b'b' ∷ []) ∷ [] }

abbrev job_3 : Job
job_3 = record { job_id = 3; pid = 103; command_tokens = (b'c' ∷ []) ∷ [] }

abbrev three_heap : Heap
three_heap =
    update (update (update (λ _. none) 5 (some (node job_1 6 0))) 6 (some (node job_2 7 5))) 7
      (some (node job_3 0 6))

abbrev three : JobList
three = record { head = 5; tail = 7; current_job_id = 3; previous_job_id = 2; heap = three_heap }

abbrev cells : Cells
cells = cell 5 job_1 ∷ cell 6 job_2 ∷ cell 7 job_3 ∷ []

three-IsJobs : IsJobs three cells
three-IsJobs = (
  cons (record { ne_null = λ e. absurd (omega arith); held = refl })
      (cons (record { ne_null = λ e. absurd (omega arith); held = refl })
        (cons (record { ne_null = λ e. absurd (omega arith); held = refl }) nil)),
  (refl, (refl, (refl, tt))),
)

found : find 102 cells ≡ some (cell 6 job_2)
unfolding find
found = refl

add_job_to_background_jobs_list-IsJobs_example :
    (t : JobList) × (add_job_to_background_jobs_list 8 job_1 three ≡ ok t)
    × Added three cells 8 job_1 t
add_job_to_background_jobs_list-IsJobs_example =
    add_job_to_background_jobs_list-IsJobs three cells 8 job_1 three-IsJobs
      (λ e. absurd (omega arith)) refl

update_background_jobs_list-found_example :
    (t : JobList) × (update_background_jobs_list 4 102 three ≡ ok t)
    × Removed three (before 102 cells ++ behind 102 cells) 6 t
update_background_jobs_list-found_example =
    update_background_jobs_list-found 4 102 three cells {c = cell 6 job_2} three-IsJobs
      (omega arith) found
