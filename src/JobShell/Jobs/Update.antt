-- ===== src/JobShell/Jobs/Update.antt =====
-- `updateBackgroundJobsList` of lab_shell/shell/eval.c.
use cs.Base.{ℕ, ◌<◌, ◌≡◌, refl, subst, none, some, [], ◌∷◌, ◌++◌, length}
use cs.JobShell.Jobs.{null, JobList, ok, fault, load, free_node, update_background_jobs_list}
use cs.JobShell.Jobs.Segments.{
  Cell, Cells, Distinct, Seg, nil, Seg-Cut, Seg-Uncons, not_null, load-Holds, IsJobs,
}
use cs.JobShell.Jobs.Find.{before, behind, find, find_split, find_loop-find}
use cs.JobShell.Jobs.Remove.{Removed, Distinct-Parts, remove-Parts}

-- On a doubly linked list of jobs with right ends and distinct addresses, with more fuel than
-- cells, when the first cell that has the process is c, the update returns a list of the same
-- kind without that cell, in order, whether c was the only one, the first, the last or in
-- between; its memory is freed and free memory stays free.
pub update_background_jobs_list-found :
    (fuel pid : ℕ) (l : JobList) (cs : Cells) {c : Cell}
    → IsJobs l cs
    → length cs < fuel
    → find pid cs ≡ some c
    → (t : JobList) × (update_background_jobs_list fuel pid l ≡ ok t)
      × Removed l (before pid cs ++ behind pid cs) c.addr t
unfolding update_background_jobs_list find
update_background_jobs_list-found fuel pid l [] is enough there = cc
update_background_jobs_list-found fuel pid l (d ∷ ds) {c} (s, apart) enough there =
    let split = find_split pid (d ∷ ds) c there in
    let xs = before pid (d ∷ ds) in
    let ys = behind pid (d ∷ ds) in
    let cut = Seg-Cut xs (subst (λ zs. Seg l.heap null l.head zs l.tail null) split s) in
    let u = Seg-Uncons cut.right in
    rw (find_loop-find pid fuel s enough, there, not_null u.holds, load-Holds u.holds)
      (remove-Parts l c xs ys u.holds
        (subst (λ q. Seg l.heap null l.head xs cut.last q) u.here cut.left) u.rest
        (Distinct-Parts xs c ys (subst Distinct split apart)))

-- With no job for the process, the tokens of `NULL` are freed.
update_background_jobs_list-missing :
    (fuel pid : ℕ) (l : JobList) (cs : Cells)
    → IsJobs l cs
    → length cs < fuel
    → find pid cs ≡ none
    → update_background_jobs_list fuel pid l ≡ fault
unfolding update_background_jobs_list free_node load find
update_background_jobs_list-missing fuel pid l [] is enough missing =
    rw
      (find_loop-find pid fuel {h = l.heap} {a = null} {p = l.head} {l = null} {cs = []} (rw is nil)
        enough)
      refl
update_background_jobs_list-missing fuel pid l (d ∷ ds) (s, apart) enough missing =
    rw (find_loop-find pid fuel s enough, missing) refl
