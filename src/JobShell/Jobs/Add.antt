-- ===== src/JobShell/Jobs/Add.antt =====
-- `addJobToBackgroundJobsList` of lab_shell/shell/eval.c.
use cs.Base.{◌≡◌, ◌≢◌, refl, none, some, [], ◌∷◌, ◌++◌, arith}
use cs.Base.Family.{update}
use cs.JobShell.Jobs.{
  Ptr, null, Job, node, JobList, ok, put, append_node, add_job_to_background_jobs_list,
}
use cs.JobShell.Jobs.Segments.{
  Cell, cell, Cells, nil, cons, Seg-append, Seg-relink_last, Seg-last, Seg-last-Holds,
  Seg-first-Holds, at_unused, at_cases, not_null, set_next-Holds, set_prev-Holds, IsJobs,
  Distinct-append,
}

-- What adding a job leaves.
abbrev pub Added : JobList → Cells → Ptr → Job → JobList → Type 0
Added l cs fresh j t =
    IsJobs t (cs ++ cell fresh j ∷ [])
    × (t.current_job_id ≡ j.job_id)
    × (t.previous_job_id ≡ l.current_job_id)

module _ (l : JobList) (fresh : Ptr) (j : Job) (ne : fresh ≢ null)
    (unused : l.heap fresh ≡ none) where
  add-nil :
      IsJobs l []
      → (t : JobList) × (add_job_to_background_jobs_list fresh j l ≡ ok t) × Added l [] fresh j t
  unfolding add_job_to_background_jobs_list append_node
  add-nil empty = (
    record {
      head = fresh;
      tail = fresh;
      current_job_id = j.job_id;
      previous_job_id = l.current_job_id;
      heap = update l.heap fresh (some (node j null null));
    },
    rw empty refl,
    ((cons (record { ne_null = ne; held = ground arith }) nil, (refl, tt)), refl, refl),
  )

  add-cons :
      {c : Cell} {cs : Cells}
      → IsJobs l (c ∷ cs)
      → (t : JobList) × (add_job_to_background_jobs_list fresh j l ≡ ok t)
        × Added l (c ∷ cs) fresh j t
  unfolding add_job_to_background_jobs_list append_node
  add-cons {c} {cs} (s, d) =
      let out = at_unused fresh s unused in
      let inside = Seg-last s in
      let (first, e_head) = Seg-first-Holds s in
      let (n, e) = Seg-last-Holds s in
      let apart = at_cases l.tail fresh (c ∷ cs) inside out in
      let l0 = put l fresh (some (node j null null)) in
      let l1 = put l0 l.tail (some (record n { next = fresh })) in
      let l2 = put l1 fresh (some (node j null l.tail)) in
      (
        record l2 { tail = fresh; previous_job_id = l.current_job_id; current_job_id = j.job_id },
        rw
            (
              not_null e_head,
              set_next-Holds l0 {n = n} fresh
                  (record { ne_null = e.ne_null; held = ground (arith, apart, e.held) }),
              set_prev-Holds l1 {n = node j null null} l.tail
                  (record { ne_null = ne; held = ground (arith, apart) }),
            )
            refl,
        (
          (
            Seg-append
                (Seg-relink_last l2.heap fresh s d
                  (λ x i o. ground (arith, at_cases x fresh (c ∷ cs) i out, o))
                  (λ m h. ground (arith, apart, e.held, h)))
                (cons (record { ne_null = ne; held = ground arith }) nil),
            Distinct-append (c ∷ cs) (cell fresh j) d out,
          ),
          refl,
          refl,
        ),
      )

-- On a doubly linked list of jobs with right ends and distinct addresses, with a fresh address
-- that is not null and not in use, adding a job returns a list of the same kind with the job at
-- its end, its number as the current one and the current one as the previous.
pub add_job_to_background_jobs_list-IsJobs :
    (l : JobList) (cs : Cells) (fresh : Ptr) (j : Job)
    → IsJobs l cs
    → fresh ≢ null
    → l.heap fresh ≡ none
    → (t : JobList) × (add_job_to_background_jobs_list fresh j l ≡ ok t) × Added l cs fresh j t
add_job_to_background_jobs_list-IsJobs l [] fresh j is ne unused = add-nil l fresh j ne unused is
add_job_to_background_jobs_list-IsJobs l (c ∷ cs) fresh j is ne unused =
    add-cons l fresh j ne unused is
