-- ===== src/JobShell/Jobs/Show.antt =====
-- `printJobCompletionMessage` and the command `jobs` of lab_shell/shell/eval.c.
use cs.Base.{
  ℕ, zero, suc, ◌<◌, ◌≡◌, refl, subst, some, [], ◌∷◌, arith, ◌==◌, map, length, Bool-cases, inl,
  inr,
}
use cs.JobShell.Jobs.{
  Ptr, null, Job, Node, node, Heap, JobList, ok, Mark, mark, jobs_loop,
  print_job_completion_message,
}
use cs.JobShell.Jobs.Segments.{
  Cell, cell, Cells, Holds, Seg, nil, cons, not_null, load-Holds, IsJobs,
}
use cs.JobShell.Jobs.Find.{find, find_loop-find}

abbrev pub line : JobList → Cell → Mark × Job
line l c = (mark l c.job, c.job)

jobs_loop-lines :
    (k : ℕ) (l : JobList) {a p m : Ptr} {cs : Cells}
    → Seg l.heap a p cs m null
    → length cs < k
    → jobs_loop k p l ≡ ok (map (line l) cs)
unfolding jobs_loop
jobs_loop-lines zero l s enough = absurd (omega arith)
jobs_loop-lines (suc k) l nil enough = refl
jobs_loop-lines (suc k) l (cons e s) enough =
    rw (not_null e, load-Holds e, jobs_loop-lines k l s (omega arith)) refl

jobs_loop-map :
    (k : ℕ) (l : JobList) (cs : Cells)
    → IsJobs l cs
    → length cs < k
    → jobs_loop k l.head l ≡ ok (map (line l) cs)
jobs_loop-map k l [] is enough =
    jobs_loop-lines k l {a = null} {m = null} {cs = []} (rw is nil) enough
jobs_loop-map k l (c ∷ cs) (s, d) enough = jobs_loop-lines k l s enough

find-Holds :
    (pid : ℕ) {h : Heap} {a p m : Ptr} {cs : Cells} {c : Cell}
    → Seg h a p cs m null
    → find pid cs ≡ some c
    → (n : Node) × Holds h c.addr n × (n.job ≡ c.job)
unfolding find
find-Holds pid {h} nil there = cc
find-Holds pid {h} (cons {a} {p} {r} {j} e s) there = elim (Bool-cases (j.pid == pid)) [
  | inl hit ↦
      let same : cell p j ≡ _ = cc (rw hit at there) in
      subst (λ d. (n : Node) × Holds h d.addr n × (n.job ≡ d.job)) same (node j r a, e, refl)
  | inr miss ↦ find-Holds pid s (rw miss at there)
]

pub print-found :
    (fuel pid : ℕ) (l : JobList) (cs : Cells) {c : Cell}
    → IsJobs l cs
    → length cs < fuel
    → find pid cs ≡ some c
    → print_job_completion_message fuel pid l ≡ ok (some c.job)
unfolding print_job_completion_message find
print-found fuel pid l [] is enough there = cc
print-found fuel pid l (d ∷ ds) (s, apart) enough there =
    let (n, e, same) = find-Holds pid s there in
    rw (find_loop-find pid fuel s enough, there, not_null e, load-Holds e, same) refl
