-- ===== src/JobShell/Jobs.antt =====
-- The list of background jobs of lab_shell/shell/eval.c: nodes in memory, each with the next and the
-- one before it. The loops run on fuel.
pub mod Segments
pub mod Find
pub mod Remove
pub mod Update
pub mod Add
pub mod Show
mod Tests
use cs.Base.{
  ℕ, zero, suc, Bool, true, false, Option, none, some, List, [], ◌∷◌, ◌==◌, if◌then◌else◌, Bytes,
}
use cs.Base.Family.{update}

abbrev pub Ptr : Type 0
Ptr = ℕ

abbrev pub null : Ptr
null = 0

-- `BackgroundJob`
pub record Job : Type 0 where
  pub job_id : ℕ
  pub pid : ℕ
  pub command_tokens : List Bytes

-- `BackgroundJobNode`
pub record Node : Type 0 where
  pub job : Job
  pub next : Ptr
  pub prev : Ptr

abbrev pub node : Job → Ptr → Ptr → Node
node j q p = record { job = j; next = q; prev = p }

abbrev pub Heap : Type 0
Heap = Ptr → Option Node

-- `struct BackgroundJobList`, with the memory of its nodes.
pub record JobList : Type 0 where
  pub head : Ptr
  pub tail : Ptr
  pub current_job_id : ℕ
  pub previous_job_id : ℕ
  pub heap : Heap

unfoldable pub initialize_background_jobs_list : Heap → JobList
initialize_background_jobs_list h = record {
  head = null;
  tail = null;
  current_job_id = 0;
  previous_job_id = 0;
  heap = h;
}

-- A fault is an access through `NULL` or to a node that is not there.
pub data Run (A : Type 0) : Type 0 where
  ok : A → Run A
  fault : Run A
  out_of_fuel : Run A

module _ {A B : Type 0} where
  infixl 5 ◌>>=◌
  abbrev pub ◌>>=◌ : Run A → (A → Run B) → Run B
  ok a >>= k = k a
  fault >>= k = fault
  out_of_fuel >>= k = out_of_fuel

abbrev pub put : JobList → Ptr → Option Node → JobList
put l p n = record l { heap = update l.heap p n }

unfoldable pub load : Ptr → Heap → Run Node
load p h = if p == null then fault else elim (h p) [ none ↦ fault | some n ↦ ok n ]

unfoldable pub set_next : Ptr → Ptr → JobList → Run JobList
set_next p q l = do n ← load p l.heap; ok (put l p (some (record n { next = q })))

unfoldable pub set_prev : Ptr → Ptr → JobList → Run JobList
set_prev p q l = do n ← load p l.heap; ok (put l p (some (record n { prev = q })))

-- `while (currentNode != NULL && currentNode->job.pid != childProcessId)`
unfoldable pub find_loop : ℕ → ℕ → Ptr → Heap → Run Ptr
find_loop pid zero p h = out_of_fuel
find_loop pid (suc k) p h =
    if p == null
    then ok null
    else do n ← load p h; if n.job.pid == pid then ok p else find_loop pid k n.next h

-- The node is taken out of the list, which it leads.
unfoldable pub remove_head : Node → JobList → Run JobList
remove_head n l =
    if n.next == null
    then ok (record l { head = n.next })
    else set_prev n.next null (record l { head = n.next })

-- The last node.
unfoldable pub remove_tail : Node → JobList → Run JobList
remove_tail n l =
    if n.prev == null
    then ok (record l { tail = n.prev })
    else set_next n.prev null (record l { tail = n.prev })

unfoldable pub remove_middle : Node → JobList → Run JobList
remove_middle n l = do l1 ← set_next n.prev n.next l; set_prev n.next n.prev l1

unfoldable pub remove_node : Node → JobList → Run JobList
remove_node n l =
    if n.prev == null
    then remove_head n l
    else if n.next == null
    then remove_tail n l
    else remove_middle n l

-- `free(currentNode)`
unfoldable pub free_node : Ptr → JobList → Run JobList
free_node p l = do n ← load p l.heap; ok (put l p none)

-- The tokens of the node are freed through it also when no node was found.
unfoldable pub update_background_jobs_list : ℕ → ℕ → JobList → Run JobList
update_background_jobs_list fuel pid l = do
  p ← find_loop pid fuel l.head l.heap
  if p == null then free_node p l else do n ← load p l.heap; l1 ← remove_node n l; free_node p l1

-- The new node is linked behind the tail; `fresh` is what `malloc` returned for it.
unfoldable pub append_node : Ptr → JobList → Run JobList
append_node fresh l = if l.head == null then ok (record l { head = fresh; tail = fresh }) else do
  l1 ← set_next l.tail fresh l
  l2 ← set_prev fresh l1.tail l1
  ok (record l2 { tail = fresh })

unfoldable pub add_job_to_background_jobs_list : Ptr → Job → JobList → Run JobList
add_job_to_background_jobs_list fresh j l = do
  l1 ← append_node fresh (put l fresh (some (node j null null)))
  ok (record l1 { previous_job_id = l1.current_job_id; current_job_id = j.job_id })

-- `printJobCompletionMessage`: the job that is printed.
unfoldable pub print_job_completion_message : ℕ → ℕ → JobList → Run (Option Job)
print_job_completion_message fuel pid l = do
  p ← find_loop pid fuel l.head l.heap
  if p == null then ok none else do n ← load p l.heap; ok (some n.job)

-- `+`, `-` or a space in a line of `jobs`.
pub data Mark : Type 0 where
  current previous other : Mark

unfoldable pub mark : JobList → Job → Mark
mark l j =
    if j.job_id == l.current_job_id
    then current
    else if j.job_id == l.previous_job_id
    then previous
    else other

-- The loop of `jobs`.
unfoldable pub jobs_loop : ℕ → Ptr → JobList → Run (List (Mark × Job))
jobs_loop zero p l = out_of_fuel
jobs_loop (suc k) p l =
    if p == null
    then ok []
    else do n ← load p l.heap; rest ← jobs_loop k n.next l; ok ((mark l n.job, n.job) ∷ rest)
