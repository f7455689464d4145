-- ===== src/Kv/Queue.antt =====
-- The queue of connections of lab_nw/kv-server-pool/server.c: the loop of main appends each client
-- that accept gives, and the threads of the pool take them off. A thread holds fd_queue_lock from
-- its lock to its wait or unlock, so that a section is one step.
pub mod Cells
pub mod Order
mod Tests
use cs.Base.{
  ℕ, ◌<◌, ◌≡◌, ◌≢◌, Bool, true, false, Option, none, some, List, [], ◌∷◌, ◌++◌, ◌==◌, if◌then◌else◌,
}
use cs.Base.Family.{update, count}
use cs.Kv.Memory.{Ptr, null}

-- `fd_queue_t`
pub record FdNode : Type 0 where
  pub client_fd : ℕ
  pub next : Ptr

abbrev pub fd_node : ℕ → Ptr → FdNode
fd_node fd q = record { client_fd = fd; next = q }

-- `fd_queue_head`, `fd_queue_tail` and the nodes at their addresses.
pub record Queue : Type 0 where
  pub head : Ptr
  pub tail : Ptr
  pub heap : Ptr → Option FdNode

-- The new node behind the last one; `none` is an access through `NULL` or to no node.
unfoldable pub hook : Ptr → Queue → Option FdNode → Option Queue
hook fresh q none = none
hook fresh q (some n) =
    if q.tail == null
    then none
    else some
        (record q { heap = update q.heap q.tail (some (record n { next = fresh })); tail = fresh })

unfoldable pub append_fd : Ptr → Queue → Option Queue
unfolding hook
append_fd fresh q =
    if q.head == null
    then some (record q { head = fresh; tail = fresh })
    else hook fresh q (q.heap q.tail)

-- A client in the loop of main, in the node that `malloc` returned.
unfoldable pub enqueue : Ptr → ℕ → Queue → Option Queue
unfolding append_fd
enqueue fresh fd q =
    if fresh == null
    then none
    else append_fd fresh (record q { heap = update q.heap fresh (some (fd_node fd null)) })

-- A section of a thread waits on `fd_queue_cond`, or takes the first client.
pub data Taken : Type 0 where
  waits : Taken
  took : (client_fd : ℕ) → Queue → Taken
  fault : Taken

-- The node is this thread's alone from here on, and is never freed.
unfoldable pub take_first : Queue → Option FdNode → Taken
take_first q none = fault
take_first q (some n) = took n.client_fd (record {
  head = n.next;
  tail = if n.next == null then null else q.tail;
  heap = update q.heap q.head (some (record n { next = null }));
})

unfoldable pub dequeue : Queue → Taken
unfolding take_first
dequeue q = if q.head == null then waits else take_first q (q.heap q.head)

-- Where a thread of the pool stands: before the test of its wait, asleep, or with a client.
pub data Pc : Type 0 where
  at_test : Pc
  asleep : Pc
  serving : (client_fd : ℕ) → Pc

abbrev pub is_asleep : Pc → Bool
is_asleep asleep = true
is_asleep _ = false

abbrev pub is_awake : Pc → Bool
is_awake asleep = false
is_awake _ = true

-- The queue and the threads, with the clients accepted and those taken, oldest first.
pub record Pool : Type 0 where
  pub queue : Queue
  pub pc : ℕ → Pc
  pub accepted : List ℕ
  pub taken : List (ℕ × ℕ)

-- `pthread_cond_signal(&fd_queue_cond)` wakes one of the threads that wait, if there is one.
pub data Signalled (n : ℕ) (pc : ℕ → Pc) : (ℕ → Pc) → Type 0 where
  unheard : count is_asleep n pc ≡ 0 → Signalled n pc pc
  heard : (j : ℕ) → j < n → pc j ≡ asleep → Signalled n pc (update pc j at_test)

pub data Step (n : ℕ) (s : Pool) : Pool → Type 0 where
  accepts :
      (fresh fd : ℕ) {q : Queue} {pc : ℕ → Pc}
      → s.queue.heap fresh ≡ none
      → enqueue fresh fd s.queue ≡ some q
      → Signalled n s.pc pc
      → Step n s (record s { queue = q; pc = pc; accepted = s.accepted ++ fd ∷ [] })
  sleeps :
      (i : ℕ)
      → i < n
      → s.pc i ≡ at_test
      → dequeue s.queue ≡ waits
      → Step n s (record s { pc = update s.pc i asleep })
  takes :
      (i : ℕ) {fd : ℕ} {q : Queue}
      → i < n
      → s.pc i ≡ at_test
      → dequeue s.queue ≡ took fd q
      → Step n s
          (record s { queue = q; pc = update s.pc i (serving fd); taken = s.taken ++ (fd, i) ∷ [] })
  -- the client has disconnected
  leaves :
      (i : ℕ) {fd : ℕ} {pc : ℕ → Pc}
      → i < n
      → s.pc i ≡ serving fd
      → Signalled n (update s.pc i at_test) pc
      → Step n s (record s { pc = pc })
  -- a wait may also end with no signal
  spurious : (i : ℕ) → i < n → s.pc i ≡ asleep → Step n s (record s { pc = update s.pc i at_test })

-- `h` is what the memory holds when the queue is empty: nodes of others, which it does not touch.
abbrev pub init : (Ptr → Option FdNode) → Pool
init h = record {
  queue = record { head = null; tail = null; heap = h };
  pc = λ _. at_test;
  accepted = [];
  taken = [];
}

pub data Reach (n : ℕ) : Pool → Type 0 where
  start : (h : Ptr → Option FdNode) → Reach n (init h)
  later : {s t : Pool} → Reach n s → Step n s t → Reach n t
