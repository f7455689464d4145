-- ===== src/MasterWorker.antt =====
-- The masters and workers of lab_threads/pthreads-sync-code/master-worker/master-worker.c. A thread
-- holds the mutex from its lock to its wait or unlock, so that a section is one step.
pub mod Ends
pub mod Items
pub mod Progress
mod Tests
pub mod Turns
use cs.Base.{
  ℕ, ◌+◌, ◌-◌, ◌%◌, ◌<◌, ◌≤◌, ◌≡◌, Bool, true, false, List, [], ◌∷◌, ◌==◌, ltb, leb, if◌then◌else◌,
}
use cs.Base.Family.{update, count}

-- The arguments of the program.
pub record Args : Type 0 where
  pub total_items : ℕ
  pub max_buf_size : ℕ
  pub num_workers : ℕ
  pub num_masters : ℕ

-- The globals, and what was printed, newest first, as a number and the thread that prints it.
pub record Shared : Type 0 where
  pub item_to_produce : ℕ
  pub curr_buf_size : ℕ
  pub buffer : ℕ → ℕ
  pub worker_turn : ℕ
  pub produced : List (ℕ × ℕ)
  pub consumed : List (ℕ × ℕ)

-- A section of a master waits on `master`, writes beyond the buffer, or goes on to its unlock.
pub data Outcome : Type 0 where
  waits : Outcome
  fault : Outcome
  goes : Shared → Outcome

-- `buffer[curr_buf_size++] = item_to_produce` and what follows it.
unfoldable pub produce : Args → ℕ → Shared → Outcome
produce a thread_id s =
    if ltb s.curr_buf_size a.max_buf_size
    then goes (record s {
      buffer = update s.buffer s.curr_buf_size s.item_to_produce;
      curr_buf_size = s.curr_buf_size + 1;
      produced = (s.item_to_produce, thread_id) ∷ s.produced;
      item_to_produce = s.item_to_produce + 1;
    })
    else fault

unfoldable pub generate_requests : Args → ℕ → Shared → Outcome
generate_requests a thread_id s =
    if s.curr_buf_size == a.max_buf_size
    then waits
    else if ltb s.item_to_produce a.total_items
    then produce a thread_id s
    else goes s

-- Which of its two loops a worker is in: for its turn, or for an item.
pub data Place : Type 0 where
  turn item : Place

-- A section of a worker waits on `worker`, returns, or consumes an item.
pub data Taken : Type 0 where
  sleeps : Place → Taken
  returns : Shared → Taken
  consumes : Shared → Taken

unfoldable pub next_turn : Args → Shared → ℕ
next_turn a s = (s.worker_turn + 1) % a.num_workers

-- The loop for an item, and what follows it.
unfoldable pub take_item : Args → ℕ → Shared → Taken
take_item a thread_id s =
    if s.curr_buf_size == 0
    then (if leb a.total_items s.item_to_produce
        then returns (record s { worker_turn = next_turn a s })
        else sleeps item)
    else consumes (record s {
      curr_buf_size = s.curr_buf_size - 1;
      consumed = (s.buffer (s.curr_buf_size - 1), thread_id) ∷ s.consumed;
      worker_turn = next_turn a s;
    })

-- A test of the loop that the worker is in.
unfoldable pub consume_item : Args → Place → ℕ → Shared → Taken
consume_item a turn thread_id s =
    if s.worker_turn == thread_id then take_item a thread_id s else sleeps turn
consume_item a item thread_id s = take_item a thread_id s

-- Where a master stands: before its lock or the test of its wait, asleep, behind its unlock, at its end.
pub data MasterPc : Type 0 where
  at_lock asleep unlocked ended : MasterPc

pub data WorkerPc : Type 0 where
  at_test : Place → WorkerPc
  asleep_at : Place → WorkerPc
  returned : WorkerPc

pub record System : Type 0 where
  pub shared : Shared
  pub master : ℕ → MasterPc
  pub worker : ℕ → WorkerPc

-- `pthread_cond_broadcast(&worker)`
abbrev pub rouse : WorkerPc → WorkerPc
rouse (asleep_at p) = at_test p
rouse p = p

abbrev pub broadcast : (ℕ → WorkerPc) → ℕ → WorkerPc
broadcast w k = rouse (w k)

abbrev pub is_asleep : MasterPc → Bool
is_asleep asleep = true
is_asleep _ = false

-- `pthread_cond_signal(&master)` wakes one of the masters that wait, if there is one.
pub data Signalled (n : ℕ) (m : ℕ → MasterPc) : (ℕ → MasterPc) → Type 0 where
  unheard : count is_asleep n m ≡ 0 → Signalled n m m
  heard : (j : ℕ) → j < n → m j ≡ asleep → Signalled n m (update m j at_lock)

pub data Step (a : Args) (s : System) : System → Type 0 where
  master_waits :
      (i : ℕ)
      → i < a.num_masters
      → s.master i ≡ at_lock
      → generate_requests a i s.shared ≡ waits
      → Step a s (record s { master = update s.master i asleep })
  master_goes :
      (i : ℕ) {t : Shared} {m : ℕ → MasterPc}
      → i < a.num_masters
      → s.master i ≡ at_lock
      → generate_requests a i s.shared ≡ goes t
      → Signalled a.num_masters (update s.master i unlocked) m
      → Step a s (record { shared = t; master = m; worker = broadcast s.worker })
  -- `if (item_to_produce >= total_items) break`, behind the unlock
  master_again :
      (i : ℕ)
      → i < a.num_masters
      → s.master i ≡ unlocked
      → s.shared.item_to_produce < a.total_items
      → Step a s (record s { master = update s.master i at_lock })
  master_ends :
      (i : ℕ)
      → i < a.num_masters
      → s.master i ≡ unlocked
      → a.total_items ≤ s.shared.item_to_produce
      → Step a s (record s { master = update s.master i ended })
  worker_waits :
      (i : ℕ) {p q : Place}
      → i < a.num_workers
      → s.worker i ≡ at_test p
      → consume_item a p i s.shared ≡ sleeps q
      → Step a s (record s { worker = update s.worker i (asleep_at q) })
  worker_returns :
      (i : ℕ) {p : Place} {t : Shared}
      → i < a.num_workers
      → s.worker i ≡ at_test p
      → consume_item a p i s.shared ≡ returns t
      → Step a s (record s { shared = t; worker = update (broadcast s.worker) i returned })
  worker_consumes :
      (i : ℕ) {p : Place} {t : Shared} {m : ℕ → MasterPc}
      → i < a.num_workers
      → s.worker i ≡ at_test p
      → consume_item a p i s.shared ≡ consumes t
      → Signalled a.num_masters s.master m
      → Step a s
          (record { shared = t; master = m; worker = update (broadcast s.worker) i (at_test turn) })
  -- a wait may also end with no signal
  spurious_master :
      (i : ℕ)
      → i < a.num_masters
      → s.master i ≡ asleep
      → Step a s (record s { master = update s.master i at_lock })
  spurious_worker :
      (i : ℕ) {p : Place}
      → i < a.num_workers
      → s.worker i ≡ asleep_at p
      → Step a s (record s { worker = update s.worker i (at_test p) })

-- `main` starts every thread; the buffer holds what `malloc` returns.
abbrev pub init : (ℕ → ℕ) → System
init b = record {
  shared = record {
    item_to_produce = 0;
    curr_buf_size = 0;
    buffer = b;
    worker_turn = 0;
    produced = [];
    consumed = [];
  };
  master = λ _. at_lock;
  worker = λ _. at_test turn;
}

pub data Reach (a : Args) : System → Type 0 where
  start : (b : ℕ → ℕ) → Reach a (init b)
  later : {s t : System} → Reach a s → Step a s t → Reach a t
