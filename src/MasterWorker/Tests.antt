-- ===== src/MasterWorker/Tests.antt =====
-- A run of lab_threads/pthreads-sync-code/master-worker/master-worker.c, with one item, one master
-- and two workers, and the theorems about the threads in it.
use cs.Base.{ℕ, ◌+◌, ◌%◌, ◌≡◌, ◌≢◌, refl, [], ◌∷◌, arith, ltb}
use cs.Base.Family.{bit, update, count}
use cs.MasterWorker.{
  Args, fault, produce, generate_requests, turn, take_item, next_turn, consume_item, unlocked,
  ended, at_test, returned, broadcast, init, unheard, System, Reach, start, later, master_waits,
  master_goes, master_again, master_ends, worker_waits, worker_returns, worker_consumes,
  spurious_master, spurious_worker,
}
use cs.MasterWorker.Ends.{IsStuck, IsDone, stuck-IsDone, consumed-in_turn}
use cs.MasterWorker.Items.{occurs, buffered, generate_requests-once}

abbrev args : Args
args = record { total_items = 1; max_buf_size = 1; num_workers = 2; num_masters = 1 }

abbrev began : System
began = init (λ _. 7)

abbrev filled : System
filled = record {
  shared = record {
    item_to_produce = 1;
    curr_buf_size = 1;
    buffer = update (λ _. 7) 0 0;
    worker_turn = 0;
    produced = (0, 0) ∷ [];
    consumed = [];
  };
  master = update began.master 0 unlocked;
  worker = broadcast began.worker;
}

abbrev emptied : System
emptied = record {
  shared = record {
    item_to_produce = 1;
    curr_buf_size = 0;
    buffer = update (λ _. 7) 0 0;
    worker_turn = 1;
    produced = (0, 0) ∷ [];
    consumed = (0, 0) ∷ [];
  };
  master = filled.master;
  worker = update (broadcast filled.worker) 0 (at_test turn);
}

abbrev passed : ℕ → ℕ → System → System
passed i next s = record s {
  shared = record (s.shared) { worker_turn = next };
  worker = update (broadcast s.worker) i returned;
}

abbrev finished : System
finished = passed 0 1 (passed 1 0 (record emptied { master = update emptied.master 0 ended }))

filled-Reach : Reach args filled
unfolding generate_requests produce count
filled-Reach = later (start (λ _. 7)) (master_goes 0 (omega arith) refl refl (unheard refl))

emptied-Reach : Reach args emptied
unfolding consume_item take_item next_turn count
emptied-Reach =
    later filled-Reach (worker_consumes 0 {p = turn} (omega arith) refl refl (unheard refl))

finished-Reach : Reach args finished
unfolding consume_item take_item next_turn
finished-Reach =
    later
      (later (later emptied-Reach (master_ends 0 (omega arith) refl (omega arith)))
        (worker_returns 1 {p = turn} (omega arith) refl refl))
      (worker_returns 0 {p = turn} (omega arith) refl refl)

finished-IsStuck : IsStuck args finished
finished-IsStuck t (master_waits i h at e) = ground arith
finished-IsStuck t (master_goes i h at e w) = ground arith
finished-IsStuck t (master_again i h at more) = ground arith
finished-IsStuck t (master_ends i h at all) = ground arith
finished-IsStuck t (worker_waits i h at e) = ground arith
finished-IsStuck t (worker_returns i h at e) = ground arith
finished-IsStuck t (worker_consumes i h at e w) = ground arith
finished-IsStuck t (spurious_master i h at) = refl
finished-IsStuck t (spurious_worker i h at) = refl

stuck-IsDone_example : IsDone args finished
stuck-IsDone_example =
    stuck-IsDone (omega arith) (omega arith) (omega arith) finished-Reach finished-IsStuck

consumed-in_turn_example : ◌≡◌ {A = ℕ} 0 (0 % 2)
consumed-in_turn_example = consumed-in_turn [] [] 0 0 emptied-Reach refl

generate_requests-once_example :
    (generate_requests args 0 filled.shared ≢ fault)
    × ((x : ℕ)
        → (occurs x filled.shared.consumed + buffered x filled.shared
            ≡ occurs x filled.shared.produced)
          × (occurs x filled.shared.produced ≡ bit (ltb x filled.shared.item_to_produce)))
generate_requests-once_example = generate_requests-once 0 filled-Reach
