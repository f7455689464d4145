-- ===== src/MasterWorker/Turns/Steps.antt =====
-- The turns of the workers of lab_threads/pthreads-sync-code/master-worker/master-worker.c through
-- every step of the masters and workers.
use native.Mathlib.Nat.{zero-mod}
use cs.Base.{ℕ, ◌<◌, ◌≡◌, refl, subst}
use cs.Base.Family.{update, count, count-zero}
use cs.MasterWorker.{
  Args, Shared, Place, turn, Taken, sleeps, returns, consumes, consume_item, at_test, asleep_at,
  returned, broadcast, MasterPc, System, Step, Reach, start, later, master_waits, master_goes,
  master_again, master_ends, worker_waits, worker_returns, worker_consumes, spurious_master,
  spurious_worker,
}
use cs.MasterWorker.Turns.Moves.{
  Turns, ended, Made, generate_requests-Made, Made-Turns, moved-Turns, returned-Turns,
  consumed-Turns, roused-Fits,
}
use cs.MasterWorker.Turns.{
  InTurn, is_returned, Fits, Took, took_turn, took_item, took_return, took_consume,
  consume_item-Took,
}

slept-Fits :
    {a : Args} {i : ℕ} {s : Shared} {q : Place} (n : ℕ)
    → Took a i s (sleeps q)
    → Fits a s n i (asleep_at q)
unfolding Fits
slept-Fits n (took_turn ne) = ne
slept-Fits n (took_item v) = v

return-Turns :
    {a : Args} {s : System} {i : ℕ} {t : Shared} (p : Place)
    → Turns a s
    → i < a.num_workers
    → s.worker i ≡ at_test p
    → Took a i s.shared (returns t)
    → Turns a (record s { shared = t; worker = update (broadcast s.worker) i returned })
return-Turns p v h at (took_return own empty all) = returned-Turns _ p v h at own empty all

consume-Turns :
    {a : Args} {s : System} {i : ℕ} {t : Shared} (m : ℕ → MasterPc) (p : Place)
    → Turns a s
    → i < a.num_workers
    → s.worker i ≡ at_test p
    → Took a i s.shared (consumes t)
    → Turns a
        (record { shared = t; master = m; worker = update (broadcast s.worker) i (at_test turn) })
consume-Turns m p v h at (took_consume own some) = consumed-Turns m _ _ p v h at own some

-- A roused worker stands at the test of the loop that it slept in.
roused_at :
    (a : Args) (s : Shared) (n i : ℕ) (p : Place)
    → Fits a s n i (asleep_at p)
    → Fits a s n i (at_test p)
roused_at a s n i p v = roused-Fits a s n i (asleep_at p) v

Took-at :
    {a : Args} {s : System} (i : ℕ) (p : Place) {k : Taken}
    → Turns a s
    → s.worker i ≡ at_test p
    → consume_item a p i s.shared ≡ k
    → Took a i s.shared k
Took-at {a} {s} i p v at e = subst (Took a i s.shared) e (
    consume_item-Took a p i (ended a s) s.shared
      (subst (Fits a s.shared (ended a s) i) at (v.fits i)))

pub Step-Turns : {a : Args} {s t : System} → Turns a s → Step a s t → Turns a t
Step-Turns v (master_waits i h at e) = record { in_turn = v.in_turn; next = v.next; fits = v.fits }
Step-Turns {a} {s} v (master_goes i {m = m} h at e w) =
    Made-Turns m v (subst (Made a s.shared) e (generate_requests-Made a i s.shared))
Step-Turns v (master_again i h at more) = record {
  in_turn = v.in_turn;
  next = v.next;
  fits = v.fits;
}
Step-Turns v (master_ends i h at all) = record { in_turn = v.in_turn; next = v.next; fits = v.fits }
Step-Turns {a} {s} v (worker_waits i {p} {q} h at e) =
    moved-Turns i (asleep_at q) v h (rw at refl) refl (slept-Fits (ended a s) (Took-at i p v at e))
Step-Turns v (worker_returns i {p} h at e) = return-Turns p v h at (Took-at i p v at e)
Step-Turns v (worker_consumes i {p} {m = m} h at e w) =
    consume-Turns m p v h at (Took-at i p v at e)
Step-Turns v (spurious_master i h at) = record { in_turn = v.in_turn; next = v.next; fits = v.fits }
Step-Turns {a} {s} v (spurious_worker i {p} h at) =
    moved-Turns i (at_test p) v h (rw at refl) refl
      (roused_at a s.shared (ended a s) i p (subst (Fits a s.shared (ended a s) i) at (v.fits i)))

pub Reach-Turns : {a : Args} {s : System} → Reach a s → Turns a s
unfolding InTurn Fits
Reach-Turns {a} (start b) =
    let none : count is_returned a.num_workers (λ _. at_test turn) ≡ 0 =
      count-zero is_returned a.num_workers (λ _. at_test turn) (λ i. refl) in
    record { in_turn = tt; next = rw (none, zero-mod) refl; fits = λ j. tt }
Reach-Turns (later r step) = Step-Turns (Reach-Turns r) step
