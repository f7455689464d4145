-- ===== src/MasterWorker/Progress.antt =====
-- What keeps the threads of lab_threads/pthreads-sync-code/master-worker/master-worker.c going: a
-- master that sleeps has a full buffer before it or a master that is awake.
use cs.Base.{ℕ, ◌<◌, ◌≤◌, ◌≡◌, ◌⊎◌, inl, inr, refl, Bool, true, false, arith}
use cs.Base.Family.{update, count, count-update, count-pos, count-zero, update-all}
use cs.MasterWorker.{
  Args, Shared, waits, goes, produce, generate_requests, Place, returns, consumes, take_item,
  consume_item, MasterPc, at_lock, asleep, unlocked, ended, is_asleep, Signalled, unheard, heard,
  System, Step, Reach, start, later, master_waits, master_goes, master_again, master_ends,
  worker_waits, worker_returns, worker_consumes, spurious_master, spurious_worker,
}

abbrev pub is_at_lock : MasterPc → Bool
is_at_lock at_lock = true
is_at_lock _ = false

-- A master that has ended has nothing left to produce.
abbrev pub EndFits : Args → Shared → ℕ → MasterPc → Type 0
EndFits a s i p = p ≡ ended → a.total_items ≤ s.item_to_produce

pub record Woken (a : Args) (s : Shared) (m : ℕ → MasterPc) : Type 0 where
  pub sleep :
      (count is_asleep a.num_masters m ≡ 0)
      ⊎ ((s.curr_buf_size ≡ a.max_buf_size) ⊎ (0 < count is_at_lock a.num_masters m))
  pub gone : (i : ℕ) → EndFits a s i (m i)

-- A signal leaves no master asleep, or one that is awake.
Signalled-Woken :
    {a : Args} {s : Shared} {m k : ℕ → MasterPc}
    → ((i : ℕ) → EndFits a s i (m i))
    → Signalled a.num_masters m k
    → Woken a s k
Signalled-Woken gone (unheard none) = record { sleep = inl none; gone = gone }
Signalled-Woken {a} {s} {m} gone (heard j lt e) = record {
  sleep = inr (inr (count-pos is_at_lock a.num_masters (update m j at_lock) j lt (ground arith)));
  gone = update-all (EndFits a s) m j at_lock (λ q. cc) (λ i ne. gone i);
}

waits_full :
    (a : Args) (i : ℕ) (s : Shared)
    → generate_requests a i s ≡ waits
    → s.curr_buf_size ≡ a.max_buf_size
unfolding generate_requests produce
waits_full a i s e = ground arith

goes_grows :
    (a : Args) (i : ℕ) (s : Shared) {t : Shared}
    → generate_requests a i s ≡ goes t
    → s.item_to_produce ≤ t.item_to_produce
unfolding generate_requests produce
goes_grows a i s e = ground arith

returns_same :
    (a : Args) (p : Place) (i : ℕ) (s : Shared) {t : Shared}
    → consume_item a p i s ≡ returns t
    → (t.item_to_produce ≡ s.item_to_produce) × (t.curr_buf_size ≡ s.curr_buf_size)
unfolding consume_item take_item
returns_same a Place.turn i s e = ground arith
returns_same a Place.item i s e = ground arith

consumes_same :
    (a : Args) (p : Place) (i : ℕ) (s : Shared) {t : Shared}
    → consume_item a p i s ≡ consumes t
    → t.item_to_produce ≡ s.item_to_produce
unfolding consume_item take_item
consumes_same a Place.turn i s e = ground arith
consumes_same a Place.item i s e = ground arith

-- A master that was awake moves, and none ends.
Step-Woken :
    {a : Args} {s t : System} → Woken a s.shared s.master → Step a s t → Woken a t.shared t.master
Step-Woken {a} {s} v (master_waits i h at e) = record {
  sleep = inr (inl (waits_full a i s.shared e));
  gone = update-all (EndFits a s.shared) s.master i asleep (λ q. cc) (λ j ne. v.gone j);
}
Step-Woken {a} {s} v (master_goes i {t} h at e w) =
    Signalled-Woken
      (update-all (EndFits a t) s.master i unlocked (λ q. cc)
        (λ j ne q. omega (arith, v.gone j q, goes_grows a i s.shared e)))
      w
Step-Woken {a} {s} v (master_again i h at more) = record {
  sleep =
      inr (inr (count-pos is_at_lock a.num_masters (update s.master i at_lock) i h (ground arith)));
  gone = update-all (EndFits a s.shared) s.master i at_lock (λ q. cc) (λ j ne. v.gone j);
}
Step-Woken {a} {s} v (master_ends i h at all) = record {
  sleep = ground (
    arith,
    v.sleep,
    count-update is_asleep a.num_masters s.master i ended,
    count-update is_at_lock a.num_masters s.master i ended,
  );
  gone = update-all (EndFits a s.shared) s.master i ended (λ q. all) (λ j ne. v.gone j);
}
Step-Woken {a} {s} v (worker_waits i h at e) = record { sleep = v.sleep; gone = v.gone }
Step-Woken {a} {s} v (worker_returns i {p} {t} h at e) =
    let (items, size) = returns_same a p i s.shared e in
    record { sleep = rw size v.sleep; gone = λ j q. omega (arith, v.gone j q, items) }
Step-Woken {a} {s} v (worker_consumes i {p} {t} h at e w) =
    Signalled-Woken (λ j q. omega (arith, v.gone j q, consumes_same a p i s.shared e)) w
Step-Woken {a} {s} v (spurious_master i h at) = record {
  sleep =
      inr (inr (count-pos is_at_lock a.num_masters (update s.master i at_lock) i h (ground arith)));
  gone = update-all (EndFits a s.shared) s.master i at_lock (λ q. cc) (λ j ne. v.gone j);
}
Step-Woken {a} {s} v (spurious_worker i h at) = record { sleep = v.sleep; gone = v.gone }

pub Reach-Woken : {a : Args} {s : System} → Reach a s → Woken a s.shared s.master
Reach-Woken {a} (start b) = record {
  sleep = inl (count-zero is_asleep a.num_masters (λ _. at_lock) (λ i. refl));
  gone = λ i q. absurd (cc);
}
Reach-Woken (later r step) = Step-Woken (Reach-Woken r) step
