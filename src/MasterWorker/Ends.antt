-- ===== src/MasterWorker/Ends.antt =====
-- Where the threads of lab_threads/pthreads-sync-code/master-worker/master-worker.c come to rest.
use native.Mathlib.Nat.{mod-lt}
use cs.Base.{
  ℕ, ◌+◌, ◌%◌, ◌<◌, ◌≤◌, ◌≡◌, ◌≢◌, inl, inr, refl, sym, ap, ◌∙◌, subst, Bool-cases, Bool, true,
  false, List, [], ◌∷◌, ◌++◌, ◌==◌, ltb, arith, length,
}
use cs.Base.Family.{bit, update, count, count-pos, count-some, count-le, count-all, count-none}
use cs.MasterWorker.{
  Args, Outcome, waits, fault, goes, generate_requests, Place, turn, item, Taken, sleeps, returns,
  consumes, consume_item, MasterPc, at_lock, asleep, unlocked, ended, is_asleep, WorkerPc, at_test,
  asleep_at, returned, Signalled, unheard, heard, System, Step, Reach, master_waits, master_goes,
  master_again, master_ends, worker_waits, worker_returns, worker_consumes, spurious_master,
  spurious_worker,
}
use cs.MasterWorker.Items.{occurs, Reach-Items, generate_requests-once}
use cs.MasterWorker.Progress.{is_at_lock, Reach-Woken}
use cs.MasterWorker.Turns.{InTurn, is_returned, Fits}
use cs.MasterWorker.Turns.Moves.{Turns}
use cs.MasterWorker.Turns.Steps.{Reach-Turns}

-- A wait that ends with no signal.
abbrev pub is_spurious : {a : Args} {s t : System} → Step a s t → Bool
is_spurious (spurious_master i h at) = true
is_spurious (spurious_worker i h at) = true
is_spurious _ = false

-- No thread has a step but by a wait that ends with no signal.
abbrev pub IsStuck : Args → System → Type 0
IsStuck a s = (t : System) (step : Step a s t) → is_spurious step ≡ true

signal : (n : ℕ) (m : ℕ → MasterPc) → (k : ℕ → MasterPc) × Signalled n m k
signal n m = elim (Bool-cases (ltb 0 (count is_asleep n m))) [
  | inl some ↦
      let (j, lt, e) = count-some is_asleep n m (ground arith) in
      (update m j at_lock, heard j lt (ground arith))
  | inr none ↦ (m, unheard (ground arith))
]

module _ {a : Args} {s : System} (r : Reach a s) (stuck : IsStuck a s) where
  not_at_lock : (i : ℕ) → i < a.num_masters → s.master i ≢ at_lock
  not_at_lock i h at = go (generate_requests a i s.shared) refl
    where
      go : (o : Outcome) → generate_requests a i s.shared ≡ o → ⊥
      go waits e = cc (stuck _ (master_waits i h at e))
      go fault e = (generate_requests-once i r).0 e
      go (goes t) e =
          let (k, w) = signal a.num_masters (update s.master i unlocked) in
          cc (stuck _ (master_goes i h at e w))

  not_unlocked : (i : ℕ) → i < a.num_masters → s.master i ≢ unlocked
  not_unlocked i h at = elim (Bool-cases (ltb s.shared.item_to_produce a.total_items)) [
    | inl more ↦ cc (stuck _ (master_again i h at (ground arith)))
    | inr all ↦ cc (stuck _ (master_ends i h at (ground arith)))
  ]

  not_at_test : (i : ℕ) (p : Place) → i < a.num_workers → s.worker i ≢ at_test p
  not_at_test i p h at = go (consume_item a p i s.shared) refl
    where
      go : (k : Taken) → consume_item a p i s.shared ≡ k → ⊥
      go (sleeps q) e = cc (stuck _ (worker_waits i h at e))
      go (returns t) e = cc (stuck _ (worker_returns i h at e))
      go (consumes t) e =
          let (k, w) = signal a.num_masters s.master in cc (stuck _ (worker_consumes i h at e w))

  -- A master is asleep only at a full buffer.
  asleep_full :
      (i : ℕ) → i < a.num_masters → s.master i ≡ asleep → s.shared.curr_buf_size ≡ a.max_buf_size
  asleep_full i h at = elim ((Reach-Woken r).sleep) [
    | inl none ↦ absurd (ground (arith, count-pos is_asleep a.num_masters s.master i h))
    | inr (inl full) ↦ full
    | inr (inr some) ↦
        let (j, lt, e) = count-some is_at_lock a.num_masters s.master some in
        absurd (not_at_lock j lt (ground arith))
  ]

  master_ended :
      (i : ℕ) → i < a.num_masters → s.shared.curr_buf_size < a.max_buf_size → s.master i ≡ ended
  master_ended i h room = go (s.master i) refl
    where
      go : (p : MasterPc) → s.master i ≡ p → p ≡ ended
      go at_lock at = absurd (not_at_lock i h at)
      go asleep at = absurd (omega (arith, asleep_full i h at))
      go unlocked at = absurd (not_unlocked i h at)
      go ended at = refl

-- Two places of a round are the same only a whole round apart.
whole_round : (n l k m : ℕ) → k < m → m ≤ n → (l + k) % n ≡ (l + m) % n → m ≡ n
whole_round n l k m h le e = grind arith

-- What every thread that has ended, and every item, has come to.
pub record IsDone (a : Args) (s : System) : Type 0 where
  pub masters : (i : ℕ) → i < a.num_masters → s.master i ≡ ended
  pub workers : (i : ℕ) → i < a.num_workers → s.worker i ≡ returned
  pub items : (x : ℕ) → occurs x s.shared.consumed ≡ bit (ltb x a.total_items)

is_returned_eq : (p : WorkerPc) → is_returned p ≡ true → p ≡ returned
is_returned_eq p h = ground arith

all_returned :
    {a : Args} {s : System}
    → Reach a s
    → count is_returned a.num_workers s.worker ≡ a.num_workers
    → s.shared.curr_buf_size ≡ 0
    → a.total_items ≤ s.shared.item_to_produce
    → ((i : ℕ) → i < a.num_masters → s.master i ≡ ended)
    → IsDone a s
all_returned {a} {s} r full empty all masters = record {
  masters = masters;
  workers = λ i h.
      is_returned_eq (s.worker i) (count-all is_returned a.num_workers s.worker i (omega arith) h);
  items = λ x. ground (
    arith,
    (Reach-Items r).once x,
    (Reach-Items r).made,
    ap (λ n. count (λ y. y == x) n s.shared.buffer) empty,
    count-none (λ y. y == x) s.shared.buffer,
  );
}

-- In a state that the threads reach, with at least one worker, one master and room for one item in
-- the buffer, if no thread has a step but by a wait that ends with no signal, every master has ended,
-- every worker has returned, and the items consumed are those below total_items, each once.
pub stuck-IsDone :
    {a : Args} {s : System}
    → 0 < a.num_workers
    → 0 < a.num_masters
    → 0 < a.max_buf_size
    → Reach a s
    → IsStuck a s
    → IsDone a s
unfolding Fits
stuck-IsDone {a} {s} hw hm hb r stuck = go (s.worker w) refl (v.fits w)
  where
    v : Turns a s
    v = Reach-Turns r

    w : ℕ
    w = s.shared.worker_turn

    lt : w < a.num_workers
    lt = rw v.next (mod-lt _ hw)

    go :
        (p : WorkerPc)
        → s.worker w ≡ p
        → Fits a s.shared (count is_returned a.num_workers s.worker) w p
        → IsDone a s
    go (at_test p) at f = absurd (not_at_test r stuck w p lt at)
    go (asleep_at turn) at f = absurd (f refl)
    go (asleep_at item) at f =
        let e : s.master 0 ≡ ended = master_ended r stuck 0 hm (omega (arith, f.empty)) in
        absurd (omega (arith, f.more, (Reach-Woken r).gone 0 e))
    go returned at f =
        all_returned r
          (whole_round a.num_workers (length s.shared.consumed) f.rank
            (count is_returned a.num_workers s.worker) f.earlier
            (count-le is_returned a.num_workers s.worker) (sym f.place ∙ v.next))
          f.empty f.all (λ i h. master_ended r stuck i h (omega (arith, f.empty)))

InTurn-at :
    (n : ℕ) (newer older : List (ℕ × ℕ)) (x k : ℕ)
    → InTurn n (newer ++ ((x, k) ∷ older))
    → k ≡ length older % n
unfolding InTurn
InTurn-at n [] older x k v = v.0
InTurn-at n (y ∷ newer) older x k v = InTurn-at n newer older x k v.1

-- In a state that the threads reach, when a worker consumed an item and `older` is what was consumed
-- before, the worker is the number of items in `older` modulo num_workers.
pub consumed-in_turn :
    {a : Args} {s : System} (newer older : List (ℕ × ℕ)) (x k : ℕ)
    → Reach a s
    → s.shared.consumed ≡ newer ++ ((x, k) ∷ older)
    → k ≡ length older % a.num_workers
consumed-in_turn {a} newer older x k r e =
    InTurn-at a.num_workers newer older x k (subst (InTurn a.num_workers) e (Reach-Turns r).in_turn)
