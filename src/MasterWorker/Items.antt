-- ===== src/MasterWorker/Items.antt =====
-- The items of lab_threads/pthreads-sync-code/master-worker/master-worker.c: what is produced is in
-- the buffer or was consumed.
use cs.Base.{
  ℕ, ◌+◌, ◌<◌, ◌≤◌, ◌≡◌, ◌≢◌, inl, inr, subst, Bool-cases, List, [], ◌∷◌, ◌==◌, ltb, leb, arith,
  lt→ltb,
}
use cs.Base.Family.{bit, count, count-none, count-push, count-pred}
use cs.MasterWorker.{
  Args, Shared, Outcome, waits, fault, goes, produce, generate_requests, Place, turn, item, Taken,
  sleeps, returns, consumes, take_item, consume_item, System, Step, Reach, start, later,
  master_waits, master_goes, master_again, master_ends, worker_waits, worker_returns,
  worker_consumes, spurious_master, spurious_worker,
}

-- How often a number is printed.
abbrev pub occurs : ℕ → List (ℕ × ℕ) → ℕ
occurs x [] = 0
occurs x ((y, w) ∷ rest) = bit (y == x) + occurs x rest

-- How often it is in the buffer.
abbrev pub buffered : ℕ → Shared → ℕ
buffered x s = count (λ y. y == x) s.curr_buf_size s.buffer

pub record Items (a : Args) (s : Shared) : Type 0 where
  pub room : s.curr_buf_size ≤ a.max_buf_size
  pub made : s.item_to_produce ≤ a.total_items
  pub once : (x : ℕ) → occurs x s.consumed + buffered x s ≡ bit (ltb x s.item_to_produce)
  pub printed : (x : ℕ) → occurs x s.produced ≡ bit (ltb x s.item_to_produce)

data KeptOutcome (a : Args) : Outcome → Type 0 where
  kept_waits : KeptOutcome a waits
  kept_goes : {t : Shared} → Items a t → KeptOutcome a (goes t)

data KeptTaken (a : Args) : Taken → Type 0 where
  kept_sleeps : {p : Place} → KeptTaken a (sleeps p)
  kept_returns : {t : Shared} → Items a t → KeptTaken a (returns t)
  kept_consumes : {t : Shared} → Items a t → KeptTaken a (consumes t)

produce-Items :
    (a : Args) (i : ℕ) (s : Shared)
    → Items a s
    → s.curr_buf_size < a.max_buf_size
    → s.item_to_produce < a.total_items
    → KeptOutcome a (produce a i s)
unfolding produce
produce-Items a i s v room more = rw (lt→ltb s.curr_buf_size a.max_buf_size room) (
    kept_goes (record {
      room = omega arith;
      made = omega arith;
      once = λ x.
          ground
            (arith, v.once x, count-push (λ y. y == x) s.curr_buf_size s.buffer s.item_to_produce);
      printed = λ x. ground (arith, v.printed x);
    }))

generate_requests-Items :
    (a : Args) (i : ℕ) (s : Shared) → Items a s → KeptOutcome a (generate_requests a i s)
unfolding generate_requests
generate_requests-Items a i s v = elim (Bool-cases (s.curr_buf_size == a.max_buf_size)) [
  | inl full ↦ rw full kept_waits
  | inr space ↦ elim (Bool-cases (ltb s.item_to_produce a.total_items)) [
    | inl more ↦ rw (space, more) (produce-Items a i s v (ground (arith, v.room)) (ground arith))
    | inr all ↦ rw (space, all) (kept_goes v)
  ]
]

take_item-Items : (a : Args) (i : ℕ) (s : Shared) → Items a s → KeptTaken a (take_item a i s)
unfolding take_item
take_item-Items a i s v = elim (Bool-cases (s.curr_buf_size == 0)) [
  | inl empty ↦ elim (Bool-cases (leb a.total_items s.item_to_produce)) [
    | inl all ↦
        rw (empty, all)
          (kept_returns
            (record { room = v.room; made = v.made; once = v.once; printed = v.printed }))
    | inr more ↦ rw (empty, more) kept_sleeps
  ]
  | inr some ↦ rw some (
      kept_consumes (record {
        room = ground (arith, v.room);
        made = v.made;
        once = λ x. ground (arith, v.once x, count-pred (λ y. y == x) s.curr_buf_size s.buffer);
        printed = v.printed;
      }))
]

consume_item-Items :
    (a : Args) (p : Place) (i : ℕ) (s : Shared) → Items a s → KeptTaken a (consume_item a p i s)
unfolding consume_item
consume_item-Items a turn i s v = elim (Bool-cases (s.worker_turn == i)) [
  | inl own ↦ rw own (take_item-Items a i s v)
  | inr other ↦ rw other kept_sleeps
]
consume_item-Items a item i s v = take_item-Items a i s v

goes-Items : {a : Args} {t : Shared} → KeptOutcome a (goes t) → Items a t
goes-Items (kept_goes v) = v

returns-Items : {a : Args} {t : Shared} → KeptTaken a (returns t) → Items a t
returns-Items (kept_returns v) = v

consumes-Items : {a : Args} {t : Shared} → KeptTaken a (consumes t) → Items a t
consumes-Items (kept_consumes v) = v

not_fault : {a : Args} → ¬ KeptOutcome a fault
not_fault k = elim k [ ]

Step-Items : {a : Args} {s t : System} → Items a s.shared → Step a s t → Items a t.shared
Step-Items {a} {s} v (master_waits i h at e) = v
Step-Items {a} {s} v (master_goes i h at e w) =
    goes-Items (subst (KeptOutcome a) e (generate_requests-Items a i s.shared v))
Step-Items {a} {s} v (master_again i h at more) = v
Step-Items {a} {s} v (master_ends i h at all) = v
Step-Items {a} {s} v (worker_waits i h at e) = v
Step-Items {a} {s} v (worker_returns i {p = p} h at e) =
    returns-Items (subst (KeptTaken a) e (consume_item-Items a p i s.shared v))
Step-Items {a} {s} v (worker_consumes i {p = p} h at e w) =
    consumes-Items (subst (KeptTaken a) e (consume_item-Items a p i s.shared v))
Step-Items {a} {s} v (spurious_master i h at) = v
Step-Items {a} {s} v (spurious_worker i h at) = v

pub Reach-Items : {a : Args} {s : System} → Reach a s → Items a s.shared
Reach-Items (start b) = record {
  room = omega arith;
  made = omega arith;
  once = λ x. ground (arith, count-none (λ y. y == x) b);
  printed = λ x. ground arith;
}
Reach-Items (later r step) = Step-Items (Reach-Items r) step

-- In a state that the threads reach, no section of a master writes beyond the buffer, and each item
-- is once in the buffer or among those consumed if it is below item_to_produce, and was printed as
-- produced as often; any other number is in none of them.
pub generate_requests-once :
    {a : Args} {s : System} (i : ℕ)
    → Reach a s
    → (generate_requests a i s.shared ≢ fault)
      × ((x : ℕ)
          → (occurs x s.shared.consumed + buffered x s.shared ≡ occurs x s.shared.produced)
            × (occurs x s.shared.produced ≡ bit (ltb x s.shared.item_to_produce)))
generate_requests-once {a} {s} i r = (
  λ e. not_fault (subst (KeptOutcome a) e (generate_requests-Items a i s.shared (Reach-Items r))),
  λ x.
      (omega (arith, (Reach-Items r).once x, (Reach-Items r).printed x), (Reach-Items r).printed x),
)
