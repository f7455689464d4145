-- ===== src/MasterWorker/Turns.antt =====
-- The turns of the workers of lab_threads/pthreads-sync-code/master-worker/master-worker.c: a
-- worker knows that it is its turn, and the turns of those that have returned follow the last.
pub mod Moves
pub mod Steps
use Prim.Native.Nat.{◌≤◌}
use cs.Base.{
  ℕ, suc, ◌+◌, ◌-◌, ◌%◌, ◌<◌, ◌≡◌, ◌≢◌, inl, inr, sym, ◌∙◌, Bool-cases, Bool, true, false, List, [],
  ◌∷◌, ◌==◌, leb, arith, length,
}
use cs.MasterWorker.{
  Args, Shared, Place, turn, item, Taken, sleeps, returns, consumes, next_turn, take_item,
  consume_item, WorkerPc, at_test, asleep_at, returned, rouse,
}

-- The threads that consumed, newest first, are those that a count modulo the workers gives.
unfoldable pub InTurn : ℕ → List (ℕ × ℕ) → Type 0
InTurn n [] = Unit
InTurn n ((x, w) ∷ rest) = (w ≡ length rest % n) × InTurn n rest

abbrev pub is_returned : WorkerPc → Bool
is_returned returned = true
is_returned _ = false

-- The workers that have returned, `ended` of them, are the ones that followed the last consumer.
pub record IsReturned (a : Args) (s : Shared) (ended i : ℕ) : Type 0 where
  pub empty : s.curr_buf_size ≡ 0
  pub all : a.total_items ≤ s.item_to_produce
  pub rank : ℕ
  pub earlier : rank < ended
  pub place : i ≡ (length s.consumed + rank) % a.num_workers

-- A worker that is the next has nothing to take.
pub record IsStarved (a : Args) (s : Shared) (i : ℕ) : Type 0 where
  pub own : s.worker_turn ≡ i
  pub empty : s.curr_buf_size ≡ 0
  pub more : s.item_to_produce < a.total_items

-- What holds where worker `i` stands.
unfoldable pub Fits : Args → Shared → ℕ → ℕ → WorkerPc → Type 0
Fits a s ended i (at_test turn) = Unit
Fits a s ended i (at_test item) = s.worker_turn ≡ i
Fits a s ended i (asleep_at turn) = s.worker_turn ≢ i
Fits a s ended i (asleep_at item) = IsStarved a s i
Fits a s ended i returned = IsReturned a s ended i

-- What a section of worker `i` finds.
pub data Took (a : Args) (i : ℕ) (s : Shared) : Taken → Type 0 where
  took_turn : s.worker_turn ≢ i → Took a i s (sleeps turn)
  took_item : IsStarved a s i → Took a i s (sleeps item)
  took_return :
      s.worker_turn ≡ i
      → s.curr_buf_size ≡ 0
      → a.total_items ≤ s.item_to_produce
      → Took a i s (returns (record s { worker_turn = next_turn a s }))
  took_consume :
      s.worker_turn ≡ i
      → 0 < s.curr_buf_size
      → Took a i s (
          consumes (record s {
            curr_buf_size = s.curr_buf_size - 1;
            consumed = (s.buffer (s.curr_buf_size - 1), i) ∷ s.consumed;
            worker_turn = next_turn a s;
          }))

take_item-Took : (a : Args) (i : ℕ) (s : Shared) → s.worker_turn ≡ i → Took a i s (take_item a i s)
unfolding take_item
take_item-Took a i s own = elim (Bool-cases (s.curr_buf_size == 0)) [
  | inl empty ↦ elim (Bool-cases (leb a.total_items s.item_to_produce)) [
    | inl all ↦ rw (empty, all) (took_return own (ground arith) (ground arith))
    | inr more ↦
        rw (empty, more)
          (took_item (record { own = own; empty = ground arith; more = ground arith }))
  ]
  | inr some ↦ rw some (took_consume own (ground arith))
]

pub consume_item-Took :
    (a : Args) (p : Place) (i ended : ℕ) (s : Shared)
    → Fits a s ended i (at_test p)
    → Took a i s (consume_item a p i s)
unfolding consume_item Fits
consume_item-Took a turn i ended s v = elim (Bool-cases (s.worker_turn == i)) [
  | inl own ↦ rw own (take_item-Took a i s (ground arith))
  | inr other ↦ rw other (took_turn (ground arith))
]
consume_item-Took a item i ended s v = take_item-Took a i s v

-- Another worker when the turn passes on from worker `i`, which consumes an item.
consumed-Fits :
    (a : Args) (s t : Shared) (ended i j : ℕ) (p : WorkerPc)
    → s.worker_turn ≡ i
    → 0 < s.curr_buf_size
    → i ≢ j
    → Fits a s ended j p
    → Fits a t ended j (rouse p)
unfolding Fits
consumed-Fits a s t ended i j (at_test turn) own some ne v = tt
consumed-Fits a s t ended i j (at_test item) own some ne v = absurd (ne (sym own ∙ v))
consumed-Fits a s t ended i j (asleep_at turn) own some ne v = tt
consumed-Fits a s t ended i j (asleep_at item) own some ne v = absurd (ne (sym own ∙ v.own))
consumed-Fits a s t ended i j returned own some ne v = absurd (omega (arith, v.empty))

-- The same when it returns.
ended-Fits :
    (a : Args) (s : Shared) (ended i j turn1 : ℕ) (p : WorkerPc)
    → s.worker_turn ≡ i
    → i ≢ j
    → Fits a s ended j p
    → Fits a (record s { worker_turn = turn1 }) (suc ended) j (rouse p)
unfolding Fits
ended-Fits a s ended i j turn1 (at_test turn) own ne v = tt
ended-Fits a s ended i j turn1 (at_test item) own ne v = absurd (ne (sym own ∙ v))
ended-Fits a s ended i j turn1 (asleep_at turn) own ne v = tt
ended-Fits a s ended i j turn1 (asleep_at item) own ne v = absurd (ne (sym own ∙ v.own))
ended-Fits a s ended i j turn1 returned own ne v = record {
  empty = v.empty;
  all = v.all;
  rank = v.rank;
  earlier = omega (arith, v.earlier);
  place = v.place;
}
