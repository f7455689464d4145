-- ===== src/MasterWorker/Turns/Moves.antt =====
-- The turns of the workers of lab_threads/pthreads-sync-code/master-worker/master-worker.c when one
-- thread moves.
use native.Mathlib.Nat.{mod-add-mod}
use cs.Base.{
  ℕ, suc, ◌+◌, ◌-◌, ◌%◌, ◌<◌, ◌≤◌, ◌≡◌, inl, inr, refl, sym, ap, ◌∙◌, Bool-cases, true, false, List,
  ◌∷◌, ◌==◌, ltb, arith, length,
}
use cs.Base.Family.{update, count, count-update, count-map, count-some, update-all}
use cs.MasterWorker.{
  Args, Shared, Outcome, waits, fault, goes, produce, generate_requests, Place, turn, item,
  next_turn, WorkerPc, at_test, asleep_at, returned, rouse, broadcast, MasterPc, System,
}
use cs.MasterWorker.Turns.{InTurn, is_returned, Fits, consumed-Fits, ended-Fits}

-- The workers that have returned.
abbrev pub ended : Args → System → ℕ
ended a s = count is_returned a.num_workers s.worker

pub record Turns (a : Args) (s : System) : Type 0 where
  pub in_turn : InTurn a.num_workers s.shared.consumed
  pub next : s.shared.worker_turn ≡ (length s.shared.consumed + ended a s) % a.num_workers
  pub fits : (j : ℕ) → Fits a s.shared (ended a s) j (s.worker j)

-- What a section of a master leaves alone.
pub data Made (a : Args) (s : Shared) : Outcome → Type 0 where
  made_waits : Made a s waits
  made_fault : Made a s fault
  made_nothing : Made a s (goes s)
  made_item :
      {b : ℕ → ℕ} {m k : ℕ} {l : List (ℕ × ℕ)}
      → s.item_to_produce < a.total_items
      → Made a s
          (goes (record s { buffer = b; curr_buf_size = m; produced = l; item_to_produce = k }))

pub generate_requests-Made : (a : Args) (i : ℕ) (s : Shared) → Made a s (generate_requests a i s)
unfolding generate_requests produce
generate_requests-Made a i s = elim (Bool-cases (s.curr_buf_size == a.max_buf_size)) [
  | inl full ↦ rw full made_waits
  | inr space ↦ elim (Bool-cases (ltb s.item_to_produce a.total_items)) [
    | inl more ↦ elim (Bool-cases (ltb s.curr_buf_size a.max_buf_size)) [
      | inl room ↦ rw (space, more, room) (made_item (ground arith))
      | inr none ↦ rw (space, more, none) made_fault
    ]
    | inr all ↦ rw (space, all) made_nothing
  ]
]

-- Any worker when a master goes on: all are roused.
pub roused-Fits :
    (a : Args) (s : Shared) (n j : ℕ) (p : WorkerPc) → Fits a s n j p → Fits a s n j (rouse p)
unfolding Fits
roused-Fits a s n j (at_test p) v = v
roused-Fits a s n j (asleep_at turn) v = tt
roused-Fits a s n j (asleep_at item) v = v.own
roused-Fits a s n j returned v = v

produced-Fits :
    (a : Args) (s : Shared) (b : ℕ → ℕ) (m k : ℕ) (l : List (ℕ × ℕ)) (n j : ℕ) (p : WorkerPc)
    → s.item_to_produce < a.total_items
    → Fits a s n j p
    → Fits a
        (record s { buffer = b; curr_buf_size = m; produced = l; item_to_produce = k })
        n
        j
        (rouse p)
unfolding Fits
produced-Fits a s b m k l n j (at_test turn) more v = tt
produced-Fits a s b m k l n j (at_test item) more v = v
produced-Fits a s b m k l n j (asleep_at turn) more v = tt
produced-Fits a s b m k l n j (asleep_at item) more v = v.own
produced-Fits a s b m k l n j returned more v = absurd (omega (arith, v.all))

is_returned-rouse : (p : WorkerPc) → is_returned (rouse p) ≡ is_returned p
is_returned-rouse (at_test p) = refl
is_returned-rouse (asleep_at p) = refl
is_returned-rouse returned = refl

ended-broadcast :
    (n : ℕ) (w : ℕ → WorkerPc) → count is_returned n (broadcast w) ≡ count is_returned n w
ended-broadcast n w = count-map is_returned rouse n w is_returned-rouse

pub Made-Turns :
    {a : Args} {s : System} {t : Shared} (m : ℕ → MasterPc)
    → Turns a s
    → Made a s.shared (goes t)
    → Turns a (record { shared = t; master = m; worker = broadcast s.worker })
Made-Turns {a} {s} m v made_nothing = record {
  in_turn = v.in_turn;
  next = rw (ended-broadcast a.num_workers s.worker) v.next;
  fits = λ j. rw (ended-broadcast a.num_workers s.worker) (roused-Fits _ _ _ j _ (v.fits j));
}
Made-Turns {a} {s} m v (made_item more) = record {
  in_turn = v.in_turn;
  next = rw (ended-broadcast a.num_workers s.worker) v.next;
  fits = λ j.
      rw (ended-broadcast a.num_workers s.worker) (produced-Fits _ _ _ _ _ _ _ j _ more (v.fits j));
}

-- One worker moves, with nothing shared changed and none returned.
pub moved-Turns :
    {a : Args} {s : System} (i : ℕ) (p : WorkerPc)
    → Turns a s
    → i < a.num_workers
    → is_returned (s.worker i) ≡ false
    → is_returned p ≡ false
    → Fits a s.shared (ended a s) i p
    → Turns a (record s { worker = update s.worker i p })
moved-Turns {a} {s} i p v lt was is fit =
    let same : count is_returned a.num_workers (update s.worker i p) ≡ ended a s =
      ground (arith, count-update is_returned a.num_workers s.worker i p) in
    record {
      in_turn = v.in_turn;
      next = rw same v.next;
      fits = rw same (update-all (Fits a s.shared (ended a s)) s.worker i p fit (λ j ne. v.fits j));
    }

next_mod : (n t k k' : ℕ) → t ≡ k % n → k' ≡ k + 1 → (t + 1) % n ≡ k' % n
next_mod n t k k' e f = rw (e, f, mod-add-mod)

-- No worker has returned while there is an item to take.
none_ended : {a : Args} {s : System} → Turns a s → 0 < s.shared.curr_buf_size → ended a s ≡ 0
unfolding Fits
none_ended {a} {s} v some = elim (Bool-cases (ltb 0 (ended a s))) [
  | inl gone ↦
      let (j, lt, e) = count-some is_returned a.num_workers s.worker (ground arith) in
      absurd (go (s.worker j) j e (v.fits j))
  | inr none ↦ ground arith
]
  where
    go : (p : WorkerPc) (j : ℕ) → is_returned p ≡ true → ¬ Fits a s.shared (ended a s) j p
    go (at_test p) j e w = cc
    go (asleep_at p) j e w = cc
    go returned j e w = omega (arith, w.empty)

pub returned-Turns :
    {a : Args} {s : System} (i : ℕ) (p : Place)
    → Turns a s
    → i < a.num_workers
    → s.worker i ≡ at_test p
    → s.shared.worker_turn ≡ i
    → s.shared.curr_buf_size ≡ 0
    → a.total_items ≤ s.shared.item_to_produce
    → Turns a (record s {
      shared = record (s.shared) { worker_turn = next_turn a s.shared };
      worker = update (broadcast s.worker) i returned;
    })
unfolding Fits next_turn
returned-Turns {a} {s} i p v lt at own empty all =
    let more : count is_returned a.num_workers (update (broadcast s.worker) i returned)
        ≡ suc (ended a s) =
      ground (
        arith,
        count-update is_returned a.num_workers (broadcast s.worker) i returned,
        ended-broadcast a.num_workers s.worker,
      ) in
    record {
      in_turn = v.in_turn;
      next = rw more (next_mod a.num_workers _ _ _ v.next (omega arith));
      fits = rw more (
          update-all (Fits a _ (suc (ended a s))) (broadcast s.worker) i returned
            (record {
              empty = empty;
              all = all;
              rank = ended a s;
              earlier = omega arith;
              place = sym own ∙ v.next;
            })
            (λ j ne. ended-Fits a s.shared (ended a s) i j _ (s.worker j) own ne (v.fits j)));
    }

pub consumed-Turns :
    {a : Args} {s : System} (m : ℕ → MasterPc) (i x : ℕ) (p : Place)
    → Turns a s
    → i < a.num_workers
    → s.worker i ≡ at_test p
    → s.shared.worker_turn ≡ i
    → 0 < s.shared.curr_buf_size
    → Turns a (record {
      shared = record (s.shared) {
        curr_buf_size = s.shared.curr_buf_size - 1;
        consumed = (x, i) ∷ s.shared.consumed;
        worker_turn = next_turn a s.shared;
      };
      master = m;
      worker = update (broadcast s.worker) i (at_test turn);
    })
unfolding Fits next_turn InTurn
consumed-Turns {a} {s} m i x p v lt at own some =
    let same : count is_returned a.num_workers (update (broadcast s.worker) i (at_test turn))
        ≡ ended a s =
      ground (
        arith,
        count-update is_returned a.num_workers (broadcast s.worker) i (at_test turn),
        ended-broadcast a.num_workers s.worker,
      ) in
    let first : i ≡ length s.shared.consumed % a.num_workers =
      sym own ∙ v.next ∙ ap (λ k. k % a.num_workers) (omega (arith, none_ended v some)) in
    record {
      in_turn = (first, v.in_turn);
      next = rw same (next_mod a.num_workers _ _ _ v.next (omega arith));
      fits = rw same (
          update-all (Fits a _ (ended a s)) (broadcast s.worker) i (at_test turn) tt (λ j ne.
            consumed-Fits a s.shared _ (ended a s) i j (s.worker j) own some ne (v.fits j)));
    }
