-- ===== src/Kv/Delete.antt =====
-- DELETE in lab_nw/kv-server*/server.c, on a linked list.
use cs.Base.{
  ℕ, zero, suc, ◌<◌, ◌≡◌, refl, inl, inr, Bool, true, false, none, some, List, ◌∷◌, arith, ◌==◌,
  sym, if◌then◌else◌, Bool-cases, eq→==, length,
}
use cs.Kv.Memory.{
  Ptr, null, Buffer, node, text, exclusive, entered, left, sent, Event, Server, write, put, pure,
  send,
}
use cs.Kv.Store.{Payload, Variant, note, unlink, delete_loop, delete}
use cs.Kv.Cells.{
  Cell, cell, Cells, at, at_cases, at-erase, SameOutside, Holds, Linked, nil, cons, frame, find,
  has, erase, Returns, returns, weaken, after, then_assign, not_null, load-Holds, free-Holds,
}

-- No node is left where the first cell with the key was.
abbrev pub Freed : ℕ → Cells → Server → Type 0
Freed key cs t = (c : Cell) → find key cs ≡ some c → t.heap c.addr ≡ none

-- What the loop changes, from the cell before `xs` on.
record Cut (s : Server) (key : ℕ) (c : Cell) (xs : Cells) (d : Bool) (t : Server) : Type 0 where
  found : d ≡ has key xs
  linked : Linked t.heap c.addr (c ∷ erase key xs)
  head_is : t.head ≡ s.head
  tail_is : t.tail ≡ s.tail
  log_is : t.log ≡ (if d then sent (text "Key-value pair deleted") ∷ s.log else s.log)
  same : SameOutside (c ∷ xs) s.heap t.heap
  freed : Freed key xs t

module _ (key : ℕ) (s : Server) {p : Ptr} {k : ℕ} {v : Buffer} where
  unlink-Cut :
      {cur q : Ptr} {j : ℕ} {w : Buffer} {xs : Cells}
      → Holds s.heap p (node k v cur)
      → at p (cell cur j w ∷ xs) ≡ false
      → (cur == s.head) ≡ false
      → Holds s.heap cur (node j w q)
      → at cur xs ≡ false
      → Linked s.heap q xs
      → (j == key) ≡ true
      → Returns
          (λ _ t.
            Cut s key
              (cell p k v)
              (cell cur j w ∷ xs)
              true
              (record t { log = sent (text "Key-value pair deleted") ∷ t.log }))
          (unlink p cur q s)
  unfolding unlink write find erase
  unlink-Cut {cur} {q} {j} {w} {xs} e o other e' o' l hit = rw other (
      then_assign s e _ _ (
        rw (free-Holds s₁ {n = node j w q} (record { ne_null = e'.ne_null; held = ground arith })) (
          returns (record {
            found = rw hit;
            linked = rw hit (
                cons {p = p} {q = q} {k = k} {v = v} {cs = xs}
                  (record { ne_null = e.ne_null; held = ground arith }) (ground arith)
                  (frame _ l (λ a i. ground (arith, at_cases a cur xs, at_cases a p xs))));
            head_is = refl;
            tail_is = refl;
            log_is = refl;
            same = λ a i. ground arith;
            freed = λ d f. ground arith;
          }))))
    where
      s₁ : Server
      s₁ = put s p (some (node k v q))

  Cut-cons :
      {cur : Ptr} {j : ℕ} {w : Buffer} {xs : Cells}
      → Holds s.heap p (node k v cur)
      → at p (cell cur j w ∷ xs) ≡ false
      → (j == key) ≡ false
      → (d : Bool) (t : Server) → Cut s key (cell cur j w) xs d t
      → Cut s key (cell p k v) (cell cur j w ∷ xs) d t
  unfolding find erase
  Cut-cons {cur} {j} {w} {xs} e o miss d t c = record {
    found = rw miss c.found;
    linked = rw miss (cons (ground (arith, c.same p)) (ground (arith, at-erase p key xs)) c.linked);
    head_is = c.head_is;
    tail_is = c.tail_is;
    log_is = c.log_is;
    same = λ a out. c.same a (ground arith);
    freed = λ d f. c.freed d (rw miss at f);
  }

-- The loop behind the first cell: `p` is the cell before `cur`.
delete_loop-Cut :
    (key : ℕ) (s : Server) (fuel : ℕ) {p cur : Ptr} {k : ℕ} {v : Buffer} {xs : Cells}
    → Holds s.heap p (node k v cur)
    → at p xs ≡ false
    → at s.head xs ≡ false
    → Linked s.heap cur xs
    → length xs < fuel
    → Returns (λ d t. Cut s key (cell p k v) xs d t) (delete_loop key fuel p cur s)
unfolding delete_loop find erase
delete_loop-Cut key s zero e o h l enough = absurd (omega arith)
delete_loop-Cut key s (suc fuel) e o h nil enough = returns (record {
  found = refl;
  linked = cons e refl nil;
  head_is = refl;
  tail_is = refl;
  log_is = refl;
  same = λ a i. refl;
  freed = λ d f. cc;
})
delete_loop-Cut key s (suc fuel) {p} {cur} e o h (cons {k = j} e' o' l) enough =
    rw (not_null e', load-Holds s e')
      (elim (Bool-cases (j == key)) [
        | inl hit ↦
            rw hit (after _ (unlink-Cut key s e o (ground arith) e' o' l hit) λ _ t c. returns c)
        | inr miss ↦ rw miss (
            weaken (delete_loop-Cut key s fuel e' o' (ground arith) l (omega arith))
              (Cut-cons key s e o miss))
      ])

-- What DELETE does to the list; the tail pointer stays.
pub record Deleted (s : Server) (key : ℕ) (cs : Cells) (d : Bool) (t : Server) : Type 0 where
  pub found : d ≡ has key cs
  pub linked : Linked t.heap t.head (erase key cs)
  pub tail_is : t.tail ≡ s.tail
  pub log_is : t.log ≡ (if d then sent (text "Key-value pair deleted") ∷ s.log else s.log)
  pub same : SameOutside cs s.heap t.heap
  pub freed : Freed key cs t

delete_loop-Deleted :
    (key : ℕ) (s : Server) (fuel : ℕ) {p : Ptr} {cs : Cells}
    → Linked s.heap p cs
    → s.head ≡ p
    → length cs < fuel
    → Returns (λ d t. Deleted s key cs d t) (delete_loop key fuel null p s)
unfolding delete_loop find erase unlink write
delete_loop-Deleted key s zero l h enough = absurd (omega arith)
delete_loop-Deleted key s (suc fuel) nil h enough = returns (record {
  found = refl;
  linked = rw h nil;
  tail_is = refl;
  log_is = refl;
  same = λ a i. refl;
  freed = λ d f. cc;
})
delete_loop-Deleted key s (suc fuel) {p} (cons {q} {k = j} {cs} e o l) h enough =
    rw (not_null e, load-Holds s e)
      (elim (Bool-cases (j == key)) [
        | inl hit ↦
            rw (hit, eq→== p s.head (sym h), free-Holds (record s { head = q }) e)
              (returns (record {
                found = rw hit;
                linked = rw hit (frame _ l (λ a i. ground (arith, at_cases a p cs)));
                tail_is = refl;
                log_is = refl;
                same = λ a i. ground arith;
                freed = λ d f. ground arith;
              }))
        | inr miss ↦ rw miss (
            weaken (delete_loop-Cut key s fuel e o (rw h o) l (omega arith)) λ d t c. record {
              found = rw miss c.found;
              linked = rw (miss, c.head_is, h) c.linked;
              tail_is = c.tail_is;
              log_is = c.log_is;
              same = c.same;
              freed = λ c' f. c.freed c' (rw miss at f);
            })
      ])

-- The events of DELETE, newest first: a missing key is reported outside the lock.
abbrev pub delete_log : Variant → Bool → List Event → List Event
delete_log v true log =
    note v (left exclusive) (sent (text "Key-value pair deleted") ∷ note v (entered exclusive) log)
delete_log v false log =
    sent (text "Key not found") ∷ note v (left exclusive) (note v (entered exclusive) log)

-- The list after DELETE, whether or not the key was there.
pub record Erased (v : Variant) (key : ℕ) (cs : Cells) (s t : Server) : Type 0 where
  pub linked : Linked t.heap t.head (erase key cs)
  pub tail_is : t.tail ≡ s.tail
  pub log_is : t.log ≡ delete_log v (has key cs) s.log
  pub same : SameOutside cs s.heap t.heap
  pub freed : Freed key cs t

delete_end :
    (v : Variant) (key : ℕ) (cs : Cells) (s : Server) (d : Bool) (t : Server)
    → Deleted (record s { log = note v (entered exclusive) s.log }) key cs d t
    → Returns
        (λ _ u. Erased v key cs s u)
        ((if d then pure tt else send "Key not found")
          (record t { log = note v (left exclusive) t.log }))
delete_end v key cs s true t c = returns (record {
  linked = c.linked;
  tail_is = c.tail_is;
  log_is = rw (← c.found, c.log_is);
  same = c.same;
  freed = c.freed;
})
delete_end v key cs s false t c = returns (record {
  linked = c.linked;
  tail_is = c.tail_is;
  log_is = rw (← c.found, c.log_is);
  same = c.same;
  freed = c.freed;
})

pub delete-Erased :
    (v : Variant) (fuel : ℕ) (p : Payload) (s : Server) (cs : Cells)
    → Linked s.heap s.head cs
    → length cs < fuel
    → Returns (λ _ t. Erased v p.key cs s t) (delete v fuel p s)
unfolding delete
delete-Erased v fuel p s cs l enough =
    after _
      (delete_loop-Deleted p.key (record s { log = note v (entered exclusive) s.log }) fuel l refl
        enough)
      (delete_end v p.key cs s)
