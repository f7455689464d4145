-- ===== src/Kv/Queue/Order.antt =====
-- The clients of lab_nw/kv-server-pool/server.c are taken in the order in which they are accepted, and
-- none waits while every thread sleeps.
use mathlib.Core.List.{append_assoc, map-append}
use cs.Base.{
  ℕ, ◌<◌, ◌≡◌, ◌≢◌, ◌⊎◌, inl, inr, refl, subst, true, Option, none, some, List, [], ◌∷◌, ◌++◌, map,
  arith,
}
use cs.Base.Family.{update, count, count-pos, count-some}
use cs.Kv.Memory.{null}
use cs.Kv.Queue.{
  Queue, enqueue, Taken, waits, took, fault, take_first, dequeue, Pc, at_test, asleep, serving,
  is_asleep, is_awake, Pool, Signalled, unheard, heard, Step, accepts, sleeps, takes, leaves,
  spurious, Reach, start, later,
}
use cs.Kv.Queue.Cells.{Cells, nil, IsQueue, enqueue-IsQueue, dequeue-IsQueue, dequeue-nil}

-- The clients that the queue holds.
abbrev pub clients : Cells → List ℕ
clients = map (λ c. c.1)

abbrev pub served : List (ℕ × ℕ) → List ℕ
served = map (λ c. c.0)

-- The clients accepted are those taken and then those in the queue.
pub record InOrder (s : Pool) : Type 0 where
  pub cells : Cells
  pub queue : IsQueue s.queue cells
  pub order : s.accepted ≡ served s.taken ++ clients cells

some_eq {ℓ} : {A : Type ℓ} {a b : A} {o : Option A} → o ≡ some a → o ≡ some b → a ≡ b
some_eq p q = cc

took_eq : {k : Taken} {a b : ℕ} {q r : Queue} → k ≡ took a q → k ≡ took b r → (a ≡ b) × (q ≡ r)
took_eq p q = ground arith

accepted-InOrder :
    {s : Pool} (pc : ℕ → Pc) (fresh fd : ℕ) {q : Queue}
    → InOrder s
    → fresh ≢ null
    → s.queue.heap fresh ≡ none
    → enqueue fresh fd s.queue ≡ some q
    → InOrder (record s { queue = q; pc = pc; accepted = s.accepted ++ fd ∷ [] })
accepted-InOrder {s} pc fresh fd v ne unused e =
    let (t, e', is) = enqueue-IsQueue fresh fd s.queue v.cells v.queue ne unused in
    record {
      cells = v.cells ++ (fresh, fd) ∷ [];
      queue = subst (λ x. IsQueue x (v.cells ++ (fresh, fd) ∷ [])) (some_eq e' e) is;
      order = rw (v.order) (simp (map-append, append_assoc));
    }

taken-InOrder :
    (s : Pool) (pc : ℕ → Pc) (i : ℕ) {fd : ℕ} {q : Queue} (cs : Cells)
    → IsQueue s.queue cs
    → s.accepted ≡ served s.taken ++ clients cs
    → dequeue s.queue ≡ took fd q
    → InOrder (record s { queue = q; pc = pc; taken = s.taken ++ (fd, i) ∷ [] })
taken-InOrder s pc i [] is order e = absurd (ground (arith, dequeue-nil s.queue is))
taken-InOrder s pc i {fd} {q} ((p, fd') ∷ cs) is order e =
    let (t, e', is') = dequeue-IsQueue s.queue p fd' cs is in
    let (same, rest) = took_eq e' e in
    record {
      cells = cs;
      queue = subst (λ x. IsQueue x cs) rest is';
      order = rw (order, ← same) (simp (map-append, append_assoc));
    }

enqueue-ne_null :
    (fresh fd : ℕ) (q : Queue) {t : Queue} → enqueue fresh fd q ≡ some t → fresh ≢ null
unfolding enqueue
enqueue-ne_null fresh fd q e = ground arith

Step-InOrder : {n : ℕ} {s t : Pool} → InOrder s → Step n s t → InOrder t
Step-InOrder {n} {s} v (accepts fresh fd {pc = pc} unused e w) =
    accepted-InOrder pc fresh fd v (enqueue-ne_null fresh fd s.queue e) unused e
Step-InOrder v (sleeps i h at e) = record { cells = v.cells; queue = v.queue; order = v.order }
Step-InOrder {n} {s} v (takes i h at e) = taken-InOrder s _ i v.cells v.queue v.order e
Step-InOrder v (leaves i h at w) = record { cells = v.cells; queue = v.queue; order = v.order }
Step-InOrder v (spurious i h at) = record { cells = v.cells; queue = v.queue; order = v.order }

Reach-InOrder : {n : ℕ} {s : Pool} → Reach n s → InOrder s
Reach-InOrder (start h) = record {
  cells = [];
  queue = record { linked = nil; ends = refl };
  order = refl;
}
Reach-InOrder (later r step) = Step-InOrder (Reach-InOrder r) step

dequeue-ne_fault : (q : Queue) (cs : Cells) → IsQueue q cs → dequeue q ≢ fault
dequeue-ne_fault q [] v e = absurd (ground (arith, dequeue-nil q v))
dequeue-ne_fault q ((p, fd) ∷ cs) v e =
    let (t, e', is) = dequeue-IsQueue q p fd cs v in absurd (ground (arith, e, e'))

-- In a state that the pool of n threads reaches, the queue's nodes lead from the head to the tail
-- pointer, which is null when there are none, the clients accepted are, in order, those that threads
-- have taken and then those in the queue, no test of a thread for a client faults, and accepting one
-- faults at no address that is not null and not in use.
pub Reach-accepted :
    {n : ℕ} {s : Pool}
    → Reach n s
    → (cs : Cells) × IsQueue s.queue cs
      × (s.accepted ≡ served s.taken ++ clients cs)
      × (dequeue s.queue ≢ fault)
      × ((fresh fd : ℕ)
          → fresh ≢ null
          → s.queue.heap fresh ≡ none
          → (q : Queue) × (enqueue fresh fd s.queue ≡ some q))
Reach-accepted {n} {s} r =
    let v = Reach-InOrder r in
    (
      v.cells,
      v.queue,
      v.order,
      dequeue-ne_fault s.queue v.cells v.queue,
      λ fresh fd ne unused.
          let (q, e, is) = enqueue-IsQueue fresh fd s.queue v.cells v.queue ne unused in (q, e),
    )

-- A client waits only while a thread is awake.
record Attended (n : ℕ) (s : Pool) : Type 0 where
  heeds : (s.queue.head ≡ null) ⊎ (0 < count is_awake n s.pc)

Signalled-awake : {n : ℕ} {pc qc : ℕ → Pc} → 0 < n → Signalled n pc qc → 0 < count is_awake n qc
Signalled-awake {n} {pc} h (unheard quiet) = count-pos is_awake n pc 0 h (go (pc 0) refl)
  where
    go : (p : Pc) → pc 0 ≡ p → is_awake p ≡ true
    go at_test e = refl
    go asleep e = absurd (ground (arith, count-pos is_asleep n pc 0 h))
    go (serving fd) e = refl
Signalled-awake {n} {pc} h (heard j lt e) =
    count-pos is_awake n (update pc j at_test) j lt (ground arith)

waits_empty : (q : Queue) → dequeue q ≡ waits → q.head ≡ null
unfolding dequeue take_first
waits_empty q e = ground arith

Step-Attended : {n : ℕ} {s t : Pool} → 0 < n → Attended n s → Step n s t → Attended n t
Step-Attended h v (accepts fresh fd unused e w) = record { heeds = inr (Signalled-awake h w) }
Step-Attended {n} {s} h v (sleeps i lt at e) = record { heeds = inl (waits_empty s.queue e) }
Step-Attended {n} {s} h v (takes i {fd = fd} lt at e) = record {
  heeds = inr (count-pos is_awake n (update s.pc i (serving fd)) i lt (ground arith));
}
Step-Attended h v (leaves i lt at w) = record { heeds = inr (Signalled-awake h w) }
Step-Attended {n} {s} h v (spurious i lt at) = record {
  heeds = inr (count-pos is_awake n (update s.pc i at_test) i lt (ground arith));
}

Reach-Attended : {n : ℕ} {s : Pool} → 0 < n → Reach n s → Attended n s
Reach-Attended h (start m) = record { heeds = inl refl }
Reach-Attended h (later r step) = Step-Attended h (Reach-Attended h r) step

-- In a state that a pool of at least one thread reaches, when the queue holds a client, some thread
-- stands at its test of the queue or serves a client, so that not all sleep.
Reach-attended :
    {n : ℕ} {s : Pool}
    → 0 < n
    → Reach n s
    → s.queue.head ≢ null
    → (i : ℕ) × (i < n) × (is_awake (s.pc i) ≡ true)
Reach-attended {n} {s} h r full = elim ((Reach-Attended h r).heeds) [
  | inl empty ↦ absurd (full empty)
  | inr awake ↦ count-some is_awake n s.pc awake
]
