-- ===== src/Kv/Queue/Cells.antt =====
-- What the queue in the memory of lab_nw/kv-server-pool/server.c stands for: its nodes in order,
-- each as its address and client.
use cs.Base.{
  ℕ, ◌≡◌, ◌≢◌, refl, sym, subst, Bool, true, false, ◌||◌, Option, none, some, List, [], ◌∷◌, ◌++◌,
  arith, ◌==◌, if◌then◌else◌,
}
use cs.Base.Family.{update}
use cs.Kv.Memory.{Ptr, null}
use cs.Kv.Queue.{FdNode, fd_node, Queue, hook, append_fd, enqueue, waits, took, take_first, dequeue}

abbrev pub Cells : Type 0
Cells = List (Ptr × ℕ)

abbrev pub at : Ptr → Cells → Bool
at a [] = false
at a ((p, fd) ∷ cs) = (a == p) || at a cs

at-append : (a : Ptr) (xs ys : Cells) → at a (xs ++ ys) ≡ (at a xs || at a ys)
at-append a [] ys = refl
at-append a ((p, fd) ∷ cs) ys = ground (arith, at-append a cs ys)

-- The pointers lead through the cells, no two at one address, to `NULL`.
pub data Linked (h : Ptr → Option FdNode) : Ptr → Cells → Type 0 where
  nil : Linked h null []
  cons :
      {p q : Ptr} {fd : ℕ} {cs : Cells}
      → p ≢ null
      → h p ≡ some (fd_node fd q)
      → at p cs ≡ false
      → Linked h q cs
      → Linked h p ((p, fd) ∷ cs)

abbrev pub last_addr : Ptr → Cells → Ptr
last_addr o [] = o
last_addr o ((p, fd) ∷ cs) = last_addr p cs

-- The tail pointer is at the last node, and null when there is none.
pub record IsQueue (q : Queue) (cs : Cells) : Type 0 where
  pub linked : Linked q.heap q.head cs
  pub ends : q.tail ≡ last_addr null cs

at-last_addr : (p : Ptr) (fd : ℕ) (cs : Cells) → at (last_addr p cs) ((p, fd) ∷ cs) ≡ true
at-last_addr p fd [] = ground arith
at-last_addr p fd ((q, e) ∷ cs) = ground (arith, at-last_addr q e cs)

last_addr-append : (o p : Ptr) (fd : ℕ) (cs : Cells) → last_addr o (cs ++ (p, fd) ∷ []) ≡ p
last_addr-append o p fd [] = refl
last_addr-append o p fd ((q, e) ∷ cs) = last_addr-append q p fd cs

at_unused :
    {h : Ptr → Option FdNode} {p : Ptr} {cs : Cells} (a : Ptr)
    → Linked h p cs
    → h a ≡ none
    → at a cs ≡ false
at_unused a nil unused = refl
at_unused a (cons ne e out l) unused = ground (arith, at_unused a l unused)

at_cases : (a b : Ptr) (cs : Cells) → at a cs ≡ true → at b cs ≡ false → (a == b) ≡ false
at_cases a b [] h o = cc
at_cases a b ((p, fd) ∷ cs) h o = ground (arith, at_cases a b cs)

frame :
    {h g : Ptr → Option FdNode} {p : Ptr} {cs : Cells}
    → Linked h p cs
    → ((a : Ptr) → at a cs ≡ true → g a ≡ h a)
    → Linked g p cs
frame nil same = nil
frame (cons {p} ne e out l) same =
    cons ne (ground (arith, same p)) out (frame l (λ a i. same a (ground arith)))

abbrev redirect : Ptr → Option FdNode → Option FdNode
redirect q none = none
redirect q (some n) = some (record n { next = q })

abbrev Hooked : (Ptr → Option FdNode) → (Ptr → Option FdNode) → Ptr → Ptr → Type 0
Hooked h g tail fresh =
    (a : Ptr) → (a == fresh) ≡ false → g a ≡ (if a == tail then redirect fresh (h a) else h a)

-- With the last node hooked to a new one, the list is longer by that one.
linked-append :
    {h : Ptr → Option FdNode} (g : Ptr → Option FdNode) {p q : Ptr} {cs : Cells} (fd new : ℕ)
    (fresh tail : Ptr)
    → p ≢ null
    → h p ≡ some (fd_node fd q)
    → at p cs ≡ false
    → Linked h q cs
    → at fresh ((p, fd) ∷ cs) ≡ false
    → tail ≡ last_addr p cs
    → fresh ≢ null
    → g fresh ≡ some (fd_node new null)
    → Hooked h g tail fresh
    → Linked g p ((p, fd) ∷ cs ++ (fresh, new) ∷ [])
linked-append g {p} fd new fresh tail ne e o nil out last nf is hooked =
    cons ne (ground (arith, hooked p)) (ground arith) (cons nf is refl nil)
linked-append g {p} fd new fresh tail ne e o (cons {p = q} {fd = fd'} {cs = ds} ne' e' o' rest) out
      last nf is hooked =
    cons ne (ground (arith, hooked p, at-last_addr q fd' ds))
      (ground (arith, at-append p ds ((fresh, new) ∷ [])))
      (linked-append g fd' new fresh tail ne' e' o' rest (ground arith) last nf is hooked)

last-held :
    {h : Ptr → Option FdNode} {p r : Ptr} {fd : ℕ} {cs : Cells}
    → Linked h p ((r, fd) ∷ cs)
    → (e : ℕ) × (last_addr r cs ≢ null) × (h (last_addr r cs) ≡ some (fd_node e null))
last-held (cons {fd} ne e out nil) = (fd, ne, e)
last-held (cons ne e out (cons ne' e' out' l)) = last-held (cons ne' e' out' l)

-- A list taken apart at a pointer that is no variable.
pub record Uncons (h : Ptr → Option FdNode) (p r : Ptr) (fd : ℕ) (cs : Cells) : Type 0 where
  pub next : Ptr
  pub here : p ≡ r
  pub ne_null : r ≢ null
  pub held : h r ≡ some (fd_node fd next)
  pub apart : at r cs ≡ false
  pub rest : Linked h next cs

pub uncons :
    {h : Ptr → Option FdNode} {p r : Ptr} {fd : ℕ} {cs : Cells}
    → Linked h p ((r, fd) ∷ cs)
    → Uncons h p r fd cs
uncons (cons {q} ne e out l) = record {
  next = q;
  here = refl;
  ne_null = ne;
  held = e;
  apart = out;
  rest = l;
}

pub null_of_nil : {h : Ptr → Option FdNode} {p : Ptr} → Linked h p [] → p ≡ null
null_of_nil nil = refl

-- Appending a client at an address that is not in use never faults.
pub enqueue-IsQueue :
    (fresh fd : ℕ) (q : Queue) (cs : Cells)
    → IsQueue q cs
    → fresh ≢ null
    → q.heap fresh ≡ none
    → (t : Queue) × (enqueue fresh fd q ≡ some t) × IsQueue t (cs ++ (fresh, fd) ∷ [])
unfolding enqueue append_fd hook
enqueue-IsQueue fresh fd q [] v nf unused = (
  record { head = fresh; tail = fresh; heap = update q.heap fresh (some (fd_node fd null)) },
  ground (arith, null_of_nil v.linked),
  record { linked = cons nf (ground arith) refl nil; ends = refl },
)
enqueue-IsQueue fresh fd q ((p, e) ∷ cs) v nf unused =
    let u = uncons v.linked in
    let (k, ne, held) = last-held v.linked in
    let out : at fresh ((p, e) ∷ cs) ≡ false = at_unused fresh v.linked unused in
    let apart : (last_addr p cs == fresh) ≡ false =
      at_cases (last_addr p cs) fresh ((p, e) ∷ cs) (at-last_addr p e cs) out in
    let g : Ptr → Option FdNode =
      update (update q.heap fresh (some (fd_node fd null))) q.tail (some (fd_node k fresh)) in
    (
      record { head = q.head; tail = fresh; heap = g },
      ground (arith, u.here, u.ne_null, v.ends, ne, held, apart),
      record {
        linked =
            subst (λ x. Linked g x ((p, e) ∷ cs ++ (fresh, fd) ∷ [])) (sym u.here)
              (linked-append g e fd fresh q.tail u.ne_null u.held u.apart u.rest out v.ends nf
                (ground (arith, v.ends, apart)) (λ a o. ground (arith, v.ends, held)));
        ends = ground (arith, last_addr-append p fresh fd cs);
      },
    )

-- The tail pointer once the first node is gone.
ends-rest :
    {h : Ptr → Option FdNode} {q : Ptr} (p tail : Ptr) (cs : Cells)
    → Linked h q cs
    → tail ≡ last_addr p cs
    → (if q == null then null else tail) ≡ last_addr null cs
ends-rest p tail [] l e = ground (arith, null_of_nil l)
ends-rest p tail ((r, fd) ∷ cs) l e = let u = uncons l in ground (arith, u.here, u.ne_null, e)

-- The first client, and the queue without it.
pub dequeue-IsQueue :
    (q : Queue) (p : Ptr) (fd : ℕ) (cs : Cells)
    → IsQueue q ((p, fd) ∷ cs)
    → (t : Queue) × (dequeue q ≡ took fd t) × IsQueue t cs
unfolding dequeue take_first
dequeue-IsQueue q p fd cs v =
    let u = uncons v.linked in
    (
      record {
        head = u.next;
        tail = if u.next == null then null else q.tail;
        heap = update q.heap q.head (some (fd_node fd null));
      },
      ground (arith, u.here, u.ne_null, u.held),
      record {
        linked = frame u.rest (λ a i. ground (arith, u.here, at_cases a p cs i u.apart));
        ends = ends-rest p q.tail cs u.rest v.ends;
      },
    )

pub dequeue-nil : (q : Queue) → IsQueue q [] → dequeue q ≡ waits
unfolding dequeue
dequeue-nil q v = ground (arith, null_of_nil v.linked)
