-- ===== src/JobShell/Jobs/Segments.antt =====
-- Parts of the list of jobs in the memory of lab_shell/shell/eval.c.
use cs.Base.{◌≡◌, ◌≢◌, refl, Bool, true, false, ◌||◌, none, some, List, [], ◌∷◌, ◌++◌, arith, ◌==◌}
use cs.JobShell.Jobs.{Ptr, null, Job, Node, node, Heap, JobList, ok, load, put, set_next, set_prev}

pub record Cell : Type 0 where
  pub addr : Ptr
  pub job : Job

abbrev pub cell : Ptr → Job → Cell
cell p j = record { addr = p; job = j }

abbrev pub Cells : Type 0
Cells = List Cell

abbrev pub at : Ptr → Cells → Bool
at a [] = false
at a (c ∷ cs) = (a == c.addr) || at a cs

pub at-append : (a : Ptr) (xs ys : Cells) → at a (xs ++ ys) ≡ (at a xs || at a ys)
at-append a [] ys = refl
at-append a (c ∷ cs) ys = ground (arith, at-append a cs ys)

-- No two cells stand at one address.
abbrev pub Distinct : Cells → Type 0
Distinct [] = Unit {0}
Distinct (c ∷ cs) = (at c.addr cs ≡ false) × Distinct cs

pub record Holds (h : Heap) (p : Ptr) (n : Node) : Type 0 where
  pub ne_null : p ≢ null
  pub held : h p ≡ some n

-- From `p`, behind the node at `before`, the nodes lead through the cells to `q`, and the last of
-- them, or `before`, is at `last`.
pub data Seg (h : Heap) : (before p : Ptr) → Cells → (last q : Ptr) → Type 0 where
  nil : {a p : Ptr} → Seg h a p [] a p
  cons :
      {a p r l q : Ptr} {j : Job} {cs : Cells}
      → Holds h p (node j r a)
      → Seg h p r cs l q
      → Seg h a p (cell p j ∷ cs) l q

pub Seg-frame :
    {h : Heap} (g : Heap) {a p l q : Ptr} {cs : Cells}
    → Seg h a p cs l q
    → ((x : Ptr) → at x cs ≡ true → g x ≡ h x)
    → Seg g a p cs l q
Seg-frame g nil same = nil
Seg-frame g (cons {p} e s) same =
    cons (record { ne_null = e.ne_null; held = ground (arith, same p, e.held) })
      (Seg-frame g s (λ x i. same x (ground arith)))

pub Seg-append :
    {h : Heap} {a p l q m r : Ptr} {xs ys : Cells}
    → Seg h a p xs l q
    → Seg h l q ys m r
    → Seg h a p (xs ++ ys) m r
Seg-append nil t = t
Seg-append (cons e s) t = cons e (Seg-append s t)

-- The nodes where a list is cut in two.
pub record Cut (h : Heap) (a p : Ptr) (xs ys : Cells) (m r : Ptr) : Type 0 where
  pub last : Ptr
  pub next : Ptr
  pub left : Seg h a p xs last next
  pub right : Seg h last next ys m r

pub Seg-Cut :
    {h : Heap} {a p m r : Ptr} (xs : Cells) {ys : Cells}
    → Seg h a p (xs ++ ys) m r
    → Cut h a p xs ys m r
Seg-Cut [] s = record { last = _; next = _; left = nil; right = s }
Seg-Cut (x ∷ xs) (cons e s) =
    let c = Seg-Cut xs s in
    record { last = c.last; next = c.next; left = cons e c.left; right = c.right }

pub at_cases : (a b : Ptr) (cs : Cells) → at a cs ≡ true → at b cs ≡ false → (a == b) ≡ false
at_cases a b [] h o = cc
at_cases a b (c ∷ cs) h o = ground (arith, at_cases a b cs)

pub Seg-last :
    {h : Heap} {a p l q : Ptr} {c : Cell} {cs : Cells}
    → Seg h a p (c ∷ cs) l q
    → at l (c ∷ cs) ≡ true
Seg-last (cons e nil) = ground arith
Seg-last (cons e (cons f s)) = ground (arith, Seg-last (cons f s))

-- The last node of a part gets another next.
pub Seg-relink_last :
    {h : Heap} (g : Heap) {a p l q : Ptr} {c : Cell} {cs : Cells} (r : Ptr)
    → Seg h a p (c ∷ cs) l q
    → Distinct (c ∷ cs)
    → ((x : Ptr) → at x (c ∷ cs) ≡ true → (x == l) ≡ false → g x ≡ h x)
    → ((n : Node) → h l ≡ some n → g l ≡ some (record n { next = r }))
    → Seg g a p (c ∷ cs) l r
Seg-relink_last g r (cons e nil) d same last =
    cons (record { ne_null = e.ne_null; held = last _ e.held }) nil
Seg-relink_last g {l} r (cons {p} e (cons {p = u} {j = k} {cs} f s)) d same last =
    let inside = Seg-last (cons f s) in
    cons
      (record {
        ne_null = e.ne_null;
        held = ground (arith, same p, at_cases l p (cell u k ∷ cs) inside d.0, e.held);
      })
      (Seg-relink_last g r (cons f s) d.1 (λ x i o. same x (ground (arith, i)) o) last)

-- The first node gets another one before it.
pub Seg-relink_first :
    {h : Heap} (g : Heap) {a p l q : Ptr} {c : Cell} {cs : Cells} (b : Ptr)
    → Seg h a p (c ∷ cs) l q
    → Distinct (c ∷ cs)
    → ((x : Ptr) → at x (c ∷ cs) ≡ true → (x == p) ≡ false → g x ≡ h x)
    → ((n : Node) → h p ≡ some n → g p ≡ some (record n { prev = b }))
    → Seg g b p (c ∷ cs) l q
Seg-relink_first g b (cons e s) d same first =
    cons (record { ne_null = e.ne_null; held = first _ e.held })
      (Seg-frame g s (λ x i. same x (ground (arith, i)) (at_cases _ _ _ i d.0)))

pub at_unused :
    {h : Heap} {a p l q : Ptr} {cs : Cells} (x : Ptr)
    → Seg h a p cs l q
    → h x ≡ none
    → at x cs ≡ false
at_unused x nil unused = refl
at_unused x (cons e s) unused = ground (arith, at_unused x s unused, e.held)

-- The last node, and the first.
pub Seg-last-Holds :
    {h : Heap} {a p l q : Ptr} {c : Cell} {cs : Cells}
    → Seg h a p (c ∷ cs) l q
    → (n : Node) × Holds h l n
Seg-last-Holds (cons e nil) = (_, e)
Seg-last-Holds (cons e (cons f s)) = Seg-last-Holds (cons f s)

pub Seg-first-Holds :
    {h : Heap} {a p l q : Ptr} {c : Cell} {cs : Cells}
    → Seg h a p (c ∷ cs) l q
    → (n : Node) × Holds h p n
Seg-first-Holds (cons e s) = (_, e)

pub Seg-first-at :
    {h : Heap} {a p l q : Ptr} {c : Cell} {cs : Cells}
    → Seg h a p (c ∷ cs) l q
    → at p (c ∷ cs) ≡ true
Seg-first-at (cons e s) = ground arith

-- A part that is empty, and one that begins with a cell, where the pointers are no variables.
pub Seg-empty : {h : Heap} {a p l q : Ptr} → Seg h a p [] l q → (l ≡ a) × (p ≡ q)
Seg-empty nil = (refl, refl)

pub record Uncons (h : Heap) (a p : Ptr) (c : Cell) (cs : Cells) (l q : Ptr) : Type 0 where
  pub next : Ptr
  pub here : p ≡ c.addr
  pub holds : Holds h c.addr (node c.job next a)
  pub rest : Seg h c.addr next cs l q

pub Seg-Uncons :
    {h : Heap} {a p l q : Ptr} {c : Cell} {cs : Cells}
    → Seg h a p (c ∷ cs) l q
    → Uncons h a p c cs l q
Seg-Uncons (cons e s) = record { next = _; here = refl; holds = e; rest = s }

pub not_null : {h : Heap} {p : Ptr} {n : Node} → Holds h p n → (p == null) ≡ false
not_null e = ground (arith, e.ne_null)

pub load-Holds : {h : Heap} {p : Ptr} {n : Node} → Holds h p n → load p h ≡ ok n
unfolding load
load-Holds e = rw (not_null e, e.held) refl

pub set_next-Holds :
    (l : JobList) {p : Ptr} {n : Node} (q : Ptr)
    → Holds l.heap p n
    → set_next p q l ≡ ok (put l p (some (record n { next = q })))
unfolding set_next
set_next-Holds l q e = rw (load-Holds e) refl

pub set_prev-Holds :
    (l : JobList) {p : Ptr} {n : Node} (q : Ptr)
    → Holds l.heap p n
    → set_prev p q l ≡ ok (put l p (some (record n { prev = q })))
unfolding set_prev
set_prev-Holds l q e = rw (load-Holds e) refl

-- The list of jobs: both its pointers are right, unless it is empty.
abbrev pub IsJobs : JobList → Cells → Type 0
IsJobs l [] = l.head ≡ null
IsJobs l (c ∷ cs) = Seg l.heap null l.head (c ∷ cs) l.tail null × Distinct (c ∷ cs)

pub Distinct-append :
    (cs : Cells) (c : Cell) → Distinct cs → at c.addr cs ≡ false → Distinct (cs ++ c ∷ [])
Distinct-append [] c d out = (refl, tt)
Distinct-append (x ∷ xs) c d out = (
  ground (arith, at-append x.addr xs (c ∷ []), d.0),
  Distinct-append xs c d.1 (ground (arith, out)),
)
