-- ===== src/Kv/Cells.antt =====
-- What the list in the memory of lab_nw/kv-server*/server.c stands for: its nodes in order, each
-- with its address, key and value.
use cs.Base.{
  ℕ, ◌≡◌, refl, ◌≢◌, Bool, true, false, ◌||◌, Option, none, some, List, [], ◌∷◌, ◌++◌, arith, ◌==◌,
  if◌then◌else◌,
}
use cs.Kv.Memory.{
  Ptr, null, Buffer, Node, node, Heap, Server, Run, ok, Cmd, chain, write, load, assign, free, put,
}

pub record Cell : Type 0 where
  pub addr : Ptr
  pub key : ℕ
  pub value : Buffer

abbrev pub cell : Ptr → ℕ → Buffer → Cell
cell p k v = record { addr = p; key = k; value = v }

abbrev pub Cells : Type 0
Cells = List Cell

-- Whether an address is that of a cell.
abbrev pub at : Ptr → Cells → Bool
at a [] = false
at a (c ∷ cs) = (a == c.addr) || at a cs

pub at-append : (a : Ptr) (xs ys : Cells) → at a (xs ++ ys) ≡ (at a xs || at a ys)
at-append a [] ys = refl
at-append a (c ∷ cs) ys = ground (arith, at-append a cs ys)

-- Outside the cells the heap is as before.
abbrev pub SameOutside : Cells → Heap → Heap → Type 0
SameOutside cs h g = (a : Ptr) → at a cs ≡ false → g a ≡ h a

pub record Holds (h : Heap) (p : Ptr) (n : Node) : Type 0 where
  pub ne_null : p ≢ null
  pub held : h p ≡ some n

-- From `p` the pointers lead through the cells, no two at one address, to `NULL`.
pub data Linked (h : Heap) : Ptr → Cells → Type 0 where
  nil : Linked h null []
  cons :
      {p q : Ptr} {k : ℕ} {v : Buffer} {cs : Cells}
      → Holds h p (node k v q)
      → at p cs ≡ false
      → Linked h q cs
      → Linked h p (cell p k v ∷ cs)

pub frame :
    {h : Heap} (g : Heap) {p : Ptr} {cs : Cells}
    → Linked h p cs
    → ((a : Ptr) → at a cs ≡ true → g a ≡ h a)
    → Linked g p cs
frame g nil same = nil
frame g (cons {p} e out l) same =
    cons (ground (arith, same p)) out (frame g l (λ a i. same a (ground arith)))

-- An address that holds no node is none of the list's.
pub at_unused :
    {h : Heap} {p : Ptr} {cs : Cells} (a : Ptr) → Linked h p cs → h a ≡ none → at a cs ≡ false
at_unused a nil unused = refl
at_unused a (cons e out l) unused = ground (arith, at_unused a l unused)

pub at_cases : (a b : Ptr) (cs : Cells) → at a cs ≡ true → at b cs ≡ false → (a == b) ≡ false
at_cases a b [] h o = cc
at_cases a b (c ∷ cs) h o = ground (arith, at_cases a b cs)

-- A list taken apart at a pointer that is no variable.
pub record Uncons (h : Heap) (p : Ptr) (c : Cell) (cs : Cells) : Type 0 where
  pub next : Ptr
  pub here : p ≡ c.addr
  pub holds : Holds h c.addr (node c.key c.value next)
  pub apart : at c.addr cs ≡ false
  pub rest : Linked h next cs

pub uncons : {h : Heap} {p : Ptr} {c : Cell} {cs : Cells} → Linked h p (c ∷ cs) → Uncons h p c cs
uncons (cons {q} e out l) = record { next = q; here = refl; holds = e; apart = out; rest = l }

pub null_of_nil : {h : Heap} {p : Ptr} → Linked h p [] → (p == null) ≡ true
null_of_nil nil = refl

pub null_of_cons :
    {h : Heap} {p : Ptr} {c : Cell} {cs : Cells} → Linked h p (c ∷ cs) → (p == null) ≡ false
null_of_cons (cons e out l) = ground (arith, e.ne_null)

-- The address of the last cell.
abbrev pub last_addr : Ptr → Cells → Ptr
last_addr p [] = p
last_addr p (c ∷ cs) = last_addr c.addr cs

pub at-last_addr : (p : Ptr) (c : Cell) (cs : Cells) → at (last_addr p (c ∷ cs)) (c ∷ cs) ≡ true
at-last_addr p c [] = ground arith
at-last_addr p c (d ∷ ds) = ground (arith, at-last_addr c.addr d ds)

pub last_addr-append : (p : Ptr) (cs : Cells) (c : Cell) → last_addr p (cs ++ c ∷ []) ≡ c.addr
last_addr-append p [] c = refl
last_addr-append p (d ∷ ds) c = last_addr-append d.addr ds c

pub last-Holds :
    {h : Heap} {p : Ptr} (o : Ptr) {c : Cell} {cs : Cells}
    → Linked h p (c ∷ cs)
    → (k : ℕ) × (v : Buffer) × Holds h (last_addr o (c ∷ cs)) (node k v null)
last-Holds o (cons {k} {v} e out nil) = (k, v, e)
last-Holds o (cons {p} e out (cons e' out' l)) = last-Holds p (cons e' out' l)

-- A server whose list holds the cells, and whose tail pointer, unless the list is empty, is right.
pub record IsStore (s : Server) (cs : Cells) : Type 0 where
  pub linked : Linked s.heap s.head cs
  pub ends : s.tail ≡ last_addr s.tail cs

-- The first cell with a key, as an address.
unfoldable pub find : ℕ → Cells → Option Cell
find key [] = none
find key (c ∷ cs) = if c.key == key then some c else find key cs

abbrev pub addr : Option Cell → Option Ptr
addr none = none
addr (some c) = some c.addr

abbrev pub is_some {ℓ} : {A : Type ℓ} → Option A → Bool
is_some none = false
is_some (some _) = true

abbrev pub has : ℕ → Cells → Bool
has key cs = is_some (find key cs)

-- Without the first cell with the key.
unfoldable pub erase : ℕ → Cells → Cells
erase key [] = []
erase key (c ∷ cs) = if c.key == key then cs else c ∷ erase key cs

-- With another value in the first cell with the key.
unfoldable pub revalue : ℕ → Buffer → Cells → Cells
revalue key v [] = []
revalue key v (c ∷ cs) = if c.key == key then record c { value = v } ∷ cs else c ∷ revalue key v cs

pub at-erase : (a key : ℕ) (cs : Cells) → at a cs ≡ false → at a (erase key cs) ≡ false
unfolding erase
at-erase a key [] h = refl
at-erase a key (c ∷ cs) h = ground (arith, at-erase a key cs)

pub at-revalue : (a key : ℕ) (v : Buffer) (cs : Cells) → at a (revalue key v cs) ≡ at a cs
unfolding revalue
at-revalue a key v [] = refl
at-revalue a key v (c ∷ cs) = ground (arith, at-revalue a key v cs)

-- A command ends, and its result and state are as the predicate says.
pub data Returns {A : Type 0} (P : A → Server → Type 0) : Run A → Type 0 where
  returns : {a : A} {s : Server} → P a s → Returns P (ok a s)

module _ {A : Type 0} {P : A → Server → Type 0} where
  pub after :
      {B : Type 0} {Q : B → Server → Type 0} {r : Run A} (k : A → Cmd B)
      → Returns P r
      → ((a : A) (s : Server) → P a s → Returns Q (k a s))
      → Returns Q (chain r k)
  after k (returns p) next = next _ _ p

  pub weaken :
      {Q : A → Server → Type 0} {r : Run A}
      → Returns P r
      → ((a : A) (s : Server) → P a s → Q a s)
      → Returns Q r
  weaken (returns p) f = returns (f _ _ p)

pub not_null : {h : Heap} {p : Ptr} {n : Node} → Holds h p n → (p == null) ≡ false
not_null e = ground arith

-- Reads and writes at an address that holds a node, and the commands that follow them.
module _ {A : Type 0} {P : A → Server → Type 0} (s : Server) {p : Ptr} {n : Node}
    (e : Holds s.heap p n) where
  pub then_load : (k : Node → Cmd A) → Returns P (k n s) → Returns P (chain (load p s) k)
  unfolding load
  then_load k r = rw (not_null e, e.held) r

  pub then_assign :
      (f : Node → Node) (k : Unit {0} → Cmd A)
      → Returns P (k tt (put s p (some (f n))))
      → Returns P (chain (assign p f s) k)
  unfolding assign
  then_assign f k r = rw (not_null e, e.held) r

  pub then_free :
      (k : Unit {0} → Cmd A) → Returns P (k tt (put s p none)) → Returns P (chain (free p s) k)
  unfolding free
  then_free k r = rw (not_null e, e.held) r

pub Holds-put :
    (s : Server) {p : Ptr} {n : Node} (m : Node)
    → Holds s.heap p n
    → Holds (put s p (some m)).heap p m
unfolding write
Holds-put s {p} m e = record { ne_null = e.ne_null; held = ground arith }

pub load-Holds : (s : Server) {p : Ptr} {n : Node} → Holds s.heap p n → load p s ≡ ok n s
unfolding load
load-Holds s e = rw (not_null e, e.held)

pub assign-Holds :
    (s : Server) {p : Ptr} {n : Node} (f : Node → Node)
    → Holds s.heap p n
    → assign p f s ≡ ok tt (put s p (some (f n)))
unfolding assign
assign-Holds s f e = rw (not_null e, e.held)

pub free-Holds :
    (s : Server) {p : Ptr} {n : Node} → Holds s.heap p n → free p s ≡ ok tt (put s p none)
unfolding free
free-Holds s e = rw (not_null e, e.held)
