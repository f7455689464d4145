-- ===== src/Kv/Tail.antt =====
-- The tail pointer of lab_nw/kv-server*/server.c between DELETE and CREATE.
use cs.Base.{
  ℕ, ◌<◌, ◌≡◌, ◌≢◌, inl, inr, false, none, some, ◌∷◌, arith, ◌==◌, Bool-cases, ne→==, length,
}
use cs.Kv.Memory.{
  Ptr, null, Node, exclusive, entered, Server, Run, fault, Cmd, chain, put, write, load, assign,
  node,
}
use cs.Kv.Store.{Payload, Input, Variant, note, append_node, create, delete}
use cs.Kv.Cells.{Cell, Cells, Linked, find, erase, Returns, returns, null_of_cons}
use cs.Kv.Scan.{find_loop-find}
use cs.Kv.Create.{answered}
use cs.Kv.Delete.{Erased, delete-Erased}

pub then_fault :
    {A B : Type 0} {P : A → Server → Type 0} {r : Run A} (k : A → Cmd B)
    → Returns P r
    → ((a : A) (s : Server) → P a s → k a s ≡ fault)
    → chain r k ≡ fault
then_fault k (returns p) f = f _ _ p

assign-none : (p : Ptr) (f : Node → Node) (s : Server) → s.heap p ≡ none → assign p f s ≡ fault
unfolding assign load
assign-none p f s e = elim (Bool-cases (p == null)) [ inl is ↦ rw is | inr not ↦ rw (not, e) ]

append_node-fault :
    (v : Variant) (p : Payload) (i : Input) (s : Server)
    → (s.head == null) ≡ false
    → i.fresh ≢ null
    → i.fresh ≢ s.tail
    → s.heap s.tail ≡ none
    → append_node v p i s ≡ fault
unfolding append_node write
append_node-fault v p i s some_head ne other gone = rw (
  ne→== i.fresh null ne,
  some_head,
  assign-none s.tail (λ n. record n { next = i.fresh }) (put s i.fresh (some (node 0 none null)))
      (ground arith),
)

-- On a linked list, with more fuel than cells, when DELETE takes out the cell that the tail
-- pointer is at and leaves other cells, CREATE of a key that these do not have, with a fresh
-- address that is neither null nor the old tail, writes through the freed tail: DELETE does not
-- move it.
delete-create_fault :
    (v : Variant) (fuel : ℕ) (p q : Payload) (i : Input) (s : Server) (c : Cell) (cs ds : Cells)
    (d : Cell)
    → Linked s.heap s.head cs
    → length cs < fuel
    → find p.key cs ≡ some c
    → c.addr ≡ s.tail
    → erase p.key cs ≡ d ∷ ds
    → find q.key (d ∷ ds) ≡ none
    → length (d ∷ ds) < fuel
    → i.fresh ≢ null
    → i.fresh ≢ s.tail
    → chain (delete v fuel p s) (λ _. create v fuel q i) ≡ fault
unfolding create
delete-create_fault v fuel p q i s c cs ds d l enough hit is_tail rest absent enough' ne other =
    then_fault _ (delete-Erased v fuel p s cs l enough) λ _ t e. faults t e (rw rest at e.linked)
  where
    faults :
        (t : Server)
        → Erased v p.key cs s t
        → Linked t.heap t.head (d ∷ ds)
        → create v fuel q i t ≡ fault
    faults t e l' = rw (
      find_loop-find q.key fuel {s = record t { log = note v (entered exclusive) t.log }} l'
          enough',
      absent,
      append_node-fault v q i (answered v t) (null_of_cons l') ne (rw e.tail_is other)
          (rw (e.tail_is, ← is_tail) (e.freed c hit)),
    )
