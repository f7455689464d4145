-- ===== src/Kv/Create.antt =====
-- CREATE in lab_nw/kv-server*/server.c, on a linked list: a key that is there, and a new one.
use cs.Base.{
  ℕ, ◌<◌, ◌≡◌, ◌≢◌, refl, inl, inr, true, false, Option, none, some, [], ◌∷◌, ◌++◌, subst, sym, ap,
  ◌∙◌, arith, ◌==◌, if◌then◌else◌, Bool-cases, Option-cases, ne→==, length,
}
use cs.Kv.Memory.{
  Ptr, null, Buffer, Node, node, Heap, text, exclusive, entered, left, sent, Server, ok, write, put,
  recv_into, put_nul,
}
use cs.Kv.Store.{Payload, Input, Variant, note, end_value, fill_node, append_node, create}
use cs.Kv.Cells.{
  Cell, cell, Cells, at, at-append, at-last_addr, at_cases, last-Holds, last_addr-append, Uncons,
  uncons, null_of_nil, null_of_cons, Holds, Linked, nil, cons, at_unused, last_addr, IsStore, find,
  Returns, returns, weaken, after, assign-Holds, then_assign, then_load, Holds-put,
}
use cs.Kv.Scan.{find_loop-find}

-- A value once it is ended; `none` if the zero would fall outside its block.
unfoldable pub ended : Variant → ℕ → Buffer → Option Buffer
ended v size b =
    if v.ends_value
    then elim (put_nul size b) [ none ↦ none | some block ↦ some (some block) ]
    else some b

-- What CREATE leaves in the value: the bytes that came over what `malloc` returned, ended.
unfoldable pub stored : Variant → Payload → Input → Option Buffer
unfolding ended
stored v p i = ended v p.value_size (recv_into i.block i.body)

-- The heap in which the node at `tail`, if it is there, leads to `fresh`.
abbrev redirect : Ptr → Option Node → Option Node
redirect q none = none
redirect q (some n) = some (record n { next = q })

abbrev Hooked : Heap → Heap → Ptr → Ptr → Type 0
Hooked h g tail fresh =
    (a : Ptr) → (a == fresh) ≡ false → g a ≡ (if a == tail then redirect fresh (h a) else h a)

-- With the last cell hooked to a new one, the list is longer by that one.
linked-append :
    {h : Heap} (g : Heap) {p q : Ptr} {cs : Cells} (k j : ℕ) (v w : Buffer) (fresh tail : Ptr)
    → Holds h p (node k v q)
    → at p cs ≡ false
    → Linked h q cs
    → at fresh (cell p k v ∷ cs) ≡ false
    → tail ≡ last_addr p cs
    → Holds g fresh (node j w null)
    → Hooked h g tail fresh
    → Linked g p (cell p k v ∷ cs ++ cell fresh j w ∷ [])
linked-append g {p} k j v w fresh tail e o nil out last new hook =
    cons (ground (arith, hook p)) (ground arith) (cons new refl nil)
linked-append g {p} k j v w fresh tail e o (cons {p = q} {k = l} {v = u} {cs = ds} e' o' rest) out
      last new hook =
    cons (ground (arith, hook p, at-last_addr p (cell q l u) ds))
      (ground (arith, at-append p ds (cell fresh j w ∷ [])))
      (linked-append g l j u w fresh tail e' o' rest (ground arith) last new hook)

-- The change of one node, which leaves the rest of the server.
record Filled (p : Ptr) (n : Node) (s t : Server) : Type 0 where
  node_is : t.heap p ≡ some n
  others : (a : Ptr) → (a == p) ≡ false → t.heap a ≡ s.heap a
  head_is : t.head ≡ s.head
  tail_is : t.tail ≡ s.tail
  log_is : t.log ≡ s.log

end_value-Filled :
    (v : Variant) (size : ℕ) (b : Buffer) (t : Server) {p : Ptr} {n : Node}
    → Holds t.heap p n
    → ended v size n.value ≡ some b
    → Returns (λ _ u. Filled p (record n { value = b }) t u) (end_value v size p t)
unfolding end_value ended write
end_value-Filled v size b t {p} {n} e kept = elim (Bool-cases v.ends_value) [
  | inr not ↦ rw not (
      returns (record {
        node_is = ground arith;
        others = λ a o. refl;
        head_is = refl;
        tail_is = refl;
        log_is = refl;
      }))
  | inl ends ↦ rw ends (
      then_load t e _ (elim (Option-cases (put_nul size n.value)) [
        | inl bad ↦ cc (rw (ends, bad) at kept)
        | inr (block, good) ↦
            rw (good, assign-Holds t _ e)
              (returns (record {
                node_is = ground arith;
                others = ground arith;
                head_is = refl;
                tail_is = refl;
                log_is = refl;
              }))
      ]))
]

fill_node-Filled :
    (v : Variant) (p : Payload) (i : Input) (b : Buffer) (s : Server) {n : Node}
    → Holds s.heap i.fresh n
    → stored v p i ≡ some b
    → Returns (λ _ t. Filled i.fresh (node p.key b null) s t) (fill_node v p i s)
unfolding fill_node stored write
fill_node-Filled v p i b s {n} e kept = then_assign s e _ _ (
    then_assign s₁ e₁ _ _ (
      then_assign s₂ e₂ _ _ (
        weaken (end_value-Filled v p.value_size b s₃ e₃ kept) λ _ t f. record {
          node_is = f.node_is;
          others = λ a o. ground (arith, f.others a);
          head_is = f.head_is;
          tail_is = f.tail_is;
          log_is = f.log_is;
        })))
  where
    s₁ : Server
    s₁ = put s i.fresh (some (node n.key n.value null))

    e₁ : Holds s₁.heap i.fresh (node n.key n.value null)
    e₁ = Holds-put s _ e

    s₂ : Server
    s₂ = put s₁ i.fresh (some (node p.key n.value null))

    e₂ : Holds s₂.heap i.fresh (node p.key n.value null)
    e₂ = Holds-put s₁ _ e₁

    s₃ : Server
    s₃ = put s₂ i.fresh (some (node p.key (recv_into i.block i.body) null))

    e₃ : Holds s₃.heap i.fresh (node p.key (recv_into i.block i.body) null)
    e₃ = Holds-put s₂ _ e₂

abbrev pub new_cell : Payload → Input → Buffer → Cell
new_cell p i b = cell i.fresh p.key b

-- The list after CREATE, and what else it leaves as it was.
pub record Appended (s t : Server) (cs : Cells) (c : Cell) : Type 0 where
  pub store : IsStore t (cs ++ c ∷ [])
  pub same : (a : Ptr) → (a == c.addr) ≡ false → at a cs ≡ false → t.heap a ≡ s.heap a
  pub log_is : t.log ≡ s.log

append_node-nil :
    (v : Variant) (p : Payload) (i : Input) (b : Buffer) (s : Server)
    → IsStore s []
    → i.fresh ≢ null
    → stored v p i ≡ some b
    → Returns (λ _ t. Appended s t [] (new_cell p i b)) (append_node v p i s)
unfolding append_node write
append_node-nil v p i b s is ne kept =
    rw (ne→== i.fresh null ne, null_of_nil is.linked)
      (weaken (fill_node-Filled v p i b s₁ e kept) λ _ t f. record {
        store = record {
          linked = rw f.head_is (cons (record { ne_null = ne; held = f.node_is }) refl nil);
          ends = f.tail_is;
        };
        same = λ a o _. ground (arith, f.others a);
        log_is = f.log_is;
      })
  where
    s₁ : Server
    s₁ = record (put s i.fresh (some (node 0 none null))) { head = i.fresh; tail = i.fresh }

    e : Holds s₁.heap i.fresh (node 0 none null)
    e = record { ne_null = ne; held = ground arith }

-- The same when the list has a last node, `j` and `w`.
module _ (v : Variant) (p : Payload) (i : Input) (b : Buffer) (s : Server) {c : Cell} {cs : Cells}
    (is : IsStore s (c ∷ cs)) (ne : i.fresh ≢ null) (unused : s.heap i.fresh ≡ none)
    (kept : stored v p i ≡ some b) where
  out : at i.fresh (c ∷ cs) ≡ false
  out = at_unused i.fresh is.linked unused

  tail_in : at s.tail (c ∷ cs) ≡ true
  tail_in = subst (λ q. at q (c ∷ cs) ≡ true) (sym is.ends) (at-last_addr s.tail c cs)

  allocated : Server
  allocated = put s i.fresh (some (node 0 none null))

  linked : ℕ → Buffer → Server
  unfolding allocated
  linked j w = record (put allocated s.tail (some (node j w i.fresh))) { tail = i.fresh }

  Filled-Appended :
      (j : ℕ) (w : Buffer) (t : Server)
      → Holds s.heap s.tail (node j w null)
      → Filled i.fresh (node p.key b null) (linked j w) t
      → Appended s t (c ∷ cs) (new_cell p i b)
  unfolding linked write
  Filled-Appended j w t h f = record {
    store = record {
      linked =
          rw (f.head_is, u.here)
            (linked-append t.heap c.key p.key c.value b i.fresh s.tail u.holds u.apart u.rest out
              is.ends (record { ne_null = ne; held = f.node_is })
              (λ a o. ground (arith, f.others a)));
      ends = f.tail_is ∙ sym (last_addr-append t.tail (c ∷ cs) (new_cell p i b));
    };
    same = λ a o i. ground (arith, f.others a, at_cases s.tail a (c ∷ cs), tail_in);
    log_is = f.log_is;
  }
    where
      u : Uncons s.heap s.head c cs
      u = uncons is.linked

  append_node-last :
      (j : ℕ) (w : Buffer)
      → Holds s.heap s.tail (node j w null)
      → Returns (λ _ t. Appended s t (c ∷ cs) (new_cell p i b)) (append_node v p i s)
  unfolding append_node write linked
  append_node-last j w h =
      rw (ne→== i.fresh null ne, null_of_cons is.linked)
        (then_assign allocated {n = node j w null}
          (record {
            ne_null = h.ne_null;
            held = ground (arith, at_cases s.tail i.fresh (c ∷ cs), tail_in, out);
          })
          _ _
          (weaken
            (fill_node-Filled v p i b (linked j w) {n = node 0 none null}
              (record {
                ne_null = ne;
                held = ground (arith, at_cases s.tail i.fresh (c ∷ cs), tail_in, out);
              })
              kept)
            λ _ t f. Filled-Appended j w t h f))

  append_node-cons : Returns (λ _ t. Appended s t (c ∷ cs) (new_cell p i b)) (append_node v p i s)
  append_node-cons =
      let (j, w, h) = last-Holds s.tail is.linked in
      append_node-last j w (subst (λ q. Holds s.heap q (node j w null)) (sym is.ends) h)

append_node-Appended :
    (v : Variant) (p : Payload) (i : Input) (b : Buffer) (s : Server) (cs : Cells)
    → IsStore s cs
    → i.fresh ≢ null
    → s.heap i.fresh ≡ none
    → stored v p i ≡ some b
    → Returns (λ _ t. Appended s t cs (new_cell p i b)) (append_node v p i s)
append_node-Appended v p i b s [] is ne unused kept = append_node-nil v p i b s is ne kept
append_node-Appended v p i b s (c ∷ cs) is ne unused kept =
    append_node-cons v p i b s is ne unused kept

-- The server when CREATE has answered and goes on to append.
abbrev pub answered : Variant → Server → Server
answered v s = record s {
  log = sent (text "Key-value pair created") ∷ note v (entered exclusive) s.log;
}

-- A new key is appended, under the lock.
pub create-Appended :
    (v : Variant) (fuel : ℕ) (p : Payload) (i : Input) (b : Buffer) (s : Server) (cs : Cells)
    → IsStore s cs
    → length cs < fuel
    → find p.key cs ≡ none
    → i.fresh ≢ null
    → s.heap i.fresh ≡ none
    → stored v p i ≡ some b
    → Returns
        (λ _ t.
          IsStore t (cs ++ new_cell p i b ∷ [])
          × (t.log ≡ note v (left exclusive) (answered v s).log)
          × ((a : Ptr) → (a == i.fresh) ≡ false → at a cs ≡ false → t.heap a ≡ s.heap a))
        (create v fuel p i s)
unfolding create
create-Appended v fuel p i b s cs is enough new ne unused kept =
    rw
      (
        find_loop-find p.key fuel {s = record s { log = note v (entered exclusive) s.log }}
            is.linked enough,
        new,
      )
      (after _
        (append_node-Appended v p i b (answered v s) cs
          (record { linked = is.linked; ends = is.ends }) ne unused kept)
        λ _ t a. returns (
          record { linked = a.store.linked; ends = a.store.ends },
          ap (note v (left exclusive)) a.log_is,
          a.same,
        ))

-- On a linked list, with more fuel than cells, CREATE of a key that the list has returns, changes
-- only the log, and logs that the key exists, between the lock and the unlock.
pub create-exists :
    (v : Variant) (fuel : ℕ) (p : Payload) (i : Input) (s : Server) {c : Cell} (cs : Cells)
    → Linked s.heap s.head cs
    → length cs < fuel
    → find p.key cs ≡ some c
    → create v fuel p i s
      ≡ ok tt (record s {
        log =
            note v
              (left exclusive)
              (sent (text "Key already exists") ∷ note v (entered exclusive) s.log);
      })
unfolding create
create-exists v fuel p i s cs l enough there = rw (
  find_loop-find p.key fuel {s = record s { log = note v (entered exclusive) s.log }} l enough,
  there,
)
