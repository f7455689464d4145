-- ===== src/Kv/Update.antt =====
-- UPDATE in lab_nw/kv-server*/server.c, on a linked list.
use cs.Base.{ℕ, zero, suc, ◌≡◌, refl, true, false, some, [], ◌∷◌, arith, ◌==◌, subst, sym}
use cs.Kv.Memory.{
  Ptr, Buffer, Heap, node, text, exclusive, entered, left, sent, Server, ok, out_of_fuel, write,
  recv_into,
}
use cs.Kv.Store.{Payload, Input, Variant, note, update_loop, update}
use cs.Kv.Cells.{
  Cell, cell, Cells, SameOutside, Holds, Linked, cons, frame, IsStore, Returns, returns, Uncons,
  uncons, null_of_nil, not_null, load-Holds, assign-Holds, at_cases,
}

update_loop-hit :
    (key fuel : ℕ) (s : Server) {p : Ptr} {j : ℕ} {w : Buffer} {q : Ptr}
    → Holds s.heap p (node j w q)
    → (j == key) ≡ true
    → update_loop key (suc fuel) p s ≡ ok (some p) s
unfolding update_loop
update_loop-hit key fuel s e hit = rw (not_null e, load-Holds s e, hit)

update_loop-stuck :
    (key fuel : ℕ) (s : Server) {p : Ptr} {j : ℕ} {w : Buffer} {q : Ptr}
    → Holds s.heap p (node j w q)
    → (j == key) ≡ false
    → update_loop key fuel p s ≡ out_of_fuel
unfolding update_loop
update_loop-stuck key zero s e miss = refl
update_loop-stuck key (suc fuel) s e miss =
    rw (not_null e, load-Holds s e, miss) (update_loop-stuck key fuel s e miss)

-- On a linked list whose first cell does not have the key, UPDATE returns with no amount of fuel.
pub update-diverges :
    (v : Variant) (fuel : ℕ) (p : Payload) (i : Input) (s : Server) (c : Cell) (cs : Cells)
    → Linked s.heap s.head (c ∷ cs)
    → (c.key == p.key) ≡ false
    → update v fuel p i s ≡ out_of_fuel
unfolding update
update-diverges v fuel p i s c cs l miss = rw (stuck s.head u.here)
  where
    u : Uncons s.heap s.head c cs
    u = uncons l

    stuck :
        (q : Ptr)
        → q ≡ c.addr
        → update_loop p.key fuel q (record s { log = note v (entered exclusive) s.log })
          ≡ out_of_fuel
    stuck q e = rw e (update_loop-stuck p.key fuel _ u.holds miss)

pub update_nil :
    (v : Variant) (fuel : ℕ) (p : Payload) (i : Input) (s : Server)
    → Linked s.heap s.head []
    → update v (suc fuel) p i s
      ≡ ok tt (record s {
        log =
            sent (text "Key not found")
            ∷ note v (left exclusive) (note v (entered exclusive) s.log);
      })
unfolding update update_loop
update_nil v fuel p i s l = rw (null_of_nil l)

-- On a well-formed list whose first cell has the key, UPDATE returns in the same list with what
-- came written over the new block of that cell, no other cell's memory changed, and logs the
-- answer and then the unlock.
update-first :
    (v : Variant) (fuel : ℕ) (p : Payload) (i : Input) (s : Server) (c : Cell) (cs : Cells)
    → IsStore s (c ∷ cs)
    → (c.key == p.key) ≡ true
    → Returns
        (λ _ t.
          IsStore t (cell c.addr c.key (recv_into i.block i.body) ∷ cs)
          × SameOutside (c ∷ []) s.heap t.heap
          × (t.log
              ≡ note v
                  (left exclusive)
                  (sent (text "Updated value") ∷ note v (entered exclusive) s.log)))
        (update v (suc fuel) p i s)
unfolding update write
update-first v fuel p i s c cs is hit =
    rw
      (
        update_loop-hit p.key fuel (record s { log = note v (entered exclusive) s.log }) here hit,
        assign-Holds answered _ here,
      )
      (returns (
        record {
          linked =
              subst (λ q. Linked changed q (cell c.addr c.key (recv_into i.block i.body) ∷ cs))
                (sym u.here)
                (cons {q = u.next} {k = c.key} {v = recv_into i.block i.body}
                  (record { ne_null = u.holds.ne_null; held = ground (arith, u.here) }) u.apart
                  (frame changed u.rest
                    (λ a i. ground (arith, u.here, at_cases a c.addr cs, u.apart))));
          ends = is.ends;
        },
        λ a o. ground (arith, u.here),
        refl,
      ))
  where
    u : Uncons s.heap s.head c cs
    u = uncons is.linked

    here : Holds s.heap s.head (node c.key c.value u.next)
    here = subst (λ q. Holds s.heap q (node c.key c.value u.next)) (sym u.here) u.holds

    answered : Server
    answered = record s { log = sent (text "Updated value") ∷ note v (entered exclusive) s.log }

    changed : Heap
    changed = write s.heap s.head (some (node c.key (recv_into i.block i.body) u.next))
