-- ===== src/Kv/Read.antt =====
-- READ in lab_nw/kv-server*/server.c, on a linked list.
use cs.Base.{ℕ, ◌<◌, ◌≡◌, inl, inr, none, some, List, ◌∷◌, ◌==◌, subst, Bool-cases, length}
use cs.Kv.Memory.{
  Ptr, Heap, node, text, header, bytes, entered, left, sent, Server, ok, fault, c_string,
}
use cs.Kv.Store.{Payload, Variant, note, read_mode, send_value, read}
use cs.Kv.Cells.{Cell, cell, Cells, Holds, Linked, nil, cons, find, load-Holds}
use cs.Kv.Scan.{find_loop-find}

-- The cell that a search finds is in memory.
pub find-Holds :
    (key : ℕ) {h : Heap} {p : Ptr} {c : Cell} {cs : Cells}
    → Linked h p cs
    → find key cs ≡ some c
    → (q : Ptr) × Holds h c.addr (node c.key c.value q)
unfolding find
find-Holds key nil e = cc
find-Holds key {h} {c} (cons {p} {q} {k} {v} {cs} here out l) e = elim (Bool-cases (k == key)) [
  | inl hit ↦ (q, subst (λ d. Holds h d.addr (node d.key d.value q)) (same (rw hit at e)) here)
  | inr miss ↦ find-Holds key l (rw miss at e)
]
  where
    same : some (cell p k v) ≡ some c → cell p k v ≡ c
    same f = cc

pub read-found :
    (v : Variant) (fuel : ℕ) (p : Payload) (s : Server) (c : Cell) (cs : Cells) (b : List ℕ)
    → Linked s.heap s.head cs
    → length cs < fuel
    → find p.key cs ≡ some c
    → c_string c.value ≡ some b
    → read v fuel p s
      ≡ ok tt (record s {
        log = note v (left (read_mode v)) (
            sent (bytes b)
            ∷ sent (header (length b))
            ∷ sent (text "OK")
            ∷ note v (entered (read_mode v)) s.log);
      })
unfolding read send_value
read-found v fuel p s c cs b l enough there value =
    let (q, here) = find-Holds p.key l there in
    rw
      (
        find_loop-find p.key fuel {s = record s { log = note v (entered (read_mode v)) s.log }} l
            enough,
        there,
      )
      (rw (
        load-Holds (record s { log = sent (text "OK") ∷ note v (entered (read_mode v)) s.log })
            here,
        value,
      ))

pub read-missing :
    (v : Variant) (fuel : ℕ) (p : Payload) (s : Server) (cs : Cells)
    → Linked s.heap s.head cs
    → length cs < fuel
    → find p.key cs ≡ none
    → read v fuel p s
      ≡ ok tt (record s {
        log =
            sent (text "Key not found")
            ∷ note v (left (read_mode v)) (note v (entered (read_mode v)) s.log);
      })
unfolding read
read-missing v fuel p s cs l enough missing = rw (
  find_loop-find p.key fuel {s = record s { log = note v (entered (read_mode v)) s.log }} l enough,
  missing,
)

-- A value with no zero in its block is read beyond its end.
pub read-overrun :
    (v : Variant) (fuel : ℕ) (p : Payload) (s : Server) (c : Cell) (cs : Cells)
    → Linked s.heap s.head cs
    → length cs < fuel
    → find p.key cs ≡ some c
    → c_string c.value ≡ none
    → read v fuel p s ≡ fault
unfolding read send_value
read-overrun v fuel p s c cs l enough there value =
    let (q, here) = find-Holds p.key l there in
    rw
      (
        find_loop-find p.key fuel {s = record s { log = note v (entered (read_mode v)) s.log }} l
            enough,
        there,
      )
      (rw (
        load-Holds (record s { log = sent (text "OK") ∷ note v (entered (read_mode v)) s.log })
            here,
        value,
      ))
