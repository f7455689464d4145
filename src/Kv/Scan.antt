-- ===== src/Kv/Scan.antt =====
-- The loop of CREATE and READ over the list in lab_nw/kv-server*/server.c.
use cs.Base.{ℕ, zero, suc, ◌<◌, ◌≡◌, refl, inl, inr, arith, ◌==◌, Bool-cases, length}
use cs.Kv.Memory.{Ptr, Server, ok}
use cs.Kv.Store.{find_loop}
use cs.Kv.Cells.{Linked, nil, cons, Cells, find, addr, not_null, load-Holds}

-- With a round for each cell and one more, the loop ends at the first cell with the key.
pub find_loop-find :
    (key k : ℕ) {s : Server} {p : Ptr} {cs : Cells}
    → Linked s.heap p cs
    → length cs < k
    → find_loop key k p s ≡ ok (addr (find key cs)) s
unfolding find_loop find
find_loop-find key zero l fuel = absurd (omega arith)
find_loop-find key (suc k) nil fuel = refl
find_loop-find key (suc k) {s} (cons {k = j} e out l) fuel =
    rw (not_null e, load-Holds s e)
      (elim (Bool-cases (j == key)) [
        | inl hit ↦ rw hit
        | inr miss ↦ rw miss (find_loop-find key k l (omega arith))
      ])
