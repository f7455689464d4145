-- ===== src/Kv/Tests.antt =====
-- The commands of lab_nw/kv-server*/server.c at concrete servers, and the theorems of Kv at
-- inputs that meet their hypotheses.
use cs.Base.{
  ℕ, ◌≤◌, ◌≡◌, refl, true, false, none, some, [], ◌∷◌, arith, ◌==◌, if◌then◌else◌, length,
}
use cs.Kv.Memory.{
  node, Heap, text, header, bytes, exclusive, entered, left, sent, closed, Server, ok, out_of_fuel,
  write, recv_into, put_nul, c_string, load, assign, free,
}
use cs.Kv.Store.{
  Payload, Input, single, threaded, pool, find_loop, end_value, fill_node, append_node, create,
  send_value, read, unlink, delete_loop, delete, update,
}
use cs.Kv.Cells.{cell, Cells, Linked, nil, cons, find, erase, Returns, returns}
use cs.Kv.Create.{stored}
use cs.Kv.Delete.{delete_log}
use cs.Kv.Update.{update-diverges}
use cs.Kv.Refine.{Represents, TailOk, lookup, create-Represents, delete-Represents, read-Represents}
use cs.Kv.Handlers.{handle_single, serve}

-- Two nodes: key 7 with "A", then key 8 with "B".
abbrev two_heap : Heap
two_heap =
    write (write (λ _. none) 1 (some (node 7 (some (65 ∷ 0 ∷ [])) 2))) 2
      (some (node 8 (some (66 ∷ 0 ∷ [])) 0))

abbrev two : Server
two = record { head = 1; tail = 2; heap = two_heap; log = [] }

abbrev two_cells : Cells
two_cells = cell 1 7 (some (65 ∷ 0 ∷ [])) ∷ cell 2 8 (some (66 ∷ 0 ∷ [])) ∷ []

two_linked : Linked two.heap two.head two_cells
unfolding write
two_linked =
    cons (record { ne_null = omega arith; held = refl }) refl
      (cons (record { ne_null = omega arith; held = refl }) refl nil)

two-Represents : Represents two two_cells (λ j. lookup j two_cells)
unfolding find
two-Represents = record { linked = two_linked; unique = (refl, (refl, tt)); agrees = λ j. refl }

abbrev empty : Server
empty = record { head = 0; tail = 0; heap = λ _. none; log = [] }

abbrev request : ℕ → ℕ → ℕ → Payload
request c k n = record { cmd_type = c; key = k; value_size = n }

-- `malloc` returns node 5 and a block of ones; the client sends "Hi".
abbrev input : Input
input = record { fresh = 5; block = some (1 ∷ 1 ∷ 1 ∷ []); body = 72 ∷ 105 ∷ [] }

abbrev no_input : Input
no_input = record { fresh = 0; block = none; body = [] }

-- A session with kv-server, as the client sees it.
session :
    Returns
      (λ on t.
        (on ≡ false)
        × (t.log
            ≡ closed
              ∷ sent (text "Disconnected from server")
              ∷ sent (text "Key not found")
              ∷ sent (text "Key-value pair deleted")
              ∷ sent (bytes (72 ∷ 105 ∷ []))
              ∷ sent (header 2)
              ∷ sent (text "OK")
              ∷ sent (text "Key already exists")
              ∷ sent (text "Key-value pair created")
              ∷ []))
      (serve
        (handle_single 5)
        ((request 1 9 2, input)
          ∷ (request 1 9 2, no_input)
          ∷ (request 2 9 0, no_input)
          ∷ (request 4 9 0, no_input)
          ∷ (request 2 9 0, no_input)
          ∷ (request 5 0 0, no_input)
          ∷ [])
        empty)
unfolding serve handle_single create read delete find_loop append_node fill_node end_value
    send_value delete_loop unlink load assign free write recv_into put_nul c_string
session = returns (refl, refl)

create-Represents_example :
    Returns
      (λ _ t.
        (ds : Cells) × Represents t ds
          (λ j. if 9 == j then some (some (72 ∷ 105 ∷ 0 ∷ [])) else lookup j two_cells)
        × TailOk t ds
        × (length ds ≤ 3)
        × (t.log ≡ sent (text "Key-value pair created") ∷ []))
      (create single 5 (request 1 9 2) input two)
unfolding find lookup write stored put_nul recv_into
create-Represents_example =
    create-Represents single 5 (request 1 9 2) two-Represents (omega arith) input
      (some (72 ∷ 105 ∷ 0 ∷ [])) refl refl (omega arith) refl refl

delete-Represents_example :
    Returns
      (λ _ t.
        Represents t (erase 7 two_cells) (λ j. if 7 == j then none else lookup j two_cells)
        × (t.log ≡ delete_log pool true []))
      (delete pool 5 (request 4 7 0) two)
unfolding find lookup
delete-Represents_example = delete-Represents pool 5 (request 4 7 0) two-Represents (omega arith)

read-Represents_example :
    read threaded 5 (request 2 8 0) two
    ≡ ok tt (record two {
      log =
          left exclusive
          ∷ sent (bytes (66 ∷ []))
          ∷ sent (header 1)
          ∷ sent (text "OK")
          ∷ entered exclusive
          ∷ [];
    })
unfolding find lookup c_string
read-Represents_example =
    read-Represents threaded 5 (request 2 8 0) two-Represents (omega arith) (some (66 ∷ [])) refl

update-diverges_example : update pool 100 (request 3 8 2) input two ≡ out_of_fuel
update-diverges_example =
    update-diverges pool 100 (request 3 8 2) input two (cell 1 7 (some (65 ∷ 0 ∷ []))) _ two_linked
      refl
