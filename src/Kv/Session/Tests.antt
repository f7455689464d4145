-- ===== src/Kv/Session/Tests.antt =====
-- A session with the servers of lab_nw/kv-server-pool*/server.c, from an empty list.
use cs.Base.{false, refl, inl, inr, none, some, List, [], ◌∷◌, arith, until_nul}
use cs.Kv.Memory.{Server, recv_into, overlay, c_string}
use cs.Kv.Store.{Input, pool}
use cs.Kv.Cells.{nil, Returns}
use cs.Kv.Create.{stored, ended}
use cs.Kv.Handlers.{handle_pool, serve}
use cs.Kv.Session.{
  Request, ask_create, ask_read, ask_delete, ask_connect, ask_disconnect, calls, Model, apply,
  apply_all, AreAllowed, Agree,
}
use cs.Kv.Session.Serve.{pool_handler-Agree}

abbrev nobody : Server
nobody = record { head = 0; tail = 0; heap = λ _. none; log = [] }

abbrev nothing : Model
nothing = record { entries = []; log = [] }

nobody-Agree : Agree nobody nothing
nobody-Agree = record {
  cells = [];
  store = record { linked = nil; ends = refl };
  same_entries = refl;
  same_log = refl;
}

-- `malloc` returns node 5 and a block of zeroes; the client sends "Hi".
abbrev input : Input
input = record { fresh = 5; block = some (0 ∷ 0 ∷ 0 ∷ []); body = 72 ∷ 105 ∷ [] }

abbrev requests : List Request
requests =
    ask_connect
    ∷ ask_create 9 2 input
    ∷ ask_read 9
    ∷ ask_delete 9
    ∷ ask_disconnect
    ∷ ask_read 9
    ∷ []

requests-AreAllowed : AreAllowed pool requests nothing
unfolding apply stored ended recv_into overlay c_string until_nul
requests-AreAllowed = (tt, (inr refl, (refl, (inl refl, (tt, (refl, tt))))))

pool_handler-Agree_example :
    Returns
      (λ _ t. Agree t (apply_all pool requests nothing))
      (serve (handle_pool 7) (calls requests) nobody)
pool_handler-Agree_example =
    pool_handler-Agree false 7 requests nobody nothing nobody-Agree (omega arith)
      requests-AreAllowed ((λ e. absurd (omega arith)), refl, refl, tt)
