-- ===== src/Kv/Queue/Tests.antt =====
-- A run of the pool of lab_nw/kv-server-pool/server.c with two threads and two clients, and the
-- theorems of Order in it.
use cs.Base.{ℕ, ◌≡◌, ◌≢◌, refl, none, some, [], ◌∷◌, ◌++◌, arith}
use cs.Base.Family.{update, count}
use cs.Kv.Memory.{null}
use cs.Kv.Queue.{
  fd_node, Queue, hook, append_fd, enqueue, fault, take_first, dequeue, serving, Pool, unheard,
  init, Reach, start, later, accepts, takes,
}
use cs.Kv.Queue.Cells.{Cells, IsQueue}
use cs.Kv.Queue.Order.{clients, served, Reach-accepted}

abbrev began : Pool
began = init (λ _. none)

abbrev one : Pool
one = record began {
  queue = record { head = 8; tail = 8; heap = update began.queue.heap 8 (some (fd_node 4 null)) };
  accepted = 4 ∷ [];
}

abbrev two : Pool
two = record one {
  queue = record {
    head = 8;
    tail = 16;
    heap = update (update one.queue.heap 16 (some (fd_node 5 null))) 8 (some (fd_node 4 16));
  };
  accepted = 4 ∷ 5 ∷ [];
}

-- Thread 1 has taken the first client.
abbrev left : Pool
left = record two {
  queue = record { head = 16; tail = 16; heap = update two.queue.heap 8 (some (fd_node 4 null)) };
  pc = update began.pc 1 (serving 4);
  taken = (4, 1) ∷ [];
}

left-Reach : Reach 2 left
unfolding enqueue dequeue count append_fd hook take_first
left-Reach =
    later
      (later (later (start (λ _. none)) (accepts 8 4 refl refl (unheard refl)))
        (accepts 16 5 refl refl (unheard refl)))
      (takes 1 (omega arith) refl refl)

Reach-accepted_example :
    (cs : Cells) × IsQueue left.queue cs
    × (left.accepted ≡ served left.taken ++ clients cs)
    × (dequeue left.queue ≢ fault)
    × ((fresh fd : ℕ)
        → fresh ≢ null
        → left.queue.heap fresh ≡ none
        → (q : Queue) × (enqueue fresh fd left.queue ≡ some q))
Reach-accepted_example = Reach-accepted left-Reach
