-- ===== src/Transfer/Steps.antt =====
-- Each step keeps what holds at the ends and in the network.
use cs.Base.{
  ◌+◌, ◌^◌, ◌<◌, ◌≤◌, ◌≡◌, refl, inl, inr, true, Option, none, some, [], ◌∷◌, ◌++◌, length, arith,
  Bytes,
}
use cs.Transfer.{
  Packet, end_of_file, Ack, Phase, awaiting, ended, closed, Server, on_timeout, on_select_error,
  on_reply, packet, Client, on_packet, System, replied, Step, sends, times_out, fails,
  hears_nothing, hears, closes, receives, gives_up,
}
use native.Mathlib.Nat.{le_trans}
use cs.Transfer.Ends.{
  All, All-get_elem?, All-append, All-map, is_active, ServerInv, ClientInv, IsSent, IsWritten,
  IsSent-le, IsWritten-le,
}
use cs.Transfer.Serving.{
  idle-ServerInv, try_again-seq_num, on_reply-seq_num, on_timeout-ServerInv, on_reply-ServerInv,
}
use cs.Transfer.Receiving.{Received, on_packet-Received}

pub record Inv (file : Bytes) (s : System) : Type 0 where
  pub server : ServerInv file s.server
  pub client : ClientInv file s.client
  pub behind : s.server.seq_num ≤ s.client.expected_seq
  pub ahead : s.client.expected_seq ≤ s.server.seq_num + 1
  pub packets : All (IsSent file s.server.seq_num) s.packets
  pub acks : All (IsWritten s.client.expected_seq) s.acks

-- A step of the server that leaves its number, or moves it on to where the client is.
server-Inv :
    (file : Bytes) (s : System) (r : Server)
    → Inv file s
    → ServerInv file r
    → s.server.seq_num ≤ r.seq_num
    → r.seq_num ≤ s.client.expected_seq
    → Inv file (record s { server = r })
server-Inv file s r v w grows le = record {
  server = w;
  client = v.client;
  behind = le;
  ahead = omega arith;
  packets = All-map _ _ s.packets (IsSent-le file _ _ grows) v.packets;
  acks = v.acks;
}

-- A packet more in the network.
packet-Inv :
    (file : Bytes) (s : System) (ph : Phase) (p : Packet)
    → Inv file s
    → ServerInv file (record s.server { phase = ph })
    → IsSent file s.server.seq_num p
    → Inv file (record s { server = record s.server { phase = ph }; packets = s.packets ++ p ∷ [] })
packet-Inv file s ph p v w sent = record {
  server = w;
  client = v.client;
  behind = v.behind;
  ahead = v.ahead;
  packets = All-append _ s.packets (p ∷ []) v.packets (sent, tt);
  acks = v.acks;
}

client-Inv :
    (file : Bytes) (s : System) (r : Client × Option Ack)
    → Inv file s
    → Received file s.server.seq_num s.client r
    → Inv file (record s { client = r.0; acks = s.acks ++ replied r.1 })
client-Inv file s r v w = record {
  server = v.server;
  client = w.kept;
  behind = le_trans v.behind w.more;
  ahead = w.ahead;
  packets = v.packets;
  acks =
      All-append _ s.acks (replied r.1) (All-map _ _ s.acks (IsWritten-le _ _ w.more) v.acks)
        w.acks;
}

module _ (file : Bytes) (short : length file < 2 ^ 31) (s : System) (v : Inv file s) where
  same-Inv :
      (r : Server)
      → ServerInv file r
      → r.seq_num ≡ s.server.seq_num
      → Inv file (record s { server = r })
  same-Inv r w e = server-Inv file s r v w (omega arith) (omega (arith, v.behind))

  -- A reply moves the server on only if the client has written the chunk in hand.
  hears-Inv :
      (a : Ack)
      → s.server.phase ≡ awaiting
      → IsWritten s.client.expected_seq a
      → Inv file (record s { server = on_reply (length file) (some a) s.server })
  hears-Inv a at w =
      let r = on_reply (length file) (some a) s.server in
      let e = on_reply-seq_num (length file) a s.server (omega (arith, v.server.within)) in
      server-Inv file s r v
        (on_reply-ServerInv file short (length file) s.server v.server at (some a))
        (ground (arith, e)) (ground (arith, e, v.behind, w))

pub Step-Inv :
    (file : Bytes)
    → length file < 2 ^ 31
    → {s t : System} → Step (length file) s t
    → Inv file s
    → Inv file t
unfolding on_timeout on_select_error on_reply
Step-Inv file short {s} (sends at) v =
    let active : is_active s.server.phase ≡ true = rw at in
    let w = v.server.in_hand active in
    packet-Inv file s awaiting (packet s.server) v
      (record { in_hand = λ _. w; sent = v.server.sent; within = v.server.within })
      (inr (w.0, w.2, omega arith))
Step-Inv file short {s} (times_out at) v =
    same-Inv file short s v (on_timeout s.server)
      (on_timeout-ServerInv file short (length file) s.server v.server at)
      (try_again-seq_num (record s.server { retry_count = s.server.retry_count + 1 }))
Step-Inv file short {s} (fails at) v =
    same-Inv file short s v (on_select_error s.server)
      (idle-ServerInv file s.server ended refl v.server) refl
Step-Inv file short {s} (hears_nothing at) v =
    same-Inv file short s v (on_reply (length file) none s.server)
      (on_reply-ServerInv file short (length file) s.server v.server at none)
      (try_again-seq_num s.server)
Step-Inv file short {s} (hears i {a} at e) v =
    hears-Inv file short s v a at (All-get_elem? _ s.acks i v.acks e)
Step-Inv file short {s} (closes at) v =
    packet-Inv file s closed end_of_file v (idle-ServerInv file s.server closed refl v.server)
      (inl refl)
Step-Inv file short {s} (receives i w {p} on e fit) v =
    client-Inv file s (on_packet (length file) w p s.client) v (
      on_packet-Received file short (length file) s.server.seq_num p s.client v.client v.ahead w
        (All-get_elem? _ s.packets i v.packets e) fit)
Step-Inv file short {s} (gives_up on) v = record {
  server = v.server;
  client = record { has = v.client.has; received = v.client.received; within = v.client.within };
  behind = v.behind;
  ahead = v.ahead;
  packets = v.packets;
  acks = v.acks;
}
