-- ===== src/Transfer/Tests.antt =====
-- Runs of the file transfer, and the witnesses.
use cs.Base.{
  ℕ, ◌+◌, ◌≤◌, ◌≡◌, refl, inr, true, false, not, ◌&&◌, Option, none, some, List, [], ◌∷◌, take,
  length, Bytes, codes, ltb, if◌then◌else◌, arith,
}
use cs.Transfer.{
  data_size, max_retries, Packet, sending, awaiting, ended, Server, start_server, packet, Client,
  start_client, on_packet, System, init, Reach, start, later, sends, receives,
}
use cs.Transfer.Chunks.{offset}
use cs.Transfer.Ends.{Written}
use cs.Transfer.Safety.{file-Written, file-whole}
use cs.Transfer.Retries.{
  Event, timeout, failure, reply, serve, timeouts, has_failure, serve-timeouts, exchanges,
  exchanges-diverges,
}
use cs.Transfer.Handshake.{Numbers, AreInverse, IsName, is_space, answered, told, answered-stat}

abbrev file : Bytes
file = codes "hi"

abbrev hello : Packet
hello = record { seq_num = 0; body = file }

-- The first packet is sent, and then it is received.
abbrev sent : System
unfolding start_server start_client data_size
sent = record {
  server = record (init file).server { phase = awaiting };
  client = (init file).client;
  packets = hello ∷ [];
  acks = [];
}

abbrev arrived : System
unfolding start_server start_client data_size on_packet
arrived = record {
  server = sent.server;
  client = record { running = false; expected_seq = 1; total_received = 2; file = file };
  packets = hello ∷ [];
  acks = record { seq_num = 0; is_ack = true } ∷ [];
}

arrived-Reach : Reach file arrived
unfolding start_server start_client data_size on_packet
arrived-Reach = later (later start (sends refl)) (receives 0 (some 2) refl refl refl)

-- After a write of one byte, and then the whole packet again.
abbrev doubled : System
unfolding start_server start_client data_size on_packet
doubled = record {
  server = sent.server;
  client = record { running = false; expected_seq = 1; total_received = 2; file = codes "hhi" };
  packets = hello ∷ [];
  acks = record { seq_num = 0; is_ack = false } ∷ record { seq_num = 0; is_ack = true } ∷ [];
}

doubled-Reach : Reach file doubled
unfolding start_server start_client data_size on_packet
doubled-Reach =
    later (later (later start (sends refl)) (receives 0 (some 1) refl refl refl))
      (receives 0 (some 2) refl refl refl)

file-Written_example :
    Written file doubled.client.expected_seq doubled.client.file
    × (doubled.client.total_received ≡ length (take (offset doubled.client.expected_seq) file))
    × (doubled.server.total_sent ≡ length (take (offset doubled.server.seq_num) file))
    × (doubled.server.seq_num ≤ doubled.client.expected_seq)
    × (doubled.client.expected_seq ≤ doubled.server.seq_num + 1)
file-Written_example = file-Written file (omega arith) doubled-Reach

file-whole_example : arrived.client.file ≡ file
unfolding arrived
file-whole_example = file-whole file (omega arith) arrived-Reach (inr (omega arith)) (omega arith)

abbrev holding : Server
holding = record {
  phase = sending;
  left = [];
  chunk = file;
  seq_num = 0;
  retry_count = 0;
  total_sent = 0;
}

abbrev quiet : List Event
quiet =
    timeout
    ∷ reply (some (record { seq_num = 0; is_ack = false }))
    ∷ timeout
    ∷ reply none
    ∷ failure
    ∷ []

serve-timeouts_example :
    ((serve 2 quiet holding).phase ≡ (
      if ltb (holding.retry_count + timeouts quiet) max_retries && not (has_failure quiet)
      then sending
      else ended))
    × (packet (serve 2 quiet holding) ≡ packet holding)
    × ((serve 2 quiet holding).total_sent ≡ holding.total_sent)
serve-timeouts_example =
    serve-timeouts 2 quiet holding refl (omega arith) (refl, (refl, (refl, (refl, (refl, tt)))))

abbrev waiting : Client
waiting = record { running = true; expected_seq = 0; total_received = 0; file = [] }

exchanges-diverges_example : exchanges 4 2 none (holding, waiting) ≡ (holding, waiting)
exchanges-diverges_example =
    exchanges-diverges 4 2 holding waiting refl (omega arith) (omega arith) refl refl (omega arith)

abbrev second : Bytes → Option ℕ
second (b ∷ n ∷ bs) = some n
second _ = none

-- Numbers of one digit, in a base that is large enough.
abbrev one_digit : Numbers
one_digit = record { print_long = λ n. n ∷ []; scan_long = second }

one_digit-AreInverse : AreInverse one_digit
one_digit-AreInverse = record { scan-print = λ n long. refl; short = λ n long. omega arith }

notes-IsName : IsName (codes "notes")
unfolding is_space
notes-IsName = ((λ e. cc), (refl, (refl, (refl, (refl, (refl, tt))))), omega arith)

answered-stat_example :
    answered one_digit (λ name. some 700) (codes "notes") ≡ some (told (some 700))
answered-stat_example =
    answered-stat one_digit (λ name. some 700) (codes "notes") (some 700) one_digit-AreInverse
      notes-IsName refl (omega arith)
