-- ===== src/Transfer.antt =====
-- The file transfer of prac/socket/file_transfer: the server's loops of s.c over chunks and retries, the
-- client's loop of c.c over packets, and the two at the ends of a network that may lose, repeat and
-- reorder. A sequence number is its bit pattern.
mod Chunks
mod Ends
mod Serving
mod Receiving
mod Steps
pub mod Safety
pub mod Retries
pub mod Handshake
mod Tests
use cs.Base.{
  ℕ, ◌+◌, ◌-◌, ◌%◌, ◌^◌, ◌≡◌, Bool, true, false, ◌&&◌, Option, none, some, List, [], ◌∷◌, ◌++◌,
  ◌==◌, ltb, leb, if◌then◌else◌, length, take, drop, get_elem?, Bytes, codes,
}

-- `DATA_SIZE`, where an int has four bytes.
unfoldable pub data_size : ℕ
data_size = 508

abbrev pub max_retries : ℕ
max_retries = 3

unfoldable pub next_seq : ℕ → ℕ
next_seq n = (n + 1) % 2 ^ 32

-- The sequence number -1 of the end of the file.
abbrev pub minus_one : ℕ
minus_one = 2 ^ 32 - 1

-- `packet_t`, with the bytes that are sent of its data.
pub record Packet : Type 0 where
  pub seq_num : ℕ
  pub body : Bytes

abbrev pub end_of_file : Packet
end_of_file = record { seq_num = minus_one; body = codes "EOF" }

-- `ack_t`: its type is "ACK" or "NAK".
pub record Ack : Type 0 where
  pub seq_num : ℕ
  pub is_ack : Bool

-- Where the server is: before `sendto`, at `select`, behind the loop over chunks, or behind the marker.
pub data Phase : Type 0 where
  sending : Phase
  awaiting : Phase
  ended : Phase
  closed : Phase

-- `left` is what `file_fd` has not read.
pub record Server : Type 0 where
  pub phase : Phase
  pub left : Bytes
  pub chunk : Bytes
  pub seq_num : ℕ
  pub retry_count : ℕ
  pub total_sent : ℕ

-- `read`, and the test of what it returns.
unfoldable pub read_chunk : Server → Server
read_chunk s = elim (take data_size s.left) [
  | [] ↦ record s { phase = ended }
  | b ∷ bs ↦ record s {
    phase = sending;
    chunk = b ∷ bs;
    left = drop data_size s.left;
    retry_count = 0;
  }
]

-- The test of the loop over chunks.
unfoldable pub next_chunk : ℕ → Server → Server
unfolding read_chunk
next_chunk size s = if ltb s.total_sent size then read_chunk s else record s { phase = ended }

unfoldable pub start_server : ℕ → Bytes → Server
unfolding next_chunk
start_server size file = next_chunk size (record {
  phase = ended;
  left = file;
  chunk = [];
  seq_num = 0;
  retry_count = 0;
  total_sent = 0;
})

-- The test of the loop over retries.
unfoldable pub try_again : Server → Server
try_again s =
    if ltb s.retry_count max_retries
    then record s { phase = sending }
    else record s { phase = ended }

unfoldable pub on_timeout : Server → Server
unfolding try_again
on_timeout s = try_again (record s { retry_count = s.retry_count + 1 })

unfoldable pub on_select_error : Server → Server
on_select_error s = record s { phase = ended }

-- The packet is acknowledged.
unfoldable pub advance : ℕ → Server → Server
unfolding next_chunk
advance size s =
    next_chunk size
      (record s { total_sent = s.total_sent + length s.chunk; seq_num = next_seq s.seq_num })

-- What `recvfrom` gives, if it gives more than 0 bytes.
unfoldable pub on_reply : ℕ → Option Ack → Server → Server
unfolding try_again
on_reply size none s = try_again s
on_reply size (some a) s =
    if (a.seq_num == s.seq_num) && a.is_ack then advance size s else try_again s

abbrev pub packet : Server → Packet
packet s = record { seq_num = s.seq_num; body = s.chunk }

-- `file` is what is written of the local file.
pub record Client : Type 0 where
  pub running : Bool
  pub expected_seq : ℕ
  pub total_received : ℕ
  pub file : Bytes

-- The test of the loop over packets.
unfoldable pub next_round : ℕ → Client → Client
next_round size c = record c { running = ltb c.total_received size }

unfoldable pub start_client : ℕ → Client
unfolding next_round
start_client size =
    next_round size (record { running = true; expected_seq = 0; total_received = 0; file = [] })

-- How many bytes `write` has written, or none if it fails.
abbrev pub written : Option ℕ → Bytes → Bytes
written none bs = []
written (some n) bs = take n bs

abbrev pub is_whole : Option ℕ → Bytes → Bool
is_whole none bs = false
is_whole (some n) bs = n == length bs

abbrev pub fits : Option ℕ → Bytes → Bool
fits none bs = true
fits (some n) bs = leb n (length bs)

-- The packet is written.
unfoldable pub accept : ℕ → Bytes → Packet → Client → Client
unfolding next_round next_seq
accept size bytes p c = next_round size (record c {
  total_received = c.total_received + length p.body;
  expected_seq = next_seq c.expected_seq;
  file = c.file ++ bytes;
})

-- One round with a packet.
unfoldable pub on_packet : ℕ → Option ℕ → Packet → Client → Client × Option Ack
unfolding next_round accept
on_packet size w p c =
    if p.seq_num == minus_one
    then (record c { running = false }, none)
    else if p.seq_num == c.expected_seq
    then (if is_whole w p.body
        then (
          accept size (written w p.body) p c,
          some (record { seq_num = p.seq_num; is_ack = true }),
        )
        else (
          next_round size (record c { file = c.file ++ written w p.body }),
          some (record { seq_num = p.seq_num; is_ack = false }),
        ))
    else (next_round size c, some (record { seq_num = p.seq_num; is_ack = false }))

-- The ends, and every packet and every acknowledgment that was sent.
pub record System : Type 0 where
  pub server : Server
  pub client : Client
  pub packets : List Packet
  pub acks : List Ack

abbrev pub replied : Option Ack → List Ack
replied none = []
replied (some a) = a ∷ []

-- Any packet or acknowledgment that was sent may arrive, at any time and again. A write fails, or has
-- written as many bytes as it was given at most.
pub data Step (size : ℕ) (s : System) : System → Type 0 where
  sends :
      s.server.phase ≡ sending
      → Step size s (record s {
        server = record s.server { phase = awaiting };
        packets = s.packets ++ packet s.server ∷ [];
      })
  times_out : s.server.phase ≡ awaiting → Step size s (record s { server = on_timeout s.server })
  fails : s.server.phase ≡ awaiting → Step size s (record s { server = on_select_error s.server })
  hears_nothing :
      s.server.phase ≡ awaiting → Step size s (record s { server = on_reply size none s.server })
  hears :
      (i : ℕ) {a : Ack}
      → s.server.phase ≡ awaiting
      → get_elem? s.acks i ≡ some a
      → Step size s (record s { server = on_reply size (some a) s.server })
  closes :
      s.server.phase ≡ ended
      → Step size s (record s {
        server = record s.server { phase = closed };
        packets = s.packets ++ end_of_file ∷ [];
      })
  receives :
      (i : ℕ) (w : Option ℕ) {p : Packet}
      → s.client.running ≡ true
      → get_elem? s.packets i ≡ some p
      → fits w p.body ≡ true
      → Step size s (record s {
        client = (on_packet size w p s.client).0;
        acks = s.acks ++ replied (on_packet size w p s.client).1;
      })
  gives_up :
      s.client.running ≡ true
      → Step size s (record s { client = record s.client { running = false } })

-- The transfer of a file, whose size is that which `stat` gives.
abbrev pub init : Bytes → System
init file = record {
  server = start_server (length file) file;
  client = start_client (length file);
  packets = [];
  acks = [];
}

pub data Reach (file : Bytes) : System → Type 0 where
  start : Reach file (init file)
  later : {s t : System} → Reach file s → Step (length file) s t → Reach file t
