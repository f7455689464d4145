-- ===== src/Transfer/Safety.antt =====
-- What the two ends have when they have counted the whole file, whatever the network does.
use mathlib.Core.List.{append-nil}
use cs.Base.{
  ℕ, sym, ◌∷◌, ◌++◌, length-append, ◌+◌, ◌^◌, ◌<◌, ◌≤◌, ◌≡◌, ◌⊎◌, inl, inr, refl, ap, ◌∙◌, [],
  length, take, Bytes, arith,
}
use cs.Transfer.{
  System, Server, ended, Reach, start, later, start_server, start_client, next_round, init,
}
use cs.Transfer.Chunks.{
  offset, chunk_at, length-chunk, take-chunk, offset_mono, take-whole, length-take_mono,
}
use cs.Transfer.Ends.{Written, nothing, leaves, takes}
use cs.Transfer.Serving.{next_chunk-ServerInv, next_chunk-seq_num}
use cs.Transfer.Steps.{Inv, Step-Inv}

init-Inv : (file : Bytes) → Inv file (init file)
unfolding start_server start_client next_round offset
init-Inv file =
    let first : Server = record {
      phase = ended;
      left = file;
      chunk = [];
      seq_num = 0;
      retry_count = 0;
      total_sent = 0;
    } in
    let e = next_chunk-seq_num (length file) first in
    record {
      server =
          next_chunk-ServerInv (length file) file first
            (record { left = refl; sent = refl; within = omega arith });
      client = record { has = nothing; received = refl; within = omega arith };
      behind = omega (arith, e);
      ahead = omega arith;
      packets = tt;
      acks = tt;
    }

Reach-Inv : (file : Bytes) → length file < 2 ^ 31 → {s : System} → Reach file s → Inv file s
Reach-Inv file short start = init-Inv file
Reach-Inv file short (later r st) = Step-Inv file short st (Reach-Inv file short r)

length-Written :
    {file : Bytes} {k : ℕ} {out : Bytes}
    → Written file k out
    → length (take (offset k) file) ≤ length out
unfolding offset
length-Written nothing = omega arith
length-Written {file} (leaves {k} {out} n less w) =
    omega (arith, length-Written w, length-append out (take n (chunk_at file k)))
length-Written {file} (takes {k} {out} w) =
    omega (arith, length-Written w, length-append out (chunk_at file k), length-chunk file k)

empty : (xs : Bytes) → length xs ≤ 0 → xs ≡ []
empty [] h = refl
empty (x ∷ xs) h = absurd (omega (arith, h))

-- With no byte that a short write has left, what is written are the chunks.
Written-exact :
    {file : Bytes} {k : ℕ} {out : Bytes}
    → Written file k out
    → length out ≤ length (take (offset k) file)
    → out ≡ take (offset k) file
unfolding offset
Written-exact nothing h = refl
Written-exact {file} (leaves {k} {out} n less w) h =
    let more = length-append out (take n (chunk_at file k)) in
    let none_left = empty (take n (chunk_at file k)) (omega (arith, h, more, length-Written w)) in
    rw (none_left, append-nil out) (Written-exact w (omega (arith, h, more)))
Written-exact {file} (takes {k} {out} w) h =
    let more = length-append out (chunk_at file k) in
    let exact = Written-exact w (omega (arith, h, more, length-chunk file k)) in
    ap (λ b. b ++ chunk_at file k) exact ∙ sym (take-chunk file k)

-- In a state that the transfer of a file of fewer than 2^31 bytes reaches, with packets and
-- acknowledgments lost, repeated and reordered, and writes of the client that fail or come short, the
-- client has written the chunks before the one that it expects, in order, and before each only beginnings of
-- it that short writes have left; it counts the bytes of those chunks; the server counts those before the one in
-- its hand, which is the one that the client expects or the one before.
pub file-Written :
    (file : Bytes) {s : System}
    → length file < 2 ^ 31
    → Reach file s
    → Written file s.client.expected_seq s.client.file
      × (s.client.total_received ≡ length (take (offset s.client.expected_seq) file))
      × (s.server.total_sent ≡ length (take (offset s.server.seq_num) file))
      × (s.server.seq_num ≤ s.client.expected_seq)
      × (s.client.expected_seq ≤ s.server.seq_num + 1)
file-Written file short r =
    let v = Reach-Inv file short r in
    (v.client.has, v.client.received, v.server.sent, v.behind, v.ahead)

-- In a state that the transfer of a file of fewer than 2^31 bytes reaches, if the server counts all its
-- bytes as sent or the client as received, and what the client has written is no longer than it counts as
-- received, so that no short write has left bytes in it, what the client has written is the file.
pub file-whole :
    (file : Bytes) {s : System}
    → length file < 2 ^ 31
    → Reach file s
    → (length file ≤ s.server.total_sent) ⊎ (length file ≤ s.client.total_received)
    → length s.client.file ≤ s.client.total_received
    → s.client.file ≡ file
file-whole file {s} short r all counted =
    let v = Reach-Inv file short r in
    let more =
      length-take_mono (offset s.server.seq_num) (offset s.client.expected_seq) file
        (offset_mono s.server.seq_num s.client.expected_seq v.behind) in
    Written-exact v.client.has (omega (arith, counted, v.client.received))
    ∙ take-whole (offset s.client.expected_seq) file (elim all [
      | inl sent ↦ omega (arith, v.server.sent, more)
      | inr received ↦ omega (arith, v.client.received)
    ])
