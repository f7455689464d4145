-- ===== src/Transfer/Receiving.antt =====
-- The client keeps its invariant.
use cs.Base.{
  true, subst, take, ℕ, suc, ◌+◌, ◌^◌, ◌<◌, ◌≤◌, ◌≡◌, refl, sym, ◌∙◌, ap, inl, inr, false, Option,
  none, some, ◌++◌, ◌==◌, length, Bool-cases, eq→==, ==→eq, arith, Bytes,
}
use mathlib.Core.List.{append-nil}
use cs.Transfer.{
  next_seq, minus_one, Packet, Ack, Client, next_round, accept, fits, is_whole, written, on_packet,
  replied,
}
use cs.Transfer.Chunks.{take-length, chunk_at, chunk_at-lt, length-chunk}
use cs.Transfer.Ends.{All, Written, leaves, takes, ClientInv, IsSent, IsWritten}
use cs.Transfer.Serving.{next_seq-suc}

-- What a packet that was sent makes of a client, with the server at chunk `seq`.
pub record Received (file : Bytes) (seq : ℕ) (c : Client) (r : Client × Option Ack) : Type 0 where
  pub kept : ClientInv file r.0
  pub more : c.expected_seq ≤ r.0.expected_seq
  pub ahead : r.0.expected_seq ≤ seq + 1
  pub acks : All (IsWritten r.0.expected_seq) (replied r.1)

pub next_round-ClientInv :
    (size : ℕ) (file : Bytes) (c : Client) → ClientInv file c → ClientInv file (next_round size c)
unfolding next_round
next_round-ClientInv size file c v = record {
  has = v.has;
  received = v.received;
  within = v.within;
}

module _ (file : Bytes) (short : length file < 2 ^ 31) (size seq : ℕ) (p : Packet) (c : Client)
    (v : ClientInv file c) (le : c.expected_seq ≤ seq + 1) where
  -- A packet that is not the one expected, or whose write is not whole, leaves what the client counts.
  not_taken :
      (d : Client)
      → d.expected_seq ≡ c.expected_seq
      → ClientInv file d
      → Received file seq c
          (next_round size d, some (record { seq_num = p.seq_num; is_ack = false }))
  unfolding next_round
  not_taken d e w = record {
    kept = next_round-ClientInv size file d w;
    more = omega arith;
    ahead = omega arith;
    acks = (λ a. cc, tt);
  }

  accept-expected_seq :
      p.seq_num ≡ c.expected_seq
      → p.seq_num < length file
      → (accept size p.body p c).expected_seq ≡ suc c.expected_seq
  unfolding accept next_round
  accept-expected_seq same lt = next_seq-suc c.expected_seq (omega arith)

  pub accept-ClientInv :
      p.seq_num < length file
      → p.body ≡ chunk_at file p.seq_num
      → p.seq_num ≡ c.expected_seq
      → ClientInv file (accept size p.body p c)
  unfolding accept
  accept-ClientInv lt body same =
      let next : Client = record c {
        total_received = c.total_received + length p.body;
        expected_seq = next_seq c.expected_seq;
        file = c.file ++ p.body;
      } in
      let e = next_seq-suc c.expected_seq (omega arith) in
      let bytes = body ∙ ap (chunk_at file) same in
      next_round-ClientInv size file next (record {
        has = rw e (
            subst (λ b. Written file (suc c.expected_seq) (c.file ++ b)) (sym bytes) (takes v.has));
        received = rw (e, bytes) (omega (arith, v.received, length-chunk file c.expected_seq));
        within = rw e (omega arith);
      })

  -- The packet that is expected is written.
  taken :
      IsSent file seq p
      → (p.seq_num == minus_one) ≡ false
      → p.seq_num ≡ c.expected_seq
      → Received file seq c (on_packet size (some (length p.body)) p c)
  unfolding on_packet
  taken (inl e) other same = absurd (ground arith)
  taken (inr (body, some_byte, before)) other same =
      let lt = chunk_at-lt file p.seq_num (rw body at some_byte) in
      rw
        (
          on_packet,
          other,
          eq→== p.seq_num c.expected_seq same,
          eq→== (length p.body) (length p.body) refl,
          take-length p.body,
        )
        (record {
          kept = accept-ClientInv lt body same;
          more = omega (arith, accept-expected_seq same lt);
          ahead = omega (arith, accept-expected_seq same lt);
          acks = (λ _. omega (arith, accept-expected_seq same lt), tt);
        })

  -- A write that is not whole leaves some bytes of the chunk, or none.
  short_write :
      (w : Option ℕ)
      → IsSent file seq p
      → (p.seq_num == minus_one) ≡ false
      → p.seq_num ≡ c.expected_seq
      → fits w p.body ≡ true
      → is_whole w p.body ≡ false
      → ClientInv file (record c { file = c.file ++ written w p.body })
  short_write w (inl e) other same fit short = absurd (ground arith)
  short_write none (inr (body, some_byte, before)) other same fit short = record {
    has = rw (append-nil c.file) v.has;
    received = v.received;
    within = v.within;
  }
  short_write (some n) (inr (body, some_byte, before)) other same fit short =
      let bytes : p.body ≡ chunk_at file c.expected_seq = body ∙ ap (chunk_at file) same in
      let less : n < length p.body = ground (arith, fit, short) in
      record {
        has =
            subst (λ b. Written file c.expected_seq (c.file ++ take n b)) (sym bytes)
              (leaves n (subst (λ b. n < length b) bytes less) v.has);
        received = v.received;
        within = v.within;
      }

  whole-length : (w : Option ℕ) → is_whole w p.body ≡ true → w ≡ some (length p.body)
  whole-length none h = absurd (cc)
  whole-length (some n) h = ap some (==→eq n (length p.body) h)

  pub on_packet-Received :
      (w : Option ℕ)
      → IsSent file seq p
      → fits w p.body ≡ true
      → Received file seq c (on_packet size w p c)
  unfolding on_packet
  on_packet-Received w sent fit = elim (Bool-cases (p.seq_num == minus_one)) [
    | inl end ↦
        rw (on_packet, end)
          (record {
            kept = record { has = v.has; received = v.received; within = v.within };
            more = omega arith;
            ahead = le;
            acks = tt;
          })
    | inr other ↦ elim (Bool-cases (p.seq_num == c.expected_seq)) [
      | inr unexpected ↦ rw (on_packet, other, unexpected) (not_taken c refl v)
      | inl same ↦
          let number = ==→eq p.seq_num c.expected_seq same in
          elim (Bool-cases (is_whole w p.body)) [
            | inl whole ↦
                subst (λ x. Received file seq c (on_packet size x p c)) (sym (whole-length w whole))
                  (taken sent other number)
            | inr short ↦
                rw (on_packet, other, same, short)
                  (not_taken (record c { file = c.file ++ written w p.body }) refl
                    (short_write w sent other number fit short))
          ]
    ]
  ]
