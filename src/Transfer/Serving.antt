-- ===== src/Transfer/Serving.antt =====
-- The server keeps its invariant.
use cs.Base.{
  ℕ, suc, ◌+◌, ◌^◌, ◌<◌, ◌≤◌, ◌≡◌, refl, sym, ◌∙◌, ap, ◌⊎◌, inl, inr, true, false, ◌&&◌, Option,
  none, some, List, [], ◌∷◌, ◌==◌, ltb, length, take, drop, Bool-cases, arith, Bytes, if◌then◌else◌,
}
use cs.Transfer.{
  data_size, next_seq, Ack, Phase, awaiting, ended, Server, read_chunk, next_chunk, try_again,
  on_timeout, advance, on_reply,
}
use cs.Transfer.Chunks.{offset, chunk_at, chunk_at-lt, length-chunk, drop-chunk}
use cs.Transfer.Ends.{is_active, ServerInv}

-- The server is about to read the chunk at its number.
pub record Reads (file : Bytes) (s : Server) : Type 0 where
  pub left : s.left ≡ drop (offset s.seq_num) file
  pub sent : s.total_sent ≡ length (take (offset s.seq_num) file)
  pub within : s.seq_num ≤ length file

pub next_seq-suc : (n : ℕ) → n < 2 ^ 31 → next_seq n ≡ suc n
unfolding next_seq
next_seq-suc n h = omega arith

pub List-cases {ℓ} :
    {A : Type ℓ} (xs : List A) → (xs ≡ []) ⊎ ((x : A) × (ys : List A) × (xs ≡ x ∷ ys))
List-cases [] = inl refl
List-cases (x ∷ ys) = inr (x, ys, refl)

-- A server that has ended has nothing in hand.
pub Reads-ended :
    (file : Bytes) (s : Server) → Reads file s → ServerInv file (record s { phase = ended })
Reads-ended file s r = record { in_hand = λ e. cc; sent = r.sent; within = r.within }

pub read_chunk-ServerInv :
    (file : Bytes) (s : Server) → Reads file s → ServerInv file (read_chunk s)
unfolding chunk_at read_chunk
read_chunk-ServerInv file s r = elim (List-cases (take data_size s.left)) [
  | inl e ↦ rw (read_chunk, e) (Reads-ended file s r)
  | inr (b, bs, e) ↦
      rw (read_chunk, e)
        (record {
          in_hand = λ _. (
            sym e ∙ ap (take data_size) r.left,
            ap (drop data_size) r.left ∙ drop-chunk file s.seq_num,
            λ n. cc,
          );
          sent = r.sent;
          within = r.within;
        })
]

pub next_chunk-ServerInv :
    (size : ℕ) (file : Bytes) (s : Server) → Reads file s → ServerInv file (next_chunk size s)
unfolding next_chunk
next_chunk-ServerInv size file s r = elim (Bool-cases (ltb s.total_sent size)) [
  | inl more ↦ rw (next_chunk, more) (read_chunk-ServerInv file s r)
  | inr done ↦ rw (next_chunk, done) (Reads-ended file s r)
]

pub idle-ServerInv :
    (file : Bytes) (s : Server) (ph : Phase)
    → is_active ph ≡ false
    → ServerInv file s
    → ServerInv file (record s { phase = ph })
idle-ServerInv file s ph idle v = record { in_hand = λ e. cc; sent = v.sent; within = v.within }

-- The number of the chunk in hand.
pub in_hand-lt :
    (file : Bytes) (s : Server)
    → ServerInv file s
    → is_active s.phase ≡ true
    → s.seq_num < length file
in_hand-lt file s v active =
    let (e, _, some_byte) = v.in_hand active in chunk_at-lt file s.seq_num (rw e at some_byte)

module _ (file : Bytes) (short : length file < 2 ^ 31) (size : ℕ) where
  pub advance-ServerInv :
      (s : Server) → ServerInv file s → is_active s.phase ≡ true → ServerInv file (advance size s)
  unfolding advance
  advance-ServerInv s v active =
      let (chunk, left, some_byte) = v.in_hand active in
      let lt = in_hand-lt file s v active in
      let e = next_seq-suc s.seq_num (omega arith) in
      let next : Server = record s {
        total_sent = s.total_sent + length s.chunk;
        seq_num = next_seq s.seq_num;
      } in
      next_chunk-ServerInv size file next (record {
        left = rw e left;
        sent = rw (e, v.sent, chunk) (length-chunk file s.seq_num);
        within = rw e (omega arith);
      })

  pub try_again-ServerInv :
      (s : Server) → ServerInv file s → is_active s.phase ≡ true → ServerInv file (try_again s)
  unfolding try_again
  try_again-ServerInv s v active = ground (arith, v.in_hand, v.sent, v.within)

  -- What the server makes of what comes while it waits.
  module _ (s : Server) (v : ServerInv file s) (at : s.phase ≡ awaiting) where
    active : is_active s.phase ≡ true
    active = rw at

    pub on_timeout-ServerInv : ServerInv file (on_timeout s)
    unfolding on_timeout
    on_timeout-ServerInv =
        try_again-ServerInv (record s { retry_count = s.retry_count + 1 })
          (record { in_hand = v.in_hand; sent = v.sent; within = v.within }) active

    pub on_reply-ServerInv : (o : Option Ack) → ServerInv file (on_reply size o s)
    unfolding on_reply
    on_reply-ServerInv none = try_again-ServerInv s v active
    on_reply-ServerInv (some a) = elim (Bool-cases ((a.seq_num == s.seq_num) && a.is_ack)) [
      | inl match ↦ rw (on_reply, match) (advance-ServerInv s v active)
      | inr other ↦ rw (on_reply, other) (try_again-ServerInv s v active)
    ]

pub read_chunk-seq_num : (s : Server) → (read_chunk s).seq_num ≡ s.seq_num
unfolding read_chunk
read_chunk-seq_num s = elim (List-cases (take data_size s.left)) [
  | inl e ↦ rw (read_chunk, e)
  | inr (b, bs, e) ↦ rw (read_chunk, e)
]

pub next_chunk-seq_num : (size : ℕ) (s : Server) → (next_chunk size s).seq_num ≡ s.seq_num
unfolding next_chunk
next_chunk-seq_num size s = ground (arith, read_chunk-seq_num s)

pub try_again-seq_num : (s : Server) → (try_again s).seq_num ≡ s.seq_num
unfolding try_again
try_again-seq_num s = ground arith

-- The number grows by one exactly with an acknowledgment of the chunk in hand.
pub on_reply-seq_num :
    (size : ℕ) (a : Ack) (s : Server)
    → s.seq_num < 2 ^ 31
    → (on_reply size (some a) s).seq_num
      ≡ (if (a.seq_num == s.seq_num) && a.is_ack then suc s.seq_num else s.seq_num)
unfolding on_reply advance
on_reply-seq_num size a s h =
    let next : Server = record s {
      total_sent = s.total_sent + length s.chunk;
      seq_num = next_seq s.seq_num;
    } in
    ground (arith, next_seq-suc s.seq_num h, next_chunk-seq_num size next, try_again-seq_num s)
