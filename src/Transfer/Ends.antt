-- ===== src/Transfer/Ends.antt =====
-- What holds at each end of a transfer, and of all that is in the network between them.
use cs.Base.{
  ℕ, zero, suc, ◌<◌, ◌≤◌, ◌≡◌, ◌≢◌, subst, ◌⊎◌, inl, inr, Bool, true, false, some, List, [], ◌∷◌,
  ◌++◌, length, take, drop, get_elem?, arith, Bytes,
}
use cs.Transfer.{minus_one, Packet, Ack, Phase, sending, awaiting, Server, Client}
use cs.Transfer.Chunks.{offset, chunk_at}

module _ {ℓ κ} {A : Type ℓ} where
  abbrev pub All : (A → Type κ) → List A → Type κ
  All P [] = Unit
  All P (x ∷ xs) = P x × All P xs

  pub All-get_elem? :
      (P : A → Type κ) (xs : List A) (i : ℕ) {x : A} → All P xs → get_elem? xs i ≡ some x → P x
  All-get_elem? P [] i all e = absurd (cc)
  All-get_elem? P (y ∷ xs) zero {x} all e = subst P (cc) all.0
  All-get_elem? P (y ∷ xs) (suc i) all e = All-get_elem? P xs i all.1 e

  pub All-append : (P : A → Type κ) (xs ys : List A) → All P xs → All P ys → All P (xs ++ ys)
  All-append P [] ys all more = more
  All-append P (x ∷ xs) ys all more = (all.0, All-append P xs ys all.1 more)

  pub All-map : (P Q : A → Type κ) (xs : List A) → ((x : A) → P x → Q x) → All P xs → All Q xs
  All-map P Q [] f all = tt
  All-map P Q (x ∷ xs) f all = (f x all.0, All-map P Q xs f all.1)

abbrev pub is_active : Phase → Bool
is_active sending = true
is_active awaiting = true
is_active _ = false

-- The server has its chunk in hand, unless it has ended, and counts what is acknowledged.
pub record ServerInv (file : Bytes) (s : Server) : Type 0 where
  pub in_hand :
      is_active s.phase ≡ true
      → (s.chunk ≡ chunk_at file s.seq_num)
        × (s.left ≡ drop (offset (suc s.seq_num)) file)
        × (s.chunk ≢ [])
  pub sent : s.total_sent ≡ length (take (offset s.seq_num) file)
  pub within : s.seq_num ≤ length file

-- The bytes that are written when `k` chunks were taken: the chunks in order, and before each what writes
-- of it have left that came short.
pub data Written (file : Bytes) : ℕ → Bytes → Type 0 where
  nothing : Written file 0 []
  leaves :
      {k : ℕ} {out : Bytes} (n : ℕ)
      → n < length (chunk_at file k)
      → Written file k out
      → Written file k (out ++ take n (chunk_at file k))
  takes : {k : ℕ} {out : Bytes} → Written file k out → Written file (suc k) (out ++ chunk_at file k)

-- The client has taken the chunks before the one that it expects.
pub record ClientInv (file : Bytes) (c : Client) : Type 0 where
  pub has : Written file c.expected_seq c.file
  pub received : c.total_received ≡ length (take (offset c.expected_seq) file)
  pub within : c.expected_seq ≤ length file

-- A packet that was sent is the end, or a chunk up to the one in hand.
abbrev pub IsSent : Bytes → ℕ → Packet → Type 0
IsSent file seq p =
    (p.seq_num ≡ minus_one)
    ⊎ ((p.body ≡ chunk_at file p.seq_num) × (p.body ≢ []) × (p.seq_num ≤ seq))

abbrev pub IsWritten : ℕ → Ack → Type 0
IsWritten expected a = a.is_ack ≡ true → a.seq_num < expected

pub IsSent-le : (file : Bytes) (m n : ℕ) → m ≤ n → (p : Packet) → IsSent file m p → IsSent file n p
IsSent-le file m n h p (inl e) = inl e
IsSent-le file m n h p (inr (e, some_byte, le)) = inr (e, some_byte, omega arith)

pub IsWritten-le : (m n : ℕ) → m ≤ n → (a : Ack) → IsWritten m a → IsWritten n a
IsWritten-le m n h a w e = let lt = w e in omega arith
