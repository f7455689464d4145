-- ===== src/Bitstring/Input.antt =====
-- The input that main of bitstring-send.c takes.
use cs.Base.{ℕ, ◌+◌, ◌≡◌, inl, inr, true, Bool-cases, [], ◌∷◌, length, arith, Bytes}
use cs.Bitstring.{bit_count, is_bit, is_bitstring, check_bits, check_input}

abbrev pub AreBits : Bytes → Type 0
AreBits [] = Unit
AreBits (b ∷ bs) = (is_bit b ≡ true) × AreBits bs

check_bits-AreBits : (i : ℕ) (tmp : Bytes) → check_bits i tmp ≡ is_bitstring → AreBits tmp
unfolding check_bits
check_bits-AreBits i [] h = tt
check_bits-AreBits i (c ∷ cs) h = elim (Bool-cases (is_bit c)) [
  | inl bit ↦ (bit, check_bits-AreBits (i + 1) cs (rw (check_bits, bit) at h))
  | inr other ↦ absurd (ground (arith, other, h))
]

pub check_input-length : (tmp : Bytes) → check_input tmp ≡ is_bitstring → length tmp ≡ bit_count
unfolding check_input
check_input-length tmp h = ground (arith, h)

pub check_input-AreBits : (tmp : Bytes) → check_input tmp ≡ is_bitstring → AreBits tmp
unfolding check_input
check_input-AreBits tmp h = check_bits-AreBits 0 tmp (ground (arith, h))
