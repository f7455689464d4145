-- ===== src/Bitstring/Invariant.antt =====
-- What holds between the signals of bitstring-send.c.
use cs.Base.{
  ℕ, ◌≡◌, refl, sym, subst, inl, inr, Bool, true, false, not, ◌||◌, ◌&&◌, Bool-cases, [], ◌∷◌, ◌++◌,
  ◌==◌, length, arith, Bytes,
}
use cs.Bitstring.{
  bit_count, is_bit, Parent, tests, pausing, paused, sends, clears, reaps, Child, testing, dozing,
  asleep, ended, State, next, parent_at, parent_runs, child_at, is_ended, init,
}
use cs.Bitstring.Input.{AreBits}

-- The bytes that the parent has not sent, and those that are under way.
abbrev pub unsent : Parent → Bytes
unsent (tests b bs) = b ∷ bs
unsent (pausing b bs) = b ∷ bs
unsent (paused b bs) = b ∷ bs
unsent (sends b bs) = b ∷ bs
unsent (clears bs) = bs
unsent reaps = []

abbrev pub flight : Bool → Bool → Bytes
flight true z = b'1' ∷ []
flight false true = b'0' ∷ []
flight false false = []

abbrev pub is_clearing : Parent → Bool
is_clearing (clears bs) = true
is_clearing _ = false

abbrev pub is_sending : Parent → Bool
is_sending (sends b bs) = true
is_sending _ = false

-- At most one signal is pending, and none while the parent may send.
abbrev pub alone : State → Bool
alone s = not (s.one && s.zero) && (not (s.one && s.ack) && not (s.zero && s.ack))

abbrev pub idle : State → Bool
idle s = not s.one && (not s.zero && not s.ack)

pub record Inv (tmp : Bytes) (p : Parent) (s : State) : Type 0 where
  pub whole : s.received ++ (flight s.one s.zero ++ unsent p) ≡ tmp
  pub bits : AreBits (unsent p)
  pub few : alone s ≡ true
  pub quiet : (not s.can_receive || (is_clearing p || idle s)) ≡ true
  pub sending : (not (is_sending p) || s.can_receive) ≡ true
  pub full : (not (is_ended s.child) || (length s.received == bit_count)) ≡ true

unsent-next : (bs : Bytes) → unsent (next bs) ≡ bs
unsent-next [] = refl
unsent-next (b ∷ bs) = refl

is_sending-next : (bs : Bytes) → is_sending (next bs) ≡ false
is_sending-next [] = refl
is_sending-next (b ∷ bs) = refl

pub init-Inv : (tmp : Bytes) → AreBits tmp → Inv tmp (next tmp) (init tmp)
unfolding init
init-Inv tmp are = record {
  whole = unsent-next tmp;
  bits = subst AreBits (sym (unsent-next tmp)) are;
  few = refl;
  quiet = ground arith;
  sending = ground arith;
  full = refl;
}

-- A bit that is sent while nothing is under way.
flight-sent :
    (b : ℕ) (o z : Bool)
    → is_bit b ≡ true
    → o ≡ false
    → z ≡ false
    → flight (o || (b == b'1')) (z || not (b == b'1')) ≡ b ∷ []
flight-sent b o z bit no_one no_zero = ground (arith, bit, no_one, no_zero)

pub parent_at-Inv :
    (tmp : Bytes) (p : Parent) (s : State)
    → parent_runs p ≡ true
    → Inv tmp p s
    → Inv tmp (parent_at p s).parent (parent_at p s)
unfolding parent_at
parent_at-Inv tmp (tests b bs) s runs v = elim (Bool-cases s.can_receive) [
  | inl can ↦ rw can (record {
    whole = v.whole;
    bits = v.bits;
    few = v.few;
    quiet = ground (arith, can, v.quiet);
    sending = refl;
    full = v.full;
  })
  | inr cannot ↦ rw cannot (record {
    whole = v.whole;
    bits = v.bits;
    few = v.few;
    quiet = refl;
    sending = refl;
    full = v.full;
  })
]
parent_at-Inv tmp (pausing b bs) s runs v = record {
  whole = v.whole;
  bits = v.bits;
  few = v.few;
  quiet = v.quiet;
  sending = v.sending;
  full = v.full;
}
parent_at-Inv tmp (paused b bs) s runs v = absurd (ground (arith, runs))
parent_at-Inv tmp (sends b bs) s runs v =
    let no_one : s.one ≡ false = ground (arith, v.quiet, v.sending) in
    let no_zero : s.zero ≡ false = ground (arith, v.quiet, v.sending) in
    let no_ack : s.ack ≡ false = ground (arith, v.quiet, v.sending) in
    let before : s.received ++ (b ∷ bs) ≡ tmp = rw (no_one, no_zero) at v.whole in
    let under_way = flight-sent b s.one s.zero (v.bits.0) no_one no_zero in
    record {
      whole = rw under_way before;
      bits = v.bits.1;
      few = ground (arith, no_one, no_zero, no_ack);
      quiet = ground arith;
      sending = refl;
      full = v.full;
    }
parent_at-Inv tmp (clears bs) s runs v = record {
  whole = rw (unsent-next bs) v.whole;
  bits = rw (unsent-next bs) v.bits;
  few = v.few;
  quiet = refl;
  sending = rw (is_sending-next bs) refl;
  full = v.full;
}
parent_at-Inv tmp reaps s runs v = absurd (ground (arith, runs))

pub child_at-Inv :
    (tmp : Bytes) (c : Child) (p : Parent) (s : State) → Inv tmp p s → Inv tmp p (child_at c s)
unfolding child_at
child_at-Inv tmp testing p s v = record {
  whole = v.whole;
  bits = v.bits;
  few = v.few;
  quiet = v.quiet;
  sending = v.sending;
  full = ground arith;
}
child_at-Inv tmp dozing p s v = record {
  whole = v.whole;
  bits = v.bits;
  few = v.few;
  quiet = v.quiet;
  sending = v.sending;
  full = refl;
}
child_at-Inv tmp asleep p s v = v
child_at-Inv tmp ended p s v = v

pub child_at-parent : (c : Child) (s : State) → (child_at c s).parent ≡ s.parent
unfolding child_at
child_at-parent testing s = refl
child_at-parent dozing s = refl
child_at-parent asleep s = refl
child_at-parent ended s = refl
