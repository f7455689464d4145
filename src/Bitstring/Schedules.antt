-- ===== src/Bitstring/Schedules.antt =====
-- A schedule in which the child of bitstring-send.c receives its input, and one that stops.
use mathlib.Core.List.{append-nil}
use cs.Base.{
  ℕ, ◌≡◌, refl, sym, ◌∙◌, subst, inl, inr, Bool, true, false, not, Bool-cases, [], ◌∷◌, ◌++◌, ◌==◌,
  length, arith, Bytes, ==→eq,
}
use cs.Bitstring.{
  bit_count, is_bit, is_bitstring, check_input, Parent, tests, paused, clears, reaps, testing,
  asleep, ended, State, next, parent_at, child_at, woken_parent, parent_can_send, handle_1,
  handle_0, Step, parent_goes, child_goes, parent_told, got_1, got_0, init, Reach, start, later,
  store,
}
use cs.Bitstring.Input.{AreBits, check_input-AreBits, check_input-length}
use cs.Bitstring.Handlers.{store-room}

-- The child is at its test, and one and zero say whether a bit is under way.
abbrev during : Parent → Bool → Bytes → Bool → Bool → State
during p can r o z = record {
  parent = p;
  child = testing;
  can_receive = can;
  received = r;
  one = o;
  zero = z;
  ack = false;
}

-- The child gets the bit that is under way, and the parent its answer.
told :
    {tmp : Bytes} (b : ℕ) (p : Parent) (can : Bool) (r : Bytes)
    → is_bit b ≡ true
    → Reach tmp (during p can r (b == b'1') (not (b == b'1')))
    → Reach tmp (during (woken_parent p) true (store b r) false false)
unfolding handle_1 handle_0 parent_can_send
told {tmp} b p can r bit reach = elim (Bool-cases (b == b'1')) [
  | inl one ↦
      let here : Reach tmp (during p can r true false) = rw one at reach in
      let e : b ≡ b'1' = ==→eq b b'1' one in
      rw e (later (later here (got_1 refl refl)) (parent_told refl))
  | inr other ↦
      let here : Reach tmp (during p can r false true) = rw other at reach in
      let e : b ≡ b'0' = ground (arith, bit, other) in
      rw e (later (later here (got_0 refl refl)) (parent_told refl))
]

sent :
    {tmp : Bytes} (b : ℕ) (bs r : Bytes)
    → Reach tmp (during (tests b bs) true r false false)
    → Reach tmp (during (clears bs) true r (b == b'1') (not (b == b'1')))
unfolding parent_at
sent b bs r reach = later (later reach (parent_goes refl)) (parent_goes refl)

woken-next : (bs : Bytes) → woken_parent (next bs) ≡ next bs
woken-next [] = refl
woken-next (b ∷ bs) = refl

-- A round in which the answer comes after `canReceive = false`.
answered :
    {tmp : Bytes} (b : ℕ) (bs r : Bytes)
    → is_bit b ≡ true
    → Reach tmp (during (tests b bs) true r false false)
    → Reach tmp (during (next bs) true (store b r) false false)
unfolding parent_at
answered {tmp} b bs r bit reach =
    subst (λ p. Reach tmp (during p true (store b r) false false)) (woken-next bs)
      (told b (next bs) false r bit (later (sent b bs r reach) (parent_goes refl)))

all_answered :
    {tmp : Bytes} (bs r : Bytes)
    → length tmp ≡ bit_count
    → AreBits bs
    → r ++ bs ≡ tmp
    → Reach tmp (during (next bs) true r false false)
    → Reach tmp (during reaps true tmp false false)
all_answered {tmp} [] r eight are e reach =
    subst (λ x. Reach tmp (during reaps true x false false)) (sym (append-nil r) ∙ e) reach
all_answered {tmp} (b ∷ bs) r eight are e reach =
    let (stored, whole) = store-room b r bs tmp eight e in
    let more = answered b bs r are.0 reach in
    all_answered bs (r ++ b ∷ []) eight are.1 whole
      (subst (λ x. Reach tmp (during (next bs) true x false false)) stored more)

abbrev pub finished : Bytes → State
finished tmp = record (during reaps true tmp false false) { child = ended }

-- For every input that is a string of eight bits there is an order of the steps in which the child
-- receives it and ends, and the parent waits for its end.
pub can_finish : {tmp : Bytes} → check_input tmp ≡ is_bitstring → Reach tmp (finished tmp)
unfolding init child_at
can_finish {tmp} ok =
    let eight = check_input-length tmp ok in
    let reached = all_answered tmp [] eight (check_input-AreBits tmp ok) refl start in
    let last : Reach tmp (child_at testing (during reaps true tmp false false)) =
      later reached (child_goes refl) in
    rw eight at last

-- The state in which both sleep, behind the first bit.
abbrev pub deadlock : ℕ → ℕ → Bytes → State
deadlock b c cs = record {
  parent = paused c cs;
  child = asleep;
  can_receive = false;
  received = b ∷ [];
  one = false;
  zero = false;
  ack = false;
}

deadlock-stops : (b c : ℕ) (cs : Bytes) (t : State) → ¬ Step (deadlock b c cs) t
deadlock-stops b c cs t (parent_goes runs) = absurd (ground (arith, runs))
deadlock-stops b c cs t (child_goes runs) = absurd (ground (arith, runs))
deadlock-stops b c cs t (parent_told told) = absurd (ground (arith, told))
deadlock-stops b c cs t (got_1 one on) = absurd (ground (arith, one))
deadlock-stops b c cs t (got_0 pending on) = absurd (ground (arith, pending))

-- For every input of eight bits there is an order of the steps in which the answer to the first comes
-- between kill and canReceive = false, so that the parent has still seven to send, both sleep in pause, and no step is
-- left.
pub lost_answer-stops :
    (b c : ℕ) (cs : Bytes)
    → check_input (b ∷ c ∷ cs) ≡ is_bitstring
    → Reach (b ∷ c ∷ cs) (deadlock b c cs) × ((t : State) → ¬ Step (deadlock b c cs) t)
unfolding init child_at parent_at
lost_answer-stops b c cs ok =
    let bit = (check_input-AreBits (b ∷ c ∷ cs) ok).0 in
    let one_told = told b (clears (c ∷ cs)) true [] bit (sent b (c ∷ cs) [] start) in
    let parent_sleeps =
      later (later (later one_told (parent_goes refl)) (parent_goes refl)) (parent_goes refl) in
    (later (later parent_sleeps (child_goes refl)) (child_goes refl), deadlock-stops b c cs)
