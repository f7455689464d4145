-- ===== src/Bitstring/Sending.antt =====
-- What the child of bitstring-send.c receives.
use mathlib.Core.List.{append-nil}
use cs.Base.{◌≡◌, ap, sym, ◌∙◌, true, [], ◌∷◌, ◌++◌, length, arith, Bytes, length-append}
use cs.Bitstring.{
  bit_count, is_bitstring, check_input, State, child_at, is_ended, parent_can_send, handle_1,
  handle_0, Step, parent_goes, child_goes, parent_told, got_1, got_0, init, Reach, start, later,
}
use cs.Bitstring.Input.{check_input-length, check_input-AreBits}
use cs.Bitstring.Handlers.{parent_can_send-Inv, handle_1-Inv, handle_0-Inv}
use cs.Bitstring.Invariant.{
  unsent, flight, Inv, init-Inv, parent_at-Inv, child_at-Inv, child_at-parent,
}

Step-Inv :
    {s t : State} (tmp : Bytes)
    → length tmp ≡ bit_count
    → Inv tmp s.parent s
    → Step s t
    → Inv tmp t.parent t
unfolding parent_can_send handle_1 handle_0 child_at
Step-Inv {s} tmp eight v (parent_goes runs) = parent_at-Inv tmp s.parent s runs v
Step-Inv {s} tmp eight v (child_goes runs) =
    rw (child_at-parent s.child s) (child_at-Inv tmp s.child s.parent s v)
Step-Inv {s} tmp eight v (parent_told told) = parent_can_send-Inv tmp s.parent s told v
Step-Inv {s} tmp eight v (got_1 one on) = handle_1-Inv tmp s.parent s eight on one v
Step-Inv {s} tmp eight v (got_0 zero_sent on) = handle_0-Inv tmp s.parent s eight on zero_sent v

Reach-Inv :
    {tmp : Bytes} {s : State} → check_input tmp ≡ is_bitstring → Reach tmp s → Inv tmp s.parent s
unfolding init
Reach-Inv {tmp} ok start = init-Inv tmp (check_input-AreBits tmp ok)
Reach-Inv {tmp} ok (later r step) = Step-Inv tmp (check_input-length tmp ok) (Reach-Inv ok r) step

full-nil : (xs ys : Bytes) → length (xs ++ ys) ≡ length xs → xs ++ ys ≡ xs
full-nil xs [] e = append-nil xs
full-nil xs (y ∷ ys) e = absurd (omega (arith, length-append xs (y ∷ ys), e))

-- When the input is a string of eight bits, and the child has ended, it has received the input, whatever
-- the order of the steps was.
pub received-whole :
    {tmp : Bytes} {s : State}
    → check_input tmp ≡ is_bitstring
    → Reach tmp s
    → is_ended s.child ≡ true
    → s.received ≡ tmp
received-whole {tmp} {s} ok r over =
    let v = Reach-Inv ok r in
    let eight : length s.received ≡ bit_count = ground (arith, over, v.full) in
    sym (
      full-nil s.received (flight s.one s.zero ++ unsent s.parent)
        (ap length v.whole ∙ check_input-length tmp ok ∙ sym eight))
    ∙ v.whole
