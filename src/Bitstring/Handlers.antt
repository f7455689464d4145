-- ===== src/Bitstring/Handlers.antt =====
-- The handlers of bitstring-send.c keep what holds between the signals.
use mathlib.Core.List.{append_assoc}
use cs.Base.{
  ℕ, ◌≡◌, refl, ap, sym, ◌∙◌, subst, true, false, not, ◌||◌, [], ◌∷◌, ◌++◌, ltb, length, arith,
  Bytes, length-append,
}
use cs.Bitstring.{
  bit_count, Parent, tests, pausing, paused, sends, clears, reaps, Child, testing, dozing, asleep,
  ended, State, is_ended, woken_parent, woken_child, parent_can_send, handle_1, handle_0, store,
}
use cs.Bitstring.Input.{AreBits}
use cs.Bitstring.Invariant.{unsent, is_clearing, is_sending, Inv}

unsent-woken : (p : Parent) → unsent (woken_parent p) ≡ unsent p
unsent-woken (tests b bs) = refl
unsent-woken (pausing b bs) = refl
unsent-woken (paused b bs) = refl
unsent-woken (sends b bs) = refl
unsent-woken (clears bs) = refl
unsent-woken reaps = refl

pub parent_can_send-Inv :
    (tmp : Bytes) (p : Parent) (s : State)
    → s.ack ≡ true
    → Inv tmp p s
    → Inv tmp (woken_parent p) (parent_can_send s)
unfolding parent_can_send
parent_can_send-Inv tmp p s told v = record {
  whole = rw (unsent-woken p) v.whole;
  bits = rw (unsent-woken p) v.bits;
  few = ground (arith, v.few);
  quiet = ground (arith, told, v.few);
  sending = ground arith;
  full = v.full;
}

is_ended-woken : (c : Child) → is_ended (woken_child c) ≡ is_ended c
is_ended-woken testing = refl
is_ended-woken dozing = refl
is_ended-woken asleep = refl
is_ended-woken ended = refl

-- There is room for a byte that is under way.
pub store-room :
    (b : ℕ) (received rest tmp : Bytes)
    → length tmp ≡ bit_count
    → received ++ (b ∷ rest) ≡ tmp
    → (store b received ≡ received ++ b ∷ []) × ((received ++ b ∷ []) ++ rest ≡ tmp)
store-room b received rest tmp eight e =
    let below : ltb (length received) bit_count ≡ true =
      let all : length (received ++ (b ∷ rest)) ≡ bit_count = ap length e ∙ eight in
      ground (arith, length-append received (b ∷ rest), all) in
    (rw below refl, append_assoc received (b ∷ []) rest ∙ e)

-- What a handler of the child does with a bit that is under way.
handled-Inv :
    (tmp : Bytes) (b : ℕ) (p : Parent) (s t : State)
    → length tmp ≡ bit_count
    → is_ended s.child ≡ false
    → s.received ++ (b ∷ unsent p) ≡ tmp
    → AreBits (unsent p)
    → (not s.can_receive || is_clearing p) ≡ true
    → (not (is_sending p) || s.can_receive) ≡ true
    → t ≡ record s {
      child = woken_child s.child;
      received = store b s.received;
      one = false;
      zero = false;
      ack = true;
    }
    → Inv tmp p t
handled-Inv tmp b p s t eight on e bits quiet sending is =
    let (stored, whole) = store-room b s.received (unsent p) tmp eight e in
    subst (Inv tmp p) (sym is) (record {
      whole = rw stored whole;
      bits = bits;
      few = refl;
      quiet = ground (arith, quiet);
      sending = sending;
      full = rw (is_ended-woken s.child, on) refl;
    })

pub handle_1-Inv :
    (tmp : Bytes) (p : Parent) (s : State)
    → length tmp ≡ bit_count
    → is_ended s.child ≡ false
    → s.one ≡ true
    → Inv tmp p s
    → Inv tmp p (handle_1 s)
unfolding handle_1
handle_1-Inv tmp p s eight on one v =
    let no_zero : s.zero ≡ false = ground (arith, one, v.few) in
    handled-Inv tmp b'1' p s (handle_1 s) eight on (rw one at v.whole) v.bits
      (ground (arith, one, v.quiet)) v.sending (rw no_zero refl)

pub handle_0-Inv :
    (tmp : Bytes) (p : Parent) (s : State)
    → length tmp ≡ bit_count
    → is_ended s.child ≡ false
    → s.zero ≡ true
    → Inv tmp p s
    → Inv tmp p (handle_0 s)
unfolding handle_0
handle_0-Inv tmp p s eight on zero_sent v =
    let no_one : s.one ≡ false = ground (arith, zero_sent, v.few) in
    handled-Inv tmp b'0' p s (handle_0 s) eight on (rw (no_one, zero_sent) at v.whole) v.bits
      (ground (arith, zero_sent, v.quiet)) v.sending (rw no_one refl)
