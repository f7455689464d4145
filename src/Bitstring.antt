-- ===== src/Bitstring.antt =====
-- The sending of a string of eight bits by signals, lab_IPC/ipc-code/bitstring-send.c: the check of the
-- input, the loops of the parent and the child, and the handlers, from where the child has told the parent
-- that its handlers stand. A signal that is pending and sent again is delivered once.
pub mod Handlers
pub mod Input
pub mod Invariant
pub mod Sending
pub mod Schedules
mod Tests
use cs.Base.{
  ℕ, ◌+◌, ◌≡◌, Bool, true, false, not, ◌||◌, List, [], ◌∷◌, ◌++◌, ◌==◌, ltb, length, if◌then◌else◌,
  Bytes,
}

-- `LENGTH`
abbrev pub bit_count : ℕ
bit_count = 8

-- What main finds in the input: a length that is not 8, a byte that is no bit with its index, or a
-- string to send.
pub data Check : Type 0 where
  wrong_length : Check
  not_bit : ℕ → ℕ → Check
  is_bitstring : Check

abbrev pub is_bit : ℕ → Bool
is_bit c = (c == b'1') || (c == b'0')

unfoldable pub check_bits : ℕ → Bytes → Check
check_bits i [] = is_bitstring
check_bits i (c ∷ cs) = let rest = check_bits (i + 1) cs in if is_bit c then rest else not_bit i c

unfoldable pub check_input : Bytes → Check
unfolding check_bits
check_input tmp = if length tmp == bit_count then check_bits 0 tmp else wrong_length

-- Where the parent stands, with the bytes that it has not sent: at its test of `canReceive`, before
-- pause and in it, before kill, before `canReceive = false`, and in wait.
pub data Parent : Type 0 where
  tests : ℕ → Bytes → Parent
  pausing : ℕ → Bytes → Parent
  paused : ℕ → Bytes → Parent
  sends : ℕ → Bytes → Parent
  clears : Bytes → Parent
  reaps : Parent

-- The same of the child, whose test is of `recvdIndex`.
pub data Child : Type 0 where
  testing : Child
  dozing : Child
  asleep : Child
  ended : Child

-- The first `recvdIndex` bytes of `recvdString`, and the signals that are pending: SIGUSR1 and SIGUSR2 to
-- the child, and SIGUSR2 to the parent.
pub record State : Type 0 where
  pub parent : Parent
  pub child : Child
  pub can_receive : Bool
  pub received : Bytes
  pub one : Bool
  pub zero : Bool
  pub ack : Bool

-- The next round of the loop that sends.
abbrev pub next : Bytes → Parent
next [] = reaps
next (b ∷ bs) = tests b bs

abbrev pub kill_child : ℕ → State → State
kill_child b s = record s { one = s.one || (b == b'1'); zero = s.zero || not (b == b'1') }

-- The parent goes on, if it does not wait for a signal.
unfoldable pub parent_at : Parent → State → State
parent_at (tests b bs) s = record s { parent = if s.can_receive then sends b bs else pausing b bs }
parent_at (pausing b bs) s = record s { parent = paused b bs }
parent_at (paused b bs) s = s
parent_at (sends b bs) s = record (kill_child b s) { parent = clears bs }
parent_at (clears bs) s = record s { parent = next bs; can_receive = false }
parent_at reaps s = s

abbrev pub parent_runs : Parent → Bool
parent_runs (paused b bs) = false
parent_runs reaps = false
parent_runs _ = true

-- The same of the child, which prints and exits behind the eighth bit.
unfoldable pub child_at : Child → State → State
child_at testing s = record s { child = if length s.received == bit_count then ended else dozing }
child_at dozing s = record s { child = asleep }
child_at asleep s = s
child_at ended s = s

abbrev pub child_runs : Child → Bool
child_runs testing = true
child_runs dozing = true
child_runs _ = false

abbrev pub is_ended : Child → Bool
is_ended ended = true
is_ended _ = false

-- pause returns behind a handler.
abbrev pub woken_parent : Parent → Parent
woken_parent (paused b bs) = tests b bs
woken_parent p = p

abbrev pub woken_child : Child → Child
woken_child asleep = testing
woken_child c = c

unfoldable pub parent_can_send : State → State
parent_can_send s = record s { parent = woken_parent s.parent; can_receive = true; ack = false }

abbrev pub store : ℕ → Bytes → Bytes
store b received = if ltb (length received) bit_count then received ++ b ∷ [] else received

-- `sigHandle1` and `sigHandle0`
unfoldable pub handle_1 : State → State
handle_1 s = record s {
  child = woken_child s.child;
  received = store b'1' s.received;
  one = false;
  ack = true;
}

unfoldable pub handle_0 : State → State
handle_0 s = record s {
  child = woken_child s.child;
  received = store b'0' s.received;
  zero = false;
  ack = true;
}

pub data Step (s : State) : State → Type 0 where
  parent_goes : parent_runs s.parent ≡ true → Step s (parent_at s.parent s)
  child_goes : child_runs s.child ≡ true → Step s (child_at s.child s)
  parent_told : s.ack ≡ true → Step s (parent_can_send s)
  got_1 : s.one ≡ true → is_ended s.child ≡ false → Step s (handle_1 s)
  got_0 : s.zero ≡ true → is_ended s.child ≡ false → Step s (handle_0 s)

unfoldable pub init : Bytes → State
init tmp = record {
  parent = next tmp;
  child = testing;
  can_receive = true;
  received = [];
  one = false;
  zero = false;
  ack = false;
}

pub data Reach (tmp : Bytes) : State → Type 0 where
  start : Reach tmp (init tmp)
  later : {s t : State} → Reach tmp s → Step s t → Reach tmp t
