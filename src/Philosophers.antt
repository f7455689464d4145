-- ===== src/Philosophers.antt =====
-- The dining philosophers of prac/threads/dining_philosopher.c: five threads, a table `state` and a
-- condition for each. A section from taking the mutex to a wait or a return is one step.
pub mod Table
pub mod Safety
mod Tests
use cs.Base.{ℕ, ◌+◌, ◌-◌, ◌%◌, ◌<◌, ◌≡◌, Bool, true, false, not, ◌&&◌, if◌then◌else◌}
use cs.Base.Family.{update}

-- `NUM_PHILOSOPHERS`
abbrev pub num_philosophers : ℕ
num_philosophers = 5

-- `LEFT` and `RIGHT`
unfoldable pub left : ℕ → ℕ
left i = (i + num_philosophers - 1) % num_philosophers

unfoldable pub right : ℕ → ℕ
right i = (i + 1) % num_philosophers

-- Where a philosopher stands: between calls, asleep in the wait of `take_forks`, woken and not yet at its
-- test, or with the forks.
pub data Pc : Type 0 where
  thinking : Pc
  asleep : Pc
  woken : Pc
  eating : Pc

abbrev pub is_eating : Pc → Bool
is_eating eating = true
is_eating _ = false

abbrev pub is_asleep : Pc → Bool
is_asleep asleep = true
is_asleep _ = false

-- `pthread_cond_signal` on the condition of one philosopher, on which no other waits.
abbrev pub signalled : Pc → Pc
signalled asleep = woken
signalled p = p

-- `state`, where EATING is `true` and HUNGRY `false`, and the places.
pub record System : Type 0 where
  pub state : ℕ → Bool
  pub pc : ℕ → Pc

unfoldable pub can_take_forks : System → ℕ → System
can_take_forks s i =
    if not (s.state i) && (not (s.state (left i)) && not (s.state (right i)))
    then record { state = update s.state i true; pc = update s.pc i (signalled (s.pc i)) }
    else s

abbrev pub make_hungry : System → ℕ → System
make_hungry s i = record s { state = update s.state i false }

-- One test of the loop in `take_forks`.
unfoldable pub test_forks : System → ℕ → System
test_forks s i = record s { pc = update s.pc i (if s.state i then eating else asleep) }

unfoldable pub take_forks : System → ℕ → System
unfolding can_take_forks test_forks
take_forks s i = test_forks (can_take_forks (make_hungry s i) i) i

unfoldable pub put_forks : System → ℕ → System
unfolding can_take_forks left right
put_forks s i =
    let hungry : System = record { state = update s.state i false; pc = update s.pc i thinking } in
    can_take_forks (can_take_forks hungry (left i)) (right i)

pub data Step (s : System) : System → Type 0 where
  takes : (i : ℕ) → i < num_philosophers → s.pc i ≡ thinking → Step s (take_forks s i)
  tests : (i : ℕ) → i < num_philosophers → s.pc i ≡ woken → Step s (test_forks s i)
  puts : (i : ℕ) → i < num_philosophers → s.pc i ≡ eating → Step s (put_forks s i)
  -- a wait may also end with no signal
  spurious :
      (i : ℕ)
      → i < num_philosophers
      → s.pc i ≡ asleep
      → Step s (record s { pc = update s.pc i woken })

unfoldable pub init : System
init = record { state = λ _. false; pc = λ _. thinking }

pub data Reach : System → Type 0 where
  start : Reach init
  later : {s t : System} → Reach s → Step s t → Reach t
