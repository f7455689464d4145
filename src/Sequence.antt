-- ===== src/Sequence.antt =====
-- The threads that print in turn: lab_threads/pthreads-sync-code/sequence.c, with one condition for all,
-- and lab_threads/seq.c, with a condition for each and a main that sets the turn again. A thread has the
-- mutex from its test to its wait.
pub mod Order
mod Tests
use cs.Base.{ℕ, ◌+◌, ◌%◌, ◌<◌, ◌≡◌, Bool, true, false, List, [], ◌∷◌, ◌++◌, ◌==◌, if◌then◌else◌}
use cs.Base.Family.{update}

-- `N`
abbrev pub thread_count : ℕ
thread_count = 3

-- Where a thread stands: before it has the mutex, with it, or in the wait.
pub data Pc : Type 0 where
  ready : Pc
  holds : Pc
  asleep : Pc

abbrev pub is_awake : Pc → Bool
is_awake asleep = false
is_awake _ = true

abbrev pub signalled : Pc → Pc
signalled asleep = ready
signalled p = p

-- main of seq.c: before `start_thread = 0`, before the signal, and at the joins, where main of sequence.c is.
pub data MainPc : Type 0 where
  resets : MainPc
  signals : MainPc
  joins : MainPc

-- Which of the two programs it is.
pub data Program : Type 0 where
  sequence : Program
  seq : Program

pub record System : Type 0 where
  pub turn : ℕ
  pub pc : ℕ → Pc
  pub is_held : Bool
  pub printed : List ℕ
  pub main : MainPc

-- pthread_cond_broadcast, and pthread_cond_signal on the condition of the next thread.
abbrev pub wake : Program → ℕ → (ℕ → Pc) → ℕ → Pc
wake sequence t pc = λ k. signalled (pc k)
wake seq t pc = update pc t (signalled (pc t))

-- A round of the loops of a thread, with the mutex: it waits, or prints and gives the turn on.
unfoldable pub thread_round : Program → ℕ → System → System
thread_round p i s =
    let t = (s.turn + 1) % thread_count in
    if s.turn == i
    then record s { turn = t; pc = wake p t s.pc; printed = s.printed ++ i ∷ [] }
    else record s { pc = update s.pc i asleep; is_held = false }

pub data Step (p : Program) (s : System) : System → Type 0 where
  locks :
      (i : ℕ)
      → i < thread_count
      → s.pc i ≡ ready
      → s.is_held ≡ false
      → Step p s (record s { pc = update s.pc i holds; is_held = true })
  goes_round : (i : ℕ) → i < thread_count → s.pc i ≡ holds → Step p s (thread_round p i s)
  -- a wait may also end with no signal
  spurious :
      (i : ℕ)
      → i < thread_count
      → s.pc i ≡ asleep
      → Step p s (record s { pc = update s.pc i ready })
  main_resets : s.main ≡ resets → Step p s (record s { turn = 0; main = signals })
  main_signals :
      s.main ≡ signals
      → Step p s (record s { pc = update s.pc 0 (signalled (s.pc 0)); main = joins })

abbrev pub first_main : Program → MainPc
first_main sequence = joins
first_main seq = resets

unfoldable pub init : Program → System
init p = record { turn = 0; pc = λ k. ready; is_held = false; printed = []; main = first_main p }

pub data Reach (p : Program) : System → Type 0 where
  start : Reach p (init p)
  later : {s t : System} → Reach p s → Step p s t → Reach p t
