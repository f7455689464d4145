-- ===== src/WriterPref/Invariant.antt =====
-- The invariant of rwlock-writer-pref.cpp: its counts against where the threads stand.
use cs.Base.{ℕ, ◌+◌, ◌<◌, ◌≡◌, refl, true, arith}
use cs.Base.Family.{bit, count, count-zero}
use cs.RwLock.{
  Lock, Pc, idle, at_read, asleep_read, reading, at_write, asleep_write, writing, is_reading,
  is_writing, is_asleep_read, is_asleep_write, is_at_write, System,
}
use cs.RwLock.Invariant.{moved, Signalled-Woken}
use cs.WriterPref.{
  initialize, reader_lock, writer_arrives, writer_lock, reader_unlock, writer_unlock, Step,
  ask_read, read_enters, read_waits, write_enters, write_waits, woken_enters, woken_waits,
  read_leaves, write_leaves, spurious_read, spurious_write, Reach, start, later,
}

-- The threads that have called `WriterLock`: with the lock, at the test, or asleep.
abbrev pub writers_of : ℕ → (ℕ → Pc) → ℕ
writers_of n pc = count is_writing n pc + (count is_asleep_write n pc + count is_at_write n pc)

pub record Inv (n : ℕ) (l : Lock) (pc : ℕ → Pc) : Type 0 where
  pub readers : count is_reading n pc ≡ l.reader_count
  pub writers : count is_writing n pc ≡ bit l.writer_writing
  pub apart : l.writer_writing ≡ true → l.reader_count ≡ 0
  pub called : writers_of n pc ≡ l.writer_count
  pub waiting_readers : 0 < count is_asleep_read n pc → 0 < l.writer_count
  pub waiting_writers :
      0 < count is_asleep_write n pc
      → 0 < l.reader_count + bit l.writer_writing + count is_at_write n pc

init-Inv : (n : ℕ) → Inv n initialize (λ _. idle)
unfolding initialize
init-Inv n = ground (
  arith,
  count-zero is_reading n (λ _. idle) (λ i. refl),
  count-zero is_writing n (λ _. idle) (λ i. refl),
  count-zero is_asleep_read n (λ _. idle) (λ i. refl),
  count-zero is_asleep_write n (λ _. idle) (λ i. refl),
  count-zero is_at_write n (λ _. idle) (λ i. refl),
)

Step-Inv : {n : ℕ} {s t : System} → Step n s t → Inv n s.lock s.pc → Inv n t.lock t.pc
unfolding reader_lock writer_arrives writer_lock reader_unlock writer_unlock
Step-Inv {n} {s} (ask_read i h e) v = ground (arith, moved n s.pc i idle at_read h e)
Step-Inv {n} {s} (read_enters i h e t) v = ground (arith, moved n s.pc i at_read reading h e)
Step-Inv {n} {s} (read_waits i h e t) v = ground (arith, moved n s.pc i at_read asleep_read h e)
Step-Inv {n} {s} (write_enters i h e t) v = ground (arith, moved n s.pc i idle writing h e)
Step-Inv {n} {s} (write_waits i h e t) v = ground (arith, moved n s.pc i idle asleep_write h e)
Step-Inv {n} {s} (woken_enters i h e t) v = ground (arith, moved n s.pc i at_write writing h e)
Step-Inv {n} {s} (woken_waits i h e t) v = ground (arith, moved n s.pc i at_write asleep_write h e)
Step-Inv {n} {s} (read_leaves i h e g) v =
    ground (arith, moved n s.pc i reading idle h e, Signalled-Woken g)
Step-Inv {n} {s} (write_leaves i h e g) v =
    ground (arith, moved n s.pc i writing idle h e, Signalled-Woken g)
Step-Inv {n} {s} (spurious_read i h e) v = ground (arith, moved n s.pc i asleep_read at_read h e)
Step-Inv {n} {s} (spurious_write i h e) v = ground (arith, moved n s.pc i asleep_write at_write h e)

pub Reach-Inv : {n : ℕ} {s : System} → Reach n s → Inv n s.lock s.pc
Reach-Inv {n} start = init-Inv n
Reach-Inv (later r st) = Step-Inv st (Reach-Inv r)
