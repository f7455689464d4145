-- ===== src/RwLock/Invariant.antt =====
-- The invariant of lab_nw/kv-server-pool-rwlock/rwlock.c: its counts against where the threads
-- stand.
use cs.Base.{ℕ, ◌+◌, ◌<◌, ◌≡◌, refl, Bool, true, false, arith, if◌then◌else◌}
use cs.Base.Family.{bit, update, count, count-update, count-map, count-zero}
use cs.RwLock.{
  Lock, initialize, reader_lock, writer_lock, reader_unlock, writer_unlock, Wake, Pc, idle, at_read,
  asleep_read, reading, at_write, asleep_write, writing, is_reading, is_writing, is_asleep_read,
  is_asleep_write, is_at_write, System, rouse, roused, Signalled, unheard, heard, Step, ask_read,
  ask_write, read_enters, read_waits, write_enters, write_waits, read_leaves, write_leaves,
  spurious_read, spurious_write, Reach, start, later,
}

pub record Inv (n : ℕ) (l : Lock) (pc : ℕ → Pc) : Type 0 where
  pub readers : count is_reading n pc ≡ l.reader_count
  pub writers : count is_writing n pc ≡ bit l.writer_writing
  pub apart : l.writer_writing ≡ true → l.reader_count ≡ 0
  pub waiting_readers : 0 < count is_asleep_read n pc → l.writer_writing ≡ true
  pub waiting_writers :
      0 < count is_asleep_write n pc
      → 0 < l.reader_count + bit l.writer_writing + count is_at_write n pc

-- Thread `i` goes from one place to another: each count changes by that thread.
pub record Moved (n : ℕ) (pc q : ℕ → Pc) (a b : Pc) : Type 0 where
  pub r : count is_reading n q + bit (is_reading a) ≡ count is_reading n pc + bit (is_reading b)
  pub w : count is_writing n q + bit (is_writing a) ≡ count is_writing n pc + bit (is_writing b)
  pub ar :
      count is_asleep_read n q + bit (is_asleep_read a)
      ≡ count is_asleep_read n pc + bit (is_asleep_read b)
  pub aw :
      count is_asleep_write n q + bit (is_asleep_write a)
      ≡ count is_asleep_write n pc + bit (is_asleep_write b)
  pub tw :
      count is_at_write n q + bit (is_at_write a) ≡ count is_at_write n pc + bit (is_at_write b)

pub moved :
    (n : ℕ) (pc : ℕ → Pc) (i : ℕ) (a b : Pc) → i < n → pc i ≡ a → Moved n pc (update pc i b) a b
moved n pc i a b h e = record {
  r = ground (arith, count-update is_reading n pc i b);
  w = ground (arith, count-update is_writing n pc i b);
  ar = ground (arith, count-update is_asleep_read n pc i b);
  aw = ground (arith, count-update is_asleep_write n pc i b);
  tw = ground (arith, count-update is_at_write n pc i b);
}

init-Inv : (n : ℕ) → Inv n initialize (λ _. idle)
unfolding initialize
init-Inv n = record {
  readers = count-zero is_reading n _ (λ i. refl);
  writers = count-zero is_writing n _ (λ i. refl);
  apart = λ e. refl;
  waiting_readers =
      λ h. absurd (omega (arith, count-zero is_asleep_read n (λ _. idle) (λ i. refl)));
  waiting_writers =
      λ h. absurd (omega (arith, count-zero is_asleep_write n (λ _. idle) (λ i. refl)));
}

-- What the signals of an unlock leave as it was, and what they make true.
pub record Woken (n : ℕ) (wake : Wake) (pc q : ℕ → Pc) : Type 0 where
  pub r : count is_reading n q ≡ count is_reading n pc
  pub w : count is_writing n q ≡ count is_writing n pc
  pub ar : count is_asleep_read n q ≡ (if wake.all_readers then 0 else count is_asleep_read n pc)
  pub kept : wake.one_writer ≡ false → count is_at_write n q ≡ count is_at_write n pc
  pub slept : wake.one_writer ≡ false → count is_asleep_write n q ≡ count is_asleep_write n pc
  pub woke : wake.one_writer ≡ true → 0 < count is_asleep_write n q → 0 < count is_at_write n q
  pub waiting :
      count is_asleep_write n q + count is_at_write n q
      ≡ count is_asleep_write n pc + count is_at_write n pc

-- Only a test of the readers asleep sees a broadcast.
rouse-reading : (b : Bool) (p : Pc) → is_reading (rouse b p) ≡ is_reading p
rouse-reading b p = ground arith

rouse-writing : (b : Bool) (p : Pc) → is_writing (rouse b p) ≡ is_writing p
rouse-writing b p = ground arith

rouse-asleep_write : (b : Bool) (p : Pc) → is_asleep_write (rouse b p) ≡ is_asleep_write p
rouse-asleep_write b p = ground arith

rouse-at_write : (b : Bool) (p : Pc) → is_at_write (rouse b p) ≡ is_at_write p
rouse-at_write b p = ground arith

rouse-asleep_read :
    (b : Bool) (n : ℕ) (pc : ℕ → Pc)
    → count is_asleep_read n (λ k. rouse b (pc k)) ≡ (if b then 0 else count is_asleep_read n pc)
rouse-asleep_read true n pc = count-zero is_asleep_read n _ (λ k. awake (pc k))
  where
    awake : (p : Pc) → is_asleep_read (rouse true p) ≡ false
    awake p = ground arith
rouse-asleep_read false n pc = count-map is_asleep_read (rouse false) n pc (λ p. refl)

-- The counts after the broadcast alone.
record Roused (n : ℕ) (b : Bool) (pc q : ℕ → Pc) : Type 0 where
  r : count is_reading n q ≡ count is_reading n pc
  w : count is_writing n q ≡ count is_writing n pc
  ar : count is_asleep_read n q ≡ (if b then 0 else count is_asleep_read n pc)
  aw : count is_asleep_write n q ≡ count is_asleep_write n pc
  tw : count is_at_write n q ≡ count is_at_write n pc

rouse_counts : (n : ℕ) (b : Bool) (pc : ℕ → Pc) → Roused n b pc (λ k. rouse b (pc k))
rouse_counts n b pc = record {
  r = count-map is_reading (rouse b) n pc (rouse-reading b);
  w = count-map is_writing (rouse b) n pc (rouse-writing b);
  ar = rouse-asleep_read b n pc;
  aw = count-map is_asleep_write (rouse b) n pc (rouse-asleep_write b);
  tw = count-map is_at_write (rouse b) n pc (rouse-at_write b);
}

pub Signalled-Woken : {n : ℕ} {w : Wake} {pc q : ℕ → Pc} → Signalled n w pc q → Woken n w pc q
Signalled-Woken {n} {w} {pc} (unheard none_asleep) = ground (arith, rouse_counts n w.all_readers pc)
Signalled-Woken {n} {w} {pc} (heard j signals lt e) = ground (
  arith,
  rouse_counts n w.all_readers pc,
  moved n (roused w pc) j asleep_write at_write lt (rw e (still w.all_readers)),
)
  where
    still : (b : Bool) → rouse b asleep_write ≡ asleep_write
    still true = refl
    still false = refl

Step-Inv : {n : ℕ} {s t : System} → Step n s t → Inv n s.lock s.pc → Inv n t.lock t.pc
unfolding reader_lock writer_lock reader_unlock writer_unlock
Step-Inv {n} {s} (ask_read i h e) v = ground (arith, moved n s.pc i idle at_read h e)
Step-Inv {n} {s} (ask_write i h e) v = ground (arith, moved n s.pc i idle at_write h e)
Step-Inv {n} {s} (read_enters i h e t) v = ground (arith, moved n s.pc i at_read reading h e)
Step-Inv {n} {s} (read_waits i h e t) v = ground (arith, moved n s.pc i at_read asleep_read h e)
Step-Inv {n} {s} (write_enters i h e t) v = ground (arith, moved n s.pc i at_write writing h e)
Step-Inv {n} {s} (write_waits i h e t) v = ground (arith, moved n s.pc i at_write asleep_write h e)
Step-Inv {n} {s} (read_leaves i h e g) v =
    ground (arith, moved n s.pc i reading idle h e, Signalled-Woken g)
Step-Inv {n} {s} (write_leaves i h e g) v =
    ground (arith, moved n s.pc i writing idle h e, Signalled-Woken g)
Step-Inv {n} {s} (spurious_read i h e) v = ground (arith, moved n s.pc i asleep_read at_read h e)
Step-Inv {n} {s} (spurious_write i h e) v = ground (arith, moved n s.pc i asleep_write at_write h e)

pub Reach-Inv : {n : ℕ} {s : System} → Reach n s → Inv n s.lock s.pc
Reach-Inv {n} start = init-Inv n
Reach-Inv (later r st) = Step-Inv st (Reach-Inv r)
