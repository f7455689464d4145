-- ===== src/RwLock/Tests.antt =====
-- A run of lab_nw/kv-server-pool-rwlock/rwlock.c with two readers and a writer, and the theorems
-- of Safety in it.
use cs.Base.{ℕ, ◌<◌, ◌≡◌, refl, inr, true, false, ◌||◌, arith}
use cs.Base.Family.{update}
use cs.RwLock.{
  initialize, reader_lock, writer_lock, Pc, idle, at_read, reading, at_write, asleep_write, writing,
  is_at_write, System, Reach, start, later, ask_read, ask_write, read_enters, write_enters,
  write_waits,
}
use cs.RwLock.Safety.{inside, writing_alone, no_lost_wakeup}

abbrev goes : (ℕ → Pc) → ℕ → Pc → Pc → ℕ → Pc
goes pc i a b = update (update pc i a) i b

-- Thread 0 reads, and thread 1 sleeps until it may write.
abbrev read_first : System
read_first = record {
  lock = record { reader_count = 1; writer_count = 0; writer_writing = false };
  pc = goes (goes (λ _. idle) 0 at_read reading) 1 at_write asleep_write;
}

read_first-Reach : Reach 2 read_first
unfolding initialize reader_lock writer_lock
read_first-Reach =
    later
      (later
        (later (later start (ask_read 0 (omega arith) refl))
          (read_enters 0 (omega arith) refl refl))
        (ask_write 1 (omega arith) refl))
      (write_waits 1 (omega arith) refl refl)

-- Thread 0 writes.
abbrev write_first : System
write_first = record {
  lock = record { reader_count = 0; writer_count = 0; writer_writing = true };
  pc = goes (λ _. idle) 0 at_write writing;
}

write_first-Reach : Reach 2 write_first
unfolding initialize writer_lock
write_first-Reach =
    later (later start (ask_write 0 (omega arith) refl)) (write_enters 0 (omega arith) refl refl)

writing_alone_example : ◌≡◌ {A = ℕ} 0 0
writing_alone_example = writing_alone 0 0 write_first-Reach (omega arith) (omega arith) refl refl

no_lost_wakeup_example :
    (j : ℕ) × (j < 2) × ((inside (read_first.pc j) || is_at_write (read_first.pc j)) ≡ true)
no_lost_wakeup_example = no_lost_wakeup 1 read_first-Reach (omega arith) (inr refl)
