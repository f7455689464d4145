-- ===== src/WriterPref/Tests.antt =====
-- A run of rwlock-writer-pref.cpp: a reader reads, a writer waits for it, and a second reader waits for
-- the writer.
use cs.Base.{ℕ, ◌+◌, ◌≤◌, ◌≡◌, refl, false, ◌&&◌, arith, ◌==◌, ltb}
use cs.Base.Family.{update, count}
use cs.RwLock.{
  Pc, idle, at_read, reading, asleep_read, asleep_write, is_reading, is_writing, System,
}
use cs.WriterPref.{
  initialize, reader_lock, writer_arrives, writer_lock, Reach, start, later, ask_read, read_enters,
  write_waits, read_waits,
}
use cs.WriterPref.Invariant.{writers_of}
use cs.WriterPref.Safety.{admits, locks-admits}

abbrev places : ℕ → Pc
places =
    update
      (update (update (update (update (λ _. idle) 0 at_read) 0 reading) 1 asleep_write) 2 at_read) 2
      asleep_read

abbrev behind_writer : System
behind_writer = record {
  lock = record { reader_count = 1; writer_count = 1; writer_writing = false };
  pc = places;
}

behind_writer-Reach : Reach 3 behind_writer
unfolding initialize reader_lock writer_arrives writer_lock
behind_writer-Reach =
    later
      (later
        (later
          (later (later start (ask_read 0 (omega arith) refl))
            (read_enters 0 (omega arith) refl refl))
          (write_waits 1 (omega arith) refl refl))
        (ask_read 2 (omega arith) refl))
      (read_waits 2 (omega arith) refl refl)

locks-admits_example :
    (count is_writing 3 places ≤ 1)
    × ((ltb 0 (count is_writing 3 places) && ltb 0 (count is_reading 3 places)) ≡ false)
    × (admits (reader_lock behind_writer.lock) ≡ (writers_of 3 places == 0))
    × (admits (writer_lock behind_writer.lock)
        ≡ (count is_reading 3 places + count is_writing 3 places == 0))
locks-admits_example = locks-admits behind_writer-Reach
