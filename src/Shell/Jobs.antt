-- ===== src/Shell/Jobs.antt =====
-- The background jobs of lab_shell/my_shell.c: `child_process`, `child_process_idx`, and the loop
-- of `main` that takes out the children that have ended.
pub mod Removal
mod Tests
use cs.Base.{
  ℕ, zero, suc, ◌+◌, ◌-◌, ◌%◌, ◌^◌, Bool, List, [], ◌∷◌, ◌==◌, ltb, if◌then◌else◌, get_or, set,
}

-- `child_process_idx` as its bit pattern.
pub record Jobs : Type 0 where
  pub child_process : List ℕ
  pub child_process_idx : ℕ

-- How often a loop from 0 to an index runs: not at all when that is negative.
unfoldable pub rounds : ℕ → ℕ
rounds n = if ltb n (2 ^ 31) then n else 0

-- `n` rounds of `child_process[j] = child_process[j + 1]`
unfoldable pub shift_loop : ℕ → ℕ → List ℕ → List ℕ
shift_loop zero j slots = slots
shift_loop (suc n) j slots = shift_loop n (j + 1) (set slots j (get_or slots (j + 1) 0))

-- The loop over `i`, with `n` rounds left: an entry that has `n - 1` others behind it.
unfoldable pub remove_loop : ℕ → ℕ → ℕ → List ℕ → List ℕ
unfolding shift_loop
remove_loop pid zero i slots = slots
remove_loop pid (suc n) i slots =
    let shifted = shift_loop n i slots in
    let rest = remove_loop pid n (i + 1) slots in if get_or slots i 0 == pid then shifted else rest

unfoldable pub update_child_process_array : ℕ → Jobs → Jobs
unfolding remove_loop rounds
update_child_process_array pid jobs = record {
  child_process = remove_loop pid (rounds jobs.child_process_idx) 0 jobs.child_process;
  child_process_idx = (jobs.child_process_idx + (2 ^ 32 - 1)) % 2 ^ 32;
}

-- The children that `waitpid` gives before it gives none.
unfoldable pub reap : List ℕ → Jobs → Jobs
unfolding update_child_process_array
reap [] jobs = jobs
reap (pid ∷ pids) jobs = reap pids (update_child_process_array pid jobs)
