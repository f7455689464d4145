-- ===== src/Shell/Jobs/Tests.antt =====
-- Three jobs of lab_shell/my_shell.c, of which two end.
use cs.Base.{refl, replicate, [], ◌∷◌, arith}
use cs.Shell.Jobs.{Jobs}
use cs.Shell.Jobs.Removal.{Holds}

abbrev jobs : Jobs
jobs = record { child_process = 11 ∷ 12 ∷ 13 ∷ replicate 61 0; child_process_idx = 3 }

three-Holds : Holds jobs (11 ∷ 12 ∷ 13 ∷ [])
three-Holds = record {
  counted = refl;
  few = omega arith;
  unused = replicate 61 0;
  room = refl;
  stand = refl;
}
