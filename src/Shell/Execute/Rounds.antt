-- ===== src/Shell/Execute/Rounds.antt =====
-- A round of the loop of main in lab_shell/my_shell.c returns, and what it makes of the jobs.
use cs.Base.{ℕ, ◌+◌, ◌≡◌, true, Option, some, List, [], ◌∷◌, codes, eq_bytes}
use cs.Shell.Jobs.{Jobs}
use cs.Shell.Line.{Action, run, pipeline, overrun}
use cs.Shell.Execute.{Kernel, Effect, cat, Outcome}

abbrev Returns : Option Outcome → Type 0
Returns o = (r : Outcome) × (o ≡ some r)

-- Each cat among the actions ends.
abbrev pub CatEnds : ℕ → Kernel → Action → Type 0
CatEnds fuel k (run []) = Unit
CatEnds fuel k (run (name ∷ args)) =
    eq_bytes name (codes "cat") ≡ true → (es : List Effect) × (cat fuel k args ≡ some es)
CatEnds fuel k (pipeline commands) = Unit
CatEnds fuel k overrun = Unit

abbrev pub CatsEnd : ℕ → (ℕ → Kernel) → ℕ → List Action → Type 0
CatsEnd fuel kernels i [] = Unit
CatsEnd fuel kernels i (a ∷ actions) =
    CatEnds fuel (kernels i) a × CatsEnd fuel kernels (i + 1) actions
