-- ===== src/JobShell/Jobs/Find.antt =====
-- The search of lab_shell/shell/eval.c for the job of a process.
use cs.Base.{
  ℕ, zero, suc, ◌<◌, ◌≡◌, refl, ap, Option, none, some, [], ◌∷◌, ◌++◌, arith, ◌==◌, if◌then◌else◌,
  Bool-cases, inl, inr, length,
}
use cs.JobShell.Jobs.{Ptr, null, Heap, ok, find_loop}
use cs.JobShell.Jobs.Segments.{Cell, Cells, Seg, nil, cons, not_null, load-Holds}

-- The cells before and behind the first that has the process, if there is one.
unfoldable pub before : ℕ → Cells → Cells
before pid [] = []
before pid (c ∷ cs) = if c.job.pid == pid then [] else c ∷ before pid cs

unfoldable pub behind : ℕ → Cells → Cells
behind pid [] = []
behind pid (c ∷ cs) = if c.job.pid == pid then cs else behind pid cs

unfoldable pub find : ℕ → Cells → Option Cell
find pid [] = none
find pid (c ∷ cs) = if c.job.pid == pid then some c else find pid cs

abbrev pub addr : Option Cell → Ptr
addr none = null
addr (some c) = c.addr

pub find_split :
    (pid : ℕ) (cs : Cells) (c : Cell)
    → find pid cs ≡ some c
    → cs ≡ before pid cs ++ c ∷ behind pid cs
unfolding find before behind
find_split pid [] c h = cc
find_split pid (d ∷ ds) c h = elim (Bool-cases (d.job.pid == pid)) [
  | inl hit ↦ rw hit (cc (rw hit at h))
  | inr miss ↦ rw miss (ap (λ l. d ∷ l) (find_split pid ds c (rw miss at h)))
]

pub find_loop-find :
    (pid k : ℕ) {h : Heap} {a p l : Ptr} {cs : Cells}
    → Seg h a p cs l null
    → length cs < k
    → find_loop pid k p h ≡ ok (addr (find pid cs))
unfolding find_loop find
find_loop-find pid zero s enough = absurd (omega arith)
find_loop-find pid (suc k) nil enough = refl
find_loop-find pid (suc k) (cons {j} e s) enough =
    rw (not_null e, load-Holds e)
      (elim (Bool-cases (j.pid == pid)) [
        | inl hit ↦ rw hit refl
        | inr miss ↦ rw miss (find_loop-find pid k s (omega arith))
      ])
