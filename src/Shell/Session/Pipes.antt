-- ===== src/Shell/Session/Pipes.antt =====
-- What main of temp.c frees at the end of a round.
use cs.Base.{
  ℕ, ◌≡◌, refl, ◌∙◌, inl, inr, Bool, true, false, ◌||◌, none, some, List, [], ◌∷◌, ◌++◌,
  if◌then◌else◌, Bool-cases, arith, Bytes, eq_bytes,
}
use cs.Shell.Jobs.{reap}
use cs.Shell.Line.{tokenize, run_line, bar_token}
use cs.Shell.Session.{
  Shell, Turn, Input, is_freed, free_all, Blocks, array_block, first_blocks, block_token,
  block_loop, round_frees, run_actions, remember, main_round,
}

abbrev pub has_bar : List Bytes → Bool
has_bar [] = false
has_bar (t ∷ ts) = eq_bytes t bar_token || has_bar ts

-- A block that is freed is not to be freed again.
free_all-again :
    (a b : ℕ) (freed bs : List ℕ)
    → is_freed b freed ≡ true
    → free_all freed (bs ++ (a ∷ b ∷ [])) ≡ none
unfolding free_all is_freed
free_all-again a b freed [] h = ground (arith, h)
free_all-again a b freed (c ∷ bs) h = elim (Bool-cases (is_freed c freed)) [
  | inl twice ↦ rw (free_all, twice)
  | inr once ↦ rw (free_all, once) (free_all-again a b (c ∷ freed) bs (ground (arith, h)))
]

free_all-twice :
    (a b : ℕ) (freed bs : List ℕ) → free_all freed ((bs ++ b ∷ []) ++ (a ∷ b ∷ [])) ≡ none
unfolding free_all is_freed
free_all-twice a b freed [] = elim (Bool-cases (is_freed b freed)) [
  | inl twice ↦ rw (free_all, twice)
  | inr once ↦ ground (arith, once)
]
free_all-twice a b freed (c ∷ bs) = elim (Bool-cases (is_freed c freed)) [
  | inl twice ↦ rw (free_all, twice)
  | inr once ↦ rw (free_all, once) (free_all-twice a b (c ∷ freed) bs)
]

block_loop-pipe :
    (ts : List Bytes) (b : Blocks) → (block_loop ts b).pipe_command ≡ (b.pipe_command || has_bar ts)
unfolding block_loop eq_bytes
block_loop-pipe [] b = ground arith
block_loop-pipe (t ∷ ts) b = elim (Bool-cases (eq_bytes t bar_token)) [
  | inl bar ↦ rw (block_loop, bar) (block_loop-pipe ts (block_token bar_token b) ∙ ground arith)
  | inr other ↦ rw (block_loop, other) (block_loop-pipe ts b)
]

block_loop-plain : (ts : List Bytes) (b : Blocks) → has_bar ts ≡ false → block_loop ts b ≡ b
unfolding block_loop
block_loop-plain [] b h = refl
block_loop-plain (t ∷ ts) b h =
    let plain : eq_bytes t bar_token ≡ false = ground (arith, h) in
    rw plain (block_loop-plain ts b (ground (arith, h)))

round_frees-pipe : (ts : List Bytes) → has_bar ts ≡ true → free_all [] (round_frees ts) ≡ none
unfolding round_frees
round_frees-pipe ts h =
    let b = block_loop ts first_blocks in
    let pipe : b.pipe_command ≡ true = block_loop-pipe ts first_blocks ∙ h in
    rw pipe (free_all-twice array_block b.command [] b.pipe_commands)

round_frees-plain :
    (ts : List Bytes) → has_bar ts ≡ false → free_all [] (round_frees ts) ≡ some (0 ∷ 1 ∷ [])
unfolding round_frees free_all is_freed
round_frees-plain ts h = rw (block_loop-plain ts first_blocks h) refl

-- When the line of a round has the tokens ts, and its commands are run to a turn t, with no fault in them, the
-- round ends in t if that ends the shell; otherwise it ends in t if no token is |, and if one is, a block is freed
-- twice.
pub main_round-frees :
    (opens : Bytes → Bool) (i : Input) (s : Shell) (ts : List Bytes) (t : Turn)
    → tokenize i.line ≡ some ts
    → run_actions opens i.kernels 0
        (run_line ts)
        (record { history = remember i.line s.history; jobs = reap i.pids s.jobs })
      ≡ some t
    → main_round opens i s ≡ (if t.is_over then some t else if has_bar ts then none else some t)
unfolding main_round
main_round-frees opens i s ts t e ran = elim (Bool-cases t.is_over) [
  | inl over ↦ rw (main_round, e, ran, over) refl
  | inr on ↦ elim (Bool-cases (has_bar ts)) [
    | inl bar ↦ rw (main_round, e, ran, on, bar, round_frees-pipe ts bar) refl
    | inr plain ↦ rw (main_round, e, ran, on, plain, round_frees-plain ts plain) refl
  ]
]
