-- ===== src/Shell/Line/Slots.antt =====
-- When the loop of `main` in lab_shell/my_shell.c stays within `command` and `pipe_commands`.
use cs.Base.{
  subst, ℕ, ◌+◌, ◌<◌, ◌≡◌, inl, inr, Bool, true, false, Option, none, some, List, [], ◌∷◌, length,
  length-append, if◌then◌else◌, ltb, Bool-cases, arith, Bytes, eq_bytes,
}
use cs.Shell.Line.{
  max_num_tokens, tokenize, Scan, tokenize_loop, end_tokens, Action, run, overrun, Split, and_token,
  bar_token, fits, fits_end, last_action, split_token, split_loop, run_line,
}

-- No write goes beyond `command` or `pipe_commands`.
abbrev pub IsWithin : Action → Type 0
IsWithin overrun = ⊥
IsWithin _ = Unit

abbrev pub AreWithin : List Action → Type 0
AreWithin [] = Unit
AreWithin (a ∷ actions) = IsWithin a × AreWithin actions

abbrev pub bars : List Bytes → ℕ
bars [] = 0
bars (t ∷ ts) = if eq_bytes t bar_token then bars ts + 1 else bars ts

last_action-IsWithin : (s : Split) → IsWithin (last_action s)
last_action-IsWithin s = elim (Bool-cases s.pipe_command) [
  | inl pipe ↦ rw pipe tt
  | inr single ↦ rw single tt
]

token-AreWithin :
    (fit both : Bool) (command : List Bytes) (rest : List Action)
    → fit ≡ true
    → AreWithin rest
    → AreWithin (if fit then (if both then run command ∷ rest else rest) else overrun ∷ [])
token-AreWithin true true command rest h w = (tt, w)
token-AreWithin true false command rest h w = w
token-AreWithin false both command rest h w = absurd (cc)

split_loop-AreWithin :
    (ts : List Bytes) (s : Split)
    → length s.command + length s.pipe_commands + length ts < max_num_tokens
    → length s.pipe_commands + bars ts < 63
    → AreWithin (split_loop ts s)
unfolding split_loop split_token
split_loop-AreWithin [] s few room =
    let slots : fits_end s ≡ true = ground (arith, few, room) in
    rw slots (last_action-IsWithin s, tt)
split_loop-AreWithin (t ∷ ts) s few room =
    let slots : fits t s ≡ true = ground (arith, few, room) in
    let pipes = length-append s.pipe_commands (s.command ∷ []) in
    let words = length-append s.command (t ∷ []) in
    let rest =
      split_loop-AreWithin ts (split_token t s) (ground (arith, few, pipes, words))
        (ground (arith, room, pipes)) in
    token-AreWithin (fits t s) (eq_bytes t and_token) s.command (split_loop ts (split_token t s))
      slots rest

end_tokens-few :
    (o : Option Scan) (ts : List Bytes) → end_tokens o ≡ some ts → length ts < max_num_tokens
unfolding end_tokens
end_tokens-few none ts e = absurd (cc)
end_tokens-few (some s) ts e = elim (Bool-cases (ltb (length s.tokens) max_num_tokens)) [
  | inl few ↦
      let same : some s.tokens ≡ some ts = rw few at e in
      let tokens : s.tokens ≡ ts = cc in
      subst (λ xs. length xs < max_num_tokens) tokens (ground (arith, few))
  | inr many ↦ absurd (let never : none ≡ some ts = rw many at e in cc)
]

-- A line of at most 62 bars.
pub run_line-AreWithin :
    (line : Bytes) (ts : List Bytes)
    → tokenize line ≡ some ts
    → bars ts < 63
    → AreWithin (run_line ts)
unfolding tokenize run_line
run_line-AreWithin line ts e room =
    split_loop-AreWithin ts (record { command = []; pipe_commands = []; pipe_command = false })
      (omega (arith, end_tokens-few (tokenize_loop line (record { token = []; tokens = [] })) ts e))
      (omega (arith, room))
