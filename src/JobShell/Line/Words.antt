-- ===== src/JobShell/Line/Words.antt =====
-- The words of a line, and `splitCommandIntoTokens` of lab_shell/shell/helper.c on them.
use cs.Base.{
  ℕ, zero, suc, ◌+◌, ◌<◌, ◌≤◌, ◌≡◌, refl, sym, ap, ◌∙◌, subst, inl, inr, true, false, none, some,
  List, [], ◌∷◌, ◌++◌, arith, ◌==◌, if◌then◌else◌, Bool-cases, Option-cases, lt→ltb, length,
  length-append, Bytes,
}
use mathlib.Core.List.{append_assoc, append-nil}
use cs.JobShell.Line.{
  space, take_token, next_token, Tokens, grow, push_token, split_loop, end_array,
  split_command_into_tokens,
}

abbrev pub add_word : Bytes → List Bytes → List Bytes
add_word [] ws = ws
add_word (b ∷ bs) ws = (b ∷ bs) ∷ ws

-- The word that a line begins with, and the words behind it.
abbrev pub scan : Bytes → Bytes × List Bytes
scan [] = ([], [])
scan (b ∷ bs) =
    if b == space then ([], add_word (scan bs).0 (scan bs).1) else (b ∷ (scan bs).0, (scan bs).1)

-- The parts of a line between spaces that are not empty.
abbrev pub words : Bytes → List Bytes
words c = add_word (scan c).0 (scan c).1

words-space : (b : ℕ) (bs : Bytes) → (b == space) ≡ true → words (b ∷ bs) ≡ words bs
words-space b bs e = rw e refl

scan-take_token : (c : Bytes) → scan c ≡ ((take_token c).0, words (take_token c).1)
unfolding take_token
scan-take_token [] = refl
scan-take_token (b ∷ bs) = elim (Bool-cases (b == space)) [
  | inl blank ↦ rw blank refl
  | inr letter ↦ rw (letter, scan-take_token bs) refl
]

length-take_token : (c : Bytes) → length (take_token c).1 ≤ length c
unfolding take_token
length-take_token [] = omega arith
length-take_token (b ∷ bs) = ground (arith, length-take_token bs)

-- The first word, and what is left.
record First (c : Bytes) (w rest : Bytes) : Type 0 where
  words_are : words c ≡ w ∷ words rest
  shorter : length rest < length c

take_token-First :
    (b : ℕ) (bs : Bytes)
    → (b == space) ≡ false
    → First (b ∷ bs) (take_token (b ∷ bs)).0 (take_token (b ∷ bs)).1
unfolding take_token
take_token-First b bs letter = rw letter (record {
  words_are = rw (letter, scan-take_token bs) refl;
  shorter = omega (arith, length-take_token bs);
})

next_token-First : (c w rest : Bytes) → next_token c ≡ some (w, rest) → First c w rest
unfolding next_token
next_token-First [] w rest e = cc
next_token-First (b ∷ bs) w rest e = elim (Bool-cases (b == space)) [
  | inl blank ↦
      let f = next_token-First bs w rest (rw blank at e) in
      record {
        words_are = words-space b bs blank ∙ f.words_are;
        shorter = omega (arith, f.shorter);
      }
  | inr letter ↦
      let same : ◌≡◌ {A = Bytes × Bytes} (take_token (b ∷ bs)) (w, rest) = cc (rw letter at e) in
      subst (λ p. First (b ∷ bs) p.0 p.1) same (take_token-First b bs letter)
]

next_token-none : (c : Bytes) → next_token c ≡ none → words c ≡ []
unfolding next_token
next_token-none [] e = refl
next_token-none (b ∷ bs) e = elim (Bool-cases (b == space)) [
  | inl blank ↦ words-space b bs blank ∙ next_token-none bs (rw blank at e)
  | inr letter ↦ cc (rw letter at e)
]

-- The array holds what was split, with room for one more once it has grown.
record Fits (t : Tokens) : Type 0 where
  inside : length t.tokens ≤ t.capacity
  some_room : 0 < t.capacity

grow-room : (t : Tokens) → Fits t → length t.tokens < (grow t).capacity
unfolding grow
grow-room t f = ground (arith, f.inside, f.some_room)

tokens-grow : (t : Tokens) → (grow t).tokens ≡ t.tokens
unfolding grow
tokens-grow t = ground arith

push_token-grow :
    (w : Bytes) (t : Tokens)
    → Fits t
    → (u : Tokens) × (push_token w (grow t) ≡ some u) × Fits u × (u.tokens ≡ t.tokens ++ w ∷ [])
unfolding push_token
push_token-grow w t f =
    let room = grow-room t f in
    (
      record { tokens = t.tokens ++ w ∷ []; capacity = (grow t).capacity },
      rw (tokens-grow t, lt→ltb (length t.tokens) (grow t).capacity room) refl,
      record {
        inside = omega (arith, room, length-append t.tokens (w ∷ []));
        some_room = omega (arith, room);
      },
      refl,
    )

split_loop-words :
    (k : ℕ) (rest : Bytes) (t : Tokens)
    → Fits t
    → length rest < k
    → (u : Tokens) × (split_loop k rest t ≡ some u) × Fits u × (u.tokens ≡ t.tokens ++ words rest)
unfolding split_loop
split_loop-words zero rest t f enough = absurd (omega arith)
split_loop-words (suc k) rest t f enough = elim (Option-cases (next_token rest)) [
  | inl end ↦
      rw (split_loop, end) (t, refl, f, rw (next_token-none rest end, append-nil t.tokens) refl)
  | inr ((w, rest1), found) ↦
      let first = next_token-First rest w rest1 found in
      let (u, pushed, g, is) = push_token-grow w t f in
      let (z, runs, fz, all) = split_loop-words k rest1 u g (omega (arith, first.shorter)) in
      rw (split_loop, found, pushed)
        (
          z,
          runs,
          fz,
          all
              ∙ ap (λ ts. ts ++ words rest1) is
              ∙ append_assoc t.tokens (w ∷ []) (words rest1)
              ∙ ap (λ ws. t.tokens ++ ws) (sym first.words_are),
        )
]

-- Every line is split into the parts between its spaces that are not empty, in order, within the
-- array, however often that grows.
pub split_command_into_tokens-words : (c : Bytes) → split_command_into_tokens c ≡ some (words c)
unfolding split_command_into_tokens end_array
split_command_into_tokens-words c =
    let (u, runs, f, is) =
      split_loop-words (length c + 1) c (record { tokens = []; capacity = 10 })
        (record { inside = omega arith; some_room = omega arith }) (omega arith) in
    rw runs (ground (arith, f.inside, is))
