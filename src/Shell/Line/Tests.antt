-- ===== src/Shell/Line/Tests.antt =====
-- Lines, read by lab_shell/my_shell.c.
use cs.Base.{
  ℕ, zero, suc, ◌≡◌, refl, ap, List, [], ◌∷◌, ◌++◌, Option, none, some, Bytes, eq_bytes, map, arith,
  replicate, length,
}
use cs.Shell.Line.{
  run, pipeline, overrun, split_loop, split_token, is_separator, tokenize, run_line, and_token,
  bar_token,
}
use cs.Shell.Line.Tokens.{
  Piece, ArePieces, IsWord, render, words, tokenize-render, tokenize-long_word,
}
use cs.Shell.Line.Commands.{joined, IsCommand, pipe_of, run_line-joined}

abbrev ls : Bytes
ls = b'l' ∷ b's' ∷ []

abbrev wc : Bytes
wc = b'w' ∷ b'c' ∷ []

abbrev pieces : List Piece
pieces =
    record { word = ls; separator = 32 }
    ∷ record { word = []; separator = 32 }
    ∷ record { word = wc; separator = 10 }
    ∷ []

pieces_are : ArePieces pieces
unfolding is_separator
pieces_are = (
  ((refl, (refl, tt)), refl, omega arith),
  ((tt, refl, omega arith), (((refl, (refl, tt)), refl, omega arith), tt)),
)

tokenize-render_example : tokenize (render pieces) ≡ some (words pieces)
tokenize-render_example = tokenize-render pieces pieces_are (omega arith)

abbrev long_word : Bytes
long_word = replicate 64 b'a'

letters_IsWord : (n : ℕ) → IsWord (replicate n b'a')
unfolding is_separator
letters_IsWord zero = tt
letters_IsWord (suc n) = (refl, letters_IsWord n)

long_IsWord : IsWord long_word
long_IsWord = letters_IsWord 64

tokenize-long_word_example : tokenize (render pieces ++ (long_word ++ (b'a' ∷ 10 ∷ []))) ≡ none
tokenize-long_word_example =
    tokenize-long_word pieces long_word b'a' (10 ∷ []) pieces_are long_IsWord refl (omega arith)

ls-IsCommand : IsCommand (ls ∷ [])
unfolding cs.Base.eq_bytes
ls-IsCommand = ((refl, refl), tt)

wc-IsCommand : IsCommand (wc ∷ [])
unfolding cs.Base.eq_bytes
wc-IsCommand = ((refl, refl), tt)

run_line-joined_example :
    (run_line (joined and_token ((ls ∷ []) ∷ []) (wc ∷ [])) ≡ run (ls ∷ []) ∷ run (wc ∷ []) ∷ [])
    × (run_line (joined bar_token ((ls ∷ []) ∷ []) (wc ∷ []))
        ≡ pipe_of ((ls ∷ []) ∷ (wc ∷ []) ∷ []) ∷ [])
run_line-joined_example =
    run_line-joined (ls ∷ []) [] (wc ∷ []) ls-IsCommand tt wc-IsCommand (omega arith)

sixty_three_bars : run_line (replicate 63 bar_token) ≡ overrun ∷ []
unfolding run_line split_loop split_token eq_bytes
sixty_three_bars = refl

sixty_two_bars : run_line (replicate 62 bar_token) ≡ pipeline (replicate 63 []) ∷ []
unfolding run_line split_loop split_token eq_bytes
sixty_two_bars = refl
