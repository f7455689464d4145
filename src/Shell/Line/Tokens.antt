-- ===== src/Shell/Line/Tokens.antt =====
-- The words of a line, and `tokenize` of lab_shell/my_shell.c on them.
use cs.Base.{
  ℕ, ◌+◌, ◌≤◌, ◌<◌, ◌≡◌, refl, ap, ◌∙◌, sym, true, false, none, some, List, [], ◌∷◌, ◌++◌, length,
  Bytes, arith, lt→ltb, le→ltb, length-append,
}
use mathlib.Core.List.{append_assoc, append-nil}
use cs.Shell.Line.{
  max_token_size, max_num_tokens, is_separator, Scan, end_token, scan_byte, tokenize_loop,
  end_tokens, tokenize,
}

-- No byte of a word separates.
abbrev pub IsWord : Bytes → Type 0
IsWord [] = Unit {0}
IsWord (b ∷ bs) = (is_separator b ≡ false) × IsWord bs

-- A line: words that fit in a token, empty ones included, with the separator behind each.
pub record Piece : Type 0 where
  pub word : Bytes
  pub separator : ℕ

abbrev pub IsPiece : Piece → Type 0
IsPiece p = IsWord p.word × (is_separator p.separator ≡ true) × (length p.word < max_token_size)

abbrev pub ArePieces : List Piece → Type 0
ArePieces [] = Unit {0}
ArePieces (p ∷ ps) = IsPiece p × ArePieces ps

abbrev pub render : List Piece → Bytes
render [] = []
render (p ∷ ps) = p.word ++ (p.separator ∷ render ps)

abbrev pub add_word : Bytes → List Bytes → List Bytes
add_word [] ws = ws
add_word (b ∷ bs) ws = (b ∷ bs) ∷ ws

-- The words that are not empty.
abbrev pub words : List Piece → List Bytes
words [] = []
words (p ∷ ps) = add_word p.word (words ps)

tokenize_loop-some :
    (b : ℕ) (bs : Bytes) (s s1 : Scan)
    → scan_byte b s ≡ some s1
    → tokenize_loop (b ∷ bs) s ≡ tokenize_loop bs s1
unfolding tokenize_loop
tokenize_loop-some b bs s s1 e = rw (tokenize_loop, e) refl

tokenize_loop-none :
    (b : ℕ) (bs : Bytes) (s : Scan) → scan_byte b s ≡ none → tokenize_loop (b ∷ bs) s ≡ none
unfolding tokenize_loop
tokenize_loop-none b bs s e = rw (tokenize_loop, e) refl

scan_byte-letter :
    (b : ℕ) (token : Bytes) (tokens : List Bytes)
    → is_separator b ≡ false
    → length token < max_token_size
    → scan_byte b (record { token = token; tokens = tokens })
      ≡ some (record { token = token ++ b ∷ []; tokens = tokens })
unfolding scan_byte
scan_byte-letter b token tokens is room = rw (lt→ltb (length token) max_token_size room, is) refl

end_token-add_word :
    (w : Bytes) (tokens : List Bytes)
    → length tokens < max_num_tokens
    → end_token w tokens ≡ some (record { token = []; tokens = tokens ++ add_word w [] })
unfolding end_token
end_token-add_word [] tokens room = rw (append-nil tokens) refl
end_token-add_word (b ∷ bs) tokens room = rw (lt→ltb (length tokens) max_num_tokens room) refl

scan_byte-separator :
    (b : ℕ) (w : Bytes) (tokens : List Bytes)
    → is_separator b ≡ true
    → length w < max_token_size
    → length tokens < max_num_tokens
    → scan_byte b (record { token = w; tokens = tokens })
      ≡ some (record { token = []; tokens = tokens ++ add_word w [] })
unfolding scan_byte
scan_byte-separator b w tokens is short room =
    rw (lt→ltb (length w) max_token_size short, is) (end_token-add_word w tokens room)

scan_byte-full : (b : ℕ) (s : Scan) → max_token_size ≤ length s.token → scan_byte b s ≡ none
unfolding scan_byte
scan_byte-full b s full = rw (le→ltb (length s.token) max_token_size full) refl

-- Reading a word leaves it in the token.
tokenize_loop-word :
    (w : Bytes) (rest token : Bytes) (tokens : List Bytes)
    → IsWord w
    → length token + length w ≤ max_token_size
    → tokenize_loop (w ++ rest) (record { token = token; tokens = tokens })
      ≡ tokenize_loop rest (record { token = token ++ w; tokens = tokens })
tokenize_loop-word [] rest token tokens is fits = rw (append-nil token) refl
tokenize_loop-word (b ∷ bs) rest token tokens is fits =
    tokenize_loop-some b (bs ++ rest) (record { token = token; tokens = tokens })
      (record { token = token ++ b ∷ []; tokens = tokens })
      (scan_byte-letter b token tokens is.0 (omega arith))
    ∙ tokenize_loop-word bs rest (token ++ b ∷ []) tokens is.1
        (omega (arith, length-append token (b ∷ [])))
    ∙ ap (λ t. tokenize_loop rest (record { token = t; tokens = tokens }))
        (append_assoc token (b ∷ []) bs)

length-add_word :
    (w : Bytes) (ws : List Bytes) → length (add_word w ws) ≡ length (add_word w []) + length ws
length-add_word [] ws = omega arith
length-add_word (b ∷ bs) ws = omega arith

append-add_word :
    (w : Bytes) (tokens ws : List Bytes) → (tokens ++ add_word w []) ++ ws ≡ tokens ++ add_word w ws
append-add_word [] tokens ws = rw (append-nil tokens) refl
append-add_word (b ∷ bs) tokens ws = append_assoc tokens ((b ∷ bs) ∷ []) ws

-- Reading the pieces adds their words, whatever comes next.
tokenize_loop-render :
    (ps : List Piece) (rest : Bytes) (tokens : List Bytes)
    → ArePieces ps
    → length tokens + length (words ps) < max_num_tokens
    → tokenize_loop (render ps ++ rest) (record { token = []; tokens = tokens })
      ≡ tokenize_loop rest (record { token = []; tokens = tokens ++ words ps })
tokenize_loop-render [] rest tokens are room = rw (append-nil tokens) refl
tokenize_loop-render (p ∷ ps) rest tokens are room =
    let size = length-add_word p.word (words ps) in
    ap (λ l. tokenize_loop l (record { token = []; tokens = tokens }))
      (append_assoc p.word (p.separator ∷ render ps) rest)
    ∙ tokenize_loop-word p.word (p.separator ∷ (render ps ++ rest)) [] tokens are.0.0
        (omega (arith, are.0.2))
    ∙ tokenize_loop-some p.separator (render ps ++ rest)
        (record { token = p.word; tokens = tokens })
        (record { token = []; tokens = tokens ++ add_word p.word [] })
        (scan_byte-separator p.separator p.word tokens are.0.1 are.0.2 (omega arith))
    ∙ tokenize_loop-render ps rest (tokens ++ add_word p.word []) are.1
        (omega (arith, length-append tokens (add_word p.word [])))
    ∙ ap (λ ts. tokenize_loop rest (record { token = []; tokens = ts }))
        (append-add_word p.word tokens (words ps))

-- A line of words, empty ones included, each shorter than 64 bytes, without separators and with
-- one behind it, fewer than 64 of them not empty, has as its tokens the words that are not empty,
-- in order.
pub tokenize-render :
    (ps : List Piece)
    → ArePieces ps
    → length (words ps) < max_num_tokens
    → tokenize (render ps) ≡ some (words ps)
unfolding tokenize tokenize_loop end_tokens
tokenize-render ps are room =
    ap tokenize (sym (append-nil (render ps)))
    ∙ ap end_tokens (tokenize_loop-render ps [] [] are (omega arith))
    ∙ rw (lt→ltb (length (words ps)) max_num_tokens room) refl

-- Behind words as tokenize splits them, fewer than 64 of them not empty, a word of 64 bytes with
-- one byte more behind it is written beyond the block of the token.
pub tokenize-long_word :
    (ps : List Piece) (w : Bytes) (b : ℕ) (rest : Bytes)
    → ArePieces ps
    → IsWord w
    → length w ≡ max_token_size
    → length (words ps) < max_num_tokens
    → tokenize (render ps ++ (w ++ (b ∷ rest))) ≡ none
unfolding tokenize tokenize_loop end_tokens
tokenize-long_word ps w b rest are is long room = ap end_tokens (
    tokenize_loop-render ps (w ++ (b ∷ rest)) [] are (omega arith)
    ∙ tokenize_loop-word w (b ∷ rest) [] (words ps) is (omega arith)
    ∙ tokenize_loop-none b rest (record { token = w; tokens = words ps })
        (scan_byte-full b (record { token = w; tokens = words ps }) (omega arith)))
