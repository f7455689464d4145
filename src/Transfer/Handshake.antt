-- ===== src/Transfer/Handshake.antt =====
-- The request of c.c, the answer of s.c to it, and what the client makes of the answer. `stat`, and
-- what printf and scanf do with a long, are arguments. An array of chars that is too short for what
-- scanf reads is a fault.
use mathlib.Core.Option
use cs.Base.{
  ℕ, ◌^◌, ◌<◌, ◌≤◌, ◌≡◌, ◌≢◌, refl, Bool, false, ◌&&◌, ◌||◌, Option, none, some, [], ◌∷◌, ◌++◌,
  ◌==◌, ltb, leb, if◌then◌else◌, take, length, Bytes, codes, eq_bytes, eq_bytes_refl, arith,
  length-append, lt→ltb, take-end, ap, Option-cases, inl, inr,
}

-- What `isspace` says.
unfoldable pub is_space : ℕ → Bool
is_space b = (b == 32) || (leb 9 b && leb b 13)

unfoldable pub skip_spaces : Bytes → Bytes
unfolding is_space
skip_spaces [] = []
skip_spaces (b ∷ bs) = if is_space b then skip_spaces bs else b ∷ bs

-- The bytes up to the first space, and the rest.
unfoldable pub word : Bytes → Bytes × Bytes
unfolding is_space
word [] = ([], [])
word (b ∷ bs) = let rest = word bs in if is_space b then ([], b ∷ bs) else (b ∷ rest.0, rest.1)

-- `%s` into an array of `n` chars: at the end of the text, a word and the rest, or a word that is
-- too long.
pub data Scanned : Type 0 where
  missing : Scanned
  scanned : Bytes → Bytes → Scanned
  too_long : Scanned

abbrev pub to_array : ℕ → Bytes → Bytes → Scanned
to_array n [] rest = missing
to_array n (b ∷ bs) rest = if ltb (length (b ∷ bs)) n then scanned (b ∷ bs) rest else too_long

unfoldable pub scan_word : ℕ → Bytes → Scanned
unfolding word skip_spaces
scan_word n text = let (w, rest) = word (skip_spaces text) in to_array n w rest

-- `%ld`, printed and scanned.
pub record Numbers : Type 0 where
  pub print_long : ℕ → Bytes
  pub scan_long : Bytes → Option ℕ

pub data Request : Type 0 where
  send : Bytes → Request
  invalid : Request
  fault : Request

-- `sscanf(request, "%s %s", command, filename)` and the comparison with "SEND".
unfoldable pub parse_request : Bytes → Request
parse_request request = elim (scan_word 10 request) [
  | missing ↦ invalid
  | too_long ↦ fault
  | scanned command rest ↦ elim (scan_word 100 rest) [
    | missing ↦ invalid
    | too_long ↦ fault
    | scanned name _ ↦ if eq_bytes command (codes "SEND") then send name else invalid
  ]
]

-- `snprintf` into 256 chars.
unfoldable pub clip : Bytes → Bytes
clip text = take 255 text

unfoldable pub make_request : Bytes → Bytes
make_request name = clip (codes "SEND" ++ 32 ∷ name)

unfoldable pub ok_response : Numbers → Bytes → ℕ → Bytes
ok_response num name size = clip (codes "OK" ++ 32 ∷ (name ++ 32 ∷ num.print_long size))

abbrev pub info : Numbers → Bytes → Option ℕ → Bytes
info num name none = codes "ERROR: File not found"
info num name (some size) = ok_response num name size

abbrev pub respond : Numbers → (Bytes → Option ℕ) → Request → Option Bytes
respond num stat (send name) = some (info num name (stat name))
respond num stat invalid = some (codes "ERROR: Invalid request format. Use: SEND filename")
respond num stat fault = none

-- The answer, or none at a fault.
unfoldable pub answer : Numbers → (Bytes → Option ℕ) → Bytes → Option Bytes
answer num stat request = respond num stat (parse_request request)

pub data Answer : Type 0 where
  accepted : ℕ → Answer
  refused : Answer
  overrun : Answer

-- `sscanf(response, "%s %s %ld", ...)` and the comparison with "OK".
unfoldable pub parse_response : Numbers → Bytes → Answer
parse_response num response = elim (scan_word 10 response) [
  | missing ↦ refused
  | too_long ↦ overrun
  | scanned status rest ↦ elim (scan_word 100 rest) [
    | missing ↦ refused
    | too_long ↦ overrun
    | scanned _ rest2 ↦ elim (num.scan_long rest2) [
      | none ↦ refused
      | some size ↦ if eq_bytes status (codes "OK") then accepted size else refused
    ]
  ]
]

-- Without a space.
abbrev pub IsWord : Bytes → Type 0
IsWord [] = Unit
IsWord (b ∷ bs) = (is_space b ≡ false) × IsWord bs

word-all : (w : Bytes) → IsWord w → word w ≡ (w, [])
unfolding word
word-all [] h = refl
word-all (b ∷ w) h = rw (h.0, word-all w h.1)

word-space : (w rest : Bytes) → IsWord w → word (w ++ 32 ∷ rest) ≡ (w, 32 ∷ rest)
unfolding word is_space
word-space [] rest h = refl
word-space (b ∷ w) rest h = rw (h.0, word-space w rest h.1)

-- A word behind a space, before the end or another space.
scan_word-all :
    (n : ℕ) (w : Bytes) → IsWord w → w ≢ [] → length w < n → scan_word n (32 ∷ w) ≡ scanned w []
unfolding scan_word skip_spaces is_space
scan_word-all n [] h some_byte fits = absurd (some_byte refl)
scan_word-all n (b ∷ w) h some_byte fits =
    rw (scan_word, skip_spaces, h.0, word, h.0, word-all w h.1, lt→ltb (length (b ∷ w)) n fits)

-- A word before a space, behind a space or not.
scan_word-first :
    (n : ℕ) (w rest : Bytes)
    → IsWord w
    → w ≢ []
    → length w < n
    → scan_word n (w ++ 32 ∷ rest) ≡ scanned w (32 ∷ rest)
unfolding scan_word skip_spaces is_space
scan_word-first n [] rest h some_byte fits = absurd (some_byte refl)
scan_word-first n (b ∷ w) rest h some_byte fits =
    rw (
      scan_word,
      skip_spaces,
      h.0,
      word,
      h.0,
      word-space w rest h.1,
      lt→ltb (length (b ∷ w)) n fits,
    )

scan_word-space : (n : ℕ) (text : Bytes) → scan_word n (32 ∷ text) ≡ scan_word n text
unfolding scan_word skip_spaces is_space
scan_word-space n text = refl

clip-short : (text : Bytes) → length text ≤ 255 → clip text ≡ text
unfolding clip
clip-short text h = take-end 255 text h

-- A name that the request can carry, and what is relied on of `%ld`.
abbrev pub IsName : Bytes → Type 0
IsName name = (name ≢ []) × IsWord name × (length name < 100)

pub record AreInverse (num : Numbers) : Type 0 where
  pub scan-print : (n : ℕ) → n < 2 ^ 63 → num.scan_long (32 ∷ num.print_long n) ≡ some n
  pub short : (n : ℕ) → n < 2 ^ 63 → length (num.print_long n) ≤ 19

send-IsWord : IsWord (codes "SEND")
unfolding is_space
send-IsWord = (refl, (refl, (refl, (refl, tt))))

ok-IsWord : IsWord (codes "OK")
unfolding is_space
ok-IsWord = (refl, (refl, tt))

parse_request-name : (name : Bytes) → IsName name → parse_request (make_request name) ≡ send name
unfolding parse_request make_request
parse_request-name name is = rw (
  clip-short (codes "SEND" ++ 32 ∷ name) (omega (arith, is.2)),
  parse_request,
  scan_word-first 10 (codes "SEND") name send-IsWord (λ e. cc) (omega arith),
  scan_word-all 100 name is.1 is.0 is.2,
  eq_bytes_refl (codes "SEND"),
)

parse_response-ok :
    (num : Numbers) (name : Bytes) (size : ℕ)
    → AreInverse num
    → IsName name
    → size < 2 ^ 63
    → parse_response num (ok_response num name size) ≡ accepted size
unfolding parse_response ok_response
parse_response-ok num name size inv is long =
    let rest = name ++ 32 ∷ num.print_long size in
    let fits = length-append name (32 ∷ num.print_long size) in
    let few = inv.short size long in
    rw (
      clip-short (codes "OK" ++ 32 ∷ rest) (omega (arith, is.2)),
      parse_response,
      scan_word-first 10 (codes "OK") rest ok-IsWord (λ e. cc) (omega arith),
      scan_word-space 100 rest,
      scan_word-first 100 name (num.print_long size) is.1 is.0 is.2,
      inv.scan-print size long,
      eq_bytes_refl (codes "OK"),
    )

-- An answer that does not begin with OK, whatever stands behind its second word.
parse_response-refused :
    (num : Numbers) (status name rest : Bytes)
    → IsWord status × (status ≢ []) × (length status < 10)
    → IsName name
    → eq_bytes status (codes "OK") ≡ false
    → parse_response num (status ++ 32 ∷ (name ++ 32 ∷ rest)) ≡ refused
unfolding parse_response
parse_response-refused num status name rest s is other =
    elim (Option-cases (num.scan_long (32 ∷ rest))) [
      | inl e ↦ rw (
        parse_response,
        scan_word-first 10 status (name ++ 32 ∷ rest) s.0 s.1 s.2,
        scan_word-space 100 (name ++ 32 ∷ rest),
        scan_word-first 100 name rest is.1 is.0 is.2,
        e,
      )
      | inr (n, e) ↦ rw (
        parse_response,
        scan_word-first 10 status (name ++ 32 ∷ rest) s.0 s.1 s.2,
        scan_word-space 100 (name ++ 32 ∷ rest),
        scan_word-first 100 name rest is.1 is.0 is.2,
        e,
        other,
      )
    ]

abbrev pub IsLong : Option ℕ → Type 0
IsLong none = Unit
IsLong (some size) = size < 2 ^ 63

abbrev pub told : Option ℕ → Answer
told none = refused
told (some size) = accepted size

-- The answer of the server to a client.
abbrev pub answered : Numbers → (Bytes → Option ℕ) → Bytes → Option Answer
answered num stat name = Option.map (parse_response num) (answer num stat (make_request name))

not_found-refused : (num : Numbers) → parse_response num (codes "ERROR: File not found") ≡ refused
unfolding is_space eq_bytes
not_found-refused num =
    parse_response-refused num (codes "ERROR:") (codes "File") (codes "not found")
      ((refl, (refl, (refl, (refl, (refl, (refl, tt)))))), (λ e. cc), omega arith)
      ((λ e. cc), (refl, (refl, (refl, (refl, tt)))), omega arith) refl

-- When `%ld` scans what it prints, a client that asks for a file, by a name of 1 to 99 bytes without
-- spaces, is told the size that the server finds, if that is a long, and is refused if the server
-- does not find the file; neither end writes beyond an array.
pub answered-stat :
    (num : Numbers) (stat : Bytes → Option ℕ) (name : Bytes) (o : Option ℕ)
    → AreInverse num
    → IsName name
    → stat name ≡ o
    → IsLong o
    → answered num stat name ≡ some (told o)
unfolding answer
answered-stat num stat name none inv is e long =
    rw (answer, parse_request-name name is, e) (ap some (not_found-refused num))
answered-stat num stat name (some size) inv is e long =
    rw (answer, parse_request-name name is, e)
      (ap some (parse_response-ok num name size inv is long))
