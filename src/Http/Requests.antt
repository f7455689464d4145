-- ===== src/Http/Requests.antt =====
-- What prac/network/q2/simple-webserver/http_server.cpp reads of a request: the words of its first line.
use mathlib.Core.List.{append_assoc, append-nil}
use cs.Base.{
  ℕ, ◌≡◌, refl, ap, ◌∙◌, true, inl, inr, List, [], ◌∷◌, ◌++◌, arith, ◌==◌, if◌then◌else◌,
  Bool-cases, ne→==, Bytes, codes, Lacks,
}
use cs.Http.{push_item, split_loop, split, parsed, get, http_request, eoh, is_prefix, has_eoh}

-- The bytes before the first `d`.
upto : ℕ → Bytes → Bytes
upto d [] = []
upto d (b ∷ bs) = let rest = upto d bs in if b == d then [] else b ∷ rest

upto-append : (d : ℕ) (xs ys : Bytes) → Lacks d xs → upto d (xs ++ ys) ≡ xs ++ upto d ys
unfolding upto
upto-append d [] ys h = refl
upto-append d (x ∷ xs) ys h = rw (ne→== x d h.0, upto-append d xs ys h.1)

-- The item that has begun goes on to the next delimiter.
split_loop-item :
    (d b : ℕ) (item xs : Bytes)
    → (rest : List Bytes) × (split_loop d (b ∷ item) xs ≡ (b ∷ item ++ upto d xs) ∷ rest)
unfolding split_loop push_item upto
split_loop-item d b item [] = ([], rw append-nil)
split_loop-item d b item (c ∷ xs) = elim (Bool-cases (c == d)) [
  | inl e ↦ (split_loop d [] xs, rw e (rw append-nil))
  | inr e ↦
      let (rest, more) = split_loop-item d b (item ++ c ∷ []) xs in
      (rest, rw e (more ∙ ap (λ l. (b ∷ l) ∷ rest) (append_assoc item (c ∷ []) (upto d xs))))
]

-- A word and its delimiter.
split_loop-word :
    (d : ℕ) (item xs ys : Bytes)
    → Lacks d xs
    → split_loop d item (xs ++ d ∷ ys) ≡ push_item (item ++ xs) (split_loop d [] ys)
unfolding split_loop
split_loop-word d item [] ys h = ground (arith, append-nil item)
split_loop-word d item (x ∷ xs) ys h = rw (ne→== x d h.0) (
    split_loop-word d (item ++ x ∷ []) xs ys h.1
    ∙ ap (λ l. push_item l (split_loop d [] ys)) (append_assoc item (x ∷ []) xs))

-- `GET`, a URL and a space.
abbrev pub get_line : Bytes → Bytes → Bytes
get_line url more = codes "GET " ++ (url ++ 32 ∷ more)

split-lines :
    (c : ℕ) (url more : Bytes)
    → Lacks 10 (c ∷ url)
    → (rest : List Bytes) × (split (get_line (c ∷ url) more) 10
        ≡ get_line (c ∷ url) (upto 10 more) ∷ rest)
unfolding split upto
split-lines c url more h =
    let (rest, e) = split_loop-item 10 b'G' [] (codes "ET " ++ (c ∷ url ++ 32 ∷ more)) in
    (rest, e ∙ ap (λ l. (codes "GET " ++ l) ∷ rest) (upto-append 10 (c ∷ url) (32 ∷ more) h))

split-words :
    (c : ℕ) (url more : Bytes)
    → Lacks 32 (c ∷ url)
    → split (get_line (c ∷ url) more) 32 ≡ get ∷ (c ∷ url) ∷ split_loop 32 [] more
unfolding split push_item
split-words c url more h =
    split_loop-word 32 [] get (c ∷ url ++ 32 ∷ more) (omega arith)
    ∙ ap (λ l. get ∷ l) (split_loop-word 32 [] (c ∷ url) more h)

-- The request is one for the URL, whatever stands behind it.
pub http_request-get :
    (c : ℕ) (url more : Bytes)
    → Lacks 32 (c ∷ url)
    → Lacks 10 (c ∷ url)
    → http_request (get_line (c ∷ url) more) ≡ parsed (c ∷ url)
unfolding http_request
http_request-get c url more h k =
    let (rest, e) = split-lines c url more k in
    rw (e, http_request) (rw (split-words c url (upto 10 more) h))

pub has_eoh-append : (xs ys : Bytes) → has_eoh (xs ++ (eoh ++ ys)) ≡ true
unfolding has_eoh is_prefix
has_eoh-append [] ys = refl
has_eoh-append (x ∷ xs) ys = ground (arith, has_eoh-append xs ys)
