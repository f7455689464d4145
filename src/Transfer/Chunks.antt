-- ===== src/Transfer/Chunks.antt =====
-- The chunks of a file: the `k`-th has the bytes from `offset k` on, as many as a packet holds.
use cs.Base.{
  ℕ, zero, suc, ◌+◌, ◌<◌, ◌≤◌, ◌≡◌, refl, ap, sym, ◌∙◌, ◌≢◌, List, [], ◌∷◌, ◌++◌, length, take,
  drop, length-append, arith, Bytes,
}
use cs.Transfer.{data_size}

module _ {ℓ} {A : Type ℓ} where
  take-add : (m n : ℕ) (xs : List A) → take (m + n) xs ≡ take m xs ++ take n (drop m xs)
  take-add zero n xs = let e : 0 + n ≡ n = omega arith in rw e
  take-add (suc m) zero [] = let e : suc m + 0 ≡ suc m = omega arith in rw e
  take-add (suc m) (suc n) [] = let e : suc m + suc n ≡ suc (m + suc n) = omega arith in rw e
  take-add (suc m) n (x ∷ xs) =
      let e : suc m + n ≡ suc (m + n) = omega arith in rw (e, take-add m n xs)

  drop-nil : (n : ℕ) → drop {A = A} n [] ≡ []
  drop-nil zero = refl
  drop-nil (suc n) = refl

  drop-add : (m n : ℕ) (xs : List A) → drop n (drop m xs) ≡ drop (m + n) xs
  drop-add zero n xs = let e : 0 + n ≡ n = omega arith in rw e
  drop-add (suc m) n [] = drop-nil n ∙ sym (drop-nil (suc m + n))
  drop-add (suc m) n (x ∷ xs) =
      let e : suc m + n ≡ suc (m + n) = omega arith in rw e (drop-add m n xs)

  -- The first bytes are all when they are as many.
  pub take-whole : (n : ℕ) (xs : List A) → length xs ≤ length (take n xs) → take n xs ≡ xs
  take-whole zero [] h = refl
  take-whole zero (x ∷ xs) h = absurd (omega arith)
  take-whole (suc n) [] h = refl
  take-whole (suc n) (x ∷ xs) h = ap (λ ys. x ∷ ys) (take-whole n xs (omega arith))

  pub take-length : (xs : List A) → take (length xs) xs ≡ xs
  take-length [] = refl
  take-length (x ∷ xs) = ap (λ ys. x ∷ ys) (take-length xs)

  pub length-take_mono : (m n : ℕ) (xs : List A) → m ≤ n → length (take m xs) ≤ length (take n xs)
  length-take_mono zero n xs h = omega arith
  length-take_mono (suc m) zero xs h = absurd (omega arith)
  length-take_mono (suc m) (suc n) [] h = omega arith
  length-take_mono (suc m) (suc n) (x ∷ xs) h = omega (arith, length-take_mono m n xs (omega arith))

  drop-lt : (m : ℕ) (xs : List A) → drop m xs ≢ [] → m < length xs
  drop-lt zero [] h = absurd (h refl)
  drop-lt zero (x ∷ xs) h = omega arith
  drop-lt (suc m) [] h = absurd (h refl)
  drop-lt (suc m) (x ∷ xs) h = omega (arith, drop-lt m xs h)

  take-nil : (n : ℕ) (xs : List A) → xs ≡ [] → take n xs ≡ []
  take-nil zero xs e = refl
  take-nil (suc n) [] e = refl
  take-nil (suc n) (x ∷ xs) e = cc

unfoldable pub offset : ℕ → ℕ
offset zero = 0
offset (suc k) = offset k + data_size

unfoldable pub chunk_at : Bytes → ℕ → Bytes
chunk_at file k = take data_size (drop (offset k) file)

pub le-offset : (k : ℕ) → k ≤ offset k
unfolding offset data_size
le-offset zero = omega arith
le-offset (suc k) = omega (arith, le-offset k)

pub offset_mono : (m n : ℕ) → m ≤ n → offset m ≤ offset n
unfolding offset
offset_mono zero n h = omega arith
offset_mono (suc m) zero h = absurd (omega arith)
offset_mono (suc m) (suc n) h = omega (arith, offset_mono m n (omega arith))

-- A chunk that has bytes stands in the file.
pub chunk_at-lt : (file : Bytes) (k : ℕ) → chunk_at file k ≢ [] → k < length file
unfolding chunk_at
chunk_at-lt file k some_byte =
    let inside = drop-lt (offset k) file (λ e. some_byte (take-nil data_size _ e)) in
    omega (arith, inside, le-offset k)

pub take-chunk :
    (file : Bytes) (k : ℕ) → take (offset (suc k)) file ≡ take (offset k) file ++ chunk_at file k
unfolding offset chunk_at
take-chunk file k = take-add (offset k) data_size file

pub length-chunk :
    (file : Bytes) (k : ℕ)
    → length (take (offset k) file) + length (chunk_at file k) ≡ length (take (offset (suc k)) file)
length-chunk file k =
    sym (length-append (take (offset k) file) (chunk_at file k))
    ∙ ap length (sym (take-chunk file k))

pub drop-chunk :
    (file : Bytes) (k : ℕ) → drop data_size (drop (offset k) file) ≡ drop (offset (suc k)) file
unfolding offset
drop-chunk file k = drop-add (offset k) data_size file
