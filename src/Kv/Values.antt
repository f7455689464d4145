-- ===== src/Kv/Values.antt =====
-- What a value reads back as in lab_nw/kv-server*/server.c, with and without the zero behind it.
use cs.Base.{
  ℕ, ◌<◌, ◌≡◌, ◌≢◌, refl, true, none, some, List, [], ◌∷◌, arith, ltb, lt→ltb, ne→==, length, set,
  until_nul,
}
use cs.Kv.Memory.{Buffer, overlay, recv_into, put_nul, c_string}
use cs.Kv.Store.{Payload, Input, single, pool}
use cs.Kv.Create.{ended, stored}

abbrev pub NoZero : List ℕ → Type 0
NoZero [] = Unit {0}
NoZero (b ∷ bs) = (b ≢ 0) × NoZero bs

length-overlay : (body block : List ℕ) → length (overlay body block) ≡ length block
unfolding overlay
length-overlay [] block = refl
length-overlay (b ∷ bs) [] = refl
length-overlay (b ∷ bs) (_ ∷ old) = omega (arith, length-overlay bs old)

until_nul-set :
    (body block : List ℕ)
    → NoZero body
    → length body < length block
    → until_nul (set (overlay body block) (length body) 0) ≡ some body
unfolding overlay until_nul
until_nul-set [] [] h short = elim short [ ]
until_nul-set [] (x ∷ old) h short = refl
until_nul-set (b ∷ bs) [] h short = elim short [ ]
until_nul-set (b ∷ bs) (x ∷ old) h short =
    rw (ne→== b 0 h.0, until_nul-set bs old h.1 (omega arith))

until_nul-none : (bs : List ℕ) → NoZero bs → until_nul bs ≡ none
unfolding until_nul
until_nul-none [] h = refl
until_nul-none (b ∷ bs) h = rw (ne→== b 0 h.0, until_nul-none bs h.1)

NoZero-overlay : (body block : List ℕ) → NoZero body → NoZero block → NoZero (overlay body block)
unfolding overlay
NoZero-overlay [] block h k = k
NoZero-overlay (b ∷ bs) [] h k = tt
NoZero-overlay (b ∷ bs) (x ∷ old) h k = (h.0, NoZero-overlay bs old h.1 k.1)

-- What kv-server's CREATE keeps of a value of the announced size reads back as that value.
pub stored-single :
    (p : Payload) (i : Input) (block : List ℕ)
    → i.block ≡ some block
    → length i.body ≡ p.value_size
    → length i.body < length block
    → NoZero i.body
    → (b : Buffer) × (stored single p i ≡ some b) × (c_string b ≡ some i.body)
unfolding stored ended put_nul recv_into c_string
stored-single p i block e size short h = (
  some (set (overlay i.body block) p.value_size 0),
  rw (e, kept),
  rw (← size) (until_nul-set i.body block h short),
)
  where
    kept : ltb p.value_size (length (overlay i.body block)) ≡ true
    kept = lt→ltb _ _ (omega (arith, length-overlay i.body block))

-- The other servers write no zero: where `malloc` hands out a block with none, the value has no end.
pub stored_endless :
    (p : Payload) (i : Input) (block : List ℕ)
    → i.block ≡ some block
    → NoZero i.body
    → NoZero block
    → (b : Buffer) × (stored pool p i ≡ some b) × (c_string b ≡ none)
unfolding stored ended recv_into c_string
stored_endless p i block e h k =
    (some (overlay i.body block), rw e, until_nul-none _ (NoZero-overlay i.body block h k))
