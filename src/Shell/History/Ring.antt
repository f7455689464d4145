-- ===== src/Shell/History/Ring.antt =====
-- The lines that the ring of temp.c shows, and `add_to_history` and `print_history` on them.
use cs.Base.{
  ℕ, zero, suc, ◌+◌, ◌-◌, ◌%◌, ◌<◌, ◌≤◌, ◌≡◌, refl, ap, ◌∙◌, inl, inr, none, some, List, [], ◌∷◌,
  ◌++◌, map, arith, ◌==◌, ltb, if◌then◌else◌, Bool-cases, length, get_elem?, set, drop, Bytes,
  length-append, length-set, get_elem?-set_self, get_elem?-set_ne, drop-end, drop-get_elem?,
  get_elem?-in, get_or-get_elem?,
}
use native.Mathlib.Numerals.{add-one}
use cs.Shell.History.{
  max_history_size, History, no_history, cut_newline, is_skipped, add_to_history, start_point,
  lines_from, print_history,
}

-- The lines `xs`, oldest first, stand in the ring from its start on.
pub record Shows (h : History) (xs : List Bytes) : Type 0 where
  pub room : length h.slots ≡ max_history_size
  pub counted : length xs ≡ h.count
  pub few : h.count ≤ max_history_size
  pub in_ring : h.idx < max_history_size
  pub filling : h.count < max_history_size → h.idx ≡ h.count
  pub stands :
      (i : ℕ)
      → i < h.count
      → get_elem? h.slots ((start_point h + i) % max_history_size) ≡ some (get_elem? xs i)

-- A line is added at the end, and of twenty the oldest goes.
unfoldable pub push_line : List Bytes → Bytes → List Bytes
push_line xs t = if ltb (length xs) max_history_size then xs ++ t ∷ [] else drop 1 xs ++ t ∷ []

get_elem?-append_left :
    {A : Type 0} (xs : List A) (t : A) (i : ℕ)
    → i < length xs
    → get_elem? (xs ++ t ∷ []) i ≡ get_elem? xs i
get_elem?-append_left [] t i h = elim h [ ]
get_elem?-append_left (x ∷ xs) t zero h = refl
get_elem?-append_left (x ∷ xs) t (suc i) h = get_elem?-append_left xs t i (omega arith)

get_elem?-append_end :
    {A : Type 0} (xs : List A) (t : A) (i : ℕ) → i ≡ length xs → get_elem? (xs ++ t ∷ []) i ≡ some t
get_elem?-append_end [] t zero h = refl
get_elem?-append_end [] t (suc i) h = absurd (omega arith)
get_elem?-append_end (x ∷ xs) t zero h = absurd (omega arith)
get_elem?-append_end (x ∷ xs) t (suc i) h = get_elem?-append_end xs t i (omega arith)

get_elem?-drop : {A : Type 0} (xs : List A) (i : ℕ) → get_elem? (drop 1 xs) i ≡ get_elem? xs (suc i)
get_elem?-drop [] i = refl
get_elem?-drop (x ∷ xs) i = refl

length-drop : {A : Type 0} (xs : List A) → length (drop 1 xs) ≡ length xs - 1
length-drop [] = refl
length-drop (x ∷ xs) = omega arith

pub no_history-Shows : Shows no_history []
unfolding no_history
no_history-Shows = record {
  room = refl;
  counted = refl;
  few = omega arith;
  in_ring = omega arith;
  filling = λ h. refl;
  stands = λ i h. absurd (omega arith);
}

module _ (h : History) (xs : List Bytes) (t : Bytes) (v : Shows h xs) where
  abbrev added : History
  added = record {
    slots = set h.slots h.idx (some t);
    count = if ltb h.count max_history_size then h.count + 1 else h.count;
    idx = (h.idx + 1) % max_history_size;
  }

  added-stands :
      (i : ℕ)
      → i < added.count
      → get_elem? added.slots ((start_point added + i) % max_history_size)
        ≡ some (get_elem? (push_line xs t) i)
  unfolding start_point push_line
  added-stands i lt = elim (Bool-cases (ltb h.count max_history_size)) [
    | inl short ↦ elim (Bool-cases (i == h.count)) [
      | inl end ↦ ground (
        arith,
        v.few,
        v.filling,
        v.counted,
        v.room,
        v.in_ring,
        get_elem?-set_self h.slots h.idx (some t),
        get_elem?-append_end xs t i,
      )
      | inr old ↦ ground (
        arith,
        v.few,
        v.filling,
        v.counted,
        v.room,
        get_elem?-set_ne h.slots h.idx i (some t),
        get_elem?-append_left xs t i,
        v.stands i,
      )
    ]
    | inr full ↦ elim (Bool-cases (i == 19)) [
      | inl end ↦ ground (
        arith,
        v.few,
        v.counted,
        v.room,
        v.in_ring,
        length-drop xs,
        get_elem?-set_self h.slots h.idx (some t),
        get_elem?-append_end (drop 1 xs) t i,
      )
      | inr old ↦ ground (
        arith,
        v.few,
        v.counted,
        v.room,
        v.in_ring,
        length-drop xs,
        get_elem?-set_ne h.slots h.idx ((start_point added + i) % max_history_size) (some t),
        get_elem?-append_left (drop 1 xs) t i,
        get_elem?-drop xs i,
        v.stands (suc i),
      )
    ]
  ]

  added-Shows : Shows added (push_line xs t)
  unfolding push_line
  added-Shows = record {
    room = length-set h.slots h.idx (some t) ∙ v.room;
    counted = ground (
      arith,
      v.counted,
      v.few,
      length-append xs (t ∷ []),
      length-drop xs,
      length-append (drop 1 xs) (t ∷ []),
    );
    few = ground (arith, v.few);
    in_ring = omega arith;
    filling = ground (arith, v.few, v.filling);
    stands = added-stands;
  }

-- Adding a line to a history that shows xs leaves one that shows xs, if the line up to its
-- newline is empty or "history", and otherwise xs with that at the end, less the oldest line when
-- there were twenty.
pub add_to_history-Shows :
    (h : History) (xs : List Bytes) (line : Bytes)
    → Shows h xs
    → Shows
        (add_to_history h line)
        (if is_skipped (cut_newline line) then xs else push_line xs (cut_newline line))
unfolding add_to_history
add_to_history-Shows h xs line v = elim (Bool-cases (is_skipped (cut_newline line))) [
  | inl skip ↦ rw skip v
  | inr kept ↦ rw kept (added-Shows h xs (cut_newline line) v)
]

module _ {h : History} {xs : List Bytes} (v : Shows h xs) where
  lines_from-drop : (n i : ℕ) → i + n ≡ h.count → lines_from h i n ≡ map some (drop i xs)
  unfolding lines_from
  lines_from-drop zero i e = rw (drop-end i xs (omega (arith, v.counted)))
  lines_from-drop (suc n) i e =
      let (x, at) = get_elem?-in xs i (omega (arith, v.counted)) in
      rw (
        drop-get_elem? i xs x at,
        get_or-get_elem? ((start_point h + i) % max_history_size) h.slots (some x) none
            (v.stands i (omega arith) ∙ ap some at),
        lines_from-drop n (i + 1) (omega arith),
        add-one,
      )

-- A history that shows xs prints the lines xs, oldest first, and reads no null pointer.
pub print_history-Shows :
    {h : History} {xs : List Bytes} → Shows h xs → print_history h ≡ map some xs
unfolding print_history
print_history-Shows {h} v = lines_from-drop v h.count 0 (omega arith)
