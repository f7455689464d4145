-- ===== src/Kv/Refine.antt =====
-- The list of lab_nw/kv-server*/server.c as a map from keys to values, and the commands on the
-- map.
use cs.Base.{
  ℕ, ◌+◌, ◌≤◌, ◌<◌, ◌≡◌, ◌≢◌, refl, ap, ◌∙◌, inl, inr, Option, none, some, List, [], ◌∷◌, ◌++◌,
  arith, ◌==◌, if◌then◌else◌, Bool-cases, Option-cases, length, length-append,
}
use cs.Kv.Memory.{
  null, Buffer, text, header, bytes, exclusive, entered, left, sent, Event, Server, ok, c_string,
}
use cs.Kv.Store.{Payload, Input, Variant, note, read_mode, create, read, delete}
use cs.Kv.Cells.{Cell, Cells, Linked, last_addr, find, has, is_some, erase, Returns, weaken}
use cs.Kv.Create.{stored, new_cell, answered, create-Appended}
use cs.Kv.Delete.{delete_log, delete-Erased}
use cs.Kv.Read.{read-found, read-missing}

abbrev pub value_of : Option Cell → Option Buffer
value_of none = none
value_of (some c) = some c.value

unfoldable pub lookup : ℕ → Cells → Option Buffer
lookup key cs = value_of (find key cs)

-- No two cells have one key.
abbrev pub Unique : Cells → Type 0
Unique [] = Unit {0}
Unique (c ∷ cs) = (find c.key cs ≡ none) × Unique cs

find-append :
    (key : ℕ) (cs : Cells) (c : Cell)
    → find key (cs ++ c ∷ [])
      ≡ (if is_some (find key cs) then find key cs else if c.key == key then some c else none)
unfolding find
find-append key [] c = refl
find-append key (d ∷ ds) c = elim (Bool-cases (d.key == key)) [
  | inl hit ↦ rw hit
  | inr miss ↦ rw miss (find-append key ds c)
]

pub Unique-append :
    (cs : Cells) (c : Cell) → Unique cs → find c.key cs ≡ none → Unique (cs ++ c ∷ [])
unfolding find
Unique-append [] c u new = (refl, tt)
Unique-append (d ∷ ds) c u new =
    (ground (arith, find-append d.key ds c), Unique-append ds c u.1 (ground arith))

find-erase-none : (j key : ℕ) (cs : Cells) → find j cs ≡ none → find j (erase key cs) ≡ none
unfolding find erase
find-erase-none j key [] h = refl
find-erase-none j key (c ∷ cs) h = ground (arith, find-erase-none j key cs)

pub Unique-erase : (key : ℕ) (cs : Cells) → Unique cs → Unique (erase key cs)
unfolding erase
Unique-erase key [] u = tt
Unique-erase key (c ∷ cs) u = elim (Bool-cases (c.key == key)) [
  | inl hit ↦ rw hit u.1
  | inr miss ↦ rw miss (find-erase-none c.key key cs u.0, Unique-erase key cs u.1)
]

pub lookup-erase :
    (j key : ℕ) (cs : Cells)
    → Unique cs
    → lookup j (erase key cs) ≡ (if key == j then none else lookup j cs)
unfolding lookup find erase
lookup-erase j key [] u = ground arith
lookup-erase j key (c ∷ cs) u = ground (arith, lookup-erase j key cs)

pub lookup-append :
    (j : ℕ) (cs : Cells) (c : Cell)
    → find c.key cs ≡ none
    → lookup j (cs ++ c ∷ []) ≡ (if c.key == j then some c.value else lookup j cs)
unfolding lookup
lookup-append j cs c new = ground (arith, find-append j cs c)

-- A server whose list is the map `m`, through the cells `cs`.
pub record Represents (s : Server) (cs : Cells) (m : ℕ → Option Buffer) : Type 0 where
  pub linked : Linked s.heap s.head cs
  pub unique : Unique cs
  pub agrees : (j : ℕ) → lookup j cs ≡ m j

-- CREATE needs the tail pointer to be right as well.
abbrev pub TailOk : Server → Cells → Type 0
TailOk s cs = s.tail ≡ last_addr s.tail cs

find-none : (key : ℕ) (cs : Cells) → lookup key cs ≡ none → find key cs ≡ none
unfolding lookup
find-none key cs e = ground arith

pub find-some :
    (key : ℕ) (cs : Cells) {b : Buffer}
    → lookup key cs ≡ some b
    → (c : Cell) × (find key cs ≡ some c) × (c.value ≡ b)
unfolding lookup
find-some key cs e = elim (Option-cases (find key cs)) [
  | inl miss ↦ cc
  | inr (c, hit) ↦ (c, hit, ground arith)
]

has-lookup : (key : ℕ) (cs : Cells) → has key cs ≡ is_some (lookup key cs)
unfolding lookup
has-lookup key cs = ground arith

module _ (v : Variant) (fuel : ℕ) (p : Payload) {s : Server} {cs : Cells} {m : ℕ → Option Buffer}
    (r : Represents s cs m) (enough : length cs < fuel) where
  -- On a list that represents the map m, with more fuel than cells, the tail pointer at the last
  -- cell, a key that m does not bind, a fresh address that is not null and not in use, and a
  -- value b that stays in its block, CREATE returns in a list, one cell longer at most, that
  -- represents m with the key bound to b; the tail pointer is at its last cell, and the log has
  -- the answer between the lock and the unlock.
  pub create-Represents :
      (i : Input) (b : Buffer)
      → TailOk s cs
      → m p.key ≡ none
      → i.fresh ≢ null
      → s.heap i.fresh ≡ none
      → stored v p i ≡ some b
      → Returns
          (λ _ t.
            (ds : Cells) × Represents t ds (λ j. if p.key == j then some b else m j)
            × TailOk t ds
            × (length ds ≤ length cs + 1)
            × (t.log ≡ note v (left exclusive) (answered v s).log))
          (create v fuel p i s)
  create-Represents i b ends new ne unused kept =
      weaken
        (create-Appended v fuel p i b s cs (record { linked = r.linked; ends = ends }) enough absent
          ne unused kept)
        λ _ t (store, log, same). (
          cs ++ new_cell p i b ∷ [],
          record {
            linked = store.linked;
            unique = Unique-append cs (new_cell p i b) r.unique absent;
            agrees = λ j. ground (arith, lookup-append j cs (new_cell p i b), absent, r.agrees j);
          },
          store.ends,
          omega (arith, length-append {0} cs (new_cell p i b ∷ [])),
          log,
        )
    where
      absent : find p.key cs ≡ none
      absent = find-none p.key cs (r.agrees p.key ∙ new)

  -- On a list that represents the map m, with more fuel than cells, DELETE returns in the list
  -- without the key's cell, which represents m with the key unbound; the log has the answer that
  -- m gives, deleted or not found, and the lock and unlock in the order of the code.
  pub delete-Represents :
      Returns
        (λ _ t.
          Represents t (erase p.key cs) (λ j. if p.key == j then none else m j)
          × (t.log ≡ delete_log v (is_some (m p.key)) s.log))
        (delete v fuel p s)
  delete-Represents = weaken (delete-Erased v fuel p s cs r.linked enough) λ _ t e. (
    record {
      linked = e.linked;
      unique = Unique-erase p.key cs r.unique;
      agrees = λ j. ground (arith, lookup-erase j p.key cs r.unique, r.agrees j);
    },
    e.log_is ∙ ap (λ d. delete_log v d s.log) (has-lookup p.key cs ∙ ap is_some (r.agrees p.key)),
  )

-- The reply of READ to what the map holds, newest first.
abbrev pub reply : Option (List ℕ) → List Event → List Event
reply none log = sent (text "Key not found") ∷ log
reply (some b) log = sent (bytes b) ∷ sent (header (length b)) ∷ sent (text "OK") ∷ log

-- What the map holds under a key, as the C string in its block.
abbrev pub IsText : Option Buffer → Option (List ℕ) → Type 0
IsText none none = Unit
IsText none (some bs) = ⊥
IsText (some b) none = ⊥
IsText (some b) (some bs) = c_string b ≡ some bs

-- The log of READ: the code answers a missing key behind the unlock.
abbrev pub read_log : Variant → Option (List ℕ) → List Event → List Event
read_log v none log = reply none (note v (left (read_mode v)) (note v (entered (read_mode v)) log))
read_log v (some bs) log =
    note v (left (read_mode v)) (reply (some bs) (note v (entered (read_mode v)) log))

module _ (v : Variant) (fuel : ℕ) (p : Payload) {s : Server} {cs : Cells} {m : ℕ → Option Buffer}
    (r : Represents s cs m) (enough : length cs < fuel) where
  pub read-bound :
      {b : Buffer} (bs : List ℕ)
      → m p.key ≡ some b
      → c_string b ≡ some bs
      → read v fuel p s
        ≡ ok tt (record s {
          log =
              note v (left (read_mode v)) (reply (some bs) (note v (entered (read_mode v)) s.log));
        })
  read-bound bs bound ends =
      let (c, hit, e) = find-some p.key cs (r.agrees p.key ∙ bound) in
      read-found v fuel p s c cs bs r.linked enough hit (ap c_string e ∙ ends)

  pub read-unbound :
      m p.key ≡ none
      → read v fuel p s
        ≡ ok tt (record s {
          log = reply none (note v (left (read_mode v)) (note v (entered (read_mode v)) s.log));
        })
  read-unbound e =
      read-missing v fuel p s cs r.linked enough (find-none p.key cs (r.agrees p.key ∙ e))

  -- On a list that represents the map m, with more fuel than cells, READ of a key that m does not
  -- bind, or binds to a block with a C string, returns and changes only the log: for a C string bs it
  -- logs OK, the length of bs and bs between the lock and the unlock, and for a key that m does not
  -- bind the unlock and then that the key is not found.
  pub read-Represents :
      (o : Option (List ℕ))
      → IsText (m p.key) o
      → read v fuel p s ≡ ok tt (record s { log = read_log v o s.log })
  read-Represents o is = go (m p.key) o refl is
    where
      go :
          (b : Option Buffer) (o : Option (List ℕ))
          → m p.key ≡ b
          → IsText b o
          → read v fuel p s ≡ ok tt (record s { log = read_log v o s.log })
      go none none e is = read-unbound e
      go none (some bs) e is = absurd is
      go (some b) none e is = absurd is
      go (some b) (some bs) e is = read-bound bs e is
