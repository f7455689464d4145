-- ===== src/Kv/Memory.antt =====
-- The memory that the servers of lab_nw/kv-server*/server.c work on: `kv_node_t` at addresses, the
-- two list pointers, and what a handler does to its client and to its lock, newest event first.
use Prim.Native.String.{String}
use cs.Base.{ℕ, Option, none, some, List, [], ◌∷◌, ◌==◌, ltb, if◌then◌else◌, length, set, until_nul}

abbrev pub Ptr : Type 0
Ptr = ℕ

abbrev pub null : Ptr
null = 0

-- The block that a `char *` points at, or `none` for `NULL`.
abbrev pub Buffer : Type 0
Buffer = Option (List ℕ)

-- `kv_node_t`; an `int` key is only compared for equality, and stands as its bit pattern.
pub record Node : Type 0 where
  pub key : ℕ
  pub value : Buffer
  pub next : Ptr

abbrev pub node : ℕ → Buffer → Ptr → Node
node k v q = record { key = k; value = v; next = q }

abbrev pub Heap : Type 0
Heap = Ptr → Option Node

pub data Message : Type 0 where
  text : String → Message
  header : (value_size : ℕ) → Message  -- a `payload_t` that is zero but for its size
  bytes : List ℕ → Message

pub data Mode : Type 0 where
  shared exclusive : Mode

pub data Event : Type 0 where
  sent : Message → Event
  entered : Mode → Event  -- the lock is taken
  left : Mode → Event  -- and given back
  closed : Event

pub record Server : Type 0 where
  pub head : Ptr
  pub tail : Ptr
  pub heap : Heap
  pub log : List Event

-- A fault is an access through `NULL`, to a freed node or beyond a block.
pub data Run (A : Type 0) : Type 0 where
  ok : A → Server → Run A
  fault : Run A
  out_of_fuel : Run A

abbrev pub Cmd : Type 0 → Type 0
Cmd A = Server → Run A

abbrev pub pure : {A : Type 0} → A → Cmd A
pure = ok

module _ {A B : Type 0} where
  abbrev pub chain : Run A → (A → Cmd B) → Run B
  chain (ok a s) k = k a s
  chain fault k = fault
  chain out_of_fuel k = out_of_fuel

  infixl 5 ◌>>=◌ ◌>>◌
  abbrev pub ◌>>=◌ : Cmd A → (A → Cmd B) → Cmd B
  m >>= k = λ s. chain (m s) k

  abbrev pub ◌>>◌ : Cmd A → Cmd B → Cmd B
  m >> n = m >>= λ _. n

unfoldable pub write : Heap → Ptr → Option Node → Heap
write h p c a = if a == p then c else h a

abbrev pub put : Server → Ptr → Option Node → Server
put s p c = record s { heap = write s.heap p c }

abbrev pub emit : Event → Cmd (Unit {0})
emit e s = ok tt (record s { log = e ∷ s.log })

abbrev pub send : String → Cmd (Unit {0})
send m = emit (sent (text m))

abbrev pub get_head : Cmd Ptr
get_head s = ok s.head s

abbrev pub get_tail : Cmd Ptr
get_tail s = ok s.tail s

abbrev pub set_head : Ptr → Cmd (Unit {0})
set_head p s = ok tt (record s { head = p })

abbrev pub set_tail : Ptr → Cmd (Unit {0})
set_tail p s = ok tt (record s { tail = p })

-- `*p`
unfoldable pub load : Ptr → Cmd Node
load p s = if p == null then fault else elim (s.heap p) [ none ↦ fault | some n ↦ ok n s ]

-- An assignment to fields of `*p`.
unfoldable pub assign : Ptr → (Node → Node) → Cmd (Unit {0})
unfolding load
assign p f = do n ← load p; λ s. ok tt (put s p (some (f n)))

abbrev pub set_next : Ptr → Ptr → Cmd (Unit {0})
set_next p q = assign p (λ n. record n { next = q })

abbrev pub set_key : Ptr → ℕ → Cmd (Unit {0})
set_key p k = assign p (λ n. record n { key = k })

abbrev pub set_value : Ptr → Buffer → Cmd (Unit {0})
set_value p v = assign p (λ n. record n { value = v })

-- What `malloc` returned for a node: every field is written before it is read.
abbrev pub alloc : Ptr → Cmd (Unit {0})
alloc p s = ok tt (if p == null then s else put s p (some (node 0 none null)))

unfoldable pub free : Ptr → Cmd (Unit {0})
unfolding load
free p = load p >> λ s. ok tt (put s p none)

-- `recv` into a block: the bytes that came lie over what the block held, as far as it reaches.
unfoldable pub overlay : List ℕ → List ℕ → List ℕ
overlay [] old = old
overlay (b ∷ bs) [] = []
overlay (b ∷ bs) (_ ∷ old) = b ∷ overlay bs old

unfoldable pub recv_into : Buffer → List ℕ → Buffer
unfolding overlay
recv_into none body = none
recv_into (some block) body = some (overlay body block)

-- `value[n] = '\0'`, where `none` is a write outside the block.
unfoldable pub put_nul : ℕ → Buffer → Option (List ℕ)
put_nul n none = none
put_nul n (some block) = if ltb n (length block) then some (set block n 0) else none

unfoldable pub c_string : Buffer → Option (List ℕ)
unfolding until_nul
c_string none = none
c_string (some block) = until_nul block
