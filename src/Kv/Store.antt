-- ===== src/Kv/Store.antt =====
-- The commands of the servers: the cases of the `switch` in lab_nw/kv-server*/server.c. A loop over
-- the list runs on fuel.
use cs.Base.{
  ℕ, zero, suc, Bool, true, false, Option, none, some, List, ◌∷◌, ◌==◌, if◌then◌else◌, length,
}
use cs.Kv.Memory.{
  Ptr, null, Buffer, text, header, bytes, Mode, shared, exclusive, Event, sent, entered, left, ok,
  fault, out_of_fuel, Cmd, pure, ◌>>=◌, ◌>>◌, emit, send, get_head, get_tail, set_head, set_tail,
  load, set_next, set_key, set_value, alloc, free, recv_into, put_nul, c_string,
}

-- `payload_t`, as bit patterns.
pub record Payload : Type 0 where
  pub cmd_type : ℕ
  pub key : ℕ
  pub value_size : ℕ

abbrev pub cmd_create : ℕ
cmd_create = 1

abbrev pub cmd_read : ℕ
cmd_read = 2

abbrev pub cmd_update : ℕ
cmd_update = 3

abbrev pub cmd_delete : ℕ
cmd_delete = 4

abbrev pub cmd_disconnect : ℕ
cmd_disconnect = 5

abbrev pub cmd_connect : ℕ
cmd_connect = 6

-- What the environment gives one command: the addresses that `malloc` returns for a node and for a
-- value (with what the block holds), and the bytes that the second `recv` delivers.
pub record Input : Type 0 where
  pub fresh : Ptr
  pub block : Buffer
  pub body : List ℕ

-- Where the four servers differ: whether a lock is taken, whether READ shares it, and whether CREATE
-- ends the value by a zero.
pub record Variant : Type 0 where
  pub locks : Bool
  pub shares : Bool
  pub ends_value : Bool

abbrev pub single : Variant
single = record { locks = false; shares = false; ends_value = true }

abbrev pub threaded : Variant
threaded = record { locks = true; shares = false; ends_value = false }

abbrev pub pool : Variant
pool = record { locks = true; shares = false; ends_value = false }

abbrev pub pool_rw : Variant
pool_rw = record { locks = true; shares = true; ends_value = false }

abbrev pub note : Variant → Event → List Event → List Event
note v e log = if v.locks then e ∷ log else log

abbrev pub enter : Variant → Mode → Cmd (Unit {0})
enter v m s = ok tt (record s { log = note v (entered m) s.log })

abbrev pub leave : Variant → Mode → Cmd (Unit {0})
leave v m s = ok tt (record s { log = note v (left m) s.log })

abbrev pub read_mode : Variant → Mode
read_mode v = if v.shares then shared else exclusive

-- `while (current != NULL) { if (current->key == key) break; current = current->next; }`
unfoldable pub find_loop : ℕ → ℕ → Ptr → Cmd (Option Ptr)
find_loop key zero cur = λ _. out_of_fuel
find_loop key (suc k) cur =
    if cur == null
    then pure none
    else do n ← load cur; if n.key == key then pure (some cur) else find_loop key k n.next

-- `new_node->value[payload.value_size] = '\0'`, in the variant that has it.
unfoldable pub end_value : Variant → ℕ → Ptr → Cmd (Unit {0})
end_value v size p =
    if v.ends_value
    then (do
      n ← load p
      elim (put_nul size n.value) [ none ↦ λ _. fault | some b ↦ set_value p (some b) ])
    else pure tt

-- CREATE fills the new node.
unfoldable pub fill_node : Variant → Payload → Input → Cmd (Unit {0})
fill_node v p i = do
  set_next i.fresh null
  set_key i.fresh p.key
  set_value i.fresh (recv_into i.block i.body)
  end_value v p.value_size i.fresh

-- CREATE allocates the node and links it behind the tail.
unfoldable pub append_node : Variant → Payload → Input → Cmd (Unit {0})
append_node v p i = do
  alloc i.fresh
  head ← get_head
  tail ← get_tail
  if head == null then set_head i.fresh else set_next tail i.fresh
  set_tail i.fresh
  fill_node v p i

unfoldable pub create : Variant → ℕ → Payload → Input → Cmd (Unit {0})
create v fuel p i = do
  enter v exclusive
  head ← get_head
  found ← find_loop p.key fuel head
  elim found [
    | some _ ↦ do send "Key already exists"; leave v exclusive
    | none ↦ do send "Key-value pair created"; append_node v p i; leave v exclusive
  ]

abbrev pub send_bytes : Option (List ℕ) → Cmd (Unit {0})
send_bytes none = λ _. fault
send_bytes (some b) = do emit (sent (header (length b))); emit (sent (bytes b))

-- The answer of READ: the size in a zeroed payload, and the bytes before the zero.
unfoldable pub send_value : Ptr → Cmd (Unit {0})
send_value cur = do emit (sent (text "OK")); n ← load cur; send_bytes (c_string n.value)

unfoldable pub read : Variant → ℕ → Payload → Cmd (Unit {0})
read v fuel p = do
  enter v (read_mode v)
  head ← get_head
  found ← find_loop p.key fuel head
  elim found [
    | none ↦ do leave v (read_mode v); send "Key not found"
    | some cur ↦ do send_value cur; leave v (read_mode v)
  ]

-- The node at `cur` is taken out of the list and freed.
unfoldable pub unlink : (prev cur next : Ptr) → Cmd (Unit {0})
unlink prev cur next = do
  head ← get_head
  if cur == head then set_head next else set_next prev next
  free cur

unfoldable pub delete_loop : ℕ → ℕ → (prev cur : Ptr) → Cmd Bool
delete_loop key zero prev cur = λ _. out_of_fuel
delete_loop key (suc k) prev cur = if cur == null then pure false else do
  n ← load cur
  if n.key == key
      then (do unlink prev cur n.next; send "Key-value pair deleted"; pure true)
      else delete_loop key k cur n.next

unfoldable pub delete : Variant → ℕ → Payload → Cmd (Unit {0})
delete v fuel p = do
  enter v exclusive
  head ← get_head
  deleted ← delete_loop p.key fuel null head
  leave v exclusive
  if deleted then pure tt else send "Key not found"

-- The loop of UPDATE, which has no `current = current->next`.
unfoldable pub update_loop : ℕ → ℕ → Ptr → Cmd (Option Ptr)
update_loop key zero cur = λ _. out_of_fuel
update_loop key (suc k) cur =
    if cur == null
    then pure none
    else do n ← load cur; if n.key == key then pure (some cur) else update_loop key k cur

unfoldable pub update : Variant → ℕ → Payload → Input → Cmd (Unit {0})
update v fuel p i = do
  enter v exclusive
  head ← get_head
  found ← update_loop p.key fuel head
  elim found [
    | none ↦ do leave v exclusive; send "Key not found"
    | some cur ↦ do
      send "Updated value"
      set_value cur (recv_into i.block i.body)
      leave v exclusive
  ]
