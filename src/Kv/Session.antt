-- ===== src/Kv/Session.antt =====
-- Sessions with lab_nw/kv-server*/server.c, and what they should do: the requests of a client on an
-- ordered list of keys and values, with the events they log.
pub mod Agrees
pub mod Serve
mod Tests
use cs.Base.{
  ℕ, ◌≡◌, ◌⊎◌, ◌≢◌, Bool, true, false, not, Option, none, some, List, [], ◌∷◌, ◌++◌, ◌==◌,
  if◌then◌else◌,
}
use cs.Kv.Memory.{
  Ptr, null, Buffer, Heap, text, exclusive, entered, left, sent, closed, Event, Server, c_string,
}
use cs.Kv.Store.{
  Payload, Input, cmd_create, cmd_read, cmd_delete, cmd_disconnect, cmd_connect, Variant, note,
  read_mode,
}
use cs.Kv.Cells.{Cell, Cells, IsStore, is_some}
use cs.Kv.Create.{stored}
use cs.Kv.Delete.{delete_log}
use cs.Kv.Refine.{reply}

-- A client's request, with what the server's environment gives to it.
pub data Request : Type 0 where
  ask_create : (key size : ℕ) → Input → Request
  ask_read : (key : ℕ) → Request
  ask_delete : (key : ℕ) → Request
  ask_connect : Request
  ask_disconnect : Request

abbrev pub no_input : Input
no_input = record { fresh = null; block = none; body = [] }

abbrev pub payload : ℕ → ℕ → ℕ → Payload
payload c k n = record { cmd_type = c; key = k; value_size = n }

abbrev pub call : Request → Payload × Input
call (ask_create key size i) = (payload cmd_create key size, i)
call (ask_read key) = (payload cmd_read key 0, no_input)
call (ask_delete key) = (payload cmd_delete key 0, no_input)
call ask_connect = (payload cmd_connect 0 0, no_input)
call ask_disconnect = (payload cmd_disconnect 0 0, no_input)

abbrev pub calls : List Request → List (Payload × Input)
calls [] = []
calls (r ∷ rs) = call r ∷ calls rs

-- The keys and values in the order they were created.
abbrev pub Entries : Type 0
Entries = List (ℕ × Buffer)

abbrev pub bound : ℕ → Entries → Option Buffer
bound key [] = none
bound key ((k, b) ∷ es) = if k == key then some b else bound key es

abbrev pub unbind : ℕ → Entries → Entries
unbind key [] = []
unbind key ((k, b) ∷ es) = if k == key then es else (k, b) ∷ unbind key es

-- What a session sees.
pub record Model : Type 0 where
  pub entries : Entries
  pub log : List Event

abbrev pub bind_new : ℕ → Option Buffer → Entries → Entries
bind_new key none es = es
bind_new key (some b) es = es ++ (key, b) ∷ []

abbrev pub create_log : Variant → Bool → List Event → List Event
create_log v true log =
    note v (left exclusive) (sent (text "Key already exists") ∷ note v (entered exclusive) log)
create_log v false log =
    note v (left exclusive) (sent (text "Key-value pair created") ∷ note v (entered exclusive) log)

-- The bytes that READ sends for a block.
abbrev pub shown : Option Buffer → Option (List ℕ)
shown none = none
shown (some b) = c_string b

-- READ answers between its lock and its unlock, or behind the unlock that the key is not found.
abbrev pub read_log : Variant → Option (List ℕ) → List Event → List Event
read_log v none log = reply none (note v (left (read_mode v)) (note v (entered (read_mode v)) log))
read_log v (some bs) log =
    note v (left (read_mode v)) (reply (some bs) (note v (entered (read_mode v)) log))

unfoldable pub apply : Variant → Request → Model → Model
apply v (ask_create key size i) m = record {
  entries =
      if is_some (bound key m.entries)
      then m.entries
      else bind_new key (stored v (payload cmd_create key size) i) m.entries;
  log = create_log v (is_some (bound key m.entries)) m.log;
}
apply v (ask_read key) m = record m { log = read_log v (shown (bound key m.entries)) m.log }
apply v (ask_delete key) m = record {
  entries = unbind key m.entries;
  log = delete_log v (is_some (bound key m.entries)) m.log;
}
apply v ask_connect m = record m { log = sent (text "Connected to server") ∷ m.log }
apply v ask_disconnect m = record m {
  log = closed ∷ sent (text "Disconnected from server") ∷ m.log;
}

abbrev pub goes_on : Request → Bool
goes_on ask_disconnect = false
goes_on _ = true

unfoldable pub apply_all : Variant → List Request → Model → Model
unfolding apply
apply_all v [] m = m
apply_all v (r ∷ rs) m = if goes_on r then apply_all v rs (apply v r m) else apply v r m

-- The key is not that of the last entry.
abbrev pub is_before_last : ℕ → Entries → Bool
is_before_last key [] = true
is_before_last key ((k, b) ∷ []) = not (k == key)
is_before_last key ((k, b) ∷ (e ∷ es)) = if k == key then true else is_before_last key (e ∷ es)

-- What a request needs: a new value stays in its block, a value that is read has an end, and the
-- newest of several entries is not deleted.
abbrev pub Allowed : Variant → Request → Entries → Type 0
Allowed v (ask_create key size i) es =
    (is_some (bound key es) ≡ true) ⊎ (is_some (stored v (payload cmd_create key size) i) ≡ true)
Allowed v (ask_read key) es = is_some (bound key es) ≡ is_some (shown (bound key es))
Allowed v (ask_delete key) es = (unbind key es ≡ []) ⊎ (is_before_last key es ≡ true)
Allowed v ask_connect es = Unit {0}
Allowed v ask_disconnect es = Unit {0}

abbrev pub AreAllowed : Variant → List Request → Model → Type 0
AreAllowed v [] m = Unit {0}
AreAllowed v (r ∷ rs) m = Allowed v r m.entries × AreAllowed v rs (apply v r m)

-- The addresses that `malloc` returns for the nodes of a session.
abbrev pub news : List Request → List Ptr
news [] = []
news (ask_create _ _ i ∷ rs) = i.fresh ∷ news rs
news (_ ∷ rs) = news rs

abbrev pub is_in : Ptr → List Ptr → Bool
is_in a [] = false
is_in a (p ∷ ps) = if a == p then true else is_in a ps

-- They are not null, differ, and are not in use.
abbrev pub AreFresh : Heap → List Ptr → Type 0
AreFresh h [] = Unit {0}
AreFresh h (p ∷ ps) = (p ≢ null) × (h p ≡ none) × (is_in p ps ≡ false) × AreFresh h ps

abbrev pub entries_of : Cells → Entries
entries_of [] = []
entries_of (c ∷ cs) = (c.key, c.value) ∷ entries_of cs

-- A server whose list, with its tail pointer at the last cell, has the entries of the model.
pub record Agree (s : Server) (m : Model) : Type 0 where
  pub cells : Cells
  pub store : IsStore s cells
  pub same_entries : entries_of cells ≡ m.entries
  pub same_log : s.log ≡ m.log
