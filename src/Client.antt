-- ===== src/Client.antt =====
-- The clients: `main` in lab_nw/kv-server*/client.c. One function for each command that is typed
-- gives what it sends and prints, and the state it leaves. What the network does is an argument.
pub mod Session
pub mod Protocol
mod Tests
use cs.Base.{
  ℕ, Bool, true, false, not, ◌&&◌, Option, none, some, List, [], ◌∷◌, ◌++◌, ◌==◌, if◌then◌else◌,
  Bytes, eq_bytes,
}
use cs.Kv.Store.{cmd_create, cmd_read, cmd_update, cmd_delete, cmd_disconnect, cmd_connect}

-- `payload_t`; a field that the client does not set is `none`.
pub record Request : Type 0 where
  pub cmd_type : ℕ
  pub key : Option ℕ
  pub value_size : Option ℕ

-- A line of input, read by `scanf` and, for a value, by `fgets`.
pub data Typed : Type 0 where
  connect_line : Typed
  disconnect_line : Typed
  create_line : ℕ → ℕ → Bytes → Typed
  read_line : ℕ → Typed
  update_line : ℕ → ℕ → Bytes → Typed
  delete_line : ℕ → Typed
  other_line : Typed

-- What the network does in one command: whether `connect` and the two calls of `send` succeed, and
-- what each `recv` gives, `none` where it fails.
pub record Net : Type 0 where
  pub connects : Bool
  pub sends : Bool
  pub response : Option Bytes
  pub size : Option ℕ
  pub value : Option Bytes
  pub sends_value : Bool

-- What the client does: it sends a request or a value, prints the server's response, the value read,
-- a message of its own, a key or an error, or closes the socket.
pub data Act : Type 0 where
  asked : Request → Act
  gave : Bytes → Act
  said : Bytes → Act
  shown : Bytes → Act
  not_connected : Act
  already_connected : Act
  connected_to : Act
  echoed : ℕ → Act
  invalid_command : Act
  failed : Act
  closed : Act

-- How a command ends: in the next one, in `return 1`, or in a write before a buffer.
pub data After : Type 0 where
  next : After
  stop : After
  overrun : After

pub record Turn : Type 0 where
  pub end : After
  pub is_connected : Bool
  pub acts : List Act

-- Where the clients differ. In those of the pools `is_connected` outlives a command, is tested by
-- each, and `connect` sends a request; that of kv-server-thread prints the key of READ and its response
-- always.
pub record ClientKind : Type 0 where
  pub pooled : Bool
  pub prints_read : Bool

-- "Key-value pair created", "Updated value" and "OK"
abbrev pub created_text : Bytes
created_text =
    b'K' ∷ b'e' ∷ b'y' ∷ b'-' ∷ b'v' ∷ b'a' ∷ b'l' ∷ b'u' ∷ b'e' ∷ 32 ∷ b'p' ∷ b'a' ∷ b'i' ∷ b'r'
    ∷ 32 ∷ b'c' ∷ b'r' ∷ b'e' ∷ b'a' ∷ b't' ∷ b'e' ∷ b'd' ∷ []

abbrev pub updated_text : Bytes
updated_text =
    b'U' ∷ b'p' ∷ b'd' ∷ b'a' ∷ b't' ∷ b'e' ∷ b'd' ∷ 32 ∷ b'v' ∷ b'a' ∷ b'l' ∷ b'u' ∷ b'e' ∷ []

abbrev pub ok_text : Bytes
ok_text = b'O' ∷ b'K' ∷ []

-- The bytes before the first zero.
unfoldable pub until_zero : Bytes → Bytes
until_zero [] = []
until_zero (b ∷ bs) = if b == 0 then [] else b ∷ until_zero bs

-- `perror` where a `send` failed.
abbrev pub complain : Bool → List Act
complain true = []
complain false = failed ∷ []

-- The clients of the pools print before they call `connect`.
abbrev pub connecting : ClientKind → List Act
connecting v = if v.pooled then connected_to ∷ [] else []

unfoldable pub connect_command : ClientKind → Net → Bool → Turn
connect_command v n c =
    if c
    then record { end = stop; is_connected = c; acts = already_connected ∷ [] }
    else if not n.connects
    then record { end = stop; is_connected = c; acts = connecting v ++ failed ∷ closed ∷ [] }
    else if not v.pooled
    then record { end = next; is_connected = true; acts = connected_to ∷ [] }
    else (let acts =
          connected_to
          ∷ asked (record { cmd_type = cmd_connect; key = none; value_size = none })
          ∷ complain n.sends in
        elim n.response [
          | none ↦ record { end = overrun; is_connected = true; acts = acts ++ failed ∷ [] }
          | some r ↦ record {
            end = next;
            is_connected = true;
            acts = acts ++ said (until_zero r) ∷ [];
          }
        ])

unfoldable pub disconnect_command : Net → Bool → Turn
disconnect_command n c =
    let acts =
      asked (record { cmd_type = cmd_disconnect; key = none; value_size = none })
      ∷ complain n.sends in
    elim n.response [
      | none ↦ record { end = overrun; is_connected = c; acts = acts ++ failed ∷ [] }
      | some r ↦ record {
        end = next;
        is_connected = false;
        acts = acts ++ said (until_zero r) ∷ closed ∷ [];
      }
    ]

-- CREATE once its request is sent and answered.
unfoldable pub create_value : Net → Bool → Bytes → List Act → Bytes → Turn
create_value n c value acts r =
    if not (eq_bytes (until_zero r) created_text)
    then record { end = next; is_connected = c; acts = acts }
    else if n.sends_value
    then record {
      end = next;
      is_connected = c;
      acts = acts ++ gave value ∷ said (until_zero r) ∷ [];
    }
    else record { end = stop; is_connected = c; acts = acts ++ gave value ∷ failed ∷ [] }

unfoldable pub create_command : Net → Bool → ℕ → ℕ → Bytes → Turn
create_command n c key size value =
    let request =
      asked (record { cmd_type = cmd_create; key = some key; value_size = some size }) in
    if not n.sends
    then record { end = stop; is_connected = c; acts = request ∷ failed ∷ [] }
    else elim n.response [
      | none ↦ record { end = overrun; is_connected = c; acts = request ∷ failed ∷ [] }
      | some r ↦ create_value n c value (request ∷ []) r
    ]

-- `recv` of the payload, zeroed before.
abbrev pub complain_size : Option ℕ → List Act
complain_size none = failed ∷ []
complain_size (some _) = []

-- READ once its first answer is OK.
unfoldable pub read_value : Net → Bool → List Act → Turn
read_value n c acts =
    let acts1 = acts ++ complain_size n.size in
    elim n.value [
      | none ↦ record { end = overrun; is_connected = c; acts = acts1 ++ failed ∷ [] }
      | some b ↦ record { end = next; is_connected = c; acts = acts1 ++ shown (until_zero b) ∷ [] }
    ]

unfoldable pub read_command : ClientKind → Net → Bool → ℕ → Turn
read_command v n c key =
    let request = asked (record { cmd_type = cmd_read; key = some key; value_size = none }) in
    let sending = request ∷ complain n.sends in
    let acts = if v.prints_read then echoed key ∷ sending else sending in
    elim n.response [
      | none ↦ record { end = overrun; is_connected = c; acts = acts ++ failed ∷ [] }
      | some r ↦
          let is_ok = eq_bytes (until_zero r) ok_text in
          let acts1 =
            if v.prints_read
            then acts ++ said (until_zero r) ∷ []
            else if is_ok
            then acts
            else acts ++ said (until_zero r) ∷ [] in
          let turn = read_value n c acts1 in
          if is_ok then turn else record { end = next; is_connected = c; acts = acts1 }
    ]

-- UPDATE once its request is answered.
unfoldable pub update_value : Net → Bool → Bytes → List Act → Bytes → Turn
update_value n c value acts r =
    if eq_bytes (until_zero r) updated_text
    then record {
      end = next;
      is_connected = c;
      acts = acts ++ said (until_zero r) ∷ gave value ∷ complain n.sends_value;
    }
    else record { end = next; is_connected = c; acts = acts ++ said (until_zero r) ∷ [] }

unfoldable pub update_command : Net → Bool → ℕ → ℕ → Bytes → Turn
update_command n c key size value =
    let acts =
      asked (record { cmd_type = cmd_update; key = some key; value_size = some size })
      ∷ complain n.sends in
    elim n.response [
      | none ↦ record { end = overrun; is_connected = c; acts = acts ++ failed ∷ [] }
      | some r ↦ update_value n c value acts r
    ]

unfoldable pub delete_command : Net → Bool → ℕ → Turn
delete_command n c key =
    let acts =
      asked (record { cmd_type = cmd_delete; key = some key; value_size = none })
      ∷ complain n.sends in
    elim n.response [
      | none ↦ record { end = overrun; is_connected = c; acts = acts ++ failed ∷ [] }
      | some r ↦ record { end = next; is_connected = c; acts = acts ++ said (until_zero r) ∷ [] }
    ]
