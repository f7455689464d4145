-- ===== src/Client/Protocol.antt =====
-- What the clients of lab_nw/kv-server*/client.c send, and when.
use cs.Base.{
  ◌≡◌, refl, Bool, true, false, not, ◌&&◌, ◌||◌, Option, none, some, List, [], ◌∷◌, ◌++◌,
  if◌then◌else◌, Bytes, eq_bytes, arith,
}
use cs.Client.{
  Typed, connect_line, disconnect_line, create_line, read_line, update_line, delete_line,
  other_line, Net, Act, asked, gave, already_connected, ClientKind, created_text, updated_text,
  until_zero, connect_command, disconnect_command, create_value, create_command, read_value,
  read_command, update_value, update_command, delete_command,
}
use cs.Client.Session.{when_connected, command, goes_on, session}

abbrev pub is_connect : Typed → Bool
is_connect connect_line = true
is_connect _ = false

-- A request or a value is sent.
abbrev pub is_sent : Act → Bool
is_sent (asked _) = true
is_sent (gave _) = true
is_sent _ = false

abbrev pub is_gave : Act → Bool
is_gave (gave _) = true
is_gave _ = false

abbrev pub is_already : Act → Bool
is_already already_connected = true
is_already _ = false

abbrev pub any : (Act → Bool) → List Act → Bool
any p [] = false
any p (a ∷ acts) = p a || any p acts

any-append :
    (p : Act → Bool) (acts more : List Act) → any p (acts ++ more) ≡ (any p acts || any p more)
any-append p [] more = refl
any-append p (a ∷ acts) more = ground (arith, any-append p acts more)

abbrev pub AreCommands : List (Typed × Net) → Type 0
AreCommands [] = Unit {0}
AreCommands ((t, n) ∷ more) = (is_connect t ≡ false) × AreCommands more

-- A command of a client that is not connected.
command-not_connected :
    (v : ClientKind) (n : Net) (t : Typed)
    → v.pooled ≡ true
    → is_connect t ≡ false
    → (any is_sent (command v n false t).acts ≡ false)
      × ((command v n false t).is_connected ≡ false)
unfolding command when_connected
command-not_connected v n connect_line pooled kind = cc
command-not_connected v n disconnect_line pooled kind = rw pooled (refl, refl)
command-not_connected v n (create_line k z b) pooled kind = rw pooled (refl, refl)
command-not_connected v n (read_line k) pooled kind = rw pooled (refl, refl)
command-not_connected v n (update_line k z b) pooled kind = rw pooled (refl, refl)
command-not_connected v n (delete_line k) pooled kind = rw pooled (refl, refl)
command-not_connected v n other_line pooled kind = (refl, refl)

-- A client of the pools that is not connected and in whose session no connect is typed sends no
-- request and no value.
session-not_connected :
    (v : ClientKind) (ts : List (Typed × Net))
    → v.pooled ≡ true
    → AreCommands ts
    → any is_sent (session v false ts) ≡ false
unfolding session
session-not_connected v [] pooled are = refl
session-not_connected v ((t, n) ∷ more) pooled (kind, are) =
    let (quiet, off) = command-not_connected v n t pooled kind in
    ground (
      arith,
      quiet,
      off,
      pooled,
      session-not_connected v more pooled are,
      any-append is_sent (command v n false t).acts (
          if goes_on (command v n false t).end
          then session v (command v n false t).is_connected more
          else []),
    )

command-already :
    (v : ClientKind) (n : Net) (t : Typed)
    → v.pooled ≡ false
    → any is_already (command v n false t).acts ≡ false
unfolding command when_connected connect_command disconnect_command create_command create_value
    read_command read_value update_command update_value delete_command
command-already v n t alone = ground (arith, alone)

-- A session of a client in which is_connected does not outlive a command never reports that it is
-- already connected, whatever is typed.
session-already :
    (v : ClientKind) (c : Bool) (ts : List (Typed × Net))
    → v.pooled ≡ false
    → any is_already (session v c ts) ≡ false
unfolding session
session-already v c [] alone = refl
session-already v c ((t, n) ∷ more) alone =
    let turn = command v n false t in
    let first = command-already v n t alone in
    ground (
      arith,
      alone,
      first,
      session-already v turn.is_connected more alone,
      any-append is_already turn.acts
          (if goes_on turn.end then session v turn.is_connected more else []),
    )

-- The first response is `t`.
abbrev pub answers : Option Bytes → Bytes → Bool
answers none t = false
answers (some r) t = eq_bytes (until_zero r) t

-- The client is let through to the server.
abbrev pub let_through : ClientKind → Bool → Bool
let_through v c = not (v.pooled && not c)

abbrev pub gives : ClientKind → Net → Bool → Typed → Bool
gives v n c (create_line _ _ _) = let_through v c && (n.sends && answers n.response created_text)
gives v n c (update_line _ _ _) = let_through v c && answers n.response updated_text
gives _ _ _ _ = false

-- Each command of each client sends a value exactly when it is a create or an update that is let
-- through (connected, where the client tests that), the server answers that the pair is created
-- or the value updated, and, for a create, the request was sent.
pub command-gives :
    (v : ClientKind) (n : Net) (c : Bool) (t : Typed)
    → any is_gave (command v n c t).acts ≡ gives v n c t
unfolding command when_connected connect_command disconnect_command create_command create_value
    read_command read_value update_command update_value delete_command
command-gives v n c t = ground arith
