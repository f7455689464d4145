-- ===== src/Client/Session.antt =====
-- The loop of `main` in lab_nw/kv-server*/client.c over the lines that are typed.
use cs.Base.{Bool, true, false, not, ◌&&◌, List, [], ◌∷◌, ◌++◌, if◌then◌else◌}
use cs.Client.{
  Typed, connect_line, disconnect_line, create_line, read_line, update_line, delete_line,
  other_line, Net, Act, not_connected, invalid_command, After, next, Turn, ClientKind,
  connect_command, disconnect_command, create_command, read_command, update_command, delete_command,
}

-- `if (is_connected == 0)`, in the clients that have it.
unfoldable pub when_connected : ClientKind → Bool → Turn → Turn
when_connected v c turn =
    if v.pooled && not c
    then record { end = next; is_connected = c; acts = not_connected ∷ [] }
    else turn

-- One round of the loop.
unfoldable pub command : ClientKind → Net → Bool → Typed → Turn
unfolding connect_command disconnect_command create_command read_command update_command
    delete_command when_connected
command v n c connect_line = connect_command v n c
command v n c disconnect_line = when_connected v c (disconnect_command n c)
command v n c (create_line key size value) = when_connected v c (create_command n c key size value)
command v n c (read_line key) = when_connected v c (read_command v n c key)
command v n c (update_line key size value) = when_connected v c (update_command n c key size value)
command v n c (delete_line key) = when_connected v c (delete_command n c key)
command v n c other_line = record { end = next; is_connected = c; acts = invalid_command ∷ [] }

abbrev pub goes_on : After → Bool
goes_on next = true
goes_on _ = false

-- The loop, over what is typed: where `is_connected` does not outlive a command, each starts with
-- none.
unfoldable pub session : ClientKind → Bool → List (Typed × Net) → List Act
unfolding command
session v c [] = []
session v c ((t, n) ∷ more) =
    let turn = command v n (c && v.pooled) t in
    let rest = session v turn.is_connected more in
    turn.acts ++ (if goes_on turn.end then rest else [])

unfoldable pub single_client : List (Typed × Net) → List Act
unfolding session
single_client = session (record { pooled = false; prints_read = false }) false

unfoldable pub thread_client : List (Typed × Net) → List Act
unfolding session
thread_client = session (record { pooled = false; prints_read = true }) false

unfoldable pub pool_client : List (Typed × Net) → List Act
unfolding session
pool_client = session (record { pooled = true; prints_read = false }) false

unfoldable pub pool_rw_client : List (Typed × Net) → List Act
unfolding session
pool_rw_client = session (record { pooled = true; prints_read = false }) false
