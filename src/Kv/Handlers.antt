-- ===== src/Kv/Handlers.antt =====
-- One round of the loop in each of lab_nw/kv-server*/server.c: the `switch` over a command. The
-- result says whether the handler goes on with the connection.
use cs.Base.{ℕ, Bool, true, false, List, [], ◌∷◌, ◌==◌, if◌then◌else◌}
use cs.Kv.Memory.{closed, Cmd, pure, ◌>>=◌, ◌>>◌, emit, send}
use cs.Kv.Store.{
  Payload, Input, cmd_create, cmd_read, cmd_update, cmd_delete, cmd_disconnect, cmd_connect,
  Variant, single, threaded, pool, pool_rw, create, read, update, delete,
}

-- The commands that all four servers have.
unfoldable pub store_command : Variant → ℕ → Payload → Input → Cmd Bool → Cmd Bool
store_command v fuel p i others =
    if p.cmd_type == cmd_create
    then (do create v fuel p i; pure true)
    else if p.cmd_type == cmd_read
    then (do read v fuel p; pure true)
    else if p.cmd_type == cmd_delete
    then (do delete v fuel p; pure true)
    else if p.cmd_type == cmd_update
    then (do update v fuel p i; pure true)
    else others

abbrev pub invalid : Cmd Bool
invalid = do send "Invalid command"; pure true

-- kv-server: after DISCONNECT the server accepts the next client.
unfoldable pub handle_single : ℕ → Payload → Input → Cmd Bool
unfolding store_command
handle_single fuel p i = store_command single fuel p i (
    if p.cmd_type == cmd_disconnect
    then (do send "Disconnected from server"; emit closed; pure false)
    else invalid)

-- kv-server-thread: DISCONNECT closes the socket, and the thread goes on reading from it.
unfoldable pub handle_threaded : ℕ → Payload → Input → Cmd Bool
unfolding store_command
handle_threaded fuel p i = store_command threaded fuel p i (
    if p.cmd_type == cmd_disconnect
    then (do send "Disconnected from server"; emit closed; pure true)
    else invalid)

-- kv-server-pool: after DISCONNECT the thread takes the next client from the queue.
unfoldable pub handle_pool : ℕ → Payload → Input → Cmd Bool
unfolding store_command
handle_pool fuel p i =
    if p.cmd_type == cmd_connect
    then (do send "Connected to server"; pure true)
    else store_command pool fuel p i (
        if p.cmd_type == cmd_disconnect
        then (do send "Disconnected from server"; emit closed; pure false)
        else invalid)

-- kv-server-pool-rwlock: the same under the readers-writer lock.
unfoldable pub handle_pool_rw : ℕ → Payload → Input → Cmd Bool
unfolding store_command
handle_pool_rw fuel p i =
    if p.cmd_type == cmd_connect
    then (do send "Connected to server"; pure true)
    else store_command pool_rw fuel p i (
        if p.cmd_type == cmd_disconnect
        then (do send "Disconnected from server"; emit closed; pure false)
        else invalid)

-- The loop over a connection's commands, until the handler leaves it or no more have come.
unfoldable pub serve : (Payload → Input → Cmd Bool) → List (Payload × Input) → Cmd Bool
serve handle [] = pure true
serve handle ((p, i) ∷ rest) = do on ← handle p i; if on then serve handle rest else pure false
