-- ===== src/Lib.antt =====
-- The course code of CS744: a key-value server in four variants, the lock that guards one of
-- them, shells, a web server and programs of threads. The library models the C programs that keep
-- state. The servers and their clients share the commands' numbers, and one server takes the lock.
--
-- lab_nw/kv-server, kv-server-thread, kv-server-pool and kv-server-pool-rwlock: Kv. The four
-- server.c share one design: a singly linked list of keys and values behind kv_node_head and
-- kv_node_tail, and a switch over the commands that a client sends. Kv.Memory is the memory (a
-- heap of kv_node_t at addresses, the two pointers, and a log of what is sent and locked, newest
-- first); Kv.Store has one function for each command, with a Variant for what differs, and
-- Kv.Handlers the four loops over commands. Accesses through NULL, to a freed node or beyond a
-- block are faults. Every loop over the list takes fuel, and the theorems ask for one round more
-- than the list has cells, which is what the loops take. What malloc and recv return is an Input
-- of each command. An int is its bit pattern. A value's block is kept in its node, so that the
-- block that DELETE leaks and the addresses of values do not show. Kv.Queue is the queue of the pool's
-- connections, in memory as nodes at addresses, with main and the threads as steps in any order.
-- Socket set-up is not modelled.
--
-- client.c in the same four directories: Client, one function for each command that is typed, and
-- Client.Session, the loop, with a ClientKind for what differs. A command is given what connect,
-- send and recv do, and returns what is sent and printed; a recv that fails writes before its
-- buffer, which ends the session.
--
-- lab_nw/kv-server-pool-rwlock/rwlock.c: RwLock, a lock of two counts and a flag, and any number
-- of threads that call it, interleaved in any order; a wait may also end with no signal. The
-- mutex and the conditions are those of pthreads: a section between a lock and a wait or an
-- unlock is one step.
--
-- lab_threads/pthreads-sync-code/rwlock/rwlock-writer-pref.cpp: WriterPref, the lock in which a writer
-- that waits keeps readers out, over the state, threads and signals of RwLock. rwlock-reader-pref.cpp
-- has the code of RwLock again.
--
-- temp.c: Shell.History, the ring of lines (history, history_count, history_idx), add_to_history,
-- print_history, save_history and load_history over a file that is a list of bytes. The loop of
-- load_history runs on fuel, the length of the file, and each round reads a byte or more.
-- Shell.Session is execute_command and main, over the lines of a session: the history is loaded, the
-- lines are remembered and run, and it is saved. fopen, the kernel and the children that end are
-- arguments; tokenize, the cutting of a line, execute_pipe_command and the table of children are those
-- of my_shell.c. The blocks of command and pipe_commands are numbers that each malloc takes, and a second free is none.
--
-- lab_shell/my_shell.c: Shell.Line is tokenize and the loop of main that cuts a line at && and at
-- |, with a write beyond a block as none, or as the action overrun; Shell.Pipes is execute_pipe_command, with the table of
-- open descriptors of the shell and of each child; Shell.Jobs is child_process with
-- update_child_process_array and the loop that reaps children, where the index is a bit pattern.
-- Shell.Execute is execute_command and a round of the loop of main, with what chdir, open, read, write
-- fork and pipe give as an argument of each command, and what was done as a list. The loop of cat over
-- reads takes fuel, and one more than the reads give pieces is enough. In Shell.Pipes fork and pipe
-- succeed; what execvp starts, and the handler of SIGINT, are not modelled.
--
-- lab_shell/shell: JobShell. JobShell.Jobs is the doubly linked list of background jobs of
-- eval.c, in memory as nodes at addresses, where an access through NULL is a fault; JobShell.Line
-- is helper.c's split of a line over an array that grows, and the tests of redirection.c;
-- JobShell.Redirection is the child of a redirected command; JobShell.Eval is evalCommand, as the
-- action it takes for a line, with what that does to the list, and a round of the loop of main.c;
-- JobShell.Completion is completion.c, with directories and the tests of files as arguments, and as
-- many calls of a generator as the fuel allows, where one more than there are matches is enough.
-- Loops over the list take fuel, and the theorems ask for more than the list has cells. fork,
-- execvp, waitpid and readline are arguments.
--
-- lab_threads/pthreads-sync-code/master-worker/master-worker.c: MasterWorker, the masters that
-- fill a buffer and the workers that take items from it in turn, interleaved in any order. A section
-- between a lock and a wait or an unlock is one step, and a wait may also end with no signal.
--
-- prac/threads/dining_philosopher.c: Philosophers, the table of five and what take_forks and put_forks do
-- to it, by five threads interleaved in any order, with the sections and waits of MasterWorker.
--
-- prac/socket/file_transfer: Transfer, s.c and c.c. Transfer has the loops of the server over chunks and
-- retries and of the client over packets, as what each makes of one event, and both at the ends of a
-- network that may lose, repeat and reorder; Transfer.Handshake has the request and the answer. stat and
-- the conversions of a long are arguments, and sequence numbers are bit patterns. It is assumed that the
-- size that stat gives is that of the file that is read, and that the sockets have addresses.
--
-- prac/network/q2/simple-webserver: Http, http_server.cpp from a request to the response, and what
-- connection_handler of simple_server.cpp does with a client, through a buffer that still holds what
-- an earlier client sent. The file system, the clock and std::to_string are arguments, and a file has
-- all its bytes read at once. A fault is an access beyond a vector or to what was not set.
--
-- lab_threads/pthreads-sync-code/goldbach/goldbach.c: Goldbach, the sieve of main and the counts of
-- its threads, for arrays of any size. The loops take as many rounds of fuel as the array is long, which
-- is more than they need. The threads stand one behind the other, since no two touch the same count.
--
-- lab_IPC/ipc-code/bitstring-send.c: Bitstring, the check of the input, the parent and the child with a
-- place for each statement between which a signal can come, and the pending signals as flags, from where
-- the parent has seen the first SIGUSR1.
--
-- lab_threads/pthreads-sync-code/sequence.c and lab_threads/seq.c: Sequence, the three threads that print
-- in turn, with the mutex as a flag, and main of seq.c, which sets the turn again.
mod Base
pub mod Bitstring
pub mod Client
pub mod Goldbach
pub mod Http
pub mod JobShell
pub mod Kv
pub mod MasterWorker
pub mod Philosophers
pub mod RwLock
pub mod Sequence
pub mod Shell
pub mod Transfer
pub mod WriterPref
