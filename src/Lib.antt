-- ===== src/Lib.antt =====
-- A verification library for TecnicoFS, a file system in memory behind a server that clients reach
-- through named pipes.
--
-- The program has three layers. `tecnicofs_ex2/fs/state.c` keeps the tables: i-nodes, data blocks,
-- directory entries inside a data block, and the open file table. `tecnicofs_ex2/fs/operations.c`
-- builds the calls of the file system on them (`tfs_init`, `tfs_open`, `tfs_close`, `tfs_write`,
-- `tfs_read`, `tfs_destroy_after_all_closed`) under two mutexes. The server
-- `tecnicofs_ex2/fs/tfs_server.c` and the client `tecnicofs_ex2/client/tecnicofs_client_api.c` pass
-- these calls through pipes.
--
-- Files:
--   Common: shared names, tests on numbers, `ℤ` for `int`, and C arrays as functions.
--   Memory: bytes behind addresses, `memcpy`, `int` in memory, `strncpy` and `strncmp`.
--   State: `tecnicofs_ex2/fs/config.h`, `state.h` and `state.c`. The static arrays are the fields of
--     `FsState`; State/Blocks has the data blocks, State/Inodes `inode_create` and `inode_delete`,
--     State/Directory `add_dir_entry` and `find_in_dir`, State/OpenFiles the open file table.
--     State/Search, Entries and Results are about the loops and outcomes, State/Invariant about
--     what holds between two calls.
--   Operations: `tecnicofs_ex2/fs/operations.c`. The statics `called_destroy` and `open_files` are
--     fields of `Tfs`; what the pthread calls return is the parameter `Pthread`. Operations/Open has
--     `_tfs_open_unsynchronized`, Operations/Transfer the reads and writes, Operations/Shutdown
--     `tfs_destroy_after_all_closed` with the calls of other threads as a list.
--   Wire: what client and server share. Wire/OpCode has the operation codes of
--     `tecnicofs_ex2/common/common.h`, Wire/Text the decimal fields of the messages, Wire/Pipes the
--     loops `slait`, `slait_write` and `slait_open`; the system calls are the parameter `Os`.
--     Wire/Decimal, Slait and Stream are about them.
--   Client: `tecnicofs_ex2/client/tecnicofs_client_api.c`. Client/Messages builds the requests,
--     Client/Answers is about the answers.
--   Server: `tecnicofs_ex2/fs/tfs_server.c`. Server/Sessions has the session table, Server/Handlers
--     the functions `tfs_handle_...` of the main thread, Server/Main a round of its loop,
--     Server/Threads the functions `tfs_thread_...` and a round of `solve_request`, on Operations.
--     Server/Asked says which request a call of the client should leave to the slave;
--     Server/Start has what `main` does before its loop, Server/Errors `handle_error`.
--     Server/Fields, Delivery and Transfers are about the requests, Server/Table and Deadlock about
--     the sessions.
--     Server/System is about the whole state in which `main` begins its loop.
--   Calls: a call of the client as a whole. `Connection` says how the two pipes behave, and
--     `attended` lets the server handle a request as soon as it is written. Calls/Mounting has the
--     same for a mount, which the server handles when the client has opened its own pipe.
--     Operations/Reload and Calls/Reload are about several calls in a row.
--   Tests: runs at concrete inputs, and the theorems applied to them.
--
-- Loops run over the source's bounds (50 i-nodes, 1024 blocks of 1024 bytes, 20 handles, 23 entries
-- of 44 bytes in a directory) as structural recursion on the rounds left. `size_t` has 64 bits and
-- wraps; an `int` in memory has 32. An access outside `fs_data` is the result `none`.
--
-- `slait` has one round more than the bytes asked for, and each round but the last stores a byte.
-- The loops that try to open a pipe for ever get a number of attempts. A field of a message has four
-- bytes, so that three digits are always followed by a zero. A file's name is the raw bytes of its
-- buffer, so that the bytes behind a terminating zero count where the source reads them. The main
-- thread and each slave work in rounds of one request; `global_locked` records when `global_mutex`
-- is left locked behind a round. The parts of a round before and after a mutex have a definition
-- each: `ask_unmount` and `close_one`, `close_session` and `free_session`, `await_request` and
-- `carry_out`. Where a round of two parts is `stuck` at the mutex, its first part has had its effect.
--
-- A `Connection` carries at most 4096 bytes at a time (PIPE_BUF); the requests that are proved to
-- arrive are shorter.
--
-- Not modelled: rounds of different threads that overlap, so that the main thread changes a request
-- or the session table while a slave works on it; a pthread call of `server_init`
-- that fails; `insert_delay`, which only takes time; printing; the thread that prints the operation
-- counter and the SIGINT handler; the NULL name, which no caller passes.
pub mod Common
pub mod Memory
pub mod State
pub mod Operations
pub mod Wire
pub mod Client
pub mod Server
pub mod Calls
pub mod Tests
