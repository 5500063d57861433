-- ===== src/Lib.antt =====
-- rumsh, a roaming remote shell over UDP: a model of the program and what holds of it.
--
-- The program's parts and how they interact. The server keeps the authoritative terminal. When the
-- shell writes, `AuthoritativeSession` takes the emulator's grid, and makes a job: the difference
-- of the grid against the last grid that the client acknowledged. The job's `FrameUpdate` is
-- serialized, compressed, sealed and cut into fragments by a `PacketCodec`. The client's
-- `MirrorSession` opens the fragments, patches the grid that the update refers to, and shows it
-- through `ClientTerminal`, whose local echo draws keys before the server confirms them. Keys go
-- through the escape interpreter and then, numbered and kept until acknowledged, to the server,
-- which processes them in order. To begin, `bootstrap` of the client starts the server command over
-- ssh and reads its port and key off the output, and a handshake agrees on the session.
--
-- The files, and the code each is about (paths from the repository's root):
--   Prelude: shared names; Prelude/Tests, Lists, Maps, Fallible: Boolean tests, lists for vectors,
--     association lists for maps, and the results of code that fails or panics. Prelude/Stateful:
--     code that fails and keeps what it has changed. Prelude/Texts, with Texts/Numerals: Rust's
--     strings, and its printing and reading of numbers.
--   Protocol: src/protocol.rs. Protocol/Compression: its compression with a flag byte.
--     Protocol/External: bincode, LZ4 and ChaCha20Poly1305 as parameters.
--   Protocol/Grapheme, Protocol/Grid: src/protocol/grid.rs (`CompactGrapheme`, `GridState`,
--     `diff_from`, `patch`).
--   Protocol/Fragments: `FragmentBuffer` of src/protocol/codec.rs; Protocol/Codec: its trait
--     `PacketCodec`, with `ChaChaCodec` in Codec/ChaCha and `NullCodec` in Codec/Null.
--   Crypto: src/crypto.rs.
--   Client/Escape: src/client/escape.rs, with Escape/Tokens (the keys as tokens). Client/Echo:
--     src/client/echo.rs.
--   Client/Frame, Client/Terminal: `TerminalFrame` and `ClientTerminal` of src/client/terminal.rs.
--     Client/Paint: its `paint`, whose output is a list of commands; Paint/Screen, Row, Rows, Shown: a
--     terminal that obeys them.
--   Client/Session: src/client/session.rs; State (the session), Prepare (packets made), Receive
--     (`feed_packet`), Stdin (`feed_stdin`, `on_winch`), Tick (`on_tick`).
--   Server/Session: src/server/session.rs; State (the session, its history, the update job), Queue
--     (`check_sync`), Packets (`feed_packet`, `on_pty_bytes`, `on_tick`), Syncing, Throttle (when a
--     frame is queued, and which), Settled (what is left to send). Server/Interface: the PTY and the
--     emulator it drives.
--   Sync: src/server/session.rs and src/client/session.rs together; Sync/Reach has the steps of a
--     server, a client and the network between them.
--     Sync/World: runs in which the server takes only acknowledgements that the client gave; Kept and
--     Genuine (what its steps keep), Numbers (how long a grid is kept), Hearing (what a datagram does
--     to the history), Queueing (the reference of a frame), Shown (a frame at `feed_packet`);
--     Steps, Serving, Processing and Feeding: `feed_packet` of the server as steps of such a run.
--     Sync/Handshake, Sync/FirstKeys: a client and a server from the handshake on.
--   Server/Emulator: the emulator library, as a parameter. Server/Terminal: src/server/state.rs, with
--     Terminal/Cells (`read_cell` and its text), Rows, Mirror, Caches and Update (proofs).
--   Server/Pty: `is_echo_recommended` of src/server/pty.rs with its cache.
--   Server/Ports: the addresses and ports of src/server/network.rs; Server/Network: its handshake in
--     Network/Handshake, `execute_actions` and the tasks that it spawns in Network/Tasks, the loops of
--     `run_server` in Network/Serving; Serving/InFlight, Skipped and Ends (proofs).
--   Client/Lifecycle: src/client/lifecycle.rs over the trait of its backends. Client/Network:
--     src/client/network.rs, its handshake in Network/Handshake and its event loop in Network/Events.
--   Client/Bootstrap: src/client/bootstrap.rs. Main: src/main.rs.
--   Tests: runs of the definitions and theorems on concrete inputs.
--
-- How the code is modelled. A method on `&mut self` takes the state and returns the new one; a
-- method that fails returns `ok`, `err bail` (an `anyhow` error, its message dropped) or `err
-- panic`. A method behind a lock is one step. `Vec`, `VecDeque` and arrays are lists; `HashMap` and
-- `BTreeMap` are association lists in rising order of the keys, so an iteration over a `HashMap` is
-- in one of the orders that it may take. `u16` coordinates and indices wrap at 2^16 as in a release
-- build, which has no overflow checks; sequence numbers are `u64` and are not wrapped, since
-- 2^63 packets are never sent. Instants and durations are nanoseconds. `f32` is an abstract type
-- with the operations that the telemetry uses, and no law.
--
-- The emulator's reads may fail, one by one, as its library says; the state keeps what was changed
-- before. The tasks of the server are steps of a relation: a task runs from one `await` to the next,
-- in any interleaving. Time does not pass within them. The ssh process, the resolution of names,
-- the binding of sockets and `daemonize` are functions that a theorem takes. The client's event loop
-- runs on a list of events and a list of readings of the clock.
--
-- Loops are structural, but for `chunks` (fuel: the number of bytes, of which each round takes at
-- least one), `drain` of the server's session (fuel: the number of buffered packets, of which
-- each round takes one), `decimal` (fuel: 5, the most digits of a `u16`) and `paint_row` (fuel: the
-- number of columns, of which each round takes at least one unless the column wraps).
--
-- Not modelled: the calls of crossterm and the signals (src/client/lifecycle.rs), the start of
-- the shell and its reader (src/server/pty.rs), the emulator itself, the parser of the command line and the choice of
-- the log file (src/main.rs), log calls, and the messages of errors. These call the operating system
-- at every step.
pub mod Prelude
pub mod Protocol
pub mod Crypto
pub mod Client
pub mod Server
pub mod Sync
pub mod Main
mod Tests
