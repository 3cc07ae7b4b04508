-- ===== src/Lib.antt =====
-- The verification library of blvm-datum, the DATUM mining pool module of the BLVM node.
--
-- The program connects to a DATUM pool over TCP. `DatumProtocolClient` (src/datum_protocol.rs) does
-- the handshake and exchanges encrypted messages behind a header of four bytes, which is hidden by a
-- XOR key. Messages are parsed by src/handlers.rs, and the pool's coinbase response by src/pool.rs.
-- `DatumPool` (src/pool.rs) and the server (src/server.rs) call the client.
--
-- Which file models which part:
--   Error: src/error.rs; a result of the model is a value, an error or a panic.
--   Messages: src/messages.rs, the header's fields and the commands.
--   Header: `serialize_header_static`, `deserialize_header_static` and `apply_header_xor` of
--     src/datum_protocol.rs, on bytes and `u32` keys.
--   Handlers: src/handlers.rs, and the dispatch of `handle_protocol_message`.
--   Coinbase: `parse_coinbase_response` of src/pool.rs, its loop by recursion on the output count.
--   Client: the state of `DatumProtocolClient` as a record of what stands behind its locks.
--     Client.Transport is `send_message`, `receive_message` and the two requests, Client.Handshake is
--     `perform_handshake` and `connect`. A method is a function from a state to a result and the state
--     that it leaves, also where it fails. Client.Interleaving has the runs of several tasks on one
--     client: a send and a receive hold the lock of the stream from their start to their end, so that
--     tasks interleave by whole sends and receives. Client.Locks has the tasks that wait for that
--     lock, and what of the stream has arrived.
--   Pool: `DatumPool` of src/pool.rs, over the client; a block is known by the values of its outputs.
--   Config: src/config.rs. Server: src/server.rs and src/template.rs, over the pool; the node's interface
--     and its block types are parameters. Server.Loop is the loop that `start` and `reconnect_pool`
--     spawn, on the client; Server.Status is a specification of the server's status, which its
--     operations refine. Server.PoolLock has the tasks that wait for the pool's lock. Api: src/api.rs, with JSON as a parameter.
--   Module: the commands of src/module.rs. Setup: the set-up of src/main.rs. Entry: its `main`, with the
--     SDK as a parameter.
--   Bytes, Utf8: slices, little-endian numbers and `String::from_utf8_lossy` of Rust's standard library.
--   Stream: a TCP stream, by what can be read from it, what has been written to it, and how each
--     write will go. Crypto: the cryptographic crates, as parameters with their documented laws.
--   Tests: runs on concrete inputs.
--
-- Numbers are natural numbers with the wrap-around of their type written out. The counters of nonces
-- wrap at 2 ^ 64, as in a release build. Offsets of a parser are sums of a buffer's length and at
-- most a `u32`, which do not wrap in a 64-bit `usize`. `decimal` runs on fuel one above the number,
-- which is enough since each step divides it by ten. The receive loop runs on fuel one above the number
-- of bytes that are still to be read, which is enough since each message takes at least four.
--
-- Not modelled: logging; waiting for locks other than those of the stream and of the pool;
-- which task the runtime picks next; loops that are still running on the client of an earlier
-- connection; what the SDK does around the set-up of src/main.rs.
pub mod Common
pub mod Error
pub mod Bytes
pub mod Utf8
pub mod Messages
pub mod Header
pub mod Handlers
pub mod Coinbase
pub mod Crypto
pub mod Stream
pub mod Client
pub mod Pool
pub mod Config
pub mod Server
pub mod Api
pub mod Module
pub mod Setup
pub mod Entry
mod Tests
