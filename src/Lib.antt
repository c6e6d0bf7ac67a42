-- ===== src/Lib.antt =====
-- Verification of WIC, WebSockets in C (src/wic.c with include/wic.h).
--
-- WIC is an implementation of RFC 6455 over any transport. An instance (struct wic_inst) is driven by
-- the calls of its interface, `wic_*`, and calls the application back through handlers.
--
-- The parts, each in a module of its name:
-- - Types, Inst: the enumerations and structures of include/wic.h. A function of the source that
--   changes an instance returns the new one here.
-- - Inst.Handlers: the calls of the handlers. A handler is a function of the application (`App`) from
--   a system to a system, so that it may call the interface again, as the source allows. A system
--   (`Sys`) is the instance, what the application keeps, and the list of the calls made so far.
-- - Stream: struct wic_stream and `stream_*`, the cursor over a block of memory.
-- - Utf8: the UTF-8 automaton `utf8_*`.
-- - Base64, Sha1: `b64_*`, `sha1_*` and `server_hash`, for the handshake's key.
-- - Frame: `min_frame_size`, `init_mask`, `stream_put_frame`.
-- - Send, Close: `wic_send*`, `send_pong_with_payload`, `close_with_reason`, `wic_close*`.
-- - Receive, Receive.Data: `parse_opcode` to `parse_data`, the state machine over received bytes.
-- - Headers: the peer's header fields, stored in the receive buffer, and `wic_set_header`.
-- - Init: `wic_init` and the functions that read a field.
-- - Handshake: `wic_start`, `on_response_complete`, `on_request_complete`.
-- - Parse: `wic_parse`.
-- - Port: the mbed port, port/mbed, a client over the library. Port.Buffers, Port.Output and Port.Inputs
--   are wic_buffer.h and the two queues; Port.Client has the state and the handlers of ClientBase;
--   Port.Jobs and Port.Thread have what its worker thread does, and Port.Calls its public methods.
--   The handlers of the client are an `App` of the library.
-- - Examples: the clients of examples/. Examples.Transport is transport/transport.c, over the sockets of
--   the system; Examples.Autobahn and Examples.Demo are the clients of autobahn and demo_client.
-- The other modules below a part (Close.Laws, Parse.Loop and so on) hold the theorems on it and their
-- lemmas; Tests holds test vectors and the theorems at concrete inputs (Tests.Calls: calls of the
-- interface; Tests.Peers: two peers; Tests.Server: a client that hears a server; Tests.Port: a client
-- of the port, and Tests.Mbed: one that hears a server; Tests.Examples: the example programs).
-- Http holds what is taken from the vendored HTTP parser, src/http_parser.c: `parse_url` and
-- `execute` are arguments of the model.
--
-- A pointer with a size is a list of bytes; a pointer into the receive buffer is an offset. Memory
-- behind the end of a list reads 0. `size_t` has 64 bits and a `uint32_t` lies in memory with its low
-- byte first. Memory that is handed to a call does not change during it. Where the source reads a
-- variable that it has not set, the value is an argument (`undef`).
--
-- Loops over data are recursions on the data. The loop of `wic_parse` takes fuel, 2 * size + 4: each
-- round reads a byte, or ends a payload, or hands a full buffer over; the measure is in Parse.Progress. The
-- loop of `sha1_update_ret` takes a fuel of one for each byte, and that of `wic_get_header` one for
-- each byte stored, of which each round uses two at least.
--
-- mbed OS is an argument of the port (Port.Os): the operations of its event flags, queues, mails and
-- pools, with their documented behaviour as laws (`IsFlags`, `IsMail`, `QueueShrinks`,
-- `MailShrinks`). What the network, the sockets and `rand()` answer are arguments too. The worker thread
-- is a function of its rounds (`Round`), a list of any length; a public method takes what that thread
-- does until the job is done as an argument. Flushing and draining a queue take a fuel of one more than
-- the messages that wait, and give none where it runs out; with the laws of the queues it does not. The
-- blocks of the input queue that were never allocated are taken to be constructed. The calls of the
-- system that the examples use are an argument (`Sockets`); the loop over received bytes has as many
-- rounds as there are bytes, and the connections of an example are followed for a given number of
-- receptions.
--
-- Not modelled: the HTTP parser, which is vendored; the threads and locks of the port, its settings of
-- TLS and its table of names of errors; the debug messages; the example server, which does not fit the
-- wic.h of this repository; the part of the example transport for Windows.
pub mod Base
pub mod Types
pub mod Stream
pub mod Utf8
pub mod Base64
pub mod Sha1
pub mod Inst
pub mod Frame
pub mod Close
pub mod Send
pub mod Receive
pub mod Headers
pub mod Http
pub mod Init
pub mod Handshake
pub mod Parse
pub mod Port
pub mod Examples
mod Tests
