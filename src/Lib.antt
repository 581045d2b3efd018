-- ===== src/Lib.antt =====
-- A model of websocket-std (websocket/src): a WebSocket client over a non-blocking socket that is driven
-- by repeated calls of `event_loop`, with the frames, the HTTP messages and the C interface it uses.
--
-- Parts, and the files that model them.
--   * Outcome: `WebSocketError` and `WebSocketResult` (websocket/src/result.rs), with a panic as a third
--     way to end. An index or a slice out of range, `unwrap` of nothing and `todo!` are panics.
--     Outcome.Display has the texts of `Display` and `From<io::Error>`.
--   * Core.Binary, Core.Net: websocket/src/core/binary.rs (`bytes_to_u16`, `bytes_to_u64`) and net.rs
--     (`read_into_buffer`).
--   * WsBasic: websocket/src/ws_basic. Header has `OPCODE`, `FLAG` and `Header::serialize` of header.rs,
--     StatusCode has status_code.rs, Mask has mask.rs, and Frame has frame.rs: `DataFrame` and
--     `ControlFrame` as the constructors of one type, `Frame::serialize` and `bytes_to_frame`. Below
--     Frame stand the proofs, by what they prove: Masking, Server (a reader written after RFC 6455),
--     Messages (that reader on whole messages), RoundTrip, ControlRoundTrip, Bounds, Stream, Panics.
--   * Std: what the source uses of the standard library on texts: UTF-8, `find`, `split`, `trim`,
--     decimals.
--   * Http: websocket/src/http, the request (`Request::serialize`) and the response (`Response::parse`).
--     A `HashMap` of headers is an association list; the order in which it is written is a parameter.
--     Http.Response.Written and Http.Request.Server are the server's side, after RFC 7230: a response
--     that it writes, and a request that it reads.
--   * Extension: websocket/src/extension.rs with the macro `parameter!`.
--   * Sync: websocket/src/sync/client.rs and websocket/src/ws_basic/key.rs (in Sync.Deps). Sync.State has
--     `WSClient` and its setters, Sync.Exec the form of a method (a function of the state, whose changes
--     stay when it ends with an error), Sync.Connect `start_init` and `handle_recv_http_response`,
--     Sync.Send `send`, Sync.Input what is received, Sync.Output what is sent, Sync.EventLoop
--     `event_loop` and `handle_event`, Sync.Drop the destructor. Sync.Tcp is the socket as a script: the
--     reads, the writes and the shutdowns to come, and what has gone out.
--     Sync.Moves has the state machine of the connection and what every handler keeps; Sync.Channel
--     the client as a channel of texts, for calls of `send` and `event_loop` in any order. Below
--     Sync.EventLoop, Asking, Opening and Handshake follow the opening handshake, Delivery a text that
--     comes, Transmission and Drained what is sent, CloseHandshake how the connection is closed;
--     CloseFrames, CloseAnswers and Closing follow the closing handshake from its first byte, and
--     Ping a ping.
--   * Ffi: websocket/src/ffi, the C interface: `rust_error_to_c_error`, `from_rust_event`,
--     `wssclient_loop`, `wssclient_send` and `wssclient_init`; Ffi.Client.Memory has `wssclient_new` and
--     `wssclient_drop` over a table of the clients by their addresses.
--   * Examples: the programs examples/simple_client.rs and examples/thread_client.rs: their callbacks,
--     their loops over a clock, and the two threads, each with its own clocks, as they take turns.
--
-- How they interact: `event_loop` reads bytes from the socket, parses a frame or, in the handshake, a
-- response, queues it, and handles one input and one output event. A handler queues output events and
-- calls the callback of the program, which is a parameter: a function of the event and the whole state,
-- which has, beside the client, the connections to come, the random numbers drawn, the cells that a
-- program shares with its callback, what has been printed, and the sockets that the client has dropped
-- after the closing handshake. A callback that does not return, or panics, is marked in the state
-- (`progress`): the handler that called it goes on here, and the programs in examples look at the mark
-- when `event_loop` or the destructor is over; they hang or unwind then.
--
-- Bounds and fuel. Numbers are natural numbers; sums of `usize` and `u64` wrap at 2 ^ 64 where the
-- source adds them, as in a build without overflow checks. The loop of `send` runs on fuel, and one
-- round more than the text has bytes is enough where it ends at all. The loop of `drop` runs on fuel
-- over a clock that gives the seconds since its start at each round; a round more than the clock needs
-- to reach the timeout is enough. So do the loops of the programs in examples. All other loops are
-- structural.
--
-- Parameters: the crates bitflags (with its documented `from_bits`), getrandom (buffers of the length
-- asked for), sha1_smol and base64, the order of a `HashMap`, and the tables of `to_lowercase`. The
-- decimal of the port is not needed, since how `connect` ends is in the state.
--
-- Not modelled: `Frame::as_any`, what is not done any more inside a call of `event_loop` whose callback
-- panics or never returns, a standard output that fails, the standard error, the turns of two threads inside a call of `event_loop`, the layout of a
-- client in memory, the C header and the C example, and the tests.
pub mod Prelude
pub mod Outcome
pub mod Std
pub mod Core
pub mod WsBasic
pub mod Http
pub mod Sync
pub mod Examples
pub mod Extension
pub mod Ffi
