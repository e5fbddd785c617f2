-- ===== src/Lib.antt =====
-- The WebSocket protocol of tungstenite, modelled from its Rust source.
--
-- The program reads and writes WebSocket frames over a byte stream (RFC 6455). A frame codec
-- (src/protocol/frame/mod.rs) turns the bytes of the stream into frames and back; it uses the frame
-- header (src/protocol/frame/frame.rs), the opcodes and close codes (src/protocol/frame/coding.rs)
-- and the masking of payloads (src/protocol/frame/mask.rs). The connection (src/protocol/mod.rs)
-- has a codec, the state of the closing handshake, the message that is being assembled
-- (src/protocol/message.rs, which uses src/utf8.rs) and, if agreed, a compression codec
-- (src/protocol/deflate/codec.rs), whose settings the endpoints negotiate in header fields
-- (src/protocol/deflate/negotiate.rs). Before all that, a handshake goes through rounds of reading,
-- writing and flushing (src/handshake/machine.rs), which roles drive (src/handshake/mod.rs): a
-- server answers a request (src/handshake/server.rs), which a client has made from a URI
-- (src/client.rs) and whose answer it checks (src/handshake/client.rs).
--
-- Files, and the source that they follow:
--   Prelude, Prelude/*    names of the library, tests, lists and bits
--   Types, Result         CloseFrame, FrameHeader, Frame, Message, Error, requests and responses;
--                         `Result`, and `Exec` for code with `&mut` access to a state
--   Result/Fallible       chains of fallible code without a state
--   Coding, Coding/*      src/protocol/frame/coding.rs: OpCode, CloseCode, the From conversions
--   Header, Header/*      src/protocol/frame/frame.rs: FrameHeader::{parse, format, len}, LengthFormat
--   Mask, Mask/*          src/protocol/frame/mask.rs: apply_mask_fallback, apply_mask_fast32
--   Utf8, Utf8/*          str::from_utf8 as documented; src/utf8.rs: decode, Incomplete::try_complete
--   Frame, Frame/*        src/protocol/frame/frame.rs: Frame; src/protocol/message.rs: Message
--   Collector, Collector/* src/protocol/message.rs: StringCollector, IncompleteMessage
--   Stream                the byte stream, random masks and the growth of a buffer, which are
--                         parameters, with what their documentation promises (`Lawful`)
--   Codec, Codec/*        src/protocol/frame/mod.rs: FrameCodec, FrameSocket
--   Context               src/protocol/mod.rs: WebSocketConfig, WebSocketState, WebSocketContext
--   Context/Config        src/protocol/mod.rs: the setters of WebSocketConfig
--   Context/Send          src/protocol/mod.rs: write, flush, _write, close, buffer_frame
--   Context/Receive       src/protocol/mod.rs: read, read_message_frame, do_close, decompress
--   Context/Socket        src/protocol/mod.rs: WebSocket
--   Context/Discard       a connection that has lost its compression state
--   Context/Sending       how writing changes the state of a connection
--   Context/Closing       how receiving a frame changes the state of a connection
--   Deflate               src/protocol/deflate/mod.rs: Settings
--   Deflate/Text          src/protocol/deflate/negotiate.rs: split_header, unquote, trim_ascii, and the
--                         functions of the standard library on texts that it calls
--   Deflate/Parameters    src/protocol/deflate/negotiate.rs: parse, Params, Extension
--   Deflate/Negotiate     src/protocol/deflate/negotiate.rs: offer, accept_response, accept_offers
--   Deflate/Split, Table, Windows, Totality, Answering, Agreement, Safety, Safety/*  what header values are split into, tables of
--                         offers and answers, the windows, one negotiation, any negotiation
--   Deflate/Codec         src/protocol/deflate/codec.rs: Context, ConfiguredDecoder; flate2 is a
--                         parameter (`Flate`), with what its documentation promises (`Lawful`)
--   Deflate/Inflate, Decompress, Opening  the loop of `inflate`, `decompress`, `Context::new`
--   Deflate/Service       the codec as the interface `Deflate` of a connection
--   Deflate/Config, Serving  src/protocol/mod.rs: WebSocketConfig::{enable_deflate, accept_deflate_offers}
--                         and the like, and the connection of a server
--   Handshake             src/handshake/mod.rs: MidHandshake::handshake, derive_accept_key
--   Handshake/Buffer      src/buffer.rs: ReadBuffer
--   Handshake/Machine     src/handshake/machine.rs: HandshakeMachine, AttackCheck; src/util.rs: no_block
--   Handshake/Attack, Reading, Reading/*, Writing, Writing/*, Loop  the attack check, the rounds and
--                         the whole of either stage, the loop over them
--   Handshake/Http        what the `http` and `httparse` crates, SHA-1 and Base64 give: parameters, with
--                         what their documentation promises (`Lawful`)
--   Handshake/Parse       src/handshake/headers.rs, and TryParse and FromHttparse of server.rs, client.rs
--   Handshake/Server      src/handshake/server.rs: create_response, write_response, ServerHandshake
--   Handshake/Fields, Upgrade, Answer  the requests that a server takes, the fields of its response
--   Handshake/Client      src/handshake/client.rs: VerifyData, ClientHandshake::stage_finished
--   Handshake/Start       src/handshake/client.rs: generate_request, ClientHandshake::start;
--                         src/client.rs: uri_mode
--   Handshake/Roles       src/server.rs; src/client.rs: client_with_config, client
--   Handshake/Wire, Generated  requests and responses as lines of text, and the request that is written
--   Handshake/Parsing, Asking, Answered, Serving, Started  the parsers, and the whole handshakes of a client
--                         and of a server
--   Handshake/Verified, Established  the response that a client accepts, the connection that it opens
--   Handshake/Agreed      a client and a server whose handshakes meet
--   Connect               src/client.rs: IntoClientRequest, ClientRequestBuilder
--   Connect/Redirects, Redirects/*  src/client.rs: connect_with_config, connect; the network is a parameter
--   Connect/Upgrading, Meeting  a request that is made from a URI, at the client and at a server
--   Examples, Examples/*  a concrete stream, inflater and role, and the theorems at concrete inputs
--
-- A value with `&mut self` methods is a state that is passed on; it comes back beside an error too.
-- A panic (`unwrap`, `expect`, `assert!`, `unreachable!`, a slice out of range) is a result of its
-- own. Bytes and lengths are natural numbers. usize is taken to have 64 bits. The loop of
-- `write_out_buffer` takes one round more than the buffer has bytes; each round writes one byte at
-- least. The loops of `read_frame` and `read` depend on what the stream sends, so they take the
-- number of rounds they may go, and a loop that uses them up panics in the model. The loop of
-- `inflate` takes a round more than there is input and room under the limit: each round that goes on
-- takes a byte or puts one out. The loops of `compress` take their rounds as an argument: only flate2
-- knows when they end. A stage of a handshake takes the rounds that its packets or bytes leave it,
-- and the loop over the stages takes their number, which the role knows; the handshakes of clients
-- and servers are given three, one more than either role goes through. The
-- loop of redirects takes one attempt more than the redirects that may be followed, as in the source,
-- and panics behind its end.
--
-- Not modelled: TLS and streams (src/tls.rs, src/stream.rs; connecting is modelled as built without a
-- TLS feature), Display and log output, the texts of UTF-8 errors, and `debug_assert!`. flate2, SHA-1,
-- Base64, `httparse`, the network, the random bytes of a key, and the header maps, values, status
-- codes and URIs of the `http` crate are parameters; a URI is its text, and a method other than GET its
-- name.
pub mod Prelude
pub mod Types
pub mod Result
pub mod Coding
pub mod Header
pub mod Mask
pub mod Utf8
pub mod Frame
pub mod Collector
pub mod Stream
pub mod Codec
pub mod Context
pub mod Deflate
pub mod Handshake
pub mod Connect
pub mod Examples
