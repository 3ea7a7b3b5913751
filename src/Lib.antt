-- ===== src/Lib.antt =====
-- The OpenVPN management protocol: the frame library, the command and message codec, the session.
--
-- The program has three layers. `openvpn-mgmt-frame` cuts a byte stream into lines and
-- classifies each as a frame; a `>CLIENT` block of several lines is collected to one frame. It
-- also has the primitives that write command lines and blocks. `openvpn-mgmt-codec` writes
-- commands with those primitives and turns frames into messages. It keeps a queue with the kind of
-- response that each command in flight will have, since a line of a response does not say so
-- itself, and accumulates the lines of a response up to its `END`. The session sends one command
-- after the other and waits for each response; it keeps the notifications that come before it in
-- a stash, and reads the texts of the responses.
--
-- Which file models which part:
--   Prelude, Text     Boolean tests, lists, results; `str` as a list of code points and bytes as
--                     a list of numbers, with `std`'s string operations, UTF-8 and decimal text.
--   Frame/Types       openvpn-mgmt-frame/src/frame.rs, the modes, limits and errors.
--   Frame/Encoder     openvpn-mgmt-frame/src/encoder.rs: `wire_safe`, `escape`, `quote`,
--                     `write_line`, `write_block`. A buffer is passed in and the longer one
--                     returned, also beside an error, so what a failing call has written shows.
--   Frame/EnvMap      the `BTreeMap` of ENV entries.
--   Frame/Decoder     openvpn-mgmt-frame/src/decoder.rs: `FrameDecoder` and `decode`.
--                     `decode_line` is the loop's body for one line, by its phases; a round ends
--                     in a `LineStep`: return a frame, go on, or return an error.
--                     Frame/Decoder/Steps says what a line does without the code's tests, and
--                     Frame/Decoder/Sound and Refinement compare it with `decode_line`.
--   Values            the value types of openvpn-mgmt-codec/src with `Display` and `FromStr`.
--   Command           openvpn-mgmt-codec/src/command.rs: the commands, the kind of response of
--                     each, the connection sequences, `next_token` and `FromStr`; its `match` is
--                     `parse_command` in Command/Parse, with the longer arms in child modules.
--   Message           openvpn-mgmt-codec/src/message.rs and the parsers of codec.rs;
--                     Message/Parse/Kinds and Dispatch are about the parser that a
--                     kind goes to.
--   Codec/State       the state of `OvpnCodec` (openvpn-mgmt-codec/src/codec.rs).
--   Codec/Wire        the arms of `encode`, as the line or block that each writes.
--   Codec/Encode      `encode`; Codec/Sanitize is about its mode `Sanitize`.
--   Codec/Decode      `decode`: `on_frame` is the `match` on a frame.
--   Codec/Readback    `encode` and `FromStr` together, on whole lines in Codec/Readback/Whole.
--   Codec/Pipeline    `encode` and `decode` together: commands in flight and their replies.
--   Timestamp         openvpn-mgmt-codec/src/timestamp.rs; Timestamp/Calendar is the calendar that
--                     its dates are compared with.
--   Responses         openvpn-mgmt-codec/src/parsed_response.rs; Responses/Version is
--                     version_info.rs.
--   Status            openvpn-mgmt-codec/src/status.rs: Status/Legacy is `parse_status_v1`,
--                     Status/Tagged `parse_status_v2v3`, Status/Statistics the statistics of a
--                     client.
--   Crv1              openvpn-mgmt-codec/src/crv1_challenge.rs and crv1_response.rs.
--   Session           openvpn-mgmt-codec/src/split.rs, management_event.rs and session.rs: Session
--                     has `EventStream` and what the methods share, Session/Methods and
--                     Session/Queries the methods of `ManagementSession`, Session/Sink those of
--                     `ManagementSink`; Session/Wires joins the session to the codec, and
--                     Session/Unexpected too, for answers that a method does not wait for.
--   Tests             the theorems at concrete inputs.
--
-- Both `decode` loops are recursions on fuel, and are started with one more round than the buffer
-- has bytes; a round that goes on has taken at least one byte, and it is proved that the fuel
-- never runs out. Numbers are natural numbers; a parsed number is checked against the bound of
-- its type.
--
-- The session reads a transport that is a parameter, a `Transport` with `send` and `next`: `Framed`
-- of tokio_util, whose two halves share the connection. An `async` method is a function on the
-- connection and the stash; it is done, or it waits where the peer sends nothing more. Its fuel
-- bounds the notifications that come before the response, and a session theorem asks for more
-- fuel than there are notifications.
--
-- Left out: logging, and the reservation of buffer space, which change no content. The code is that
-- of a release build: the one assertion of debug builds, in `parse_password`, is not in it. The `base64`
-- crate is a parameter of the functions that use it. `Redacted` values are their text. Not
-- modelled: the command line tool and the user interface, which are input, output and widgets.
pub mod Prelude
pub mod Text
pub mod Frame
pub mod Values
pub mod Command
pub mod Message
pub mod Codec
pub mod Timestamp
pub mod Responses
pub mod Status
pub mod Crv1
pub mod Session
pub mod Tests
