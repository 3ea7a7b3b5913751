-- ===== src/Tests/Codec.antt =====
-- The codec: concrete runs of the encoder and the decoder.
use openvpn_mgmt_codec.Values.Auth.{private_key}
use openvpn_mgmt_codec.Codec.Readback.{deny_args, IsCleanReason, password_args}
use openvpn_mgmt_codec.Codec.Readback.Whole.{Encodes, client_deny-readback, password-readback}
use openvpn_mgmt_codec.Command.Parse.{from_str}
use openvpn_mgmt_codec.Prelude.{
  ◌+◌, ◌<◌, ◌≡◌, refl, List, [], ◌∷◌, ◌++◌, none, some, arith, All, length, true, false,
}
use openvpn_mgmt_codec.Prelude.Results.{ok}
use openvpn_mgmt_codec.Text.{any, Str, Bytes, codes, str_eq, trim_end_by, strip_prefix, trim_start}
use openvpn_mgmt_codec.Text.Laws.{str_eq-false}
use openvpn_mgmt_codec.Text.Utf8.{as_bytes}
use openvpn_mgmt_codec.Frame.Types.{Frame, sanitize, max}
use openvpn_mgmt_codec.Frame.Decoder
use openvpn_mgmt_codec.Frame.Decoder.Lines.{IsOther}
use openvpn_mgmt_codec.Values.StatusFormat.{v3}
use openvpn_mgmt_codec.Command.Types.{
  ClientDeny, client_deny, password, OvpnCommand, status, version, set_version, pid, raw,
}
use openvpn_mgmt_codec.Command.Response.{ResponseKind, expected_response}
use openvpn_mgmt_codec.Command.Response
use openvpn_mgmt_codec.Command.Token.{next_token, next_token-quoted}
use openvpn_mgmt_codec.Message.Types.{
  OvpnMessage, success, multi_line, unrecognized, unexpected_line,
}
use openvpn_mgmt_codec.Message.Parse.{parse_notification_from_frame}
use openvpn_mgmt_codec.Message.Parse.Kinds.{MessageHasKind}
use openvpn_mgmt_codec.Message.Parse.Dispatch.{parse_notification_from_frame-MessageHasKind}
use openvpn_mgmt_codec.Frame.Encoder.{wire_unsafe}
use openvpn_mgmt_codec.Frame.Encoder.Lines.{IsClean, any-IsClean}
use openvpn_mgmt_codec.Codec.State
use openvpn_mgmt_codec.Codec.State.{OvpnCodec}
use openvpn_mgmt_codec.Codec.Wire.{quoted, command_wire}
use openvpn_mgmt_codec.Codec.Wire.Safety.{IsSafeWire, command_wire-IsSafeWire}
use openvpn_mgmt_codec.Codec.Encode.{encode}
use openvpn_mgmt_codec.Codec.Sanitize.{encode-sanitize}
use openvpn_mgmt_codec.Codec.Decode.{decode, is_malformed}
use openvpn_mgmt_codec.Codec.Decode.Responses.{
  nil, a_line, an_aside, a_notification, Replies, none_left, next_reply, succeeded, answered, at,
  run, prepend,
}
use openvpn_mgmt_codec.Codec.Decode.Progress.{Ends, decode-Ends}
use openvpn_mgmt_codec.Codec.Decode.Polls.{
  polls, wires, IsReadable, IsReadable-notification, polls-wires,
}
use openvpn_mgmt_codec.Codec.Decode.Limits.{WithinLimit, MessageFits, decode-WithinLimit_lines}
use openvpn_mgmt_codec.Codec.Decode.Errors.{AfterBroken, decode-AfterBroken}
use openvpn_mgmt_codec.Codec.Pipeline.{
  Written, encode-Written, encode_all, kinds, encode_all-Replies, encode_all-lost_line,
}

-- A base64 encoder that gives the empty text: enough for commands without challenge responses.
abbrev pub no_base64 : Bytes → Str
no_base64 b = []

-- After the banner.
abbrev pub ready : OvpnCodec
ready = record State.new { frame_decoder = record Decoder.new { seen_info = true } }

abbrev commands : List (OvpnCommand × Bytes)
commands = (pid, []) ∷ (version, []) ∷ []

abbrev pub hold : Frame
hold = Frame.notification (codes "HOLD") (codes "x")

abbrev pub reply : List Frame
reply = Frame.success (codes "pid=7") ∷ Frame.line (codes "V: 2") ∷ hold ∷ Frame.end ∷ []

abbrev replied : List OvpnMessage
replied =
    success (codes "pid=7")
    ∷ parse_notification_from_frame (codes "HOLD") (codes "x")
    ∷ multi_line (codes "V: 2" ∷ [])
    ∷ []

reply-Replies : Replies ready.max_multi_line_lines (kinds no_base64 commands) reply replied
unfolding kinds expected_response is_malformed strip_prefix
reply-Replies = next_reply (succeeded (codes "pid=7") tt) (
    next_reply
      (answered
        (a_line (codes "V: 2") refl (an_aside (a_notification (codes "HOLD") (codes "x")) nil))
        (omega arith))
      none_left)

version_line-IsOther : IsOther (codes "V: 2")
unfolding strip_prefix str_eq
version_line-IsOther = record {
  not_success = refl;
  not_error = refl;
  not_prompt = str_eq-false (codes "V: 2") Decoder.pw_prompt refl;
  not_end = str_eq-false (codes "V: 2") (codes "END") refl;
  not_notification = refl;
}

pub reply-IsReadable : All IsReadable reply
unfolding trim_end_by str_eq strip_prefix
reply-IsReadable = (
  ((omega arith, omega arith, refl), λ d e. (tt, refl)),
  (
    ((omega arith, omega arith, refl), λ d e. (version_line-IsOther, refl)),
    (
      IsReadable-notification (codes "HOLD") (codes "x") (omega arith, omega arith, refl)
          (omega arith) (str_eq-false (codes "HOLD") (codes "CLIENT") refl),
      (((omega arith, omega arith, refl), λ d e. (tt, refl)), tt),
    ),
  ),
)

encode_all-Replies_example :
    polls (length (wires reply) + 1) (encode_all no_base64 ready commands) (wires reply)
    ≡ record { codec = ready; messages = replied; stopped = none }
encode_all-Replies_example =
    encode_all-Replies no_base64 ready commands refl refl refl reply-IsReadable reply-Replies

reply-length : length (wires reply) < 40
unfolding wires as_bytes
reply-length = omega arith

polls-wires_example : polls 40 ready (wires reply) ≡ run ready reply
polls-wires_example =
    polls-wires ready.frame_decoder reply 40 ready refl reply-IsReadable reply-length refl

status_kind : expected_response (status v3) ≡ Response.multi_line
unfolding expected_response
status_kind = refl

text_is_fine : is_malformed (codes "T") ≡ false
unfolding is_malformed strip_prefix
text_is_fine = refl

encode_all-lost_line_example :
    run
      (encode_all no_base64 ready ((set_version 1, []) ∷ (status v3, []) ∷ []))
      (Frame.line (codes "T") ∷ [])
    ≡ prepend
        (unrecognized (codes "T") unexpected_line ∷ [])
        (run (at ready (Response.multi_line ∷ []) none) [])
encode_all-lost_line_example =
    encode_all-lost_line no_base64 ready 1 (status v3) [] [] b'T' [] [] refl refl (omega arith)
      status_kind text_is_fine

encode-Written_example :
    Written [] sanitize
      (encode no_base64 ready (raw (codes "a\nb")) []).1
      (encode no_base64 ready (raw (codes "a\nb")) []).2
encode-Written_example = encode-Written no_base64 ready (raw (codes "a\nb")) [] (λ b. tt) tt

command_wire-IsSafeWire_example : IsSafeWire (command_wire no_base64 sanitize (raw (codes "a\nb")))
command_wire-IsSafeWire_example =
    command_wire-IsSafeWire no_base64 (λ b. tt) sanitize (raw (codes "a\nb")) tt

decode-Ends_example :
    Ends
      (codes ">HOLD:x\n")
      (decode ready (codes ">HOLD:x\n")).buffer
      (decode ready (codes ">HOLD:x\n")).polled
decode-Ends_example = decode-Ends ready (codes ">HOLD:x\n")

decode-WithinLimit_lines_example :
    WithinLimit (max 10_000) (decode ready (codes "END\n")).codec
    × MessageFits (max 10_000) (decode ready (codes "END\n")).polled
decode-WithinLimit_lines_example =
    decode-WithinLimit_lines (max 10_000) ready (codes "END\n") (omega arith) (tt, refl)

decode-AfterBroken_example :
    AfterBroken (decode ready (255 ∷ b'\n' ∷ [])).codec (decode ready (255 ∷ b'\n' ∷ [])).polled
decode-AfterBroken_example = decode-AfterBroken ready (255 ∷ b'\n' ∷ [])

next_token-quoted_example :
    next_token (quoted (codes "a\"b") ++ codes " c") ≡ some (codes "a\"b", trim_start (codes " c"))
next_token-quoted_example = next_token-quoted (codes "a\"b") (codes " c")

parse_notification_from_frame-MessageHasKind_example :
    MessageHasKind
      (codes "ECHO")
      (codes "1,x")
      (parse_notification_from_frame (codes "ECHO") (codes "1,x"))
parse_notification_from_frame-MessageHasKind_example =
    parse_notification_from_frame-MessageHasKind (codes "ECHO") (codes "1,x")

abbrev denied : ClientDeny
denied = record { cid = 3; kid = 1; reason = codes "no \"x\""; client_reason = some (codes "bye") }

denied-IsClean : IsClean denied.reason × IsCleanReason denied.client_reason
unfolding any wire_unsafe
denied-IsClean = (any-IsClean (codes "no \"x\"") refl, any-IsClean (codes "bye") refl)

client_deny-readback_example :
    Encodes no_base64 ready [] (client_deny denied) (codes "client-deny " ++ deny_args denied)
    × (from_str (codes "client-deny " ++ deny_args denied) ≡ ok (client_deny denied))
client_deny-readback_example =
    client_deny-readback no_base64 ready [] denied (omega arith) (omega arith) denied-IsClean.0
      denied-IsClean.1

secret-IsClean : IsClean (codes "a\"b\\")
unfolding any wire_unsafe
secret-IsClean = any-IsClean (codes "a\"b\\") refl

abbrev secret_args : Str
secret_args = password_args private_key (codes "a\"b\\")

password-readback_example :
    Encodes no_base64 ready []
      (password private_key (codes "a\"b\\"))
      (codes "password " ++ secret_args)
    × (from_str (codes "password " ++ secret_args) ≡ ok (password private_key (codes "a\"b\\")))
password-readback_example =
    password-readback no_base64 ready [] private_key (codes "a\"b\\") tt secret-IsClean

encode-sanitize_example : (encode no_base64 ready (raw (codes "a\nb")) []).2 ≡ ok tt
encode-sanitize_example = encode-sanitize no_base64 ready (raw (codes "a\nb")) [] refl
