-- ===== src/Codec/Decode.antt =====
-- `Decoder::decode` of openvpn-mgmt-codec/src/codec.rs. The source's logging is left out.
pub mod Polls
pub mod Responses
pub mod Progress
pub mod Rule
pub mod Limits
pub mod Errors
use openvpn_mgmt_codec.Prelude.{
  ℕ, zero, suc, Bool, true, false, ◌&&◌, not, List, [], ◌∷◌, ◌++◌, Option, none, some, ltb, leb,
  if◌then◌else◌, is_none, length,
}
use openvpn_mgmt_codec.Text.{Str, Bytes, codes, is_empty, contains, strip_prefix}
use openvpn_mgmt_codec.Frame.Types.{
  Frame, AccumulationLimit, unlimited, max, IoError, multi_line_accumulation_limit_exceeded,
}
use openvpn_mgmt_codec.Frame.Types
use openvpn_mgmt_codec.Frame.Decoder.{Decoded, Outcome, frame, pending, failed, out_of_fuel}
use openvpn_mgmt_codec.Frame.Decoder
use openvpn_mgmt_codec.Command.Response.{
  ResponseKind, success_or_error, multi_line as multi_line_kind, no_response,
}
use openvpn_mgmt_codec.Message.Types.{
  OvpnMessage, success, error, multi_line, info, password_prompt, unrecognized,
  malformed_notification, unexpected_line,
}
use openvpn_mgmt_codec.Message.Parse.{parse_notification_from_frame, parse_client_env}
use openvpn_mgmt_codec.Codec.State.{OvpnCodec, expected_front, consume_expected}

-- What one frame does to the loop of `decode`.
pub data MessageStep : Type 0 where
  emit : OvpnMessage → MessageStep
  continue : MessageStep
  refuse : IoError → MessageStep

abbrev pub is_multi_line : ResponseKind → Bool
is_multi_line multi_line_kind = true
is_multi_line _ = false

-- `Frame::End`
unfoldable pub on_end : OvpnCodec → OvpnCodec × MessageStep
on_end c = elim c.multi_line_buf [
  | some lines ↦ (record (consume_expected c) { multi_line_buf = none }, emit (multi_line lines))
  | none ↦
      if is_multi_line (expected_front c)
      then (consume_expected c, emit (multi_line []))
      else (c, emit (unrecognized (codes "END") unexpected_line))
]

-- A line while `lines` is being accumulated.
unfoldable pub push_line : OvpnCodec → List Str → Str → OvpnCodec × MessageStep
push_line c lines text =
    let pushed : OvpnCodec × MessageStep =
      (record c { multi_line_buf = some (lines ++ (text ∷ [])) }, continue) in
    elim c.max_multi_line_lines [
      | unlimited ↦ pushed
      | max limit ↦
          if leb limit (length lines)
          then (c, refuse (multi_line_accumulation_limit_exceeded limit))
          else pushed
    ]

-- A line while nothing is being accumulated.
unfoldable pub start_line : OvpnCodec → Str → OvpnCodec × MessageStep
start_line c text =
    if is_multi_line (expected_front c)
    then (record c { multi_line_buf = some (text ∷ []) }, continue)
    else (consume_expected c, emit (unrecognized text unexpected_line))

-- `line.starts_with('>') && !line[1..].contains(':')`
unfoldable pub is_malformed : Str → Bool
is_malformed text = elim (strip_prefix (codes ">") text) [
  | none ↦ false
  | some inner ↦ not (contains b':' inner)
]

-- `Frame::Line`
unfoldable pub on_line : OvpnCodec → Str → OvpnCodec × MessageStep
on_line c text =
    let accumulated : OvpnCodec × MessageStep = elim c.multi_line_buf [
      | some lines ↦ push_line c lines text
      | none ↦ start_line c text
    ] in
    if is_empty text && is_none c.multi_line_buf && not (is_multi_line (expected_front c))
    then (c, continue)
    else if is_malformed text
    then (c, emit (unrecognized text malformed_notification))
    else accumulated

-- The `match frame`.
unfoldable pub on_frame : OvpnCodec → Frame → OvpnCodec × MessageStep
on_frame c (Frame.success text) = (consume_expected c, emit (success text))
on_frame c (Frame.error text) = (consume_expected c, emit (error text))
on_frame c Frame.password_prompt = (c, emit password_prompt)
on_frame c (Frame.info payload) = (c, emit (info payload))
on_frame c (Frame.notification kind payload) =
    (c, emit (parse_notification_from_frame kind payload))
on_frame c (Frame.client_env event args env) =
    (record c { frame_decoder_accumulating = false }, emit (parse_client_env event args env))
on_frame c Frame.end = on_end c
on_frame c (Frame.line text) = on_line c text

pub data Polled : Type 0 where
  message : OvpnMessage → Polled
  pending_bytes : Polled
  broken : IoError → Polled
  no_fuel : Polled

-- What a call of `decode` leaves behind, and what it returns.
pub record Decode : Type 0 where
  pub codec : OvpnCodec
  pub buffer : Bytes
  pub polled : Polled

-- The state after the frame decoder's `Ok(None)`: it is accumulating if it took bytes.
abbrev pub note_pending : OvpnCodec → Bytes → Bytes → OvpnCodec
note_pending c src buffer =
    if ltb (length buffer) (length src) then record c { frame_decoder_accumulating = true } else c

abbrev pub reset : OvpnCodec → OvpnCodec
reset c = record c {
  multi_line_buf = none;
  expected_queue = [];
  frame_decoder_accumulating = false;
}

-- The end of a round: `again` is the next round of the loop.
abbrev pub resume : (OvpnCodec → Decode) → Bytes → OvpnCodec × MessageStep → Decode
resume again src (c, emit msg) = record { codec = c; buffer = src; polled = message msg }
resume again src (c, continue) = again c
resume again src (c, refuse e) = record { codec = c; buffer = src; polled = broken e }

-- One round, for what the frame decoder left and returned.
abbrev pub round : (OvpnCodec → Decode) → OvpnCodec → Bytes → Bytes → Outcome → Decode
round again c src buffer (frame f) = resume again buffer (on_frame c f)
round again c src buffer pending = record {
  codec = note_pending c src buffer;
  buffer = buffer;
  polled = pending_bytes;
}
round again c src buffer (failed e) = record { codec = reset c; buffer = buffer; polled = broken e }
round again c src buffer out_of_fuel = record { codec = c; buffer = buffer; polled = no_fuel }

-- The loop of `decode`, a round for each frame.
unfoldable pub decode_loop : ℕ → OvpnCodec → Bytes → Decode
decode_loop zero c src = record { codec = c; buffer = src; polled = no_fuel }
decode_loop (suc fuel) c src =
    let r = Decoder.decode c.frame_decoder src in
    round (λ c'. decode_loop fuel c' r.buffer) (record c { frame_decoder = r.decoder }) src r.buffer
      r.outcome

-- A round that goes on has taken bytes, so the length of the buffer bounds the rounds.
unfoldable pub decode : OvpnCodec → Bytes → Decode
decode c src = decode_loop (suc (length src)) c src
