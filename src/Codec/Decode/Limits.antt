-- ===== src/Codec/Decode/Limits.antt =====
-- The bound on the lines of a response, and the state that `OvpnCodec::decode` is left in by an
-- error.
use openvpn_mgmt_codec.Prelude.{
  ◌≡◌, refl, ◌&&◌, not, List, [], ◌∷◌, Option, none, some, arith, length, length-append,
  if◌then◌else◌, is_none,
}
use openvpn_mgmt_codec.Text.{codes, Str, Bytes, is_empty}
use openvpn_mgmt_codec.Frame.Types.{Frame, AccumulationLimit}
use openvpn_mgmt_codec.Frame.Decoder.Limits.{Below, Below-mono}
use openvpn_mgmt_codec.Message.Types.{OvpnMessage, multi_line, unrecognized, unexpected_line}
use openvpn_mgmt_codec.Message.Parse.{parse_client_env}
use openvpn_mgmt_codec.Message.Parse.Kinds.{MessageHasKind}
use openvpn_mgmt_codec.Message.Parse.Dispatch.{parse_notification_from_frame-MessageHasKind}
use openvpn_mgmt_codec.Codec.State.{OvpnCodec, expected_front, consume_expected}
use openvpn_mgmt_codec.Codec.Decode.{
  emit, is_multi_line, on_end, push_line, start_line, is_malformed, on_line, on_frame, Polled,
  message, decode,
}
use openvpn_mgmt_codec.Codec.Decode.Rule.{StepOk, StepOk-if, StepOk-push, Sound, decode_rule}

-- The lines accumulated so far are within the limit.
abbrev pub Fits : Option (List Str) → AccumulationLimit → Type 0
Fits none limit = Unit
Fits (some lines) limit = Below (length lines) limit

module _ (limit : AccumulationLimit) where
  abbrev pub WithinLimit : OvpnCodec → Type 0
  WithinLimit c = Fits c.multi_line_buf limit × (c.max_multi_line_lines ≡ limit)

  -- A response has no more lines than the limit allows.
  abbrev pub MessageFits : Polled → Type 0
  MessageFits (message (multi_line lines)) = Below (length lines) limit
  MessageFits _ = Unit

  abbrev Left : OvpnCodec → Polled → Type 0
  Left c p = WithinLimit c × MessageFits p

  push_line-Left :
      (c : OvpnCodec) (lines : List Str) (text : Str)
      → WithinLimit c
      → StepOk WithinLimit Left (push_line c lines text)
  unfolding push_line
  push_line-Left c lines text w =
      StepOk-push WithinLimit Left c.max_multi_line_lines _ c (length lines)
        (λ b. (rw (length-append lines (text ∷ []), ← w.1) b, w.1)) (λ m. (w, tt))

  start_line-Left :
      (c : OvpnCodec) (text : Str)
      → Below 1 limit
      → c.multi_line_buf ≡ none
      → WithinLimit c
      → StepOk WithinLimit Left (start_line c text)
  unfolding start_line consume_expected
  start_line-Left c text one n w =
      StepOk-if WithinLimit Left (is_multi_line (expected_front c)) _ _ (λ _. (one, w.1))
        (λ _. (w, tt))

  accumulated-Left :
      (c : OvpnCodec) (text : Str) (buf : Option (List Str))
      → c.multi_line_buf ≡ buf
      → Below 1 limit
      → WithinLimit c
      → StepOk WithinLimit Left
          (elim buf [ some lines ↦ push_line c lines text | none ↦ start_line c text ])
  accumulated-Left c text none e one w = start_line-Left c text one e w
  accumulated-Left c text (some lines) e one w = push_line-Left c lines text w

  on_line-Left :
      (c : OvpnCodec) (text : Str)
      → Below 1 limit
      → WithinLimit c
      → StepOk WithinLimit Left (on_line c text)
  unfolding on_line
  on_line-Left c text one w =
      StepOk-if WithinLimit Left
        (is_empty text && is_none c.multi_line_buf && not (is_multi_line (expected_front c))) _ _
        (λ _. w)
        (λ _.
          StepOk-if WithinLimit Left (is_malformed text) _ _ (λ _. (w, tt))
            (λ _. accumulated-Left c text c.multi_line_buf refl one w))

  on_end-Left : (c : OvpnCodec) → Below 1 limit → WithinLimit c → StepOk WithinLimit Left (on_end c)
  unfolding on_end consume_expected
  on_end-Left c one w = by_buf c.multi_line_buf w.0
    where
      by_buf :
          (buf : Option (List Str))
          → Fits buf limit
          → StepOk WithinLimit Left (elim buf [
            | some lines ↦
                (record (consume_expected c) { multi_line_buf = none }, emit (multi_line lines))
            | none ↦
                if is_multi_line (expected_front c)
                then (consume_expected c, emit (multi_line []))
                else (c, emit (unrecognized (codes "END") unexpected_line))
          ])
      by_buf none h =
          StepOk-if WithinLimit Left (is_multi_line (expected_front c)) _ _
            (λ _. (w, Below-mono _ _ _ (omega arith) one)) (λ _. (w, tt))
      by_buf (some lines) h = ((tt, w.1), h)

  notification-Fits :
      (kind payload : Str) (m : OvpnMessage)
      → MessageHasKind kind payload m
      → MessageFits (message m)
  notification-Fits kind payload (multi_line lines) h = absurd h
  notification-Fits kind payload _ h = tt

  on_frame-Left :
      (c : OvpnCodec) (f : Frame)
      → Below 1 limit
      → WithinLimit c
      → StepOk WithinLimit Left (on_frame c f)
  unfolding on_frame consume_expected
  on_frame-Left c (Frame.success text) one w = (w, tt)
  on_frame-Left c (Frame.error text) one w = (w, tt)
  on_frame-Left c Frame.password_prompt one w = (w, tt)
  on_frame-Left c (Frame.info payload) one w = (w, tt)
  on_frame-Left c (Frame.notification kind payload) one w = (
    w,
    notification-Fits kind payload _ (parse_notification_from_frame-MessageHasKind kind payload),
  )
  on_frame-Left c (Frame.client_env event args env) one w = (w, unfold parse_client_env in tt)
  on_frame-Left c Frame.end one w = on_end-Left c one w
  on_frame-Left c (Frame.line text) one w = on_line-Left c text one w

  Sound-Left : Below 1 limit → Sound WithinLimit Left
  Sound-Left one = record {
    frames = λ c f w. on_frame-Left c f one w;
    decoder = λ c d w. w;
    waits = λ c w. (w, tt);
    waits_noted = λ c w. (w, tt);
    fails = λ c e w a. ((tt, w.1), tt);
  }

  -- With a limit of at least one line, a codec whose accumulated lines are within the limit
  -- keeps them so in every call of `decode`, and a multi-line message that it returns has no
  -- more lines than the limit.
  pub decode-WithinLimit_lines :
      (c : OvpnCodec) (src : Bytes)
      → Below 1 limit
      → WithinLimit c
      → WithinLimit (decode c src).codec × MessageFits (decode c src).polled
  decode-WithinLimit_lines c src one w = decode_rule WithinLimit Left (Sound-Left one) c src w
