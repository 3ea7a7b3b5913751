-- ===== src/Codec/Decode/Errors.antt =====
-- The state that an error of `OvpnCodec::decode` leaves.
use openvpn_mgmt_codec.Prelude.{
  ◌≡◌, ◌≢◌, refl, false, ◌&&◌, not, List, [], Option, none, some, length, if◌then◌else◌, is_none,
}
use openvpn_mgmt_codec.Text.{codes, Str, Bytes, is_empty}
use openvpn_mgmt_codec.Frame.Types.{Frame, IoError, multi_line_accumulation_limit_exceeded}
use openvpn_mgmt_codec.Frame.Decoder.{failed}
use openvpn_mgmt_codec.Frame.Decoder.Limits.{AfterError}
use openvpn_mgmt_codec.Message.Types.{multi_line, unrecognized, unexpected_line}
use openvpn_mgmt_codec.Codec.State.{OvpnCodec, expected_front, consume_expected}
use openvpn_mgmt_codec.Codec.Decode.{
  emit, is_multi_line, on_end, push_line, start_line, is_malformed, on_line, on_frame, Polled,
  broken, reset, decode,
}
use openvpn_mgmt_codec.Codec.Decode.Rule.{StepOk, StepOk-if, StepOk-push, Sound, decode_rule}

-- What an error says of the codec that it leaves behind.
abbrev pub AfterBroken : OvpnCodec → Polled → Type 0
AfterBroken c (broken (multi_line_accumulation_limit_exceeded n)) = c.multi_line_buf ≢ none
AfterBroken c (broken e) =
    (c.expected_queue ≡ []) × (c.multi_line_buf ≡ none) × (c.frame_decoder_accumulating ≡ false)
AfterBroken c _ = Unit

abbrev Always : OvpnCodec → Type 0
Always c = Unit

push_line-AfterBroken :
    (c : OvpnCodec) (lines : List Str) (text : Str)
    → c.multi_line_buf ≢ none
    → StepOk Always AfterBroken (push_line c lines text)
unfolding push_line
push_line-AfterBroken c lines text n =
    StepOk-push Always AfterBroken c.max_multi_line_lines _ c (length lines) (λ _. tt) (λ m. n)

start_line-AfterBroken :
    (c : OvpnCodec) (text : Str) → StepOk Always AfterBroken (start_line c text)
unfolding start_line
start_line-AfterBroken c text =
    StepOk-if Always AfterBroken (is_multi_line (expected_front c)) _ _ (λ _. tt) (λ _. tt)

on_line-AfterBroken : (c : OvpnCodec) (text : Str) → StepOk Always AfterBroken (on_line c text)
unfolding on_line
on_line-AfterBroken c text =
    StepOk-if Always AfterBroken
      (is_empty text && is_none c.multi_line_buf && not (is_multi_line (expected_front c))) _ _
      (λ _. tt)
      (λ _.
        StepOk-if Always AfterBroken (is_malformed text) _ _ (λ _. tt)
          (λ _. accumulated c.multi_line_buf refl))
  where
    accumulated :
        (buf : Option (List Str))
        → c.multi_line_buf ≡ buf
        → StepOk Always AfterBroken
            (elim buf [ some lines ↦ push_line c lines text | none ↦ start_line c text ])
    accumulated none e = start_line-AfterBroken c text
    accumulated (some lines) e = push_line-AfterBroken c lines text (λ n. cc)

on_end-AfterBroken : (c : OvpnCodec) → StepOk Always AfterBroken (on_end c)
unfolding on_end
on_end-AfterBroken c = by_buf c.multi_line_buf
  where
    by_buf :
        (buf : Option (List Str))
        → StepOk Always AfterBroken (elim buf [
          | some lines ↦
              (record (consume_expected c) { multi_line_buf = none }, emit (multi_line lines))
          | none ↦
              if is_multi_line (expected_front c)
              then (consume_expected c, emit (multi_line []))
              else (c, emit (unrecognized (codes "END") unexpected_line))
        ])
    by_buf none =
        StepOk-if Always AfterBroken (is_multi_line (expected_front c)) _ _ (λ _. tt) (λ _. tt)
    by_buf (some lines) = tt

on_frame-AfterBroken : (c : OvpnCodec) (f : Frame) → StepOk Always AfterBroken (on_frame c f)
unfolding on_frame
on_frame-AfterBroken c (Frame.success text) = tt
on_frame-AfterBroken c (Frame.error text) = tt
on_frame-AfterBroken c Frame.password_prompt = tt
on_frame-AfterBroken c (Frame.info payload) = tt
on_frame-AfterBroken c (Frame.notification kind payload) = tt
on_frame-AfterBroken c (Frame.client_env event args env) = tt
on_frame-AfterBroken c Frame.end = on_end-AfterBroken c
on_frame-AfterBroken c (Frame.line text) = on_line-AfterBroken c text

reset-AfterBroken :
    (c : OvpnCodec) (e : IoError)
    → AfterError c.frame_decoder (failed e)
    → AfterBroken (reset c) (broken e)
reset-AfterBroken c (multi_line_accumulation_limit_exceeded n) h = absurd h
reset-AfterBroken c _ h = (refl, refl, refl)

Sound-AfterBroken : Sound Always AfterBroken
Sound-AfterBroken = record {
  frames = λ c f _. on_frame-AfterBroken c f;
  decoder = λ c d _. tt;
  waits = λ c _. tt;
  waits_noted = λ c _. tt;
  fails = λ c e _ a. reset-AfterBroken c e a;
}

-- Whatever bytes come, an error of the frame decoder empties the queue of expected responses,
-- drops the lines accumulated so far and clears the flag of an open ENV block; the error of a
-- response that is too long leaves the accumulation open.
pub decode-AfterBroken :
    (c : OvpnCodec) (src : Bytes) → AfterBroken (decode c src).codec (decode c src).polled
decode-AfterBroken c src = decode_rule Always AfterBroken Sound-AfterBroken c src tt
