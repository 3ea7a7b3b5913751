-- ===== src/Codec/Decode/Polls.antt =====
-- A caller that polls the decoder on one buffer until it has no message, and the frames that the
-- buffer carries.
use openvpn_mgmt_codec.Prelude.{
  ℕ, zero, suc, ◌+◌, ◌<◌, ◌≡◌, refl, ap, ◌∙◌, true, false, List, [], ◌∷◌, ◌++◌, arith, length,
  length-append, All, none, some, inr, ◌≢◌, Lacks,
}
use openvpn_mgmt_codec.Text.{Str, Bytes, codes, strip_prefix}
use openvpn_mgmt_codec.Text.Utf8.{as_bytes}
use openvpn_mgmt_codec.Frame.Types.{Frame}
use openvpn_mgmt_codec.Frame.Decoder.Lines.{IsLine, wire, IsWire, noted}
use openvpn_mgmt_codec.Frame.Decoder
use openvpn_mgmt_codec.Frame.Decoder.{FrameDecoder}
use openvpn_mgmt_codec.Codec.State.{OvpnCodec, consume_expected}
use openvpn_mgmt_codec.Codec.Decode.{
  MessageStep, emit, continue, refuse, on_frame, on_end, on_line, push_line, start_line, Polled,
  message, pending_bytes, broken, no_fuel, resume, decode, decode_loop,
}
use openvpn_mgmt_codec.Codec.Decode.Progress.{decode-wire_line}
use openvpn_mgmt_codec.Codec.Decode.Responses.{
  Ran, prepend, after_step, run, at, Replies, run-pipeline,
}
use openvpn_mgmt_codec.Command.Response.{ResponseKind}
use openvpn_mgmt_codec.Message.Types.{OvpnMessage, info}

abbrev polls_after : (OvpnCodec → Bytes → Ran) → OvpnCodec → Bytes → Polled → Ran
polls_after again c buffer (message m) = prepend (m ∷ []) (again c buffer)
polls_after again c buffer pending_bytes = record { codec = c; messages = []; stopped = none }
polls_after again c buffer (broken e) = record { codec = c; messages = []; stopped = some e }
polls_after again c buffer no_fuel = record { codec = c; messages = []; stopped = none }

-- The messages of the calls of `decode`, one after the other, up to the first `Ok(None)` or error.
unfoldable pub polls : ℕ → OvpnCodec → Bytes → Ran
polls zero c src = record { codec = c; messages = []; stopped = none }
polls (suc fuel) c src = let r = decode c src in polls_after (polls fuel) r.codec r.buffer r.polled

-- The lines of a row of frames.
unfoldable pub wires : List Frame → Bytes
wires [] = []
wires (f ∷ fs) = as_bytes (wire f) ++ (b'\n' ∷ wires fs)

-- Frames that their line determines once the banner has been seen.
abbrev pub IsReadable : Frame → Type 0
IsReadable f =
    IsLine (wire f) × ((d : FrameDecoder) → d.seen_info ≡ true → IsWire d f × (noted d f ≡ d))

pub IsReadable-notification :
    (kind payload : Str)
    → IsLine (wire (Frame.notification kind payload))
    → Lacks b':' kind
    → kind ≢ codes "CLIENT"
    → IsReadable (Frame.notification kind payload)
IsReadable-notification kind payload l k n = (l, λ d e. ((k, n, inr e), refl))

decode-nil :
    (c : OvpnCodec) → decode c [] ≡ record { codec = c; buffer = []; polled = pending_bytes }
unfolding decode decode_loop Decoder.decode Decoder.decode_loop Decoder.decode_partial
    Decoder.position strip_prefix
decode-nil c = refl

module _ (d : FrameDecoder) where
  abbrev Holds : OvpnCodec → Type 0
  Holds c = c.frame_decoder ≡ d

  on_line-Holds : (c : OvpnCodec) (text : Str) → Holds c → Holds (on_line c text).0
  unfolding on_line push_line start_line consume_expected
  on_line-Holds c text h = ground arith

  on_frame-Holds : (c : OvpnCodec) (f : Frame) → Holds c → Holds (on_frame c f).0
  unfolding on_frame on_end consume_expected
  on_frame-Holds c (Frame.line text) h = on_line-Holds c text h
  on_frame-Holds c Frame.end h = ground arith
  on_frame-Holds c _ h = h

  polls_step :
      (fuel : ℕ) (rest : Bytes) (fs : List Frame) (s : OvpnCodec × MessageStep)
      → ((g : ℕ) (c : OvpnCodec) → Holds c → length rest < g → polls g c rest ≡ run c fs)
      → length rest < fuel
      → Holds s.0
      → let p = resume (λ c'. decode c' rest) rest s in
        polls_after (polls fuel) p.codec p.buffer p.polled ≡ after_step (λ c'. run c' fs) s
  unfolding polls
  polls_step fuel rest fs (c, emit m) again lt h = ap (prepend (m ∷ [])) (again fuel c h lt)
  polls_step fuel rest fs (c, continue) again lt h = again (suc fuel) c h (omega arith)
  polls_step fuel rest fs (c, refuse e) again lt h = refl

  -- After the banner, polling the codec on the bytes of readable lines until it has no message,
  -- with more polls allowed than the buffer has bytes, gives what handling the frames of the
  -- lines one after the other gives: the same messages, the same state and the same error.
  pub polls-wires :
      (fs : List Frame) (fuel : ℕ) (c : OvpnCodec)
      → d.seen_info ≡ true
      → All IsReadable fs
      → length (wires fs) < fuel
      → Holds c
      → polls fuel c (wires fs) ≡ run c fs
  unfolding polls wires run
  polls-wires fs zero c i r lt h = absurd (omega arith)
  polls-wires [] (suc fuel) c i r lt h = rw (decode-nil c)
  polls-wires (f ∷ fs) (suc fuel) c i r lt h =
      let w = r.0.1 c.frame_decoder (ap (λ e. e.seen_info) h ∙ i) in
      let shorter : length (wires fs) < fuel =
        omega (arith, length-append (as_bytes (wire f)) (b'\n' ∷ wires fs)) in
      rw (decode-wire_line c f (wires fs) r.0.0 w.0, w.1)
        (polls_step fuel (wires fs) fs (on_frame c f)
          (λ g c' h' lt'. polls-wires fs g c' i r.1 lt' h') shorter (on_frame-Holds c f h))

-- A decoder that has seen the banner and waits for the responses `ks`, with nothing accumulated, is
-- polled on the bytes of the replies to those commands, in their order and with notifications
-- anywhere between the lines: it yields exactly the replies' messages in order, and then waits
-- for no response and has nothing accumulated.
pub polls-Replies :
    (c : OvpnCodec) {ks : List ResponseKind} {fs : List Frame} {ms : List OvpnMessage}
    → c.frame_decoder.seen_info ≡ true
    → All IsReadable fs
    → Replies c.max_multi_line_lines ks fs ms
    → polls (length (wires fs) + 1) (at c ks none) (wires fs)
      ≡ record { codec = at c [] none; messages = ms; stopped = none }
polls-Replies c {ks} {fs} i r rs =
    polls-wires c.frame_decoder fs _ (at c ks none) i r (omega arith) refl ∙ run-pipeline c rs

-- The codec behind the banner.
abbrev pub greeted : OvpnCodec → OvpnCodec
greeted c = record c { frame_decoder = record c.frame_decoder { seen_info = true } }

-- The first `>INFO:` line of a connection is the first message.
pub polls-info :
    (c : OvpnCodec) (text : Str) (rest : Bytes) (fuel : ℕ)
    → c.frame_decoder.seen_info ≡ false
    → IsLine (wire (Frame.info text))
    → polls (suc fuel) c (as_bytes (wire (Frame.info text)) ++ (b'\n' ∷ rest))
      ≡ prepend (info text ∷ []) (polls fuel (greeted c) rest)
unfolding polls on_frame
polls-info c text rest fuel i l = rw (decode-wire_line c (Frame.info text) rest l i) refl
