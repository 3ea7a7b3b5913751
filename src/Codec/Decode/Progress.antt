-- ===== src/Codec/Decode/Progress.antt =====
-- `OvpnCodec::decode` always returns, and what a call does to the buffer.
use openvpn_mgmt_codec.Prelude.{ℕ, zero, suc, ◌<◌, ◌≡◌, refl, ◌∙◌, ◌∷◌, ◌++◌, arith, length, Lacks}
use openvpn_mgmt_codec.Text.{Bytes}
use openvpn_mgmt_codec.Text.Utf8.{as_bytes}
use openvpn_mgmt_codec.Frame.Types.{Frame}
use openvpn_mgmt_codec.Frame.Decoder.{Outcome, frame, pending, failed, out_of_fuel}
use openvpn_mgmt_codec.Frame.Decoder
use openvpn_mgmt_codec.Frame.Decoder.Progress.{Took, decode-Took}
use openvpn_mgmt_codec.Frame.Decoder.Progress
use openvpn_mgmt_codec.Frame.Decoder.Lines.{IsLine, wire, IsWire, noted, decode-wire}
use openvpn_mgmt_codec.Codec.State.{OvpnCodec}
use openvpn_mgmt_codec.Codec.Decode.{
  MessageStep, emit, continue, refuse, on_frame, Polled, message, pending_bytes, broken, no_fuel,
  Decode, resume, round, decode_loop, decode,
}

-- How a call ends that had `src`: a message or an error has taken bytes, and `Ok(None)` leaves no
-- complete line.
abbrev pub Ends : Bytes → Bytes → Polled → Type 0
Ends src buffer (message m) = length buffer < length src
Ends src buffer pending_bytes = Lacks b'\n' buffer
Ends src buffer (broken e) = length buffer < length src
Ends src buffer no_fuel = ⊥

Ends-shorter :
    (src mid buffer : Bytes) (p : Polled)
    → length mid < length src
    → Ends mid buffer p
    → Ends src buffer p
Ends-shorter src mid buffer (message m) h e = omega arith
Ends-shorter src mid buffer pending_bytes h e = e
Ends-shorter src mid buffer (broken x) h e = omega arith
Ends-shorter src mid buffer no_fuel h e = e

-- The rounds that may follow: they start with fewer bytes.
abbrev Again : Bytes → Bytes → (OvpnCodec → Decode) → Type 0
Again src buffer again =
    (c : OvpnCodec) → length buffer < length src → Ends buffer (again c).buffer (again c).polled

resume-Ends :
    (src buffer : Bytes) (again : OvpnCodec → Decode) (s : OvpnCodec × MessageStep)
    → length buffer < length src
    → Again src buffer again
    → Ends src (resume again buffer s).buffer (resume again buffer s).polled
resume-Ends src buffer again (c, emit m) lt h = lt
resume-Ends src buffer again (c, continue) lt h = Ends-shorter src buffer _ _ lt (h c lt)
resume-Ends src buffer again (c, refuse e) lt h = lt

round-Ends :
    (again : OvpnCodec → Decode) (c : OvpnCodec) (src buffer : Bytes) (o : Outcome)
    → Progress.Ends src buffer o
    → Again src buffer again
    → Ends src (round again c src buffer o).buffer (round again c src buffer o).polled
round-Ends again c src buffer (frame f) lt h = resume-Ends src buffer again (on_frame c f) lt h
round-Ends again c src buffer pending l h = l
round-Ends again c src buffer (failed e) lt h = lt
round-Ends again c src buffer out_of_fuel l h = l

decode_loop-Ends :
    (fuel : ℕ) (c : OvpnCodec) (src : Bytes)
    → length src < fuel
    → Ends src (decode_loop fuel c src).buffer (decode_loop fuel c src).polled
unfolding decode_loop
decode_loop-Ends zero c src h = absurd (omega arith)
decode_loop-Ends (suc fuel) c src h =
    let r = Decoder.decode c.frame_decoder src in
    round-Ends (λ c'. decode_loop fuel c' r.buffer) _ src r.buffer r.outcome
      (decode-Took c.frame_decoder src).ends
      (λ c' lt. decode_loop-Ends fuel c' r.buffer (omega arith))

-- A call of `OvpnCodec::decode` always returns, on every buffer and in every state: it never
-- runs out of rounds. A message or an error leaves a strictly shorter buffer, and `Ok(None)`
-- leaves no complete line.
pub decode-Ends :
    (c : OvpnCodec) (src : Bytes) → Ends src (decode c src).buffer (decode c src).polled
unfolding decode
decode-Ends c src = decode_loop-Ends (suc (length src)) c src (omega arith)

round_cong :
    (again again' : OvpnCodec → Decode) (c : OvpnCodec) (src buffer : Bytes) (o : Outcome)
    → Progress.Ends src buffer o
    → ((c' : OvpnCodec) → length buffer < length src → again c' ≡ again' c')
    → round again c src buffer o ≡ round again' c src buffer o
round_cong again again' c src buffer (frame f) lt h = by_step (on_frame c f)
  where
    by_step : (s : OvpnCodec × MessageStep) → resume again buffer s ≡ resume again' buffer s
    by_step (d, emit m) = refl
    by_step (d, continue) = h d lt
    by_step (d, refuse e) = refl
round_cong again again' c src buffer pending l h = refl
round_cong again again' c src buffer (failed e) lt h = refl
round_cong again again' c src buffer out_of_fuel l h = refl

-- More rounds than the buffer has bytes change nothing.
decode_loop_fuel :
    (f g : ℕ) (c : OvpnCodec) (src : Bytes)
    → length src < f
    → length src < g
    → decode_loop f c src ≡ decode_loop g c src
unfolding decode_loop
decode_loop_fuel zero g c src h k = absurd (omega arith)
decode_loop_fuel (suc f) zero c src h k = absurd (omega arith)
decode_loop_fuel (suc f) (suc g) c src h k =
    let r = Decoder.decode c.frame_decoder src in
    round_cong _ _ _ src r.buffer r.outcome (decode-Took c.frame_decoder src).ends
      (λ c' lt. decode_loop_fuel f g c' r.buffer (omega arith) (omega arith))

-- `decode` is its loop's body, with a call of `decode` where the source goes round again.
pub decode-round :
    (c : OvpnCodec) (src : Bytes)
    → decode c src
      ≡ round
          (λ c'. decode c' (Decoder.decode c.frame_decoder src).buffer)
          (record c { frame_decoder = (Decoder.decode c.frame_decoder src).decoder })
          src
          (Decoder.decode c.frame_decoder src).buffer
          (Decoder.decode c.frame_decoder src).outcome
unfolding decode decode_loop
decode-round c src =
    let r = Decoder.decode c.frame_decoder src in
    round_cong _ _ _ src r.buffer r.outcome (decode-Took c.frame_decoder src).ends (λ c' lt.
      decode_loop_fuel (length src) (suc (length r.buffer)) c' r.buffer (omega arith) (omega arith))

-- One line on the wire is one frame for the codec, and what follows is left for the next round.
pub decode-wire_line :
    (c : OvpnCodec) (f : Frame) (rest : Bytes)
    → IsLine (wire f)
    → IsWire c.frame_decoder f
    → decode c (as_bytes (wire f) ++ (b'\n' ∷ rest))
      ≡ resume
          (λ c'. decode c' rest)
          rest
          (on_frame (record c { frame_decoder = noted c.frame_decoder f }) f)
decode-wire_line c f rest l w =
    decode-round c (as_bytes (wire f) ++ (b'\n' ∷ rest))
    ∙ rw (decode-wire c.frame_decoder f rest l w)
