-- ===== src/Codec/Decode/Rule.antt =====
-- What holds of the codec between the frames, and of what each frame yields, holds of `decode`.
use openvpn_mgmt_codec.Prelude.{
  ℕ, zero, suc, ◌+◌, ◌<◌, ◌≡◌, refl, Bool, true, false, arith, length, if◌then◌else◌, leb, ltb,
  Bool-cases, inl, inr,
}
use openvpn_mgmt_codec.Text.{Bytes}
use openvpn_mgmt_codec.Frame.Types.{
  Frame, AccumulationLimit, unlimited, max, IoError, multi_line_accumulation_limit_exceeded,
}
use openvpn_mgmt_codec.Frame.Decoder.{Outcome, frame, pending, failed, out_of_fuel}
use openvpn_mgmt_codec.Frame.Decoder
use openvpn_mgmt_codec.Frame.Decoder.Limits.{Below, AfterError, decode-AfterError}
use openvpn_mgmt_codec.Codec.State.{OvpnCodec}
use openvpn_mgmt_codec.Codec.Decode.{
  MessageStep, emit, continue, refuse, on_frame, Polled, message, pending_bytes, broken, Decode,
  note_pending, reset, resume, round, decode_loop, decode,
}
use openvpn_mgmt_codec.Frame.Decoder.Progress.{decode-Took}
use openvpn_mgmt_codec.Frame.Decoder.Progress

-- `P` is kept between the frames, and `R` relates the state that is left to what is returned.
module _ (P : OvpnCodec → Type 0) (R : OvpnCodec → Polled → Type 0) where
  abbrev pub StepOk : OvpnCodec × MessageStep → Type 0
  StepOk (c, emit m) = R c (message m)
  StepOk (c, continue) = P c
  StepOk (c, refuse e) = R c (broken e)

  pub StepOk-if :
      (b : Bool) (x y : OvpnCodec × MessageStep)
      → (b ≡ true → StepOk x)
      → (b ≡ false → StepOk y)
      → StepOk (if b then x else y)
  StepOk-if true x y h k = h refl
  StepOk-if false x y h k = k refl

  -- A line while lines are accumulated.
  pub StepOk-push :
      (limit : AccumulationLimit) (x : OvpnCodec × MessageStep) (c : OvpnCodec) (n : ℕ)
      → (Below (n + 1) limit → StepOk x)
      → ((m : ℕ) → StepOk (c, refuse (multi_line_accumulation_limit_exceeded m)))
      → StepOk (elim limit [
        | unlimited ↦ x
        | max m ↦ if leb m n then (c, refuse (multi_line_accumulation_limit_exceeded m)) else x
      ])
  StepOk-push unlimited x c n h k = h tt
  StepOk-push (max m) x c n h k = StepOk-if (leb m n) _ x (λ e. k m) (λ e. h (ground arith))

  pub record Sound : Type 0 where
    pub frames : (c : OvpnCodec) (f : Frame) → P c → StepOk (on_frame c f)
    pub decoder :
        (c : OvpnCodec) (d : Decoder.FrameDecoder) → P c → P (record c { frame_decoder = d })
    pub waits : (c : OvpnCodec) → P c → R c pending_bytes
    pub waits_noted :
        (c : OvpnCodec) → P c → R (record c { frame_decoder_accumulating = true }) pending_bytes
    pub fails :
        (c : OvpnCodec) (e : IoError)
        → P c
        → AfterError c.frame_decoder (failed e)
        → R (reset c) (broken e)

  module _ (s : Sound) where
    rule_resume :
        (again : OvpnCodec → Decode) (buffer : Bytes) (step : OvpnCodec × MessageStep)
        → ((c : OvpnCodec) → P c → R (again c).codec (again c).polled)
        → StepOk step
        → R (resume again buffer step).codec (resume again buffer step).polled
    rule_resume again buffer (c, emit m) h ok = ok
    rule_resume again buffer (c, continue) h ok = h c ok
    rule_resume again buffer (c, refuse e) h ok = ok

    rule_pending :
        (c : OvpnCodec) (src buffer : Bytes) → P c → R (note_pending c src buffer) pending_bytes
    rule_pending c src buffer p = elim (Bool-cases (ltb (length buffer) (length src))) [
      | inl e ↦ rw e (s.waits_noted c p)
      | inr n ↦ rw n (s.waits c p)
    ]

    rule_round :
        (again : OvpnCodec → Decode) (c : OvpnCodec) (src buffer : Bytes) (o : Outcome)
        → Progress.Ends src buffer o
        → AfterError c.frame_decoder o
        → (length buffer < length src
            → (c' : OvpnCodec) → P c'
            → R (again c').codec (again c').polled)
        → P c
        → R (round again c src buffer o).codec (round again c src buffer o).polled
    rule_round again c src buffer (frame f) lt a h p =
        rule_resume again buffer (on_frame c f) (h lt) (s.frames c f p)
    rule_round again c src buffer pending l a h p = rule_pending c src buffer p
    rule_round again c src buffer (failed e) l a h p = s.fails c e p a
    rule_round again c src buffer out_of_fuel l a h p = absurd l

    rule_loop :
        (fuel : ℕ) (c : OvpnCodec) (src : Bytes)
        → length src < fuel
        → P c
        → R (decode_loop fuel c src).codec (decode_loop fuel c src).polled
    unfolding decode_loop
    rule_loop zero c src lt p = absurd (omega arith)
    rule_loop (suc fuel) c src lt p =
        let r = Decoder.decode c.frame_decoder src in
        rule_round (λ c'. decode_loop fuel c' r.buffer) _ src r.buffer r.outcome
          (decode-Took c.frame_decoder src).ends (decode-AfterError c.frame_decoder src)
          (λ h c' p'. rule_loop fuel c' r.buffer (omega arith) p') (s.decoder c r.decoder p)

    pub decode_rule :
        (c : OvpnCodec) (src : Bytes) → P c → R (decode c src).codec (decode c src).polled
    unfolding decode
    decode_rule c src p = rule_loop (suc (length src)) c src (omega arith) p
