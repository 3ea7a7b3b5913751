-- ===== src/Frame/Decoder/Rule.antt =====
-- The proof rule of `FrameDecoder::decode`: what every line keeps, the whole call keeps.
use openvpn_mgmt_codec.Prelude.{
  ℕ, zero, suc, ◌<◌, ap, [], ◌∷◌, ◌++◌, Option, none, some, arith, length, Option-cases, inl, inr,
}
use openvpn_mgmt_codec.Text.{Str, Bytes, strip_prefix}
use openvpn_mgmt_codec.Frame.Types.{password_prompt, invalid_data}
use openvpn_mgmt_codec.Frame.Decoder.{
  FrameDecoder, LineStep, emit, continue, refuse, Decoded, Outcome, frame, pending, failed,
  decode_line, decode_partial, pw_prompt, line_text, resume, round, decode,
}
use openvpn_mgmt_codec.Frame.Decoder.Rounds.{no_line, line_at, Cut-of}
use openvpn_mgmt_codec.Frame.Decoder.Progress.{decode-line, decode_no_line, behind-lt}

-- `P` holds of the decoder before each line, `R` of it and of what the call returns at the end.
module _ (P : FrameDecoder → Type 0) (R : FrameDecoder → Outcome → Type 0) where
  abbrev pub LineOk : FrameDecoder × LineStep → Type 0
  LineOk (d, emit f) = R d (frame f)
  LineOk (d, continue) = P d
  LineOk (d, refuse e) = R d (failed e)

  -- What has to be shown of one line, and of the three ways to end without one.
  pub record Sound : Type 0 where
    pub on_line : (d : FrameDecoder) (text : Str) → P d → LineOk (decode_line d text)
    pub on_bytes :
        (d : FrameDecoder) → P d → R (record d { client_notification = none }) (failed invalid_data)
    pub on_prompt : (d : FrameDecoder) → P d → R d (frame password_prompt)
    pub on_pending : (d : FrameDecoder) → P d → R d pending

  abbrev pub Result : Decoded → Type 0
  Result r = R r.decoder r.outcome

  module _ (s : Sound) where
    rule_partial : (d : FrameDecoder) (src : Bytes) → P d → Result (decode_partial d src)
    unfolding decode_partial
    rule_partial d src p = elim (Option-cases (strip_prefix pw_prompt src)) [
      | inl e ↦ rw (e, decode_partial) (s.on_pending d p)
      | inr (behind, e) ↦ rw (e, decode_partial) (s.on_prompt d p)
    ]

    rule_resume :
        (behind : Bytes) (again : FrameDecoder → Decoded) (l : FrameDecoder × LineStep)
        → LineOk l
        → ((d : FrameDecoder) → P d → Result (again d))
        → Result (resume again behind l)
    rule_resume behind again (d, emit f) p h = p
    rule_resume behind again (d, continue) p h = h d p
    rule_resume behind again (d, refuse e) p h = p

    rule_round :
        (behind : Bytes) (again : FrameDecoder → Decoded) (d : FrameDecoder) (text : Option Str)
        → P d
        → ((d : FrameDecoder) → P d → Result (again d))
        → Result (round again d text behind)
    rule_round behind again d none p h = s.on_bytes d p
    rule_round behind again d (some text) p h =
        rule_resume behind again (decode_line d text) (s.on_line d text p) h

    rule_below :
        (n : ℕ) (d : FrameDecoder) (src : Bytes) → length src < n → P d → Result (decode d src)
    rule_below zero d src h p = absurd (omega arith)
    rule_below (suc n) d src h p = elim (Cut-of src) [
      | no_line e l ↦ rw (decode_no_line d src e) (rule_partial d src p)
      | line_at before behind e l ↦
          let lt = behind-lt before behind in
          rw (e, decode-line d before behind l)
            (rule_round behind (λ d'. decode d' behind) d (line_text (before ++ (b'\n' ∷ []))) p
              λ d'. rule_below n d' behind (omega (arith, ap (length {0}) e, lt)))
    ]

    pub decode_rule : (d : FrameDecoder) (src : Bytes) → P d → Result (decode d src)
    decode_rule d src = rule_below (suc (length src)) d src (omega arith)
