-- ===== src/Frame/Decoder/Chunks.antt =====
-- Bytes arrive in pieces: what `FrameDecoder::decode` returns does not depend on the pieces.
use openvpn_mgmt_codec.Prelude.{
  ℕ, zero, suc, ◌<◌, ◌≡◌, ◌≢◌, refl, ap, [], ◌∷◌, ◌++◌, append_assoc, Option, none, some, arith,
  length, Option-cases, inl, inr,
}
use openvpn_mgmt_codec.Text.{Str, Bytes, strip_prefix}
use openvpn_mgmt_codec.Frame.Types.{password_prompt}
use openvpn_mgmt_codec.Frame.Decoder.{
  FrameDecoder, LineStep, emit, continue, refuse, Decoded, Outcome, frame, pending, decode_line,
  decode_partial, pw_prompt, line_text, resume, round, decode,
}
use openvpn_mgmt_codec.Frame.Decoder.Rounds.{no_line, line_at, Cut-of}
use openvpn_mgmt_codec.Frame.Decoder.Progress.{decode-line, decode_no_line, behind-lt}

-- A call has ended with `r`, and the bytes `more` arrive: the caller calls again after `Ok(None)`,
-- and else keeps the result, with the new bytes behind the old ones.
abbrev after : Outcome → Decoded → Bytes → Decoded
after pending r more = decode r.decoder (r.buffer ++ more)
after _ r more = record r { buffer = r.buffer ++ more }

abbrev pub extend : Decoded → Bytes → Decoded
extend r more = after r.outcome r more

module _ (more : Bytes) where
  -- A result that the bytes to come cannot change.
  abbrev Settled : Decoded → Decoded → Type 0
  Settled r s = r.outcome ≢ frame password_prompt → s ≡ extend r more

  partial-Settled :
      (d : FrameDecoder) (src : Bytes) → Settled (decode_partial d src) (decode d (src ++ more))
  unfolding decode_partial
  partial-Settled d src = elim (Option-cases (strip_prefix pw_prompt src)) [
    | inl e ↦ rw (e, decode_partial) (λ _. refl)
    | inr (behind, e) ↦ rw (e, decode_partial) (λ h. absurd (h refl))
  ]

  resume-Settled :
      (behind : Bytes) (s : FrameDecoder × LineStep)
      → ((d : FrameDecoder) → Settled (decode d behind) (decode d (behind ++ more)))
      → Settled
          (resume (λ d. decode d behind) behind s)
          (resume (λ d. decode d (behind ++ more)) (behind ++ more) s)
  resume-Settled behind (d, emit f) h = λ _. refl
  resume-Settled behind (d, continue) h = h d
  resume-Settled behind (d, refuse e) h = λ _. refl

  round-Settled :
      (behind : Bytes) (d : FrameDecoder) (text : Option Str)
      → ((d' : FrameDecoder) → Settled (decode d' behind) (decode d' (behind ++ more)))
      → Settled
          (round (λ d'. decode d' behind) d text behind)
          (round (λ d'. decode d' (behind ++ more)) d text (behind ++ more))
  round-Settled behind d none h = λ _. refl
  round-Settled behind d (some text) h = resume-Settled behind (decode_line d text) h

  -- By the number of bytes.
  decode-Settled :
      (n : ℕ) (d : FrameDecoder) (src : Bytes)
      → length src < n
      → Settled (decode d src) (decode d (src ++ more))
  decode-Settled zero d src h = absurd (omega arith)
  decode-Settled (suc n) d src h = elim (Cut-of src) [
    | no_line e l ↦ rw (decode_no_line d src e) (partial-Settled d src)
    | line_at before behind e l ↦
        let lt = behind-lt before behind in
        rw (e, append_assoc before (b'\n' ∷ behind) more)
          (rw (decode-line d before behind l, decode-line d before (behind ++ more) l)
            (round-Settled behind d (line_text (before ++ (b'\n' ∷ [])))
              λ d'. decode-Settled n d' behind (omega (arith, ap (length {0}) e, lt))))
  ]

-- `decode` on a longer buffer agrees with `decode` on its front part: a frame or an error is
-- the same, in the same state, with the new bytes behind the rest, and after `Ok(None)` the
-- call that has the new bytes goes on where the first one stopped. The one exception is the
-- password prompt, which is taken without waiting for its line end.
pub decode-append :
    (d : FrameDecoder) (src more : Bytes)
    → (decode d src).outcome ≢ frame password_prompt
    → decode d (src ++ more) ≡ extend (decode d src) more
decode-append d src more = decode-Settled more (suc (length src)) d src (omega arith)
