-- ===== src/Frame/Decoder/Limits.antt =====
-- The bound on ENV entries, and the state that `FrameDecoder::decode` is left in by an error.
use openvpn_mgmt_codec.Prelude.{
  ℕ, ◌+◌, ◌≤◌, ◌≡◌, ◌≢◌, refl, Option, none, some, arith, length, ◌++◌, ◌∷◌, ◌∙◌,
}
use openvpn_mgmt_codec.Text.{Str, Bytes, codes}
use openvpn_mgmt_codec.Frame.EnvMap.{length-insert}
use openvpn_mgmt_codec.Frame.Types.{
  client_env, AccumulationLimit, unlimited, max, invalid_data, accumulation_limit_exceeded,
  unsafe_characters, end_in_block_body, multi_line_accumulation_limit_exceeded,
}
use openvpn_mgmt_codec.Frame.Decoder.{
  ClientEnvAccumulator, FrameDecoder, LineStep, Outcome, frame, failed, decode,
}
use openvpn_mgmt_codec.Text.Utf8.{as_bytes}
use openvpn_mgmt_codec.Frame.Decoder.Lines.{IsLine, env_prefix, decode-line_bytes}
use openvpn_mgmt_codec.Frame.Decoder.Refinement.{decode_line-Step}
use openvpn_mgmt_codec.Frame.Decoder.Rule.{LineOk, Sound, decode_rule}
use openvpn_mgmt_codec.Frame.Decoder.Steps.{
  HasRoom, IsFull, Step, success, error, prompt, end, plain, malformed, notify, banner, later_info,
  address, open_block, entry, close_block, too_many,
}
use openvpn_mgmt_codec.Frame.Decoder.Sound.{Step-decode_line}

abbrev pub Below : ℕ → AccumulationLimit → Type 0
Below n unlimited = Unit
Below n (max m) = n ≤ m

pub Below-mono : (n m : ℕ) (limit : AccumulationLimit) → n ≤ m → Below m limit → Below n limit
Below-mono n m unlimited h b = tt
Below-mono n m (max k) h b = omega arith

-- The entries collected so far are within the limit.
abbrev pub Fits : Option ClientEnvAccumulator → AccumulationLimit → Type 0
Fits none limit = Unit
Fits (some accum) limit = Below (length accum.env) limit

-- A frame holds no more entries than the limit allows.
abbrev pub FrameFits : Outcome → AccumulationLimit → Type 0
FrameFits (frame (client_env event args env)) limit = Below (length env) limit
FrameFits _ limit = Unit

Below-HasRoom : (n m : ℕ) (limit : AccumulationLimit) → m ≤ n + 1 → HasRoom n limit → Below m limit
Below-HasRoom n m unlimited h e = tt
Below-HasRoom n m (max k) h e = omega arith

Below-zero : (limit : AccumulationLimit) → Below 0 limit
Below-zero unlimited = tt
Below-zero (max m) = omega arith

module _ (limit : AccumulationLimit) where
  abbrev pub WithinLimit : FrameDecoder → Type 0
  WithinLimit d = Fits d.client_notification limit × (d.max_client_env_entries ≡ limit)

  abbrev pub Left : FrameDecoder → Outcome → Type 0
  Left d o = WithinLimit d × FrameFits o limit

  Step-Left :
      {d : FrameDecoder} {text : Str} {s : FrameDecoder × LineStep}
      → Step d text s
      → WithinLimit d
      → LineOk WithinLimit Left s
  Step-Left (success r p t e) w = (w, tt)
  Step-Left (error r p t e) w = (w, tt)
  Step-Left (prompt t) w = (w, tt)
  Step-Left (end t) w = (w, tt)
  Step-Left (plain o) w = (w, tt)
  Step-Left (malformed inner t l) w = (w, tt)
  Step-Left (notify kind payload t l i c) w = (w, tt)
  Step-Left (banner payload t n) w = (w, tt)
  Step-Left (later_info payload t e) w = (w, tt)
  Step-Left (address payload args t o p) w = (w, tt)
  Step-Left (open_block payload event args t o p n) w = (Below-zero limit, w.1)
  Step-Left {d} (entry accum r k v t a n p c) w =
      (rw w.1 at (Below-HasRoom _ _ _ (length-insert k v accum.env) c), w.1)
  Step-Left (close_block accum t a) w = ((tt, w.1), rw a at (w.0))
  Step-Left (too_many accum r m t a n f) w = (w, tt)

  Sound-Left : Sound WithinLimit Left
  Sound-Left = record {
    on_line = λ d text w. Step-Left (Step-decode_line d text) w;
    on_bytes = λ d w. ((tt, w.1), tt);
    on_prompt = λ d w. (w, tt);
    on_pending = λ d w. (w, tt);
  }

  -- Whatever bytes come, a call of `decode` on a decoder within its limit of ENV entries keeps
  -- the limit and at most that many entries, and a `ClientEnv` frame that it returns has at
  -- most that many.
  pub decode-WithinLimit :
      (d : FrameDecoder) (src : Bytes)
      → WithinLimit d
      → WithinLimit (decode d src).decoder × FrameFits (decode d src).outcome limit
  decode-WithinLimit = decode_rule WithinLimit Left Sound-Left

-- What an error says of the decoder that it leaves behind.
abbrev pub AfterError : FrameDecoder → Outcome → Type 0
AfterError d (failed invalid_data) = d.client_notification ≡ none
AfterError d (failed (accumulation_limit_exceeded what limit)) =
    (accum : ClientEnvAccumulator) × (d.client_notification ≡ some accum)
    × IsFull (length accum.env) d.max_client_env_entries limit
    × (what ≡ "client ENV")
AfterError d (failed (unsafe_characters field)) = ⊥
AfterError d (failed end_in_block_body) = ⊥
AfterError d (failed (multi_line_accumulation_limit_exceeded limit)) = ⊥
AfterError d _ = Unit

Step-AfterError :
    {d : FrameDecoder} {text : Str} {s : FrameDecoder × LineStep}
    → Step d text s
    → LineOk (λ _. Unit) AfterError s
Step-AfterError (success r p t e) = tt
Step-AfterError (error r p t e) = tt
Step-AfterError (prompt t) = tt
Step-AfterError (end t) = tt
Step-AfterError (plain o) = tt
Step-AfterError (malformed inner t l) = tt
Step-AfterError (notify kind payload t l i c) = tt
Step-AfterError (banner payload t n) = tt
Step-AfterError (later_info payload t e) = tt
Step-AfterError (address payload args t o p) = tt
Step-AfterError (open_block payload event args t o p n) = tt
Step-AfterError (entry accum r k v t a n p c) = tt
Step-AfterError (close_block accum t a) = tt
Step-AfterError (too_many accum r m t a n f) = (accum, a, f, refl)

Sound-AfterError : Sound (λ _. Unit) AfterError
Sound-AfterError = record {
  on_line = λ d text _. Step-AfterError (Step-decode_line d text);
  on_bytes = λ d _. refl;
  on_prompt = λ d _. tt;
  on_pending = λ d _. tt;
}

-- `decode` fails in two ways only, on every buffer and in every state. On bytes that are not
-- UTF-8 it leaves no ENV block open. On the limit of ENV entries it leaves a block open that
-- holds at least as many entries as the decoder's limit, which is the limit that the error
-- names.
pub decode-AfterError :
    (d : FrameDecoder) (src : Bytes) → AfterError (decode d src).decoder (decode d src).outcome
decode-AfterError d src = decode_rule (λ _. Unit) AfterError Sound-AfterError d src tt

-- An ENV line for a full block is refused, and the decoder with its block is left as it was.
pub decode-IsFull :
    (d : FrameDecoder) (accum : ClientEnvAccumulator) (r : Str) (m : ℕ) (rest : Bytes)
    → d.client_notification ≡ some accum
    → IsFull (length accum.env) d.max_client_env_entries m
    → IsLine (env_prefix ++ r)
    → r ≢ codes "END"
    → decode d (as_bytes (env_prefix ++ r) ++ (b'\n' ∷ rest)) ≡ record {
      decoder = d;
      buffer = rest;
      outcome = failed (accumulation_limit_exceeded "client ENV" m);
    }
decode-IsFull d accum r m rest a f h n =
    decode-line_bytes d (env_prefix ++ r) rest h
    ∙ rw (decode_line-Step d (too_many accum r m refl a n f)) refl
