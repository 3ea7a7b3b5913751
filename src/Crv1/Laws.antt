-- ===== src/Crv1/Laws.antt =====
-- The challenge and the response of openvpn-mgmt-codec/src/crv1_challenge.rs and crv1_response.rs,
-- printed and read back.
use openvpn_mgmt_codec.Prelude.{
  ℕ, ◌≡◌, ◌≢◌, refl, ap, ◌∙◌, [], ◌∷◌, ◌++◌, none, some, length, false, Lacks, All, arith,
  Bool-cases, inl, inr, length-append,
}
use openvpn_mgmt_codec.Prelude.Results.{ok}
use openvpn_mgmt_codec.Text.{
  Str, Bytes, codes, str_eq, strip_prefix, strip_suffix, split_once_str, splitn, splitn_by,
}
use openvpn_mgmt_codec.Text.Laws.{strip_prefix-append, str_eq_refl, str_eq_iff}
use openvpn_mgmt_codec.Text.Utf8.{as_bytes, from_utf8-as_bytes, IsScalar}
use openvpn_mgmt_codec.Message.Types.{dynamic_challenge}
use openvpn_mgmt_codec.Message.Parse.Password.{
  parse_password_notification, parse_verification_failed, parse_crv1,
}
use openvpn_mgmt_codec.Responses.StateLaws.{splitn-append}
use openvpn_mgmt_codec.Crv1.{
  Engine, Crv1Challenge, Crv1Response, ParseCrv1ResponseError, challenge_string, response_string,
  decode_text, from_fields, from_str,
}

-- The four fields behind `CRV1:`.
splitn-four :
    (a b c d : Str)
    → Lacks b':' a
    → Lacks b':' b
    → Lacks b':' c
    → splitn 4 b':' (a ++ (b':' ∷ b ++ (b':' ∷ c ++ (b':' ∷ d)))) ≡ a ∷ b ∷ c ∷ d ∷ []
unfolding splitn_by
splitn-four a b c d ha hb hc =
    splitn-append 2 b':' a _ ha
    ∙ ap (λ z. a ∷ z) (splitn-append 1 b':' b _ hb ∙ ap (λ z. b ∷ z) (splitn-append 0 b':' c d hc))

strip_suffix_all : (p : Str) → strip_suffix p p ≡ some []
unfolding strip_suffix str_eq
strip_suffix_all [] = refl
strip_suffix_all (c ∷ p) = rw (str_eq_refl (c ∷ p)) refl

str_eq-longer : (p s : Str) (c : ℕ) → str_eq p (c ∷ (s ++ p)) ≡ false
str_eq-longer p s c = elim (Bool-cases (str_eq p (c ∷ (s ++ p)))) [
  | inl t ↦
      let same : length p ≡ length (c ∷ (s ++ p)) = ap length ((str_eq_iff p (c ∷ (s ++ p))).0 t) in
      absurd (omega (arith, same, length-append s p))
  | inr f ↦ f
]

pub strip_suffix-append : (p : Str) (s : Str) → strip_suffix p (s ++ p) ≡ some s
unfolding strip_suffix
strip_suffix-append p [] = strip_suffix_all p
strip_suffix-append p (c ∷ s) = rw (str_eq-longer p s c, strip_suffix-append p s) refl

strip_prefix-other :
    (x : ℕ) (p : Str) (c : ℕ) (s : Str) → c ≢ x → strip_prefix (x ∷ p) (c ∷ s) ≡ none
unfolding strip_prefix
strip_prefix-other x p c s h = ground arith

-- The cut is at the first occurrence of the first character.
pub split_once_str-append :
    (x : ℕ) (p a b : Str) → Lacks x a → split_once_str (x ∷ p) (a ++ (x ∷ p ++ b)) ≡ some (a, b)
unfolding split_once_str
split_once_str-append x p [] b h = rw (split_once_str, strip_prefix-append (x ∷ p) b) refl
split_once_str-append x p (c ∷ a) b h =
    rw
      (
        split_once_str,
        strip_prefix-other x p c (a ++ (x ∷ p ++ b)) h.0,
        split_once_str-append x p a b h.1,
      )
      refl

parse_verification_failed-cut :
    (behind a b : Str)
    → split_once_str (codes "' ['CRV1:") behind ≡ some (a, b)
    → parse_verification_failed behind ≡ parse_crv1 b
unfolding parse_verification_failed
parse_verification_failed-cut behind a b h = rw (parse_verification_failed, h) refl

parse_crv1-four :
    (a b c d : Str)
    → Lacks b':' a
    → Lacks b':' b
    → Lacks b':' c
    → parse_crv1 ((a ++ (b':' ∷ b ++ (b':' ∷ c ++ (b':' ∷ d)))) ++ codes "']")
      ≡ some (dynamic_challenge a b c d)
unfolding parse_crv1
parse_crv1-four a b c d ha hb hc =
    rw (strip_suffix-append (codes "']") (a ++ (b':' ∷ b ++ (b':' ∷ c ++ (b':' ∷ d)))))
      (rw (splitn-four a b c d ha hb hc) refl)

module _ {E : Type 0} (engine : Engine E) where
  open engine use {encode, decode}

  decode_text-encode :
      (f : E → ParseCrv1ResponseError E) (g : Bytes → ParseCrv1ResponseError E) (s : Str)
      → All IsScalar s
      → decode_text engine f g (encode (as_bytes s)) ≡ ok s
  unfolding decode_text
  decode_text-encode f g s h = rw (engine.decode-encode (as_bytes s), from_utf8-as_bytes s h) refl

  -- A CRV1 response, its flags without a colon and its state id and user name of Unicode scalar
  -- values, is read back from its text, for every base64 engine that decodes what it encodes
  -- and uses no colon. Its answer may have colons.
  pub from_str-response_string :
      (r : Crv1Response)
      → Lacks b':' r.flags
      → All IsScalar r.state_id
      → All IsScalar r.username
      → from_str engine (response_string engine r) ≡ ok r
  unfolding from_str response_string from_fields
  from_str-response_string r hf hs hu = rw (strip_prefix-append (codes "CRV1:") _) (
      rw
        (splitn-four r.flags (encode (as_bytes r.state_id)) (encode (as_bytes r.username))
          r.response hf (engine.encode-Lacks _) (engine.encode-Lacks _))
        (rw (decode_text-encode _ _ r.state_id hs, decode_text-encode _ _ r.username hu) refl))

  -- A CRV1 challenge, its flags without a colon, in the notification of a failed password
  -- verification for `Auth`, is parsed to its flags, the base64 texts of its state id and user
  -- name, and its challenge text, whatever characters the challenge text has, for every base64
  -- engine that uses no colon.
  pub parse_password_notification-challenge_string :
      (c : Crv1Challenge)
      → Lacks b':' c.flags
      → parse_password_notification
          (codes "Verification Failed: 'Auth' ['" ++ (challenge_string engine c ++ codes "']"))
        ≡ some (
            dynamic_challenge c.flags
              (encode (as_bytes c.state_id))
              (encode (as_bytes c.username))
              c.challenge_text)
  unfolding parse_password_notification parse_verification_failed parse_crv1 challenge_string
      strip_prefix
  parse_password_notification-challenge_string c hf =
      let fields : Str =
        c.flags
        ++ (b':' ∷ encode (as_bytes c.state_id)
            ++ (b':' ∷ encode (as_bytes c.username) ++ (b':' ∷ c.challenge_text))) in
      parse_verification_failed-cut _ (codes "Auth") (fields ++ codes "']") (
        split_once_str-append b'\'' (codes " ['CRV1:") (codes "Auth") (fields ++ codes "']")
          (omega arith))
      ∙ parse_crv1-four c.flags (encode (as_bytes c.state_id)) (encode (as_bytes c.username))
          c.challenge_text hf (engine.encode-Lacks _) (engine.encode-Lacks _)
