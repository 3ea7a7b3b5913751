-- ===== src/Command/Token.antt =====
-- `next_token` of openvpn-mgmt-codec/src/command.rs: the tokens of a command line, quoted or not,
-- and the tokens that the encoder's quoting is read back as.
use openvpn_mgmt_codec.Prelude.{
  ℕ, ◌≡◌, refl, ap, ◌∙◌, Bool, true, false, [], ◌∷◌, ◌++◌, append_assoc, append-nil, Option, none,
  some, ◌==◌, ==_iff, sym, if◌then◌else◌, Bool-cases, inl, inr,
}
use openvpn_mgmt_codec.Text.{
  Str, codes, strip_prefix, split_once_by, is_whitespace, is_empty, trim_start, trim_start_by,
}
use openvpn_mgmt_codec.Frame.Encoder.{escape, escape_char, quote}
use openvpn_mgmt_codec.Codec.Wire.{quoted}

-- The loop over a quoted token: `escaped` after a backslash. The token's characters so far are in
-- `token`; without a closing quote there is no token.
unfoldable pub quoted_token : Bool → Str → Str → Option (Str × Str)
quoted_token escaped token [] = none
quoted_token true token (c ∷ s) = quoted_token false (token ++ (c ∷ [])) s
quoted_token false token (c ∷ s) = elim (c == b'"') [
  | true ↦ some (token, trim_start s)
  | false ↦ elim (c == b'\\') [
    | true ↦ quoted_token true token s
    | false ↦ quoted_token false (token ++ (c ∷ [])) s
  ]
]

unfoldable pub unquoted_token : Str → Str × Str
unquoted_token input = elim (split_once_by is_whitespace input) [
  | some cut ↦ (cut.0, trim_start cut.1)
  | none ↦ (input, [])
]

unfoldable pub next_token : Str → Option (Str × Str)
next_token input =
    let trimmed = trim_start input in
    if is_empty trimmed then none else elim (strip_prefix (codes "\"") trimmed) [
      | some behind ↦ quoted_token false [] behind
      | none ↦ some (unquoted_token trimmed)
    ]

quoted_token-plain :
    (token t : Str) (c : ℕ)
    → (c == b'"') ≡ false
    → (c == b'\\') ≡ false
    → quoted_token false token (c ∷ t) ≡ quoted_token false (token ++ (c ∷ [])) t
unfolding quoted_token
quoted_token-plain token t c m n = rw (quoted_token, m) (rw (quoted_token, n) refl)

quoted_token-escape_char :
    (token t : Str) (c : ℕ)
    → quoted_token false token (escape_char c ++ t) ≡ quoted_token false (token ++ (c ∷ [])) t
unfolding quoted_token escape_char
quoted_token-escape_char token t c = elim (Bool-cases (c == b'\\')) [
  | inl e ↦ rw e (ap (λ x. quoted_token false (token ++ (x ∷ [])) t) (sym ((==_iff c b'\\').0 e)))
  | inr n ↦ elim (Bool-cases (c == b'"')) [
    | inl q ↦
        rw (n, q) (ap (λ x. quoted_token false (token ++ (x ∷ [])) t) (sym ((==_iff c b'"').0 q)))
    | inr m ↦ rw (n, m) (quoted_token-plain token t c m n)
  ]
]

quoted_token-escape :
    (token s rest : Str)
    → quoted_token false token (escape s ++ (b'"' ∷ rest)) ≡ some (token ++ s, trim_start rest)
unfolding escape
quoted_token-escape token [] rest = unfold quoted_token in rw (append-nil token)
quoted_token-escape token (c ∷ s) rest =
    ap (quoted_token false token) (append_assoc (escape_char c) (escape s) (b'"' ∷ rest))
    ∙ (quoted_token-escape_char token (escape s ++ (b'"' ∷ rest)) c
        ∙ (quoted_token-escape (token ++ (c ∷ [])) s rest
            ∙ ap (λ x. some (x, trim_start rest)) (append_assoc token (c ∷ []) s)))

-- A text that the encoder quotes, with quotes and backslashes in it or not, is read back by
-- `next_token` as one token, and what follows is left without its leading white space.
pub next_token-quoted : (s rest : Str) → next_token (quoted s ++ rest) ≡ some (s, trim_start rest)
unfolding next_token quoted quote trim_start trim_start_by is_whitespace strip_prefix
next_token-quoted s rest =
    ap (quoted_token false []) (append_assoc (escape s) (b'"' ∷ []) rest)
    ∙ quoted_token-escape [] s rest
