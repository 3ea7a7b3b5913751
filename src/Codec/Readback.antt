-- ===== src/Codec/Readback.antt =====
-- The parts of command lines that `encode` writes are read back by the arms of `FromStr for OvpnCommand`.
pub mod Whole
use Prim.Native.String.{String}
use openvpn_mgmt_codec.Prelude.{
  ℕ, ◌≤◌, ◌≡◌, ◌≢◌, refl, sym, ap, ◌∙◌, false, [], ◌∷◌, ◌++◌, append-nil, Option, none, some, arith,
  All,
}
use openvpn_mgmt_codec.Prelude.Results.{ok}
use openvpn_mgmt_codec.Prelude.Options.{map}
use openvpn_mgmt_codec.Text.{
  Str, codes, any, is_whitespace, trim_start, trim_start_by, strip_prefix, split_once_by,
}
use openvpn_mgmt_codec.Text.Laws.{Free}
use openvpn_mgmt_codec.Text.Decimal.{
  max_u64, to_string, parse-to_string, IsDigit, to_string-IsDigit, to_string-ne-nil,
}
use openvpn_mgmt_codec.Frame.Encoder.{quote}
use openvpn_mgmt_codec.Values.Auth.{
  AuthType, auth, private_key, http_proxy, socks_proxy, unknown, auth_type_text, IsKnown,
  parse_auth_type_text-auth_type_text,
}
use openvpn_mgmt_codec.Command.Types.{ClientDeny, password, client_deny}
use openvpn_mgmt_codec.Command.Token.{next_token, unquoted_token, next_token-quoted}
use openvpn_mgmt_codec.Command.Parse.Arguments.{
  missing_args, ok_or, parse_id, token, auth_type_or_unknown,
}
use openvpn_mgmt_codec.Command.Parse.Arms.{parse_password, parse_client_deny}
use openvpn_mgmt_codec.Codec.Wire.{words, quoted, client_deny_line, password_line}
use openvpn_mgmt_codec.Frame.Types.{EncoderMode}
use openvpn_mgmt_codec.Frame.Encoder.{wire_unsafe}
use openvpn_mgmt_codec.Frame.Encoder.Lines.{IsClean, any-IsClean, wire_safe_of_clean}

-- A word that needs no quotes.
abbrev pub IsWord : Str → Type 0
IsWord [] = ⊥
IsWord (c ∷ s) = (c ≢ b'"') × Free is_whitespace (c ∷ s)

IsDigit-is_whitespace : (c : ℕ) → IsDigit c → is_whitespace c ≡ false
unfolding is_whitespace
IsDigit-is_whitespace c h = ground arith

IsDigit-Free : (s : Str) → All IsDigit s → Free is_whitespace s
IsDigit-Free [] h = tt
IsDigit-Free (c ∷ s) h = (IsDigit-is_whitespace c h.0, IsDigit-Free s h.1)

IsDigit-IsWord : (s : Str) → s ≢ [] → All IsDigit s → IsWord s
IsDigit-IsWord [] n h = n refl
IsDigit-IsWord (c ∷ s) n h = (omega arith, IsDigit-Free (c ∷ s) h)

pub to_string-IsWord : (n : ℕ) → IsWord (to_string n)
to_string-IsWord n = IsDigit-IsWord (to_string n) (to_string-ne-nil n) (to_string-IsDigit n)

pub split_once_by-word :
    (w s : Str) → Free is_whitespace w → split_once_by is_whitespace (w ++ (b' ' ∷ s)) ≡ some (w, s)
unfolding split_once_by
split_once_by-word [] s h = unfold is_whitespace in refl
split_once_by-word (c ∷ w) s h = rw (h.0, split_once_by-word w s h.1)

pub trim_start-word : (w s : Str) → IsWord w → trim_start (w ++ s) ≡ w ++ s
unfolding trim_start trim_start_by
trim_start-word [] s h = absurd h
trim_start-word (c ∷ w) s h = rw (h.1.0)

strip_prefix-word : (c : ℕ) (s : Str) → c ≢ b'"' → strip_prefix (codes "\"") (c ∷ s) ≡ none
unfolding strip_prefix
strip_prefix-word c s h = ground arith

unquoted_token-word :
    (w s : Str) → Free is_whitespace w → unquoted_token (w ++ (b' ' ∷ s)) ≡ (w, trim_start s)
unfolding unquoted_token
unquoted_token-word w s h = rw (unquoted_token, split_once_by-word w s h) refl

-- A word up to a space.
next_token-word : (w s : Str) → IsWord w → next_token (w ++ (b' ' ∷ s)) ≡ some (w, trim_start s)
unfolding next_token unquoted_token
next_token-word [] s h = absurd h
next_token-word (c ∷ w) s h =
    let t = trim_start-word (c ∷ w) (b' ' ∷ s) h in
    rw (t, strip_prefix-word c (w ++ (b' ' ∷ s)) h.0)
      (rw t (ap some (unquoted_token-word (c ∷ w) s h.1)))

pub trim_start-quoted : (s t : Str) → trim_start (quoted s ++ t) ≡ quoted s ++ t
unfolding trim_start trim_start_by quoted quote is_whitespace
trim_start-quoted s t = refl

-- A text that does not start with white space.
abbrev pub IsStart : Str → Type 0
IsStart s = trim_start s ≡ s

quoted-IsStart : (s t : Str) → IsStart (quoted s ++ t)
quoted-IsStart s t = trim_start-quoted s t

trim_start_space : (s : Str) → IsStart s → trim_start (b' ' ∷ s) ≡ s
unfolding trim_start trim_start_by is_whitespace
trim_start_space s t = t

space_quoted : (s : Str) → trim_start (b' ' ∷ quoted s) ≡ quoted s ++ []
space_quoted s =
    trim_start_space (quoted s)
      (ap trim_start (sym (append-nil (quoted s))) ∙ (quoted-IsStart s [] ∙ append-nil (quoted s)))
    ∙ sym (append-nil (quoted s))

token-word :
    (w s : Str) (usage : String) → IsWord w → IsStart s → token (w ++ (b' ' ∷ s)) usage ≡ ok (w, s)
unfolding token
token-word w s usage h t =
    ap (λ o. ok_or o (missing_args usage)) (next_token-word w s h) ∙ ap (λ x. ok (w, x)) t

token-quoted : (s t : Str) (usage : String) → token (quoted s ++ t) usage ≡ ok (s, trim_start t)
unfolding token
token-quoted s t usage = ap (λ o. ok_or o (missing_args usage)) (next_token-quoted s t)

parse_id-to_string :
    (limit n : ℕ) (message : String) → n ≤ limit → parse_id limit (to_string n) message ≡ ok n
unfolding parse_id
parse_id-to_string limit n message h =
    ap (λ o. ok_or o (missing_args message)) (parse-to_string limit n h)

auth_type_or_unknown-text : (a : AuthType) → IsKnown a → auth_type_or_unknown (auth_type_text a) ≡ a
unfolding auth_type_or_unknown
auth_type_or_unknown-text a h =
    rw (auth_type_or_unknown, parse_auth_type_text-auth_type_text a h) refl

pub parse_password-words :
    (a : AuthType) (v : Str)
    → IsKnown a
    → parse_password (words (quoted (auth_type_text a) ∷ quoted v ∷ [])) ≡ ok (password a v)
unfolding parse_password words
parse_password-words a v h =
    let u : String = "usage: password <auth-type> <value>" in
    rw (token-quoted (auth_type_text a) (b' ' ∷ quoted v) u) (
      rw (space_quoted v)
        (rw (token-quoted v [] u) (ap (λ x. ok (password x v)) (auth_type_or_unknown-text a h))))

-- The arguments of `client-deny` as `encode` writes them: what follows the reason, and all.
pub reason_rest : Option Str → Str
reason_rest none = []
reason_rest (some r) = b' ' ∷ quoted r

pub deny_args : ClientDeny → Str
unfolding reason_rest
deny_args d =
    to_string d.cid
    ++ (b' ' ∷ (to_string d.kid ++ (b' ' ∷ (quoted d.reason ++ reason_rest d.client_reason))))

next_token-reason_rest :
    (r : Option Str)
    → map (λ (cut : Str × Str). cut.0) (next_token (trim_start (reason_rest r))) ≡ r
unfolding reason_rest
next_token-reason_rest none = unfold next_token trim_start trim_start_by in refl
next_token-reason_rest (some r) =
    ap (λ t. map (λ (cut : Str × Str). cut.0) (next_token t)) (space_quoted r)
    ∙ ap (map (λ (cut : Str × Str). cut.0)) (next_token-quoted r [])

pub parse_client_deny-deny_args :
    (d : ClientDeny)
    → d.cid ≤ max_u64
    → d.kid ≤ max_u64
    → parse_client_deny (deny_args d) ≡ ok (client_deny d)
unfolding parse_client_deny deny_args
parse_client_deny-deny_args d c k =
    let u : String = "usage: client-deny <cid> <kid> <reason> [client-reason]" in
    let end = reason_rest d.client_reason in
    let reason = quoted d.reason ++ end in
    let kid = to_string d.kid ++ (b' ' ∷ reason) in
    rw
      (token-word (to_string d.cid) kid u (to_string-IsWord d.cid)
        (trim_start-word (to_string d.kid) (b' ' ∷ reason) (to_string-IsWord d.kid)))
      (rw (parse_id-to_string max_u64 d.cid "cid must be a number" c) (
        rw
          (token-word (to_string d.kid) reason u (to_string-IsWord d.kid)
            (quoted-IsStart d.reason end))
          (rw (parse_id-to_string max_u64 d.kid "kid must be a number" k) (
            rw (token-quoted d.reason end u) (
              ap (λ r. ok (client_deny (record d { client_reason = r })))
                (next_token-reason_rest d.client_reason))))))

-- The client's reason, if there is one, is clean.
abbrev pub IsCleanReason : Option Str → Type 0
IsCleanReason none = Unit
IsCleanReason (some r) = IsClean r

pub client_deny_line-deny_args :
    (mode : EncoderMode) (cid kid : ℕ) (reason : Str) (client_reason : Option Str)
    → IsClean reason
    → IsCleanReason client_reason
    → let d : ClientDeny = record {
      cid = cid;
      kid = kid;
      reason = reason;
      client_reason = client_reason;
    } in
      client_deny_line mode d ≡ ok (codes "client-deny " ++ deny_args d)
unfolding client_deny_line deny_args reason_rest words
client_deny_line-deny_args mode cid kid reason none h o =
    rw (wire_safe_of_clean reason "client-deny reason" mode h) (rw append-nil refl)
client_deny_line-deny_args mode cid kid reason (some r) h o =
    rw (wire_safe_of_clean reason "client-deny reason" mode h)
      (rw (wire_safe_of_clean r "client-deny client_reason" mode o) refl)

pub password_args : AuthType → Str → Str
password_args a v = words (quoted (auth_type_text a) ∷ quoted v ∷ [])

auth_type_text-IsClean : (a : AuthType) → IsKnown a → IsClean (auth_type_text a)
unfolding auth_type_text any wire_unsafe
auth_type_text-IsClean (unknown t) k = absurd k
auth_type_text-IsClean auth k = any-IsClean (auth_type_text auth) refl
auth_type_text-IsClean private_key k = any-IsClean (auth_type_text private_key) refl
auth_type_text-IsClean http_proxy k = any-IsClean (auth_type_text http_proxy) refl
auth_type_text-IsClean socks_proxy k = any-IsClean (auth_type_text socks_proxy) refl

pub password_line-password_args :
    (mode : EncoderMode) (a : AuthType) (v : Str)
    → IsKnown a
    → IsClean v
    → password_line mode a v ≡ ok (codes "password " ++ password_args a v)
unfolding password_line password_args words
password_line-password_args mode a v k h =
    rw
      (wire_safe_of_clean (auth_type_text a) "password auth_type" mode (auth_type_text-IsClean a k))
      (rw (wire_safe_of_clean v "password value" mode h) refl)

pub parse_password-args :
    (a : AuthType) (v : Str) → IsKnown a → parse_password (password_args a v) ≡ ok (password a v)
unfolding password_args
parse_password-args a v k = parse_password-words a v k
