-- ===== src/Values/Auth.antt =====
-- openvpn-mgmt-codec/src/auth.rs: the type, its `Display` and its `FromStr`; the error holds the refused text.
use openvpn_mgmt_codec.Prelude.{◌≡◌, refl, if◌then◌else◌}
use openvpn_mgmt_codec.Prelude.Results.{Result, ok, err}
use openvpn_mgmt_codec.Text.{Str, codes, str_eq}

pub data AuthType : Type 0 where
  auth private_key http_proxy socks_proxy : AuthType
  unknown : Str → AuthType

unfoldable pub auth_type_text : AuthType → Str
auth_type_text auth = codes "Auth"
auth_type_text private_key = codes "Private Key"
auth_type_text http_proxy = codes "HTTP Proxy"
auth_type_text socks_proxy = codes "SOCKS Proxy"
auth_type_text (unknown text) = text

unfoldable pub parse_auth_type_text : Str → Result Str AuthType
parse_auth_type_text input =
    if str_eq input (codes "Auth")
    then ok auth
    else if str_eq input (codes "Private Key")
    then ok private_key
    else if str_eq input (codes "HTTP Proxy")
    then ok http_proxy
    else if str_eq input (codes "SOCKS Proxy")
    then ok socks_proxy
    else err input

-- Every known value of `AuthType` is read back from the text that it is printed as.
abbrev pub IsKnown : AuthType → Type 0
IsKnown (unknown text) = ⊥
IsKnown _ = Unit

pub parse_auth_type_text-auth_type_text :
    (v : AuthType) → IsKnown v → parse_auth_type_text (auth_type_text v) ≡ ok v
unfolding parse_auth_type_text auth_type_text str_eq
parse_auth_type_text-auth_type_text auth h = refl
parse_auth_type_text-auth_type_text private_key h = refl
parse_auth_type_text-auth_type_text http_proxy h = refl
parse_auth_type_text-auth_type_text socks_proxy h = refl
parse_auth_type_text-auth_type_text (unknown text) h = absurd h

pub data AuthRetryMode : Type 0 where
  no_retry interact nointeract : AuthRetryMode

unfoldable pub auth_retry_text : AuthRetryMode → Str
auth_retry_text no_retry = codes "none"
auth_retry_text interact = codes "interact"
auth_retry_text nointeract = codes "nointeract"

unfoldable pub parse_auth_retry : Str → Result Str AuthRetryMode
parse_auth_retry input =
    if str_eq input (codes "none")
    then ok no_retry
    else if str_eq input (codes "interact")
    then ok interact
    else if str_eq input (codes "nointeract")
    then ok nointeract
    else err input

-- Every known value of `AuthRetryMode` is read back from the text that it is printed as.
pub parse_auth_retry-auth_retry_text :
    (v : AuthRetryMode) → parse_auth_retry (auth_retry_text v) ≡ ok v
unfolding parse_auth_retry auth_retry_text str_eq
parse_auth_retry-auth_retry_text no_retry = refl
parse_auth_retry-auth_retry_text interact = refl
parse_auth_retry-auth_retry_text nointeract = refl
