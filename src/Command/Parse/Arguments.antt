-- ===== src/Command/Parse/Arguments.antt =====
-- The error of `FromStr for OvpnCommand` in openvpn-mgmt-codec/src/command.rs, and the pieces that
-- its arms share.
use Prim.Native.String.{String}
use mathlib.Core.List.{map}
use openvpn_mgmt_codec.Prelude.{
  ℕ, Bool, true, false, List, [], ◌∷◌, ◌++◌, Option, none, some, ◌==◌, if◌then◌else◌,
}
use openvpn_mgmt_codec.Prelude.Results.{Result, ok, err}
use openvpn_mgmt_codec.Text.{Str, is_empty, is_whitespace, trim}
use openvpn_mgmt_codec.Text.Decimal.{parse}
use openvpn_mgmt_codec.Values.Auth.{AuthType, unknown, parse_auth_type_text}
use openvpn_mgmt_codec.Command.Token.{next_token}

pub data CommandParseError : Type 0 where
  signal stream_mode auth_retry_mode : Str → CommandParseError
  invalid_number : String → Str → CommandParseError
  invalid_choice : String → Str → String → CommandParseError
  missing_args : String → CommandParseError

-- `Option::ok_or`
abbrev pub ok_or {ℓ} : {A : Type ℓ} → Option A → CommandParseError → Result CommandParseError A
ok_or none e = err e
ok_or (some a) e = ok a

-- `Result::map_err`, and the conversions of `?`.
abbrev pub map_err {ℓ} :
    {A : Type ℓ} → Result Str A → (Str → CommandParseError) → Result CommandParseError A
map_err (ok a) f = ok a
map_err (err e) f = err (f e)

-- `parse::<u64>().map_err(|_| MissingArgs(..))` and its likes.
unfoldable pub parse_id : ℕ → Str → String → Result CommandParseError ℕ
parse_id limit s message = ok_or (parse limit s) (missing_args message)

unfoldable pub parse_number : ℕ → String → Str → Result CommandParseError ℕ
parse_number limit field s = ok_or (parse limit s) (invalid_number field s)

-- `next_token(..).ok_or(MissingArgs(..))`
unfoldable pub token : Str → String → Result CommandParseError (Str × Str)
token s usage = ok_or (next_token s) (missing_args usage)

-- `.parse().unwrap_or(AuthType::Unknown(..))`
unfoldable pub auth_type_or_unknown : Str → AuthType
auth_type_or_unknown s = elim (parse_auth_type_text s) [ ok a ↦ a | err e ↦ unknown s ]

-- `str::rsplit_once`
unfoldable pub rsplit_once_by : (ℕ → Bool) → Str → Option (Str × Str)
rsplit_once_by p [] = none
rsplit_once_by p (c ∷ s) = elim (rsplit_once_by p s) [
  | some cut ↦ some (c ∷ cut.0, cut.1)
  | none ↦ if p c then some ([], s) else none
]

abbrev pub cons_head : ℕ → List Str → List Str
cons_head c [] = (c ∷ []) ∷ []
cons_head c (s ∷ ss) = (c ∷ s) ∷ ss

-- `str::split` at a character
unfoldable pub split : ℕ → Str → List Str
split d [] = [] ∷ []
split d (c ∷ s) = let more = split d s in if c == d then [] ∷ more else cons_head c more

-- `str::split_whitespace`, with the word read so far.
unfoldable pub words_from : Str → Str → List Str
words_from word [] = if is_empty word then [] else word ∷ []
words_from word (c ∷ s) = elim (is_whitespace c) [
  | true ↦ let more = words_from [] s in if is_empty word then more else word ∷ more
  | false ↦ words_from (word ++ (c ∷ [])) s
]

unfoldable pub split_whitespace : Str → List Str
split_whitespace = words_from []

-- `split(',').map(trim)`
unfoldable pub trimmed_lines : Str → List Str
trimmed_lines s = map trim (split b',' s)
