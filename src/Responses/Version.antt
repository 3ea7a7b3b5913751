-- ===== src/Responses/Version.antt =====
-- openvpn-mgmt-codec/src/version_info.rs: what the response of `version` says.
use mathlib.Core.List.{reverse}
use openvpn_mgmt_codec.Prelude.{
  ℕ, Bool, ◌&&◌, not, List, [], ◌∷◌, ◌+◌, Option, none, some, leb, is_none, if◌then◌else◌,
}
use openvpn_mgmt_codec.Prelude.Results.{Result, ok, ◌>>=◌}
use openvpn_mgmt_codec.Text.{Str, codes, is_empty, starts_with, split_once_str}
use openvpn_mgmt_codec.Text.Decimal.{max_u32}
use openvpn_mgmt_codec.Text.Decimal
use openvpn_mgmt_codec.Responses.{ParseResponseError, invalid_management_version, ok_or}

pub record VersionInfo : Type 0 where
  pub management_version : Option ℕ
  pub openvpn_version_line : Option Str
  pub raw_lines : List Str

-- `char::to_ascii_lowercase` and `str::to_ascii_lowercase`
abbrev lower : ℕ → ℕ
lower c = if leb b'A' c && leb c b'Z' then c + 32 else c

unfoldable pub to_ascii_lowercase : Str → Str
to_ascii_lowercase [] = []
to_ascii_lowercase (c ∷ s) = lower c ∷ to_ascii_lowercase s

abbrev pub is_ascii_digit : ℕ → Bool
is_ascii_digit c = leb b'0' c && leb c b'9'

-- The digits of a text from its start, and the pieces of `split` at each other character.
abbrev cons_piece : ℕ → List Str → List Str
cons_piece c [] = (c ∷ []) ∷ []
cons_piece c (s ∷ ss) = (c ∷ s) ∷ ss

unfoldable pub digit_runs : Str → List Str
digit_runs [] = [] ∷ []
digit_runs (c ∷ s) =
    let more = digit_runs s in if not (is_ascii_digit c) then [] ∷ more else cons_piece c more

-- `find(|part| !part.is_empty())`
unfoldable pub find_nonempty : List Str → Option Str
find_nonempty [] = none
find_nonempty (s ∷ ss) = let later = find_nonempty ss in if is_empty s then later else some s

-- The last run of digits: `rsplit` yields the pieces from the end.
unfoldable pub trailing_digits : Str → Option Str
trailing_digits line = find_nonempty (reverse (digit_runs line))

-- `management_version` of the loop: not seen, seen without a number, or with one.
abbrev Seen : Type 0
Seen = Option (Option ℕ)

unfoldable pub read_version : Option Str → Result ParseResponseError Seen
read_version none = ok (some none)
read_version (some part) =
    ok_or (Decimal.parse max_u32 part) (invalid_management_version part) >>= λ n. ok (some (some n))

unfoldable pub is_management_line : Str → Bool
is_management_line line =
    let lowered = to_ascii_lowercase line in
    starts_with (codes "management") lowered
    && not (is_none (split_once_str (codes "version") lowered))

unfoldable pub is_openvpn_line : Str → Bool
is_openvpn_line line = starts_with (codes "openvpn version") (to_ascii_lowercase line)

-- One line of the loop.
unfoldable pub read_line : Seen × Option Str → Str → Result ParseResponseError (Seen × Option Str)
read_line (seen, found) line =
    if is_none seen && is_management_line line
    then (read_version (trailing_digits line) >>= λ seen'. ok (seen', found))
    else if is_openvpn_line line
    then ok (seen, some line)
    else ok (seen, found)

unfoldable pub read_lines :
    Seen × Option Str → List Str → Result ParseResponseError (Seen × Option Str)
read_lines read [] = ok read
read_lines read (line ∷ lines) = do read' ← read_line read line; read_lines read' lines

-- `Option::flatten`
abbrev flatten : Seen → Option ℕ
flatten none = none
flatten (some version) = version

unfoldable pub parse : List Str → Result ParseResponseError VersionInfo
parse lines = do
  read ← read_lines (none, none) lines
  ok (record {
    management_version = flatten read.0;
    openvpn_version_line = read.1;
    raw_lines = lines;
  })
