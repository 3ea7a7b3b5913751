-- ===== src/Responses/VersionLaws.antt =====
-- The response of `version` (openvpn-mgmt-codec/src/version_info.rs), in the wording of older and of
-- newer servers.
use openvpn_mgmt_codec.Prelude.{
  ℕ, ◌≤◌, ◌≡◌, ◌≢◌, refl, sym, ap, ◌∙◌, Bool, true, false, List, [], ◌∷◌, ◌++◌, Option, none, some,
  arith, All, if◌then◌else◌, Bool-cases, inl, inr,
}
use openvpn_mgmt_codec.Prelude.Results.{ok}
use openvpn_mgmt_codec.Text.{Str, codes, strip_prefix, split_once_str}
use openvpn_mgmt_codec.Text.Decimal.{
  max_u32, to_string, to_string-IsDigit, to_string-ne-nil, parse-to_string, IsDigit,
}
use openvpn_mgmt_codec.Responses.Version.{
  to_ascii_lowercase, digit_runs, find_nonempty, trailing_digits, read_version, is_management_line,
  is_openvpn_line, read_line, read_lines, parse,
}

-- "Management Interface Version: " and, in newer servers, "Management Version: ".
abbrev pub heading : Bool → Str
heading true = codes "Management Interface Version: "
heading false = codes "Management Version: "

-- The last line that says the version of OpenVPN.
unfoldable pub last_openvpn : Option Str → List Str → Option Str
last_openvpn found [] = found
last_openvpn found (line ∷ lines) =
    last_openvpn (if is_openvpn_line line then some line else found) lines

digit_runs-digits : (s : Str) → All IsDigit s → digit_runs s ≡ s ∷ []
unfolding digit_runs
digit_runs-digits [] h = refl
digit_runs-digits (c ∷ s) h = rw (digit_runs-digits s h.1) (ground arith)

find_nonempty_first : (s : Str) (ss : List Str) → s ≢ [] → find_nonempty (s ∷ ss) ≡ some s
unfolding find_nonempty
find_nonempty_first [] ss h = absurd (h refl)
find_nonempty_first (c ∷ s) ss h = refl

trailing_digits-heading :
    (b : Bool) (s : Str) → All IsDigit s → s ≢ [] → trailing_digits (heading b ++ s) ≡ some s
unfolding trailing_digits digit_runs
trailing_digits-heading true s h n = rw (digit_runs-digits s h) (find_nonempty_first s _ n)
trailing_digits-heading false s h n = rw (digit_runs-digits s h) (find_nonempty_first s _ n)

is_management_line-heading : (b : Bool) (s : Str) → is_management_line (heading b ++ s) ≡ true
unfolding is_management_line to_ascii_lowercase strip_prefix split_once_str
is_management_line-heading true s = refl
is_management_line-heading false s = refl

is_openvpn_line-heading : (b : Bool) (s : Str) → is_openvpn_line (heading b ++ s) ≡ false
unfolding is_openvpn_line to_ascii_lowercase strip_prefix
is_openvpn_line-heading true s = refl
is_openvpn_line-heading false s = refl

-- Once the management version is known, a line can only say the version of OpenVPN.
read_lines_known :
    (n : Option ℕ) (found : Option Str) (lines : List Str)
    → read_lines (some n, found) lines ≡ ok (some n, last_openvpn found lines)
unfolding read_lines read_line last_openvpn
read_lines_known n found [] = refl
read_lines_known n found (line ∷ lines) = elim (Bool-cases (is_openvpn_line line)) [
  | inl t ↦ rw t (read_lines_known n (some line) lines)
  | inr f ↦ rw f (read_lines_known n found lines)
]

read_line-heading :
    (b : Bool) (n : ℕ) (found : Option Str)
    → n ≤ max_u32
    → read_line (none, found) (heading b ++ to_string n) ≡ ok (some (some n), found)
unfolding read_line read_version
read_line-heading b n found h =
    rw
      (
        is_management_line-heading b (to_string n),
        trailing_digits-heading b (to_string n) (to_string-IsDigit n) (to_string-ne-nil n),
        parse-to_string max_u32 n h,
      )
      refl

read_lines-read_line :
    (r r' : Option (Option ℕ) × Option Str) (line : Str) (lines : List Str)
    → read_line r line ≡ ok r'
    → read_lines r (line ∷ lines) ≡ read_lines r' lines
unfolding read_lines
read_lines-read_line r r' line lines h = rw h refl

-- A line before the management version.
read_line_other :
    (found : Option Str) (line : Str)
    → is_management_line line ≡ false
    → read_line (none, found) line ≡ ok (none, if is_openvpn_line line then some line else found)
unfolding read_line
read_line_other found line h = elim (Bool-cases (is_openvpn_line line)) [
  | inl t ↦ rw (h, t) refl
  | inr f ↦ rw (h, f) refl
]

last_openvpn-heading :
    (b : Bool) (s : Str) (found : Option Str) (lines : List Str)
    → last_openvpn found ((heading b ++ s) ∷ lines) ≡ last_openvpn found lines
unfolding last_openvpn
last_openvpn-heading b s found lines = rw (is_openvpn_line-heading b s) refl

read_lines-heading :
    (b : Bool) (n : ℕ) (before after : List Str) (found : Option Str)
    → n ≤ max_u32
    → All (λ line. is_management_line line ≡ false) before
    → read_lines (none, found) (before ++ ((heading b ++ to_string n) ∷ after))
      ≡ ok (some (some n), last_openvpn found (before ++ ((heading b ++ to_string n) ∷ after)))
unfolding last_openvpn
read_lines-heading b n [] after found h m =
    read_lines-read_line _ _ (heading b ++ to_string n) after (read_line-heading b n found h)
    ∙ (read_lines_known (some n) found after
        ∙ ap (λ o. ok (some (some n), o)) (sym (last_openvpn-heading b (to_string n) found after)))
read_lines-heading b n (line ∷ before) after found h m =
    read_lines-read_line _ _ line (before ++ ((heading b ++ to_string n) ∷ after))
      (read_line_other found line m.0)
    ∙ read_lines-heading b n before after (if is_openvpn_line line then some line else found) h m.1

-- A response of `version` in which the first management line is `Management Interface Version:
-- ` or `Management Version: ` and a 32-bit number is parsed to that number, whatever lines come
-- behind it, to the last line that says the version of OpenVPN, and to the lines themselves.
pub parse-heading :
    (b : Bool) (n : ℕ) (before after : List Str)
    → n ≤ max_u32
    → All (λ line. is_management_line line ≡ false) before
    → let lines = before ++ ((heading b ++ to_string n) ∷ after) in
      parse lines
      ≡ ok (record {
        management_version = some n;
        openvpn_version_line = last_openvpn none lines;
        raw_lines = lines;
      })
unfolding parse
parse-heading b n before after h m = rw (read_lines-heading b n before after none h m) refl
