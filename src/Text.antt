-- ===== src/Text.antt =====
-- `str` and `String` as lists of code points, with the operations of `std` that the source calls,
-- and byte buffers (`BytesMut`) as lists of bytes.
pub mod Utf8
pub mod Decimal
pub mod Laws
use Prim.Native.Char.{code}
use Prim.Native.String.{String}
use openvpn_mgmt_codec.Prelude.{
  ℕ, zero, suc, Bool, true, false, ◌&&◌, ◌||◌, not, List, [], ◌∷◌, ◌++◌, Option, none, some, ltb,
  leb, ◌==◌, if◌then◌else◌, is_none,
}
use openvpn_mgmt_codec.Prelude.Options.{map}

abbrev pub Str : Type 0
Str = List ℕ

abbrev pub Bytes : Type 0
Bytes = List ℕ

-- The code points of a literal.
abbrev pub codes : String → Str
codes String.[] = []
codes (String.◌∷◌ c s) = code c ∷ codes s

unfoldable pub str_eq : Str → Str → Bool
str_eq [] [] = true
str_eq (x ∷ xs) (y ∷ ys) = x == y && str_eq xs ys
str_eq _ _ = false

abbrev pub is_empty : Str → Bool
is_empty [] = true
is_empty (c ∷ s) = false

unfoldable pub any : (ℕ → Bool) → Str → Bool
any p [] = false
any p (c ∷ s) = p c || any p s

abbrev pub contains : ℕ → Str → Bool
contains d = any (λ c. c == d)

-- `s.strip_prefix(p)` is `strip_prefix p s`; the pattern comes first throughout.
unfoldable pub strip_prefix : Str → Str → Option Str
strip_prefix [] s = some s
strip_prefix (x ∷ p) [] = none
strip_prefix (x ∷ p) (c ∷ s) = if c == x then strip_prefix p s else none

abbrev pub starts_with : Str → Str → Bool
starts_with p s = not (is_none (strip_prefix p s))

unfoldable pub strip_suffix : Str → Str → Option Str
unfolding str_eq
strip_suffix p [] = if str_eq p [] then some [] else none
strip_suffix p (c ∷ s) =
    let later = map (◌∷◌ c) (strip_suffix p s) in if str_eq p (c ∷ s) then some [] else later

-- `split_once` at the first character that a test accepts.
unfoldable pub split_once_by : (ℕ → Bool) → Str → Option (Str × Str)
split_once_by p [] = none
split_once_by p (c ∷ s) =
    if p c then some ([], s) else map (λ (cut : Str × Str). (c ∷ cut.0, cut.1)) (split_once_by p s)

abbrev pub split_once : ℕ → Str → Option (Str × Str)
split_once d = split_once_by (λ c. c == d)

-- `split_once` at the first occurrence of a text.
unfoldable pub split_once_str : Str → Str → Option (Str × Str)
unfolding strip_prefix
split_once_str p [] = map (λ rest. ([], rest)) (strip_prefix p [])
split_once_str p (c ∷ s) =
    let later = map (λ (cut : Str × Str). (c ∷ cut.0, cut.1)) (split_once_str p s) in
    elim (strip_prefix p (c ∷ s)) [ none ↦ later | some rest ↦ some ([], rest) ]

-- The pieces that `splitn` yields, in order: at most `n`, the last one uncut.
unfoldable pub splitn_by : ℕ → (ℕ → Bool) → Str → List Str
unfolding split_once_by
splitn_by zero p s = []
splitn_by (suc zero) p s = s ∷ []
splitn_by (suc (suc n)) p s = elim (split_once_by p s) [
  | none ↦ s ∷ []
  | some (a, b) ↦ a ∷ splitn_by (suc n) p b
]

abbrev pub splitn : ℕ → ℕ → Str → List Str
splitn n d = splitn_by n (λ c. c == d)

-- `Iterator::next` on the pieces that are left.
abbrev pub next : List Str → Option Str
next [] = none
next (s ∷ ss) = some s

abbrev pub rest : List Str → List Str
rest [] = []
rest (s ∷ ss) = ss

-- `[&str]::join` with one character.
unfoldable pub join : ℕ → List Str → Str
join d [] = []
join d (s ∷ []) = s
join d (s ∷ t ∷ ss) = s ++ (d ∷ join d (t ∷ ss))

-- `char::is_whitespace`: the code points with the property `White_Space`.
unfoldable pub is_whitespace : ℕ → Bool
is_whitespace c =
    (leb 9 c && leb c 13)
    || c == 32
    || c == 0x85
    || c == 0xa0
    || c == 0x1680
    || (leb 0x2000 c && leb c 0x200a)
    || c == 0x2028
    || c == 0x2029
    || c == 0x202f
    || c == 0x205f
    || c == 0x3000

unfoldable pub trim_start_by : (ℕ → Bool) → Str → Str
trim_start_by p [] = []
trim_start_by p (c ∷ s) = if p c then trim_start_by p s else c ∷ s

-- `c ∷ s` without the tail that `p` accepts, where `s` has none.
abbrev trim_cons : (ℕ → Bool) → ℕ → Str → Str
trim_cons p c [] = if p c then [] else c ∷ []
trim_cons p c (x ∷ s) = c ∷ x ∷ s

unfoldable pub trim_end_by : (ℕ → Bool) → Str → Str
trim_end_by p [] = []
trim_end_by p (c ∷ s) = trim_cons p c (trim_end_by p s)

unfoldable pub trim_start : Str → Str
unfolding trim_start_by is_whitespace
trim_start = trim_start_by is_whitespace

unfoldable pub trim : Str → Str
unfolding trim_end_by trim_start is_whitespace
trim s = trim_end_by is_whitespace (trim_start s)
