-- ===== src/Text/Decimal.antt =====
-- Unsigned integers as text: `Display` and `FromStr` of `u8`, `u16`, `u32`, `u64` in `std`.
use mathlib.Core.List.{concat-ne-nil}
use openvpn_mgmt_codec.Prelude.{
  ℕ, zero, suc, ◌+◌, ◌-◌, ◌*◌, ◌/◌, ◌%◌, ◌^◌, ◌≤◌, ◌<◌, ◌≡◌, ◌≢◌, refl, ◌∙◌, ◌&&◌, List, [], ◌∷◌,
  ◌++◌, Option, none, some, arith, ltb, leb, ◌==◌, if◌then◌else◌, All, All-append, inl, inr,
  Bool-cases, append-nil, append_assoc,
}

abbrev pub max_u8 : ℕ
max_u8 = 2 ^ 8 - 1

abbrev pub max_u16 : ℕ
max_u16 = 2 ^ 16 - 1

abbrev pub max_u32 : ℕ
max_u32 = 2 ^ 32 - 1

abbrev pub max_u64 : ℕ
max_u64 = 2 ^ 64 - 1

-- The digits of `n`, most significant first. A number has fewer digits than its value plus one,
-- and the recursion stops at the first digit.
unfoldable pub digits : ℕ → ℕ → List ℕ
digits zero n = []
digits (suc fuel) n =
    let more = digits fuel (n / 10) ++ ((b'0' + n % 10) ∷ []) in
    if ltb n 10 then (b'0' + n) ∷ [] else more

unfoldable pub to_string : ℕ → List ℕ
unfolding digits
to_string n = digits (suc n) n

-- One digit at a time; a letter, a sign or a value above `max` is an error.
read_digits : ℕ → List ℕ → ℕ → Option ℕ
read_digits max [] n = some n
read_digits max (c ∷ s) n =
    let later = read_digits max s (n * 10 + (c - b'0')) in
    if leb b'0' c && leb c b'9' && leb (n * 10 + (c - b'0')) max then later else none

-- One `+` in front is accepted; an empty text and a lone sign are errors.
unfoldable pub parse : ℕ → List ℕ → Option ℕ
unfolding read_digits
parse max [] = none
parse max (c ∷ []) = read_digits max (c ∷ []) 0
parse max (c ∷ d ∷ s) =
    if c == b'+' then read_digits max (d ∷ s) 0 else read_digits max (c ∷ d ∷ s) 0

abbrev pub IsDigit : ℕ → Type 0
IsDigit c = (b'0' ≤ c) × (c ≤ b'9')

digits-IsDigit : (fuel n : ℕ) → All IsDigit (digits fuel n)
unfolding digits
digits-IsDigit zero n = tt
digits-IsDigit (suc fuel) n = elim (Bool-cases (ltb n 10)) [
  | inl one ↦ rw one (ground arith)
  | inr more ↦
      rw more (All-append _ (digits fuel (n / 10)) _ (digits-IsDigit fuel (n / 10)) (ground arith))
]

-- A printed number holds digits only.
pub to_string-IsDigit : (n : ℕ) → All IsDigit (to_string n)
unfolding to_string
to_string-IsDigit n = digits-IsDigit (suc n) n

read_digits-digits :
    (max fuel n : ℕ) (s : List ℕ)
    → n < fuel
    → n ≤ max
    → read_digits max (digits fuel n ++ s) 0 ≡ read_digits max s n
unfolding digits read_digits
read_digits-digits max zero n s h fits = absurd (omega arith)
read_digits-digits max (suc fuel) n s h fits = elim (Bool-cases (ltb n 10)) [
  | inl one ↦ rw one (ground arith)
  | inr more ↦
      rw (more, append_assoc)
        (read_digits-digits max fuel (n / 10) ((b'0' + n % 10) ∷ s) (ground arith) (omega arith)
          ∙ ground arith)
]

digits-ne-nil : (fuel n : ℕ) → digits (suc fuel) n ≢ []
unfolding digits
digits-ne-nil fuel n = ground (arith, concat-ne-nil (b'0' + n % 10) (digits fuel (n / 10)))

parse-read_digits :
    (max : ℕ) (s : List ℕ) → All IsDigit s → s ≢ [] → parse max s ≡ read_digits max s 0
unfolding parse read_digits
parse-read_digits max [] h n = absurd (n refl)
parse-read_digits max (c ∷ []) h n = refl
parse-read_digits max (c ∷ d ∷ s) h n = ground arith

pub to_string-ne-nil : (n : ℕ) → to_string n ≢ []
unfolding to_string
to_string-ne-nil n = digits-ne-nil n n

read_digits-to_string : (max n : ℕ) → n ≤ max → read_digits max (to_string n) 0 ≡ some n
unfolding to_string read_digits
read_digits-to_string max n h =
    rw (← append-nil (digits (suc n) n)) (read_digits-digits max (suc n) n [] (omega arith) h)

-- A printed number is read back, by every reader whose bound it meets.
pub parse-to_string : (max n : ℕ) → n ≤ max → parse max (to_string n) ≡ some n
parse-to_string max n h =
    parse-read_digits max (to_string n) (to_string-IsDigit n) (to_string-ne-nil n)
    ∙ read_digits-to_string max n h
