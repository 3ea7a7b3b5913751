-- ===== src/Text/Utf8.antt =====
-- UTF-8: `str::as_bytes` and `std::str::from_utf8`, the strict decoder that refuses overlong
-- forms, surrogates and code points above 0x10ffff.
use openvpn_mgmt_codec.Prelude.{
  ℕ, zero, suc, ◌+◌, ◌-◌, ◌*◌, ◌/◌, ◌%◌, ◌<◌, ◌≤◌, ◌≡◌, ◌≢◌, ◌⊎◌, refl, ap, ◌∙◌, Bool-cases, true,
  false, ◌&&◌, inl, inr, List, [], ◌∷◌, ◌++◌, append_assoc, Option, none, some, arith, ltb, leb,
  ◌==◌, if◌then◌else◌, All, All-append, Lacks,
}
use openvpn_mgmt_codec.Prelude.Options.{map}

encode_char : ℕ → List ℕ
encode_char c =
    if ltb c 0x80
    then c ∷ []
    else if ltb c 0x800
    then (0xc0 + c / 64) ∷ (0x80 + c % 64) ∷ []
    else if ltb c 0x10000
    then (0xe0 + c / 4096) ∷ (0x80 + c / 64 % 64) ∷ (0x80 + c % 64) ∷ []
    else (0xf0 + c / 262144) ∷ (0x80 + c / 4096 % 64) ∷ (0x80 + c / 64 % 64) ∷ (0x80 + c % 64) ∷ []

unfoldable pub as_bytes : List ℕ → List ℕ
unfolding encode_char
as_bytes [] = []
as_bytes (c ∷ s) = encode_char c ++ as_bytes s

-- The bytes still wanted for the current character, its bits so far, and the range of the next.
record Pending : Type 0 where
  need : ℕ
  bits : ℕ
  low : ℕ
  high : ℕ

abbrev await : ℕ → ℕ → Option Pending
await n b = some (record { need = n; bits = b; low = 0x80; high = 0xbf })

-- What a lead byte from 0x80 up announces.
lead : ℕ → Option Pending
lead b =
    if ltb b 0xc2
    then none
    else if ltb b 0xe0
    then await 0 (b - 0xc0)
    else if b == 0xe0
    then some (record { need = 1; bits = 0; low = 0xa0; high = 0xbf })
    else if b == 0xed
    then some (record { need = 1; bits = 0xd; low = 0x80; high = 0x9f })
    else if ltb b 0xf0
    then await 1 (b - 0xe0)
    else if b == 0xf0
    then some (record { need = 2; bits = 0; low = 0x90; high = 0xbf })
    else if b == 0xf4
    then some (record { need = 2; bits = 4; low = 0x80; high = 0x8f })
    else if ltb b 0xf4
    then await 2 (b - 0xf0)
    else none

-- The character that is complete with the byte `b`, or the bytes that are still wanted.
feed : Pending → ℕ → Option (ℕ ⊎ Pending)
feed p b =
    if leb p.low b && leb b p.high
    then elim p.need [
      | zero ↦ some (inl (p.bits * 64 + (b - 0x80)))
      | suc n ↦
          some (inr (record { need = n; bits = p.bits * 64 + (b - 0x80); low = 0x80; high = 0xbf }))
    ]
    else none

-- The state is `none` between characters.
scan : Option Pending → List ℕ → Option (List ℕ)
unfolding lead feed
scan none [] = some []
scan (some p) [] = none
scan none (b ∷ s) = elim (ltb b 0x80) [
  | true ↦ map (◌∷◌ b) (scan none s)
  | false ↦ elim (lead b) [ none ↦ none | some p ↦ scan (some p) s ]
]
scan (some p) (b ∷ s) = elim (feed p b) [
  | none ↦ none
  | some (inl c) ↦ map (◌∷◌ c) (scan none s)
  | some (inr q) ↦ scan (some q) s
]

unfoldable pub from_utf8 : List ℕ → Option (List ℕ)
unfolding scan
from_utf8 s = scan none s

-- A Unicode scalar value, which is what a Rust `char` holds.
abbrev pub IsScalar : ℕ → Type 0
IsScalar c = (c < 0xd800) ⊎ ((0xdfff < c) × (c < 0x110000))

scan_one : (b : ℕ) (s : List ℕ) → b < 0x80 → scan none (b ∷ s) ≡ map (◌∷◌ b) (scan none s)
unfolding scan
scan_one b s h = ground arith

scan-lead :
    (b : ℕ) (p : Pending) (s : List ℕ)
    → 0x80 ≤ b
    → lead b ≡ some p
    → scan none (b ∷ s) ≡ scan (some p) s
unfolding scan
scan-lead b p s h e = ground arith

scan_more :
    (n x l h b : ℕ) (s : List ℕ)
    → l ≤ b
    → b ≤ h
    → scan (some (record { need = suc n; bits = x; low = l; high = h })) (b ∷ s)
      ≡ scan (await n (x * 64 + (b - 0x80))) s
unfolding scan feed
scan_more n x l h b s p q = ground arith

scan_last :
    (x l h b : ℕ) (s : List ℕ)
    → l ≤ b
    → b ≤ h
    → scan (some (record { need = 0; bits = x; low = l; high = h })) (b ∷ s)
      ≡ map (◌∷◌ (x * 64 + (b - 0x80))) (scan none s)
unfolding scan feed
scan_last x l h b s p q = ground arith

abbrev span : ℕ → ℕ → ℕ → ℕ → Option Pending
span n q l h = some (record { need = n; bits = q; low = l; high = h })

abbrev low_three : ℕ → ℕ
low_three q = if q == 0 then 0xa0 else 0x80

abbrev high_three : ℕ → ℕ
high_three q = if q == 0xd then 0x9f else 0xbf

abbrev low_four : ℕ → ℕ
low_four q = if q == 0 then 0x90 else 0x80

abbrev high_four : ℕ → ℕ
high_four q = if q == 4 then 0x8f else 0xbf

lead_two : (q : ℕ) → 2 ≤ q → q < 32 → lead (0xc0 + q) ≡ span 0 q 0x80 0xbf
unfolding lead
lead_two q l h = ground arith

lead_three : (q : ℕ) → q < 16 → lead (0xe0 + q) ≡ span 1 q (low_three q) (high_three q)
unfolding lead
lead_three q h = ground arith

lead_four : (q : ℕ) → q < 5 → lead (0xf0 + q) ≡ span 2 q (low_four q) (high_four q)
unfolding lead
lead_four q h = ground arith

range_three :
    (c : ℕ)
    → IsScalar c
    → 0x800 ≤ c
    → c < 0x10000
    → (low_three (c / 4096) ≤ 0x80 + c / 64 % 64) × (0x80 + c / 64 % 64 ≤ high_three (c / 4096))
range_three c u l h = ground arith

range_four :
    (c : ℕ)
    → 0x10000 ≤ c
    → c < 0x110000
    → (low_four (c / 262144) ≤ 0x80 + c / 4096 % 64)
      × (0x80 + c / 4096 % 64 ≤ high_four (c / 262144))
range_four c l h = ground arith

module _ (c : ℕ) (s : List ℕ) where
  abbrev Reads : List ℕ → Type 0
  Reads bytes = scan none (bytes ++ s) ≡ map (◌∷◌ c) (scan none s)

  Reads-two : 0x80 ≤ c → c < 0x800 → Reads ((0xc0 + c / 64) ∷ (0x80 + c % 64) ∷ [])
  Reads-two l h =
      scan-lead _ _ _ (omega arith) (lead_two (c / 64) (omega arith) (omega arith))
      ∙ scan_last _ _ _ _ s (omega arith) (omega arith)
      ∙ ap (λ x. map (◌∷◌ x) (scan none s)) (omega arith)

  Reads-three :
      IsScalar c
      → 0x800 ≤ c
      → c < 0x10000
      → Reads ((0xe0 + c / 4096) ∷ (0x80 + c / 64 % 64) ∷ (0x80 + c % 64) ∷ [])
  Reads-three u l h =
      let (p, q) = range_three c u l h in
      scan-lead _ _ _ (omega arith) (lead_three (c / 4096) (omega arith))
      ∙ scan_more 0 _ _ _ _ _ p q
      ∙ scan_last _ _ _ _ s (omega arith) (omega arith)
      ∙ ap (λ x. map (◌∷◌ x) (scan none s)) (omega arith)

  Reads-four :
      0x10000 ≤ c
      → c < 0x110000
      → Reads (
          (0xf0 + c / 262144)
          ∷ (0x80 + c / 4096 % 64)
          ∷ (0x80 + c / 64 % 64)
          ∷ (0x80 + c % 64)
          ∷ [])
  Reads-four l h =
      let (p, q) = range_four c l h in
      scan-lead _ _ _ (omega arith) (lead_four (c / 262144) (omega arith))
      ∙ scan_more 1 _ _ _ _ _ p q
      ∙ scan_more 0 _ _ _ _ _ (omega arith) (omega arith)
      ∙ scan_last _ _ _ _ s (omega arith) (omega arith)
      ∙ ap (λ x. map (◌∷◌ x) (scan none s)) (omega arith)

  scan-encode_char : IsScalar c → Reads (encode_char c)
  unfolding encode_char
  scan-encode_char u = elim (Bool-cases (ltb c 0x80)) [
    | inl one ↦ rw one (scan_one c s (ground arith))
    | inr more ↦ rw more (elim (Bool-cases (ltb c 0x800)) [
      | inl two ↦ rw two (Reads-two (ground arith) (ground arith))
      | inr many ↦ rw many (elim (Bool-cases (ltb c 0x10000)) [
        | inl three ↦ rw three (Reads-three u (ground arith) (ground arith))
        | inr four ↦ rw four (Reads-four (ground arith) (ground arith))
      ])
    ])
  ]

-- `from_utf8` reads back the bytes of every text of scalar values.
pub from_utf8-as_bytes : (s : List ℕ) → All IsScalar s → from_utf8 (as_bytes s) ≡ some s
unfolding from_utf8 as_bytes
from_utf8-as_bytes [] h = refl
from_utf8-as_bytes (c ∷ s) h =
    rw (scan-encode_char c (as_bytes s) h.0) (rw (from_utf8-as_bytes s h.1))

encode_char-Lacks : (d c : ℕ) → d < 0x80 → c ≢ d → Lacks d (encode_char c)
unfolding encode_char
encode_char-Lacks d c h n = ground arith

-- A byte below 0x80 stands in the encoding only for the character itself.
pub as_bytes-Lacks : (d : ℕ) (s : List ℕ) → d < 0x80 → Lacks d s → Lacks d (as_bytes s)
unfolding as_bytes
as_bytes-Lacks d [] h l = tt
as_bytes-Lacks d (c ∷ s) h l =
    All-append _ (encode_char c) (as_bytes s) (encode_char-Lacks d c h l.0)
      (as_bytes-Lacks d s h l.1)

pub as_bytes-append : (s t : List ℕ) → as_bytes (s ++ t) ≡ as_bytes s ++ as_bytes t
unfolding as_bytes
as_bytes-append [] t = refl
as_bytes-append (c ∷ s) t = simp (as_bytes-append s, append_assoc)

as_bytes_head :
    (c b : ℕ) (s r : List ℕ) → b < 0x80 → as_bytes (c ∷ s) ≡ b ∷ r → (c ≡ b) × (as_bytes s ≡ r)
unfolding as_bytes
as_bytes_head c b s r h e = ground arith

as_bytes_nonempty : (c : ℕ) (s : List ℕ) → as_bytes (c ∷ s) ≡ [] → ⊥
unfolding as_bytes
as_bytes_nonempty c s e = ground arith

-- Only an ASCII text has ASCII bytes, and it is its own encoding.
pub as_bytes_ascii : (s t : List ℕ) → All (λ b. b < 0x80) t → as_bytes s ≡ t → s ≡ t
as_bytes_ascii [] t h e = unfold as_bytes in e
as_bytes_ascii (c ∷ s) [] h e = elim (as_bytes_nonempty c s e) [ ]
as_bytes_ascii (c ∷ s) (b ∷ t) h e =
    let (e0, e1) = as_bytes_head c b s t h.0 e in let e2 = as_bytes_ascii s t h.1 e1 in cc

pub ascii-as_bytes : (s : List ℕ) → All (λ b. b < 0x80) s → as_bytes s ≡ s
unfolding as_bytes
ascii-as_bytes [] h = refl
ascii-as_bytes (c ∷ s) h = ground (arith, ascii-as_bytes s h.1)
