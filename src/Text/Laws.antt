-- ===== src/Text/Laws.antt =====
-- What the operations of `Text` return, as equations between texts.
use openvpn_mgmt_codec.Prelude.{
  ℕ, ◌≡◌, ◌≢◌, ◌↔◌, refl, Bool, true, false, [], ◌∷◌, ◌++◌, none, some, arith, ==_refl, All, Lacks,
  Option, ap, ◌==◌, ==_iff, Bool-cases, inl, inr,
}
use openvpn_mgmt_codec.Prelude.Options.{map}
use openvpn_mgmt_codec.Text.{Str, str_eq, strip_prefix, split_once_by, split_once, trim_end_by}

pub str_eq_iff : (a b : Str) → (str_eq a b ≡ true) ↔ (a ≡ b)
unfolding str_eq
str_eq_iff (x ∷ a) (y ∷ b) = ground (arith, str_eq_iff a b)
str_eq_iff [] _ = ground arith
str_eq_iff (x ∷ a) [] = ground arith

pub str_eq_refl : (a : Str) → str_eq a a ≡ true
str_eq_refl a = (str_eq_iff a a).1 refl

pub strip_prefix-append : (p s : Str) → strip_prefix p (p ++ s) ≡ some s
unfolding strip_prefix
strip_prefix-append [] s = refl
strip_prefix-append (x ∷ p) s = rw (==_refl x) (strip_prefix-append p s)

-- What a successful `strip_prefix` says of the text.
pub strip_prefix_sound : (p s : Str) {r : Str} → strip_prefix p s ≡ some r → s ≡ p ++ r
unfolding strip_prefix
strip_prefix_sound [] s h = cc
strip_prefix_sound (x ∷ p) [] h = cc
strip_prefix_sound (x ∷ p) (c ∷ s) {r} h = ground (arith, strip_prefix_sound p s {r = r})

-- A text without the delimiter, then the delimiter: the cut is there.
pub split_once-append : (d : ℕ) (a b : Str) → Lacks d a → split_once d (a ++ (d ∷ b)) ≡ some (a, b)
unfolding split_once_by
split_once-append d [] b h = ground arith
split_once-append d (c ∷ a) b h = ground (arith, split_once-append d a b h.1)

pub split_once-Lacks : (d : ℕ) (s : Str) → Lacks d s → split_once d s ≡ none
unfolding split_once_by
split_once-Lacks d [] h = refl
split_once-Lacks d (c ∷ s) h = ground (arith, split_once-Lacks d s h.1)

-- No element is one that `p` accepts.
abbrev pub Free : (ℕ → Bool) → Str → Type 0
Free p = All (λ c. p c ≡ false)

pub trim_end_by-Free : (p : ℕ → Bool) (s : Str) → Free p s → trim_end_by p s ≡ s
unfolding trim_end_by
trim_end_by-Free p [] h = refl
trim_end_by-Free p (c ∷ []) h = rw (h.0)
trim_end_by-Free p (c ∷ d ∷ s) h = rw (trim_end_by-Free p (d ∷ s) h.1)

-- Characters that the test accepts, at the end, are dropped.
pub trim_end_by-append :
    (p : ℕ → Bool) (s : Str) (c : ℕ) → p c ≡ true → trim_end_by p (s ++ (c ∷ [])) ≡ trim_end_by p s
unfolding trim_end_by
trim_end_by-append p [] c h = rw h
trim_end_by-append p (d ∷ s) c h = rw (trim_end_by-append p s c h)

pub str_eq-false : (a b : Str) → str_eq a b ≡ false → a ≢ b
str_eq-false a b h e = cc ((str_eq_iff a b).1 e)

-- What the cut at the first delimiter says of the text, whether there is one or not.
pub data Cut (d : ℕ) (s : Str) : Option (Str × Str) → Type 0 where
  uncut : Lacks d s → Cut d s none
  cut_at : (a b : Str) → Lacks d a → s ≡ a ++ (d ∷ b) → Cut d s (some (a, b))

Cut-cons :
    (d c : ℕ) (s : Str) (o : Option (Str × Str))
    → c ≢ d
    → Cut d s o
    → Cut d (c ∷ s) (map (λ (p : Str × Str). (c ∷ p.0, p.1)) o)
Cut-cons d c s _ n (uncut h) = uncut (n, h)
Cut-cons d c s _ n (cut_at a b h e) = cut_at (c ∷ a) b (n, h) (ap (◌∷◌ c) e)

pub split_once-Cut : (d : ℕ) (s : Str) → Cut d s (split_once d s)
unfolding split_once_by
split_once-Cut d [] = uncut tt
split_once-Cut d (c ∷ s) = elim (Bool-cases (c == d)) [
  | inl t ↦ rw t (cut_at [] s tt (ap (λ x. x ∷ s) ((==_iff c d).0 t)))
  | inr n ↦ rw n (Cut-cons d c s (split_once d s) (ground arith) (split_once-Cut d s))
]
