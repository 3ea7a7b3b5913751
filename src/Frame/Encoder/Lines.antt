-- ===== src/Frame/Encoder/Lines.antt =====
-- The gate of encoder.rs: `wire_safe`, and what its output is.
use Prim.Native.String.{String}
use openvpn_mgmt_codec.Prelude.{
  ◌≡◌, refl, ap, true, false, [], ◌∷◌, arith, All, Lacks, inl, inr, Bool-cases,
}
use openvpn_mgmt_codec.Prelude.Results.{ok, err}
use openvpn_mgmt_codec.Text.{Str, any}
use openvpn_mgmt_codec.Frame.Types.{EncoderMode, sanitize, strict, unsafe_characters}
use openvpn_mgmt_codec.Frame.Encoder.{wire_unsafe, without_unsafe, wire_safe}

-- No `\n`, no `\r`, no `\0`.
abbrev pub IsClean : Str → Type 0
IsClean = All (λ c. wire_unsafe c ≡ false)

pub IsClean-Lacks_newline : (s : Str) → IsClean s → Lacks b'\n' s
unfolding wire_unsafe
IsClean-Lacks_newline [] h = tt
IsClean-Lacks_newline (c ∷ s) h = (ground arith, IsClean-Lacks_newline s h.1)

pub without_unsafe-IsClean : (s : Str) → IsClean (without_unsafe s)
unfolding without_unsafe
without_unsafe-IsClean [] = tt
without_unsafe-IsClean (c ∷ s) = elim (Bool-cases (wire_unsafe c)) [
  | inl bad ↦ rw bad (without_unsafe-IsClean s)
  | inr good ↦ rw good (good, without_unsafe-IsClean s)
]

pub any-IsClean : (s : Str) → any wire_unsafe s ≡ false → IsClean s
unfolding any
any-IsClean [] h = tt
any-IsClean (c ∷ s) h = (ground arith, any-IsClean s (ground arith))

pub IsClean-any : (s : Str) → IsClean s → any wire_unsafe s ≡ false
unfolding any
IsClean-any [] h = refl
IsClean-any (c ∷ s) h = rw (h.0) (IsClean-any s h.1)

pub without_unsafe_of_clean : (s : Str) → IsClean s → without_unsafe s ≡ s
unfolding without_unsafe
without_unsafe_of_clean [] h = refl
without_unsafe_of_clean (c ∷ s) h = rw (h.0) (ap (◌∷◌ c) (without_unsafe_of_clean s h.1))

pub wire_safe-sanitize :
    (s : Str) (field : String) → wire_safe s field sanitize ≡ ok (without_unsafe s)
unfolding wire_safe
wire_safe-sanitize s field = elim (Bool-cases (any wire_unsafe s)) [
  | inl bad ↦ rw bad
  | inr good ↦ rw (good, without_unsafe_of_clean s (any-IsClean s good))
]

pub wire_safe_of_clean :
    (s : Str) (field : String) (mode : EncoderMode) → IsClean s → wire_safe s field mode ≡ ok s
unfolding wire_safe
wire_safe_of_clean s field sanitize h = rw (IsClean-any s h)
wire_safe_of_clean s field strict h = rw (IsClean-any s h)

pub wire_safe_strict_unsafe :
    (s : Str) (field : String)
    → any wire_unsafe s ≡ true
    → wire_safe s field strict ≡ err (unsafe_characters field)
unfolding wire_safe
wire_safe_strict_unsafe s field h = rw h

-- Whatever `wire_safe` lets through is free of `\n`, `\r` and `\0`, in both modes.
pub wire_safe-IsClean :
    (s : Str) (field : String) (mode : EncoderMode) {t : Str}
    → wire_safe s field mode ≡ ok t
    → IsClean t
wire_safe-IsClean s field sanitize {t} h =
    let e : without_unsafe s ≡ t = cc (wire_safe-sanitize s field) in
    rw (← e) (without_unsafe-IsClean s)
wire_safe-IsClean s field strict {t} h = elim (Bool-cases (any wire_unsafe s)) [
  | inl bad ↦ cc (wire_safe_strict_unsafe s field bad)
  | inr good ↦
      let e : s ≡ t = cc (wire_safe_of_clean s field strict (any-IsClean s good)) in
      rw (← e) (any-IsClean s good)
]
