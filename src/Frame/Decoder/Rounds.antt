-- ===== src/Frame/Decoder/Rounds.antt =====
-- One round of the loop of `FrameDecoder::decode`: how the buffer is cut at its first newline.
use native.Mathlib.Numerals.{add-one}
use openvpn_mgmt_codec.Prelude.{
  ℕ, suc, ◌+◌, ◌≡◌, ◌≢◌, refl, ap, [], ◌∷◌, ◌++◌, none, some, arith, ◌==◌, length, take, drop,
  Lacks, Bool-cases, inl, inr,
}
use openvpn_mgmt_codec.Text.{Bytes}
use openvpn_mgmt_codec.Frame.Decoder.{
  FrameDecoder, position, decode_partial, line_text, round, decode_loop,
}

-- The first newline of a buffer: there is none, or it stands between `before` and `behind`.
pub data Cut (src : Bytes) : Type 0 where
  no_line : position b'\n' src ≡ none → Lacks b'\n' src → Cut src
  line_at :
      (before behind : Bytes) → src ≡ before ++ (b'\n' ∷ behind) → Lacks b'\n' before → Cut src

Cut-cons : (b : ℕ) {s : Bytes} → b ≢ b'\n' → Cut s → Cut (b ∷ s)
unfolding position
Cut-cons b h (no_line e l) = no_line (ground arith) (h, l)
Cut-cons b h (line_at before behind e l) = line_at (b ∷ before) behind (ap (◌∷◌ b) e) (h, l)

pub Cut-of : (src : Bytes) → Cut src
unfolding position
Cut-of [] = no_line refl tt
Cut-of (b ∷ s) = elim (Bool-cases (b == b'\n')) [
  | inl e ↦ line_at [] s (ground arith) tt
  | inr n ↦ Cut-cons b (ground arith) (Cut-of s)
]

position-append :
    (before behind : Bytes)
    → Lacks b'\n' before
    → position b'\n' (before ++ (b'\n' ∷ behind)) ≡ some (length before)
unfolding position
position-append [] behind l = refl
position-append (b ∷ s) behind l = ground (arith, position-append s behind l.1)

take_line :
    (before behind : Bytes)
    → take (length before + 1) (before ++ (b'\n' ∷ behind)) ≡ before ++ (b'\n' ∷ [])
take_line before behind = rw add-one (go before)
  where
    go : (a : Bytes) → take (suc (length a)) (a ++ (b'\n' ∷ behind)) ≡ a ++ (b'\n' ∷ [])
    go [] = refl
    go (b ∷ a) = ap (◌∷◌ b) (go a)

drop_line : (before behind : Bytes) → drop (length before + 1) (before ++ (b'\n' ∷ behind)) ≡ behind
drop_line before behind = rw add-one (go before)
  where
    go : (a : Bytes) → drop (suc (length a)) (a ++ (b'\n' ∷ behind)) ≡ behind
    go [] = refl
    go (b ∷ a) = go a

pub decode_loop-line :
    (fuel : ℕ) (d : FrameDecoder) (before behind : Bytes)
    → Lacks b'\n' before
    → decode_loop (suc fuel) d (before ++ (b'\n' ∷ behind))
      ≡ round (λ d'. decode_loop fuel d' behind) d (line_text (before ++ (b'\n' ∷ []))) behind
unfolding decode_loop
decode_loop-line fuel d before behind l =
    rw (position-append before behind l, decode_loop)
      (rw (take_line before behind, drop_line before behind))

pub decode_loop_partial :
    (fuel : ℕ) (d : FrameDecoder) (src : Bytes)
    → position b'\n' src ≡ none
    → decode_loop (suc fuel) d src ≡ decode_partial d src
unfolding decode_loop
decode_loop_partial fuel d src e = rw (e, decode_loop)
