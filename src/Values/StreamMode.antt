-- ===== src/Values/StreamMode.antt =====
-- openvpn-mgmt-codec/src/stream_mode.rs: the type, its `Display` and its `FromStr`.
use openvpn_mgmt_codec.Prelude.{
  ℕ, ◌+◌, ◌≤◌, ◌≡◌, refl, Bool, true, false, [], ◌∷◌, Option, none, some, arith, if◌then◌else◌, All,
}
use openvpn_mgmt_codec.Prelude.Results.{Result, ok, err}
use openvpn_mgmt_codec.Text.{Str, codes, str_eq}
use openvpn_mgmt_codec.Text.Decimal
use openvpn_mgmt_codec.Text.Decimal.{max_u32, IsDigit, to_string-IsDigit, parse-to_string}

pub data StreamMode : Type 0 where
  on off all on_all : StreamMode
  recent : ℕ → StreamMode

unfoldable pub returns_history : StreamMode → Bool
returns_history all = true
returns_history on_all = true
returns_history (recent n) = true
returns_history _ = false

unfoldable pub stream_mode_text : StreamMode → Str
stream_mode_text on = codes "on"
stream_mode_text off = codes "off"
stream_mode_text all = codes "all"
stream_mode_text on_all = codes "on all"
stream_mode_text (recent n) = Decimal.to_string n

abbrev or_refused : Str → Option ℕ → Result Str StreamMode
or_refused input none = err input
or_refused input (some n) = ok (recent n)

unfoldable pub parse_stream_mode : Str → Result Str StreamMode
parse_stream_mode input =
    if str_eq input (codes "on")
    then ok on
    else if str_eq input (codes "off")
    then ok off
    else if str_eq input (codes "all")
    then ok all
    else if str_eq input (codes "on all")
    then ok on_all
    else or_refused input (Decimal.parse max_u32 input)

abbrev pub IsU32 : StreamMode → Type 0
IsU32 (recent n) = n ≤ max_u32
IsU32 _ = Unit

-- A text of digits is none of the words, each of which starts with a letter.
digits-ne-word :
    (s : Str) (c : ℕ) (w : Str) → All IsDigit s → b'9' + 1 ≤ c → str_eq s (c ∷ w) ≡ false
unfolding str_eq
digits-ne-word [] c w h k = refl
digits-ne-word (d ∷ s) c w h k = ground arith

parse_stream_mode_count :
    (n : ℕ) → n ≤ max_u32 → parse_stream_mode (Decimal.to_string n) ≡ ok (recent n)
unfolding parse_stream_mode
parse_stream_mode_count n h =
    let s = Decimal.to_string n in
    let ds = to_string-IsDigit n in
    rw (
      digits-ne-word s b'o' (codes "n") ds (omega arith),
      digits-ne-word s b'o' (codes "ff") ds (omega arith),
      digits-ne-word s b'a' (codes "ll") ds (omega arith),
      digits-ne-word s b'o' (codes "n all") ds (omega arith),
      parse-to_string max_u32 n h,
    )

-- A stream mode, whose number if it has one fits 32 bits, is read back from the text that it is
-- printed as.
pub parse_stream_mode-stream_mode_text :
    (m : StreamMode) → IsU32 m → parse_stream_mode (stream_mode_text m) ≡ ok m
unfolding stream_mode_text
parse_stream_mode-stream_mode_text on h = unfold parse_stream_mode str_eq in refl
parse_stream_mode-stream_mode_text off h = unfold parse_stream_mode str_eq in refl
parse_stream_mode-stream_mode_text all h = unfold parse_stream_mode str_eq in refl
parse_stream_mode-stream_mode_text on_all h = unfold parse_stream_mode str_eq in refl
parse_stream_mode-stream_mode_text (recent n) h = parse_stream_mode_count n h
