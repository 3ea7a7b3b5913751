-- ===== src/Values/LogLevel.antt =====
-- openvpn-mgmt-codec/src/log_level.rs: the type, its `Display` and its `FromStr`; the error holds the refused text.
use openvpn_mgmt_codec.Prelude.{◌≡◌, refl, if◌then◌else◌}
use openvpn_mgmt_codec.Prelude.Results.{Result, ok, err}
use openvpn_mgmt_codec.Text.{Str, codes, str_eq}

pub data LogLevel : Type 0 where
  info debug warning non_fatal fatal : LogLevel
  unknown : Str → LogLevel

unfoldable pub log_level_text : LogLevel → Str
log_level_text info = codes "I"
log_level_text debug = codes "D"
log_level_text warning = codes "W"
log_level_text non_fatal = codes "N"
log_level_text fatal = codes "F"
log_level_text (unknown text) = text

unfoldable pub parse_log_level : Str → Result Str LogLevel
parse_log_level input =
    if str_eq input (codes "I")
    then ok info
    else if str_eq input (codes "D")
    then ok debug
    else if str_eq input (codes "W")
    then ok warning
    else if str_eq input (codes "N")
    then ok non_fatal
    else if str_eq input (codes "F")
    then ok fatal
    else err input

-- Every known value of `LogLevel` is read back from the text that it is printed as.
abbrev pub IsKnown : LogLevel → Type 0
IsKnown (unknown text) = ⊥
IsKnown _ = Unit

pub parse_log_level-log_level_text :
    (v : LogLevel) → IsKnown v → parse_log_level (log_level_text v) ≡ ok v
unfolding parse_log_level log_level_text str_eq
parse_log_level-log_level_text info h = refl
parse_log_level-log_level_text debug h = refl
parse_log_level-log_level_text warning h = refl
parse_log_level-log_level_text non_fatal h = refl
parse_log_level-log_level_text fatal h = refl
parse_log_level-log_level_text (unknown text) h = absurd h
