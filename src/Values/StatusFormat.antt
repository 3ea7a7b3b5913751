-- ===== src/Values/StatusFormat.antt =====
-- openvpn-mgmt-codec/src/status_format.rs: the type, its `Display` and its `FromStr`; the error holds the refused text.
use openvpn_mgmt_codec.Prelude.{◌≡◌, refl, if◌then◌else◌}
use openvpn_mgmt_codec.Prelude.Results.{Result, ok, err}
use openvpn_mgmt_codec.Text.{Str, codes, str_eq}

pub data StatusFormat : Type 0 where
  v1 v2 v3 : StatusFormat

unfoldable pub status_format_text : StatusFormat → Str
status_format_text v1 = codes "1"
status_format_text v2 = codes "2"
status_format_text v3 = codes "3"

unfoldable pub parse_status_format : Str → Result Str StatusFormat
parse_status_format input =
    if str_eq input (codes "1")
    then ok v1
    else if str_eq input (codes "2")
    then ok v2
    else if str_eq input (codes "3")
    then ok v3
    else err input

-- Every known value of `StatusFormat` is read back from the text that it is printed as.
pub parse_status_format-status_format_text :
    (v : StatusFormat) → parse_status_format (status_format_text v) ≡ ok v
unfolding parse_status_format status_format_text str_eq
parse_status_format-status_format_text v1 = refl
parse_status_format-status_format_text v2 = refl
parse_status_format-status_format_text v3 = refl
