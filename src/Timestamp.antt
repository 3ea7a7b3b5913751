-- ===== src/Timestamp.antt =====
-- openvpn-mgmt-codec/src/timestamp.rs: a Unix timestamp as a date and a time of day.
pub mod Calendar
mod Eras
mod Months
pub mod Dates
use openvpn_mgmt_codec.Prelude.{
  ℕ, zero, suc, ◌+◌, ◌-◌, ◌*◌, ◌/◌, ◌%◌, ◌++◌, [], ◌∷◌, leb, ltb, ◌==◌, if◌then◌else◌, length,
}
use openvpn_mgmt_codec.Text.{Str, codes}
use openvpn_mgmt_codec.Text.Decimal.{to_string}

-- From a day of a 400 year era, which starts on March 1: the year of the era and its day.
unfoldable pub year_of_era : ℕ → ℕ
year_of_era doe = (doe - doe / 1460 + doe / 36524 - doe / 146096) / 365

-- Year, month and day, from the era, the year of it and the day of that year.
unfoldable pub ymd : ℕ → ℕ → ℕ → ℕ × ℕ × ℕ
ymd era yoe doy =
    let year = yoe + era * 400 in
    let month_offset = (5 * doy + 2) / 153 in
    let day = doy - (153 * month_offset + 2) / 5 + 1 in
    let month = if ltb month_offset 10 then month_offset + 3 else month_offset - 9 in
    (if leb month 2 then year + 1 else year, month, day)

unfoldable pub days_to_ymd : ℕ → ℕ × ℕ × ℕ
unfolding year_of_era ymd
days_to_ymd epoch_days =
    let days = epoch_days + 719468 in
    let era = days / 146097 in
    let doe = days - era * 146097 in
    let yoe = year_of_era doe in
    let doy = doe - (365 * yoe + yoe / 4 - yoe / 100) in ymd era yoe doy

-- Year, month, day, hour, minute, second.
unfoldable pub decompose : ℕ → ℕ × ℕ × ℕ × ℕ × ℕ × ℕ
unfolding days_to_ymd
decompose ts =
    let secs = ts % 60 in
    let mins_total = ts / 60 in
    let mins = mins_total % 60 in
    let hours_total = mins_total / 60 in
    let hours = hours_total % 24 in
    let days_total = hours_total / 24 in
    let date = days_to_ymd days_total in (date.0, date.1, date.2, hours, mins, secs)

-- `{n:0w}`: at least `w` characters, filled up with zeros in front.
abbrev zeros : ℕ → Str
zeros zero = []
zeros (suc n) = b'0' ∷ zeros n

unfoldable pub padded : ℕ → ℕ → Str
padded width n = zeros (width - length (to_string n)) ++ to_string n

-- The fields with the text between date and time and the text at the end.
date_time : Str → Str → ℕ × ℕ × ℕ × ℕ × ℕ × ℕ → Str
unfolding padded
date_time middle last (year, month, day, hours, mins, secs) =
    padded 4 year
    ++ (b'-' ∷ padded 2 month)
    ++ (b'-' ∷ padded 2 day)
    ++ middle
    ++ padded 2 hours
    ++ (b':' ∷ padded 2 mins)
    ++ (b':' ∷ padded 2 secs)
    ++ last

unfoldable pub format_utc : ℕ → Str
unfolding decompose date_time
format_utc ts = if ts == 0 then [] else date_time (codes "T") (codes "Z") (decompose ts)

unfoldable pub format_timestamp : ℕ → Str
unfolding decompose date_time
format_timestamp ts = if ts == 0 then [] else date_time (codes " ") [] (decompose ts)
