-- ===== src/Timestamp/Dates.antt =====
-- The dates of openvpn-mgmt-codec/src/timestamp.rs against the calendar.
use mathlib.Core.Path.{subst}
use openvpn_mgmt_codec.Prelude.{
  ℕ, zero, suc, ◌+◌, ◌*◌, ◌/◌, ◌≤◌, ◌<◌, ◌≡◌, refl, sym, ap, ◌∙◌, arith, ltb, Bool-cases, inl, inr,
}
use openvpn_mgmt_codec.Timestamp.{ymd, days_to_ymd, decompose}
use openvpn_mgmt_codec.Timestamp.Calendar.{days_in_month, tomorrow, date_after}
use openvpn_mgmt_codec.Timestamp.Eras.{start, year_days, days_to_ymd-ymd}
use openvpn_mgmt_codec.Timestamp.Months.{tomorrow_same, tomorrow_next}

-- Every day has an era, a year of it and a day of that year.
IsDate : ℕ → ℕ × ℕ × ℕ → Type 0
IsDate n date =
    (era y doy : ℕ) × (y < 400)
    × (doy < year_days y)
    × (n + 719468 ≡ 146097 * era + (start y + doy))
    × (ymd era y doy ≡ date)

start-suc : (y : ℕ) → y < 399 → start (suc y) ≡ start y + year_days y
start-suc y h = ground arith

ymd-era : (era : ℕ) → ymd (suc era) 0 0 ≡ ymd era 400 0
unfolding ymd
ymd-era era = ground arith

IsDate-suc : (n : ℕ) (date : ℕ × ℕ × ℕ) → IsDate n date → IsDate (suc n) (tomorrow date)
unfolding IsDate
IsDate-suc n date (era, y, doy, hy, hd, e, same) = elim (Bool-cases (ltb (suc doy) (year_days y))) [
  | inl t ↦ (
    era,
    y,
    suc doy,
    hy,
    ground arith,
    omega arith,
    sym (tomorrow_same era y doy hy (ground arith)) ∙ ap tomorrow same,
  )
  | inr f ↦
      let full : suc doy ≡ year_days y = ground arith in
      let next = sym (tomorrow_next era y doy hy full) ∙ ap tomorrow same in
      elim (Bool-cases (ltb y 399)) [
        | inl t ↦ (
          era,
          suc y,
          0,
          ground arith,
          ground arith,
          omega (arith, start-suc y (ground arith)),
          next,
        )
        | inr f ↦ (
          suc era,
          0,
          0,
          omega arith,
          ground arith,
          ground arith,
          ymd-era era ∙ ap (λ z. ymd era z 0) (ground arith) ∙ next,
        )
      ]
]

date_after-IsDate : (n : ℕ) → IsDate n (date_after n)
unfolding date_after IsDate ymd
date_after-IsDate zero = (4, 369, 306, omega arith, ground arith, refl, refl)
date_after-IsDate (suc n) = IsDate-suc n (date_after n) (date_after-IsDate n)

pub days_to_ymd-date_after : (n : ℕ) → days_to_ymd n ≡ date_after n
unfolding IsDate
days_to_ymd-date_after n =
    let (era, y, doy, hy, hd, e, same) = date_after-IsDate n in
    days_to_ymd-ymd n era y doy hy hd e ∙ same

-- For every day from January 1, 1970 on, and every time of day, `decompose` of the seconds
-- since then gives this time and the date that walking the Gregorian calendar, one day after
-- the other, reaches on that day.
pub decompose-date_after :
    (day hours mins secs : ℕ)
    → hours < 24
    → mins < 60
    → secs < 60
    → let date = date_after day in
      decompose (86400 * day + 3600 * hours + 60 * mins + secs)
      ≡ (date.0, date.1, date.2, hours, mins, secs)
unfolding decompose
decompose-date_after day hours mins secs h m s =
    rw (sym (days_to_ymd-date_after day)) (ground arith)

-- One day of the calendar.
abbrev pub IsValid : ℕ × ℕ × ℕ → Type 0
IsValid (y, m, d) = (1970 ≤ y) × (1 ≤ m) × (m ≤ 12) × (1 ≤ d) × (d ≤ days_in_month y m)

tomorrow-IsValid : (date : ℕ × ℕ × ℕ) → IsValid date → IsValid (tomorrow date)
unfolding tomorrow days_in_month
tomorrow-IsValid (y, m, d) h = ground arith

date_after-IsValid : (n : ℕ) → IsValid (date_after n)
unfolding date_after days_in_month
date_after-IsValid zero = ground arith
date_after-IsValid (suc n) = tomorrow-IsValid (date_after n) (date_after-IsValid n)

-- A day of the calendar and a time of day.
abbrev pub IsUtc : ℕ × ℕ × ℕ × ℕ × ℕ × ℕ → Type 0
IsUtc (y, m, d, hours, mins, secs) = IsValid (y, m, d) × (hours < 24) × (mins < 60) × (secs < 60)

-- Every timestamp is decomposed to a year from 1970 on, a month of the year, a day of that
-- month, leap years included, and an hour below 24, minutes and seconds below 60.
pub decompose-IsUtc : (ts : ℕ) → IsUtc (decompose ts)
unfolding decompose
decompose-IsUtc ts = (
  subst IsValid (sym (days_to_ymd-date_after (ts / 60 / 60 / 24)))
      (date_after-IsValid (ts / 60 / 60 / 24)),
  omega arith,
  omega arith,
  omega arith,
)
