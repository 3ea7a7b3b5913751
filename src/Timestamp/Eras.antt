-- ===== src/Timestamp/Eras.antt =====
-- The years of an era of 400 years that start in March, as `days_to_ymd` of
-- openvpn-mgmt-codec/src/timestamp.rs counts them.
use openvpn_mgmt_codec.Prelude.{
  ℕ, suc, ◌+◌, ◌-◌, ◌*◌, ◌/◌, ◌%◌, ◌<◌, ◌≡◌, refl, sym, ap, ◌∙◌, arith, ◌==◌, if◌then◌else◌, ◌&&◌,
  ◌||◌, not,
}
use openvpn_mgmt_codec.Timestamp.{year_of_era, ymd, days_to_ymd}

-- The first day of a year of an era, whose years begin on March 1.
abbrev pub start : ℕ → ℕ
start y = 365 * y + y / 4 - y / 100

-- The days of a year of an era.
abbrev pub year_days : ℕ → ℕ
year_days y = if (suc y) % 4 == 0 && (not (suc y % 100 == 0) || suc y % 400 == 0) then 366 else 365

-- A day by its century, its four years there and its year of those.
year_of_era-quad :
    (c q r doy doe : ℕ)
    → c < 4
    → q < 25
    → r < 4
    → doy < (if r == 3 then if q == 24 then if c == 3 then 366 else 365 else 366 else 365)
    → doe ≡ 36524 * c + (1461 * q + (365 * r + doy))
    → year_of_era doe ≡ 100 * c + (4 * q + r)
unfolding year_of_era
year_of_era-quad c q r doy doe hc hq hr hd e = ground arith

start-quad :
    (c q r y : ℕ)
    → c < 4
    → q < 25
    → r < 4
    → y ≡ 100 * c + (4 * q + r)
    → start y ≡ 36524 * c + (1461 * q + 365 * r)
start-quad c q r y hc hq hr e = omega arith

year_of_era-start : (y doy : ℕ) → y < 400 → doy < year_days y → year_of_era (start y + doy) ≡ y
year_of_era-start y doy hy hd =
    let c = y / 100 in
    let q = (y % 100) / 4 in
    let r = y % 4 in
    year_of_era-quad c q r doy (start y + doy) (omega arith) (omega arith) (omega arith)
      (ground arith) (omega arith)
    ∙ omega arith

start-lt : (y doy : ℕ) → y < 400 → doy < year_days y → start y + doy < 146097
start-lt y doy hy hd = ground arith

-- The date of a day of an era.
abbrev of_era : ℕ → ℕ → ℕ → ℕ × ℕ × ℕ
of_era era doe yoe = ymd era yoe (doe - start yoe)

days_to_ymd-of_era :
    (n era doe yoe : ℕ)
    → (n + 719468) / 146097 ≡ era
    → (n + 719468) - era * 146097 ≡ doe
    → year_of_era doe ≡ yoe
    → days_to_ymd n ≡ of_era era doe yoe
unfolding days_to_ymd
days_to_ymd-of_era n era doe yoe e d y = rw (sym y, sym d, sym e) refl

pub days_to_ymd-ymd :
    (n era y doy : ℕ)
    → y < 400
    → doy < year_days y
    → n + 719468 ≡ 146097 * era + (start y + doy)
    → days_to_ymd n ≡ ymd era y doy
days_to_ymd-ymd n era y doy hy hd e =
    let lt = start-lt y doy hy hd in
    days_to_ymd-of_era n era (start y + doy) y (omega arith) (omega arith)
      (year_of_era-start y doy hy hd)
    ∙ ap (ymd era y) (omega arith)
