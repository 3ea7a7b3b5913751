-- ===== src/Timestamp/Months.antt =====
-- The months of openvpn-mgmt-codec/src/timestamp.rs, counted from March, and the day after a date.
use openvpn_mgmt_codec.Prelude.{
  ℕ, suc, ◌+◌, ◌-◌, ◌*◌, ◌/◌, ◌<◌, ◌≡◌, refl, sym, ap, ◌∙◌, arith, ltb, leb, if◌then◌else◌,
  Bool-cases, inl, inr,
}
use openvpn_mgmt_codec.Timestamp.{ymd}
use openvpn_mgmt_codec.Timestamp.Calendar.{is_leap, days_in_month, tomorrow}
use openvpn_mgmt_codec.Timestamp.Eras.{year_days}

-- The month, from March on.
abbrev month : ℕ → ℕ
month m = if ltb m 10 then m + 3 else m - 9

days_in_month-month :
    (year m : ℕ) → m < 11 → days_in_month year (month m) ≡ (153 * suc m + 2) / 5 - (153 * m + 2) / 5
unfolding days_in_month
days_in_month-month year m h = ground arith

days_in_month-february :
    (era y : ℕ) → y < 400 → days_in_month (y + era * 400 + 1) 2 + 337 ≡ year_days y
unfolding days_in_month is_leap
days_in_month-february era y h = ground arith

tomorrow-in_month : (y m d : ℕ) → d < days_in_month y m → tomorrow (y, m, d) ≡ (y, m, suc d)
unfolding tomorrow
tomorrow-in_month y m d h = ground arith

tomorrow-month_end :
    (y m d : ℕ) → days_in_month y m ≡ d → m < 12 → tomorrow (y, m, d) ≡ (y, suc m, 1)
unfolding tomorrow
tomorrow-month_end y m d h e = ground arith

-- The year, the month and the day of a day of a year that starts in March, by its month.
abbrev dated : ℕ → ℕ → ℕ → ℕ → ℕ × ℕ × ℕ
dated era y m d = (if leb (month m) 2 then y + era * 400 + 1 else y + era * 400, month m, d)

ymd-dated :
    (era y doy m d : ℕ)
    → (5 * doy + 2) / 153 ≡ m
    → doy - (153 * m + 2) / 5 + 1 ≡ d
    → ymd era y doy ≡ dated era y m d
unfolding ymd
ymd-dated era y doy m d e f = rw (sym f, sym e) refl

tomorrow-dated :
    (era y m d : ℕ)
    → m < 11
    → d < (153 * suc m + 2) / 5 - (153 * m + 2) / 5
    → tomorrow (dated era y m d) ≡ dated era y m (suc d)
tomorrow-dated era y m d h lt = tomorrow-in_month _ _ d (
    omega (
      arith,
      days_in_month-month (if leb (month m) 2 then y + era * 400 + 1 else y + era * 400) m h,
    ))

tomorrow-dated_end :
    (era y m d : ℕ)
    → m < 11
    → d ≡ (153 * suc m + 2) / 5 - (153 * m + 2) / 5
    → tomorrow (dated era y m d) ≡ dated era y (suc m) 1
unfolding tomorrow
tomorrow-dated_end era y m d h e =
    rw (days_in_month-month (if leb (month m) 2 then y + era * 400 + 1 else y + era * 400) m h)
      (ground arith)

day_after :
    (era y doy m : ℕ)
    → (5 * doy + 2) / 153 ≡ m
    → m < 11
    → tomorrow (ymd era y doy) ≡ ymd era y (suc doy)
day_after era y doy m e h =
    let d = doy - (153 * m + 2) / 5 + 1 in
    elim (Bool-cases (ltb d ((153 * suc m + 2) / 5 - (153 * m + 2) / 5))) [
      | inl t ↦
          ap tomorrow (ymd-dated era y doy m d e refl)
          ∙ tomorrow-dated era y m d h (ground arith)
          ∙ sym (ymd-dated era y (suc doy) m (suc d) (ground arith) (omega arith))
      | inr f ↦
          ap tomorrow (ymd-dated era y doy m d e refl)
          ∙ tomorrow-dated_end era y m d h (ground arith)
          ∙ sym (ymd-dated era y (suc doy) (suc m) 1 (ground arith) (ground arith))
    ]

february_day :
    (era y doy : ℕ)
    → y < 400
    → (5 * doy + 2) / 153 ≡ 11
    → suc doy < year_days y
    → tomorrow (ymd era y doy) ≡ ymd era y (suc doy)
february_day era y doy hy e h =
    let d = doy - (153 * 11 + 2) / 5 + 1 in
    ap tomorrow (ymd-dated era y doy 11 d e refl)
    ∙ tomorrow-in_month (y + era * 400 + 1) 2 d (omega (arith, days_in_month-february era y hy))
    ∙ sym (ymd-dated era y (suc doy) 11 (suc d) (ground arith) (omega arith))

pub tomorrow_same :
    (era y doy : ℕ)
    → y < 400
    → suc doy < year_days y
    → tomorrow (ymd era y doy) ≡ ymd era y (suc doy)
tomorrow_same era y doy hy hd = elim (Bool-cases (ltb ((5 * doy + 2) / 153) 11)) [
  | inl t ↦ day_after era y doy ((5 * doy + 2) / 153) refl (ground arith)
  | inr f ↦ february_day era y doy hy (ground arith) hd
]

pub tomorrow_next :
    (era y doy : ℕ) → y < 400 → suc doy ≡ year_days y → tomorrow (ymd era y doy) ≡ ymd era (suc y) 0
unfolding ymd
tomorrow_next era y doy hy hd =
    let d = doy - (153 * 11 + 2) / 5 + 1 in
    ap tomorrow (ymd-dated era y doy 11 d (ground arith) refl)
    ∙ tomorrow-month_end (y + era * 400 + 1) 2 d (ground (arith, days_in_month-february era y hy))
        (omega arith)
    ∙ ground arith
