-- ===== src/Timestamp/Calendar.antt =====
-- The Gregorian calendar, one day after the other: the reference for the computed dates.
use openvpn_mgmt_codec.Prelude.{ℕ, zero, suc, ◌%◌, ◌&&◌, ◌||◌, not, Bool, ltb, ◌==◌, if◌then◌else◌}

unfoldable pub is_leap : ℕ → Bool
is_leap y = y % 4 == 0 && (not (y % 100 == 0) || y % 400 == 0)

unfoldable pub days_in_month : ℕ → ℕ → ℕ
unfolding is_leap
days_in_month y m =
    if m == 2
    then if is_leap y then 29 else 28
    else if m == 4 || m == 6 || m == 9 || m == 11
    then 30
    else 31

-- The day after a date.
unfoldable pub tomorrow : ℕ × ℕ × ℕ → ℕ × ℕ × ℕ
tomorrow (y, m, d) =
    if ltb d (days_in_month y m)
    then (y, m, suc d)
    else if ltb m 12
    then (y, suc m, 1)
    else (suc y, 1, 1)

-- The date `n` days after January 1, 1970.
unfoldable pub date_after : ℕ → ℕ × ℕ × ℕ
date_after zero = (1970, 1, 1)
date_after (suc n) = tomorrow (date_after n)
