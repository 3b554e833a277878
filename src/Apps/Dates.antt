-- ===== src/Apps/Dates.antt =====
-- `chrono_now` and `days_to_ymd` of src/pake_apps/api.rs: the time of creation, from the seconds
-- since 1970. The loop over the years runs on fuel, one more than the days, which is enough since
-- each round takes a year's days off; `none` is the end of the fuel.
use mathlib.Core.Option
use selkies_core.Prelude.{
  ℕ, zero, suc, ◌+◌, ◌-◌, ◌*◌, ◌/◌, ◌%◌, ◌≤◌, ◌<◌, ◌≡◌, refl, sym, ap, subst, ◌∙◌, if-intro, Bool,
  true, false, not, ◌&&◌, ◌||◌, List, [], ◌∷◌, ◌++◌, Option, none, some, Text, length, show, ltb,
  ltb→lt, and_then, ◌==◌, if◌then◌else◌, Bool-cases, inl, inr, arith,
}

unfoldable pub is_leap : ℕ → Bool
is_leap y = y % 4 == 0 && (not (y % 100 == 0) || y % 400 == 0)

unfoldable pub year_loop : ℕ → ℕ → ℕ → Option (ℕ × ℕ)
unfolding is_leap
year_loop zero y days = none
year_loop (suc fuel) y days =
    let dy = if is_leap y then 366 else 365 in
    let later = year_loop fuel (y + 1) (days - dy) in if ltb days dy then some (y, days) else later

abbrev pub mdays : Bool → List ℕ
mdays leap = 31 ∷ (if leap then 29 else 28) ∷ 31 ∷ 30 ∷ 31 ∷ 30 ∷ 31 ∷ 31 ∷ 30 ∷ 31 ∷ 30 ∷ 31 ∷ []

-- The month, or 0 when the loop runs through, and the days left.
unfoldable pub month_loop : List ℕ → ℕ → ℕ → ℕ × ℕ
month_loop [] i days = (0, days)
month_loop (md ∷ mds) i days =
    let later = month_loop mds (suc i) (days - md) in if ltb days md then (suc i, days) else later

pub record Timestamp : Type 0 where
  pub year : ℕ
  pub month : ℕ
  pub day : ℕ
  pub hour : ℕ
  pub minute : ℕ
  pub second : ℕ

abbrev with_month : ℕ × ℕ → Option (ℕ × ℕ × ℕ)
with_month (y, left) = let r = month_loop (mdays (is_leap y)) 0 left in some (y, r.0, r.1 + 1)

unfoldable pub days_to_ymd : ℕ → Option (ℕ × ℕ × ℕ)
unfolding year_loop month_loop
days_to_ymd days = and_then (year_loop (suc days) 1970 days) with_month

-- The fields that are formatted.
unfoldable pub fields_at : ℕ → Option Timestamp
unfolding days_to_ymd
fields_at secs =
    let time_secs = secs % 86400 in
    Option.map
      (λ (ymd : ℕ × ℕ × ℕ). record {
        year = ymd.0;
        month = ymd.1;
        day = ymd.2;
        hour = time_secs / 3600;
        minute = time_secs % 3600 / 60;
        second = time_secs % 60;
      })
      (days_to_ymd (secs / 86400))

abbrev zeros : ℕ → Text
zeros zero = []
zeros (suc n) = b'0' ∷ zeros n

-- `{:0width}`.
abbrev padded : ℕ → ℕ → Text
padded width n = zeros (width - length (show n)) ++ show n

unfoldable pub format : Timestamp → Text
format t =
    padded 4 t.year
    ++ (b'-' ∷ padded 2 t.month
        ++ (b'-' ∷ padded 2 t.day
            ++ (b'T' ∷ padded 2 t.hour
                ++ (b':' ∷ padded 2 t.minute ++ (b':' ∷ padded 2 t.second ++ b'Z' ∷ [])))))

unfoldable pub chrono_now : ℕ → Option Text
unfolding fields_at format
chrono_now secs = Option.map format (fields_at secs)

-- The Gregorian calendar by itself: the days of a month, and those from the start of 1970 to that of
-- a year, and of a year to that of a month.
abbrev pub days_in_month : Bool → ℕ → ℕ
days_in_month leap m =
    if m == 2
    then (if leap then 29 else 28)
    else if m == 4 || m == 6 || m == 9 || m == 11
    then 30
    else 31

abbrev pub days_before_year : ℕ → ℕ
days_before_year y = 365 * (y - 1970) + ((y - 1) / 4 + (y - 1) / 400) - ((y - 1) / 100 + 477)

abbrev pub days_before_month : Bool → ℕ → ℕ
days_before_month leap zero = 0
days_before_month leap (suc zero) = 0
days_before_month leap (suc (suc m)) = days_before_month leap (suc m) + days_in_month leap (suc m)

-- The date exists, and is the day after so many days.
pub record IsDay (days y mo d : ℕ) : Type 0 where
  pub month_first : 1 ≤ mo
  pub month_last : mo ≤ 12
  pub day_first : 1 ≤ d
  pub day_last : d ≤ days_in_month (is_leap y) mo
  pub counted : days_before_year y + days_before_month (is_leap y) mo + (d - 1) ≡ days

abbrev year_length : ℕ → ℕ
year_length y = if is_leap y then 366 else 365

next_year : (y : ℕ) → 1970 ≤ y → days_before_year (y + 1) ≡ days_before_year y + year_length y
unfolding is_leap
next_year y h = ground arith

year_positive : (y : ℕ) → 0 < year_length y
year_positive y = elim (Bool-cases (is_leap y)) [
  | inl e ↦ rw e (omega arith)
  | inr e ↦ rw e (omega arith)
]

shorter : (days len fuel : ℕ) → days < suc fuel → 0 < len → ltb days len ≡ false → days - len < fuel
shorter days len fuel h p e = ground arith

same_total :
    (a b len days total : ℕ)
    → b ≡ a + len
    → a + days ≡ total
    → ltb days len ≡ false
    → b + (days - len) ≡ total
same_total a b len days total e h t = ground arith

year_loop_lem :
    (fuel y days total : ℕ)
    → days < fuel
    → 1970 ≤ y
    → days_before_year y + days ≡ total
    → (y' : ℕ) × (left : ℕ) × (year_loop fuel y days ≡ some (y', left))
      × (left < year_length y')
      × (days_before_year y' + left ≡ total)
unfolding year_loop
year_loop_lem zero y days total h p e = absurd (omega arith)
year_loop_lem (suc fuel) y days total h p e = elim (Bool-cases (ltb days (year_length y))) [
  | inl this ↦ (y, days, rw this refl, ltb→lt _ _ this, e)
  | inr more ↦
      let (y', left, is, fits, counted) =
        year_loop_lem fuel (y + 1) (days - year_length y) total
          (shorter days (year_length y) fuel h (year_positive y) more) (omega arith)
          (same_total (days_before_year y) (days_before_year (y + 1)) (year_length y) days total
            (next_year y p) e more) in
      (y', left, rw more is, fits, counted)
]

-- The lengths from month `i + 1` on.
abbrev Agrees : Bool → ℕ → List ℕ → Type 0
Agrees leap i [] = i ≡ 12
Agrees leap i (md ∷ mds) = (i < 12) × (md ≡ days_in_month leap (suc i)) × Agrees leap (suc i) mds

abbrev sum : List ℕ → ℕ
sum [] = 0
sum (md ∷ mds) = md + sum mds

Month : Bool → ℕ → ℕ × ℕ → Type 0
Month leap days (m, r) =
    (1 ≤ m) × (m ≤ 12) × (r < days_in_month leap m) × (days_before_month leap m + r ≡ days)

month_loop_lem :
    (leap : Bool) (mds : List ℕ) (i days total : ℕ)
    → Agrees leap i mds
    → days_before_month leap (suc i) + days ≡ total
    → days < sum mds
    → Month leap total (month_loop mds i days)
unfolding month_loop Month
month_loop_lem leap [] i days total a e h = absurd (omega arith)
month_loop_lem leap (md ∷ mds) i days total (early, is, a) e h =
    if-intro (Month leap total) (ltb days md) (λ t. here (ltb→lt _ _ t))
      (λ t.
        month_loop_lem leap mds (suc i) (days - md) total a
          (same_total (days_before_month leap (suc i)) _ md days total
            (ap (λ n. days_before_month leap (suc i) + n) (sym is)) e t)
          (shorter_sum t))
  where
    here : days < md → Month leap total (suc i, days)
    here t = (omega arith, early, subst (λ n. days < n) is t, e)

    shorter_sum : ltb days md ≡ false → days - md < sum mds
    shorter_sum t = ground arith

mdays_agree :
    (leap : Bool) → Agrees leap 0 (mdays leap) × (sum (mdays leap) ≡ (if leap then 366 else 365))
mdays_agree true = (omega arith, refl)
mdays_agree false = (omega arith, refl)

days_to_ymd_lem :
    (days : ℕ)
    → (y : ℕ) × (mo : ℕ) × (d : ℕ) × (days_to_ymd days ≡ some (y, mo, d)) × IsDay days y mo d
unfolding days_to_ymd Month
days_to_ymd_lem days =
    let (y, left, is, fits, counted) =
      year_loop_lem (suc days) 1970 days days (omega arith) (omega arith) (omega arith) in
    let (agree, total) = mdays_agree (is_leap y) in
    let m =
      month_loop_lem (is_leap y) (mdays (is_leap y)) 0 left left agree (omega arith)
        (omega (arith, fits, total)) in
    go y left is counted (month_loop (mdays (is_leap y)) 0 left) refl m
  where
    go :
        (y left : ℕ)
        → year_loop (suc days) 1970 days ≡ some (y, left)
        → days_before_year y + left ≡ days
        → (r : ℕ × ℕ) → month_loop (mdays (is_leap y)) 0 left ≡ r
        → Month (is_leap y) left r
        → (y : ℕ) × (mo : ℕ) × (d : ℕ) × (days_to_ymd days ≡ some (y, mo, d)) × IsDay days y mo d
    go y left is counted (mo, rest) e (first, last, fits, before) = (
      y,
      mo,
      rest + 1,
      ap (λ (o : Option (ℕ × ℕ)). and_then o with_month) is
          ∙ ap (λ (r : ℕ × ℕ). some (y, r.0, r.1 + 1)) e,
      record {
        month_first = first;
        month_last = last;
        day_first = omega arith;
        day_last = omega arith;
        counted = omega arith;
      },
    )

-- The seconds since 1970 that a time stands for, in a calendar that is written independently.
pub seconds_of : Timestamp → ℕ
seconds_of t =
    let days = days_before_year t.year + days_before_month (is_leap t.year) t.month + (t.day - 1) in
    days * 86400 + t.hour * 3600 + t.minute * 60 + t.second

pub record IsTime (t : Timestamp) : Type 0 where
  pub month_first : 1 ≤ t.month
  pub month_last : t.month ≤ 12
  pub day_first : 1 ≤ t.day
  pub day_last : t.day ≤ days_in_month (is_leap t.year) t.month
  pub hour_last : t.hour < 24
  pub minute_last : t.minute < 60
  pub second_last : t.second < 60

-- The time that is written into a new application exists in the Gregorian calendar (month 1 to 12,
-- day 1 to the last of that month, leap years included, and a time of day), and is the one that the clock gives: the
-- days before it and its time of day make up the seconds since the start of 1970. The loop over
-- the years always comes to its end.
pub fields_at_lem :
    (secs : ℕ) → (t : Timestamp) × (fields_at secs ≡ some t) × IsTime t × (seconds_of t ≡ secs)
unfolding fields_at seconds_of
fields_at_lem secs =
    let (y, mo, d, is, day) = days_to_ymd_lem (secs / 86400) in
    let time_secs = secs % 86400 in
    (
      record {
        year = y;
        month = mo;
        day = d;
        hour = time_secs / 3600;
        minute = time_secs % 3600 / 60;
        second = time_secs % 60;
      },
      rw is refl,
      record {
        month_first = day.month_first;
        month_last = day.month_last;
        day_first = day.day_first;
        day_last = day.day_last;
        hour_last = omega arith;
        minute_last = omega arith;
        second_last = omega arith;
      },
      let c = day.counted in rw c (omega arith),
    )
