-- ===== src/Utils/Time/Calendar.antt =====
-- The calendar that `time.Parse` checks and `time.Date` counts by, and that it is the one that
-- `Format` prints.
use lago_paiement_engine.Prelude.{
  ℕ, zero, suc, ◌+◌, ◌-◌, ◌*◌, ◌/◌, ◌%◌, ◌≡◌, ◌<◌, ◌≤◌, refl, Bool, true, false, ◌&&◌, ◌||◌, not,
  ltb, leb, ◌==◌, if◌then◌else◌, arith, Bool-cases, inl, inr, ap₂, ◌∙◌, subst, ◌⊎◌,
}
use lago_paiement_engine.Utils.Time.Format.{Date, date_of_day}

abbrev pub is_leap : ℕ → Bool
is_leap year = year % 4 == 0 && (not (year % 100 == 0) || year % 400 == 0)

abbrev days_of : ℕ → Bool → ℕ
days_of month leap =
    if month == 2
    then if leap then 29 else 28
    else if month == 4 || month == 6 || month == 9 || month == 11
    then 30
    else 31

-- `daysIn`
abbrev pub days_in : ℕ → ℕ → ℕ
days_in month year = days_of month (is_leap year)

-- Days from the first of March of the year -400 on.
unfoldable pub day_number : Date → ℕ
day_number d =
    let y = d.year + 400 - (if leb d.month 2 then 1 else 0) in
    let yoe = y % 400 in
    let mp = (d.month + 9) % 12 in
    y / 400 * 146097 + yoe * 365 + yoe / 4 - yoe / 100 + (153 * mp + 2) / 5 + d.day - 1

abbrev pub is_valid_date : Date → Bool
is_valid_date d =
    leb 1 d.month && leb d.month 12 && leb 1 d.day && leb d.day (days_in d.month d.year)

-- The parts of `date_of_day`.
yoe_of : ℕ → ℕ
yoe_of doe = (doe - doe / 1460 + doe / 36524 - doe / 146096) / 365

doy_of : ℕ → ℕ
unfolding yoe_of
doy_of doe = doe - (365 * yoe_of doe + yoe_of doe / 4 - yoe_of doe / 100)

yoe_of-lt : (doe : ℕ) → doe < 146097 → yoe_of doe < 400
unfolding yoe_of
yoe_of-lt doe h = omega arith

year_start : (doe : ℕ) → doe < 146097 → 365 * yoe_of doe + yoe_of doe / 4 - yoe_of doe / 100 ≤ doe
unfolding yoe_of
year_start doe h = omega arith

doy_of-lt : (doe : ℕ) → doe < 146097 → doy_of doe < 366
unfolding doy_of yoe_of
doy_of-lt doe h = omega arith

-- The leap day is the last of its year.
leap_day :
    (doe : ℕ)
    → doe < 146097
    → doy_of doe ≡ 365
    → ((yoe_of doe + 1) % 4 ≡ 0) × (((yoe_of doe + 1) % 100 ≡ 0 → (yoe_of doe + 1) % 400 ≡ 0))
unfolding doy_of yoe_of
leap_day doe h e = (omega arith, λ k. omega arith)

-- The month and the day of the month on a day of the year.
abbrev month_of : ℕ → ℕ
month_of doy =
    if ltb ((5 * doy + 2) / 153) 10 then (5 * doy + 2) / 153 + 3 else (5 * doy + 2) / 153 - 9

abbrev day_of : ℕ → ℕ
day_of doy = doy - (153 * ((5 * doy + 2) / 153) + 2) / 5 + 1

month_day : (doy : ℕ) → doy < 366 → (153 * ((month_of doy + 9) % 12) + 2) / 5 + day_of doy ≡ doy + 1
month_day doy h = ground arith

month_of-feb : (doy : ℕ) → doy ≡ 365 → leb (month_of doy) 2 ≡ true
month_of-feb doy e = ground arith

abbrev is_valid_day : ℕ → Bool → Bool
is_valid_day doy leap =
    leb 1 (month_of doy)
    && leb (month_of doy) 12
    && leb 1 (day_of doy)
    && leb (day_of doy) (days_of (month_of doy) leap)

conjuncts : (a b : Bool) → (a && b) ≡ true → (a ≡ true) × (b ≡ true)
conjuncts true true h = (refl, refl)
conjuncts true false h = (refl, h)
conjuncts false b h = (h, grind arith)

abbrev all_below : ℕ → (ℕ → Bool) → Bool
all_below zero p = true
all_below (suc n) p = p n && all_below n p

all_below-at : (n : ℕ) (p : ℕ → Bool) → all_below n p ≡ true → (k : ℕ) → k < n → p k ≡ true
all_below-at zero p h k l = grind arith
all_below-at (suc n) p h k l =
    let (at_n, below_n) = conjuncts (p n) (all_below n p) h in
    elim (Bool-cases (ltb k n)) [
      | inl lt ↦ all_below-at n p below_n k (ground arith)
      | inr ge ↦ let e : n ≡ k = ground arith in subst (λ m. p m ≡ true) e at_n
    ]

every_day : all_below 365 (λ doy. is_valid_day doy true && is_valid_day doy false) ≡ true
every_day = refl

both_years :
    (doy : ℕ) → doy < 365 → (is_valid_day doy true ≡ true) × (is_valid_day doy false ≡ true)
both_years doy h =
    conjuncts (is_valid_day doy true) (is_valid_day doy false)
      (all_below-at 365 (λ doy. is_valid_day doy true && is_valid_day doy false) every_day doy h)

leap_of_next : (y : ℕ) → y % 4 ≡ 0 → (y % 100 ≡ 0 → y % 400 ≡ 0) → is_leap y ≡ true
leap_of_next y h k = ground arith

valid_day_before : (doy : ℕ) (leap : Bool) → doy < 365 → is_valid_day doy leap ≡ true
valid_day_before doy true h = let (leap_year, other) = both_years doy h in leap_year
valid_day_before doy false h = let (leap_year, other) = both_years doy h in other

valid_last_day : (doy : ℕ) (leap : Bool) → doy ≡ 365 → leap ≡ true → is_valid_day doy leap ≡ true
valid_last_day doy leap e k = ap₂ is_valid_day e k

valid_day :
    (doy : ℕ) (leap : Bool) → doy < 366 → (doy ≡ 365 → leap ≡ true) → is_valid_day doy leap ≡ true
valid_day doy leap h k = elim (Bool-cases (ltb doy 365)) [
  | inl l ↦ valid_day_before doy leap (ground arith)
  | inr l ↦ let e : doy ≡ 365 = ground arith in valid_last_day doy leap e (k e)
]

leap_of_end :
    (y : ℕ) (b : Bool)
    → (y + 1) % 4 ≡ 0
    → ((y + 1) % 100 ≡ 0 → (y + 1) % 400 ≡ 0)
    → b ≡ true
    → is_leap (y + (if b then 1 else 0)) ≡ true
leap_of_end y true h k e = leap_of_next (y + 1) h k
leap_of_end y false h k e = grind arith

-- The year's last day has its leap day in the year of the calendar.
last_day_leap :
    (doe q : ℕ) (b : Bool)
    → doe < 146097
    → doy_of doe ≡ 365
    → b ≡ true
    → is_leap (yoe_of doe + q * 400 + (if b then 1 else 0)) ≡ true
last_day_leap doe q b h e t =
    let (four, hundred) = leap_day doe h e in
    leap_of_end (yoe_of doe + q * 400) b (omega arith)
      (λ k. let m = hundred (omega arith) in omega arith) t

pub is_valid_date-date_of_day : (n : ℕ) → is_valid_date (date_of_day n) ≡ true
unfolding date_of_day doy_of yoe_of
is_valid_date-date_of_day n =
    let doe = n % 146097 in
    valid_day (doy_of doe) (is_leap (date_of_day n).year) (doy_of-lt doe (omega arith)) (λ e.
      last_day_leap doe (n / 146097) (leb (month_of (doy_of doe)) 2) (omega arith) e
        (month_of-feb (doy_of doe) e))

day_number_sum :
    (yoe q c f d doy : ℕ)
    → yoe < 400
    → f + d ≡ doy + 1
    → ((yoe + q * 400 + c + 400 - c) / 400 * 146097
          + (yoe + q * 400 + c + 400 - c) % 400 * 365
          + (yoe + q * 400 + c + 400 - c) % 400 / 4
          - (yoe + q * 400 + c + 400 - c) % 400 / 100
          + f
          + d
          - 1
        ≡ (q + 1) * 146097 + (365 * yoe + yoe / 4 - yoe / 100) + doy)
day_number_sum yoe q c f d doy h e = omega arith

abbrev date_at : ℕ → ℕ → ℕ → Date
date_at yoe q doy = record {
  year = yoe + q * 400 + (if leb (month_of doy) 2 then 1 else 0);
  month = month_of doy;
  day = day_of doy;
}

day_number-date_at :
    (yoe q doy : ℕ)
    → yoe < 400
    → doy < 366
    → day_number (date_at yoe q doy) ≡ (q + 1) * 146097 + (365 * yoe + yoe / 4 - yoe / 100) + doy
unfolding day_number
day_number-date_at yoe q doy h l =
    day_number_sum yoe q (if leb (month_of doy) 2 then 1 else 0)
      ((153 * ((month_of doy + 9) % 12) + 2) / 5) (day_of doy) doy h (month_day doy l)

pub day_number-date_of_day : (n : ℕ) → day_number (date_of_day n) ≡ n + 146097
unfolding date_of_day doy_of yoe_of
day_number-date_of_day n =
    let doe = n % 146097 in
    let l : doe < 146097 = omega arith in
    let below = year_start doe l in
    day_number-date_at (yoe_of doe) (n / 146097) (doy_of doe) (yoe_of-lt doe l) (doy_of-lt doe l)
    ∙ omega arith

month_of-bounds : (doy : ℕ) → doy < 366 → (1 ≤ month_of doy) × (month_of doy ≤ 12)
month_of-bounds doy h = (ground arith, ground arith)

day_of-lt : (doy : ℕ) → doy < 366 → day_of doy < 100
day_of-lt doy h = omega arith

pub date_of_day-month : (n : ℕ) → (1 ≤ (date_of_day n).month) × ((date_of_day n).month ≤ 12)
unfolding date_of_day doy_of yoe_of
date_of_day-month n = month_of-bounds (doy_of (n % 146097)) (doy_of-lt (n % 146097) (omega arith))

pub date_of_day-day : (n : ℕ) → (date_of_day n).day < 100
unfolding date_of_day doy_of yoe_of
date_of_day-day n = day_of-lt (doy_of (n % 146097)) (doy_of-lt (n % 146097) (omega arith))

-- The year 9999 ends 306 days after its first of March.
last_year :
    (yoe q doy : ℕ)
    → yoe + q * 400 < 9999 ⊎ (yoe + q * 400 ≡ 9999) × (doy < 306)
    → yoe + q * 400 + (if leb (month_of doy) 2 then 1 else 0) < 10000
last_year yoe q doy h = ground arith

year_or_before :
    (n : ℕ)
    → n < 3652365
    → yoe_of (n % 146097) + n / 146097 * 400 < 9999
      ⊎ (yoe_of (n % 146097) + n / 146097 * 400 ≡ 9999) × (doy_of (n % 146097) < 306)
unfolding doy_of yoe_of
year_or_before n h =
    let m = yoe_of-lt (n % 146097) (omega arith) in
    elim (Bool-cases (ltb (yoe_of (n % 146097) + n / 146097 * 400) 9999)) [
      | inl lt ↦ inl (ground arith)
      | inr ge ↦
          let le : 9999 ≤ yoe_of (n % 146097) + n / 146097 * 400 = ground arith in
          inr (omega arith, omega arith)
    ]

pub date_of_day-year : (n : ℕ) → n < 3652365 → (date_of_day n).year < 10000
unfolding date_of_day doy_of yoe_of
date_of_day-year n h =
    last_year (yoe_of (n % 146097)) (n / 146097) (doy_of (n % 146097)) (year_or_before n h)
