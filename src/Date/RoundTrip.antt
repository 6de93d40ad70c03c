-- ===== src/Date/RoundTrip.antt =====
-- src/include/utils.h: the conversions between days, dates and time stamps undo one another.
use bh_ticket_system.Base.{
  ℕ, zero, suc, ◌+◌, ◌-◌, ◌<◌, ◌≡◌, refl, Bool, true, ◌&&◌, arith, get_or, ◌==◌, leb, ltb, ◌≤◌,
  false, ==_iff, leb→le, ltb→lt, ◌*◌, ◌/◌, ◌%◌,
}
use bh_ticket_system.Date.{
  month_lengths, retrieve_readable_date, get_compact_date, months_from, days_from, count_up,
  get_full_time_stamp, retrieve_readable_time_stamp,
}
use mathlib.Core.Path.{subst}

-- A test that every number before `n` passes.
passes : (ℕ → Bool) → ℕ → Bool
passes test zero = true
passes test (suc n) = passes test n && test n

passes_lem : (test : ℕ → Bool) (n i : ℕ) → i < n → passes test n ≡ true → test i ≡ true
unfolding passes
passes_lem test (suc n) i below all = ground (arith, passes_lem test n i)
passes_lem test zero i below all = absurd (omega arith)

pair_path : {a b : ℕ × ℕ} → a.0 ≡ b.0 → a.1 ≡ b.1 → a ≡ b
pair_path p q = λ i. (p i, q i)

both : (a b : Bool) → (a && b) ≡ true → (a ≡ true) × (b ≡ true)
both true true e = (refl, refl)
both true false e = cc
both false b e = cc

-- Number of days in a month of 2024.
abbrev pub days_in : ℕ → ℕ
days_in month = get_or month_lengths (month - 1) 0

day_back : ℕ → Bool
unfolding retrieve_readable_date get_compact_date
day_back d =
    let (m, dd) = retrieve_readable_date d in
    (get_compact_date m dd == d) && (leb 1 m && (leb m 12 && (leb 1 dd && leb dd (days_in m))))

day_back_table : passes day_back 366 ≡ true
unfolding passes day_back months_from days_from count_up
day_back_table = refl

date_back : ℕ → ℕ → Bool
unfolding retrieve_readable_date get_compact_date
date_back m d =
    let (m', d') = retrieve_readable_date (get_compact_date (suc m) (suc d)) in
    (m' == suc m) && ((d' == suc d) && ltb (get_compact_date (suc m) (suc d)) 366)

date_back_table : passes (λ m. passes (date_back m) (get_or month_lengths m 0)) 12 ≡ true
unfolding passes date_back months_from days_from count_up
date_back_table = refl

-- The date of a day of the year is a date of the calendar, and leads back to the day.
pub get_compact_date-retrieve_readable_date :
    (d : ℕ)
    → d < 366
    → (get_compact_date (retrieve_readable_date d).0 (retrieve_readable_date d).1 ≡ d)
      × (1 ≤ (retrieve_readable_date d).0)
      × ((retrieve_readable_date d).0 ≤ 12)
      × (1 ≤ (retrieve_readable_date d).1)
      × ((retrieve_readable_date d).1 ≤ days_in (retrieve_readable_date d).0)
unfolding day_back
get_compact_date-retrieve_readable_date d h =
    let (same, rest) = both _ _ (passes_lem day_back 366 d h day_back_table) in
    let (month_low, rest) = both _ _ rest in
    let (month_high, rest) = both _ _ rest in
    let (day_low, day_high) = both _ _ rest in
    (
      (==_iff _ _).0 same,
      leb→le _ _ month_low,
      leb→le _ _ month_high,
      leb→le _ _ day_low,
      leb→le _ _ day_high,
    )

-- The day of a date of the calendar lies in the year, and is read as that date.
pub retrieve_readable_date-get_compact_date :
    (m d : ℕ)
    → 1 ≤ m
    → m ≤ 12
    → 1 ≤ d
    → d ≤ days_in m
    → (retrieve_readable_date (get_compact_date m d) ≡ (m, d)) × (get_compact_date m d < 366)
unfolding date_back
retrieve_readable_date-get_compact_date (suc m) (suc d) hm hm' pos hd' =
    let row =
      passes_lem (λ m. passes (date_back m) (get_or month_lengths m 0)) 12 m (omega arith)
        date_back_table in
    let before : suc m - 1 ≡ m = omega arith in
    let hd : d < get_or month_lengths m 0 =
      subst (λ k. d < get_or month_lengths k 0) before (omega arith) in
    let (month, rest) = both _ _ (passes_lem (date_back m) (get_or month_lengths m 0) d hd row) in
    let (day, below) = both _ _ rest in
    (pair_path ((==_iff _ _).0 month) ((==_iff _ _).0 day), ltb→lt _ _ below)
retrieve_readable_date-get_compact_date zero d hm hm' hd hd' = absurd (omega arith)
retrieve_readable_date-get_compact_date (suc m) zero hm hm' hd hd' = absurd (omega arith)

-- A time stamp of the year is read as a date of the calendar and a time of the day, which lead back
-- to it.
pub get_full_time_stamp-retrieve_readable_time_stamp :
    (t : ℕ)
    → t < 366 * 1440
    → (get_full_time_stamp
          (retrieve_readable_time_stamp t).month
          (retrieve_readable_time_stamp t).day
          (retrieve_readable_time_stamp t).hour
          (retrieve_readable_time_stamp t).minute
        ≡ t)
      × (1 ≤ (retrieve_readable_time_stamp t).month)
      × ((retrieve_readable_time_stamp t).month ≤ 12)
      × (1 ≤ (retrieve_readable_time_stamp t).day)
      × ((retrieve_readable_time_stamp t).day ≤ days_in (retrieve_readable_time_stamp t).month)
      × ((retrieve_readable_time_stamp t).hour < 24)
      × ((retrieve_readable_time_stamp t).minute < 60)
unfolding get_full_time_stamp retrieve_readable_time_stamp
get_full_time_stamp-retrieve_readable_time_stamp t h =
    let (back, month_low, month_high, day_low, day_high) =
      get_compact_date-retrieve_readable_date (t / 1440) (omega arith) in
    (omega (arith, back), month_low, month_high, day_low, day_high, omega arith, omega arith)

-- The time stamp of a date of the calendar and a time of the day is read as them.
pub retrieve_readable_time_stamp-get_full_time_stamp :
    (m d hour minute : ℕ)
    → 1 ≤ m
    → m ≤ 12
    → 1 ≤ d
    → d ≤ days_in m
    → hour < 24
    → minute < 60
    → retrieve_readable_time_stamp (get_full_time_stamp m d hour minute)
      ≡ record { month = m; day = d; hour = hour; minute = minute }
unfolding get_full_time_stamp retrieve_readable_time_stamp
retrieve_readable_time_stamp-get_full_time_stamp m d hour minute hm hm' hd hd' hh hmin =
    let back = (retrieve_readable_date-get_compact_date m d hm hm' hd hd').0 in
    let c : ℕ = get_compact_date m d in
    let day_part : (c * 1440 + hour * 60 + minute) / 1440 ≡ c = omega arith in
    let hour_part : ((c * 1440 + hour * 60 + minute) % 1440) / 60 ≡ hour = omega arith in
    let minute_part : ((c * 1440 + hour * 60 + minute) % 1440) % 60 ≡ minute = omega arith in
    let date : retrieve_readable_date ((c * 1440 + hour * 60 + minute) / 1440) ≡ (m, d) =
      rw day_part back in
    λ i. record { month = (date i).0; day = (date i).1; hour = hour_part i; minute = minute_part i }
