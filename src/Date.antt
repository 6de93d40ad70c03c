-- ===== src/Date.antt =====
-- src/include/utils.h: dates and time stamps of the year 2024. A day is counted from 0, which is
-- January 1st; a time stamp counts minutes from the start of that day.
pub mod RoundTrip
pub mod Examples
use bh_ticket_system.Base.{
  ℕ, zero, suc, ◌+◌, ◌-◌, ◌*◌, ◌/◌, ◌%◌, List, [], ◌∷◌, ◌++◌, Bytes, codes, get_or, replicate,
  two_digits,
}

-- The days of the months, from January on.
abbrev month_lengths : List ℕ
month_lengths = 31 ∷ 29 ∷ 31 ∷ 30 ∷ 31 ∷ 30 ∷ 31 ∷ 31 ∷ 30 ∷ 31 ∷ 30 ∷ 31 ∷ []

-- `month_lookup` and `day_lookup`: month `m` stands as often as it has days, and its days are
-- counted from one.
months_from : ℕ → List ℕ → List ℕ
months_from m [] = []
months_from m (n ∷ ns) = replicate n m ++ months_from (m + 1) ns

count_up : ℕ → ℕ → List ℕ
count_up first zero = []
count_up first (suc n) = first ∷ count_up (first + 1) n

days_from : List ℕ → List ℕ
unfolding count_up
days_from [] = []
days_from (n ∷ ns) = count_up 1 n ++ days_from ns

month_lookup : List ℕ
unfolding months_from
month_lookup = months_from 1 month_lengths

day_lookup : List ℕ
unfolding days_from
day_lookup = days_from month_lengths

abbrev compact_lookup : List ℕ
compact_lookup = 0 ∷ 31 ∷ 60 ∷ 91 ∷ 121 ∷ 152 ∷ 182 ∷ 213 ∷ 244 ∷ 274 ∷ 305 ∷ 335 ∷ []

unfoldable pub retrieve_readable_date : ℕ → ℕ × ℕ
unfolding month_lookup day_lookup
retrieve_readable_date day_id = (get_or month_lookup day_id 0, get_or day_lookup day_id 0)

unfoldable pub get_compact_date : ℕ → ℕ → ℕ
get_compact_date month day = get_or compact_lookup (month - 1) 0 + day - 1

pub record ReadableTime : Type 0 where
  pub month : ℕ
  pub day : ℕ
  pub hour : ℕ
  pub minute : ℕ

unfoldable pub retrieve_readable_time_stamp : ℕ → ReadableTime
unfolding retrieve_readable_date
retrieve_readable_time_stamp full_time_stamp =
    let minute_id : ℕ = full_time_stamp % 1440 in
    let (m, d) = retrieve_readable_date (full_time_stamp / 1440) in
    record { month = m; day = d; hour = minute_id / 60; minute = minute_id % 60 }

unfoldable pub get_full_time_stamp : ℕ → ℕ → ℕ → ℕ → ℕ
unfolding get_compact_date
get_full_time_stamp month day hour minute = get_compact_date month day * 1440 + hour * 60 + minute

unfoldable pub print_full_time_stamp : ℕ → Bytes
unfolding retrieve_readable_time_stamp two_digits
print_full_time_stamp full_time_stamp =
    let t = retrieve_readable_time_stamp full_time_stamp in
    two_digits t.month
    ++ codes "-"
    ++ two_digits t.day
    ++ codes " "
    ++ two_digits t.hour
    ++ codes ":"
    ++ two_digits t.minute
