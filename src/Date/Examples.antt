-- ===== src/Date/Examples.antt =====
-- src/include/utils.h: the conversions on the tenth of June, 08:05.
use bh_ticket_system.Base.{◌≡◌, ◌≤◌, ◌<◌, arith}
use bh_ticket_system.Date.{
  retrieve_readable_date, get_compact_date, get_full_time_stamp, retrieve_readable_time_stamp,
}
use bh_ticket_system.Date.RoundTrip.{
  days_in, get_compact_date-retrieve_readable_date, retrieve_readable_date-get_compact_date,
  get_full_time_stamp-retrieve_readable_time_stamp,
  retrieve_readable_time_stamp-get_full_time_stamp,
}

get_compact_date-retrieve_readable_date_example :
    (get_compact_date (retrieve_readable_date 161).0 (retrieve_readable_date 161).1 ≡ 161)
    × (1 ≤ (retrieve_readable_date 161).0)
    × ((retrieve_readable_date 161).0 ≤ 12)
    × (1 ≤ (retrieve_readable_date 161).1)
    × ((retrieve_readable_date 161).1 ≤ days_in (retrieve_readable_date 161).0)
get_compact_date-retrieve_readable_date_example =
    get_compact_date-retrieve_readable_date 161 (omega arith)

retrieve_readable_date-get_compact_date_example :
    (retrieve_readable_date (get_compact_date 6 10) ≡ (6, 10)) × (get_compact_date 6 10 < 366)
retrieve_readable_date-get_compact_date_example =
    retrieve_readable_date-get_compact_date 6 10 (omega arith) (omega arith) (omega arith)
      (omega arith)

get_full_time_stamp-retrieve_readable_time_stamp_example :
    (get_full_time_stamp
        (retrieve_readable_time_stamp 232325).month
        (retrieve_readable_time_stamp 232325).day
        (retrieve_readable_time_stamp 232325).hour
        (retrieve_readable_time_stamp 232325).minute
      ≡ 232325)
    × (1 ≤ (retrieve_readable_time_stamp 232325).month)
    × ((retrieve_readable_time_stamp 232325).month ≤ 12)
    × (1 ≤ (retrieve_readable_time_stamp 232325).day)
    × ((retrieve_readable_time_stamp 232325).day
        ≤ days_in (retrieve_readable_time_stamp 232325).month)
    × ((retrieve_readable_time_stamp 232325).hour < 24)
    × ((retrieve_readable_time_stamp 232325).minute < 60)
get_full_time_stamp-retrieve_readable_time_stamp_example =
    get_full_time_stamp-retrieve_readable_time_stamp 232325 (omega arith)

retrieve_readable_time_stamp-get_full_time_stamp_example :
    retrieve_readable_time_stamp (get_full_time_stamp 6 10 8 5)
    ≡ record { month = 6; day = 10; hour = 8; minute = 5 }
retrieve_readable_time_stamp-get_full_time_stamp_example =
    retrieve_readable_time_stamp-get_full_time_stamp 6 10 8 5 (omega arith) (omega arith)
      (omega arith) (omega arith) (omega arith) (omega arith)
