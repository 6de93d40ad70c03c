-- ===== src/Trains.antt =====
-- src/train_system.cpp: the trains, their seats, and what a release adds to the index of stops.
pub mod Release
pub mod Registered
pub mod Query
pub mod Storage
pub mod Examples
use bh_ticket_system.Base.{
  ℕ, zero, suc, ◌+◌, ◌-◌, ◌*◌, ◌%◌, ◌^◌, Bool, true, false, ◌||◌, Option, none, some, List, [], ◌∷◌,
  ◌++◌, map, Bytes, codes, leb, ltb, ◌==◌, ◌!=◌, if◌then◌else◌, hash_eq, pair_eq, Result, ok, err,
  runtime_error, undefined, ◌>>=◌, or_fail, decimal, scan_int, scan_pair, split_by, skip, get_or,
  take, take_or, replicate,
}
use bh_ticket_system.Base.Map.{Map, get, put, erase}
use bh_ticket_system.Hash.{split_mix64_hash}
use bh_ticket_system.Date.{get_compact_date, print_full_time_stamp}
use bh_ticket_system.Data.{CoreTrainData, StationNameData, TicketPriceData, SeatsData}
use bh_ticket_system.StopRegister.{Stops, no_offset, add_stop_info}
use bh_ticket_system.Transactions.{prepare_train_info}
use bh_ticket_system.Args.{
  Command, KeyAction, reads, checks, ignores, throws, parse_args, arguments,
}
use bh_ticket_system.Engine.{Engine, Handler, answer, refuse, accept}

-- The local variables of `AddTrain`. `stopover_times` is filled from place 1 on.
pub record TrainArgs : Type 0 where
  pub train_id : Bytes
  pub station_num : ℕ
  pub seat_num : ℕ
  pub stations : List Bytes
  pub prices : List ℕ
  pub start_time : ℕ
  pub travel_times : List ℕ
  pub stopover_times : List ℕ
  pub sale_date_begin : ℕ
  pub sale_date_end : ℕ
  pub type : Bytes

abbrev pub no_train_args : TrainArgs
no_train_args = record {
  train_id = [];
  station_num = 0;
  seat_num = 0;
  stations = [];
  prices = [];
  start_time = 0;
  travel_times = [];
  stopover_times = [];
  sale_date_begin = 0;
  sale_date_end = 0;
  type = [];
}

-- `hh:mm` as minutes.
scan_time : Bytes → ℕ
unfolding scan_pair
scan_time v = let (hh, mm) = scan_pair b':' v in hh * 60 + mm

-- `mm-dd`
unfoldable pub scan_date : Bytes → ℕ
unfolding scan_pair get_compact_date
scan_date v = let (mm, dd) = scan_pair b'-' v in get_compact_date mm dd

-- The numbers between bars.
scan_list : Bytes → List ℕ
unfolding scan_int split_by
scan_list v = map scan_int (split_by b'|' v)

-- `sscanf("%d-%d|%d-%d")`: the text behind the bar is the second date.
second_field : Bytes → Bytes
unfolding split_by
second_field v = get_or (split_by b'|' v) 1 []

-- `-d`: the first month may not lie before June, nor the second behind August.
sale_dates : Bytes → TrainArgs → Result TrainArgs
unfolding scan_date second_field
sale_dates v a =
    if ltb (scan_pair b'-' v).0 6 || ltb 8 (scan_pair b'-' (second_field v)).0
    then err runtime_error
    else ok (record a { sale_date_begin = scan_date v; sale_date_end = scan_date (second_field v) })

-- The `switch` of `AddTrain`.
unfoldable pub train_keys : ℕ → KeyAction TrainArgs
unfolding scan_time scan_list sale_dates
train_keys c =
    if c == b'i'
    then reads (λ v a. record a { train_id = v })
    else if c == b'n'
    then reads (λ v a. record a { station_num = scan_int v })
    else if c == b'm'
    then reads (λ v a. record a { seat_num = scan_int v })
    else if c == b's'
    then reads (λ v a. record a { stations = split_by b'|' v })
    else if c == b'p'
    then reads (λ v a. record a { prices = scan_list v })
    else if c == b'x'
    then reads (λ v a. record a { start_time = scan_time v })
    else if c == b't'
    then reads (λ v a. record a { travel_times = scan_list v })
    else if c == b'o'
    then reads (λ v a. record a { stopover_times = 0 ∷ scan_list v })
    else if c == b'd'
    then checks sale_dates
    else if c == b'y'
    then reads (λ v a. record a { type = v })
    else throws runtime_error

-- What `AddTrain` stores. `seatNum` has 18 bits, `startTime` 12, the dates 10 and `type` 6; the
-- times are `uint16_t` and the number of stations a `uint8_t`.
pub core_train_of : TrainArgs → CoreTrainData
core_train_of a = record {
  train_id = a.train_id;
  station_num = a.station_num % 2 ^ 8;
  stations_hash = map split_mix64_hash (take_or a.station_num a.stations []);
  seat_num = a.seat_num % 2 ^ 18;
  start_time = a.start_time % 2 ^ 12;
  sale_date_beg = a.sale_date_begin % 2 ^ 10;
  sale_date_end = a.sale_date_end % 2 ^ 10;
  type = (get_or a.type 0 0 + 2 ^ 8 - b'A') % 2 ^ 6;
  is_released = 0;
  travel_time = map (λ t. t % 2 ^ 16) (take_or (a.station_num - 1) a.travel_times 0);
  stopover_time = map (λ t. t % 2 ^ 16) (take_or (a.station_num - 1) a.stopover_times 0);
}

-- A name is cut at 40 bytes: longer ones run into the next row.
pub station_names_of : TrainArgs → StationNameData
station_names_of a = record { name = take_or a.station_num a.stations [] }

pub ticket_prices_of : TrainArgs → TicketPriceData
ticket_prices_of a = record {
  train_id = a.train_id;
  price = take_or (a.station_num - 1) a.prices 0;
}

-- All seats are free from every station to the next.
pub seats_of : CoreTrainData → SeatsData
seats_of core = record {
  seat = replicate (core.station_num - 1) core.seat_num;
  max_seats = core.seat_num;
}

-- `saleDate_end - saleDate_beg + 1`; a loop up to a negative number has no round.
abbrev pub day_count : CoreTrainData → ℕ
day_count core = core.sale_date_end + 1 - core.sale_date_beg

abbrev pub Seats : Type 0
Seats = Map (ℕ × ℕ) SeatsData

-- The loops over the days from `i` on. The day's number in a key is a `uint8_t`.
unfoldable pub put_days : ℕ → ℕ → ℕ → SeatsData → Seats → Seats
put_days train zero i d m = m
put_days train (suc days) i d m = put_days train days (i + 1) d (put (train, i % 2 ^ 8) d m)

unfoldable pub remove_days : ℕ → ℕ → ℕ → Seats → Seats
remove_days train zero i m = m
remove_days train (suc days) i m = remove_days train days (i + 1) (erase (train, i % 2 ^ 8) m)

unfoldable pub add_train_with : TrainArgs → Handler
unfolding core_train_of station_names_of ticket_prices_of seats_of put_days
add_train_with a s command =
    let train = split_mix64_hash a.train_id in
    let core = core_train_of a in
    elim (get train s.ticket_price_data_storage) [
      | some _ ↦ refuse s command
      | none ↦
          accept
            (record s {
              ticket_price_data_storage =
                  put train (ticket_prices_of a) s.ticket_price_data_storage;
              core_train_data_storage = put train core s.core_train_data_storage;
              station_name_data_storage =
                  put train (station_names_of a) s.station_name_data_storage;
              seats_data_storage =
                  put_days train (day_count core) 0 (seats_of core) s.seats_data_storage;
            })
            command
    ]

unfoldable pub add_train : Handler
unfolding add_train_with train_keys
add_train s command =
    parse_args train_keys no_train_args (arguments command) >>= λ a. add_train_with a s command

-- `DeleteTrain` and `ReleaseTrain` read `-i` and pass over everything else.
unfoldable pub train_id_keys : ℕ → KeyAction Bytes
train_id_keys c = if c == b'i' then reads (λ v a. v) else ignores

unfoldable pub delete_train_with : Bytes → Handler
unfolding remove_days
delete_train_with train_id s command =
    let train = split_mix64_hash train_id in
    elim (get train s.core_train_data_storage) [
      | none ↦ refuse s command
      | some core ↦
          if core.is_released == 1
          then refuse s command
          else accept
              (record s {
                core_train_data_storage = erase train s.core_train_data_storage;
                ticket_price_data_storage = erase train s.ticket_price_data_storage;
                station_name_data_storage = erase train s.station_name_data_storage;
                seats_data_storage = remove_days train (day_count core) 0 s.seats_data_storage;
              })
              command
    ]

unfoldable pub delete_train : Handler
unfolding delete_train_with train_id_keys
delete_train s command = parse_args train_id_keys [] (arguments command) >>= λ train_id.
    delete_train_with train_id s command
