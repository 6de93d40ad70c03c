-- ===== src/Trains/Query.antt =====
-- src/train_system.cpp: `QueryTrain` prints the timetable of a train for one day.
use bh_ticket_system.Base.{
  ℕ, zero, suc, ◌+◌, ◌-◌, ◌*◌, ◌%◌, ◌^◌, ◌||◌, List, none, some, [], ◌∷◌, ◌++◌, Bytes, codes, ltb,
  ◌==◌, if◌then◌else◌, hash_eq, pair_eq, get_or, take, runtime_error, ◌>>=◌, or_fail, decimal,
}
use bh_ticket_system.Base.Map.{get}
use bh_ticket_system.Hash.{split_mix64_hash}
use bh_ticket_system.Date.{print_full_time_stamp}
use bh_ticket_system.Data.{CoreTrainData}
use bh_ticket_system.Args.{KeyAction, reads, ignores, parse_args, arguments}
use bh_ticket_system.Engine.{Handler, answer, refuse}
use bh_ticket_system.Trains.{scan_date}

pub record QueryTrainArgs : Type 0 where
  pub train_id : Bytes
  pub date : ℕ

unfoldable pub query_train_keys : ℕ → KeyAction QueryTrainArgs
unfolding scan_date
query_train_keys c =
    if c == b'i'
    then reads (λ v a. record a { train_id = v })
    else if c == b'd'
    then reads (λ v a. record a { date = scan_date v })
    else ignores

-- One line of the timetable, without its line break: `cur_time` is the time of arrival.
stop_line : CoreTrainData → ℕ → ℕ → ℕ → ℕ → Bytes
unfolding print_full_time_stamp decimal
stop_line core i cur_time total_price seat =
    if i == 0
    then codes " xx-xx xx:xx -> "
      ++ print_full_time_stamp cur_time
      ++ codes " "
      ++ decimal total_price
      ++ codes " "
      ++ decimal seat
    else if ltb i (core.station_num - 1)
    then codes " "
      ++ print_full_time_stamp cur_time
      ++ codes " -> "
      ++ print_full_time_stamp (cur_time + get_or core.stopover_time i 0)
      ++ codes " "
      ++ decimal total_price
      ++ codes " "
      ++ decimal seat
    else codes " "
      ++ print_full_time_stamp cur_time
      ++ codes " -> xx-xx xx:xx "
      ++ decimal total_price
      ++ codes " x"

-- `cur_time` at the end of the round.
time_after : CoreTrainData → ℕ → ℕ → ℕ
time_after core i cur_time =
    let leaving : ℕ =
      if i == 0
      then cur_time
      else if ltb i (core.station_num - 1)
      then cur_time + get_or core.stopover_time i 0
      else cur_time in
    leaving + get_or core.travel_time i 0

-- The loop over the stops: `left` of them, from stop `i` on. A name ends at 40 bytes.
timetable : CoreTrainData → List Bytes → List ℕ → List ℕ → ℕ → ℕ → ℕ → ℕ → Bytes
unfolding stop_line time_after
timetable core names prices seats zero i cur_time total_price = []
timetable core names prices seats (suc left) i cur_time total_price =
    let line =
      take 40 (get_or names i []) ++ stop_line core i cur_time total_price (get_or seats i 0) in
    let is_last = i == core.station_num - 1 in
    let next_price : ℕ = if is_last then total_price else total_price + get_or prices i 0 in
    let rest =
      timetable core names prices seats left (i + 1) (time_after core i cur_time) next_price in
    line ++ (if is_last then rest else codes "\n" ++ rest)

unfoldable pub query_train_with : QueryTrainArgs → Handler
unfolding timetable
query_train_with a s command =
    let train = split_mix64_hash a.train_id in
    elim (get train s.core_train_data_storage) [
      | none ↦ refuse s command
      | some core ↦
          if ltb a.date core.sale_date_beg || ltb core.sale_date_end a.date
          then refuse s command
          else (or_fail (get train s.station_name_data_storage) runtime_error >>= λ stations.
              or_fail (get train s.ticket_price_data_storage) runtime_error >>= λ prices.
              or_fail (get (train, (a.date - core.sale_date_beg) % 2 ^ 8) s.seats_data_storage)
                runtime_error
              >>= λ seats. answer s command (
                  a.train_id
                  ++ codes " "
                  ++ ((core.type + b'A') ∷ codes "\n")
                  ++ timetable core stations.name prices.price seats.seat core.station_num 0
                      (a.date * 1440 + core.start_time) 0))
    ]

unfoldable pub query_train : Handler
unfolding query_train_with query_train_keys
query_train s command =
    parse_args query_train_keys (record { train_id = []; date = 0 }) (arguments command) >>= λ a.
    query_train_with a s command
