-- ===== src/Tickets/Buy.antt =====
-- src/transaction_system.cpp: `BuyTicket`.
use bh_ticket_system.Base.{
  ℕ, ◌-◌, ◌*◌, ◌%◌, ◌^◌, ◌||◌, none, some, [], Bytes, codes, bytes_eq, ltb, ◌==◌, if◌then◌else◌,
  hash_eq, pair_eq, runtime_error, ◌>>=◌, or_fail, decimal, scan_int,
}
use bh_ticket_system.Base.Map.{get, put}
use bh_ticket_system.Hash.{split_mix64_hash}
use bh_ticket_system.Data.{DirectTrainInfo, TransactionData, SeatsData}
use bh_ticket_system.StopRegister.{request_single_train}
use bh_ticket_system.Transactions.{add_order}
use bh_ticket_system.Args.{KeyAction, reads, ignores, parse_args, arguments}
use bh_ticket_system.Engine.{Handler, answer, refuse}
use bh_ticket_system.Trains.{scan_date}
use bh_ticket_system.Seats.{available_seats, total_price, take_seats}

pub record BuyArgs : Type 0 where
  pub user_name : Bytes
  pub train_id : Bytes
  pub date : ℕ
  pub from : Bytes
  pub to : Bytes
  pub ticket_num : ℕ
  pub accept_queue : Bytes

unfoldable pub buy_keys : ℕ → KeyAction BuyArgs
unfolding scan_date
buy_keys c =
    if c == b'u'
    then reads (λ v a. record a { user_name = v })
    else if c == b'i'
    then reads (λ v a. record a { train_id = v })
    else if c == b'd'
    then reads (λ v a. record a { date = scan_date v })
    else if c == b'f'
    then reads (λ v a. record a { from = v })
    else if c == b't'
    then reads (λ v a. record a { to = v })
    else if c == b'n'
    then reads (λ v a. record a { ticket_num = scan_int v })
    else if c == b'q'
    then reads (λ v a. record a { accept_queue = v })
    else ignores

abbrev pub no_buy_args : BuyArgs
no_buy_args = record {
  user_name = [];
  train_id = [];
  date = 0;
  from = [];
  to = [];
  ticket_num = 0;
  accept_queue = codes "false";
}

-- The day of the journey, counted from the first day of sale, as a `uint8_t`.
abbrev pub day_offset : DirectTrainInfo → ℕ
day_offset info = (info.actual_start_date - info.sale_date_beg) % 2 ^ 8

-- `total_price * (unsigned long long)ticket_num`
abbrev pub cost : ℕ → ℕ → ℕ
cost price n = price * n % 2 ^ 64

-- The record that `AddOrder` writes, its numbers in the fields' ranges.
unfoldable pub new_order : BuyArgs → DirectTrainInfo → ℕ → ℕ → TransactionData
new_order a info status price = record {
  train_id = a.train_id;
  from_station_name = a.from;
  to_station_name = a.to;
  status = status;
  leave_time_stamp = info.leave_time_stamp % 2 ^ 32;
  arrive_time_stamp = info.arrive_time_stamp % 2 ^ 32;
  num = a.ticket_num % 2 ^ 32;
  total_price = cost price a.ticket_num;
  running_date_offset = day_offset info;
  from_stop_id = info.from_stop_id % 2 ^ 8;
  to_stop_id = info.to_stop_id % 2 ^ 8;
}

-- The part behind the test that the train runs: `seats` are the seats of its day.
unfoldable pub buy_on : BuyArgs → DirectTrainInfo → SeatsData → ℕ → Handler
unfolding new_order available_seats take_seats
buy_on a info seats price s command =
    if ltb (available_seats seats.seat info.from_stop_id info.to_stop_id) a.ticket_num
    then if bytes_eq a.accept_queue (codes "false") || ltb seats.max_seats a.ticket_num
      then refuse s command
      else (add_order (new_order a info 0 price) a.user_name s.transaction_manager >>= λ m.
          answer (record s { transaction_manager = m }) command (codes "queue"))
    else (add_order (new_order a info 1 price) a.user_name s.transaction_manager >>= λ m.
        answer
          (record s {
            transaction_manager = m;
            seats_data_storage =
                put (split_mix64_hash a.train_id, day_offset info)
                  (record seats {
                    seat = take_seats seats.seat info.from_stop_id info.to_stop_id a.ticket_num;
                  })
                  s.seats_data_storage;
          })
          command (decimal (cost price a.ticket_num)))

unfoldable pub buy_ticket_with : BuyArgs → Handler
unfolding buy_on total_price
buy_ticket_with a s command =
    let train = split_mix64_hash a.train_id in
    elim (get (split_mix64_hash a.user_name) s.online_users) [
      | none ↦ refuse s command
      | some _ ↦
          elim (request_single_train train a.date (split_mix64_hash a.from) (split_mix64_hash a.to)
            s.stop_register) [
              | none ↦ refuse s command
              | some info ↦
                  or_fail (get train s.ticket_price_data_storage) runtime_error >>= λ prices.
                  or_fail (get (train, day_offset info) s.seats_data_storage) runtime_error
                  >>= λ seats.
                      buy_on a info seats
                        (total_price prices.price info.from_stop_id info.to_stop_id) s command
            ]
    ]

unfoldable pub buy_ticket : Handler
unfolding buy_ticket_with buy_keys
buy_ticket s command =
    parse_args buy_keys no_buy_args (arguments command) >>= λ a. buy_ticket_with a s command
