-- ===== src/Tickets.antt =====
-- src/transaction_system.cpp: `QueryTicket` lists the trains between two stations on a day.
pub mod Buy
pub mod Refund
pub mod Orders
pub mod Transfer
pub mod Rounds
pub mod Examples
pub mod Listed
pub mod Sorted
pub mod Queue
pub mod Balance
use bh_ticket_system.Base.{
  ℕ, ◌+◌, ◌-◌, ◌%◌, ◌^◌, Bool, List, [], ◌∷◌, ◌++◌, Bytes, codes, bytes_eq, bytes_lt, ltb, ◌==◌,
  ◌!=◌, if◌then◌else◌, hash_eq, pair_eq, Result, ok, invalid_argument, runtime_error, ◌>>=◌,
  or_fail, decimal, length,
}
use bh_ticket_system.Base.Map.{get}
use bh_ticket_system.Hash.{split_mix64_hash}
use bh_ticket_system.Date.{print_full_time_stamp}
use bh_ticket_system.Data.{DirectTrainInfo, AdditionalTrainInfo}
use bh_ticket_system.StopRegister.{query_direct_trains}
use bh_ticket_system.Args.{KeyAction, reads, throws, parse_args, arguments}
use bh_ticket_system.Engine.{Engine, Handler, answer}
use bh_ticket_system.Trains.{scan_date}
use bh_ticket_system.Seats.{available_seats, total_price}

pub record TicketArgs : Type 0 where
  pub date : ℕ
  pub from : Bytes
  pub to : Bytes
  pub order_by : Bytes

-- The `switch` of `QueryTicket` and of `QueryTransfer`.
unfoldable pub ticket_keys : ℕ → KeyAction TicketArgs
unfolding scan_date
ticket_keys c =
    if c == b'd'
    then reads (λ v a. record a { date = scan_date v })
    else if c == b's'
    then reads (λ v a. record a { from = v })
    else if c == b't'
    then reads (λ v a. record a { to = v })
    else if c == b'p'
    then reads (λ v a. record a { order_by = v })
    else throws invalid_argument

abbrev pub no_ticket_args : TicketArgs
no_ticket_args = record { date = 0; from = []; to = []; order_by = codes "time" }

pub record FullTrainInfo : Type 0 where
  pub info : DirectTrainInfo
  pub extra : AdditionalTrainInfo

-- One round of the loop that retrieves the full data.
full_info : Engine → DirectTrainInfo → Result FullTrainInfo
unfolding available_seats total_price
full_info s info = do
  prices ← or_fail (get info.train_id_hash s.ticket_price_data_storage) runtime_error
  seats ←
      or_fail
        (get (info.train_id_hash, (info.actual_start_date - info.sale_date_beg) % 2 ^ 8)
          s.seats_data_storage)
        runtime_error
  ok (record {
    info = info;
    extra = record {
      train_id = prices.train_id;
      price = total_price prices.price info.from_stop_id info.to_stop_id;
      seats = available_seats seats.seat info.from_stop_id info.to_stop_id;
    };
  })

pub full_infos : Engine → List DirectTrainInfo → Result (List FullTrainInfo)
unfolding full_info
full_infos s [] = ok []
full_infos s (t ∷ ts) = full_info s t >>= λ i. full_infos s ts >>= λ is. ok (i ∷ is)

unfoldable pub time_cost : FullTrainInfo → ℕ
time_cost t = t.info.arrive_time_stamp - t.info.leave_time_stamp

-- The two functions `cmp`.
unfoldable pub cmp_time : FullTrainInfo → FullTrainInfo → Bool
unfolding time_cost
cmp_time a b =
    if time_cost a != time_cost b
    then ltb (time_cost a) (time_cost b)
    else bytes_lt a.extra.train_id b.extra.train_id

unfoldable pub cmp_price : FullTrainInfo → FullTrainInfo → Bool
cmp_price a b =
    if a.extra.price != b.extra.price
    then ltb a.extra.price b.extra.price
    else bytes_lt a.extra.train_id b.extra.train_id

-- `std::sort`: the standard fixes the result but for elements that neither precedes.
module _ {ℓ} {A : Type ℓ} (cmp : A → A → Bool) where
  unfoldable pub insert_sorted : A → List A → List A
  insert_sorted x [] = x ∷ []
  insert_sorted x (y ∷ ys) =
      let rest = insert_sorted x ys in if cmp y x then y ∷ rest else x ∷ y ∷ ys

  unfoldable pub sort : List A → List A
  unfolding insert_sorted
  sort [] = []
  sort (x ∷ xs) = insert_sorted x (sort xs)

-- `trainID from LEAVING -> to ARRIVING price seats`
unfoldable pub journey_line : Bytes → Bytes → ℕ → Bytes → ℕ → ℕ → ℕ → Bytes
unfolding print_full_time_stamp decimal
journey_line train from leave to arrive price seats =
    train
    ++ codes " "
    ++ from
    ++ codes " "
    ++ print_full_time_stamp leave
    ++ codes " -> "
    ++ to
    ++ codes " "
    ++ print_full_time_stamp arrive
    ++ codes " "
    ++ decimal price
    ++ codes " "
    ++ decimal seats

ticket_lines : Bytes → Bytes → List FullTrainInfo → Bytes
unfolding journey_line
ticket_lines from to [] = []
ticket_lines from to (t ∷ ts) =
    codes "\n"
    ++ journey_line t.extra.train_id from t.info.leave_time_stamp to t.info.arrive_time_stamp
        t.extra.price t.extra.seats
    ++ ticket_lines from to ts

-- The trains of the response, in its order.
unfoldable pub found_tickets : TicketArgs → Engine → Result (List FullTrainInfo)
unfolding full_infos cmp_time cmp_price sort query_direct_trains
found_tickets a s =
    full_infos s
      (query_direct_trains a.date (split_mix64_hash a.from) (split_mix64_hash a.to) s.stop_register)
    >>= λ ts.
        ok (if bytes_eq a.order_by (codes "time") then sort cmp_time ts else sort cmp_price ts)

unfoldable pub query_ticket_with : TicketArgs → Handler
unfolding found_tickets ticket_lines
query_ticket_with a s command = found_tickets a s >>= λ ts.
    answer s command (decimal (length ts) ++ ticket_lines a.from a.to ts)

unfoldable pub query_ticket : Handler
unfolding query_ticket_with ticket_keys
query_ticket s command =
    parse_args ticket_keys no_ticket_args (arguments command) >>= λ a. query_ticket_with a s command
