-- ===== src/Tickets/Transfer.antt =====
-- src/transaction_system.cpp: `QueryTransfer` and `CheckTransfer`, a journey on two trains.
pub mod Search
pub mod Best
pub mod Examples
use bh_ticket_system.Base.{
  ℕ, zero, suc, ◌+◌, ◌-◌, ◌*◌, ◌/◌, ◌%◌, ◌^◌, Bool, true, false, ◌||◌, Option, none, some, List, [],
  ◌∷◌, ◌++◌, Bytes, codes, bytes_lt, ltb, ◌==◌, if◌then◌else◌, hash_eq, pair_eq, get_or, take,
  Result, ok, err, runtime_error, ◌>>=◌, or_fail,
}
use bh_ticket_system.Base.Map.{Map, get, put}
use bh_ticket_system.Hash.{split_mix64_hash}
use bh_ticket_system.Data.{CoreTrainData, TicketPriceData}
use bh_ticket_system.StopRegister.{fetch_train_leaving_from, fetch_train_arriving_at}
use bh_ticket_system.Args.{parse_args, arguments}
use bh_ticket_system.Engine.{Engine, Handler, answer}
use bh_ticket_system.Seats.{available_seats}
use bh_ticket_system.Tickets.{TicketArgs, ticket_keys, no_ticket_args, journey_line}
use bh_ticket_system.Tickets.Transfer.Search.{Solution, check_transfer}

-- The inner loop, over the trains that arrive at the destination.
pub check_arriving :
    Engine → ℕ → List ℕ → ℕ → ℕ → ℕ → Bool → Option Solution → Result (Option Solution)
unfolding check_transfer
check_arriving s train1 [] from_hash to_hash date by_time best = ok best
check_arriving s train1 (train2 ∷ ts) from_hash to_hash date by_time best =
    check_transfer s train1 train2 from_hash to_hash date by_time best >>= λ r.
    check_arriving s train1 ts from_hash to_hash date by_time r

-- The outer loop, over the trains that leave on `date`.
pub check_leaving :
    Engine → List ℕ → List ℕ → ℕ → ℕ → ℕ → Bool → Option Solution → Result (Option Solution)
unfolding check_arriving
check_leaving s [] ts from_hash to_hash date by_time best = ok best
check_leaving s (train1 ∷ us) ts from_hash to_hash date by_time best =
    check_arriving s train1 ts from_hash to_hash date by_time best >>= λ r.
    check_leaving s us ts from_hash to_hash date by_time r

unfoldable pub find_transfer : TicketArgs → Engine → Result (Option Solution)
unfolding check_leaving fetch_train_leaving_from fetch_train_arriving_at
find_transfer a s =
    let from_hash = split_mix64_hash a.from in
    let to_hash = split_mix64_hash a.to in
    check_leaving s (fetch_train_leaving_from a.date from_hash s.stop_register)
      (fetch_train_arriving_at to_hash s.stop_register) from_hash to_hash a.date
      (get_or a.order_by 0 0 == b't') none

unfoldable pub query_transfer_with : TicketArgs → Handler
unfolding find_transfer journey_line
query_transfer_with a s command = find_transfer a s >>= λ found. elim found [
  | none ↦ answer s command (codes "0")
  | some r ↦ answer s command (
      journey_line r.train1_id a.from r.train1_leaving_time_stamp r.transfer_station_name
        r.train1_arriving_time_stamp r.train1_price r.train1_seat
      ++ codes "\n"
      ++ journey_line r.train2_id r.transfer_station_name r.train2_leaving_time_stamp a.to
          r.train2_arriving_time_stamp r.train2_price r.train2_seat)
]

unfoldable pub query_transfer : Handler
unfolding query_transfer_with ticket_keys
query_transfer s command = parse_args ticket_keys no_ticket_args (arguments command) >>= λ a.
    query_transfer_with a s command
