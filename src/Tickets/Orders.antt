-- ===== src/Tickets/Orders.antt =====
-- src/transaction_system.cpp: `QueryOrder` lists the orders of a user, the newest first.
use bh_ticket_system.Base.{
  ℕ, ◌/◌, none, some, List, [], ◌∷◌, ◌++◌, Bytes, codes, ◌==◌, if◌then◌else◌, hash_eq, Result, ok,
  ◌>>=◌, decimal, length,
}
use bh_ticket_system.Base.Map.{get}
use bh_ticket_system.Hash.{split_mix64_hash}
use bh_ticket_system.Data.{TransactionData}
use bh_ticket_system.Transactions.{
  TransactionManager, fetch_full_user_order_history, fetch_transaction_data,
}
use bh_ticket_system.Args.{KeyAction, reads, ignores, parse_args, arguments}
use bh_ticket_system.Engine.{Handler, answer, refuse}
use bh_ticket_system.Tickets.{journey_line}

unfoldable pub order_keys : ℕ → KeyAction Bytes
order_keys c = if c == b'u' then reads (λ v a. v) else ignores

abbrev pub status_text : ℕ → Bytes
status_text status =
    if status == 0
    then codes "pending] "
    else if status == 1
    then codes "success] "
    else codes "refunded] "

order_line : TransactionData → Bytes
unfolding journey_line
order_line d =
    codes "\n["
    ++ status_text d.status
    ++ journey_line d.train_id d.from_station_name d.leave_time_stamp d.to_station_name
        d.arrive_time_stamp (d.total_price / d.num) d.num

unfoldable pub fetch_orders : List ℕ → TransactionManager → Result (List TransactionData)
unfolding fetch_transaction_data
fetch_orders [] m = ok []
fetch_orders (place ∷ places) m =
    fetch_transaction_data place m >>= λ d. fetch_orders places m >>= λ ds. ok (d ∷ ds)

order_lines : List TransactionData → Bytes
unfolding order_line
order_lines [] = []
order_lines (d ∷ ds) = order_line d ++ order_lines ds

unfoldable pub query_order_with : Bytes → Handler
unfolding fetch_full_user_order_history fetch_orders order_lines
query_order_with user_name s command =
    let user = split_mix64_hash user_name in
    elim (get user s.online_users) [
      | none ↦ refuse s command
      | some _ ↦ fetch_full_user_order_history user s.transaction_manager >>= λ places.
          fetch_orders places s.transaction_manager >>= λ ds.
          answer s command (decimal (length places) ++ order_lines ds)
    ]

unfoldable pub query_order : Handler
unfolding query_order_with order_keys
query_order s command = parse_args order_keys [] (arguments command) >>= λ user_name.
    query_order_with user_name s command
