-- ===== src/Tickets/Refund.antt =====
-- src/transaction_system.cpp: `RefundTicket` gives seats back, and serves those who wait for them.
use bh_ticket_system.Base.{
  ℕ, none, some, List, [], ◌∷◌, Bytes, leb, ◌==◌, ◌!=◌, if◌then◌else◌, hash_eq, pair_eq, Result, ok,
  runtime_error, ◌>>=◌, or_fail, scan_int,
}
use bh_ticket_system.Base.Map.{get, put}
use bh_ticket_system.Hash.{split_mix64_hash}
use bh_ticket_system.Data.{TransactionData}
use bh_ticket_system.Transactions.{
  TransactionManager, fetch_single_user_order_history, fetch_transaction_data,
  update_transaction_data, fetch_queue, remove_order_from_queue,
}
use bh_ticket_system.Args.{KeyAction, reads, ignores, parse_args, arguments}
use bh_ticket_system.Engine.{Handler, refuse, accept}
use bh_ticket_system.Seats.{available_seats, take_seats, give_seats}

pub record RefundArgs : Type 0 where
  pub user_name : Bytes
  pub order : ℕ

unfoldable pub refund_keys : ℕ → KeyAction RefundArgs
refund_keys c =
    if c == b'u'
    then reads (λ v a. record a { user_name = v })
    else if c == b'n'
    then reads (λ v a. record a { order = scan_int v })
    else ignores

-- What the loop over the queue changes: the orders and their queue, and the seats of the day.
pub record Served : Type 0 where
  pub manager : TransactionManager
  pub seat : List ℕ

-- One round of the loop: the order at `place`, whose number in the queue is `id`.
unfoldable pub serve_order : ℕ → ℕ → ℕ × ℕ → Served → Result Served
unfolding fetch_transaction_data update_transaction_data remove_order_from_queue available_seats
    take_seats
serve_order train offset (place, id) v = fetch_transaction_data place v.manager >>= λ cur.
    if cur.status != 0
    then ok (record v { manager = remove_order_from_queue train offset id v.manager })
    else if leb cur.num (available_seats v.seat cur.from_stop_id cur.to_stop_id)
    then ok (record {
      manager =
          remove_order_from_queue train offset id
            (update_transaction_data place (record cur { status = 1 }) v.manager);
      seat = take_seats v.seat cur.from_stop_id cur.to_stop_id cur.num;
    })
    else ok v

unfoldable pub serve_queue : ℕ → ℕ → List (ℕ × ℕ) → Served → Result Served
unfolding serve_order
serve_queue train offset [] v = ok v
serve_queue train offset (q ∷ qs) v =
    serve_order train offset q v >>= λ v'. serve_queue train offset qs v'

-- The part behind the tests of the order's status: the order at `place` had its seats.
unfoldable pub refund_seats : TransactionData → TransactionManager → Handler
unfolding serve_queue fetch_queue give_seats
refund_seats d m s command =
    let train = split_mix64_hash d.train_id in
    let day : ℕ × ℕ = (train, d.running_date_offset) in
    or_fail (get day s.seats_data_storage) runtime_error >>= λ seats.
    let returned = give_seats seats.seat d.from_stop_id d.to_stop_id d.num in
    let stored = put day (record seats { seat = returned }) s.seats_data_storage in
    fetch_queue train d.running_date_offset m >>= λ queued.
    serve_queue train d.running_date_offset queued (record { manager = m; seat = returned })
    >>= λ v.
        accept
          (record s {
            transaction_manager = v.manager;
            seats_data_storage = put day (record seats { seat = v.seat }) stored;
          })
          command

-- The part behind the search for the order, which lies at `place`. Its status is changed before it
-- is tested.
unfoldable pub refund_at : ℕ → TransactionData → Handler
unfolding refund_seats update_transaction_data
refund_at place d s command =
    let m = update_transaction_data place (record d { status = 2 }) s.transaction_manager in
    if d.status == 2
    then refuse s command
    else if d.status == 0
    then accept (record s { transaction_manager = m }) command
    else refund_seats d m s command

unfoldable pub refund_ticket_with : RefundArgs → Handler
unfolding refund_at fetch_single_user_order_history fetch_transaction_data
refund_ticket_with a s command =
    let user = split_mix64_hash a.user_name in
    elim (get user s.online_users) [
      | none ↦ refuse s command
      | some _ ↦ fetch_single_user_order_history user a.order s.transaction_manager >>= λ found.
          elim found [
            | none ↦ refuse s command
            | some place ↦ fetch_transaction_data place s.transaction_manager >>= λ d.
                refund_at place d s command
          ]
    ]

unfoldable pub refund_ticket : Handler
unfolding refund_ticket_with refund_keys
refund_ticket s command =
    parse_args refund_keys (record { user_name = []; order = 1 }) (arguments command) >>= λ a.
    refund_ticket_with a s command
