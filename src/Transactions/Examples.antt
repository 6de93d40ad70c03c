-- ===== src/Transactions/Examples.antt =====
-- src/include/transaction_mainenance.hpp: the queue of the examples, which one order has left.
use bh_ticket_system.Base.{
  ℕ, ◌≡◌, ◌%◌, ◌^◌, refl, List, [], ◌∷◌, some, get_elem?, length, codes, ◌-◌, ◌≤◌, arith, Result,
  err, ok,
}
use bh_ticket_system.Base.Index.{Entries, lower_bound}
use bh_ticket_system.Transactions.{
  QueueKey, TransactionManager, queue_key, queue_special_id, queue_order, fetch_queue, add_order,
  fetch_full_user_order_history, fetch_single_user_order_history, prepare_user_info,
}
use bh_ticket_system.Transactions.Fetching.{Stands, fetch_queue-Stands}
use bh_ticket_system.Transactions.History.{
  HistoryOf, numbered, fetch_user_order_history-HistoryOf, add_order-HistoryOf,
  prepare_user_info-HistoryOf,
}
use bh_ticket_system.Stage.{hash_u, queueing, six_seats}
use bh_ticket_system.Hash.{split_mix64_hash}

-- Two orders were put into the queue, and the first one has left it.
abbrev one_left : TransactionManager
one_left = record {
  orders = [];
  queue = (queue_key 5 0 0, 2) ∷ (queue_key 5 0 2, 7) ∷ [];
  order_history = [];
}

abbrev with_zeros : List (ℕ × ℕ)
with_zeros = (7, 2) ∷ (0, 0) ∷ []

fetch_queue-Stands_example :
    (counter : QueueKey × ℕ) × (it : Entries QueueKey ℕ) × (lower_bound
        (queue_key 5 0 queue_special_id)
        one_left.queue
      ≡ counter ∷ it)
    × (length with_zeros ≡ counter.1)
    × ((i : ℕ) (x : ℕ × ℕ) → get_elem? with_zeros i ≡ some x → Stands 5 (0 % 2 ^ 8) it i x)
unfolding fetch_queue lower_bound
fetch_queue-Stands_example = fetch_queue-Stands 5 0 one_left with_zeros refl

-- The history of the user of the examples, who has ordered twice.
two_orders : HistoryOf hash_u (2 ∷ 1 ∷ []) queueing.transaction_manager.order_history
unfolding numbered
two_orders = record {
  before = [];
  after = [];
  parts = refl;
  below = tt;
  above = tt;
  few = omega arith;
}

fetch_user_order_history-HistoryOf_example :
    (fetch_full_user_order_history hash_u queueing.transaction_manager ≡ ok (2 ∷ 1 ∷ []))
    × ((n : ℕ)
        → 1 ≤ n
        → fetch_single_user_order_history hash_u n queueing.transaction_manager
          ≡ ok (get_elem? (2 ∷ 1 ∷ []) (n - 1)))
fetch_user_order_history-HistoryOf_example =
    fetch_user_order_history-HistoryOf hash_u (2 ∷ 1 ∷ []) queueing.transaction_manager two_orders

abbrev manager_of : Result TransactionManager → TransactionManager
manager_of (ok m) = m
manager_of (err e) = one_left

add_order-HistoryOf_example :
    HistoryOf hash_u
      (3 ∷ 2 ∷ 1 ∷ [])
      (manager_of (add_order six_seats (codes "u") queueing.transaction_manager)).order_history
unfolding add_order split_mix64_hash lower_bound
add_order-HistoryOf_example =
    add_order-HistoryOf six_seats (codes "u") (2 ∷ 1 ∷ []) queueing.transaction_manager
      (manager_of (add_order six_seats (codes "u") queueing.transaction_manager)) refl (omega arith)
      two_orders

prepare_user_info-HistoryOf_example :
    HistoryOf 5 [] (prepare_user_info 5 queueing.transaction_manager).order_history
prepare_user_info-HistoryOf_example =
    prepare_user_info-HistoryOf 5 [] queueing.transaction_manager.order_history
      queueing.transaction_manager refl tt (omega arith, (omega arith, (omega arith, tt)))
