-- ===== src/Tickets/Rounds.antt =====
-- src/transaction_system.cpp: the rounds of the loop in which `RefundTicket` serves the queue.
use bh_ticket_system.Base.{
  ℕ, ◌≤◌, ◌<◌, ◌≡◌, ◌≢◌, ◌⊎◌, inl, inr, some, ◌!=◌, leb, get_elem?, pair_eq, hash_eq, arith, ok,
  Bool-cases, Option-cases,
}
use bh_ticket_system.Data.{TransactionData}
use bh_ticket_system.Transactions.{update_transaction_data, remove_order_from_queue}
use bh_ticket_system.Seats.{available_seats, take_seats}
use bh_ticket_system.Tickets.Refund.{Served, serve_order}

-- The state of the loop behind an order that gets its seats.
abbrev pub served : ℕ → ℕ → ℕ → ℕ → TransactionData → Served → Served
served train day place id cur v = record {
  manager =
      remove_order_from_queue train day id
        (update_transaction_data place (record cur { status = 1 }) v.manager);
  seat = take_seats v.seat cur.from_stop_id cur.to_stop_id cur.num;
}

-- What a round of the loop does.
unfoldable pub Serves : ℕ → ℕ → ℕ → ℕ → Served → Served → Type 0
Serves train day place id v v' =
    (cur : TransactionData) × (get_elem? v.manager.orders place ≡ some cur)
    × (((cur.status ≢ 0)
          × (v' ≡ record v { manager = remove_order_from_queue train day id v.manager }))
        ⊎ ((cur.status ≡ 0)
            × (cur.num ≤ available_seats v.seat cur.from_stop_id cur.to_stop_id)
            × (v' ≡ served train day place id cur v))
        ⊎ ((cur.status ≡ 0)
            × (available_seats v.seat cur.from_stop_id cur.to_stop_id < cur.num)
            × (v' ≡ v)))

pub serve_order-Serves :
    (train day place id : ℕ) (v v' : Served)
    → serve_order train day (place, id) v ≡ ok v'
    → Serves train day place id v v'
unfolding serve_order Serves
serve_order-Serves train day place id v v' e =
    elim (Option-cases (get_elem? v.manager.orders place)) [
      | inl nothing ↦ absurd (ground arith)
      | inr (cur, at_place) ↦ (
        cur,
        at_place,
        elim (Bool-cases (cur.status != 0)) [
          | inl gone ↦ inl (ground arith, ground arith)
          | inr waits ↦
              elim (Bool-cases
                (leb cur.num (available_seats v.seat cur.from_stop_id cur.to_stop_id))) [
                  | inl fits ↦ inr (inl (ground arith, ground arith, ground arith))
                  | inr short ↦ inr (inr (ground arith, ground arith, ground arith))
                ]
        ],
      )
    ]
