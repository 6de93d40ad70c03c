-- ===== src/Tickets/Balance/Examples.antt =====
-- src/transaction_system.cpp: runs of `BuyTicket` and `RefundTicket` that the balance is about.
use bh_ticket_system.Base.{
  ℕ, zero, suc, ◌<◌, ◌≤◌, ◌≡◌, refl, inl, inr, Option, none, some, List, [], ◌∷◌, Bytes, codes,
  Result, ok, err, arith, get_elem?, pair_eq, get_or, ◌+◌,
}
use bh_ticket_system.Base.Map.{get}
use bh_ticket_system.Hash.{split_mix64_hash}
use bh_ticket_system.Data.{TransactionData}
use bh_ticket_system.Transactions.{fetch_queue}
use bh_ticket_system.Tickets.Buy.{BuyArgs, buy_ticket_with}
use bh_ticket_system.Tickets.Refund.{RefundArgs, refund_ticket_with}
use bh_ticket_system.Tickets.Balance.{IsFor, Balanced, Balanced-put, sold}
use bh_ticket_system.Tickets.Balance.Buy.{EngineBalanced, buy_ticket_with-Balanced}
use bh_ticket_system.Tickets.Balance.Refund.{refund_ticket_with-Balanced, KnownOrders, QueuesFor}
use bh_ticket_system.Stage.{
  hash_T, header, on_sale, six_seats, five_seats, queueing, state_of, response_of,
}

abbrev buy_six : BuyArgs
buy_six = record {
  user_name = codes "u";
  train_id = codes "T";
  date = 152;
  from = codes "A";
  to = codes "C";
  ticket_num = 6;
  accept_queue = codes "true";
}

all_free : (i : ℕ) → i < 2 → get_or (10 ∷ 10 ∷ []) i 0 + sold hash_T 0 i (header ∷ []) ≡ 10
unfolding sold
all_free zero h = refl
all_free (suc zero) h = refl
all_free (suc (suc i)) h = absurd (omega arith)

nothing-Balanced : (orders : List TransactionData) → Balanced orders []
unfolding get
nothing-Balanced orders t d x e = cc

on_sale-Balanced : EngineBalanced on_sale
unfolding bh_ticket_system.Base.Map.put
on_sale-Balanced =
    Balanced-put hash_T 0 (header ∷ []) (header ∷ []) []
      (record { seat = 10 ∷ 10 ∷ []; max_seats = 10 }) (nothing-Balanced (header ∷ []))
      (record { full = all_free; in_range = omega arith }) (λ t d. inr (λ i. refl))

buy_ticket_with-Balanced_example : EngineBalanced (state_of (buy_ticket_with buy_six on_sale []))
unfolding buy_ticket_with split_mix64_hash get bh_ticket_system.StopRegister.request_single_train
    bh_ticket_system.Base.Index.lower_bound bh_ticket_system.Transactions.add_order
buy_ticket_with-Balanced_example =
    buy_ticket_with-Balanced buy_six on_sale (state_of (buy_ticket_with buy_six on_sale [])) []
      (response_of (buy_ticket_with buy_six on_sale [])) (omega arith)
      (omega arith, (omega arith, (omega arith, (omega arith, tt)))) on_sale-Balanced refl

abbrev refund_six : RefundArgs
refund_six = record { user_name = codes "u"; order = 2 }

abbrev three_orders : List TransactionData
three_orders = header ∷ six_seats ∷ five_seats ∷ []

six_taken : (i : ℕ) → i < 2 → get_or (4 ∷ 4 ∷ []) i 0 + sold hash_T 0 i three_orders ≡ 10
unfolding sold split_mix64_hash
six_taken zero h = refl
six_taken (suc zero) h = refl
six_taken (suc (suc i)) h = absurd (omega arith)

queueing-Balanced : EngineBalanced queueing
unfolding bh_ticket_system.Base.Map.put
queueing-Balanced =
    Balanced-put hash_T 0 three_orders three_orders []
      (record { seat = 4 ∷ 4 ∷ []; max_seats = 10 }) (nothing-Balanced three_orders)
      (record { full = six_taken; in_range = omega arith }) (λ t d. inr (λ i. refl))

queueing-KnownOrders : KnownOrders three_orders
queueing-KnownOrders zero x e = ground arith
queueing-KnownOrders (suc zero) x e = ground arith
queueing-KnownOrders (suc (suc zero)) x e = ground arith
queueing-KnownOrders (suc (suc (suc i))) x e = cc

five_seats-IsFor : IsFor hash_T 0 five_seats
unfolding split_mix64_hash
five_seats-IsFor = inr (refl, refl)

queueing-QueuesFor : QueuesFor queueing.transaction_manager
unfolding fetch_queue bh_ticket_system.Base.Index.lower_bound split_mix64_hash
queueing-QueuesFor train day q h e = ground arith

refund_ticket_with-Balanced_example :
    EngineBalanced (state_of (refund_ticket_with refund_six queueing []))
unfolding refund_ticket_with split_mix64_hash get bh_ticket_system.Base.Index.lower_bound
refund_ticket_with-Balanced_example =
    refund_ticket_with-Balanced refund_six queueing
      (state_of (refund_ticket_with refund_six queueing [])) []
      (response_of (refund_ticket_with refund_six queueing [])) queueing-KnownOrders
      queueing-QueuesFor queueing-Balanced refl
