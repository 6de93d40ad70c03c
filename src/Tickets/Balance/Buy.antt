-- ===== src/Tickets/Balance/Buy.antt =====
-- src/transaction_system.cpp: buying keeps the seats and the orders in balance.
use bh_ticket_system.Base.{
  ℕ, ◌+◌, ◌%◌, ◌^◌, ◌≤◌, ◌<◌, ◌≡◌, refl, sym, ◌⊎◌, inl, inr, some, [], ◌∷◌, ◌++◌, ltb, pair_eq,
  hash_eq, arith, ok, Bytes, Bool-cases, Option-cases, Result-cases, bytes_eq, codes, ◌||◌,
}
use mathlib.Core.Path.{subst, subst₃}
use bh_ticket_system.Base.Map.{get, put}
use bh_ticket_system.Hash.{split_mix64_hash}
use bh_ticket_system.Data.{TransactionData, SeatsData, DirectTrainInfo}
use bh_ticket_system.Transactions.{TransactionManager, add_order}
use bh_ticket_system.StopRegister.{request_single_train}
use bh_ticket_system.StopRegister.Bounds.{SmallIds, request_single_train-SmallIds}
use bh_ticket_system.Args.{Command}
use bh_ticket_system.Engine.{Engine}
use bh_ticket_system.Seats.{available_seats, take_seats, total_price}
use bh_ticket_system.Tickets.Buy.{BuyArgs, new_order, day_offset, buy_on, buy_ticket_with}
use bh_ticket_system.Tickets.Balance.{
  share, sold, sold-append, Balanced, Balanced-take, Balanced-same,
}

-- The order is written behind the others.
pub orders-add_order :
    (x : TransactionData) (user : Bytes) (m m' : TransactionManager)
    → add_order x user m ≡ ok m'
    → m'.orders ≡ m.orders ++ x ∷ []
unfolding add_order
orders-add_order x user m m' e = ground arith

-- One who waits holds no seat.
share-pending :
    (train day i : ℕ) (a : BuyArgs) (info : DirectTrainInfo) (price : ℕ)
    → share train day i (new_order a info 0 price) ≡ 0
unfolding new_order
share-pending train day i a info price = refl

-- The states in which `BuyTicket` may leave the engine, once it is known that the train runs.
Buys : BuyArgs → DirectTrainInfo → SeatsData → ℕ → Engine → Engine → Type 0
Buys a info seats price s s' =
    (s' ≡ s)
    ⊎ ((m : TransactionManager) × (add_order (new_order a info 0 price) a.user_name
            s.transaction_manager
          ≡ ok m)
        × (s' ≡ record s { transaction_manager = m }))
    ⊎ ((m : TransactionManager) × (a.ticket_num
          ≤ available_seats seats.seat info.from_stop_id info.to_stop_id)
        × (add_order (new_order a info 1 price) a.user_name s.transaction_manager ≡ ok m)
        × (s' ≡ record s {
          transaction_manager = m;
          seats_data_storage =
              put (split_mix64_hash a.train_id, day_offset info)
                (record seats {
                  seat = take_seats seats.seat info.from_stop_id info.to_stop_id a.ticket_num;
                })
                s.seats_data_storage;
        }))

buy_on-Buys :
    (a : BuyArgs) (info : DirectTrainInfo) (seats : SeatsData) (price : ℕ) (s s' : Engine)
    (command : Command) (r : Bytes)
    → buy_on a info seats price s command ≡ ok (s', r)
    → Buys a info seats price s s'
unfolding buy_on Buys
buy_on-Buys a info seats price s s' command r e =
    elim (Bool-cases
      (ltb (available_seats seats.seat info.from_stop_id info.to_stop_id) a.ticket_num)) [
        | inl short ↦
            elim (Bool-cases
              (bytes_eq a.accept_queue (codes "false") || ltb seats.max_seats a.ticket_num)) [
                | inl refused ↦ inl (ground arith)
                | inr queues ↦
                    elim (Result-cases
                      (add_order (new_order a info 0 price) a.user_name s.transaction_manager)) [
                        | inl (m, queued) ↦ inr (inl (m, queued, ground arith))
                        | inr (_, failed) ↦ ground arith
                      ]
              ]
        | inr enough ↦
            elim (Result-cases
              (add_order (new_order a info 1 price) a.user_name s.transaction_manager)) [
                | inl (m, bought) ↦ inr (inr (m, ground arith, bought, ground arith))
                | inr (_, failed) ↦ ground arith
              ]
      ]

sold-add_order :
    (t d i : ℕ) (x : TransactionData) (user : Bytes) (m m' : TransactionManager)
    → add_order x user m ≡ ok m'
    → sold t d i m'.orders ≡ sold t d i m.orders + share t d i x
sold-add_order t d i x user m m' e =
    rw (orders-add_order x user m m' e) (sold-append t d i m.orders x)

-- The seats of every train and day are in balance.
abbrev pub EngineBalanced : Engine → Type 0
EngineBalanced s = Balanced s.transaction_manager.orders s.seats_data_storage

module _ (a : BuyArgs) (info : DirectTrainInfo) (seats : SeatsData) (price : ℕ) (s : Engine)
    (n_small : a.ticket_num < 2 ^ 32) (from_small : info.from_stop_id < 2 ^ 8)
    (to_small : info.to_stop_id < 2 ^ 8)
    (found : get (split_mix64_hash a.train_id, day_offset info) s.seats_data_storage ≡ some seats)
    (b : EngineBalanced s) where
  queued-Balanced :
      (m : TransactionManager)
      → add_order (new_order a info 0 price) a.user_name s.transaction_manager ≡ ok m
      → EngineBalanced (record s { transaction_manager = m })
  queued-Balanced m e =
      Balanced-same s.transaction_manager.orders m.orders s.seats_data_storage
        (λ t d i.
          let grown = sold-add_order t d i _ a.user_name s.transaction_manager m e in
          let none_held = share-pending t d i a info price in omega arith)
        b

  bought-Balanced :
      (m : TransactionManager)
      → a.ticket_num ≤ available_seats seats.seat info.from_stop_id info.to_stop_id
      → add_order (new_order a info 1 price) a.user_name s.transaction_manager ≡ ok m
      → Balanced m.orders (
          put
            (split_mix64_hash a.train_id, day_offset info)
            (record seats {
              seat = take_seats seats.seat info.from_stop_id info.to_stop_id a.ticket_num;
            })
            s.seats_data_storage)
  unfolding new_order
  bought-Balanced m enough e =
      let f : info.from_stop_id % 2 ^ 8 ≡ info.from_stop_id = omega arith in
      let t : info.to_stop_id % 2 ^ 8 ≡ info.to_stop_id = omega arith in
      let n : a.ticket_num % 2 ^ 32 ≡ a.ticket_num = omega arith in
      subst₃
        (λ (f t n : ℕ). Balanced m.orders (
          put (split_mix64_hash a.train_id, day_offset info)
            (record seats { seat = take_seats seats.seat f t n }) s.seats_data_storage))
        f t n
        (Balanced-take _ _ (new_order a info 1 price) s.transaction_manager.orders m.orders
          s.seats_data_storage seats (inr (refl, refl)) refl b found (rw (f, t, n) enough)
          (λ t d i. sold-add_order t d i _ a.user_name s.transaction_manager m e))

  -- `BuyTicket` behind the test that the train runs.
  pub buy_on-Balanced :
      (s' : Engine) (command : Command) (r : Bytes)
      → buy_on a info seats price s command ≡ ok (s', r)
      → EngineBalanced s'
  unfolding Buys
  buy_on-Balanced s' command r e = elim (buy_on-Buys a info seats price s s' command r e) [
    | inl same ↦ subst EngineBalanced (sym same) b
    | inr (inl (m, queued, same)) ↦ subst EngineBalanced (sym same) (queued-Balanced m queued)
    | inr (inr (m, enough, bought, same)) ↦
        subst EngineBalanced (sym same) (bought-Balanced m enough bought)
  ]

-- `BuyTicket` keeps the free seats of every train and day in balance with the orders: on each part
-- of the way the free seats and those that paid orders hold make up the seats of the train. This
-- holds whether the tickets are sold, the order waits or is refused, for a number of tickets that
-- fits in 32 bits and stops that are numbered by bytes.
pub buy_ticket_with-Balanced :
    (a : BuyArgs) (s s' : Engine) (command : Command) (r : Bytes)
    → a.ticket_num < 2 ^ 32
    → SmallIds s.stop_register
    → EngineBalanced s
    → buy_ticket_with a s command ≡ ok (s', r)
    → EngineBalanced s'
unfolding buy_ticket_with
buy_ticket_with-Balanced a s s' command r n_small ids b e =
    elim (Option-cases (get (split_mix64_hash a.user_name) s.online_users)) [
      | inl offline ↦ (let same : s ≡ s' = ground arith in subst EngineBalanced same b)
      | inr (_, online) ↦
          elim (Option-cases (
            request_single_train (split_mix64_hash a.train_id) a.date (split_mix64_hash a.from)
              (split_mix64_hash a.to) s.stop_register)) [
                | inl no_train ↦ (let same : s ≡ s' = ground arith in subst EngineBalanced same b)
                | inr (info, runs) ↦
                    elim (Option-cases
                      (get (split_mix64_hash a.train_id) s.ticket_price_data_storage)) [
                        | inl no_prices ↦ absurd (ground arith)
                        | inr (prices, priced) ↦
                            elim (Option-cases (
                              get (split_mix64_hash a.train_id, day_offset info)
                                s.seats_data_storage)) [
                                  | inl no_seats ↦ absurd (ground arith)
                                  | inr (seats, found) ↦
                                      let small =
                                        request_single_train-SmallIds _ _ _ _ s.stop_register info
                                          ids runs in
                                      buy_on-Balanced a info seats
                                        (total_price prices.price info.from_stop_id info.to_stop_id)
                                        s n_small small.0 small.1 found b s' command r
                                        (ground arith)
                                ]
                      ]
              ]
    ]
