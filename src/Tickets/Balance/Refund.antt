-- ===== src/Tickets/Balance/Refund.antt =====
-- src/transaction_system.cpp: giving tickets back, and serving those who wait, keeps the seats and
-- the orders in balance.
use bh_ticket_system.Base.{
  ℕ, zero, suc, ◌+◌, ◌≤◌, ◌<◌, ◌≡◌, refl, sym, inl, inr, none, some, List, [], ◌∷◌, ◌==◌, get_elem?,
  set, pair_eq, hash_eq, arith, ok, Bytes, Bool-cases, Option-cases, Result-cases, or_fail,
  >>=-eq-ok, runtime_error, ◌^◌,
}
use mathlib.Core.Path.{subst}
use bh_ticket_system.Base.Map.{get, put, get-put_self, put-put}
use bh_ticket_system.Hash.{split_mix64_hash}
use bh_ticket_system.Data.{TransactionData, SeatsData}
use bh_ticket_system.Trains.{Seats}
use bh_ticket_system.Transactions.{
  TransactionManager, update_transaction_data, remove_order_from_queue, fetch_queue,
  fetch_single_user_order_history,
}
use bh_ticket_system.Args.{Command}
use bh_ticket_system.Engine.{Engine}
use bh_ticket_system.Seats.{available_seats, take_seats, give_seats}
use bh_ticket_system.Tickets.Refund.{
  RefundArgs, Served, serve_order, serve_queue, refund_seats, refund_at, refund_ticket_with,
}
use bh_ticket_system.Tickets.Balance.{
  share, sold, sold-set, Balanced, IsFor, Balanced-take, Balanced-give, Balanced-same,
}
use bh_ticket_system.Tickets.Balance.Buy.{EngineBalanced}
use bh_ticket_system.Tickets.Rounds.{Serves, serve_order-Serves}

-- The order at a place, if there is one, is for the train and the day.
abbrev pub PlaceIsFor : ℕ → ℕ → List TransactionData → ℕ → Type 0
PlaceIsFor train day orders place =
    (x : TransactionData) → get_elem? orders place ≡ some x → IsFor train day x

-- So it stays when an order's status changes.
PlaceIsFor-set_status :
    (train day place status p : ℕ) (orders : List TransactionData) (c : TransactionData)
    → get_elem? orders p ≡ some c
    → PlaceIsFor train day orders place
    → PlaceIsFor train day (set orders p (record c { status = status })) place
PlaceIsFor-set_status train day place status p [] c e f x found = cc
PlaceIsFor-set_status train day zero status zero (y ∷ ys) c e f x found = ground (arith, f y)
PlaceIsFor-set_status train day zero status (suc p) (y ∷ ys) c e f x found = f x found
PlaceIsFor-set_status train day (suc place) status zero (y ∷ ys) c e f x found = f x found
PlaceIsFor-set_status train day (suc place) status (suc p) (y ∷ ys) c e f x found =
    PlaceIsFor-set_status train day place status p ys c e f x found

module _ (train day : ℕ) (seats : SeatsData) (stored : Seats) where
  -- The balance in the middle of the loop, whose seats are not stored yet.
  abbrev LoopBalanced : Served → Type 0
  LoopBalanced v =
      Balanced v.manager.orders (put (train, day) (record seats { seat = v.seat }) stored)

  -- An order that waits no more, when it fits.
  take-LoopBalanced :
      (place : ℕ) (v : Served) (cur : TransactionData)
      → get_elem? v.manager.orders place ≡ some cur
      → IsFor train day cur
      → cur.status ≡ 0
      → cur.num ≤ available_seats v.seat cur.from_stop_id cur.to_stop_id
      → LoopBalanced v
      → Balanced (set v.manager.orders place (record cur { status = 1 })) (
          put
            (train, day)
            (record seats { seat = take_seats v.seat cur.from_stop_id cur.to_stop_id cur.num })
            stored)
  take-LoopBalanced place v cur at_place own pending fits b =
      subst (Balanced (set v.manager.orders place (record cur { status = 1 })))
        (put-put (train, day) _ _ stored)
        (Balanced-take train day (record cur { status = 1 }) v.manager.orders _
          (put (train, day) (record seats { seat = v.seat }) stored)
          (record seats { seat = v.seat }) own refl b (get-put_self (train, day) _ stored) fits
          (λ t d i.
            let changed =
              sold-set t d i place v.manager.orders cur (record cur { status = 1 }) at_place in
            let nothing : share t d i cur ≡ 0 = ground arith in omega arith))

  serve_order-Balanced :
      (place id : ℕ) (v v' : Served)
      → serve_order train day (place, id) v ≡ ok v'
      → PlaceIsFor train day v.manager.orders place
      → LoopBalanced v
      → LoopBalanced v'
  unfolding Serves remove_order_from_queue update_transaction_data
  serve_order-Balanced place id v v' e f b =
      let (cur, at_place, cases) = serve_order-Serves train day place id v v' e in
      elim cases [
        | inl (gone, same) ↦ subst LoopBalanced (sym same) b
        | inr (inl (waits, fits, same)) ↦
            subst LoopBalanced (sym same)
              (take-LoopBalanced place v cur at_place (f cur at_place) waits fits b)
        | inr (inr (waits, short, same)) ↦ subst LoopBalanced (sym same) b
      ]

-- So for all places of a queue.
abbrev pub AllFor : ℕ → ℕ → List TransactionData → List (ℕ × ℕ) → Type 0
AllFor train day orders [] = Unit {0}
AllFor train day orders ((place, id) ∷ qs) =
    PlaceIsFor train day orders place × AllFor train day orders qs

AllFor-set_status :
    (train day status p : ℕ) (orders : List TransactionData) (c : TransactionData)
    (qs : List (ℕ × ℕ))
    → get_elem? orders p ≡ some c
    → AllFor train day orders qs
    → AllFor train day (set orders p (record c { status = status })) qs
AllFor-set_status train day status p orders c [] e all = tt
AllFor-set_status train day status p orders c ((place, id) ∷ qs) e (f, all) = (
  PlaceIsFor-set_status train day place status p orders c e f,
  AllFor-set_status train day status p orders c qs e all,
)

serve_order-AllFor :
    (train day place id : ℕ) (v v' : Served) (qs : List (ℕ × ℕ))
    → serve_order train day (place, id) v ≡ ok v'
    → AllFor train day v.manager.orders qs
    → AllFor train day v'.manager.orders qs
unfolding Serves remove_order_from_queue update_transaction_data
serve_order-AllFor train day place id v v' qs e all =
    let For : Served → Type 0 = λ w. AllFor train day w.manager.orders qs in
    let (cur, at_place, cases) = serve_order-Serves train day place id v v' e in
    elim cases [
      | inl (gone, same) ↦ subst For (sym same) all
      | inr (inl (waits, fits, same)) ↦
          subst For (sym same)
            (AllFor-set_status train day 1 place v.manager.orders cur qs at_place all)
      | inr (inr (waits, short, same)) ↦ subst For (sym same) all
    ]

module _ (train day : ℕ) (seats : SeatsData) (stored : Seats) where
  serve_queue-Balanced :
      (qs : List (ℕ × ℕ)) (v v' : Served)
      → serve_queue train day qs v ≡ ok v'
      → AllFor train day v.manager.orders qs
      → LoopBalanced train day seats stored v
      → LoopBalanced train day seats stored v'
  unfolding serve_queue
  serve_queue-Balanced [] v v' e all b =
      let same : v ≡ v' = ground arith in subst (LoopBalanced train day seats stored) same b
  serve_queue-Balanced ((place, id) ∷ qs) v v' e (f, all) b =
      let (w, first, rest) = >>=-eq-ok (serve_order train day (place, id) v) _ e in
      serve_queue-Balanced qs w v' rest (serve_order-AllFor train day place id v w qs first all)
        (serve_order-Balanced train day seats stored place id v w first f b)

-- `RefundTicket` behind the tests of the order's status.
refund_seats-Balanced :
    (d : TransactionData) (m : TransactionManager) (s s' : Engine) (command : Command) (r : Bytes)
    → refund_seats d m s command ≡ ok (s', r)
    → d.status ≡ 1
    → EngineBalanced s
    → ((t o i : ℕ) → sold t o i m.orders + share t o i d ≡ sold t o i s.transaction_manager.orders)
    → ((q : List (ℕ × ℕ))
        → fetch_queue (split_mix64_hash d.train_id) d.running_date_offset m ≡ ok q
        → AllFor (split_mix64_hash d.train_id) d.running_date_offset m.orders q)
    → EngineBalanced s'
unfolding refund_seats
refund_seats-Balanced d m s s' command r e paid b less queues =
    let train = split_mix64_hash d.train_id in
    let day : ℕ × ℕ = (train, d.running_date_offset) in
    let (seats, found, e1) = >>=-eq-ok (or_fail (get day s.seats_data_storage) runtime_error) _ e in
    let returned = give_seats seats.seat d.from_stop_id d.to_stop_id d.num in
    let stored = put day (record seats { seat = returned }) s.seats_data_storage in
    let (q, fetched, e2) = >>=-eq-ok (fetch_queue train d.running_date_offset m) _ e1 in
    let (v, done, e3) =
      >>=-eq-ok
        (serve_queue train d.running_date_offset q (record { manager = m; seat = returned })) _
        e2 in
    let here : get day s.seats_data_storage ≡ some seats = ground arith in
    let given : Balanced m.orders stored =
      Balanced-give train d.running_date_offset d s.transaction_manager.orders m.orders
        s.seats_data_storage seats (inr (refl, refl)) paid b here less in
    let at_start : Balanced m.orders (put day (record seats { seat = returned }) stored) =
      rw
        (put-put day (record seats { seat = returned }) (record seats { seat = returned })
          s.seats_data_storage)
        given in
    let at_end =
      serve_queue-Balanced train d.running_date_offset seats stored q
        (record { manager = m; seat = returned }) v done (queues q fetched) at_start in
    let same : record s {
      transaction_manager = v.manager;
      seats_data_storage = put day (record seats { seat = v.seat }) stored;
    }
        ≡ s' =
      ground arith in
    subst EngineBalanced same at_end

-- No order has a status but the three of an order that waits, is paid, or was given back, and its
-- day is a `uint8_t`.
abbrev pub KnownOrders : List TransactionData → Type 0
KnownOrders orders =
    (place : ℕ) (x : TransactionData)
    → get_elem? orders place ≡ some x
    → (x.status ≤ 2) × (x.running_date_offset < 2 ^ 8)

-- What waits in the queue of a train and a day is for them.
abbrev pub QueuesFor : TransactionManager → Type 0
QueuesFor m =
    (train day : ℕ) (q : List (ℕ × ℕ))
    → day < 2 ^ 8
    → fetch_queue train day m ≡ ok q
    → AllFor train day m.orders q

refund_at-Balanced :
    (place : ℕ) (d : TransactionData) (s s' : Engine) (command : Command) (r : Bytes)
    → refund_at place d s command ≡ ok (s', r)
    → get_elem? s.transaction_manager.orders place ≡ some d
    → (d.status ≤ 2) × (d.running_date_offset < 2 ^ 8)
    → QueuesFor s.transaction_manager
    → EngineBalanced s
    → EngineBalanced s'
unfolding refund_at update_transaction_data fetch_queue
refund_at-Balanced place d s s' command r e at_place known queues b =
    let orders = s.transaction_manager.orders in
    let back = record d { status = 2 } in
    let m = record s.transaction_manager { orders = set orders place back } in
    let changed = λ (t o i : ℕ). sold-set t o i place orders d back at_place in
    let nothing_back : (t o i : ℕ) → share t o i back ≡ 0 = λ t o i. refl in
    elim (Bool-cases (d.status == 2)) [
      | inl before ↦ (let same : s ≡ s' = ground arith in subst EngineBalanced same b)
      | inr first ↦ elim (Bool-cases (d.status == 0)) [
        | inl waits ↦
            let same : record s { transaction_manager = m } ≡ s' = ground arith in
            let nothing : (t o i : ℕ) → share t o i d ≡ 0 = λ t o i. ground arith in
            subst EngineBalanced same (
              Balanced-same orders m.orders s.seats_data_storage
                (λ t o i. omega (arith, changed t o i, nothing t o i, nothing_back t o i)) b)
        | inr paid ↦
            refund_seats-Balanced d m s s' command r (ground arith) (ground arith) b
              (λ t o i. omega (arith, changed t o i, nothing_back t o i))
              (λ q fetched.
                AllFor-set_status _ _ 2 place orders d q at_place (queues _ _ q known.1 fetched))
      ]
    ]

-- `RefundTicket` keeps the free seats of every train and day in balance with the orders: those that
-- are given back become free, and those who wait and are served get no more than there are. This
-- holds whether the order was paid, waited, was given back before or is not there, when orders have
-- the three known statuses and byte-sized days, and the queue of a train and a day holds orders for them.
pub refund_ticket_with-Balanced :
    (a : RefundArgs) (s s' : Engine) (command : Command) (r : Bytes)
    → KnownOrders s.transaction_manager.orders
    → QueuesFor s.transaction_manager
    → EngineBalanced s
    → refund_ticket_with a s command ≡ ok (s', r)
    → EngineBalanced s'
unfolding refund_ticket_with
refund_ticket_with-Balanced a s s' command r known queues b e =
    let user = split_mix64_hash a.user_name in
    let orders = s.transaction_manager.orders in
    elim (Option-cases (get user s.online_users)) [
      | inl offline ↦ (let same : s ≡ s' = ground arith in subst EngineBalanced same b)
      | inr (_, online) ↦
          elim (Result-cases (fetch_single_user_order_history user a.order s.transaction_manager)) [
            | inr (_, failed) ↦ absurd (ground arith)
            | inl (none, missing) ↦
                (let same : s ≡ s' = ground arith in subst EngineBalanced same b)
            | inl (some place, there) ↦ elim (Option-cases (get_elem? orders place)) [
              | inl nothing ↦ absurd (ground arith)
              | inr (d, at_place) ↦
                  refund_at-Balanced place d s s' command r (ground arith) at_place
                    (known place d at_place) queues b
            ]
          ]
    ]
