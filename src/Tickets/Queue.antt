-- ===== src/Tickets/Queue.antt =====
-- src/transaction_system.cpp: whom `RefundTicket` serves, and who stays in the queue.
use bh_ticket_system.Base.{
  ℕ, zero, suc, ◌≤◌, ◌<◌, ◌≡◌, refl, sym, inl, inr, some, List, [], ◌∷◌, get_elem?, set, arith, ok,
  >>=-eq-ok, ap,
}
use mathlib.Core.Path.{subst}
use bh_ticket_system.Data.{TransactionData}
use bh_ticket_system.Transactions.{
  update_transaction_data, remove_order_from_queue, queue_key, queue_special_id, queue_order,
}
use bh_ticket_system.Seats.{available_seats}
use bh_ticket_system.Seats.Monotone.{Fewer, SmallSeats, available_seats-Fewer, take_seats-Fewer}
use bh_ticket_system.Tickets.Refund.{Served, serve_order, serve_queue}
use bh_ticket_system.Tickets.Rounds.{Serves, serve_order-Serves, served}
use bh_ticket_system.Base.Index.{remove}

-- What a round leaves of the state before it: free seats become no more, and an order that waits
-- behind it waited before it.
record Later (v v' : Served) : Type 0 where
  pub fewer : Fewer v'.seat v.seat
  pub waited :
      (place : ℕ) (x : TransactionData)
      → get_elem? v'.manager.orders place ≡ some x
      → x.status ≡ 0
      → get_elem? v.manager.orders place ≡ some x

set-waited :
    (orders : List TransactionData) (p place : ℕ) (new x : TransactionData)
    → new.status ≡ 1
    → get_elem? (set orders p new) place ≡ some x
    → x.status ≡ 0
    → get_elem? orders place ≡ some x
set-waited [] p place new x one e waits = e
set-waited (y ∷ ys) zero zero new x one e waits = absurd (ground arith)
set-waited (y ∷ ys) zero (suc place) new x one e waits = e
set-waited (y ∷ ys) (suc p) zero new x one e waits = e
set-waited (y ∷ ys) (suc p) (suc place) new x one e waits = set-waited ys p place new x one e waits

set-same :
    (orders : List TransactionData) (p : ℕ) (new x : TransactionData)
    → get_elem? (set orders p new) p ≡ some x
    → x.status ≡ new.status
set-same [] p new x e = cc
set-same (y ∷ ys) zero new x e = ground arith
set-same (y ∷ ys) (suc p) new x e = set-same ys p new x e

served-Later :
    (train day place id : ℕ) (cur : TransactionData) (v : Served)
    → SmallSeats v.seat
    → cur.num ≤ available_seats v.seat cur.from_stop_id cur.to_stop_id
    → Later v (served train day place id cur v)
unfolding remove_order_from_queue update_transaction_data
served-Later train day place id cur v small fits = record {
  fewer = take_seats-Fewer v.seat cur.from_stop_id cur.to_stop_id cur.num fits small;
  waited =
      λ p x e waits. set-waited v.manager.orders place p (record cur { status = 1 }) x refl e waits;
}

-- The order at the place, if it waits, finds too few seats.
abbrev pub Short : ℕ → Served → Type 0
Short place v =
    (x : TransactionData)
    → get_elem? v.manager.orders place ≡ some x
    → x.status ≡ 0
    → available_seats v.seat x.from_stop_id x.to_stop_id < x.num

Later-Short : (place : ℕ) (v v' : Served) → Later v v' → Short place v → Short place v'
Later-Short place v v' later short x e waits =
    let less = available_seats-Fewer v'.seat v.seat x.from_stop_id x.to_stop_id later.fewer in
    let before = short x (later.waited place x e waits) waits in omega arith

record Round (place : ℕ) (v v' : Served) : Type 0 where
  pub later : Later v v'
  pub small : SmallSeats v'.seat
  pub short : Short place v'

serve_order-Round :
    (train day place id : ℕ) (v v' : Served)
    → SmallSeats v.seat
    → serve_order train day (place, id) v ≡ ok v'
    → Round place v v'
unfolding Serves remove_order_from_queue update_transaction_data
serve_order-Round train day place id v v' small e =
    let (cur, at_place, cases) = serve_order-Serves train day place id v v' e in
    elim cases [
      | inl (gone, same) ↦ subst (Round place v) (sym same) (record {
        later = record { fewer = λ i. omega arith; waited = λ p x f waits. f };
        small = small;
        short = λ x f waits. absurd (gone (ground arith));
      })
      | inr (inl (waits, fits, same)) ↦ subst (Round place v) (sym same) (record {
        later = served-Later train day place id cur v small fits;
        small = λ i.
            (let f = take_seats-Fewer v.seat cur.from_stop_id cur.to_stop_id cur.num fits small i in
              let s = small i in omega arith);
        short = λ x f pending. absurd (
            let now = set-same v.manager.orders place (record cur { status = 1 }) x f in
            ground arith);
      })
      | inr (inr (waits, short, same)) ↦ subst (Round place v) (sym same) (record {
        later = record { fewer = λ i. omega arith; waited = λ p x f waits. f };
        small = small;
        short = λ x f pending. ground arith;
      })
    ]

-- All of them find too few seats.
abbrev pub AllShort : List (ℕ × ℕ) → Served → Type 0
AllShort [] v = Unit {0}
AllShort ((place, id) ∷ qs) v = Short place v × AllShort qs v

Later-trans : (u v w : Served) → Later u v → Later v w → Later u w
Later-trans u v w before after = record {
  fewer = λ i. (let a = before.fewer i in let b = after.fewer i in omega arith);
  waited = λ p x e waits. before.waited p x (after.waited p x e waits) waits;
}

serve_queue-rounds :
    (train day : ℕ) (qs : List (ℕ × ℕ)) (v v' : Served)
    → SmallSeats v.seat
    → serve_queue train day qs v ≡ ok v'
    → Later v v' × AllShort qs v'
unfolding serve_queue
serve_queue-rounds train day [] v v' small e =
    let same : v ≡ v' = ground arith in
    subst (λ w. Later v w × Unit {0}) same
      (record { fewer = λ i. omega arith; waited = λ p x f waits. f }, tt)
serve_queue-rounds train day ((place, id) ∷ qs) v v' small e =
    let (w, first, rest) = >>=-eq-ok (serve_order train day (place, id) v) _ e in
    let round = serve_order-Round train day place id v w small first in
    let (later, short) = serve_queue-rounds train day qs w v' round.small rest in
    (Later-trans v w v' round.later later, (Later-Short place w v' later round.short, short))

-- The whole loop of `RefundTicket` over the queue: it only takes seats, and when it is over, every
-- order of the queue that still waits finds too few seats for its journey; so nobody waits for
-- seats that are free. This is for numbers of seats that fit in 32 bits.
pub serve_queue-AllShort :
    (train day : ℕ) (qs : List (ℕ × ℕ)) (v v' : Served)
    → SmallSeats v.seat
    → serve_queue train day qs v ≡ ok v'
    → Fewer v'.seat v.seat × AllShort qs v'
unfolding serve_queue
serve_queue-AllShort train day qs v v' small e =
    let (later, short) = serve_queue-rounds train day qs v v' small e in (later.fewer, short)

-- A pair of zeros, which `FetchQueue` returns when orders have left the queue before, is taken for
-- the order at place 0, the header page. Where that reads as an order for no ticket, the round
-- removes the counter of the queue from the index, be the page's status what it may.
pub serve_order-phantom :
    (train day : ℕ) (page : TransactionData) (v v' : Served)
    → get_elem? v.manager.orders 0 ≡ some page
    → page.num ≡ 0
    → serve_order train day (0, 0) v ≡ ok v'
    → v'.manager.queue ≡ remove (queue_key train day queue_special_id) v.manager.queue
unfolding Serves remove_order_from_queue update_transaction_data
serve_order-phantom train day page v v' at_zero no_ticket e =
    let (cur, at_place, cases) = serve_order-Serves train day 0 0 v v' e in
    elim cases [
      | inl (gone, same) ↦ ap (λ (w : Served). w.manager.queue) same
      | inr (inl (waits, fits, same)) ↦ ap (λ (w : Served). w.manager.queue) same
      | inr (inr (waits, short, same)) ↦ absurd (ground arith)
    ]
