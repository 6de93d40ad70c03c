-- ===== src/Tickets/Balance.antt =====
-- src/transaction_system.cpp: the seats of a day against the orders that hold some of them.
pub mod Buy
pub mod Refund
pub mod Examples
use bh_ticket_system.Base.{
  ℕ, zero, suc, ◌+◌, ◌%◌, ◌^◌, ◌≤◌, ◌<◌, ◌≡◌, refl, ◌⊎◌, inl, inr, Bool, true, false, ◌&&◌, Option,
  none, some, List, [], ◌∷◌, ◌++◌, ◌==◌, if◌then◌else◌, get_or, get_elem?, set, length, pair_eq,
  pair_beq, pair_beq_iff, Bool-cases, arith,
}
use mathlib.Core.Path.{subst}
use bh_ticket_system.Base.Map.{Map, get, put, get-put}
use bh_ticket_system.Hash.{split_mix64_hash}
use bh_ticket_system.Data.{TransactionData, SeatsData}
use bh_ticket_system.Trains.{Seats}
use bh_ticket_system.Seats.{available_seats, take_seats, give_seats}
use bh_ticket_system.Seats.Laws.{
  on_way, take_seats-on_way, give_seats-on_way, length-take_seats, length-give_seats,
}

-- The order has been paid, is for the train and the day, and has not been given back.
abbrev pub holds : ℕ → ℕ → TransactionData → Bool
holds train day x =
    (x.status == 1) && ((split_mix64_hash x.train_id == train) && (x.running_date_offset == day))

-- The seats that an order holds from station `i` to the next.
abbrev pub share : ℕ → ℕ → ℕ → TransactionData → ℕ
share train day i x = if holds train day x then on_way x.from_stop_id x.to_stop_id x.num i else 0

-- The seats that all orders hold there.
pub sold : ℕ → ℕ → ℕ → List TransactionData → ℕ
sold train day i [] = 0
sold train day i (x ∷ xs) = share train day i x + sold train day i xs

-- On each part of the way the free seats and those that are held make up the train.
pub record DayBalanced (train day : ℕ) (orders : List TransactionData) (d : SeatsData)
    : Type 0 where
  pub full : (i : ℕ) → i < length d.seat → get_or d.seat i 0 + sold train day i orders ≡ d.max_seats
  pub in_range : d.max_seats < 2 ^ 32

-- So for every train and day whose seats are stored.
abbrev pub Balanced : List TransactionData → Seats → Type 0
Balanced orders m =
    (train day : ℕ) (d : SeatsData) → get (train, day) m ≡ some d → DayBalanced train day orders d

pub sold-append :
    (train day i : ℕ) (xs : List TransactionData) (x : TransactionData)
    → sold train day i (xs ++ x ∷ []) ≡ sold train day i xs + share train day i x
unfolding sold
sold-append train day i [] x = omega arith
sold-append train day i (y ∷ xs) x = omega (arith, sold-append train day i xs x)

pub sold-set :
    (train day i place : ℕ) (xs : List TransactionData) (c x : TransactionData)
    → get_elem? xs place ≡ some c
    → sold train day i (set xs place x) + share train day i c
      ≡ sold train day i xs + share train day i x
unfolding sold
sold-set train day i place [] c x e = cc
sold-set train day i zero (y ∷ xs) c x e = ground arith
sold-set train day i (suc place) (y ∷ xs) c x e = omega (arith, sold-set train day i place xs c x e)

DayBalanced-same :
    (train day : ℕ) (orders orders' : List TransactionData) (d : SeatsData)
    → ((i : ℕ) → sold train day i orders' ≡ sold train day i orders)
    → DayBalanced train day orders d
    → DayBalanced train day orders' d
DayBalanced-same train day orders orders' d same b = record {
  full = λ i h. rw (same i) (b.full i h);
  in_range = b.in_range;
}

-- The orders and one day's seats change together.
pub Balanced-put :
    (train day : ℕ) (orders orders' : List TransactionData) (m : Seats) (d : SeatsData)
    → Balanced orders m
    → DayBalanced train day orders' d
    → ((t' d' : ℕ)
        → ((t' ≡ train) × (d' ≡ day)) ⊎ ((i : ℕ) → sold t' d' i orders' ≡ sold t' d' i orders))
    → Balanced orders' (put (train, day) d m)
Balanced-put train day orders orders' m d b here elsewhere t' d' x found =
    elim (Bool-cases (pair_beq (train, day) (t', d'))) [
      | inl hit ↦
          let same_key = (pair_beq_iff (train, day) (t', d')).0 hit in
          let same : d ≡ x = ground (arith, get-put (train, day) (t', d') d m) in
          subst (λ (k : ℕ × ℕ). DayBalanced k.0 k.1 orders' x) same_key
            (subst (DayBalanced train day orders') same here)
      | inr miss ↦
          let before : get (t', d') m ≡ some x =
            ground (arith, get-put (train, day) (t', d') d m) in
          let old = b t' d' x before in
          elim (elsewhere t' d') [
            | inl e ↦ absurd (let h : pair_beq (train, day) (t', d') ≡ true = ground arith in cc)
            | inr same ↦ DayBalanced-same t' d' orders orders' x same old
          ]
    ]

-- The order is for the train and the day, or for no ticket at all.
abbrev pub IsFor : ℕ → ℕ → TransactionData → Type 0
IsFor train day x =
    (x.num ≡ 0) ⊎ ((split_mix64_hash x.train_id ≡ train) × (x.running_date_offset ≡ day))

-- It holds nothing on any other day.
share_elsewhere :
    (train day : ℕ) (x : TransactionData) (t' d' : ℕ)
    → IsFor train day x
    → ((t' ≡ train) × (d' ≡ day)) ⊎ ((i : ℕ) → share t' d' i x ≡ 0)
share_elsewhere train day x t' d' f = elim (Bool-cases (pair_beq (train, day) (t', d'))) [
  | inl hit ↦ inl (ground arith)
  | inr miss ↦ inr (λ i. ground arith)
]

share_here :
    (train day : ℕ) (x : TransactionData) (i : ℕ)
    → IsFor train day x
    → x.status ≡ 1
    → share train day i x ≡ on_way x.from_stop_id x.to_stop_id x.num i
share_here train day x i f h = ground arith

module _ (train day : ℕ) (x : TransactionData) (orders orders' : List TransactionData) (m : Seats)
    (d : SeatsData) (own : IsFor train day x) (paid : x.status ≡ 1) (b : Balanced orders m)
    (found : get (train, day) m ≡ some d) where
  -- An order that is added, or that is paid at last, takes its seats.
  pub Balanced-take :
      x.num ≤ available_seats d.seat x.from_stop_id x.to_stop_id
      → ((t' d' i : ℕ) → sold t' d' i orders' ≡ sold t' d' i orders + share t' d' i x)
      → Balanced orders' (
          put
            (train, day)
            (record d { seat = take_seats d.seat x.from_stop_id x.to_stop_id x.num })
            m)
  Balanced-take enough grows =
      Balanced-put train day orders orders' m _ b
        (record {
          full = λ i h.
              let len = length-take_seats d.seat x.from_stop_id x.to_stop_id x.num in
              let old = (b train day d found).full i (rw (← len) h) in
              let new =
                take_seats-on_way d.seat x.from_stop_id x.to_stop_id x.num i (rw (← len) h) enough
                  (let small = (b train day d found).in_range in omega arith) in
              let grown = grows train day i in
              let here = share_here train day x i own paid in omega arith;
          in_range = (b train day d found).in_range;
        })
        (λ t' d'. elim (share_elsewhere train day x t' d' own) [
          | inl e ↦ inl e
          | inr none_there ↦ inr (λ i. let g = grows t' d' i in let z = none_there i in omega arith)
        ])

  -- An order that is given back returns them.
  pub Balanced-give :
      ((t' d' i : ℕ) → sold t' d' i orders' + share t' d' i x ≡ sold t' d' i orders)
      → Balanced orders' (
          put
            (train, day)
            (record d { seat = give_seats d.seat x.from_stop_id x.to_stop_id x.num })
            m)
  Balanced-give shrinks =
      Balanced-put train day orders orders' m _ b
        (record {
          full = λ i h.
              let len = length-give_seats d.seat x.from_stop_id x.to_stop_id x.num in
              let old = (b train day d found).full i (rw (← len) h) in
              let small = (b train day d found).in_range in
              let less = shrinks train day i in
              let here = share_here train day x i own paid in
              let new =
                give_seats-on_way d.seat x.from_stop_id x.to_stop_id x.num i (rw (← len) h)
                  (omega arith) in
              omega arith;
          in_range = (b train day d found).in_range;
        })
        (λ t' d'. elim (share_elsewhere train day x t' d' own) [
          | inl e ↦ inl e
          | inr none_there ↦
              inr (λ i. let g = shrinks t' d' i in let z = none_there i in omega arith)
        ])

-- Orders that change without holding anything more or less.
pub Balanced-same :
    (orders orders' : List TransactionData) (m : Seats)
    → ((t' d' i : ℕ) → sold t' d' i orders' ≡ sold t' d' i orders)
    → Balanced orders m
    → Balanced orders' m
Balanced-same orders orders' m same b t' d' x found =
    DayBalanced-same t' d' orders orders' x (same t' d') (b t' d' x found)
