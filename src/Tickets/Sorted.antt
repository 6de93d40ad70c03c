-- ===== src/Tickets/Sorted.antt =====
-- src/transaction_system.cpp: the order in which `QueryTicket` lists the trains.
use mathlib.Core.List.Perm
use mathlib.Core.List.{Perm}
use bh_ticket_system.Base.{
  ℕ, ◌-◌, ◌<◌, ◌⊎◌, ◌≡◌, refl, Bool, true, false, List, [], ◌∷◌, Bytes, bytes_lt, bytes_eq, codes,
  if◌then◌else◌, arith, ok, >>=-eq-ok, Bool-cases, inl, inr,
}
use mathlib.Core.Path.{subst}
use bh_ticket_system.Hash.{split_mix64_hash}
use bh_ticket_system.StopRegister.{query_direct_trains}
use bh_ticket_system.Engine.{Engine}
use bh_ticket_system.StopRegister.Direct.{Each, query_direct_trains-Each}
use bh_ticket_system.Tickets.Listed.{Listed, full_infos-Listed, sort-Each}
use bh_ticket_system.Tickets.{
  TicketArgs, FullTrainInfo, full_infos, cmp_time, cmp_price, insert_sorted, sort, found_tickets,
  time_cost,
}

module _ {A : Type 0} (cmp : A → A → Bool) where
  -- No element of the list precedes `x`.
  abbrev pub NoneBefore : A → List A → Type 0
  NoneBefore x [] = Unit {0}
  NoneBefore x (y ∷ ys) = (cmp y x ≡ false) × NoneBefore x ys

  -- No element precedes one in front of it.
  abbrev pub Sorted : List A → Type 0
  Sorted [] = Unit {0}
  Sorted (x ∷ xs) = NoneBefore x xs × Sorted xs

  insert_sorted-Perm : (x : A) (xs : List A) → Perm (insert_sorted cmp x xs) (x ∷ xs)
  unfolding insert_sorted
  insert_sorted-Perm x [] = Perm.rfl
  insert_sorted-Perm x (y ∷ ys) = elim (Bool-cases (cmp y x)) [
    | inl before ↦ rw before (Perm.trans (Perm.cons y (insert_sorted-Perm x ys)) (Perm.swap x y ys))
    | inr not_before ↦ rw not_before Perm.rfl
  ]

  pub sort-Perm : (xs : List A) → Perm (sort cmp xs) xs
  unfolding sort
  sort-Perm [] = Perm.rfl
  sort-Perm (x ∷ xs) = Perm.trans (insert_sorted-Perm x (sort cmp xs)) (Perm.cons x (sort-Perm xs))

  module _ (asym : (a b : A) → cmp a b ≡ true → cmp b a ≡ false)
      (neg_trans : (a b c : A) → cmp b a ≡ false → cmp c b ≡ false → cmp c a ≡ false) where
    pub NoneBefore-trans :
        (x y : A) (ys : List A) → cmp y x ≡ false → NoneBefore y ys → NoneBefore x ys
    NoneBefore-trans x y [] h none_before = tt
    NoneBefore-trans x y (z ∷ ys) h (first, rest) =
        (neg_trans x y z h first, NoneBefore-trans x y ys h rest)

    NoneBefore-insert_sorted :
        (y x : A) (ys : List A)
        → cmp x y ≡ false
        → NoneBefore y ys
        → NoneBefore y (insert_sorted cmp x ys)
    unfolding insert_sorted
    NoneBefore-insert_sorted y x [] h none_before = (h, tt)
    NoneBefore-insert_sorted y x (z ∷ ys) h (first, rest) = elim (Bool-cases (cmp z x)) [
      | inl before ↦ rw before (first, NoneBefore-insert_sorted y x ys h rest)
      | inr not_before ↦ rw not_before (h, (first, rest))
    ]

    insert_sorted-Sorted : (x : A) (xs : List A) → Sorted xs → Sorted (insert_sorted cmp x xs)
    unfolding insert_sorted
    insert_sorted-Sorted x [] s = (tt, tt)
    insert_sorted-Sorted x (y ∷ ys) (none_before, s) = elim (Bool-cases (cmp y x)) [
      | inl before ↦ rw before (
        NoneBefore-insert_sorted y x ys (asym y x before) none_before,
        insert_sorted-Sorted x ys s,
      )
      | inr not_before ↦
          rw not_before
            ((not_before, NoneBefore-trans x y ys not_before none_before), (none_before, s))
    ]

    pub sort-Sorted : (xs : List A) → Sorted (sort cmp xs)
    unfolding sort
    sort-Sorted [] = tt
    sort-Sorted (x ∷ xs) = insert_sorted-Sorted x (sort cmp xs) (sort-Sorted xs)

pub bytes_lt-asym : (a b : Bytes) → bytes_lt a b ≡ true → bytes_lt b a ≡ false
bytes_lt-asym [] [] h = cc
bytes_lt-asym [] (y ∷ b) h = refl
bytes_lt-asym (x ∷ a) [] h = cc
bytes_lt-asym (x ∷ a) (y ∷ b) h = ground (arith, bytes_lt-asym a b)

pub bytes_lt-neg_trans :
    (a b c : Bytes) → bytes_lt b a ≡ false → bytes_lt c b ≡ false → bytes_lt c a ≡ false
bytes_lt-neg_trans [] b [] h k = refl
bytes_lt-neg_trans [] b (z ∷ c) h k = refl
bytes_lt-neg_trans (x ∷ a) [] c h k = cc
bytes_lt-neg_trans (x ∷ a) (y ∷ b) [] h k = cc
bytes_lt-neg_trans (x ∷ a) (y ∷ b) (z ∷ c) h k = ground (arith, bytes_lt-neg_trans a b c)

cmp_time-asym : (a b : FullTrainInfo) → cmp_time a b ≡ true → cmp_time b a ≡ false
unfolding cmp_time
cmp_time-asym a b h = ground (arith, bytes_lt-asym a.extra.train_id b.extra.train_id)

cmp_time-neg_trans :
    (a b c : FullTrainInfo) → cmp_time b a ≡ false → cmp_time c b ≡ false → cmp_time c a ≡ false
unfolding cmp_time
cmp_time-neg_trans a b c h k =
    ground (arith, bytes_lt-neg_trans a.extra.train_id b.extra.train_id c.extra.train_id)

cmp_price-asym : (a b : FullTrainInfo) → cmp_price a b ≡ true → cmp_price b a ≡ false
unfolding cmp_price
cmp_price-asym a b h = ground (arith, bytes_lt-asym a.extra.train_id b.extra.train_id)

cmp_price-neg_trans :
    (a b c : FullTrainInfo) → cmp_price b a ≡ false → cmp_price c b ≡ false → cmp_price c a ≡ false
unfolding cmp_price
cmp_price-neg_trans a b c h k =
    ground (arith, bytes_lt-neg_trans a.extra.train_id b.extra.train_id c.extra.train_id)

-- A train of the list comes before another one by a number, or by its name where the numbers are equal.
abbrev pub Precedes : (FullTrainInfo → ℕ) → FullTrainInfo → FullTrainInfo → Type 0
Precedes key t u =
    (key t < key u) ⊎ ((key t ≡ key u) × (bytes_lt u.extra.train_id t.extra.train_id ≡ false))

abbrev PrecedesAll : (FullTrainInfo → ℕ) → FullTrainInfo → List FullTrainInfo → Type 0
PrecedesAll key t [] = Unit {0}
PrecedesAll key t (u ∷ us) = Precedes key t u × PrecedesAll key t us

-- The trains are listed in the order of the number: each one before all that follow.
abbrev pub ListedBy : (FullTrainInfo → ℕ) → List FullTrainInfo → Type 0
ListedBy key [] = Unit {0}
ListedBy key (t ∷ ts) = PrecedesAll key t ts × ListedBy key ts

-- The minutes of the journey.
abbrev pub minutes : FullTrainInfo → ℕ
minutes t = t.info.arrive_time_stamp - t.info.leave_time_stamp

abbrev pub fare : FullTrainInfo → ℕ
fare t = t.extra.price

module _ (key : FullTrainInfo → ℕ) (cmp : FullTrainInfo → FullTrainInfo → Bool)
    (by_key : (t u : FullTrainInfo) → cmp u t ≡ false → Precedes key t u) where
  NoneBefore-PrecedesAll :
      (t : FullTrainInfo) (us : List FullTrainInfo) → NoneBefore cmp t us → PrecedesAll key t us
  NoneBefore-PrecedesAll t [] n = tt
  NoneBefore-PrecedesAll t (u ∷ us) (first, rest) =
      (by_key t u first, NoneBefore-PrecedesAll t us rest)

  Sorted-ListedBy : (ts : List FullTrainInfo) → Sorted cmp ts → ListedBy key ts
  Sorted-ListedBy [] s = tt
  Sorted-ListedBy (t ∷ ts) (first, rest) =
      (NoneBefore-PrecedesAll t ts first, Sorted-ListedBy ts rest)

cmp_time-Precedes : (t u : FullTrainInfo) → cmp_time u t ≡ false → Precedes minutes t u
unfolding cmp_time time_cost
cmp_time-Precedes t u e = ground (arith, e)

cmp_price-Precedes : (t u : FullTrainInfo) → cmp_price u t ≡ false → Precedes fare t u
unfolding cmp_price
cmp_price-Precedes t u e = ground (arith, e)

-- `QueryTicket` lists trains that run from the one station to the other one on the day, each with its
-- name, with the seats that are free all the way and the price of the journey, all those that
-- `QueryDirectTrains` finds and no other, in the order that was asked for: by the minutes of the
-- journey, or else by its price, and trains that are alike there by their names.
pub found_tickets-Sorted :
    (a : TicketArgs) (s : Engine) (ts : List FullTrainInfo)
    → found_tickets a s ≡ ok ts
    → Each (Listed a s) ts
      × ((found : List FullTrainInfo) × (full_infos s (
              query_direct_trains a.date
                (split_mix64_hash a.from)
                (split_mix64_hash a.to)
                s.stop_register)
            ≡ ok found)
          × Perm ts found)
      × (if bytes_eq a.order_by (codes "time") then ListedBy minutes ts else ListedBy fare ts)
unfolding found_tickets
found_tickets-Sorted a s ts e =
    let (found, looked_up, sorted) = >>=-eq-ok (full_infos s _) _ e in
    let each = full_infos-Listed a s _ found (query_direct_trains-Each a.date _ _ _) looked_up in
    elim (Bool-cases (bytes_eq a.order_by (codes "time"))) [
      | inl by_time ↦
          let same : sort cmp_time found ≡ ts = ground arith in
          (
            subst (Each (Listed a s)) same (sort-Each (Listed a s) cmp_time found each),
            (found, looked_up, subst (λ z. Perm z found) same (sort-Perm cmp_time found)),
            rw by_time (
                subst (ListedBy minutes) same (
                  Sorted-ListedBy minutes cmp_time cmp_time-Precedes (sort cmp_time found)
                    (sort-Sorted cmp_time cmp_time-asym cmp_time-neg_trans found))),
          )
      | inr by_price ↦
          let same : sort cmp_price found ≡ ts = ground arith in
          (
            subst (Each (Listed a s)) same (sort-Each (Listed a s) cmp_price found each),
            (found, looked_up, subst (λ z. Perm z found) same (sort-Perm cmp_price found)),
            rw by_price (
                subst (ListedBy fare) same (
                  Sorted-ListedBy fare cmp_price cmp_price-Precedes (sort cmp_price found)
                    (sort-Sorted cmp_price cmp_price-asym cmp_price-neg_trans found))),
          )
    ]
