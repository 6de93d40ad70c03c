-- ===== src/Tickets/Transfer/Search/Order.antt =====
-- src/transaction_system.cpp: the order of journeys in which `CheckTransfer` keeps the better one.
use bh_ticket_system.Base.{
  ◌≡◌, refl, Bool, true, false, [], ◌∷◌, Bytes, bytes_lt, hash_eq, pair_eq, arith, ℕ, ◌⊎◌, inl, inr,
  ◌<◌, Bool-cases, if◌then◌else◌, ltb,
}
use bh_ticket_system.Tickets.Sorted.{bytes_lt-asym, bytes_lt-neg_trans}
use bh_ticket_system.Tickets.Transfer.Search.{
  Solution, keep_by_names, keeps_existing, total_time, both_prices,
}

-- `r` is not better than `c`: it would not be kept against it.
abbrev pub NotBetter : Bool → Solution → Solution → Type 0
NotBetter by_time r c = keeps_existing by_time r c ≡ false

bytes_lt_self : (a : Bytes) → bytes_lt a a ≡ false
bytes_lt_self [] = refl
bytes_lt_self (x ∷ a) = ground (arith, bytes_lt_self a)

keep_by_names_trans :
    (a b c : Solution)
    → keep_by_names a b ≡ false
    → keep_by_names b c ≡ false
    → keep_by_names a c ≡ false
unfolding keep_by_names
keep_by_names_trans a b c h k =
    let acb = bytes_lt-neg_trans a.train1_id c.train1_id b.train1_id in
    let bac = bytes_lt-neg_trans b.train1_id a.train1_id c.train1_id in
    let cba = bytes_lt-neg_trans c.train1_id b.train1_id a.train1_id in
    let second = bytes_lt-neg_trans c.train2_id b.train2_id a.train2_id in ground arith

pub NotBetter-trans :
    (by_time : Bool) (a b c : Solution)
    → NotBetter by_time a b
    → NotBetter by_time b c
    → NotBetter by_time a c
unfolding keeps_existing
NotBetter-trans true a b c h k = ground (arith, keep_by_names_trans a b c)
NotBetter-trans false a b c h k = ground (arith, keep_by_names_trans a b c)

pub keeps_existing-NotBetter :
    (by_time : Bool) (r c : Solution) → keeps_existing by_time r c ≡ true → NotBetter by_time c r
unfolding keeps_existing
keeps_existing-NotBetter true r c h =
    ground (arith, bytes_lt-asym r.train1_id c.train1_id, bytes_lt-asym r.train2_id c.train2_id)
keeps_existing-NotBetter false r c h =
    ground (arith, bytes_lt-asym r.train1_id c.train1_id, bytes_lt-asym r.train2_id c.train2_id)

pub NotBetter-self : (by_time : Bool) (r : Solution) → NotBetter by_time r r
unfolding keeps_existing
NotBetter-self true r = ground (arith, bytes_lt_self r.train1_id, bytes_lt_self r.train2_id)
NotBetter-self false r = ground (arith, bytes_lt_self r.train1_id, bytes_lt_self r.train2_id)

-- The trains of `r` come before those of `c` by their names, or are called the same.
NamesAhead : Solution → Solution → Type 0
NamesAhead r c =
    (bytes_lt c.train1_id r.train1_id ≡ false)
    × ((bytes_lt r.train1_id c.train1_id ≡ true) ⊎ (bytes_lt c.train2_id r.train2_id ≡ false))

first_key : Bool → Solution → ℕ
first_key by_time r = if by_time then total_time r else both_prices r

second_key : Bool → Solution → ℕ
second_key by_time r = if by_time then both_prices r else total_time r

-- `r` takes less time than `c`, or as much and costs less, or is alike in both and comes first by
-- its names; where the price is asked for, it is looked at first.
pub Ahead : Bool → Solution → Solution → Type 0
Ahead by_time r c =
    (first_key by_time r < first_key by_time c)
    ⊎ ((first_key by_time r ≡ first_key by_time c)
        × ((second_key by_time r < second_key by_time c)
            ⊎ ((second_key by_time r ≡ second_key by_time c) × NamesAhead r c)))

keep_by_names-NamesAhead : (c r : Solution) → keep_by_names c r ≡ false → NamesAhead r c
unfolding keep_by_names NamesAhead
keep_by_names-NamesAhead c r h = elim (Bool-cases (bytes_lt r.train1_id c.train1_id)) [
  | inl before ↦ (ground (arith, bytes_lt-asym r.train1_id c.train1_id), inl before)
  | inr alike ↦ (ground arith, inr (ground arith))
]

pub NotBetter-Ahead : (by_time : Bool) (c r : Solution) → NotBetter by_time c r → Ahead by_time r c
unfolding keeps_existing Ahead first_key second_key
NotBetter-Ahead by_time c r h =
    elim (Bool-cases (ltb (first_key by_time r) (first_key by_time c))) [
      | inl less1 ↦ inl (ground arith)
      | inr more1 ↦ inr (
        ground arith,
        elim (Bool-cases (ltb (second_key by_time r) (second_key by_time c))) [
          | inl less2 ↦ inl (ground arith)
          | inr more2 ↦ inr (ground arith, keep_by_names-NamesAhead c r (ground arith))
        ],
      )
    ]
