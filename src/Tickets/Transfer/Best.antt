-- ===== src/Tickets/Transfer/Best.antt =====
-- src/transaction_system.cpp: no journey of two trains that `QueryTransfer` meets is better than its
-- answer.
use mathlib.Core.List.{Memᴰ}
use mathlib.Core.Path.{subst}
use bh_ticket_system.Base.{
  ℕ, ◌≡◌, ◌≢◌, Bool, Option, none, some, List, [], ◌∷◌, ◌==◌, hash_eq, get_or, arith, ok, >>=-eq-ok,
}
use bh_ticket_system.Hash.{split_mix64_hash}
use bh_ticket_system.StopRegister.{fetch_train_leaving_from, fetch_train_arriving_at}
use bh_ticket_system.Engine.{Engine}
use bh_ticket_system.Tickets.{TicketArgs}
use bh_ticket_system.Tickets.Transfer.{check_arriving, check_leaving, find_transfer}
use bh_ticket_system.Tickets.Transfer.Search.{
  Solution, Pair, Candidate, boarding, candidate, check_transfer,
}
use bh_ticket_system.Tickets.Transfer.Search.Best.{
  Beaten, Visits, OfTrains, check_transfer-carries, check_transfer-Beaten,
}
use bh_ticket_system.Tickets.Transfer.Search.Order.{Ahead, NotBetter-Ahead}

check_arriving-carries :
    (s : Engine) (train1 : ℕ) (ts : List ℕ) (from_hash to_hash date : ℕ) (by_time : Bool)
    (best best' : Option Solution) (a : Solution)
    → check_arriving s train1 ts from_hash to_hash date by_time best ≡ ok best'
    → Beaten by_time a best
    → Beaten by_time a best'
unfolding check_arriving
check_arriving-carries s train1 [] from_hash to_hash date by_time best best' a e h =
    let same : best ≡ best' = ground arith in subst (Beaten by_time a) same h
check_arriving-carries s train1 (train2 ∷ ts) from_hash to_hash date by_time best best' a e h =
    let (mid, first, rest) =
      >>=-eq-ok (check_transfer s train1 train2 from_hash to_hash date by_time best) _ e in
    check_arriving-carries s train1 ts from_hash to_hash date by_time mid best' a rest
      (check_transfer-carries s train1 train2 from_hash to_hash date by_time best mid a first h)

check_leaving-carries :
    (s : Engine) (us ts : List ℕ) (from_hash to_hash date : ℕ) (by_time : Bool)
    (best best' : Option Solution) (a : Solution)
    → check_leaving s us ts from_hash to_hash date by_time best ≡ ok best'
    → Beaten by_time a best
    → Beaten by_time a best'
unfolding check_leaving
check_leaving-carries s [] ts from_hash to_hash date by_time best best' a e h =
    let same : best ≡ best' = ground arith in subst (Beaten by_time a) same h
check_leaving-carries s (train1 ∷ us) ts from_hash to_hash date by_time best best' a e h =
    let (mid, first, rest) =
      >>=-eq-ok (check_arriving s train1 ts from_hash to_hash date by_time best) _ e in
    check_leaving-carries s us ts from_hash to_hash date by_time mid best' a rest
      (check_arriving-carries s train1 ts from_hash to_hash date by_time best mid a first h)

-- A journey that `CheckTransfer` comes to for the two trains.
pub record Meets (s : Engine) (train1 train2 from_hash to_hash date : ℕ) (c : Candidate)
    : Type 0 where
  pub pair : Pair
  pub of_trains : OfTrains s train1 train2 pair
  pub via1 : ℕ
  pub via2 : ℕ
  pub dest : ℕ
  pub visits :
      Visits pair (boarding from_hash pair.core1) to_hash pair.core2.station_num none via1 via2 dest
  pub is_found :
      candidate pair date (boarding from_hash pair.core1).start via1 via2 dest ≡ ok (some c)

check_arriving-Beaten :
    (s : Engine) (train1 train2 : ℕ) (ts : List ℕ) (from_hash to_hash date : ℕ) (by_time : Bool)
    (best best' : Option Solution) (c : Candidate)
    → train1 ≢ train2
    → Memᴰ train2 ts
    → check_arriving s train1 ts from_hash to_hash date by_time best ≡ ok best'
    → Meets s train1 train2 from_hash to_hash date c
    → Beaten by_time c.journey best'
unfolding check_arriving
check_arriving-Beaten s train1 train2 [] from_hash to_hash date by_time best best' c other among e
      m =
    elim among [ ]
check_arriving-Beaten s train1 train2 (t ∷ ts) from_hash to_hash date by_time best best' c other
      (Memᴰ.head same) e m =
    let (mid, first, rest) =
      >>=-eq-ok (check_transfer s train1 t from_hash to_hash date by_time best) _ e in
    let checked : check_transfer s train1 train2 from_hash to_hash date by_time best ≡ ok mid =
      cc in
    check_arriving-carries s train1 ts from_hash to_hash date by_time mid best' c.journey rest (
      check_transfer-Beaten s train1 train2 from_hash to_hash date by_time best mid m.pair m.via1
        m.via2 m.dest c other checked m.of_trains m.visits m.is_found)
check_arriving-Beaten s train1 train2 (t ∷ ts) from_hash to_hash date by_time best best' c other
      (Memᴰ.tail among) e m =
    let (mid, first, rest) =
      >>=-eq-ok (check_transfer s train1 t from_hash to_hash date by_time best) _ e in
    check_arriving-Beaten s train1 train2 ts from_hash to_hash date by_time mid best' c other among
      rest m

check_leaving-Beaten :
    (s : Engine) (train1 train2 : ℕ) (us ts : List ℕ) (from_hash to_hash date : ℕ) (by_time : Bool)
    (best best' : Option Solution) (c : Candidate)
    → train1 ≢ train2
    → Memᴰ train1 us
    → Memᴰ train2 ts
    → check_leaving s us ts from_hash to_hash date by_time best ≡ ok best'
    → Meets s train1 train2 from_hash to_hash date c
    → Beaten by_time c.journey best'
unfolding check_leaving
check_leaving-Beaten s train1 train2 [] ts from_hash to_hash date by_time best best' c other leaves
      among e m =
    elim leaves [ ]
check_leaving-Beaten s train1 train2 (t ∷ us) ts from_hash to_hash date by_time best best' c other
      (Memᴰ.head same) among e m =
    let (mid, first, rest) =
      >>=-eq-ok (check_arriving s t ts from_hash to_hash date by_time best) _ e in
    let checked : check_arriving s train1 ts from_hash to_hash date by_time best ≡ ok mid = cc in
    check_leaving-carries s us ts from_hash to_hash date by_time mid best' c.journey rest (
      check_arriving-Beaten s train1 train2 ts from_hash to_hash date by_time best mid c other among
        checked m)
check_leaving-Beaten s train1 train2 (t ∷ us) ts from_hash to_hash date by_time best best' c other
      (Memᴰ.tail leaves) among e m =
    let (mid, first, rest) =
      >>=-eq-ok (check_arriving s t ts from_hash to_hash date by_time best) _ e in
    check_leaving-Beaten s train1 train2 us ts from_hash to_hash date by_time mid best' c other
      leaves among rest m

-- Where `QueryTransfer` does not throw and `CheckTransfer` comes to a journey on a train that leaves
-- on the date and another one that goes to the destination, there is an answer, and it is ahead of
-- the journey: by the time or price that is asked for, or, where these are equal, by the other one,
-- or, where both are, by the names of the trains or with the same names.
pub find_transfer-Ahead :
    (a : TicketArgs) (s : Engine) (best : Option Solution) (train1 train2 : ℕ) (c : Candidate)
    → find_transfer a s ≡ ok best
    → Memᴰ train1 (fetch_train_leaving_from a.date (split_mix64_hash a.from) s.stop_register)
    → Memᴰ train2 (fetch_train_arriving_at (split_mix64_hash a.to) s.stop_register)
    → train1 ≢ train2
    → Meets s train1 train2 (split_mix64_hash a.from) (split_mix64_hash a.to) a.date c
    → (r : Solution) × (best ≡ some r) × Ahead (get_or a.order_by 0 0 == b't') r c.journey
unfolding find_transfer
find_transfer-Ahead a s best train1 train2 c e leaves arrives other m =
    let by_time : Bool = get_or a.order_by 0 0 == b't' in
    let (r, kept, worse) =
      check_leaving-Beaten s train1 train2 _ _ _ _ a.date by_time none best c other leaves arrives e
        m in
    (r, kept, NotBetter-Ahead by_time c.journey r worse)
