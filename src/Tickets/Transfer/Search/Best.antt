-- ===== src/Tickets/Transfer/Search/Best.antt =====
-- src/transaction_system.cpp: no journey that `CheckTransfer` meets is better than the one it keeps.
use bh_ticket_system.Base.{
  ℕ, zero, suc, ◌≡◌, ◌≢◌, refl, sym, inl, inr, Bool, true, false, Option, none, some, ◌==◌,
  if◌then◌else◌, hash_eq, pair_eq, get_or, arith, ok, ◌>>=◌, >>=-eq-ok, or_fail, runtime_error,
  Bool-cases, Option-cases, Result-cases,
}
use mathlib.Core.Path.{subst}
use bh_ticket_system.Base.Map.{get}
use bh_ticket_system.Engine.{Engine}
use bh_ticket_system.Tickets.Transfer.Search.{
  Solution, Boarding, Pair, Candidate, candidate, complete, keeps_existing, keeps_best, next_best,
  search_back, check_pair, check_transfer, boarding, visit, dest_behind,
}
use bh_ticket_system.Tickets.Transfer.Search.Order.{
  NotBetter, NotBetter-trans, NotBetter-self, keeps_existing-NotBetter,
}

-- The solution at hand is there, and `c` is not better.
abbrev pub Beaten : Bool → Solution → Option Solution → Type 0
Beaten by_time c best = (r : Solution) × (best ≡ some r) × NotBetter by_time c r

-- Looking up the name and the seats leaves what the tests look at.
complete-Beaten :
    (by_time : Bool) (s : Engine) (p : Pair) (start via1 i dest : ℕ) (c : Candidate)
    (r a : Solution)
    → complete s p start via1 i dest c ≡ ok r
    → NotBetter by_time a c.journey
    → NotBetter by_time a r
unfolding complete keeps_existing
complete-Beaten true s p start via1 i dest c r a e h = ground arith
complete-Beaten false s p start via1 i dest c r a e h = ground arith

keeps_best-Beaten :
    (by_time : Bool) (best : Option Solution) (c : Solution)
    → keeps_best by_time best c ≡ true
    → Beaten by_time c best
unfolding keeps_best
keeps_best-Beaten by_time none c h = cc
keeps_best-Beaten by_time (some r) c h = (r, refl, keeps_existing-NotBetter by_time r c h)

next_best-taken :
    (s : Engine) (p : Pair) (b : Boarding) (by_time : Bool) (date via1 i dest : ℕ)
    (best best' : Option Solution) (c : Candidate)
    → candidate p date b.start via1 i dest ≡ ok (some c)
    → keeps_best by_time best c.journey ≡ false
    → next_best s p b by_time date via1 i dest best ≡ ok best'
    → (complete s p b.start via1 i dest c >>= λ r. ok (some r)) ≡ ok best'
unfolding next_best
next_best-taken s p b by_time date via1 i dest best best' c met replaced e = ground arith

-- One stop is looked at: what is kept is there, and neither the solution before nor the journey by
-- way of the stop is better.
next_best-Beaten :
    (s : Engine) (p : Pair) (b : Boarding) (by_time : Bool) (date via1 i dest : ℕ)
    (best best' : Option Solution)
    → next_best s p b by_time date via1 i dest best ≡ ok best'
    → ((a : Solution) → Beaten by_time a best → Beaten by_time a best')
      × ((c : Candidate)
          → candidate p date b.start via1 i dest ≡ ok (some c)
          → Beaten by_time c.journey best')
unfolding next_best keeps_best
next_best-Beaten s p b by_time date via1 i dest best best' e =
    elim (Result-cases (candidate p date b.start via1 i dest)) [
      | inr (_, failed) ↦ absurd (let f = failed in ground arith)
      | inl (none, gone) ↦
          let same : best ≡ best' = ground arith in
          (λ a beaten. subst (Beaten by_time a) same beaten, λ c found. absurd (ground arith))
      | inl (some c, met) ↦ elim (Bool-cases (keeps_best by_time best c.journey)) [
        | inl kept ↦
            let same : best ≡ best' = ground arith in
            let beaten = keeps_best-Beaten by_time best c.journey kept in
            (
              λ a h. subst (Beaten by_time a) same h,
              λ c' found.
                  let one : c ≡ c' = ground arith in
                  subst (λ (z : Candidate). Beaten by_time z.journey best') one
                    (subst (Beaten by_time c.journey) same beaten),
            )
        | inr replaced ↦
            let (r, taken, rest) =
              >>=-eq-ok (complete s p b.start via1 i dest c) (λ r. ok (some r))
                (next_best-taken s p b by_time date via1 i dest best best' c met replaced e) in
            let new : some r ≡ best' = ground arith in
            let carry : (a : Solution) → NotBetter by_time a c.journey → Beaten by_time a best' =
              λ a h. (r, sym new, complete-Beaten by_time s p b.start via1 i dest c r a taken h) in
            (
              λ a h.
                  let (r0, old, worse) = h in
                  let less : NotBetter by_time r0 c.journey = ground arith in
                  carry a (NotBetter-trans by_time a r0 c.journey worse less),
              λ c' found.
                  let one : c ≡ c' = ground arith in
                  subst (λ (z : Candidate). Beaten by_time z.journey best') one
                    (carry c.journey (NotBetter-self by_time c.journey)),
            )
      ]
    ]

-- The places to change that the second loop comes to, when `i` stops of the second train are left:
-- stop `via1` of the first train is stop `j` of the second, which lies before its stop `d`, the
-- destination.
pub data Visits (p : Pair) (b : Boarding) (to_hash : ℕ) : ℕ → Option ℕ → ℕ → ℕ → ℕ → Type 0 where
  here :
      {i via1 d : ℕ}
      → get_or p.core2.stations_hash i 0 ≢ to_hash
      → get (get_or p.core2.stations_hash i 0) b.transfers ≡ some via1
      → Visits p b to_hash (suc i) (some d) via1 i d
  later :
      {i via1 j d : ℕ} {dest : Option ℕ}
      → Visits p b to_hash i (dest_behind p to_hash i dest) via1 j d
      → Visits p b to_hash (suc i) dest via1 j d

visit-carries :
    (s : Engine) (p : Pair) (b : Boarding) (to_hash : ℕ) (by_time : Bool) (date i : ℕ)
    (dest : Option ℕ) (best best' : Option Solution) (a : Solution)
    → visit s p b to_hash by_time date i dest best ≡ ok best'
    → Beaten by_time a best
    → Beaten by_time a best'
unfolding visit
visit-carries s p b to_hash by_time date i dest best best' a e h =
    let stop : ℕ = get_or p.core2.stations_hash i 0 in
    elim (Option-cases (if stop == to_hash then none else get stop b.transfers)) [
      | inl no_change ↦ let same : best ≡ best' = ground arith in subst (Beaten by_time a) same h
      | inr (via1, change) ↦ elim (Option-cases dest) [
        | inl not_met ↦ (let same : best ≡ best' = ground arith in subst (Beaten by_time a) same h)
        | inr (d, met) ↦
            (next_best-Beaten s p b by_time date via1 i d best best' (ground arith)).0 a h
      ]
    ]

visit-here :
    (s : Engine) (p : Pair) (b : Boarding) (to_hash : ℕ) (by_time : Bool) (date i via1 d : ℕ)
    (best best' : Option Solution)
    → visit s p b to_hash by_time date i (some d) best ≡ ok best'
    → get_or p.core2.stations_hash i 0 ≢ to_hash
    → get (get_or p.core2.stations_hash i 0) b.transfers ≡ some via1
    → next_best s p b by_time date via1 i d best ≡ ok best'
unfolding visit
visit-here s p b to_hash by_time date i via1 d best best' e other change = ground arith

search_back-carries :
    (s : Engine) (p : Pair) (b : Boarding) (to_hash : ℕ) (by_time : Bool) (date i : ℕ)
    (dest : Option ℕ) (best best' : Option Solution) (a : Solution)
    → search_back s p b to_hash by_time date i dest best ≡ ok best'
    → Beaten by_time a best
    → Beaten by_time a best'
unfolding search_back
search_back-carries s p b to_hash by_time date zero dest best best' a e h =
    let same : best ≡ best' = ground arith in subst (Beaten by_time a) same h
search_back-carries s p b to_hash by_time date (suc i) dest best best' a e h =
    let (mid, first, rest) = >>=-eq-ok (visit s p b to_hash by_time date i dest best) _ e in
    search_back-carries s p b to_hash by_time date i (dest_behind p to_hash i dest) mid best' a rest
      (visit-carries s p b to_hash by_time date i dest best mid a first h)

-- The second loop of `CheckTransfer` ends with a solution than which no journey is better that it
-- came to on the way: neither by the time or price that is asked for first, nor, where these are
-- equal, by the other one, nor by the names of the trains.
pub search_back-Beaten :
    (s : Engine) (p : Pair) (b : Boarding) (to_hash : ℕ) (by_time : Bool) (date i : ℕ)
    (dest : Option ℕ) (best best' : Option Solution) (via1 j d : ℕ) (c : Candidate)
    → search_back s p b to_hash by_time date i dest best ≡ ok best'
    → Visits p b to_hash i dest via1 j d
    → candidate p date b.start via1 j d ≡ ok (some c)
    → Beaten by_time c.journey best'
unfolding search_back
search_back-Beaten s p b to_hash by_time date (suc i) dest best best' via1 j d c e
      (here other change) found =
    let (mid, first, rest) = >>=-eq-ok (visit s p b to_hash by_time date i (some d) best) _ e in
    let stop = visit-here s p b to_hash by_time date i via1 d best mid first other change in
    search_back-carries s p b to_hash by_time date i _ mid best' c.journey rest
      ((next_best-Beaten s p b by_time date via1 i d best mid stop).1 c found)
search_back-Beaten s p b to_hash by_time date (suc i) dest best best' via1 j d c e (later visits)
      found =
    let (mid, first, rest) = >>=-eq-ok (visit s p b to_hash by_time date i dest best) _ e in
    search_back-Beaten s p b to_hash by_time date i _ mid best' via1 j d c rest visits found
search_back-Beaten s p b to_hash by_time date zero dest best best' via1 j d c e visits found =
    elim visits [ ]

-- What is known of the two trains is what is stored of them.
pub record OfTrains (s : Engine) (train1 train2 : ℕ) (p : Pair) : Type 0 where
  pub is_hash1 : p.hash1 ≡ train1
  pub is_hash2 : p.hash2 ≡ train2
  pub has_core1 : get train1 s.core_train_data_storage ≡ some p.core1
  pub has_core2 : get train2 s.core_train_data_storage ≡ some p.core2
  pub has_prices1 : get train1 s.ticket_price_data_storage ≡ some p.prices1
  pub has_prices2 : get train2 s.ticket_price_data_storage ≡ some p.prices2

check_pair-parts :
    (s : Engine) (train1 train2 from_hash to_hash date : ℕ) (by_time : Bool)
    (best best' : Option Solution) (p : Pair)
    → check_pair s train1 train2 from_hash to_hash date by_time best ≡ ok best'
    → OfTrains s train1 train2 p
    → search_back s p
        (boarding from_hash p.core1)
        to_hash
        by_time
        date
        p.core2.station_num
        none
        best
      ≡ ok best'
unfolding check_pair
check_pair-parts s train1 train2 from_hash to_hash date by_time best best' p e of =
    let h1 = of.is_hash1 in
    let h2 = of.is_hash2 in
    let c1 = of.has_core1 in
    let c2 = of.has_core2 in let p1 = of.has_prices1 in let p2 = of.has_prices2 in ground arith

-- `CheckTransfer` for two trains ends with a solution than which no journey is better that changes
-- from the one to the other.
pub check_transfer-Beaten :
    (s : Engine) (train1 train2 from_hash to_hash date : ℕ) (by_time : Bool)
    (best best' : Option Solution) (p : Pair) (via1 j d : ℕ) (c : Candidate)
    → train1 ≢ train2
    → check_transfer s train1 train2 from_hash to_hash date by_time best ≡ ok best'
    → OfTrains s train1 train2 p
    → Visits p (boarding from_hash p.core1) to_hash p.core2.station_num none via1 j d
    → candidate p date (boarding from_hash p.core1).start via1 j d ≡ ok (some c)
    → Beaten by_time c.journey best'
unfolding check_transfer
check_transfer-Beaten s train1 train2 from_hash to_hash date by_time best best' p via1 j d c other e
      of visits found =
    search_back-Beaten s p (boarding from_hash p.core1) to_hash by_time date p.core2.station_num
      none best best' via1 j d c
      (check_pair-parts s train1 train2 from_hash to_hash date by_time best best' p (ground arith)
        of)
      visits found

check_pair-carries :
    (s : Engine) (train1 train2 from_hash to_hash date : ℕ) (by_time : Bool)
    (best best' : Option Solution) (a : Solution)
    → check_pair s train1 train2 from_hash to_hash date by_time best ≡ ok best'
    → Beaten by_time a best
    → Beaten by_time a best'
unfolding check_pair
check_pair-carries s train1 train2 from_hash to_hash date by_time best best' a e h =
    let (core1, h1, e1) =
      >>=-eq-ok (or_fail (get train1 s.core_train_data_storage) runtime_error) _ e in
    let (core2, h2, e2) =
      >>=-eq-ok (or_fail (get train2 s.core_train_data_storage) runtime_error) _ e1 in
    let (prices1, h3, e3) =
      >>=-eq-ok (or_fail (get train1 s.ticket_price_data_storage) runtime_error) _ e2 in
    let (prices2, h4, e4) =
      >>=-eq-ok (or_fail (get train2 s.ticket_price_data_storage) runtime_error) _ e3 in
    let p : Pair = record {
      hash1 = train1;
      hash2 = train2;
      core1 = core1;
      core2 = core2;
      prices1 = prices1;
      prices2 = prices2;
    } in
    search_back-carries s p (boarding from_hash core1) to_hash by_time date core2.station_num none
      best best' a e4 h

pub check_transfer-carries :
    (s : Engine) (train1 train2 from_hash to_hash date : ℕ) (by_time : Bool)
    (best best' : Option Solution) (a : Solution)
    → check_transfer s train1 train2 from_hash to_hash date by_time best ≡ ok best'
    → Beaten by_time a best
    → Beaten by_time a best'
unfolding check_transfer
check_transfer-carries s train1 train2 from_hash to_hash date by_time best best' a e h =
    elim (Bool-cases (train1 == train2)) [
      | inl one ↦ (let same : best ≡ best' = ground arith in subst (Beaten by_time a) same h)
      | inr two ↦
          check_pair-carries s train1 train2 from_hash to_hash date by_time best best' a
            (ground arith) h
    ]
