-- ===== src/Tickets/Transfer/Search.antt =====
-- src/transaction_system.cpp: `CheckTransfer` looks for the best journey with two trains.
pub mod Best
pub mod Order
use bh_ticket_system.Base.{
  ℕ, zero, suc, ◌+◌, ◌-◌, ◌*◌, ◌/◌, ◌%◌, ◌^◌, Bool, true, false, ◌||◌, Option, none, some, List, [],
  ◌∷◌, Bytes, bytes_lt, ltb, ◌==◌, if◌then◌else◌, hash_eq, pair_eq, get_or, take, Result, ok, err,
  runtime_error, ◌>>=◌, or_fail,
}
use bh_ticket_system.Base.Map.{Map, get, put}
use bh_ticket_system.Data.{CoreTrainData, TicketPriceData}
use bh_ticket_system.Engine.{Engine}
use bh_ticket_system.Seats.{available_seats}

-- The variables `train1_id` to `transfer_station_id` of `QueryTransfer`; there is a value when
-- `has_solution` is true.
pub record Solution : Type 0 where
  pub train1_id : Bytes
  pub train2_id : Bytes
  pub train1_leaving_time_stamp : ℕ
  pub train1_arriving_time_stamp : ℕ
  pub train2_leaving_time_stamp : ℕ
  pub train2_arriving_time_stamp : ℕ
  pub train1_price : ℕ
  pub train1_seat : ℕ
  pub train2_price : ℕ
  pub train2_seat : ℕ
  pub transfer_station_name : Bytes

-- The arrays `price_sum`, and `arrive_time_offset` with `leave_time_offset`, from place `i` on.
price_sums : List ℕ → ℕ → ℕ → ℕ → List ℕ
price_sums price zero i sum = []
price_sums price (suc left) i sum = sum ∷ price_sums price left (i + 1) (sum + get_or price i 0)

abbrev price_sum : CoreTrainData → TicketPriceData → ℕ → ℕ
price_sum core prices i = get_or (price_sums prices.price core.station_num 0 0) i 0

-- The pairs (arrival, departure) from stop `i` on, by the departure from the stop before.
time_offsets : CoreTrainData → ℕ → ℕ → ℕ → List (ℕ × ℕ)
time_offsets core zero i left_before = []
time_offsets core (suc left) i left_before =
    let arrive : ℕ = left_before + get_or core.travel_time (i - 1) 0 in
    let leave : ℕ = arrive + get_or core.stopover_time i 0 in
    (arrive, leave) ∷ time_offsets core left (i + 1) leave

offsets : CoreTrainData → List (ℕ × ℕ)
unfolding time_offsets
offsets core = (0, 0) ∷ time_offsets core (core.station_num - 1) 1 0

abbrev arrive_offset : CoreTrainData → ℕ → ℕ
arrive_offset core i = (get_or (offsets core) i (0, 0)).0

abbrev leave_offset : CoreTrainData → ℕ → ℕ
leave_offset core i = (get_or (offsets core) i (0, 0)).1

-- The first loop: `has_meet_begin_station`, `start_station_offset` and `transfer_mp`.
pub record Boarding : Type 0 where
  pub met : Bool
  pub start : ℕ
  pub transfers : Map ℕ ℕ

board : ℕ → List ℕ → ℕ → Boarding → Boarding
board from_hash [] i b = b
board from_hash (h ∷ hs) i b = board from_hash hs (i + 1) (
    if h == from_hash
    then record b { met = true; start = i }
    else if b.met
    then record b { transfers = put h i b.transfers }
    else b)

unfoldable pub boarding : ℕ → CoreTrainData → Boarding
unfolding board
boarding from_hash core =
    board from_hash (take core.station_num core.stations_hash) 0
      (record { met = false; start = 0; transfers = [] })

-- What is known of the two trains while the second is searched.
pub record Pair : Type 0 where
  pub hash1 : ℕ
  pub hash2 : ℕ
  pub core1 : CoreTrainData
  pub core2 : CoreTrainData
  pub prices1 : TicketPriceData
  pub prices2 : TicketPriceData

-- `train1_actual_start_date` for a departure on `date`; it may lie before the first day.
start_date : CoreTrainData → ℕ → ℕ → Result ℕ
unfolding offsets
start_date core start date =
    let days : ℕ = (core.start_time + leave_offset core start) / 1440 in
    if ltb date (core.sale_date_beg + days) || ltb (core.sale_date_end + days) date
    then err runtime_error
    else ok (date - days)

-- `tran2_day_delta`: how many days after the first the second train is taken.
waiting_days : ℕ → ℕ → ℕ
waiting_days leaving arrived =
    if ltb leaving arrived then (arrived - leaving + 1440 - 1) / 1440 else 0

-- A journey before its seats and the name of the station are looked up.
pub record Candidate : Type 0 where
  pub journey : Solution
  pub first_day : ℕ
  pub days : ℕ

-- The journey by way of stop `via1` of the first train and stop `i` of the second, to its stop
-- `dest`. `none` is the `continue` for a second train that has left for the last time.
unfoldable pub candidate : Pair → ℕ → ℕ → ℕ → ℕ → ℕ → Result (Option Candidate)
unfolding start_date waiting_days price_sums offsets
candidate p date start via1 i dest = start_date p.core1 start date >>= λ first_day.
    let day1 : ℕ = first_day * 1440 + p.core1.start_time in
    let arriving1 : ℕ = day1 + arrive_offset p.core1 via1 in
    let from2 : ℕ = p.core2.start_time + leave_offset p.core2 i in
    let earliest2 : ℕ = p.core2.sale_date_beg * 1440 + from2 in
    let days : ℕ = waiting_days earliest2 arriving1 in
    let leaving2 : ℕ = earliest2 + days * 1440 in
    let journey : Solution = record {
      train1_id = p.prices1.train_id;
      train2_id = p.prices2.train_id;
      train1_leaving_time_stamp = day1 + leave_offset p.core1 start;
      train1_arriving_time_stamp = arriving1;
      train2_leaving_time_stamp = leaving2;
      train2_arriving_time_stamp = leaving2 + arrive_offset p.core2 dest - leave_offset p.core2 i;
      train1_price = price_sum p.core1 p.prices1 via1 - price_sum p.core1 p.prices1 start;
      train1_seat = 0;
      train2_price = price_sum p.core2 p.prices2 dest - price_sum p.core2 p.prices2 i;
      train2_seat = 0;
      transfer_station_name = [];
    } in
    if ltb (p.core2.sale_date_end * 1440 + from2) arriving1
    then ok none
    else ok (some (record { journey = journey; first_day = first_day; days = days }))

-- The name of the station and the seats, which are read once a journey is taken.
pub complete : Engine → Pair → ℕ → ℕ → ℕ → ℕ → Candidate → Result Solution
unfolding available_seats
complete s p start via1 i dest c = do
  names ← or_fail (get p.hash1 s.station_name_data_storage) runtime_error
  seats1 ←
      or_fail (get (p.hash1, (c.first_day - p.core1.sale_date_beg) % 2 ^ 8) s.seats_data_storage)
        runtime_error
  seats2 ← or_fail (get (p.hash2, c.days % 2 ^ 8) s.seats_data_storage) runtime_error
  let r = c.journey
  ok (record r {
    train1_seat = available_seats seats1.seat start via1;
    train2_seat = available_seats seats2.seat i dest;
    transfer_station_name = take 40 (get_or names.name via1 []);
  })

unfoldable pub total_time : Solution → ℕ
total_time r = r.train2_arriving_time_stamp - r.train1_leaving_time_stamp

unfoldable pub both_prices : Solution → ℕ
both_prices r = r.train1_price + r.train2_price

-- The tests before `passed_test`: the solution `r` that is there stays when `true`.
keep_by_names : Solution → Solution → Bool
keep_by_names r c =
    if bytes_lt r.train1_id c.train1_id
    then true
    else if bytes_lt c.train1_id r.train1_id
    then false
    else bytes_lt r.train2_id c.train2_id

unfoldable pub keeps_existing : Bool → Solution → Solution → Bool
unfolding total_time both_prices keep_by_names
keeps_existing sort_by_time r c =
    let key1 : ℕ = if sort_by_time then total_time r else both_prices r in
    let key2 : ℕ = if sort_by_time then both_prices r else total_time r in
    let new1 : ℕ = if sort_by_time then total_time c else both_prices c in
    let new2 : ℕ = if sort_by_time then both_prices c else total_time c in
    if ltb key1 new1
    then true
    else if ltb new1 key1
    then false
    else if ltb key2 new2
    then true
    else if ltb new2 key2
    then false
    else keep_by_names r c

unfoldable pub keeps_best : Bool → Option Solution → Solution → Bool
unfolding keeps_existing
keeps_best by_time none c = false
keeps_best by_time (some r) c = keeps_existing by_time r c

-- The best journey after stop `i` of the second train, a stop behind `b.start` of the first, is
-- looked at.
pub next_best :
    Engine → Pair → Boarding → Bool → ℕ → ℕ → ℕ → ℕ → Option Solution → Result (Option Solution)
unfolding candidate complete keeps_best
next_best s p b by_time date via1 i dest best = candidate p date b.start via1 i dest >>= λ found.
    elim found [
      | none ↦ ok best
      | some c ↦
          if keeps_best by_time best c.journey
          then ok best
          else (complete s p b.start via1 i dest c >>= λ r. ok (some r))
    ]

-- One round of the second loop, at stop `i` of the second train: `dest` is `dest_station_offset`,
-- once the destination is met. A stop of the first train behind `b.start` is a place to change.
unfoldable pub visit :
    Engine
    → Pair
    → Boarding
    → ℕ
    → Bool
    → ℕ
    → ℕ
    → Option ℕ
    → Option Solution
    → Result (Option Solution)
unfolding next_best
visit s p b to_hash by_time date i dest best =
    let h : ℕ = get_or p.core2.stations_hash i 0 in
    let transfer : Option ℕ = if h == to_hash then none else get h b.transfers in
    elim transfer [
      | none ↦ ok best
      | some via1 ↦ elim dest [
        | none ↦ ok best
        | some d ↦ next_best s p b by_time date via1 i d best
      ]
    ]

-- `dest_station_offset` behind the round at stop `i`.
unfoldable pub dest_behind : Pair → ℕ → ℕ → Option ℕ → Option ℕ
dest_behind p to_hash i dest = if get_or p.core2.stations_hash i 0 == to_hash then some i else dest

-- The second loop, over the stops of the second train from the last one down; `suc i` of them are
-- left.
unfoldable pub search_back :
    Engine
    → Pair
    → Boarding
    → ℕ
    → Bool
    → ℕ
    → ℕ
    → Option ℕ
    → Option Solution
    → Result (Option Solution)
unfolding visit dest_behind
search_back s p b to_hash by_time date zero dest best = ok best
search_back s p b to_hash by_time date (suc i) dest best =
    visit s p b to_hash by_time date i dest best >>= λ r.
    search_back s p b to_hash by_time date i (dest_behind p to_hash i dest) r

-- `CheckTransfer` on two different trains.
pub check_pair : Engine → ℕ → ℕ → ℕ → ℕ → ℕ → Bool → Option Solution → Result (Option Solution)
unfolding search_back boarding
check_pair s train1 train2 from_hash to_hash date by_time best = do
  core1 ← or_fail (get train1 s.core_train_data_storage) runtime_error
  core2 ← or_fail (get train2 s.core_train_data_storage) runtime_error
  prices1 ← or_fail (get train1 s.ticket_price_data_storage) runtime_error
  prices2 ← or_fail (get train2 s.ticket_price_data_storage) runtime_error
  let p : Pair = record {
    hash1 = train1;
    hash2 = train2;
    core1 = core1;
    core2 = core2;
    prices1 = prices1;
    prices2 = prices2;
  }
  search_back s p (boarding from_hash core1) to_hash by_time date core2.station_num none best

-- `CheckTransfer`
unfoldable pub check_transfer :
    Engine → ℕ → ℕ → ℕ → ℕ → ℕ → Bool → Option Solution → Result (Option Solution)
unfolding check_pair
check_transfer s train1 train2 from_hash to_hash date by_time best =
    if train1 == train2
    then ok best
    else check_pair s train1 train2 from_hash to_hash date by_time best
