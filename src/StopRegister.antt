-- ===== src/StopRegister.antt =====
-- src/include/stop_register.hpp: the index of stops, by station, train and whether one gets on or
-- off there.
pub mod Bounds
pub mod Direct
pub mod Added
pub mod Reach
pub mod Complete
pub mod Examples
use bh_ticket_system.Base.{
  ℕ, zero, suc, ◌+◌, ◌-◌, ◌*◌, ◌/◌, ◌%◌, ◌^◌, Bool, true, false, ◌||◌, Option, none, some, List, [],
  ◌∷◌, ltb, leb, ◌==◌, ◌!=◌, if◌then◌else◌,
}
use bh_ticket_system.Base.Index.{Order, Entries, lower_bound, insert}
use bh_ticket_system.Data.{StopKey, MinimalTrainRecord, DirectTrainInfo}

-- `operator<`: the stop's number is no part of the key.
stop_key_lt : StopKey → StopKey → Bool
stop_key_lt a b =
    if a.station_id_hash != b.station_id_hash
    then ltb a.station_id_hash b.station_id_hash
    else if a.train_id_hash != b.train_id_hash
    then ltb a.train_id_hash b.train_id_hash
    else if a.type != b.type
    then ltb a.type b.type
    else ltb a.start_time b.start_time

instance unfoldable pub stop_order : Order StopKey
unfolding stop_key_lt
stop_order = record { lt = stop_key_lt }

abbrev pub Stops : Type 0
Stops = Entries StopKey MinimalTrainRecord

abbrev june_1st_2024 : ℕ
june_1st_2024 = 152

abbrev pub no_offset : ℕ
no_offset = 2 ^ 16 - 1

-- `uint32_t` and `uint16_t` subtraction.
abbrev sub32 : ℕ → ℕ → ℕ
sub32 a b = (a + (2 ^ 32 - b % 2 ^ 32)) % 2 ^ 32

abbrev key_of : ℕ → ℕ → ℕ → ℕ → ℕ → StopKey
key_of station train type start stop = record {
  station_id_hash = station;
  train_id_hash = train;
  type = type % 2;
  start_time = start % 2 ^ 12;
  stop_id = stop % 2 ^ 8;
}

-- The dates are `uint16_t`, and the fields have 8, 8 and 14 bits.
minimal_record : ℕ → ℕ → ℕ → MinimalTrainRecord
minimal_record beg end offset = record {
  sale_date_beg = sub32 beg june_1st_2024 % 2 ^ 8;
  sale_date_end = sub32 end june_1st_2024 % 2 ^ 8;
  vis_time_offset = offset % 2 ^ 14;
}

unfoldable pub add_stop_info : ℕ → ℕ → ℕ → ℕ → ℕ → ℕ → ℕ → ℕ → Stops → Stops
unfolding minimal_record
add_stop_info station train beg end start arrive leave stop_id stops =
    let arriving =
      if arrive != no_offset
      then insert (key_of station train 0 start stop_id) (minimal_record beg end arrive) stops
      else stops in
    if leave != no_offset
    then insert (key_of station train 1 start stop_id) (minimal_record beg end leave) arriving
    else arriving

-- The two dates of a record, with the day of June 1st added back.
abbrev true_sale_date_beg : MinimalTrainRecord → ℕ
true_sale_date_beg r = r.sale_date_beg + june_1st_2024

abbrev true_sale_date_end : MinimalTrainRecord → ℕ
true_sale_date_end r = r.sale_date_end + june_1st_2024

-- The minutes from the start of the train's first day to its departure, and those days in full.
abbrev actual_time : StopKey → MinimalTrainRecord → ℕ
actual_time key r = key.start_time + r.vis_time_offset

abbrev delta_days : StopKey → MinimalTrainRecord → ℕ
delta_days key r = actual_time key r / 1440

-- `date - delta_days < beg || date - delta_days > end`, where `date` is a `uint32_t`.
on_sale_u32 : ℕ → StopKey → MinimalTrainRecord → Bool
on_sale_u32 date key r =
    let d : ℕ = sub32 date (delta_days key r) in
    if ltb d (true_sale_date_beg r) || ltb (true_sale_date_end r) d then false else true

-- The same test where `date` is an `int`: a difference below 0 lies before the first date.
on_sale_int : ℕ → StopKey → MinimalTrainRecord → Bool
on_sale_int date key r =
    if ltb date (true_sale_date_beg r + delta_days key r)
      || ltb (true_sale_date_end r + delta_days key r) date
    then false
    else true

-- The entry for a train, from the stop where one gets on and the one where one gets off.
abbrev train_info :
    ℕ → StopKey → MinimalTrainRecord → StopKey → MinimalTrainRecord → DirectTrainInfo
train_info start_date from r_from to r_to = record {
  train_id_hash = from.train_id_hash;
  actual_start_date = start_date;
  leave_time_stamp = start_date * 1440 + actual_time from r_from;
  arrive_time_stamp = start_date * 1440 + from.start_time + r_to.vis_time_offset;
  from_stop_id = from.stop_id;
  to_stop_id = to.stop_id;
  sale_date_beg = true_sale_date_beg r_from;
}

-- The inner loop of `QueryDirectTrains`: the stop of the train at the destination, if `it_to` meets
-- it, and where `it_to` stands afterwards.
pub advance_to : ℕ → ℕ → Stops → Option (StopKey × MinimalTrainRecord) × Stops
advance_to station train [] = (none, [])
advance_to station train ((key, r) ∷ rest) =
    let next = advance_to station train rest in
    if key.station_id_hash != station
    then (none, (key, r) ∷ rest)
    else if key.type != 0
    then next
    else if ltb train key.train_id_hash
    then (none, (key, r) ∷ rest)
    else if key.train_id_hash == train
    then (some (key, r), rest)
    else next

direct_from : ℕ → ℕ → ℕ → Stops → Stops → List DirectTrainInfo
unfolding on_sale_u32 advance_to
direct_from date from_station to_station [] it_to = []
direct_from date from_station to_station ((key, r) ∷ it_from) it_to =
    let skipped = direct_from date from_station to_station it_from it_to in
    let (found, it_to') = advance_to to_station key.train_id_hash it_to in
    let checked = direct_from date from_station to_station it_from it_to' in
    let start_date : ℕ = sub32 date (delta_days key r) in
    if key.station_id_hash != from_station
    then []
    else if key.type != 1
    then skipped
    else if on_sale_u32 date key r
    then elim found [
      | none ↦ checked
      | some (key_to, r_to) ↦
          let entry = train_info start_date key r key_to r_to in
          if ltb entry.leave_time_stamp entry.arrive_time_stamp then entry ∷ checked else checked
    ]
    else skipped

-- `{station, 0}` and `{station, train, type}` as keys to search for.
abbrev search_key : ℕ → ℕ → ℕ → StopKey
search_key station train type = key_of station train type 0 0

unfoldable pub query_direct_trains : ℕ → ℕ → ℕ → Stops → List DirectTrainInfo
unfolding direct_from stop_order
query_direct_trains date from_station to_station stops =
    direct_from date from_station to_station (lower_bound (search_key from_station 0 0) stops)
      (lower_bound (search_key to_station 0 0) stops)

-- `RequestSingleTrain` from the two iterators; `none` is `success = false`.
single_train : ℕ → ℕ → ℕ → ℕ → Stops → Stops → Option DirectTrainInfo
unfolding on_sale_int
single_train train date from_station to_station ((from, r_from) ∷ _) ((to, r_to) ∷ _) =
    if from.train_id_hash != train
      || (to.train_id_hash != train
          || (from.station_id_hash != from_station
              || (to.station_id_hash != to_station || (from.type != 1 || to.type != 0))))
    then none
    else if ltb r_to.vis_time_offset r_from.vis_time_offset
    then none
    else if on_sale_int date from r_from
    then some (train_info (date - delta_days from r_from) from r_from to r_to)
    else none
single_train train date from_station to_station _ _ = none

unfoldable pub request_single_train : ℕ → ℕ → ℕ → ℕ → Stops → Option DirectTrainInfo
unfolding single_train stop_order
request_single_train train date from_station to_station stops =
    single_train train date from_station to_station
      (lower_bound (search_key from_station train 1) stops)
      (lower_bound (search_key to_station train 0) stops)

leaving_from : ℕ → ℕ → Stops → List ℕ
unfolding on_sale_u32
leaving_from date station [] = []
leaving_from date station ((key, r) ∷ rest) =
    let more = leaving_from date station rest in
    if key.station_id_hash != station
    then []
    else if key.type != 1
    then more
    else if on_sale_u32 date key r
    then key.train_id_hash ∷ more
    else more

unfoldable pub fetch_train_leaving_from : ℕ → ℕ → Stops → List ℕ
unfolding leaving_from stop_order
fetch_train_leaving_from date station stops =
    leaving_from date station (lower_bound (search_key station 0 0) stops)

arriving_at : ℕ → Stops → List ℕ
arriving_at station [] = []
arriving_at station ((key, r) ∷ rest) =
    let more = arriving_at station rest in
    if key.station_id_hash != station
    then []
    else if key.type != 0
    then more
    else key.train_id_hash ∷ more

-- The date is not looked at.
unfoldable pub fetch_train_arriving_at : ℕ → Stops → List ℕ
unfolding arriving_at stop_order
fetch_train_arriving_at station stops =
    arriving_at station (lower_bound (search_key station 0 0) stops)
