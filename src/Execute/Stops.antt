-- ===== src/Execute/Stops.antt =====
-- src/engine.cpp: what runs of commands keep of the index of stops and of the trains.
use bh_ticket_system.Base.{
  ℕ, zero, suc, ◌≡◌, refl, ◌^◌, inl, inr, Bytes, if◌then◌else◌, ok, none, some, [], ◌∷◌, ◌==◌,
  arith, Bool-cases, false, Option-cases, hash_eq, get_or, ◌+◌, ◌-◌, ◌%◌,
}
use mathlib.Core.Path.{subst}
use bh_ticket_system.Base.Map.{Map, get, put, erase, get-put, get-put_self, get-erase}
use bh_ticket_system.Hash.{split_mix64_hash}
use bh_ticket_system.Data.{CoreTrainData}
use bh_ticket_system.StopRegister.{Stops, no_offset}
use bh_ticket_system.StopRegister.Bounds.{SmallIds, add_stop_info-SmallIds}
use bh_ticket_system.StopRegister.Direct.{Each}
use bh_ticket_system.Data.{TicketPriceData}
use bh_ticket_system.Trains.Registered.{OfReleased, release_stops-OfReleased}
use bh_ticket_system.Args.{Command}
use bh_ticket_system.Engine.{Engine, Handler}
use bh_ticket_system.Users.{
  ProfileArgs, LoginArgs, add_user, login_user, logout_user, query_profile, modify_profile,
  add_user_with, login_user_with, logout_user_with, query_profile_with, modify_profile_with,
}
use bh_ticket_system.Users.Outcomes.{query_profile_with-same}
use bh_ticket_system.Trains.{
  TrainArgs, core_train_of, ticket_prices_of, add_train, add_train_with, delete_train,
  delete_train_with,
}
use bh_ticket_system.Trains.Release.{
  release_stops, release_train, release_train_with, offset_on_arrival, offset_on_leaving,
}
use bh_ticket_system.Trains.Query.{query_train}
use bh_ticket_system.Tickets.{query_ticket}
use bh_ticket_system.Tickets.Buy.{BuyArgs, buy_ticket, buy_ticket_with}
use bh_ticket_system.Tickets.Refund.{RefundArgs, refund_ticket, refund_ticket_with}
use bh_ticket_system.Tickets.Orders.{query_order}
use bh_ticket_system.Tickets.Transfer.{query_transfer}
use bh_ticket_system.Execute.{exit_engine}
use bh_ticket_system.Execute.Runs.{Keeps, parse_args-Keeps, KeptByAll, Runs, Runs-Keeps}
use bh_ticket_system.Execute.Frames.{
  Reads-Keeps, query_train_with-Reads, query_ticket_with-Reads, query_transfer_with-Reads,
  query_order_with-Reads,
}

-- The handler leaves the index of stops, the trains and their prices.
abbrev KeepsTrains : Handler → Type 0
KeepsTrains h =
    (s s' : Engine) (command : Command) (r : Bytes)
    → h s command ≡ ok (s', r)
    → (s.stop_register ≡ s'.stop_register)
      × (s.core_train_data_storage ≡ s'.core_train_data_storage)
      × (s.ticket_price_data_storage ≡ s'.ticket_price_data_storage)

add_user_with-KeepsTrains : (a : ProfileArgs) → KeepsTrains (add_user_with a)
unfolding add_user_with
add_user_with-KeepsTrains a s s' command r e = (ground arith, ground arith, ground arith)

login_user_with-KeepsTrains : (a : LoginArgs) → KeepsTrains (login_user_with a)
unfolding login_user_with
login_user_with-KeepsTrains a s s' command r e = (ground arith, ground arith, ground arith)

logout_user_with-KeepsTrains : (user_name : Bytes) → KeepsTrains (logout_user_with user_name)
unfolding logout_user_with
logout_user_with-KeepsTrains user_name s s' command r e = (ground arith, ground arith, ground arith)

modify_profile_with-KeepsTrains : (a : ProfileArgs) → KeepsTrains (modify_profile_with a)
unfolding modify_profile_with
modify_profile_with-KeepsTrains a s s' command r e = (ground arith, ground arith, ground arith)

buy_ticket_with-KeepsTrains : (a : BuyArgs) → KeepsTrains (buy_ticket_with a)
unfolding buy_ticket_with
buy_ticket_with-KeepsTrains a s s' command r e = (ground arith, ground arith, ground arith)

refund_ticket_with-KeepsTrains : (a : RefundArgs) → KeepsTrains (refund_ticket_with a)
unfolding refund_ticket_with
refund_ticket_with-KeepsTrains a s s' command r e = (ground arith, ground arith, ground arith)

-- What the index of stops, the trains and their prices have to do with one another.
abbrev pub Index : Stops → Map ℕ CoreTrainData → Map ℕ TicketPriceData → Type 0
Index stops cores prices =
    Each (OfReleased cores) stops
    × SmallIds stops
    × ((train : ℕ) → get train prices ≡ none → get train cores ≡ none)

-- Every entry of the index of stops is for a stop of a released train, the stops are numbered by bytes,
-- and no train that is stored has no prices.
abbrev pub Registered : Engine → Type 0
Registered s = Index s.stop_register s.core_train_data_storage s.ticket_price_data_storage

Index-same :
    {stops stops' : Stops} {cores cores' : Map ℕ CoreTrainData}
    {prices prices' : Map ℕ TicketPriceData}
    → (stops ≡ stops') × (cores ≡ cores') × (prices ≡ prices')
    → Index stops cores prices
    → Index stops' cores' prices'
Index-same {stops' = stops'} {cores = cores} {cores' = cores'} {prices = prices}
      (same_stops, same_cores, same_prices) x =
    subst (λ p. Index stops' cores' p) same_prices
      (subst (λ c. Index stops' c prices) same_cores
        (subst (λ i. Index i cores prices) same_stops x))

frame-Registered : (h : Handler) → KeepsTrains h → Keeps Registered h
frame-Registered h same s s' command r p e = Index-same (same s s' command r e) p

-- Entries stay right where the released trains stay.
OfReleased-kept :
    (cores cores' : Map ℕ CoreTrainData) (stops : Stops)
    → ((train : ℕ) (core : CoreTrainData)
        → get train cores ≡ some core
        → core.is_released ≡ 1
        → get train cores' ≡ some core)
    → Each (OfReleased cores) stops
    → Each (OfReleased cores') stops
OfReleased-kept cores cores' [] kept each = tt
OfReleased-kept cores cores' (x ∷ stops) kept ((core, found, released, stop), each) = (
  (core, kept x.0.train_id_hash core found released, released, stop),
  OfReleased-kept cores cores' stops kept each,
)

release_stops-SmallIds :
    (core : CoreTrainData) (train left i vis : ℕ) (stops : Stops)
    → SmallIds stops
    → SmallIds (release_stops core train left i vis stops)
unfolding release_stops
release_stops-SmallIds core train zero i vis stops small = small
release_stops-SmallIds core train (suc left) i vis stops small =
    let arrived = offset_on_arrival core i vis in
    let leaving = offset_on_leaving core i arrived in
    release_stops-SmallIds core train left (i + 1) leaving _ (
      add_stop_info-SmallIds (get_or core.stations_hash i 0) train core.sale_date_beg
        core.sale_date_end core.start_time (if i == 0 then no_offset else arrived % 2 ^ 16)
        (if i == core.station_num - 1 then no_offset else leaving % 2 ^ 16) i stops small)

module _ (train : ℕ) (stops : Stops) (cores : Map ℕ CoreTrainData) (prices : Map ℕ TicketPriceData)
    (x : Index stops cores prices) where
  add-Index :
      (core : CoreTrainData) (price : TicketPriceData)
      → get train prices ≡ none
      → Index stops (put train core cores) (put train price prices)
  add-Index core price new = (
    OfReleased-kept cores _ stops
        (λ t c found released.
          let absent = x.2 train new in ground (arith, get-put train t core cores, found, absent))
        x.0,
    x.1,
    λ t unpriced.
        ground (arith, get-put train t core cores, get-put train t price prices, unpriced, x.2 t),
  )

  delete-Index :
      (core : CoreTrainData)
      → get train cores ≡ some core
      → (core.is_released == 1) ≡ false
      → Index stops (erase train cores) (erase train prices)
  delete-Index core stored not_yet = (
    OfReleased-kept cores _ stops
        (λ t c found released.
          ground (arith, get-erase train t cores, found, released, stored, not_yet))
        x.0,
    x.1,
    λ t unpriced.
        ground (arith, get-erase train t cores, get-erase train t prices, unpriced, x.2 t),
  )

  release-Index :
      (core : CoreTrainData)
      → get train cores ≡ some core
      → (core.is_released == 1) ≡ false
      → Index
          (release_stops core train core.station_num 0 0 stops)
          (put train (record core { is_released = 1 }) cores)
          prices
  release-Index core stored not_yet = (
    release_stops-OfReleased _ train core (get-put_self train _ cores) core.station_num 0 0 stops
        (omega arith) (λ more. inl (refl, refl))
        (OfReleased-kept cores _ stops
          (λ t c found released. ground (
            arith,
            get-put train t (record core { is_released = 1 }) cores,
            hash_eq.beq_iff train t,
            found,
            released,
            stored,
            not_yet,
          ))
          x.0),
    release_stops-SmallIds core train core.station_num 0 0 stops x.1,
    λ t unpriced.
        let absent = x.2 t unpriced in
        ground (
          arith,
          get-put train t (record core { is_released = 1 }) cores,
          hash_eq.beq_iff train t,
          absent,
          stored,
        ),
  )

add_train_with-Registered : (a : TrainArgs) → Keeps Registered (add_train_with a)
unfolding add_train_with
add_train_with-Registered a s s' command r x e =
    let train = split_mix64_hash a.train_id in
    elim (Option-cases (get train s.ticket_price_data_storage)) [
      | inr (prices, there) ↦ Index-same (ground arith, ground arith, ground arith) x
      | inl new ↦
          Index-same (ground arith, ground arith, ground arith)
            (add-Index train _ _ _ x (core_train_of a) (ticket_prices_of a) new)
    ]

delete_train_with-Registered : (train_id : Bytes) → Keeps Registered (delete_train_with train_id)
unfolding delete_train_with
delete_train_with-Registered train_id s s' command r x e =
    let train = split_mix64_hash train_id in
    elim (Option-cases (get train s.core_train_data_storage)) [
      | inl unknown ↦ Index-same (ground arith, ground arith, ground arith) x
      | inr (core, stored) ↦ elim (Bool-cases (core.is_released == 1)) [
        | inl before ↦ Index-same (ground arith, ground arith, ground arith) x
        | inr not_yet ↦
            Index-same (ground arith, ground arith, ground arith)
              (delete-Index train _ _ _ x core stored not_yet)
      ]
    ]

release_train_with-Registered : (train_id : Bytes) → Keeps Registered (release_train_with train_id)
unfolding release_train_with
release_train_with-Registered train_id s s' command r x e =
    let train = split_mix64_hash train_id in
    elim (Option-cases (get train s.core_train_data_storage)) [
      | inl unknown ↦ Index-same (ground arith, ground arith, ground arith) x
      | inr (core, stored) ↦ elim (Bool-cases (core.is_released == 1)) [
        | inl before ↦ Index-same (ground arith, ground arith, ground arith) x
        | inr not_yet ↦
            Index-same (ground arith, ground arith, ground arith)
              (release-Index train _ _ _ x core stored not_yet)
      ]
    ]

all-Registered : KeptByAll Registered
unfolding add_user login_user logout_user query_profile modify_profile add_train delete_train
    release_train query_train query_ticket query_transfer buy_ticket query_order refund_ticket
    exit_engine
all-Registered =
    let P : Engine → Type 0 = Registered in
    record {
      by_add_user =
          parse_args-Keeps P _ _ _ (λ a. frame-Registered _ (add_user_with-KeepsTrains a));
      by_login = parse_args-Keeps P _ _ _ (λ a. frame-Registered _ (login_user_with-KeepsTrains a));
      by_logout =
          parse_args-Keeps P _ _ _ (λ a. frame-Registered _ (logout_user_with-KeepsTrains a));
      by_query_profile =
          parse_args-Keeps P _ _ _
            (λ a. Reads-Keeps P (query_profile_with a) (query_profile_with-same a));
      by_modify_profile =
          parse_args-Keeps P _ _ _ (λ a. frame-Registered _ (modify_profile_with-KeepsTrains a));
      by_add_train = parse_args-Keeps P _ _ _ add_train_with-Registered;
      by_delete_train = parse_args-Keeps P _ _ _ delete_train_with-Registered;
      by_release_train = parse_args-Keeps P _ _ _ release_train_with-Registered;
      by_query_train = parse_args-Keeps P _ _ _ (λ a. Reads-Keeps P _ (query_train_with-Reads a));
      by_query_ticket = parse_args-Keeps P _ _ _ (λ a. Reads-Keeps P _ (query_ticket_with-Reads a));
      by_query_transfer =
          parse_args-Keeps P _ _ _ (λ a. Reads-Keeps P _ (query_transfer_with-Reads a));
      by_buy_ticket =
          parse_args-Keeps P _ _ _ (λ a. frame-Registered _ (buy_ticket_with-KeepsTrains a));
      by_query_order = parse_args-Keeps P _ _ _ (λ a. Reads-Keeps P _ (query_order_with-Reads a));
      by_refund_ticket =
          parse_args-Keeps P _ _ _ (λ a. frame-Registered _ (refund_ticket_with-KeepsTrains a));
      by_exit = λ s s' command r x e. Index-same (ground arith, ground arith, ground arith) x;
    }

-- In every state that commands lead to from one where it is so: no train is stored that has no prices,
-- the stops of the index are numbered by bytes, and every entry of the index is for a train that is stored and released, and if that train comes to each station once, for one of its
-- stops: with the station and the number of the stop, the time of the start, the days of sale, and the
-- minutes until the train comes there, but at its first stop, or until it leaves, but at its last one.
pub Runs-Registered : {s s' : Engine} → Runs s s' → Registered s → Registered s'
Runs-Registered run x = Runs-Keeps Registered all-Registered run x
