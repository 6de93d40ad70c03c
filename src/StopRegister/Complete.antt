-- ===== src/StopRegister/Complete.antt =====
-- src/include/stop_register.hpp: `QueryDirectTrains` misses no train.
use bh_ticket_system.Base.{
  ℕ, ◌+◌, ◌*◌, ◌/◌, ◌^◌, ◌≤◌, ◌<◌, ◌≡◌, refl, Bool-cases, Option-cases, true, false, sym, some, [],
  ◌∷◌, ltb, ◌!=◌, arith, inl, inr,
}
use mathlib.Core.Path.{subst}
use bh_ticket_system.Base.Index.{lower_bound}
use bh_ticket_system.Data.{StopKey, MinimalTrainRecord, DirectTrainInfo}
use bh_ticket_system.StopRegister.{
  Stops, stop_order, advance_to, direct_from, query_direct_trains, train_info, on_sale_u32, sub32,
  delta_days, search_key,
}
use bh_ticket_system.StopRegister.Direct.{Each}
use bh_ticket_system.StopRegister.Reach.{
  Among, Before, Ordered, From, Each-Among, advance_to-suffix, advance_to-Among, advance_to-finds,
}

module _ (date from to : ℕ) (on off : StopKey × MinimalTrainRecord)
    (on_station : on.0.station_id_hash ≡ from) (on_type : on.0.type ≡ 1)
    (off_station : off.0.station_id_hash ≡ to) (off_type : off.0.type ≡ 0)
    (one_train : off.0.train_id_hash ≡ on.0.train_id_hash)
    (sold : on_sale_u32 date on.0 on.1 ≡ true)
    (forward : ltb
        (train_info (sub32 date (delta_days on.0 on.1)) on.0 on.1 off.0 off.1).leave_time_stamp
        (train_info (sub32 date (delta_days on.0 on.1)) on.0 on.1 off.0 off.1).arrive_time_stamp
      ≡ true) where
  direct_from-finds :
      (it_from it_to : Stops)
      → Ordered it_from
      → From from it_from
      → Ordered it_to
      → From to it_to
      → Among on it_from
      → Among off it_to
      → Among
          (train_info (sub32 date (delta_days on.0 on.1)) on.0 on.1 off.0 off.1)
          (direct_from date from to it_from it_to)
  unfolding direct_from
  direct_from-finds [] it_to o f o' f' on_there off_there = absurd on_there
  direct_from-finds ((key, r) ∷ it_from) it_to (first, o) (low, f) o' f' (inl e) off_there =
      let met : (advance_to to on.0.train_id_hash it_to).0 ≡ some off =
        advance_to-finds to on.0.train_id_hash off it_to o' f' off_there off_station off_type
          one_train in
      let here : (on.0.station_id_hash != from) ≡ false = ground (arith, on_station) in
      let kind : (on.0.type != 1) ≡ false = ground (arith, on_type) in
      subst
        (λ (x : StopKey × MinimalTrainRecord).
          Among (train_info (sub32 date (delta_days on.0 on.1)) on.0 on.1 off.0 off.1)
            (direct_from date from to (x ∷ it_from) it_to))
        (sym e) (rw (here, kind, sold, met, forward) (inl refl))
  direct_from-finds ((key, r) ∷ it_from) it_to (first, o) (low, f) o' f' (inr later) off_there =
      let before : Before (key, r) on = Each-Among (Before (key, r)) on it_from first later in
      let skipped = direct_from-finds it_from it_to o f o' f' later off_there in
      let here : (key.station_id_hash != from) ≡ false = ground (arith, before, low, on_station) in
      elim (Bool-cases (key.type != 1)) [
        | inl other ↦ rw (here, other) skipped
        | inr kind ↦
            let earlier : key.train_id_hash < off.0.train_id_hash =
              ground (arith, before, low, on_station, on_type, kind, one_train) in
            let checked =
              direct_from-finds it_from (advance_to to key.train_id_hash it_to).1 o f
                (advance_to-suffix to key.train_id_hash Ordered (λ x it q. q.1) it_to o')
                (advance_to-suffix to key.train_id_hash (From to) (λ x it q. q.1) it_to f') later
                (advance_to-Among to key.train_id_hash off it_to off_type earlier off_there) in
            elim (Bool-cases (on_sale_u32 date key r)) [
              | inr not_sold ↦ rw (here, kind, not_sold) skipped
              | inl sold_too ↦ elim (Option-cases (advance_to to key.train_id_hash it_to).0) [
                | inl nowhere ↦ rw (here, kind, sold_too, nowhere) checked
                | inr (x, met) ↦
                    let entry = train_info (sub32 date (delta_days key r)) key r x.0 x.1 in
                    elim (Bool-cases (ltb entry.leave_time_stamp entry.arrive_time_stamp)) [
                      | inl goes ↦ rw (here, kind, sold_too, met, goes) (inr checked)
                      | inr never ↦ rw (here, kind, sold_too, met, never) checked
                    ]
              ]
            ]
      ]

lower_bound-suffix :
    (Q : Stops → Type 0)
    → ((x : StopKey × MinimalTrainRecord) (it : Stops) → Q (x ∷ it) → Q it)
    → (key : StopKey) (stops : Stops) → Q stops
    → Q (lower_bound key stops)
unfolding lower_bound
lower_bound-suffix Q tail key [] q = q
lower_bound-suffix Q tail key (x ∷ stops) q = elim (Bool-cases (stop_order.lt x.0 key)) [
  | inl before ↦ rw before (lower_bound-suffix Q tail key stops (tail x stops q))
  | inr not_before ↦ rw not_before q
]

Before-From :
    (station : ℕ) (x : StopKey × MinimalTrainRecord) (stops : Stops)
    → station ≤ x.0.station_id_hash
    → Each (Before x) stops
    → From station stops
Before-From station x [] low each = tt
Before-From station x (y ∷ stops) low (before, each) =
    (ground (arith, before, low), Before-From station x stops low each)

lower_bound-From :
    (station : ℕ) (stops : Stops)
    → Ordered stops
    → From station (lower_bound (search_key station 0 0) stops)
unfolding lower_bound stop_order
lower_bound-From station [] ordered = tt
lower_bound-From station (x ∷ stops) (first, ordered) =
    elim (Bool-cases (stop_order.lt x.0 (search_key station 0 0))) [
      | inl before ↦ rw before (lower_bound-From station stops ordered)
      | inr not_before ↦
          let low : station ≤ x.0.station_id_hash = ground (arith, not_before) in
          rw not_before (low, Before-From station x stops low first)
    ]

lower_bound-Among :
    (station : ℕ) (x : StopKey × MinimalTrainRecord) (stops : Stops)
    → x.0.station_id_hash ≡ station
    → Among x stops
    → Among x (lower_bound (search_key station 0 0) stops)
unfolding lower_bound stop_order
lower_bound-Among station x [] here among = among
lower_bound-Among station x (y ∷ stops) here among =
    elim (Bool-cases (stop_order.lt y.0 (search_key station 0 0))) [
      | inr not_before ↦ rw not_before among
      | inl before ↦
          let rest : Among x stops = elim among [
            | inl same ↦ absurd (ground (arith, same, before, here))
            | inr rest ↦ rest
          ] in
          rw before (lower_bound-Among station x stops here rest)
    ]

-- `QueryDirectTrains` finds every train that runs from the one station to the other one on the day, on
-- an index in order with one entry for a station, a train and a type, for a date of 32 bits: where the
-- index has an entry of the train for getting on at the one station and one for getting off at the
-- other, which it comes to later than it leaves the first, and the train started on a day of sale that
-- is as many days before the date as it takes to the first station. The answer has that day, the two
-- times, and the numbers of the two stops.
pub query_direct_trains-finds :
    (date from to start_date : ℕ) (stops : Stops) (on off : StopKey × MinimalTrainRecord)
    → Ordered stops
    → Among on stops
    → Among off stops
    → on.0.station_id_hash ≡ from
    → on.0.type ≡ 1
    → off.0.station_id_hash ≡ to
    → off.0.type ≡ 0
    → off.0.train_id_hash ≡ on.0.train_id_hash
    → on.1.vis_time_offset < off.1.vis_time_offset
    → start_date + (on.0.start_time + on.1.vis_time_offset) / 1440 ≡ date
    → date < 2 ^ 32
    → on.1.sale_date_beg + 152 ≤ start_date
    → start_date ≤ on.1.sale_date_end + 152
    → (t : DirectTrainInfo) × Among t (query_direct_trains date from to stops)
      × (t.train_id_hash ≡ on.0.train_id_hash)
      × (t.actual_start_date ≡ start_date)
      × (t.leave_time_stamp ≡ start_date * 1440 + (on.0.start_time + on.1.vis_time_offset))
      × (t.arrive_time_stamp ≡ start_date * 1440 + on.0.start_time + off.1.vis_time_offset)
      × (t.from_stop_id ≡ on.0.stop_id)
      × (t.to_stop_id ≡ off.0.stop_id)
unfolding query_direct_trains on_sale_u32
query_direct_trains-finds date from to start_date stops on off o on_there off_there on_station
      on_type off_station off_type one_train later day small first last =
    let back : sub32 date (delta_days on.0 on.1) ≡ start_date = omega arith in
    let sold : on_sale_u32 date on.0 on.1 ≡ true = ground (arith, back, first, last) in
    (
      train_info (sub32 date (delta_days on.0 on.1)) on.0 on.1 off.0 off.1,
      direct_from-finds date from to on off on_station on_type off_station off_type one_train sold
          (ground (arith, later)) _ _ (lower_bound-suffix Ordered (λ x it q. q.1) _ stops o)
          (lower_bound-From from stops o) (lower_bound-suffix Ordered (λ x it q. q.1) _ stops o)
          (lower_bound-From to stops o) (lower_bound-Among from on stops on_station on_there)
          (lower_bound-Among to off stops off_station off_there),
      refl,
      back,
      omega (arith, back),
      omega (arith, back),
      refl,
      refl,
    )
