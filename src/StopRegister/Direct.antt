-- ===== src/StopRegister/Direct.antt =====
-- src/include/stop_register.hpp: the trains that `QueryDirectTrains` finds.
use bh_ticket_system.Base.{
  ℕ, zero, suc, ◌+◌, ◌*◌, ◌/◌, ◌%◌, ◌^◌, ◌≤◌, ◌<◌, ◌≡◌, refl, true, Option, none, some, List, [],
  ◌∷◌, ltb, ◌==◌, ◌!=◌, get_elem?, arith, Bool-cases, Option-cases, inl, inr,
}
use bh_ticket_system.Base.Index.{lower_bound}
use bh_ticket_system.Data.{StopKey, MinimalTrainRecord, DirectTrainInfo}
use bh_ticket_system.StopRegister.{
  Stops, stop_order, advance_to, direct_from, query_direct_trains, train_info, on_sale_u32, sub32,
  delta_days,
}

-- An entry of the index.
abbrev pub In : StopKey × MinimalTrainRecord → Stops → Type 0
In x stops = (i : ℕ) × (get_elem? stops i ≡ some x)

In-cons : (x y : StopKey × MinimalTrainRecord) (stops : Stops) → In x stops → In x (y ∷ stops)
In-cons x y stops (i, e) = (suc i, e)

-- A train runs from one station to another one on a day: one gets on at an entry of the index for the
-- first station and off at one for the second; it started on a day of sale that is so many days ago as
-- it takes to the first station; and it leaves there before it arrives.
pub record Direct (date from to : ℕ) (stops : Stops) (t : DirectTrainInfo) : Type 0 where
  pub on : StopKey × MinimalTrainRecord
  pub off : StopKey × MinimalTrainRecord
  pub on_in : In on stops
  pub off_in : In off stops
  pub on_station : on.0.station_id_hash ≡ from
  pub off_station : off.0.station_id_hash ≡ to
  pub on_type : on.0.type ≡ 1
  pub off_type : off.0.type ≡ 0
  pub on_train : on.0.train_id_hash ≡ t.train_id_hash
  pub off_train : off.0.train_id_hash ≡ t.train_id_hash
  pub from_stop : t.from_stop_id ≡ on.0.stop_id
  pub to_stop : t.to_stop_id ≡ off.0.stop_id
  pub day :
      (t.actual_start_date + (on.0.start_time + on.1.vis_time_offset) / 1440) % 2 ^ 32
      ≡ date % 2 ^ 32
  pub first_day : on.1.sale_date_beg + 152 ≤ t.actual_start_date
  pub last_day : t.actual_start_date ≤ on.1.sale_date_end + 152
  pub leaves :
      t.leave_time_stamp ≡ t.actual_start_date * 1440 + (on.0.start_time + on.1.vis_time_offset)
  pub arrives :
      t.arrive_time_stamp ≡ t.actual_start_date * 1440 + on.0.start_time + off.1.vis_time_offset
  pub forward : t.leave_time_stamp < t.arrive_time_stamp

abbrev pub Each {ℓ} : {A : Type ℓ} → (A → Type 0) → List A → Type 0
Each P [] = Unit {0}
Each P (x ∷ xs) = P x × Each P xs

-- What the inner loop finds, and what it leaves.
record Advanced (station train : ℕ) (stops : Stops)
    (result : Option (StopKey × MinimalTrainRecord) × Stops) : Type 0 where
  rest : (x : StopKey × MinimalTrainRecord) → In x result.1 → In x stops
  found :
      (x : StopKey × MinimalTrainRecord)
      → result.0 ≡ some x
      → In x stops × (x.0.station_id_hash ≡ station) × (x.0.type ≡ 0) × (x.0.train_id_hash ≡ train)

advance_to-Advanced :
    (station train : ℕ) (stops : Stops)
    → Advanced station train stops (advance_to station train stops)
unfolding advance_to
advance_to-Advanced station train [] = record {
  rest = λ x i. i;
  found = λ x e. absurd (ground (arith, e));
}
advance_to-Advanced station train ((key, r) ∷ it) =
    let more = advance_to-Advanced station train it in
    let next : Advanced station train ((key, r) ∷ it) (advance_to station train it) = record {
      rest = λ x i. In-cons x (key, r) it (more.rest x i);
      found = λ x e.
          let (there, same_station, off, same_train) = more.found x e in
          (In-cons x (key, r) it there, same_station, off, same_train);
    } in
    let stop : Advanced station train ((key, r) ∷ it) (none, (key, r) ∷ it) = record {
      rest = λ x i. i;
      found = λ x e. absurd (ground (arith, e));
    } in
    elim (Bool-cases (key.station_id_hash != station)) [
      | inl other ↦ rw other stop
      | inr here ↦ elim (Bool-cases (key.type != 0)) [
        | inl on ↦ rw (here, on) next
        | inr off ↦ elim (Bool-cases (ltb train key.train_id_hash)) [
          | inl behind ↦ rw (here, off, behind) stop
          | inr not_behind ↦ elim (Bool-cases (key.train_id_hash == train)) [
            | inl same ↦
                rw (here, off, not_behind, same)
                  (record {
                    rest = λ x i. In-cons x (key, r) it i;
                    found = λ x e. (
                      (zero, e),
                      ground (arith, e, here),
                      ground (arith, e, off),
                      ground (arith, e, same),
                    );
                  })
            | inr before ↦ rw (here, off, not_behind, before) next
          ]
        ]
      ]
    ]

-- A pair of entries that the test lets through gives such a train.
train_info-Direct :
    (date from to : ℕ) (stops : Stops) (on off : StopKey × MinimalTrainRecord)
    → In on stops
    → In off stops
    → on.0.station_id_hash ≡ from
    → on.0.type ≡ 1
    → on_sale_u32 date on.0 on.1 ≡ true
    → (off.0.station_id_hash ≡ to) × (off.0.type ≡ 0) × (off.0.train_id_hash ≡ on.0.train_id_hash)
    → (train_info (sub32 date (delta_days on.0 on.1)) on.0 on.1 off.0 off.1).leave_time_stamp
      < (train_info (sub32 date (delta_days on.0 on.1)) on.0 on.1 off.0 off.1).arrive_time_stamp
    → Direct date from to stops
        (train_info (sub32 date (delta_days on.0 on.1)) on.0 on.1 off.0 off.1)
unfolding on_sale_u32
train_info-Direct date from to stops on off i j here type_on sold (there, type_off, same) later =
    record {
      on = on;
      off = off;
      on_in = i;
      off_in = j;
      on_station = here;
      off_station = there;
      on_type = type_on;
      off_type = type_off;
      on_train = refl;
      off_train = same;
      from_stop = refl;
      to_stop = refl;
      day = omega arith;
      first_day = ground (arith, sold);
      last_day = ground (arith, sold);
      leaves = refl;
      arrives = refl;
      forward = later;
    }

direct_from-Each :
    (date from to : ℕ) (stops it_from it_to : Stops)
    → ((x : StopKey × MinimalTrainRecord) → In x it_from → In x stops)
    → ((x : StopKey × MinimalTrainRecord) → In x it_to → In x stops)
    → Each (Direct date from to stops) (direct_from date from to it_from it_to)
unfolding direct_from
direct_from-Each date from to stops [] it_to of_from of_to = tt
direct_from-Each date from to stops ((key, r) ∷ it_from) it_to of_from of_to =
    let step = advance_to-Advanced to key.train_id_hash it_to in
    let of_rest : (x : StopKey × MinimalTrainRecord) → In x it_from → In x stops =
      λ x i. of_from x (In-cons x (key, r) it_from i) in
    let skipped = direct_from-Each date from to stops it_from it_to of_rest of_to in
    let checked =
      direct_from-Each date from to stops it_from (advance_to to key.train_id_hash it_to).1 of_rest
        (λ x i. of_to x (step.rest x i)) in
    elim (Bool-cases (key.station_id_hash != from)) [
      | inl other ↦ rw other tt
      | inr here ↦ elim (Bool-cases (key.type != 1)) [
        | inl off ↦ rw (here, off) skipped
        | inr on ↦ elim (Bool-cases (on_sale_u32 date key r)) [
          | inr not_sold ↦ rw (here, on, not_sold) skipped
          | inl sold ↦ elim (Option-cases (advance_to to key.train_id_hash it_to).0) [
            | inl nowhere ↦ rw (here, on, sold, nowhere) checked
            | inr (x, met) ↦
                let (i, there, type_off, same) = step.found x met in
                let entry = train_info (sub32 date (delta_days key r)) key r x.0 x.1 in
                elim (Bool-cases (ltb entry.leave_time_stamp entry.arrive_time_stamp)) [
                  | inl later ↦
                      rw (here, on, sold, met, later)
                        (
                          train_info-Direct date from to stops (key, r) x
                              (of_from (key, r) (zero, refl)) (of_to x i) (ground (arith, here))
                              (ground (arith, on)) sold (there, type_off, same)
                              (ground (arith, later)),
                          checked,
                        )
                  | inr never ↦ rw (here, on, sold, met, never) checked
                ]
          ]
        ]
      ]
    ]

lower_bound-In :
    (key : StopKey) (stops : Stops) (x : StopKey × MinimalTrainRecord)
    → In x (lower_bound key stops)
    → In x stops
unfolding lower_bound
lower_bound-In key [] x = λ i. i
lower_bound-In key ((j, w) ∷ stops) x = elim (Bool-cases (stop_order.lt j key)) [
  | inl before ↦ rw before (λ i. In-cons x (j, w) stops (lower_bound-In key stops x i))
  | inr not_before ↦ rw not_before (λ i. i)
]

-- `QueryDirectTrains` finds only trains that run from the one station to the other one on the day.
pub query_direct_trains-Each :
    (date from to : ℕ) (stops : Stops)
    → Each (Direct date from to stops) (query_direct_trains date from to stops)
unfolding query_direct_trains
query_direct_trains-Each date from to stops =
    direct_from-Each date from to stops _ _ (lower_bound-In _ stops) (lower_bound-In _ stops)
