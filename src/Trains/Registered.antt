-- ===== src/Trains/Registered.antt =====
-- src/train_system.cpp and src/include/stop_register.hpp: what the index of stops says of the trains.
use bh_ticket_system.Base.{
  ℕ, zero, suc, ◌+◌, ◌-◌, ◌%◌, ◌^◌, ◌<◌, ◌⊎◌, ◌≡◌, refl, some, get_or, ◌==◌, arith, inl, inr, Bool,
  false, if◌then◌else◌, hash_eq, sym, ◌∙◌, ap,
}
use mathlib.Core.Path.{subst}
use bh_ticket_system.Base.Map.{Map, get}
use bh_ticket_system.Data.{StopKey, MinimalTrainRecord, CoreTrainData}
use bh_ticket_system.StopRegister.{Stops, no_offset}
use bh_ticket_system.StopRegister.Direct.{Each}
use bh_ticket_system.StopRegister.Added.{Has, Numbered, add_stop_info-Each}
use bh_ticket_system.Trains.Release.{release_stops, offset_on_arrival, offset_on_leaving}

-- The minutes from the start to the departure from stop `i`, by the times of the train.
abbrev pub leaves_at : CoreTrainData → ℕ → ℕ
leaves_at core zero = 0
leaves_at core (suc i) =
    leaves_at core i + get_or core.travel_time i 0 + get_or core.stopover_time (suc i) 0

-- The entry is for one of the train's stops, with the number of the stop, the time of the start and the
-- days of sale. It says when the train comes there, which it does not to its first stop, or when it
-- leaves, which it does not from its last one.
pub record StopOf (core : CoreTrainData) (x : StopKey × MinimalTrainRecord) : Type 0 where
  pub place : ℕ
  pub in_range : place < core.station_num
  pub station : x.0.station_id_hash ≡ get_or core.stations_hash place 0
  pub number : x.0.stop_id ≡ place % 2 ^ 8
  pub start : x.0.start_time ≡ core.start_time % 2 ^ 12
  pub first_day : (x.1.sale_date_beg + 152) % 2 ^ 8 ≡ core.sale_date_beg % 2 ^ 8
  pub last_day : (x.1.sale_date_end + 152) % 2 ^ 8 ≡ core.sale_date_end % 2 ^ 8
  pub times :
      ((x.0.type ≡ 0)
        × (before : ℕ) × (place ≡ suc before)
        × (x.1.vis_time_offset
            ≡ (leaves_at core before + get_or core.travel_time before 0) % 2 ^ 14))
      ⊎ ((x.0.type ≡ 1)
          × (suc place < core.station_num)
          × (x.1.vis_time_offset ≡ leaves_at core place % 2 ^ 14))

-- A train comes to each station once.
abbrev pub DistinctStations : CoreTrainData → Type 0
DistinctStations core =
    (i k : ℕ)
    → i < core.station_num
    → k < core.station_num
    → get_or core.stations_hash i 0 ≡ get_or core.stations_hash k 0
    → i ≡ k

-- The entry is for a train that is released, and for one of its stops if it comes to each station once.
abbrev pub OfReleased : Map ℕ CoreTrainData → StopKey × MinimalTrainRecord → Type 0
OfReleased cores x =
    (core : CoreTrainData) × (get x.0.train_id_hash cores ≡ some core)
    × (core.is_released ≡ 1)
    × (DistinctStations core → StopOf core x)

-- The minutes until the train leaves the stop before stop `i`.
abbrev Left : CoreTrainData → ℕ → ℕ → Type 0
Left core i vis = ((i ≡ 0) × (vis ≡ 0)) ⊎ ((j : ℕ) × (i ≡ suc j) × (vis ≡ leaves_at core j))

-- An offset is cut down twice.
stored_offset :
    (b : Bool) (n m : ℕ)
    → b ≡ false
    → n ≡ m
    → (if b then no_offset else n % 2 ^ 16) % 2 ^ 14 ≡ m % 2 ^ 14
stored_offset b n m e same = rw e (omega (arith, same))

module _ (cores : Map ℕ CoreTrainData) (train : ℕ) (core : CoreTrainData)
    (known : get train cores ≡ some (record core { is_released = 1 })) where
  number_of :
      (i : ℕ) (x : StopKey × MinimalTrainRecord)
      → i < core.station_num
      → x.0.train_id_hash ≡ train
      → x.0.station_id_hash ≡ get_or core.stations_hash i 0
      → Numbered (OfReleased cores) i x
      → DistinctStations core
      → x.0.stop_id ≡ i % 2 ^ 8
  number_of i x h of_train here (inl number) distinct = number
  number_of i x h of_train here (inr (w, (other, found, released, stop))) distinct =
      let same : other ≡ record core { is_released = 1 } = ground (arith, known, found, of_train) in
      let old : StopOf (record core { is_released = 1 }) (x.0, w) =
        subst (λ c. DistinctStations c → StopOf c (x.0, w)) same stop distinct in
      let place : old.place ≡ i = distinct old.place i old.in_range h (sym old.station ∙ here) in
      old.number ∙ ap (λ n. n % 2 ^ 8) place

  entry-OfReleased :
      (i type offset : ℕ) (x : StopKey × MinimalTrainRecord)
      → i < core.station_num
      → Has
          (get_or core.stations_hash i 0)
          train
          core.sale_date_beg
          core.sale_date_end
          core.start_time
          type
          offset
          x
      → Numbered (OfReleased cores) i x
      → ((type ≡ 0)
          × (before : ℕ) × (i ≡ suc before)
          × (offset % 2 ^ 14
              ≡ (leaves_at (record core { is_released = 1 }) before
                  + get_or core.travel_time before 0)
                % 2 ^ 14))
        ⊎ ((type ≡ 1)
            × (suc i < core.station_num)
            × (offset % 2 ^ 14 ≡ leaves_at (record core { is_released = 1 }) i % 2 ^ 14))
      → OfReleased cores x
  entry-OfReleased i type offset x h (here, of_train, start, first, last, kind, vis) numbered
        times =
      (
        record core { is_released = 1 },
        rw of_train known,
        refl,
        λ distinct. record {
          place = i;
          in_range = h;
          station = here;
          number = number_of i x h of_train here numbered distinct;
          start = start;
          first_day = first;
          last_day = last;
          times = elim times [
            | inl (off, before, next, at) ↦ inl (kind ∙ off, before, next, vis ∙ at)
            | inr (on, more, at) ↦ inr (kind ∙ on, more, vis ∙ at)
          ];
        },
      )

  arrives :
      (i vis : ℕ)
      → (i == 0) ≡ false
      → Left (record core { is_released = 1 }) i vis
      → (before : ℕ) × (i ≡ suc before)
        × (offset_on_arrival core i vis
            ≡ leaves_at (record core { is_released = 1 }) before + get_or core.travel_time before 0)
  unfolding offset_on_arrival
  arrives zero vis h at = absurd (ground (arith, h))
  arrives (suc k) vis h (inl (first, none_yet)) = absurd (omega arith)
  arrives (suc k) vis h (inr (j, e, left)) =
      let same : j ≡ k = omega arith in
      let back : suc k - 1 ≡ k = omega arith in (k, refl, rw (h, back, left, same) refl)

  inner_leaving :
      (i arrived : ℕ)
      → (i == core.station_num - 1) ≡ false
      → (i == 0) ≡ false
      → offset_on_leaving core i arrived ≡ arrived + get_or core.stopover_time i 0
  unfolding offset_on_leaving
  inner_leaving i arrived inner later = rw (inner, later) refl

  leaves :
      (i vis : ℕ)
      → suc i < core.station_num
      → Left (record core { is_released = 1 }) i vis
      → offset_on_leaving core i (offset_on_arrival core i vis)
        ≡ leaves_at (record core { is_released = 1 }) i
  unfolding offset_on_leaving offset_on_arrival
  leaves zero vis h (inl (first, none_yet)) = ground (arith, none_yet)
  leaves zero vis h (inr (j, e, left)) = absurd (omega arith)
  leaves (suc k) vis h at =
      let inner : (suc k == core.station_num - 1) ≡ false = ground arith in
      let later : (suc k == 0) ≡ false = ground arith in
      let (before, e, on_arrival) = arrives (suc k) vis later at in
      let same : before ≡ k = omega arith in
      inner_leaving (suc k) _ inner later
      ∙ ap (λ a. a + get_or core.stopover_time (suc k) 0) on_arrival
      ∙ ap
          (λ j.
            leaves_at (record core { is_released = 1 }) j
            + get_or core.travel_time j 0
            + get_or core.stopover_time (suc k) 0)
          same

  pub release_stops-OfReleased :
      (left i vis : ℕ) (stops : Stops)
      → i + left ≡ core.station_num
      → (0 < left → Left (record core { is_released = 1 }) i vis)
      → Each (OfReleased cores) stops
      → Each (OfReleased cores) (release_stops core train left i vis stops)
  unfolding release_stops
  release_stops-OfReleased zero i vis stops n at each = each
  release_stops-OfReleased (suc left) i vis stops n at each =
      let arrived = offset_on_arrival core i vis in
      let leaving = offset_on_leaving core i arrived in
      let h : i < core.station_num = omega arith in
      release_stops-OfReleased left (i + 1) leaving _ (omega arith)
        (λ more. inr (i, omega arith, leaves i vis (omega arith) (at (omega arith))))
        (add_stop_info-Each (OfReleased cores) (get_or core.stations_hash i 0) train
          core.sale_date_beg core.sale_date_end core.start_time
          (if i == 0 then no_offset else arrived % 2 ^ 16)
          (if i == core.station_num - 1 then no_offset else leaving % 2 ^ 16) i stops
          (λ x comes has numbered.
            let later : (i == 0) ≡ false = ground (arith, comes) in
            let (before, e, on_arrival) = arrives i vis later (at (omega arith)) in
            entry-OfReleased i 0 _ x h has numbered
              (inl (refl, before, e, stored_offset (i == 0) _ _ later on_arrival)))
          (λ x goes has numbered.
            let inner : (i == core.station_num - 1) ≡ false = ground (arith, goes) in
            let more : suc i < core.station_num = ground (arith, inner) in
            let on_leaving = leaves i vis more (at (omega arith)) in
            entry-OfReleased i 1 _ x h has numbered
              (inr (refl, more, stored_offset (i == core.station_num - 1) _ _ inner on_leaving)))
          each)
