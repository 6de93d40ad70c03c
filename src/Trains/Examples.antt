-- ===== src/Trains/Examples.antt =====
-- src/train_system.cpp: runs of the handlers with the train of the examples.
use bh_ticket_system.Base.{
  ℕ, ◌≡◌, ◌≢◌, ◌≤◌, ◌<◌, ◌-◌, ◌%◌, ◌^◌, refl, ◌⊎◌, inl, inr, Option, none, some, List, [], ◌∷◌,
  Bytes, codes, hash_eq, pair_eq, Result, ok, arith, length, get_or, ap,
}
use bh_ticket_system.Base.Map.{get}
use bh_ticket_system.Hash.{split_mix64_hash}
use bh_ticket_system.Data.{SeatsData}
use bh_ticket_system.Engine.{Engine, refuse, accept}
use bh_ticket_system.Trains.{TrainArgs, core_train_of, day_count, add_train_with, delete_train_with}
use bh_ticket_system.Trains.Release.{release_train_with}
use bh_ticket_system.Trains.Storage.{
  Unknown, SameTrains, add_train_with-seats, delete_train_with-add_train_with,
  release_train_with-once,
}
use bh_ticket_system.Stage.{on_sale, state_of, response_of, hash_T, train_T}

-- Another train of ten seats, on sale for two days.
abbrev train_V : TrainArgs
train_V = record {
  train_id = codes "V";
  station_num = 3;
  seat_num = 10;
  stations = codes "A" ∷ codes "B" ∷ codes "C" ∷ [];
  prices = 5 ∷ 7 ∷ [];
  start_time = 600;
  travel_times = 60 ∷ 60 ∷ [];
  stopover_times = 0 ∷ 5 ∷ [];
  sale_date_begin = 152;
  sale_date_end = 153;
  type = codes "G";
}

two_days : day_count (core_train_of train_V) ≤ 2 ^ 8
unfolding core_train_of
two_days = omega arith

train_V-Unknown : Unknown (split_mix64_hash (codes "V")) on_sale
unfolding get split_mix64_hash
train_V-Unknown = record { no_prices = refl; no_core = refl; no_names = refl; no_seats = λ k. refl }

delete_train_with-add_train_with_example :
    (s' s'' : Engine) × (add_train_with train_V on_sale [] ≡ accept s' [])
    × (delete_train_with (codes "V") s' [] ≡ accept s'' [])
    × SameTrains on_sale s''
delete_train_with-add_train_with_example =
    delete_train_with-add_train_with train_V on_sale [] [] train_V-Unknown two_days

abbrev with_V : Engine
with_V = state_of (add_train_with train_V on_sale [])

add_train_with-seats_example :
    ((split_mix64_hash (codes "V") ≡ split_mix64_hash (codes "V"))
      × (1 < day_count (core_train_of train_V))
      × (d : SeatsData) × (get (split_mix64_hash (codes "V"), 1) with_V.seats_data_storage ≡ some d)
      × (d.max_seats ≡ 10 % 2 ^ 18)
      × ((i : ℕ) → i < length d.seat → get_or d.seat i 0 ≡ d.max_seats)
      × (length d.seat ≡ 3 % 2 ^ 8 - 1))
    ⊎ (((split_mix64_hash (codes "V") ≢ split_mix64_hash (codes "V"))
          ⊎ (day_count (core_train_of train_V) ≤ 1))
        × (get (split_mix64_hash (codes "V"), 1) with_V.seats_data_storage
            ≡ get (split_mix64_hash (codes "V"), 1) on_sale.seats_data_storage))
unfolding add_train_with get split_mix64_hash
add_train_with-seats_example =
    add_train_with-seats train_V on_sale with_V [] (response_of (add_train_with train_V on_sale []))
      (split_mix64_hash (codes "V")) 1 train_V-Unknown.no_prices two_days refl

-- The train of the examples before its release.
abbrev unreleased : Engine
unreleased = record on_sale {
  core_train_data_storage = (hash_T, record train_T { is_released = 0 }) ∷ [];
}

abbrev now_released : Engine
now_released = state_of (release_train_with (codes "T") unreleased [])

now_released-changed : now_released ≢ unreleased
unfolding release_train_with get split_mix64_hash bh_ticket_system.Base.Map.put
now_released-changed e =
    let trains : (hash_T, train_T) ∷ [] ≡ (hash_T, record train_T { is_released = 0 }) ∷ [] =
      ap (λ (s : Engine). s.core_train_data_storage) e in
    cc

release_train_with-once_example :
    (release_train_with (codes "T") now_released [] ≡ refuse now_released [])
    × (delete_train_with (codes "T") now_released [] ≡ refuse now_released [])
unfolding release_train_with get split_mix64_hash
release_train_with-once_example =
    release_train_with-once (codes "T") unreleased now_released [] []
      (response_of (release_train_with (codes "T") unreleased [])) refl now_released-changed
