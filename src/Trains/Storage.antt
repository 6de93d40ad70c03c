-- ===== src/Trains/Storage.antt =====
-- src/train_system.cpp: what `AddTrain` stores and `DeleteTrain` takes away again.
use bh_ticket_system.Base.{
  ℕ, zero, suc, ◌+◌, ◌%◌, ◌^◌, ◌≡◌, ◌≤◌, ◌<◌, refl, ◌⊎◌, inl, inr, Bool, ◌&&◌, Option, none, some,
  Bytes, ◌==◌, leb, ltb, if◌then◌else◌, hash_eq, pair_eq, ok, arith, Bool-cases, Option-cases,
  ==_iff, ◌≢◌, length, get_or, ◌-◌, length-replicate, get_or-replicate,
}
use mathlib.Core.Path.{subst}
use bh_ticket_system.Base.Map.{Map, get, put, erase, get-put, get-erase, get-put_self}
use bh_ticket_system.Hash.{split_mix64_hash}
use bh_ticket_system.Data.{SeatsData}
use bh_ticket_system.Args.{Command}
use bh_ticket_system.Engine.{Engine, accept, refuse}
use bh_ticket_system.Trains.Release.{release_train_with}
use bh_ticket_system.Trains.{
  TrainArgs, Seats, put_days, remove_days, day_count, core_train_of, seats_of, add_train_with,
  delete_train_with, station_names_of, ticket_prices_of,
}

-- The day `k` of train `t` is one of `days` days of `train` from day `i` on.
abbrev in_days : ℕ → ℕ → ℕ → ℕ → ℕ → Bool
in_days train days i t k = (train == t) && (leb i k && ltb k (i + days))

pub get-put_days :
    (train days i : ℕ) (d : SeatsData) (m : Seats) (t k : ℕ)
    → i + days ≤ 2 ^ 8
    → get (t, k) (put_days train days i d m)
      ≡ (if in_days train days i t k then some d else get (t, k) m)
unfolding put_days
get-put_days train zero i d m t k small = ground arith
get-put_days train (suc days) i d m t k small =
    let whole : i % 2 ^ 8 ≡ i = omega arith in
    let rest = get-put_days train days (i + 1) d (put (train, i % 2 ^ 8) d m) t k (omega arith) in
    let here = get-put (train, i % 2 ^ 8) (t, k) d m in ground arith

pub get-remove_days :
    (train days i : ℕ) (m : Seats) (t k : ℕ)
    → i + days ≤ 2 ^ 8
    → get (t, k) (remove_days train days i m)
      ≡ (if in_days train days i t k then none else get (t, k) m)
unfolding remove_days
get-remove_days train zero i m t k small = ground arith
get-remove_days train (suc days) i m t k small =
    let whole : i % 2 ^ 8 ≡ i = omega arith in
    let rest = get-remove_days train days (i + 1) (erase (train, i % 2 ^ 8) m) t k (omega arith) in
    let here = get-erase (train, i % 2 ^ 8) (t, k) m in ground arith

-- Nothing is stored of a train.
pub record Unknown (train : ℕ) (s : Engine) : Type 0 where
  pub no_prices : get train s.ticket_price_data_storage ≡ none
  pub no_core : get train s.core_train_data_storage ≡ none
  pub no_names : get train s.station_name_data_storage ≡ none
  pub no_seats : (k : ℕ) → get (train, k) s.seats_data_storage ≡ none

-- The storages of the trains answer alike.
pub record SameTrains (s t : Engine) : Type 0 where
  pub same_prices : (k : ℕ) → get k t.ticket_price_data_storage ≡ get k s.ticket_price_data_storage
  pub same_core : (k : ℕ) → get k t.core_train_data_storage ≡ get k s.core_train_data_storage
  pub same_names : (k : ℕ) → get k t.station_name_data_storage ≡ get k s.station_name_data_storage
  pub same_seats :
      (train k : ℕ) → get (train, k) t.seats_data_storage ≡ get (train, k) s.seats_data_storage

get-erase-put :
    {V : Type 0} (k j : ℕ) (v : V) (m : Map ℕ V)
    → get k m ≡ none
    → get j (erase k (put k v m)) ≡ get j m
get-erase-put k j v m new =
    let erased = get-erase k j (put k v m) in
    let stored = get-put k j v m in ground (arith, ==_iff k j)

get-remove_days-put_days :
    (train days : ℕ) (d : SeatsData) (m : Seats) (t k : ℕ)
    → days ≤ 2 ^ 8
    → ((k : ℕ) → get (train, k) m ≡ none)
    → get (t, k) (remove_days train days 0 (put_days train days 0 d m)) ≡ get (t, k) m
get-remove_days-put_days train days d m t k small new =
    let removed = get-remove_days train days 0 (put_days train days 0 d m) t k (omega arith) in
    let stored = get-put_days train days 0 d m t k (omega arith) in
    let none_there = new k in ground (arith, ==_iff train t)

-- The engine with a train's data stored, and with them taken away.
abbrev added : TrainArgs → Engine → Engine
added a s =
    let train = split_mix64_hash a.train_id in
    record s {
      ticket_price_data_storage = put train (ticket_prices_of a) s.ticket_price_data_storage;
      core_train_data_storage = put train (core_train_of a) s.core_train_data_storage;
      station_name_data_storage = put train (station_names_of a) s.station_name_data_storage;
      seats_data_storage =
          put_days train (day_count (core_train_of a)) 0 (seats_of (core_train_of a))
            s.seats_data_storage;
    }

abbrev removed : TrainArgs → Engine → Engine
removed a s =
    let train = split_mix64_hash a.train_id in
    record s {
      ticket_price_data_storage = erase train s.ticket_price_data_storage;
      core_train_data_storage = erase train s.core_train_data_storage;
      station_name_data_storage = erase train s.station_name_data_storage;
      seats_data_storage = remove_days train (day_count (core_train_of a)) 0 s.seats_data_storage;
    }

-- A train of which nothing is stored is added, and can be deleted at once; then the storages of the
-- trains answer as before. This is for a time of sale of at most 256 days.
pub delete_train_with-add_train_with :
    (a : TrainArgs) (s : Engine) (command command' : Command)
    → Unknown (split_mix64_hash a.train_id) s
    → day_count (core_train_of a) ≤ 2 ^ 8
    → (s' s'' : Engine) × (add_train_with a s command ≡ accept s' command)
      × (delete_train_with a.train_id s' command' ≡ accept s'' command')
      × SameTrains s s''
unfolding add_train_with delete_train_with
delete_train_with-add_train_with a s command command' new small =
    let train = split_mix64_hash a.train_id in
    let stored = get-put_self train (core_train_of a) s.core_train_data_storage in
    let unknown = new.no_prices in
    (
      added a s,
      removed a (added a s),
      ground arith,
      ground arith,
      record {
        same_prices = λ k. get-erase-put train k _ s.ticket_price_data_storage new.no_prices;
        same_core = λ k. get-erase-put train k _ s.core_train_data_storage new.no_core;
        same_names = λ k. get-erase-put train k _ s.station_name_data_storage new.no_names;
        same_seats = λ t k.
            get-remove_days-put_days train (day_count (core_train_of a)) _ s.seats_data_storage t k
              small new.no_seats;
      },
    )

-- `AddTrain` stores, for each day of sale, as many free seats from each station to the next as the
-- train has; it leaves the seats of other trains. This is for a train that is not known yet and a
-- time of sale of at most 256 days.
pub add_train_with-seats :
    (a : TrainArgs) (s s' : Engine) (command : Command) (r : Bytes) (t k : ℕ)
    → get (split_mix64_hash a.train_id) s.ticket_price_data_storage ≡ none
    → day_count (core_train_of a) ≤ 2 ^ 8
    → add_train_with a s command ≡ ok (s', r)
    → ((t ≡ split_mix64_hash a.train_id)
        × (k < day_count (core_train_of a))
        × (d : SeatsData) × (get (t, k) s'.seats_data_storage ≡ some d)
        × (d.max_seats ≡ a.seat_num % 2 ^ 18)
        × ((i : ℕ) → i < length d.seat → get_or d.seat i 0 ≡ d.max_seats)
        × (length d.seat ≡ a.station_num % 2 ^ 8 - 1))
      ⊎ (((t ≢ split_mix64_hash a.train_id) ⊎ (day_count (core_train_of a) ≤ k))
          × (get (t, k) s'.seats_data_storage ≡ get (t, k) s.seats_data_storage))
unfolding add_train_with
add_train_with-seats a s s' command r t k new small e =
    let train = split_mix64_hash a.train_id in
    let core = core_train_of a in
    let same : added a s ≡ s' = ground arith in
    let expected : Option SeatsData =
      if in_days train (day_count core) 0 t k
      then some (seats_of core)
      else get (t, k) s.seats_data_storage in
    let stored : get (t, k) s'.seats_data_storage ≡ expected =
      subst (λ (z : Engine). get (t, k) z.seats_data_storage ≡ expected) same
        (get-put_days train (day_count core) 0 (seats_of core) s.seats_data_storage t k
          (omega arith)) in
    elim (Bool-cases (in_days train (day_count core) 0 t k)) [
      | inl day ↦ inl (
        ground arith,
        ground arith,
        seats_of core,
        ground arith,
        refl,
        λ i h.
            get_or-replicate (core.station_num - 1) i core.seat_num 0
              (subst (λ n. i < n) (length-replicate (core.station_num - 1) core.seat_num) h),
        length-replicate (core.station_num - 1) core.seat_num,
      )
      | inr other ↦ inr (ground arith, ground arith)
    ]

-- A train that is released can be neither released again nor deleted.
pub release_train_with-once :
    (train_id : Bytes) (s s' : Engine) (command command' : Command) (r : Bytes)
    → release_train_with train_id s command ≡ ok (s', r)
    → s' ≢ s
    → (release_train_with train_id s' command' ≡ refuse s' command')
      × (delete_train_with train_id s' command' ≡ refuse s' command')
unfolding release_train_with delete_train_with
release_train_with-once train_id s s' command command' r e changed =
    let train = split_mix64_hash train_id in
    elim (Option-cases (get train s.core_train_data_storage)) [
      | inl unknown ↦ absurd (changed (ground arith))
      | inr (core, known) ↦ elim (Bool-cases (core.is_released == 1)) [
        | inl before ↦ absurd (changed (ground arith))
        | inr first ↦
            let stored : get train s'.core_train_data_storage
                ≡ some (record core { is_released = 1 }) =
              ground (
                arith,
                get-put_self train (record core { is_released = 1 }) s.core_train_data_storage,
              ) in
            (ground arith, ground arith)
      ]
    ]
