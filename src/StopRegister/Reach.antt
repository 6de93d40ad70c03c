-- ===== src/StopRegister/Reach.antt =====
-- src/include/stop_register.hpp: how far the inner loop of `QueryDirectTrains` goes, and what it meets.
use bh_ticket_system.Base.{
  ℕ, ◌≤◌, ◌<◌, ◌⊎◌, ◌≡◌, Bool-cases, some, List, [], ◌∷◌, ltb, ◌==◌, ◌!=◌, arith, inl, inr,
}
use mathlib.Core.Path.{subst}
use bh_ticket_system.Data.{StopKey, MinimalTrainRecord}
use bh_ticket_system.StopRegister.{Stops, stop_order, advance_to}
use bh_ticket_system.StopRegister.Direct.{Each}

-- An element of the list.
abbrev pub Among : {A : Type 0} → A → List A → Type 0
Among x [] = ⊥
Among x (y ∷ ys) = (y ≡ x) ⊎ Among x ys

-- The order of the keys, but for the time of the start.
abbrev pub Before : StopKey × MinimalTrainRecord → StopKey × MinimalTrainRecord → Type 0
Before x y =
    (x.0.station_id_hash < y.0.station_id_hash)
    ⊎ ((x.0.station_id_hash ≡ y.0.station_id_hash)
        × ((x.0.train_id_hash < y.0.train_id_hash)
            ⊎ ((x.0.train_id_hash ≡ y.0.train_id_hash) × (x.0.type < y.0.type))))

-- The entries are in order, and there is one for a station, a train and a type.
abbrev pub Ordered : Stops → Type 0
Ordered [] = Unit {0}
Ordered (x ∷ xs) = Each (Before x) xs × Ordered xs

abbrev pub From : ℕ → Stops → Type 0
From station = Each (λ (x : StopKey × MinimalTrainRecord). station ≤ x.0.station_id_hash)

pub Each-Among : {A : Type 0} (P : A → Type 0) (x : A) (xs : List A) → Each P xs → Among x xs → P x
Each-Among P x [] each among = absurd among
Each-Among P x (y ∷ ys) (p, each) (inl same) = subst P same p
Each-Among P x (y ∷ ys) (p, each) (inr later) = Each-Among P x ys each later

module _ (station train : ℕ) where
  pub advance_to-suffix :
      (Q : Stops → Type 0)
      → ((x : StopKey × MinimalTrainRecord) (it : Stops) → Q (x ∷ it) → Q it)
      → (it : Stops) → Q it
      → Q (advance_to station train it).1
  unfolding advance_to
  advance_to-suffix Q tail [] q = q
  advance_to-suffix Q tail ((key, r) ∷ it) q =
      let next = advance_to-suffix Q tail it (tail (key, r) it q) in
      elim (Bool-cases (key.station_id_hash != station)) [
        | inl other ↦ rw other q
        | inr here ↦ elim (Bool-cases (key.type != 0)) [
          | inl on ↦ rw (here, on) next
          | inr off ↦ elim (Bool-cases (ltb train key.train_id_hash)) [
            | inl behind ↦ rw (here, off, behind) q
            | inr not_behind ↦ elim (Bool-cases (key.train_id_hash == train)) [
              | inl same ↦ rw (here, off, not_behind, same) (tail (key, r) it q)
              | inr before ↦ rw (here, off, not_behind, before) next
            ]
          ]
        ]
      ]

  -- The loop does not go beyond the stops of later trains.
  pub advance_to-Among :
      (off : StopKey × MinimalTrainRecord) (it : Stops)
      → off.0.type ≡ 0
      → train < off.0.train_id_hash
      → Among off it
      → Among off (advance_to station train it).1
  unfolding advance_to
  advance_to-Among off [] type_off later among = among
  advance_to-Among off ((key, r) ∷ it) type_off later among =
      elim (Bool-cases (key.station_id_hash != station)) [
        | inl other ↦ rw other among
        | inr here ↦ elim (Bool-cases (key.type != 0)) [
          | inl on ↦
              rw (here, on)
                (elim among [
                  | inl same ↦ absurd (ground (arith, same, on, type_off))
                  | inr rest ↦ advance_to-Among off it type_off later rest
                ])
          | inr stop ↦ elim (Bool-cases (ltb train key.train_id_hash)) [
            | inl behind ↦ rw (here, stop, behind) among
            | inr not_behind ↦
                let rest : Among off it = elim among [
                  | inl same ↦ absurd (ground (arith, same, not_behind, later))
                  | inr rest ↦ rest
                ] in
                elim (Bool-cases (key.train_id_hash == train)) [
                  | inl same ↦ rw (here, stop, not_behind, same) rest
                  | inr before ↦
                      rw (here, stop, not_behind, before)
                        (advance_to-Among off it type_off later rest)
                ]
          ]
        ]
      ]

  -- It finds the stop of the train, if it is there.
  pub advance_to-finds :
      (off : StopKey × MinimalTrainRecord) (it : Stops)
      → Ordered it
      → From station it
      → Among off it
      → off.0.station_id_hash ≡ station
      → off.0.type ≡ 0
      → off.0.train_id_hash ≡ train
      → (advance_to station train it).0 ≡ some off
  unfolding advance_to
  advance_to-finds off [] ordered from among here type_off same = absurd among
  advance_to-finds off ((key, r) ∷ it) (first, ordered) (low, from) (inl e) here type_off same =
      ground (arith, e, here, type_off, same)
  advance_to-finds off ((key, r) ∷ it) (first, ordered) (low, from) (inr later) here type_off same =
      let before : Before (key, r) off = Each-Among (Before (key, r)) off it first later in
      let found = advance_to-finds off it ordered from later here type_off same in
      ground (arith, before, found, low, here, type_off, same)
