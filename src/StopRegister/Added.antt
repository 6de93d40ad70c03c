-- ===== src/StopRegister/Added.antt =====
-- src/include/stop_register.hpp: the entries that `AddStopInfo` adds.
use bh_ticket_system.Base.{
  ℕ, ◌+◌, ◌%◌, ◌^◌, ◌⊎◌, ◌≡◌, refl, Bool-cases, true, [], ◌∷◌, ◌!=◌, arith, inl, inr, false,
  if◌then◌else◌,
}
use bh_ticket_system.Base.Index.{insert}
use bh_ticket_system.Data.{StopKey, MinimalTrainRecord}
use bh_ticket_system.StopRegister.{
  Stops, stop_order, no_offset, key_of, minimal_record, add_stop_info,
}
use bh_ticket_system.StopRegister.Direct.{Each}

-- What holds of the new entry, also with the key of an old one that is alike, holds of all.
insert-Each :
    (P : StopKey × MinimalTrainRecord → Type 0) (key : StopKey) (r : MinimalTrainRecord)
    (stops : Stops)
    → P (key, r)
    → ((j : StopKey) (w : MinimalTrainRecord)
        → stop_order.lt j key ≡ false
        → stop_order.lt key j ≡ false
        → P (j, w)
        → P (j, r))
    → Each P stops
    → Each P (insert key r stops)
unfolding insert
insert-Each P key r [] p replaces each = (p, tt)
insert-Each P key r ((j, w) ∷ stops) p replaces (q, each) =
    elim (Bool-cases (stop_order.lt j key)) [
      | inl before ↦ rw before (q, insert-Each P key r stops p replaces each)
      | inr not_before ↦ elim (Bool-cases (stop_order.lt key j)) [
        | inl after ↦ rw (not_before, after) (p, (q, each))
        | inr same ↦ rw (not_before, same) (replaces j w not_before same q, each)
      ]
    ]

-- The entry has these values; the number of the stop is no part of them.
abbrev pub Has : ℕ → ℕ → ℕ → ℕ → ℕ → ℕ → ℕ → StopKey × MinimalTrainRecord → Type 0
Has station train beg end start type offset x =
    (x.0.station_id_hash ≡ station)
    × (x.0.train_id_hash ≡ train)
    × (x.0.start_time ≡ start % 2 ^ 12)
    × ((x.1.sale_date_beg + 152) % 2 ^ 8 ≡ beg % 2 ^ 8)
    × ((x.1.sale_date_end + 152) % 2 ^ 8 ≡ end % 2 ^ 8)
    × (x.0.type ≡ type)
    × (x.1.vis_time_offset ≡ offset % 2 ^ 14)

key_of-Has :
    (station train beg end start stop_id type offset : ℕ)
    → Has station train beg end start
        (type % 2)
        offset
        (key_of station train type start stop_id, minimal_record beg end offset)
unfolding minimal_record
key_of-Has station train beg end start stop_id type offset =
    (refl, refl, refl, omega arith, omega arith, refl, refl)

same_key-Has :
    (station train beg end start stop_id type offset : ℕ) (j : StopKey)
    → stop_order.lt j (key_of station train type start stop_id) ≡ false
    → stop_order.lt (key_of station train type start stop_id) j ≡ false
    → Has station train beg end start (type % 2) offset (j, minimal_record beg end offset)
unfolding minimal_record stop_order
same_key-Has station train beg end start stop_id type offset j h k = (
  ground (arith, h, k),
  ground (arith, h, k),
  ground (arith, h, k),
  omega arith,
  omega arith,
  ground (arith, h, k),
  refl,
)

-- The entry has the number, or the one of an entry that was there.
abbrev pub Numbered :
    (StopKey × MinimalTrainRecord → Type 0) → ℕ → StopKey × MinimalTrainRecord → Type 0
Numbered P stop_id x = (x.0.stop_id ≡ stop_id % 2 ^ 8) ⊎ ((w : MinimalTrainRecord) × P (x.0, w))

-- What holds of the entries that it may add, and of those that were there, holds of all afterwards.
pub add_stop_info-Each :
    (P : StopKey × MinimalTrainRecord → Type 0)
    (station train beg end start arrive leave stop_id : ℕ) (stops : Stops)
    → ((x : StopKey × MinimalTrainRecord)
        → (arrive != no_offset) ≡ true
        → Has station train beg end start 0 arrive x
        → Numbered P stop_id x
        → P x)
    → ((x : StopKey × MinimalTrainRecord)
        → (leave != no_offset) ≡ true
        → Has station train beg end start 1 leave x
        → Numbered P stop_id x
        → P x)
    → Each P stops
    → Each P (add_stop_info station train beg end start arrive leave stop_id stops)
unfolding add_stop_info
add_stop_info-Each P station train beg end start arrive leave stop_id stops off on each =
    let arriving : Each P (
        if arrive != no_offset
        then insert (key_of station train 0 start stop_id) (minimal_record beg end arrive) stops
        else stops) =
      elim (Bool-cases (arrive != no_offset)) [
        | inl comes ↦ rw comes (
            insert-Each P _ _ stops
              (off _ comes (key_of-Has station train beg end start stop_id 0 arrive) (inl refl))
              (λ j w h k p.
                off _ comes (same_key-Has station train beg end start stop_id 0 arrive j h k)
                  (inr (w, p)))
              each)
        | inr first ↦ rw first each
      ] in
    elim (Bool-cases (leave != no_offset)) [
      | inl goes ↦ rw goes (
          insert-Each P _ _ _
            (on _ goes (key_of-Has station train beg end start stop_id 1 leave) (inl refl))
            (λ j w h k p.
              on _ goes (same_key-Has station train beg end start stop_id 1 leave j h k)
                (inr (w, p)))
            arriving)
      | inr last ↦ rw last arriving
    ]
