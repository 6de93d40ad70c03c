-- ===== src/StopRegister/Bounds.antt =====
-- src/include/stop_register.hpp: the numbers of the stops stay in their field's range.
use bh_ticket_system.Base.{ℕ, ◌^◌, ◌<◌, ◌≡◌, some, [], ◌∷◌, ◌!=◌, arith, if-elim}
use bh_ticket_system.Base.Index.{lower_bound, insert}
use bh_ticket_system.Data.{StopKey, MinimalTrainRecord, DirectTrainInfo}
use bh_ticket_system.StopRegister.{
  Stops, stop_order, key_of, minimal_record, no_offset, add_stop_info, single_train,
  request_single_train,
}

-- `stop_id` is a `uint8_t`.
abbrev pub SmallIds : Stops → Type 0
SmallIds [] = Unit {0}
SmallIds ((key, r) ∷ stops) = (key.stop_id < 2 ^ 8) × SmallIds stops

insert-SmallIds :
    (key : StopKey) (r : MinimalTrainRecord) (stops : Stops)
    → key.stop_id < 2 ^ 8
    → SmallIds stops
    → SmallIds (insert key r stops)
unfolding insert
insert-SmallIds key r [] h s = (h, tt)
insert-SmallIds key r ((j, w) ∷ stops) h s = ground (arith, insert-SmallIds key r stops h s.1)

lower_bound-SmallIds :
    (key : StopKey) (stops : Stops) → SmallIds stops → SmallIds (lower_bound key stops)
unfolding lower_bound
lower_bound-SmallIds key [] s = tt
lower_bound-SmallIds key ((j, w) ∷ stops) s = ground (arith, lower_bound-SmallIds key stops s.1)

pub add_stop_info-SmallIds :
    (station train beg end start arrive leave stop_id : ℕ) (stops : Stops)
    → SmallIds stops
    → SmallIds (add_stop_info station train beg end start arrive leave stop_id stops)
unfolding add_stop_info
add_stop_info-SmallIds station train beg end start arrive leave stop_id stops s =
    let arriving =
      if-elim SmallIds (arrive != no_offset)
        (insert-SmallIds (key_of station train 0 start stop_id) (minimal_record beg end arrive)
          stops (omega arith) s)
        s in
    if-elim SmallIds (leave != no_offset)
      (insert-SmallIds (key_of station train 1 start stop_id) (minimal_record beg end leave) _
        (omega arith) arriving)
      arriving

single_train-SmallIds :
    (train date from_station to_station : ℕ) (from to : Stops) (info : DirectTrainInfo)
    → SmallIds from
    → SmallIds to
    → single_train train date from_station to_station from to ≡ some info
    → (info.from_stop_id < 2 ^ 8) × (info.to_stop_id < 2 ^ 8)
unfolding single_train
single_train-SmallIds train date f t ((kf, rf) ∷ from) ((kt, rt) ∷ to) info sf st e = ground arith
single_train-SmallIds train date f t [] to info sf st e = cc
single_train-SmallIds train date f t (x ∷ from) [] info sf st e = cc

pub request_single_train-SmallIds :
    (train date from_station to_station : ℕ) (stops : Stops) (info : DirectTrainInfo)
    → SmallIds stops
    → request_single_train train date from_station to_station stops ≡ some info
    → (info.from_stop_id < 2 ^ 8) × (info.to_stop_id < 2 ^ 8)
unfolding request_single_train
request_single_train-SmallIds train date f t stops info s e =
    single_train-SmallIds train date f t _ _ info (lower_bound-SmallIds _ stops s)
      (lower_bound-SmallIds _ stops s) e
