-- ===== src/Trains/Release.antt =====
-- src/train_system.cpp: `ReleaseTrain` puts a train on sale.
use bh_ticket_system.Base.{
  ℕ, zero, suc, ◌+◌, ◌-◌, ◌%◌, ◌^◌, none, some, [], ◌==◌, if◌then◌else◌, hash_eq, get_or, ◌>>=◌,
}
use bh_ticket_system.Base.Map.{get, put}
use bh_ticket_system.Hash.{split_mix64_hash}
use bh_ticket_system.Data.{CoreTrainData}
use bh_ticket_system.StopRegister.{Stops, no_offset, add_stop_info}
use bh_ticket_system.Transactions.{prepare_train_info}
use bh_ticket_system.Args.{parse_args, arguments}
use bh_ticket_system.Engine.{Handler, refuse, accept}
use bh_ticket_system.Base.{Bytes}
use bh_ticket_system.Trains.{train_id_keys, day_count}

-- `vis_time_offset` when the train comes to stop `i`, from its value when it left the stop before.
unfoldable pub offset_on_arrival : CoreTrainData → ℕ → ℕ → ℕ
offset_on_arrival core i vis = if i == 0 then vis else vis + get_or core.travel_time (i - 1) 0

-- Its value when the train leaves stop `i`, from its value on arrival.
unfoldable pub offset_on_leaving : CoreTrainData → ℕ → ℕ → ℕ
offset_on_leaving core i vis =
    if i == core.station_num - 1
    then vis
    else if i == 0
    then vis
    else vis + get_or core.stopover_time i 0

-- The loop over the stops: `left` of them, from stop `i` on.
unfoldable pub release_stops : CoreTrainData → ℕ → ℕ → ℕ → ℕ → Stops → Stops
unfolding offset_on_arrival offset_on_leaving add_stop_info
release_stops core train zero i vis stops = stops
release_stops core train (suc left) i vis stops =
    let arrived = offset_on_arrival core i vis in
    let leaving = offset_on_leaving core i arrived in
    let arrive_time_offset : ℕ = if i == 0 then no_offset else arrived % 2 ^ 16 in
    let leave_time_offset : ℕ = if i == core.station_num - 1 then no_offset else leaving % 2 ^ 16 in
    release_stops core train left (i + 1) leaving (
      add_stop_info (get_or core.stations_hash i 0) train core.sale_date_beg core.sale_date_end
        core.start_time arrive_time_offset leave_time_offset i stops)

unfoldable pub release_train_with : Bytes → Handler
unfolding release_stops
release_train_with train_id s command =
    let train = split_mix64_hash train_id in
    elim (get train s.core_train_data_storage) [
      | none ↦ refuse s command
      | some core ↦
          if core.is_released == 1
          then refuse s command
          else accept
              (record s {
                core_train_data_storage =
                    put train (record core { is_released = 1 }) s.core_train_data_storage;
                stop_register = release_stops core train core.station_num 0 0 s.stop_register;
                transaction_manager =
                    prepare_train_info train (day_count core) s.transaction_manager;
              })
              command
    ]

unfoldable pub release_train : Handler
unfolding release_train_with train_id_keys
release_train s command = parse_args train_id_keys [] (arguments command) >>= λ train_id.
    release_train_with train_id s command
