-- ===== src/Stage.antt =====
-- States of src/include/engine.h that tests and examples begin with: a user `u` who is logged in,
-- and a train `T` with ten seats that runs from A by B to C on the first of June.
use bh_ticket_system.Base.{
  ℕ, ◌≡◌, refl, List, [], ◌∷◌, ◌++◌, Bytes, codes, Result, ok, err, false, split_by,
}
use bh_ticket_system.Data.{
  TransactionData, FullUserData, CoreTrainData, StopKey, MinimalTrainRecord,
}
use bh_ticket_system.Transactions.{TransactionManager, queue_key, history_key, history_special_id}
use bh_ticket_system.Engine.{Engine}
use bh_ticket_system.Execute.{execute}

-- The hashes of the names in the commands.
abbrev pub hash_u : ℕ
hash_u = 13647215125184110592

abbrev pub hash_T : ℕ
hash_T = 14873797093642526444

abbrev pub hash_A : ℕ
hash_A = 13477024926058894539

abbrev pub hash_B : ℕ
hash_B = 2038608524547893592

abbrev pub hash_C : ℕ
hash_C = 291080821224767267

-- The header page of the file of orders, as a record of zeros.
abbrev pub header : TransactionData
header = record {
  train_id = [];
  from_station_name = [];
  to_station_name = [];
  status = 0;
  leave_time_stamp = 0;
  arrive_time_stamp = 0;
  num = 0;
  total_price = 0;
  running_date_offset = 0;
  from_stop_id = 0;
  to_stop_id = 0;
}

abbrev pub empty_engine : Engine
empty_engine = record {
  its_time_to_exit = false;
  online_users = [];
  user_data = [];
  station_name_data_storage = [];
  ticket_price_data_storage = [];
  core_train_data_storage = [];
  seats_data_storage = [];
  stop_register = [];
  transaction_manager = record { orders = header ∷ []; queue = []; order_history = [] };
}

abbrev pub user_u : FullUserData
user_u = record {
  username = codes "u";
  password_hash = 2092789425003139053;
  name = codes "N";
  mail_addr = codes "m";
  privilege = 10;
}

abbrev pub train_T : CoreTrainData
train_T = record {
  train_id = codes "T";
  station_num = 3;
  stations_hash = hash_A ∷ hash_B ∷ hash_C ∷ [];
  seat_num = 10;
  start_time = 1159;
  sale_date_beg = 152;
  sale_date_end = 152;
  type = 6;
  is_released = 1;
  travel_time = 60 ∷ 60 ∷ [];
  stopover_time = 0 ∷ 5 ∷ [];
}

abbrev pub stop : ℕ → ℕ → ℕ → ℕ → StopKey × MinimalTrainRecord
stop station type stop_id offset = (
  record {
    station_id_hash = station;
    train_id_hash = hash_T;
    type = type;
    start_time = 1159;
    stop_id = stop_id;
  },
  record { sale_date_beg = 0; sale_date_end = 0; vis_time_offset = offset },
)

-- The train is released, and no ticket is sold.
abbrev pub on_sale : Engine
on_sale = record {
  its_time_to_exit = false;
  online_users = (hash_u, 10) ∷ [];
  user_data = (hash_u, user_u) ∷ [];
  station_name_data_storage =
      (hash_T, record { name = codes "A" ∷ codes "B" ∷ codes "C" ∷ [] }) ∷ [];
  ticket_price_data_storage = (hash_T, record { train_id = codes "T"; price = 5 ∷ 7 ∷ [] }) ∷ [];
  core_train_data_storage = (hash_T, train_T) ∷ [];
  seats_data_storage = ((hash_T, 0), record { seat = 10 ∷ 10 ∷ []; max_seats = 10 }) ∷ [];
  stop_register =
      stop hash_C 0 2 125 ∷ stop hash_B 0 1 60 ∷ stop hash_B 1 1 65 ∷ stop hash_A 1 0 0 ∷ [];
  transaction_manager = record {
    orders = header ∷ [];
    queue = (queue_key hash_T 0 0, 0) ∷ [];
    order_history = (history_key hash_u history_special_id, 0) ∷ [];
  };
}

-- Six seats from A to C.
abbrev pub six_seats : TransactionData
six_seats = record {
  train_id = codes "T";
  from_station_name = codes "A";
  to_station_name = codes "C";
  status = 1;
  leave_time_stamp = 220039;
  arrive_time_stamp = 220164;
  num = 6;
  total_price = 72;
  running_date_offset = 0;
  from_stop_id = 0;
  to_stop_id = 2;
}

-- Five seats from A to B, of which four are free.
abbrev pub five_seats : TransactionData
five_seats = record {
  train_id = codes "T";
  from_station_name = codes "A";
  to_station_name = codes "B";
  status = 0;
  leave_time_stamp = 220039;
  arrive_time_stamp = 220099;
  num = 5;
  total_price = 25;
  running_date_offset = 0;
  from_stop_id = 0;
  to_stop_id = 1;
}

-- `u` has bought the six seats, and waits for the five.
abbrev pub queueing : Engine
queueing = record on_sale {
  seats_data_storage = ((hash_T, 0), record { seat = 4 ∷ 4 ∷ []; max_seats = 10 }) ∷ [];
  transaction_manager = record {
    orders = header ∷ six_seats ∷ five_seats ∷ [];
    queue = (queue_key hash_T 0 0, 1) ∷ (queue_key hash_T 0 1, 2) ∷ [];
    order_history =
        (history_key hash_u history_special_id, 2)
        ∷ (history_key hash_u 2, 2)
        ∷ (history_key hash_u 1, 1)
        ∷ [];
  };
}

abbrev pub state_of : Result (Engine × Bytes) → Engine
state_of (ok (s, r)) = s
state_of (err e) = empty_engine

abbrev pub response_of : Result (Engine × Bytes) → Bytes
response_of (ok (s, r)) = r
response_of (err e) = []

abbrev pub run : Engine → List Bytes → Engine
run s [] = s
run s (c ∷ cs) = run (state_of (execute s (split_by 32 c))) cs

abbrev releasing : List Bytes
releasing =
    codes "[1] add_user -c x -u u -p p -n N -m m -g 3"
    ∷ codes "[2] login -u u -p p"
    ∷ codes
        "[3] add_train -i T -n 3 -m 10 -s A|B|C -p 5|7 -x 19:19 -t 60|60 -o 5 -d 06-01|06-01 -y G"
    ∷ codes "[4] release_train -i T"
    ∷ []

abbrev buying : List Bytes
buying =
    codes "[5] buy_ticket -u u -i T -d 06-01 -n 6 -f A -t C -q true"
    ∷ codes "[6] buy_ticket -u u -i T -d 06-01 -n 5 -f A -t B -q true"
    ∷ []

-- The commands that lead to the two states.
on_sale-run : run empty_engine releasing ≡ on_sale
unfolding execute split_by bh_ticket_system.Hash.split_mix64_hash
    bh_ticket_system.Trains.Release.release_train bh_ticket_system.Args.parse_args
    bh_ticket_system.Base.Map.get bh_ticket_system.Trains.add_train
    bh_ticket_system.Users.login_user bh_ticket_system.Users.add_user bh_ticket_system.Base.Map.put
    bh_ticket_system.Base.Index.insert bh_ticket_system.Transactions.prepare_train_info
    bh_ticket_system.StopRegister.stop_order bh_ticket_system.Transactions.prepare_user_info
on_sale-run = refl

queueing-run : run empty_engine (releasing ++ buying) ≡ queueing
unfolding execute split_by bh_ticket_system.Hash.split_mix64_hash
    bh_ticket_system.Tickets.Buy.buy_ticket bh_ticket_system.Args.parse_args
    bh_ticket_system.Base.Map.get bh_ticket_system.Trains.Release.release_train
    bh_ticket_system.Trains.add_train bh_ticket_system.Users.login_user
    bh_ticket_system.Users.add_user bh_ticket_system.Base.Map.put
    bh_ticket_system.StopRegister.request_single_train bh_ticket_system.Base.Index.lower_bound
    bh_ticket_system.Base.Index.insert bh_ticket_system.Transactions.add_order
    bh_ticket_system.Transactions.prepare_train_info bh_ticket_system.Transactions.prepare_user_info
    bh_ticket_system.Base.Index.set_value
queueing-run = refl
