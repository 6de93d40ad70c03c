-- ===== src/Tickets/Transfer/Examples.antt =====
-- src/transaction_system.cpp: `QueryTransfer` in a state where one changes from train `T` to `V`.
use bh_ticket_system.Base.{
  ℕ, ◌≡◌, refl, Bool, true, false, Option, none, some, List, [], ◌∷◌, codes, ok, arith,
}
use bh_ticket_system.Base.Map.{get}
use bh_ticket_system.Data.{CoreTrainData, TicketPriceData}
use bh_ticket_system.Engine.{Engine}
use bh_ticket_system.Stage.{hash_A, hash_B, hash_C, hash_T, stop, on_sale, train_T}
use mathlib.Core.List.{Memᴰ}
use mathlib.Core.Path.{subst}
use bh_ticket_system.Base.{sym}
use bh_ticket_system.Hash.{split_mix64_hash}
use bh_ticket_system.StopRegister.{fetch_train_leaving_from, fetch_train_arriving_at}
use bh_ticket_system.Tickets.{TicketArgs}
use bh_ticket_system.Tickets.Transfer.{find_transfer}
use bh_ticket_system.Tickets.Transfer.Search.{Solution, Pair, Candidate, candidate, boarding}
use bh_ticket_system.Tickets.Transfer.Search.Best.{Visits, here, later, OfTrains}
use bh_ticket_system.Tickets.Transfer.Best.{Meets, find_transfer-Ahead}
use bh_ticket_system.Tickets.Transfer.Search.Order.{Ahead}

-- Train `V` runs from B to C, at half past ten in the evening of the first of June.
abbrev hash_V : ℕ
hash_V = 14387688016129665287

abbrev train_V : CoreTrainData
train_V = record train_T {
  train_id = codes "V";
  station_num = 2;
  stations_hash = hash_B ∷ hash_C ∷ [];
  start_time = 1350;
  travel_time = 100 ∷ [];
  stopover_time = [];
}

abbrev prices_T : TicketPriceData
prices_T = record { train_id = codes "T"; price = 5 ∷ 7 ∷ [] }

abbrev prices_V : TicketPriceData
prices_V = record { train_id = codes "V"; price = 20 ∷ [] }

abbrev two_trains : Engine
two_trains = record on_sale {
  ticket_price_data_storage = (hash_T, prices_T) ∷ (hash_V, prices_V) ∷ [];
  core_train_data_storage = (hash_T, train_T) ∷ (hash_V, train_V) ∷ [];
  seats_data_storage =
      ((hash_T, 0), record { seat = 10 ∷ 10 ∷ []; max_seats = 10 })
      ∷ ((hash_V, 0), record { seat = 8 ∷ []; max_seats = 8 })
      ∷ [];
  stop_register =
      (
        record {
          station_id_hash = hash_C;
          train_id_hash = hash_V;
          type = 0;
          start_time = 1350;
          stop_id = 1;
        },
        record { sale_date_beg = 0; sale_date_end = 0; vis_time_offset = 100 },
      )
      ∷ stop hash_C 0 2 125
      ∷ (
        record {
          station_id_hash = hash_B;
          train_id_hash = hash_V;
          type = 1;
          start_time = 1350;
          stop_id = 0;
        },
        record { sale_date_beg = 0; sale_date_end = 0; vis_time_offset = 0 },
      )
      ∷ stop hash_B 0 1 60
      ∷ stop hash_B 1 1 65
      ∷ stop hash_A 1 0 0
      ∷ [];
}

abbrev both_trains : Pair
both_trains = record {
  hash1 = hash_T;
  hash2 = hash_V;
  core1 = train_T;
  core2 = train_V;
  prices1 = prices_T;
  prices2 = prices_V;
}

abbrev by_B : Solution
by_B = record {
  train1_id = codes "T";
  train2_id = codes "V";
  train1_leaving_time_stamp = 220039;
  train1_arriving_time_stamp = 220099;
  train2_leaving_time_stamp = 220230;
  train2_arriving_time_stamp = 220330;
  train1_price = 5;
  train1_seat = 0;
  train2_price = 20;
  train2_seat = 0;
  transfer_station_name = [];
}

abbrev candidate_by_B : Candidate
candidate_by_B = record { journey = by_B; first_day = 152; days = 0 }

abbrev kept_by_B : Solution
kept_by_B = record by_B { train1_seat = 10; train2_seat = 8; transfer_station_name = codes "B" }

abbrev from_A_to_C : TicketArgs
from_A_to_C = record { date = 152; from = codes "A"; to = codes "C"; order_by = codes "time" }

-- The search keeps the only journey there is.
search_keeps : find_transfer from_A_to_C two_trains ≡ ok (some kept_by_B)
unfolding find_transfer get bh_ticket_system.Base.Map.put split_mix64_hash
    bh_ticket_system.Base.Index.lower_bound
search_keeps = refl

leaving_T :
    fetch_train_leaving_from 152 (split_mix64_hash (codes "A")) two_trains.stop_register
    ≡ hash_T ∷ []
unfolding fetch_train_leaving_from split_mix64_hash bh_ticket_system.Base.Index.lower_bound
leaving_T = refl

arriving_V :
    fetch_train_arriving_at (split_mix64_hash (codes "C")) two_trains.stop_register
    ≡ hash_V ∷ hash_T ∷ []
unfolding fetch_train_arriving_at split_mix64_hash bh_ticket_system.Base.Index.lower_bound
arriving_V = refl

change_found :
    candidate both_trains 152 (boarding hash_A train_T).start 1 0 1 ≡ ok (some candidate_by_B)
unfolding candidate boarding
change_found = refl

both_known : OfTrains two_trains hash_T hash_V both_trains
unfolding get
both_known = record {
  is_hash1 = refl;
  is_hash2 = refl;
  has_core1 = refl;
  has_core2 = refl;
  has_prices1 = refl;
  has_prices2 = refl;
}

change_visited : Visits both_trains (boarding hash_A train_T) hash_C 2 none 1 0 1
unfolding boarding get bh_ticket_system.Base.Map.put
    bh_ticket_system.Tickets.Transfer.Search.dest_behind
change_visited = later (here (ground arith) refl)

change_met :
    Meets two_trains hash_T hash_V
      (split_mix64_hash (codes "A"))
      (split_mix64_hash (codes "C"))
      152
      candidate_by_B
unfolding split_mix64_hash
change_met = record {
  pair = both_trains;
  of_trains = both_known;
  via1 = 1;
  via2 = 0;
  dest = 1;
  visits = change_visited;
  is_found = change_found;
}

find_transfer-Ahead_example : (r : Solution) × (some kept_by_B ≡ some r) × Ahead true r by_B
find_transfer-Ahead_example =
    find_transfer-Ahead from_A_to_C two_trains (some kept_by_B) hash_T hash_V candidate_by_B
      search_keeps (subst (Memᴰ hash_T) (sym leaving_T) (Memᴰ.head refl))
      (subst (Memᴰ hash_V) (sym arriving_V) (Memᴰ.head refl)) (ground arith) change_met
