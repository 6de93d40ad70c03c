-- ===== src/StopRegister/Examples.antt =====
-- src/include/stop_register.hpp: a search in the index of the examples.
use bh_ticket_system.Base.{◌+◌, ◌*◌, ◌≡◌, refl, inl, inr, arith}
use bh_ticket_system.Data.{DirectTrainInfo}
use bh_ticket_system.StopRegister.{query_direct_trains}
use bh_ticket_system.StopRegister.Reach.{Among, Ordered}
use bh_ticket_system.StopRegister.Complete.{query_direct_trains-finds}
use bh_ticket_system.Stage.{hash_A, hash_C, hash_T, stop, on_sale}

on_sale-Ordered : Ordered on_sale.stop_register
on_sale-Ordered = (
  (inl (omega arith), (inl (omega arith), (inl (omega arith), tt))),
  (
    (inr (refl, inr (refl, omega arith)), (inl (omega arith), tt)),
    ((inl (omega arith), tt), (tt, tt)),
  ),
)

query_direct_trains-finds_example :
    (t : DirectTrainInfo) × Among t (query_direct_trains 152 hash_A hash_C on_sale.stop_register)
    × (t.train_id_hash ≡ hash_T)
    × (t.actual_start_date ≡ 152)
    × (t.leave_time_stamp ≡ 152 * 1440 + (1159 + 0))
    × (t.arrive_time_stamp ≡ 152 * 1440 + 1159 + 125)
    × (t.from_stop_id ≡ 0)
    × (t.to_stop_id ≡ 2)
query_direct_trains-finds_example =
    query_direct_trains-finds 152 hash_A hash_C 152 on_sale.stop_register (stop hash_A 1 0 0)
      (stop hash_C 0 2 125) on_sale-Ordered (inr (inr (inr (inl refl)))) (inl refl) refl refl refl
      refl refl (omega arith) refl (omega arith) (omega arith) (omega arith)
