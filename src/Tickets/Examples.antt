-- ===== src/Tickets/Examples.antt =====
-- src/transaction_system.cpp: the queue and the list of trains in the states of the examples.
use mathlib.Core.List.{Perm}
use bh_ticket_system.Base.{
  ℕ, zero, suc, ◌≡◌, ◌<◌, refl, Bool, true, List, [], ◌∷◌, Bytes, codes, bytes_eq, if◌then◌else◌,
  Result, ok, err, arith, get_or,
}
use bh_ticket_system.Base.Index.{remove}
use bh_ticket_system.Hash.{split_mix64_hash}
use bh_ticket_system.StopRegister.{query_direct_trains}
use bh_ticket_system.Transactions.{queue_key, queue_special_id, queue_order}
use bh_ticket_system.Seats.Monotone.{Fewer, SmallSeats}
use bh_ticket_system.Tickets.{TicketArgs, FullTrainInfo, full_infos, found_tickets}
use bh_ticket_system.Tickets.Refund.{Served, serve_order, serve_queue}
use bh_ticket_system.Tickets.Queue.{AllShort, serve_queue-AllShort, serve_order-phantom}
use bh_ticket_system.StopRegister.Direct.{Each}
use bh_ticket_system.Tickets.Listed.{Listed}
use bh_ticket_system.Tickets.Sorted.{ListedBy, minutes, fare, found_tickets-Sorted}
use bh_ticket_system.Stage.{hash_T, header, on_sale, queueing}

abbrev waiting : Served
waiting = record { manager = queueing.transaction_manager; seat = 4 ∷ 4 ∷ [] }

abbrev served_of : Result Served → Served
served_of (ok v) = v
served_of (err e) = waiting

four_free : SmallSeats waiting.seat
four_free zero = omega arith
four_free (suc zero) = omega arith
four_free (suc (suc i)) = omega arith

serve_queue-AllShort_example :
    Fewer (served_of (serve_queue hash_T 0 ((2, 1) ∷ []) waiting)).seat waiting.seat
    × AllShort ((2, 1) ∷ []) (served_of (serve_queue hash_T 0 ((2, 1) ∷ []) waiting))
unfolding serve_queue
serve_queue-AllShort_example =
    serve_queue-AllShort hash_T 0 ((2, 1) ∷ []) waiting
      (served_of (serve_queue hash_T 0 ((2, 1) ∷ []) waiting)) four_free refl

serve_order-phantom_example :
    (served_of (serve_order hash_T 0 (0, 0) waiting)).manager.queue
    ≡ remove (queue_key hash_T 0 queue_special_id) waiting.manager.queue
unfolding serve_order
serve_order-phantom_example =
    serve_order-phantom hash_T 0 header waiting (served_of (serve_order hash_T 0 (0, 0) waiting))
      refl refl refl

abbrev from_A_to_C : TicketArgs
from_A_to_C = record { date = 152; from = codes "A"; to = codes "C"; order_by = codes "cost" }

abbrev trains_of : Result (List FullTrainInfo) → List FullTrainInfo
trains_of (ok ts) = ts
trains_of (err e) = []

found_tickets-Sorted_example :
    Each (Listed from_A_to_C on_sale) (trains_of (found_tickets from_A_to_C on_sale))
    × ((found : List FullTrainInfo) × (full_infos on_sale (
            query_direct_trains 152
              (split_mix64_hash (codes "A"))
              (split_mix64_hash (codes "C"))
              on_sale.stop_register)
          ≡ ok found)
        × Perm (trains_of (found_tickets from_A_to_C on_sale)) found)
    × (if bytes_eq (codes "cost") (codes "time")
        then ListedBy minutes (trains_of (found_tickets from_A_to_C on_sale))
        else ListedBy fare (trains_of (found_tickets from_A_to_C on_sale)))
unfolding found_tickets bh_ticket_system.Base.Index.lower_bound split_mix64_hash
    bh_ticket_system.Base.Map.get
found_tickets-Sorted_example =
    found_tickets-Sorted from_A_to_C on_sale (trains_of (found_tickets from_A_to_C on_sale)) refl
