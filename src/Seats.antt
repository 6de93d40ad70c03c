-- ===== src/Seats.antt =====
-- src/transaction_system.cpp: the loops over the stations of a journey, from the one where it
-- begins up to, and not with, the one where it ends.
pub mod Laws
pub mod Fares
pub mod Monotone
use bh_ticket_system.Base.{ℕ, zero, suc, ◌+◌, ◌-◌, ◌%◌, ◌^◌, List, get_or, set, min}

min_loop : List ℕ → ℕ → ℕ → ℕ → ℕ
min_loop seat j zero seats = seats
min_loop seat j (suc left) seats = min_loop seat (j + 1) left (min seats (get_or seat j 0))

-- How many seats are free all the way.
unfoldable pub available_seats : List ℕ → ℕ → ℕ → ℕ
unfolding min_loop
available_seats seat from to = min_loop seat (from + 1) (to - (from + 1)) (get_or seat from 0)

price_loop : List ℕ → ℕ → ℕ → ℕ → ℕ
price_loop price j zero total = total
price_loop price j (suc left) total = price_loop price (j + 1) left (total + get_or price j 0)

unfoldable pub total_price : List ℕ → ℕ → ℕ → ℕ
unfolding price_loop
total_price price from to = price_loop price from (to - from) 0

-- `seat[j] -= n` and `seat[j] += n` on `uint32_t`, for `left` stations from `j` on.
unfoldable pub take_loop : List ℕ → ℕ → ℕ → ℕ → List ℕ
take_loop seat j zero n = seat
take_loop seat j (suc left) n =
    take_loop (set seat j ((get_or seat j 0 + 2 ^ 32 - n % 2 ^ 32) % 2 ^ 32)) (j + 1) left n

unfoldable pub give_loop : List ℕ → ℕ → ℕ → ℕ → List ℕ
give_loop seat j zero n = seat
give_loop seat j (suc left) n =
    give_loop (set seat j ((get_or seat j 0 + n) % 2 ^ 32)) (j + 1) left n

unfoldable pub take_seats : List ℕ → ℕ → ℕ → ℕ → List ℕ
unfolding take_loop
take_seats seat from to n = take_loop seat from (to - from) n

unfoldable pub give_seats : List ℕ → ℕ → ℕ → ℕ → List ℕ
unfolding give_loop
give_seats seat from to n = give_loop seat from (to - from) n
