-- ===== src/Seats/Fares.antt =====
-- src/transaction_system.cpp: the loop that adds up the prices of a journey.
use bh_ticket_system.Base.{ℕ, zero, suc, ◌+◌, ◌-◌, ◌≤◌, ◌≡◌, refl, List, get_or, arith}
use mathlib.Core.Path.{subst}
use bh_ticket_system.Seats.{price_loop, total_price}

-- The prices up to a stop, added up.
abbrev pub fares : List ℕ → ℕ → ℕ
fares price zero = 0
fares price (suc n) = fares price n + get_or price n 0

fares_next : (price : List ℕ) (j : ℕ) → fares price (j + 1) ≡ fares price j + get_or price j 0
fares_next price j =
    let next : suc j ≡ j + 1 = omega arith in
    subst (λ n. fares price n ≡ fares price j + get_or price j 0) next refl

price_loop-fares :
    (price : List ℕ) (j left total end : ℕ)
    → j + left ≡ end
    → fares price j + price_loop price j left total ≡ total + fares price end
unfolding price_loop
price_loop-fares price j zero total end h =
    let same : j ≡ end = omega arith in rw same (omega arith)
price_loop-fares price j (suc left) total end h =
    let rest = price_loop-fares price (j + 1) left (total + get_or price j 0) end (omega arith) in
    omega (arith, rest, fares_next price j)

pub total_price-fares :
    (price : List ℕ) (from to : ℕ)
    → from ≤ to
    → fares price from + total_price price from to ≡ fares price to
unfolding total_price
total_price-fares price from to h =
    omega (arith, price_loop-fares price from (to - from) 0 to (omega arith))
