-- ===== src/Seats/Monotone.antt =====
-- src/transaction_system.cpp: where fewer seats are free, a journey has no more.
use bh_ticket_system.Base.{
  ℕ, zero, suc, ◌+◌, ◌-◌, ◌^◌, ◌≤◌, ◌<◌, ◌≡◌, refl, List, [], ◌∷◌, get_or, length, arith,
  Bool-cases, ltb, ltb→lt, inl, inr,
}
use bh_ticket_system.Seats.{min_loop, available_seats, take_seats}
use bh_ticket_system.Seats.Laws.{take_seats-on_way, length-take_seats}

-- No station has more free seats.
abbrev pub Fewer : List ℕ → List ℕ → Type 0
Fewer a b = (i : ℕ) → get_or a i 0 ≤ get_or b i 0

-- `uint32_t`
abbrev pub SmallSeats : List ℕ → Type 0
SmallSeats seat = (i : ℕ) → get_or seat i 0 < 2 ^ 32

min_loop-Fewer :
    (a b : List ℕ) (j left m n : ℕ) → Fewer a b → m ≤ n → min_loop a j left m ≤ min_loop b j left n
unfolding min_loop
min_loop-Fewer a b j zero m n fewer h = h
min_loop-Fewer a b j (suc left) m n fewer h =
    min_loop-Fewer a b (j + 1) left _ _ fewer (let f = fewer j in omega arith)

pub available_seats-Fewer :
    (a b : List ℕ) (from to : ℕ) → Fewer a b → available_seats a from to ≤ available_seats b from to
unfolding available_seats
available_seats-Fewer a b from to fewer =
    min_loop-Fewer a b (from + 1) (to - (from + 1)) _ _ fewer (fewer from)

get_or-outside : (xs : List ℕ) (i : ℕ) → length xs ≤ i → get_or xs i 0 ≡ 0
get_or-outside [] i h = refl
get_or-outside (x ∷ xs) zero h = absurd (omega arith)
get_or-outside (x ∷ xs) (suc i) h = get_or-outside xs i (omega arith)

-- Seats that are free are taken: fewer stay.
pub take_seats-Fewer :
    (seat : List ℕ) (from to n : ℕ)
    → n ≤ available_seats seat from to
    → SmallSeats seat
    → Fewer (take_seats seat from to n) seat
take_seats-Fewer seat from to n enough small i =
    let len = length-take_seats seat from to n in
    elim (Bool-cases (ltb i (length seat))) [
      | inl inside ↦
          (let t = take_seats-on_way seat from to n i (ltb→lt _ _ inside) enough (small i) in
            omega arith)
      | inr outside ↦
          let out = get_or-outside (take_seats seat from to n) i (ground arith) in omega arith
    ]
