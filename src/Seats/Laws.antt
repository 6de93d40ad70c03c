-- ===== src/Seats/Laws.antt =====
-- src/transaction_system.cpp: what the loops over the stations of a journey compute and change.
use bh_ticket_system.Base.{
  ℕ, zero, suc, ◌+◌, ◌-◌, ◌%◌, ◌^◌, ◌≤◌, ◌<◌, ◌≡◌, refl, ◌∙◌, ◌⊎◌, List, get_or, set, min, length,
  length-set, get_or-set_self, get_or-set_ne, arith, ap, ltb, leb, ◌&&◌, if◌then◌else◌,
}
use native.Mathlib.Decide.{ℕ_discrete}
use bh_ticket_system.Seats.{min_loop, available_seats, take_loop, give_loop, take_seats, give_seats}

min_loop-le_acc : (seat : List ℕ) (j left acc : ℕ) → min_loop seat j left acc ≤ acc
unfolding min_loop
min_loop-le_acc seat j zero acc = omega arith
min_loop-le_acc seat j (suc left) acc =
    omega (arith, min_loop-le_acc seat (j + 1) left (min acc (get_or seat j 0)))

min_loop-le :
    (seat : List ℕ) (j left acc i : ℕ)
    → j ≤ i
    → i < j + left
    → min_loop seat j left acc ≤ get_or seat i 0
unfolding min_loop
min_loop-le seat j zero acc i h k = absurd (omega arith)
min_loop-le seat j (suc left) acc i h k = elim (ℕ_discrete j i) [
  | yes e ↦ rw (← e) (omega (arith, min_loop-le_acc seat (j + 1) left (min acc (get_or seat j 0))))
  | no ne ↦ min_loop-le seat (j + 1) left (min acc (get_or seat j 0)) i (omega arith) (omega arith)
]

le-min_loop :
    (seat : List ℕ) (j left acc n : ℕ)
    → n ≤ acc
    → ((i : ℕ) → j ≤ i → i < j + left → n ≤ get_or seat i 0)
    → n ≤ min_loop seat j left acc
unfolding min_loop
le-min_loop seat j zero acc n h all = h
le-min_loop seat j (suc left) acc n h all =
    le-min_loop seat (j + 1) left (min acc (get_or seat j 0)) n
      (let here = all j (omega arith) (omega arith) in omega arith)
      (λ i p q. all i (omega arith) (omega arith))

pub available_seats-le :
    (seat : List ℕ) (from to i : ℕ)
    → from ≤ i
    → i < to
    → available_seats seat from to ≤ get_or seat i 0
unfolding available_seats
available_seats-le seat from to i h k = elim (ℕ_discrete from i) [
  | yes e ↦ rw (← e) (min_loop-le_acc seat (from + 1) (to - (from + 1)) (get_or seat from 0))
  | no ne ↦
      min_loop-le seat (from + 1) (to - (from + 1)) (get_or seat from 0) i (omega arith)
        (omega arith)
]

pub le-available_seats :
    (seat : List ℕ) (from to n : ℕ)
    → n ≤ get_or seat from 0
    → ((i : ℕ) → from ≤ i → i < to → n ≤ get_or seat i 0)
    → n ≤ available_seats seat from to
unfolding available_seats
le-available_seats seat from to n h all =
    le-min_loop seat (from + 1) (to - (from + 1)) (get_or seat from 0) n h
      (λ i p q. all i (omega arith) (omega arith))

length-take_loop : (seat : List ℕ) (j left n : ℕ) → length (take_loop seat j left n) ≡ length seat
unfolding take_loop
length-take_loop seat j zero n = refl
length-take_loop seat j (suc left) n =
    length-take_loop (set seat j _) (j + 1) left n ∙ length-set seat j _

length-give_loop : (seat : List ℕ) (j left n : ℕ) → length (give_loop seat j left n) ≡ length seat
unfolding give_loop
length-give_loop seat j zero n = refl
length-give_loop seat j (suc left) n =
    length-give_loop (set seat j _) (j + 1) left n ∙ length-set seat j _

take_loop_outside :
    (seat : List ℕ) (j left n i : ℕ)
    → (i < j) ⊎ (j + left ≤ i)
    → get_or (take_loop seat j left n) i 0 ≡ get_or seat i 0
unfolding take_loop
take_loop_outside seat j zero n i out = refl
take_loop_outside seat j (suc left) n i out =
    take_loop_outside (set seat j _) (j + 1) left n i (omega arith)
    ∙ get_or-set_ne seat j i _ 0 (omega arith)

give_loop_outside :
    (seat : List ℕ) (j left n i : ℕ)
    → (i < j) ⊎ (j + left ≤ i)
    → get_or (give_loop seat j left n) i 0 ≡ get_or seat i 0
unfolding give_loop
give_loop_outside seat j zero n i out = refl
give_loop_outside seat j (suc left) n i out =
    give_loop_outside (set seat j _) (j + 1) left n i (omega arith)
    ∙ get_or-set_ne seat j i _ 0 (omega arith)

-- `uint32_t` subtraction and addition that stay in range.
sub_in_range : (a n : ℕ) → n ≤ a → a < 2 ^ 32 → (a + 2 ^ 32 - n % 2 ^ 32) % 2 ^ 32 + n ≡ a
sub_in_range a n h k = omega arith

take_loop_inside :
    (seat : List ℕ) (j left n i : ℕ)
    → i < length seat
    → j ≤ i
    → i < j + left
    → n ≤ get_or seat i 0
    → get_or seat i 0 < 2 ^ 32
    → get_or (take_loop seat j left n) i 0 + n ≡ get_or seat i 0
unfolding take_loop
take_loop_inside seat j zero n i len h k enough small = absurd (omega arith)
take_loop_inside seat j (suc left) n i len h k enough small =
    let v : ℕ = (get_or seat j 0 + 2 ^ 32 - n % 2 ^ 32) % 2 ^ 32 in
    elim (ℕ_discrete j i) [
      | yes e ↦
          rw
            (
              take_loop_outside (set seat j v) (j + 1) left n i (omega arith),
              ← e,
              get_or-set_self seat j v 0 (rw e len),
            )
            (sub_in_range (get_or seat j 0) n (rw e enough) (rw e small))
      | no ne ↦
          let same = get_or-set_ne seat j i v 0 ne in
          take_loop_inside (set seat j v) (j + 1) left n i (rw (length-set seat j v) len)
            (omega arith) (omega arith) (rw same enough) (rw same small)
          ∙ same
    ]

give_loop_inside :
    (seat : List ℕ) (j left n i : ℕ)
    → i < length seat
    → j ≤ i
    → i < j + left
    → get_or seat i 0 + n < 2 ^ 32
    → get_or (give_loop seat j left n) i 0 ≡ get_or seat i 0 + n
unfolding give_loop
give_loop_inside seat j zero n i len h k small = absurd (omega arith)
give_loop_inside seat j (suc left) n i len h k small =
    let v : ℕ = (get_or seat j 0 + n) % 2 ^ 32 in
    elim (ℕ_discrete j i) [
      | yes e ↦
          rw
            (
              give_loop_outside (set seat j v) (j + 1) left n i (omega arith),
              ← e,
              get_or-set_self seat j v 0 (rw e len),
            )
            (let small' : get_or seat j 0 + n < 2 ^ 32 = rw e small in omega arith)
      | no ne ↦
          let same = get_or-set_ne seat j i v 0 ne in
          give_loop_inside (set seat j v) (j + 1) left n i (rw (length-set seat j v) len)
            (omega arith) (omega arith) (rw same small)
          ∙ ap (λ t. t + n) same
    ]

pub length-take_seats :
    (seat : List ℕ) (from to n : ℕ) → length (take_seats seat from to n) ≡ length seat
unfolding take_seats
length-take_seats seat from to n = length-take_loop seat from (to - from) n

pub length-give_seats :
    (seat : List ℕ) (from to n : ℕ) → length (give_seats seat from to n) ≡ length seat
unfolding give_seats
length-give_seats seat from to n = length-give_loop seat from (to - from) n

-- `n` seats on the part of the way that lies in the journey, and none elsewhere.
abbrev pub on_way : ℕ → ℕ → ℕ → ℕ → ℕ
on_way from to n i = if leb from i && ltb i to then n else 0

pub take_seats-on_way :
    (seat : List ℕ) (from to n i : ℕ)
    → i < length seat
    → n ≤ available_seats seat from to
    → get_or seat i 0 < 2 ^ 32
    → get_or (take_seats seat from to n) i 0 + on_way from to n i ≡ get_or seat i 0
unfolding take_seats
take_seats-on_way seat from to n i len enough small = ground (
  arith,
  take_loop_outside seat from (to - from) n i,
  take_loop_inside seat from (to - from) n i len,
  available_seats-le seat from to i,
)

pub give_seats-on_way :
    (seat : List ℕ) (from to n i : ℕ)
    → i < length seat
    → get_or seat i 0 + on_way from to n i < 2 ^ 32
    → get_or (give_seats seat from to n) i 0 ≡ get_or seat i 0 + on_way from to n i
unfolding give_seats
give_seats-on_way seat from to n i len small = ground (
  arith,
  give_loop_outside seat from (to - from) n i,
  give_loop_inside seat from (to - from) n i len,
)
