-- ===== src/Transactions/Fetching.antt =====
-- src/include/transaction_mainenance.hpp: what `FetchQueue` returns.
use bh_ticket_system.Base.{
  ℕ, zero, suc, ◌%◌, ◌^◌, ◌≡◌, ◌≤◌, refl, ap, ◌⊎◌, inl, inr, ◌||◌, true, Option, none, some, List,
  [], ◌∷◌, get_elem?, length, replicate, length-replicate, ◌!=◌, arith, ok, Bool-cases,
}
use bh_ticket_system.Base.Index.{Entries, lower_bound}
use bh_ticket_system.Transactions.{
  QueueKey, TransactionManager, queue_key, queue_special_id, queue_order, fill_queue, fetch_queue,
}
use mathlib.Core.Path.{subst}

List-cases : {A : Type 0} (xs : List A) → (xs ≡ []) ⊎ ((x : A) × (ys : List A) × (xs ≡ x ∷ ys))
List-cases [] = inl refl
List-cases (x ∷ xs) = inr (x, xs, refl)

length-fill_queue :
    (train day n : ℕ) (it : Entries QueueKey ℕ) → length (fill_queue train day n it) ≡ n
unfolding fill_queue
length-fill_queue train day zero it = refl
length-fill_queue train day (suc n) [] = ap suc (length-replicate n (0, 0))
length-fill_queue train day (suc n) ((key, v) ∷ it) =
    elim (Bool-cases (key.train_id_hash != train || key.running_offset != day)) [
      | inl other ↦ rw other (ap suc (length-replicate n (0, 0)))
      | inr mine ↦ rw mine (ap suc (length-fill_queue train day n it))
    ]

-- An entry of the queue of the train on the day.
abbrev pub IsOf : ℕ → ℕ → Option (QueueKey × ℕ) → Type 0
IsOf train day none = ¬ Unit {0}
IsOf train day (some (key, place)) = (key.train_id_hash ≡ train) × (key.running_offset ≡ day)

-- What stands at place `i` of the result: the entry `i` of the queue, while all entries up to it are of
-- the train and the day, and zeros from the first one on that is not.
abbrev pub Stands : ℕ → ℕ → Entries QueueKey ℕ → ℕ → ℕ × ℕ → Type 0
Stands train day it i q =
    (((j : ℕ) → j ≤ i → IsOf train day (get_elem? it j))
      × (key : QueueKey) × (get_elem? it i ≡ some (key, q.0))
      × (key.id ≡ q.1))
    ⊎ ((j : ℕ) × (j ≤ i) × (¬ (IsOf train day (get_elem? it j))) × (q ≡ (0, 0)))

get_elem?-replicate :
    {A : Type 0} (n i : ℕ) (a b : A) → get_elem? (replicate n a) i ≡ some b → b ≡ a
get_elem?-replicate zero i a b e = cc
get_elem?-replicate (suc n) zero a b e = cc
get_elem?-replicate (suc n) (suc i) a b e = get_elem?-replicate n i a b e

-- Behind an entry that is of the queue the rest goes on as from its start.
Stands-cons :
    (train day i v : ℕ) (key : QueueKey) (it : Entries QueueKey ℕ) (q : ℕ × ℕ)
    → IsOf train day (some (key, v))
    → Stands train day it i q
    → Stands train day ((key, v) ∷ it) (suc i) q
Stands-cons train day i v key it q mine (inl (all, k, found, number)) =
    inl (up_to, k, found, number)
  where
    up_to : (j : ℕ) → j ≤ suc i → IsOf train day (get_elem? ((key, v) ∷ it) j)
    up_to zero le = mine
    up_to (suc j) le = all j (omega arith)
Stands-cons train day i v key it q mine (inr (j, le, other, zeros)) =
    inr (suc j, omega arith, other, zeros)

Stands-head :
    (train day : ℕ) (key : QueueKey) (v : ℕ) (it : Entries QueueKey ℕ) (q : ℕ × ℕ)
    → IsOf train day (some (key, v))
    → v ≡ q.0
    → key.id ≡ q.1
    → Stands train day ((key, v) ∷ it) 0 q
Stands-head train day key v it q mine place number =
    inl (first, key, ap (λ (p : ℕ). some (key, p)) place, number)
  where
    first : (j : ℕ) → j ≤ 0 → IsOf train day (get_elem? ((key, v) ∷ it) j)
    first zero le = mine
    first (suc j) le = absurd (omega arith)

Stands-zeros :
    (train day i : ℕ) (key : QueueKey) (v : ℕ) (it : Entries QueueKey ℕ) (q : ℕ × ℕ)
    → (key.train_id_hash != train || key.running_offset != day) ≡ true
    → q ≡ (0, 0)
    → Stands train day ((key, v) ∷ it) i q
Stands-zeros train day i key v it q other zeros = inr (
  0,
  omega arith,
  (λ mine. (let same_train = mine.0 in let same_day = mine.1 in ground (arith, other))),
  zeros,
)

fill_queue-Stands :
    (train day n i : ℕ) (it : Entries QueueKey ℕ) (q : ℕ × ℕ)
    → get_elem? (fill_queue train day n it) i ≡ some q
    → Stands train day it i q
unfolding fill_queue
fill_queue-Stands train day zero i it q e = cc
fill_queue-Stands train day (suc n) i [] q e =
    inr (0, omega arith, (λ no_entry. no_entry tt), get_elem?-replicate (suc n) i (0, 0) q e)
fill_queue-Stands train day (suc n) zero ((key, v) ∷ it) q e =
    elim (Bool-cases (key.train_id_hash != train || key.running_offset != day)) [
      | inl other ↦
          Stands-zeros train day 0 key v it q other
            (get_elem?-replicate (suc n) 0 (0, 0) q (rw other at e))
      | inr mine ↦
          let first : some (v, key.id) ≡ some q = rw mine at e in
          Stands-head train day key v it q (ground arith, ground arith) (ground arith)
            (ground arith)
    ]
fill_queue-Stands train day (suc n) (suc i) ((key, v) ∷ it) q e =
    elim (Bool-cases (key.train_id_hash != train || key.running_offset != day)) [
      | inl other ↦
          Stands-zeros train day (suc i) key v it q other
            (get_elem?-replicate (suc n) (suc i) (0, 0) q (rw other at e))
      | inr mine ↦
          Stands-cons train day i v key it q (ground arith, ground arith)
            (fill_queue-Stands train day n i it q (rw mine at e))
    ]

-- `FetchQueue` returns as many pairs as the queue's counter says, which counts every order that was
-- ever put there: the entries behind the counter, each with its place and its number, while they are of
-- the train and the day, and then pairs of zeros.
pub fetch_queue-Stands :
    (train day : ℕ) (m : TransactionManager) (q : List (ℕ × ℕ))
    → fetch_queue train day m ≡ ok q
    → (counter : QueueKey × ℕ) × (it : Entries QueueKey ℕ) × (lower_bound
          (queue_key train day queue_special_id)
          m.queue
        ≡ counter ∷ it)
      × (length q ≡ counter.1)
      × ((i : ℕ) (x : ℕ × ℕ) → get_elem? q i ≡ some x → Stands train (day % 2 ^ 8) it i x)
unfolding fetch_queue
fetch_queue-Stands train day m q e =
    elim (List-cases (lower_bound (queue_key train day queue_special_id) m.queue)) [
      | inl nothing ↦ absurd (ground arith)
      | inr ((k, total), it, found) ↦
          let same : fill_queue train (day % 2 ^ 8) total it ≡ q = ground arith in
          (
            (k, total),
            it,
            found,
            subst (λ z. length z ≡ total) same (length-fill_queue train (day % 2 ^ 8) total it),
            λ i x at_i. fill_queue-Stands train (day % 2 ^ 8) total i it x (rw same at_i),
          )
    ]
