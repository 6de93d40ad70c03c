-- ===== src/Transactions.antt =====
-- src/include/transaction_mainenance.hpp: `TransactionManager`. Orders lie in a file of records;
-- the waiting queues and the histories of the users are indexes of places in it.
pub mod Fetching
pub mod History
pub mod Examples
use bh_ticket_system.Base.{
  ℕ, zero, suc, ◌+◌, ◌-◌, ◌%◌, ◌^◌, Bool, ◌||◌, Option, none, some, List, [], ◌∷◌, ◌++◌, Bytes,
  length, get_elem?, set, replicate, ltb, ◌==◌, ◌!=◌, if◌then◌else◌, Result, ok, err, undefined,
  ◌>>=◌, or_fail,
}
use bh_ticket_system.Base.Index.{Order, Entries, lower_bound, insert, remove, set_value}
use bh_ticket_system.Data.{TransactionData}
use bh_ticket_system.Hash.{split_mix64_hash}

-- `queue_index_t`
pub record QueueKey : Type 0 where
  pub train_id_hash : ℕ
  pub running_offset : ℕ
  pub id : ℕ

-- `order_history_index_t`
pub record HistoryKey : Type 0 where
  pub user_id_hash : ℕ
  pub id : ℕ

queue_key_lt : QueueKey → QueueKey → Bool
queue_key_lt a b =
    if a.train_id_hash != b.train_id_hash
    then ltb a.train_id_hash b.train_id_hash
    else if a.running_offset != b.running_offset
    then ltb a.running_offset b.running_offset
    else ltb a.id b.id

-- The newest order of a user comes first.
history_key_lt : HistoryKey → HistoryKey → Bool
history_key_lt a b =
    if a.user_id_hash != b.user_id_hash then ltb a.user_id_hash b.user_id_hash else ltb b.id a.id

instance unfoldable pub queue_order : Order QueueKey
unfolding queue_key_lt
queue_order = record { lt = queue_key_lt }

instance unfoldable pub history_order : Order HistoryKey
unfolding history_key_lt
history_order = record { lt = history_key_lt }

abbrev pub u32_mod : ℕ
u32_mod = 2 ^ 32

abbrev pub queue_special_id : ℕ
queue_special_id = 0

abbrev pub history_special_id : ℕ
history_special_id = u32_mod - 1

-- A place in `orders` is an index of the file of records. Place 0 is the header page, which no
-- order is ever written to: `orders` begins with what reads there as a record.
pub record TransactionManager : Type 0 where
  pub orders : List TransactionData
  pub queue : Entries QueueKey ℕ
  pub order_history : Entries HistoryKey ℕ

abbrev pub queue_key : ℕ → ℕ → ℕ → QueueKey
queue_key train offset id = record {
  train_id_hash = train;
  running_offset = offset % 2 ^ 8;
  id = id;
}

abbrev pub history_key : ℕ → ℕ → HistoryKey
history_key user id = record { user_id_hash = user; id = id }

prepare_days : ℕ → ℕ → ℕ → Entries QueueKey ℕ → Entries QueueKey ℕ
unfolding queue_order
prepare_days train zero i queue = queue
prepare_days train (suc days) i queue =
    prepare_days train days (i + 1) (insert (queue_key train i queue_special_id) 0 queue)

unfoldable pub prepare_train_info : ℕ → ℕ → TransactionManager → TransactionManager
unfolding prepare_days
prepare_train_info train total_days m = record m { queue = prepare_days train total_days 0 m.queue }

unfoldable pub prepare_user_info : ℕ → TransactionManager → TransactionManager
unfolding history_order
prepare_user_info user m = record m {
  order_history = insert (history_key user history_special_id) 0 m.order_history;
}

-- `it.GetValue()`: an iterator at the end has none.
abbrev value_at {ℓ} : {K : Type ℓ} → Entries K ℕ → Result ℕ
value_at [] = err undefined
value_at ((k, v) ∷ rest) = ok v

-- What `AddOrder` does to the index of the queues.
add_to_queue : ℕ → ℕ → ℕ → Entries QueueKey ℕ → Result (Entries QueueKey ℕ)
unfolding queue_order
add_to_queue train offset data_id queue = do
  last_id ← value_at (lower_bound (queue_key train offset queue_special_id) queue)
  let new_id = (last_id + 1) % u32_mod
  let counted = set_value (queue_key train offset queue_special_id) new_id queue
  ok (insert (queue_key train offset new_id) data_id counted)

-- What it does to the index of the histories.
add_to_history : ℕ → ℕ → Entries HistoryKey ℕ → Result (Entries HistoryKey ℕ)
unfolding history_order
add_to_history user data_id history = do
  last_id ← value_at (lower_bound (history_key user history_special_id) history)
  let new_id = (last_id + 1) % u32_mod
  let counted = set_value (history_key user history_special_id) new_id history
  ok (insert (history_key user new_id) data_id counted)

-- `AddOrder`: the record holds all its arguments but the user's name.
unfoldable pub add_order : TransactionData → Bytes → TransactionManager → Result TransactionManager
unfolding add_to_queue add_to_history
add_order tmp username m = do
  let data_id = length m.orders
  queue' ←
      if tmp.status == 0
      then add_to_queue (split_mix64_hash tmp.train_id) tmp.running_date_offset data_id m.queue
      else ok m.queue
  history' ← add_to_history (split_mix64_hash username) data_id m.order_history
  ok (record { orders = m.orders ++ tmp ∷ []; queue = queue'; order_history = history' })

-- The loop of `FetchQueue`. `res.resize` made every element `{0, 0}`, and what the loop does not
-- reach stays so.
fill_queue : ℕ → ℕ → ℕ → Entries QueueKey ℕ → List (ℕ × ℕ)
fill_queue train offset zero it = []
fill_queue train offset (suc n) [] = (0, 0) ∷ replicate n (0, 0)
fill_queue train offset (suc n) ((key, v) ∷ it) =
    let more = fill_queue train offset n it in
    if key.train_id_hash != train || key.running_offset != offset
    then replicate (suc n) (0, 0)
    else (v, key.id) ∷ more

-- The places of the orders that wait for a seat on a day, with their numbers in the queue.
unfoldable pub fetch_queue : ℕ → ℕ → TransactionManager → Result (List (ℕ × ℕ))
unfolding fill_queue queue_order
fetch_queue train offset m = elim (lower_bound (queue_key train offset queue_special_id) m.queue) [
  | [] ↦ err undefined
  | (_, total_num) ∷ it ↦ ok (fill_queue train (offset % 2 ^ 8) total_num it)
]

unfoldable pub remove_order_from_queue : ℕ → ℕ → ℕ → TransactionManager → TransactionManager
unfolding queue_order
remove_order_from_queue train offset id m = record m {
  queue = remove (queue_key train offset id) m.queue;
}

-- `++it; res[i] = it.GetValue()`, so many times.
values_from : ℕ → Entries HistoryKey ℕ → Result (List ℕ)
values_from zero it = ok []
values_from (suc n) [] = err undefined
values_from (suc n) ((_, v) ∷ it) = values_from n it >>= λ vs. ok (v ∷ vs)

unfoldable pub fetch_full_user_order_history : ℕ → TransactionManager → Result (List ℕ)
unfolding values_from history_order
fetch_full_user_order_history user m =
    elim (lower_bound (history_key user history_special_id) m.order_history) [
      | [] ↦ err undefined
      | (_, total_num) ∷ it ↦ values_from total_num it
    ]

-- The place of the `n`-th newest order; `none` is `success = false`.
unfoldable pub fetch_single_user_order_history : ℕ → ℕ → TransactionManager → Result (Option ℕ)
unfolding history_order
fetch_single_user_order_history user n m = do
  total_num ← value_at (lower_bound (history_key user history_special_id) m.order_history)
  let id = total_num + 1 - n
  let found = value_at (lower_bound (history_key user id) m.order_history)
  if ltb total_num n then ok none else (found >>= λ place. ok (some place))

unfoldable pub fetch_transaction_data : ℕ → TransactionManager → Result TransactionData
fetch_transaction_data idx m = or_fail (get_elem? m.orders idx) undefined

unfoldable pub update_transaction_data :
    ℕ → TransactionData → TransactionManager → TransactionManager
update_transaction_data idx d m = record m { orders = set m.orders idx d }
