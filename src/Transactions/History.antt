-- ===== src/Transactions/History.antt =====
-- src/include/transaction_mainenance.hpp: the history of a user in the index of all histories.
use bh_ticket_system.Base.{
  ℕ, zero, suc, ◌+◌, ◌-◌, ◌%◌, ◌^◌, ◌≡◌, ◌≤◌, ◌<◌, refl, sym, ap, ◌∙◌, none, some, List, [], ◌∷◌,
  ◌++◌, Bytes, get_elem?, length, ltb, arith, ok, or_fail, undefined, Bool-cases, inl, inr,
}
use bh_ticket_system.Base.Index.{Entries, lower_bound, insert, set_value}
use bh_ticket_system.Hash.{split_mix64_hash}
use bh_ticket_system.Data.{TransactionData}
use bh_ticket_system.Transactions.{
  HistoryKey, TransactionManager, history_key, history_special_id, history_order, values_from,
  add_to_history, add_order, fetch_full_user_order_history, fetch_single_user_order_history,
  value_at, prepare_user_info,
}

-- All entries are of users with a smaller hash, or with a larger one.
abbrev pub UsersBelow : ℕ → Entries HistoryKey ℕ → Type 0
UsersBelow user [] = Unit {0}
UsersBelow user ((k, v) ∷ m) = (k.user_id_hash < user) × UsersBelow user m

abbrev pub UsersAbove : ℕ → Entries HistoryKey ℕ → Type 0
UsersAbove user [] = Unit {0}
UsersAbove user ((k, v) ∷ m) = (user < k.user_id_hash) × UsersAbove user m

-- The entries of a user whose orders lie at these places, the newest first.
unfoldable pub numbered : ℕ → List ℕ → Entries HistoryKey ℕ
numbered user [] = []
numbered user (place ∷ places) =
    (history_key user (length places + 1), place) ∷ numbered user places

-- The user has ordered at these places, the newest first.
pub record HistoryOf (user : ℕ) (places : List ℕ) (history : Entries HistoryKey ℕ) : Type 0 where
  pub before : Entries HistoryKey ℕ
  pub after : Entries HistoryKey ℕ
  pub parts :
      history
      ≡ before
        ++ ((history_key user history_special_id, length places) ∷ (numbered user places ++ after))
  pub below : UsersBelow user before
  pub above : UsersAbove user after
  pub few : length places + 1 < history_special_id

-- A search passes over the entries of users with a smaller hash.
lower_bound-below :
    (user id : ℕ) (before rest : Entries HistoryKey ℕ)
    → UsersBelow user before
    → lower_bound (history_key user id) (before ++ rest) ≡ lower_bound (history_key user id) rest
unfolding lower_bound history_order
lower_bound-below user id [] rest b = refl
lower_bound-below user id ((k, v) ∷ before) rest (less, b) =
    ground (arith, lower_bound-below user id before rest b)

set_value-below :
    (user id v : ℕ) (before rest : Entries HistoryKey ℕ)
    → UsersBelow user before
    → set_value (history_key user id) v (before ++ rest)
      ≡ before ++ set_value (history_key user id) v rest
unfolding set_value history_order
set_value-below user id v [] rest b = refl
set_value-below user id v ((k, w) ∷ before) rest (less, b) =
    ground (arith, set_value-below user id v before rest b)

insert-below :
    (user id v : ℕ) (before rest : Entries HistoryKey ℕ)
    → UsersBelow user before
    → insert (history_key user id) v (before ++ rest)
      ≡ before ++ insert (history_key user id) v rest
unfolding insert history_order
insert-below user id v [] rest b = refl
insert-below user id v ((k, w) ∷ before) rest (less, b) =
    ground (arith, insert-below user id v before rest b)

-- The newest entry goes behind the counter.
insert-newest :
    (user place : ℕ) (places : List ℕ) (after : Entries HistoryKey ℕ)
    → UsersAbove user after
    → insert (history_key user (length places + 1)) place (numbered user places ++ after)
      ≡ numbered user (place ∷ places) ++ after
unfolding insert numbered history_order
insert-newest user place [] [] a = refl
insert-newest user place [] ((k, v) ∷ after) (more, a) = ground arith
insert-newest user place (p ∷ places) after a = ground arith

values_from-numbered :
    (user : ℕ) (places : List ℕ) (after : Entries HistoryKey ℕ)
    → values_from (length places) (numbered user places ++ after) ≡ ok places
unfolding values_from numbered
values_from-numbered user [] after = refl
values_from-numbered user (p ∷ places) after = rw (values_from-numbered user places after) refl

-- The history with its parts in place.
abbrev whole : ℕ → List ℕ → Entries HistoryKey ℕ → Entries HistoryKey ℕ → Entries HistoryKey ℕ
whole user places before after =
    before
    ++ ((history_key user history_special_id, length places) ∷ (numbered user places ++ after))

lower_bound-whole :
    (user : ℕ) (places : List ℕ) (before after : Entries HistoryKey ℕ)
    → UsersBelow user before
    → lower_bound (history_key user history_special_id) (whole user places before after)
      ≡ (history_key user history_special_id, length places) ∷ (numbered user places ++ after)
unfolding lower_bound history_order
lower_bound-whole user places before after b =
    lower_bound-below user history_special_id before
      ((history_key user history_special_id, length places) ∷ (numbered user places ++ after)) b
    ∙ ground arith

add_to_history-found :
    (user place n : ℕ) (history rest : Entries HistoryKey ℕ) (key : HistoryKey)
    → lower_bound (history_key user history_special_id) history ≡ (key, n) ∷ rest
    → n + 1 < history_special_id
    → add_to_history user place history
      ≡ ok (
          insert
            (history_key user (n + 1))
            place
            (set_value (history_key user history_special_id) (n + 1) history))
unfolding add_to_history
add_to_history-found user place n history rest key found few =
    let same : (n + 1) % 2 ^ 32 ≡ n + 1 = omega arith in ground arith

add_to_history-whole :
    (user place : ℕ) (places : List ℕ) (before after : Entries HistoryKey ℕ)
    → UsersBelow user before
    → UsersAbove user after
    → length places + 1 < history_special_id
    → add_to_history user place (whole user places before after)
      ≡ ok (whole user (place ∷ places) before after)
unfolding add_to_history insert set_value history_order
add_to_history-whole user place places before after b a few =
    let counter : ℕ → HistoryKey × ℕ = λ n. (history_key user history_special_id, n) in
    let rest = numbered user places ++ after in
    let counted : set_value (history_key user history_special_id) (length places + 1)
          (whole user places before after)
        ≡ before ++ (counter (length places + 1) ∷ rest) =
      set_value-below user history_special_id (length places + 1) before
        (counter (length places) ∷ rest) b
      ∙ ap (λ z. before ++ z) (ground arith) in
    let put_in : insert (history_key user (length places + 1)) place
          (before ++ (counter (length places + 1) ∷ rest))
        ≡ before ++ (counter (length places + 1) ∷ (numbered user (place ∷ places) ++ after)) =
      insert-below user (length places + 1) place before (counter (length places + 1) ∷ rest) b
      ∙ ap (λ z. before ++ z) (ground (arith, insert-newest user place places after a)) in
    let one_more : suc (length places) ≡ length places + 1 = omega arith in
    add_to_history-found user place (length places) (whole user places before after) rest
      (history_key user history_special_id) (lower_bound-whole user places before after b) few
    ∙ ap ok (
        ap (insert (history_key user (length places + 1)) place) counted
        ∙ put_in
        ∙ ap (λ n. before ++ (counter n ∷ (numbered user (place ∷ places) ++ after)))
            (sym one_more))

value_at-numbered :
    (user id : ℕ) (places : List ℕ) (after : Entries HistoryKey ℕ)
    → 1 ≤ id
    → id ≤ length places
    → value_at (lower_bound (history_key user id) (numbered user places ++ after))
      ≡ or_fail (get_elem? places (length places - id)) undefined
unfolding lower_bound numbered history_order
value_at-numbered user id [] after low high = absurd (omega arith)
value_at-numbered user id (p ∷ places) after low high =
    elim (Bool-cases (ltb id (length places + 1))) [
      | inl older ↦
          let later = value_at-numbered user id places after low (ground arith) in
          let place : suc (length places) - id ≡ suc (length places - id) = ground arith in
          rw place (ground arith)
      | inr newest ↦
          let place : suc (length places) - id ≡ 0 = ground arith in rw place (ground arith)
    ]

value_at-whole :
    (user id : ℕ) (places : List ℕ) (before after : Entries HistoryKey ℕ)
    → UsersBelow user before
    → 1 ≤ id
    → id ≤ length places
    → length places + 1 < history_special_id
    → value_at (lower_bound (history_key user id) (whole user places before after))
      ≡ or_fail (get_elem? places (length places - id)) undefined
unfolding lower_bound history_order
value_at-whole user id places before after b low high few =
    ap value_at (
      lower_bound-below user id before
        ((history_key user history_special_id, length places) ∷ (numbered user places ++ after)) b)
    ∙ (let behind = value_at-numbered user id places after low high in ground arith)

get_elem?-outside : (xs : List ℕ) (i : ℕ) → length xs ≤ i → get_elem? xs i ≡ none
get_elem?-outside [] i h = refl
get_elem?-outside (x ∷ xs) zero h = absurd (omega arith)
get_elem?-outside (x ∷ xs) (suc i) h = get_elem?-outside xs i (omega arith)

get_elem?-inside : (xs : List ℕ) (i : ℕ) → i < length xs → (x : ℕ) × (get_elem? xs i ≡ some x)
get_elem?-inside [] i h = absurd (omega arith)
get_elem?-inside (x ∷ xs) zero h = (x, refl)
get_elem?-inside (x ∷ xs) (suc i) h = get_elem?-inside xs i (omega arith)

-- `FetchFullUserOrderHistory` returns the places of a user's orders, the newest first, and
-- `FetchSingleUserOrderHistory` returns for `n` the place that stands there as the `n`-th, or fails
-- when there are fewer.
pub fetch_user_order_history-HistoryOf :
    (user : ℕ) (places : List ℕ) (m : TransactionManager)
    → HistoryOf user places m.order_history
    → (fetch_full_user_order_history user m ≡ ok places)
      × ((n : ℕ) → 1 ≤ n → fetch_single_user_order_history user n m ≡ ok (get_elem? places (n - 1)))
unfolding fetch_full_user_order_history fetch_single_user_order_history
fetch_user_order_history-HistoryOf user places m h =
    let counter : HistoryKey × ℕ = (history_key user history_special_id, length places) in
    let found : lower_bound (history_key user history_special_id) m.order_history
        ≡ counter ∷ (numbered user places ++ h.after) =
      rw h.parts (lower_bound-whole user places h.before h.after h.below) in
    let listed = values_from-numbered user places h.after in
    (
      ground arith,
      λ n one. elim (Bool-cases (ltb (length places) n)) [
        | inl too_many ↦
            let nothing = get_elem?-outside places (n - 1) (ground arith) in ground arith
        | inr there ↦
            let id : ℕ = length places + 1 - n in
            let place =
              value_at-whole user id places h.before h.after h.below (ground arith) (ground arith)
                h.few in
            let index : length places - id ≡ n - 1 = ground arith in
            let (x, inside) = get_elem?-inside places (n - 1) (ground arith) in
            let value : value_at (lower_bound (history_key user id) m.order_history) ≡ ok x =
              rw h.parts (place ∙ rw (index, inside) refl) in
            ground arith
      ],
    )

order_history-add_order :
    (x : TransactionData) (username : Bytes) (m m' : TransactionManager) (h : Entries HistoryKey ℕ)
    → add_order x username m ≡ ok m'
    → add_to_history (split_mix64_hash username) (length m.orders) m.order_history ≡ ok h
    → m'.order_history ≡ h
unfolding add_order
order_history-add_order x username m m' h e added = ground arith

-- An order becomes the newest in its user's history, and the older ones stay behind it. This is for
-- a user who has fewer than 2 ^ 32 - 3 orders.
pub add_order-HistoryOf :
    (x : TransactionData) (username : Bytes) (places : List ℕ) (m m' : TransactionManager)
    → add_order x username m ≡ ok m'
    → length places + 2 < history_special_id
    → HistoryOf (split_mix64_hash username) places m.order_history
    → HistoryOf (split_mix64_hash username) (length m.orders ∷ places) m'.order_history
add_order-HistoryOf x username places m m' e few h =
    let user = split_mix64_hash username in
    let grown : add_to_history user (length m.orders) m.order_history
        ≡ ok (whole user (length m.orders ∷ places) h.before h.after) =
      ap (add_to_history user (length m.orders)) h.parts
      ∙ add_to_history-whole user (length m.orders) places h.before h.after h.below h.above h.few in
    let stored : m'.order_history ≡ whole user (length m.orders ∷ places) h.before h.after =
      order_history-add_order x username m m' _ e grown in
    record {
      before = h.before;
      after = h.after;
      parts = stored;
      below = h.below;
      above = h.above;
      few = omega arith;
    }

insert-above :
    (user id v : ℕ) (after : Entries HistoryKey ℕ)
    → UsersAbove user after
    → insert (history_key user id) v after ≡ (history_key user id, v) ∷ after
unfolding insert history_order
insert-above user id v [] a = refl
insert-above user id v ((k, w) ∷ after) (more, a) = ground arith

-- `PrepareUserInfo` gives a user of whom the index knows nothing a history without orders.
pub prepare_user_info-HistoryOf :
    (user : ℕ) (before after : Entries HistoryKey ℕ) (m : TransactionManager)
    → m.order_history ≡ before ++ after
    → UsersBelow user before
    → UsersAbove user after
    → HistoryOf user [] (prepare_user_info user m).order_history
unfolding prepare_user_info numbered
prepare_user_info-HistoryOf user before after m parts b a = record {
  before = before;
  after = after;
  parts =
      ap (insert (history_key user history_special_id) 0) parts
      ∙ insert-below user history_special_id 0 before after b
      ∙ ap (λ z. before ++ z) (insert-above user history_special_id 0 after a);
  below = b;
  above = a;
  few = omega arith;
}
