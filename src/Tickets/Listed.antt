-- ===== src/Tickets/Listed.antt =====
-- src/transaction_system.cpp: the data of the trains that `QueryTicket` lists.
use bh_ticket_system.Base.{
  ℕ, ◌+◌, ◌-◌, ◌%◌, ◌^◌, ◌≤◌, ◌<◌, ◌≡◌, refl, some, List, [], ◌∷◌, get_or, ok, >>=-eq-ok, hash_eq,
  pair_eq, or_fail-some, ok_inj, Bool-cases, inl, inr, Bool,
}
use mathlib.Core.Path.{subst}
use bh_ticket_system.Base.Map.{get}
use bh_ticket_system.Hash.{split_mix64_hash}
use bh_ticket_system.Data.{DirectTrainInfo, TicketPriceData, SeatsData}
use bh_ticket_system.StopRegister.Direct.{Direct, Each}
use bh_ticket_system.Engine.{Engine}
use bh_ticket_system.Seats.Fares.{fares, total_price-fares}
use bh_ticket_system.Seats.Laws.{available_seats-le, le-available_seats}
use bh_ticket_system.Tickets.{TicketArgs, FullTrainInfo, full_info, full_infos, insert_sorted, sort}

-- A line of the list: a train that runs between the stations on the day, with its name, the seats that
-- are free all the way, the most that can be, and the difference of the prices up to its two stops.
pub record Listed (a : TicketArgs) (s : Engine) (t : FullTrainInfo) : Type 0 where
  pub runs : Direct a.date (split_mix64_hash a.from) (split_mix64_hash a.to) s.stop_register t.info
  pub prices : TicketPriceData
  pub priced : get t.info.train_id_hash s.ticket_price_data_storage ≡ some prices
  pub name : t.extra.train_id ≡ prices.train_id
  pub price :
      t.info.from_stop_id ≤ t.info.to_stop_id
      → fares prices.price t.info.from_stop_id + t.extra.price
        ≡ fares prices.price t.info.to_stop_id
  pub seats : SeatsData
  pub seated :
      get
        (t.info.train_id_hash, (t.info.actual_start_date - t.info.sale_date_beg) % 2 ^ 8)
        s.seats_data_storage
      ≡ some seats
  pub free :
      (i : ℕ)
      → t.info.from_stop_id ≤ i
      → i < t.info.to_stop_id
      → t.extra.seats ≤ get_or seats.seat i 0
  pub most :
      (n : ℕ)
      → n ≤ get_or seats.seat t.info.from_stop_id 0
      → ((i : ℕ) → t.info.from_stop_id ≤ i → i < t.info.to_stop_id → n ≤ get_or seats.seat i 0)
      → n ≤ t.extra.seats

module _ (a : TicketArgs) (s : Engine) where
  full_info-Listed :
      (info : DirectTrainInfo) (t : FullTrainInfo)
      → Direct a.date (split_mix64_hash a.from) (split_mix64_hash a.to) s.stop_register info
      → full_info s info ≡ ok t
      → Listed a s t
  unfolding full_info
  full_info-Listed info t runs e =
      let (prices, priced, e1) = >>=-eq-ok _ _ e in
      let (seats, seated, e2) = >>=-eq-ok _ _ e1 in
      subst (Listed a s) (ok_inj e2) (record {
        runs = runs;
        prices = prices;
        priced = or_fail-some _ _ priced;
        name = refl;
        price = total_price-fares prices.price info.from_stop_id info.to_stop_id;
        seats = seats;
        seated = or_fail-some _ _ seated;
        free = available_seats-le seats.seat info.from_stop_id info.to_stop_id;
        most = le-available_seats seats.seat info.from_stop_id info.to_stop_id;
      })

  pub full_infos-Listed :
      (infos : List DirectTrainInfo) (ts : List FullTrainInfo)
      → Each (Direct a.date (split_mix64_hash a.from) (split_mix64_hash a.to) s.stop_register) infos
      → full_infos s infos ≡ ok ts
      → Each (Listed a s) ts
  unfolding full_infos
  full_infos-Listed [] ts each e = subst (Each (Listed a s)) (ok_inj e) tt
  full_infos-Listed (info ∷ infos) ts (runs, each) e =
      let (t, looked_up, e1) = >>=-eq-ok _ _ e in
      let (more, rest, e2) = >>=-eq-ok _ _ e1 in
      let both : Each (Listed a s) (t ∷ more) =
        (full_info-Listed info t runs looked_up, full_infos-Listed infos more each rest) in
      subst (Each (Listed a s)) (ok_inj e2) both

module _ {A : Type 0} (P : A → Type 0) (cmp : A → A → Bool) where
  insert_sorted-Each : (x : A) (xs : List A) → P x → Each P xs → Each P (insert_sorted cmp x xs)
  unfolding insert_sorted
  insert_sorted-Each x [] p each = (p, tt)
  insert_sorted-Each x (y ∷ ys) p (q, each) = elim (Bool-cases (cmp y x)) [
    | inl before ↦ rw before (q, insert_sorted-Each x ys p each)
    | inr not_before ↦ rw not_before (p, (q, each))
  ]

  pub sort-Each : (xs : List A) → Each P xs → Each P (sort cmp xs)
  unfolding sort
  sort-Each [] each = tt
  sort-Each (x ∷ xs) (p, each) = insert_sorted-Each x (sort cmp xs) p (sort-Each xs each)
