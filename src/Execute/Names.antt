-- ===== src/Execute/Names.antt =====
-- src/engine.cpp: each command reaches its handler by its name.
use bh_ticket_system.Base.{◌≡◌, refl, List, ◌∷◌, Bytes, codes}
use bh_ticket_system.Hash.{split_mix64_hash}
use bh_ticket_system.Engine.{Engine, Handler}
use bh_ticket_system.Users.{add_user, login_user, logout_user, query_profile, modify_profile}
use bh_ticket_system.Trains.{add_train, delete_train}
use bh_ticket_system.Trains.Release.{release_train}
use bh_ticket_system.Trains.Query.{query_train}
use bh_ticket_system.Tickets.{query_ticket}
use bh_ticket_system.Tickets.Buy.{buy_ticket}
use bh_ticket_system.Tickets.Refund.{refund_ticket}
use bh_ticket_system.Tickets.Orders.{query_order}
use bh_ticket_system.Tickets.Transfer.{query_transfer}
use bh_ticket_system.Execute.{clean, exit_engine, execute}

-- The commands of the system, by the names in its documentation.
pub data Named : Bytes → Handler → Type 0 where
  named_add_user : Named (codes "add_user") add_user
  named_login : Named (codes "login") login_user
  named_logout : Named (codes "logout") logout_user
  named_query_profile : Named (codes "query_profile") query_profile
  named_modify_profile : Named (codes "modify_profile") modify_profile
  named_add_train : Named (codes "add_train") add_train
  named_delete_train : Named (codes "delete_train") delete_train
  named_release_train : Named (codes "release_train") release_train
  named_query_train : Named (codes "query_train") query_train
  named_query_ticket : Named (codes "query_ticket") query_ticket
  named_query_transfer : Named (codes "query_transfer") query_transfer
  named_buy_ticket : Named (codes "buy_ticket") buy_ticket
  named_query_order : Named (codes "query_order") query_order
  named_refund_ticket : Named (codes "refund_ticket") refund_ticket
  named_clean : Named (codes "clean") clean
  named_exit : Named (codes "exit") exit_engine

-- A command with one of the sixteen names of the documentation is answered by the handler of that
-- name, whatever its number, its arguments and the engine are: no two of the hash constants that
-- `Execute` compares the name's hash to are alike, and each is the hash of its name.
pub execute-Named :
    (name : Bytes) (handler : Handler) (s : Engine) (number : Bytes) (arguments : List Bytes)
    → Named name handler
    → execute s (number ∷ name ∷ arguments) ≡ handler s (number ∷ name ∷ arguments)
unfolding execute split_mix64_hash
execute-Named _ _ s number arguments named_add_user = refl
execute-Named _ _ s number arguments named_login = refl
execute-Named _ _ s number arguments named_logout = refl
execute-Named _ _ s number arguments named_query_profile = refl
execute-Named _ _ s number arguments named_modify_profile = refl
execute-Named _ _ s number arguments named_add_train = refl
execute-Named _ _ s number arguments named_delete_train = refl
execute-Named _ _ s number arguments named_release_train = refl
execute-Named _ _ s number arguments named_query_train = refl
execute-Named _ _ s number arguments named_query_ticket = refl
execute-Named _ _ s number arguments named_query_transfer = refl
execute-Named _ _ s number arguments named_buy_ticket = refl
execute-Named _ _ s number arguments named_query_order = refl
execute-Named _ _ s number arguments named_refund_ticket = refl
execute-Named _ _ s number arguments named_clean = refl
execute-Named _ _ s number arguments named_exit = refl
