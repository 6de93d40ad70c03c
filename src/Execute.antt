-- ===== src/Execute.antt =====
-- src/engine.cpp: `Execute` picks the handler by the hash of the command's name.
pub mod Runs
pub mod Names
pub mod Frames
pub mod Users
pub mod Stops
pub mod Examples
use bh_ticket_system.Base.{
  ℕ, [], true, codes, get_or, ◌==◌, if◌then◌else◌, err, invalid_argument, runtime_error,
}
use bh_ticket_system.Hash.{split_mix64_hash}
use bh_ticket_system.Engine.{Handler, answer}
use bh_ticket_system.Users.{add_user, login_user, logout_user, query_profile, modify_profile}
use bh_ticket_system.Trains.{add_train, delete_train}
use bh_ticket_system.Trains.Release.{release_train}
use bh_ticket_system.Trains.Query.{query_train}
use bh_ticket_system.Tickets.{query_ticket}
use bh_ticket_system.Tickets.Buy.{buy_ticket}
use bh_ticket_system.Tickets.Refund.{refund_ticket}
use bh_ticket_system.Tickets.Orders.{query_order}
use bh_ticket_system.Tickets.Transfer.{query_transfer}

abbrev add_user_hash : ℕ
add_user_hash = 1294763820278197867

abbrev login_hash : ℕ
login_hash = 2711532776857333909

abbrev logout_hash : ℕ
logout_hash = 654844766916416630

abbrev query_profile_hash : ℕ
query_profile_hash = 2497292575416072607

abbrev modify_profile_hash : ℕ
modify_profile_hash = 11664297803074461165

abbrev add_train_hash : ℕ
add_train_hash = 4928024213250587878

abbrev delete_train_hash : ℕ
delete_train_hash = 13574898832952622188

abbrev release_train_hash : ℕ
release_train_hash = 3024733565973464225

abbrev query_train_hash : ℕ
query_train_hash = 8200860784912964124

abbrev query_ticket_hash : ℕ
query_ticket_hash = 11565392281772224130

abbrev query_transfer_hash : ℕ
query_transfer_hash = 17604853834584868005

abbrev buy_ticket_hash : ℕ
buy_ticket_hash = 16906761384093040506

abbrev query_order_hash : ℕ
query_order_hash = 8097745745927766409

abbrev refund_ticket_hash : ℕ
refund_ticket_hash = 14136625827132030759

abbrev clean_hash : ℕ
clean_hash = 13563833734274431010

abbrev exit_hash : ℕ
exit_hash = 5825494509148032335

-- `Clean` is not implemented.
unfoldable pub clean : Handler
clean s command = err runtime_error

-- `Exit`
unfoldable pub exit_engine : Handler
exit_engine s command = answer (record s { its_time_to_exit = true }) command (codes "bye")

-- The `switch` of `Execute`.
unfoldable pub dispatch : ℕ → Handler
dispatch name_hash s command =
    if name_hash == add_user_hash
    then add_user s command
    else if name_hash == login_hash
    then login_user s command
    else if name_hash == logout_hash
    then logout_user s command
    else if name_hash == query_profile_hash
    then query_profile s command
    else if name_hash == modify_profile_hash
    then modify_profile s command
    else if name_hash == add_train_hash
    then add_train s command
    else if name_hash == delete_train_hash
    then delete_train s command
    else if name_hash == release_train_hash
    then release_train s command
    else if name_hash == query_train_hash
    then query_train s command
    else if name_hash == query_ticket_hash
    then query_ticket s command
    else if name_hash == query_transfer_hash
    then query_transfer s command
    else if name_hash == buy_ticket_hash
    then buy_ticket s command
    else if name_hash == query_order_hash
    then query_order s command
    else if name_hash == refund_ticket_hash
    then refund_ticket s command
    else if name_hash == clean_hash
    then clean s command
    else if name_hash == exit_hash
    then exit_engine s command
    else err invalid_argument

-- The name is the second token.
unfoldable pub execute : Handler
unfolding dispatch
execute s command = dispatch (split_mix64_hash (get_or command 1 [])) s command
