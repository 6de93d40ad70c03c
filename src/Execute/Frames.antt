-- ===== src/Execute/Frames.antt =====
-- src/train_system.cpp and src/transaction_system.cpp: what the handlers leave as it is.
use bh_ticket_system.Base.{◌≡◌, sym, Bytes, ok, arith, hash_eq, pair_eq}
use mathlib.Core.Path.{subst}
use bh_ticket_system.Args.{Command}
use bh_ticket_system.Engine.{Engine, Handler}
use bh_ticket_system.Execute.Runs.{Keeps}
use bh_ticket_system.Trains.{TrainArgs, add_train_with, delete_train_with}
use bh_ticket_system.Trains.Release.{release_train_with}
use bh_ticket_system.Trains.Query.{QueryTrainArgs, query_train_with}
use bh_ticket_system.Tickets.{TicketArgs, query_ticket_with}
use bh_ticket_system.Tickets.Buy.{BuyArgs, buy_ticket_with}
use bh_ticket_system.Tickets.Refund.{RefundArgs, refund_ticket_with}
use bh_ticket_system.Tickets.Orders.{query_order_with}
use bh_ticket_system.Tickets.Transfer.{query_transfer_with}

-- The handler leaves the accounts and the users who are logged in.
abbrev pub KeepsUsers : Handler → Type 0
KeepsUsers h =
    (s s' : Engine) (command : Command) (r : Bytes)
    → h s command ≡ ok (s', r)
    → (s'.online_users ≡ s.online_users) × (s'.user_data ≡ s.user_data)

-- The handler leaves the engine as it is.
abbrev pub Reads : Handler → Type 0
Reads h = (s s' : Engine) (command : Command) (r : Bytes) → h s command ≡ ok (s', r) → s' ≡ s

pub Reads-Keeps : (P : Engine → Type 0) (h : Handler) → Reads h → Keeps P h
Reads-Keeps P h same s s' command r p e = subst P (sym (same s s' command r e)) p

pub query_train_with-Reads : (a : QueryTrainArgs) → Reads (query_train_with a)
unfolding query_train_with
query_train_with-Reads a s s' command r e = ground arith

pub query_ticket_with-Reads : (a : TicketArgs) → Reads (query_ticket_with a)
unfolding query_ticket_with
query_ticket_with-Reads a s s' command r e = ground arith

pub query_transfer_with-Reads : (a : TicketArgs) → Reads (query_transfer_with a)
unfolding query_transfer_with
query_transfer_with-Reads a s s' command r e = ground arith

pub query_order_with-Reads : (user_name : Bytes) → Reads (query_order_with user_name)
unfolding query_order_with
query_order_with-Reads user_name s s' command r e = ground arith

pub add_train_with-KeepsUsers : (a : TrainArgs) → KeepsUsers (add_train_with a)
unfolding add_train_with
add_train_with-KeepsUsers a s s' command r e = (ground arith, ground arith)

pub delete_train_with-KeepsUsers : (train_id : Bytes) → KeepsUsers (delete_train_with train_id)
unfolding delete_train_with
delete_train_with-KeepsUsers train_id s s' command r e = (ground arith, ground arith)

pub release_train_with-KeepsUsers : (train_id : Bytes) → KeepsUsers (release_train_with train_id)
unfolding release_train_with
release_train_with-KeepsUsers train_id s s' command r e = (ground arith, ground arith)

pub buy_ticket_with-KeepsUsers : (a : BuyArgs) → KeepsUsers (buy_ticket_with a)
unfolding buy_ticket_with
buy_ticket_with-KeepsUsers a s s' command r e = (ground arith, ground arith)

pub refund_ticket_with-KeepsUsers : (a : RefundArgs) → KeepsUsers (refund_ticket_with a)
unfolding refund_ticket_with
refund_ticket_with-KeepsUsers a s s' command r e = (ground arith, ground arith)
