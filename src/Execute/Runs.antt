-- ===== src/Execute/Runs.antt =====
-- src/engine.cpp: what every handler keeps, a run of commands keeps.
use bh_ticket_system.Base.{
  ℕ, ◌≡◌, Bool, true, false, Bytes, if◌then◌else◌, ok, ◌>>=◌, >>=-eq-ok, get_or, arith, [], err,
  Error,
}
use bh_ticket_system.Hash.{split_mix64_hash}
use bh_ticket_system.Args.{Command, KeyAction, parse_args, arguments}
use bh_ticket_system.Engine.{Engine, Handler}
use bh_ticket_system.Users.{add_user, login_user, logout_user, query_profile, modify_profile}
use bh_ticket_system.Trains.{add_train, delete_train}
use bh_ticket_system.Trains.Release.{release_train}
use bh_ticket_system.Trains.Query.{query_train}
use bh_ticket_system.Tickets.{query_ticket}
use bh_ticket_system.Tickets.Buy.{buy_ticket}
use bh_ticket_system.Tickets.Refund.{refund_ticket}
use bh_ticket_system.Tickets.Orders.{query_order}
use bh_ticket_system.Tickets.Transfer.{query_transfer}
use bh_ticket_system.Execute.{clean, exit_engine, dispatch, execute}

-- The handler keeps the property of the engine, where it returns.
abbrev pub Keeps : (Engine → Type 0) → Handler → Type 0
Keeps P h = (s s' : Engine) (command : Command) (r : Bytes) → P s → h s command ≡ ok (s', r) → P s'

-- Reading the arguments changes nothing.
pub parse_args-Keeps :
    {A : Type 0} (P : Engine → Type 0) (keys : ℕ → KeyAction A) (start : A) (h : A → Handler)
    → ((a : A) → Keeps P (h a))
    → Keeps P (λ s command. parse_args keys start (arguments command) >>= λ a. h a s command)
parse_args-Keeps P keys start h kept s s' command r p e =
    let (a, _, done) = >>=-eq-ok (parse_args keys start (arguments command)) _ e in
    kept a s s' command r p done

-- All handlers keep it.
pub record KeptByAll (P : Engine → Type 0) : Type 0 where
  pub by_add_user : Keeps P add_user
  pub by_login : Keeps P login_user
  pub by_logout : Keeps P logout_user
  pub by_query_profile : Keeps P query_profile
  pub by_modify_profile : Keeps P modify_profile
  pub by_add_train : Keeps P add_train
  pub by_delete_train : Keeps P delete_train
  pub by_release_train : Keeps P release_train
  pub by_query_train : Keeps P query_train
  pub by_query_ticket : Keeps P query_ticket
  pub by_query_transfer : Keeps P query_transfer
  pub by_buy_ticket : Keeps P buy_ticket
  pub by_query_order : Keeps P query_order
  pub by_refund_ticket : Keeps P refund_ticket
  pub by_exit : Keeps P exit_engine

if-Keeps :
    (P : Engine → Type 0) (b : Bool) (h k : Handler)
    → Keeps P h
    → Keeps P k
    → Keeps P (λ s command. if b then h s command else k s command)
if-Keeps P true h k kh kk = kh
if-Keeps P false h k kh kk = kk

throws-Keeps : (P : Engine → Type 0) (thrown : Error) → Keeps P (λ s command. err thrown)
throws-Keeps P thrown s s' command r p e = absurd (ground arith)

pub dispatch-Keeps : (P : Engine → Type 0) (n : ℕ) → KeptByAll P → Keeps P (dispatch n)
unfolding dispatch clean
dispatch-Keeps P n kept = if-Keeps P _ _ _ kept.by_add_user (
    if-Keeps P _ _ _ kept.by_login (
      if-Keeps P _ _ _ kept.by_logout (
        if-Keeps P _ _ _ kept.by_query_profile (
          if-Keeps P _ _ _ kept.by_modify_profile (
            if-Keeps P _ _ _ kept.by_add_train (
              if-Keeps P _ _ _ kept.by_delete_train (
                if-Keeps P _ _ _ kept.by_release_train (
                  if-Keeps P _ _ _ kept.by_query_train (
                    if-Keeps P _ _ _ kept.by_query_ticket (
                      if-Keeps P _ _ _ kept.by_query_transfer (
                        if-Keeps P _ _ _ kept.by_buy_ticket (
                          if-Keeps P _ _ _ kept.by_query_order (
                            if-Keeps P _ _ _ kept.by_refund_ticket (
                              if-Keeps P _ _ _ (throws-Keeps P _)
                                (if-Keeps P _ _ _ kept.by_exit (throws-Keeps P _))))))))))))))))

-- The engine goes from one state to another by commands that it answers.
pub data Runs : Engine → Engine → Type 0 where
  stays : {s : Engine} → Runs s s
  answers :
      {s s' s'' : Engine} (command : Command) (r : Bytes)
      → Runs s s'
      → execute s' command ≡ ok (s'', r)
      → Runs s s''

pub Runs-Keeps : (P : Engine → Type 0) → KeptByAll P → {s s' : Engine} → Runs s s' → P s → P s'
unfolding execute
Runs-Keeps P kept stays p = p
Runs-Keeps P kept (answers {s' = t} command r before e) p =
    dispatch-Keeps P (split_mix64_hash (get_or command 1 [])) kept t _ command r
      (Runs-Keeps P kept before p) e
