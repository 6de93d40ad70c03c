-- ===== src/Execute/Users.antt =====
-- src/engine.cpp: what runs of commands keep of the accounts and of who is logged in.
use bh_ticket_system.Base.{
  ℕ, ◌⊎◌, codes, true, false, err, invalid_argument, ◌≡◌, ◌≤◌, sym, some, Bytes, ok, [], arith,
  hash_eq,
}
use mathlib.Core.Path.{subst₂}
use bh_ticket_system.Base.Map.{Map, get}
use bh_ticket_system.Data.{FullUserData}
use bh_ticket_system.Args.{Command, arguments}
use bh_ticket_system.Args.Keys.{known_keys}
use bh_ticket_system.Users.Keys.{query_profile-total}
use bh_ticket_system.Engine.{Engine, Handler}
use bh_ticket_system.Users.{
  ProfileArgs, LoginArgs, add_user, login_user, logout_user, query_profile, modify_profile,
  add_user_with, login_user_with, logout_user_with, query_profile_with, modify_profile_with,
}
use bh_ticket_system.Users.Outcomes.{query_profile_with-same}
use bh_ticket_system.Users.Registered.{
  OnlineRegistered, add_user_with-OnlineRegistered, login_user_with-OnlineRegistered,
  logout_user_with-OnlineRegistered, modify_profile_with-OnlineRegistered,
}
use bh_ticket_system.Users.Levels.{
  AtMostTen, add_user_with-AtMostTen, login_user_with-AtMostTen, logout_user_with-AtMostTen,
  modify_profile_with-AtMostTen,
}
use bh_ticket_system.Trains.{add_train, delete_train}
use bh_ticket_system.Trains.Release.{release_train}
use bh_ticket_system.Trains.Query.{query_train}
use bh_ticket_system.Tickets.{query_ticket}
use bh_ticket_system.Tickets.Buy.{buy_ticket}
use bh_ticket_system.Tickets.Refund.{refund_ticket}
use bh_ticket_system.Tickets.Orders.{query_order}
use bh_ticket_system.Tickets.Transfer.{query_transfer}
use bh_ticket_system.Execute.{exit_engine}
use bh_ticket_system.Execute.Runs.{Keeps, parse_args-Keeps, KeptByAll, Runs, Runs-Keeps}
use bh_ticket_system.Execute.Frames.{
  KeepsUsers, Reads-Keeps, query_train_with-Reads, query_ticket_with-Reads,
  query_transfer_with-Reads, query_order_with-Reads, add_train_with-KeepsUsers,
  delete_train_with-KeepsUsers, release_train_with-KeepsUsers, buy_ticket_with-KeepsUsers,
  refund_ticket_with-KeepsUsers,
}

-- A property of the engine that is one of the users.
abbrev OfUsers : (Map ℕ ℕ → Map ℕ FullUserData → Type 0) → Engine → Type 0
OfUsers Q s = Q s.online_users s.user_data

frame-Keeps :
    (Q : Map ℕ ℕ → Map ℕ FullUserData → Type 0) (h : Handler) → KeepsUsers h → Keeps (OfUsers Q) h
frame-Keeps Q h same s s' command r p e =
    let (online, accounts) = same s s' command r e in
    subst₂ (λ o a. Q o a) (sym online) (sym accounts) p

-- It is kept by all handlers if those of the users keep it.
pub users-KeptByAll :
    (Q : Map ℕ ℕ → Map ℕ FullUserData → Type 0)
    → ((a : ProfileArgs) → Keeps (OfUsers Q) (add_user_with a))
    → ((a : LoginArgs) → Keeps (OfUsers Q) (login_user_with a))
    → ((user_name : Bytes) → Keeps (OfUsers Q) (logout_user_with user_name))
    → ((a : ProfileArgs) → Keeps (OfUsers Q) (modify_profile_with a))
    → KeptByAll (OfUsers Q)
unfolding add_user login_user logout_user query_profile modify_profile add_train delete_train
    release_train query_train query_ticket query_transfer buy_ticket query_order refund_ticket
    exit_engine
users-KeptByAll Q add login logout modify = record {
  by_add_user = parse_args-Keeps (OfUsers Q) _ _ _ add;
  by_login = parse_args-Keeps (OfUsers Q) _ _ _ login;
  by_logout = parse_args-Keeps (OfUsers Q) _ _ _ logout;
  by_query_profile =
      parse_args-Keeps (OfUsers Q) _ _ _
        (λ a. Reads-Keeps (OfUsers Q) (query_profile_with a) (query_profile_with-same a));
  by_modify_profile = parse_args-Keeps (OfUsers Q) _ _ _ modify;
  by_add_train =
      parse_args-Keeps (OfUsers Q) _ _ _ (λ a. frame-Keeps Q _ (add_train_with-KeepsUsers a));
  by_delete_train =
      parse_args-Keeps (OfUsers Q) _ _ _ (λ a. frame-Keeps Q _ (delete_train_with-KeepsUsers a));
  by_release_train =
      parse_args-Keeps (OfUsers Q) _ _ _ (λ a. frame-Keeps Q _ (release_train_with-KeepsUsers a));
  by_query_train =
      parse_args-Keeps (OfUsers Q) _ _ _
        (λ a. Reads-Keeps (OfUsers Q) _ (query_train_with-Reads a));
  by_query_ticket =
      parse_args-Keeps (OfUsers Q) _ _ _
        (λ a. Reads-Keeps (OfUsers Q) _ (query_ticket_with-Reads a));
  by_query_transfer =
      parse_args-Keeps (OfUsers Q) _ _ _
        (λ a. Reads-Keeps (OfUsers Q) _ (query_transfer_with-Reads a));
  by_buy_ticket =
      parse_args-Keeps (OfUsers Q) _ _ _ (λ a. frame-Keeps Q _ (buy_ticket_with-KeepsUsers a));
  by_query_order =
      parse_args-Keeps (OfUsers Q) _ _ _
        (λ a. Reads-Keeps (OfUsers Q) _ (query_order_with-Reads a));
  by_refund_ticket =
      parse_args-Keeps (OfUsers Q) _ _ _ (λ a. frame-Keeps Q _ (refund_ticket_with-KeepsUsers a));
  by_exit = λ s s' command r p e.
      let online : s'.online_users ≡ s.online_users = ground arith in
      let accounts : s'.user_data ≡ s.user_data = ground arith in
      subst₂ (λ o a. Q o a) (sym online) (sym accounts) p;
}

-- In every state that commands lead to from one where nobody is logged in, whoever is logged in has
-- an account.
pub Runs-OnlineRegistered : {s s' : Engine} → Runs s s' → s.online_users ≡ [] → OnlineRegistered s'
unfolding get
Runs-OnlineRegistered {s} {s'} run fresh =
    let Q : Map ℕ ℕ → Map ℕ FullUserData → Type 0 = λ online accounts.
      (user level : ℕ)
      → get user online ≡ some level
      → (dat : FullUserData) × (get user accounts ≡ some dat) in
    let start : OnlineRegistered s = λ user level online. absurd (ground arith) in
    Runs-Keeps (OfUsers Q)
      (users-KeptByAll Q add_user_with-OnlineRegistered login_user_with-OnlineRegistered
        logout_user_with-OnlineRegistered modify_profile_with-OnlineRegistered)
      run start

-- In every state that commands lead to from one where nobody is logged in, `QueryProfile` answers and
-- changes nothing when each key of the command is -c or -u, although it reads the own account outside of
-- its `try`; it throws `invalid_argument` for another key, and nothing else.
pub Runs-query_profile :
    {s s' : Engine} (command : Command)
    → Runs s s'
    → s.online_users ≡ []
    → ((known_keys (codes "cu") (arguments command) ≡ true)
        × (r : Bytes) × (query_profile s' command ≡ ok (s', r)))
      ⊎ ((known_keys (codes "cu") (arguments command) ≡ false)
          × (query_profile s' command ≡ err invalid_argument))
Runs-query_profile {s' = s'} command run fresh =
    query_profile-total s' command (Runs-OnlineRegistered run fresh)

-- In every state that commands lead to from one without accounts and users, no account has a level
-- above 10, the level of the first user, and nobody is logged in with one.
pub Runs-AtMostTen :
    {s s' : Engine} → Runs s s' → s.online_users ≡ [] → s.user_data ≡ [] → AtMostTen s'
unfolding get
Runs-AtMostTen {s} {s'} run nobody nothing =
    let Q : Map ℕ ℕ → Map ℕ FullUserData → Type 0 = λ online accounts.
      ((user level : ℕ) → get user online ≡ some level → level ≤ 10)
      × ((user : ℕ) (dat : FullUserData) → get user accounts ≡ some dat → dat.privilege ≤ 10) in
    let start : AtMostTen s =
      (λ user level online. absurd (ground arith), λ user dat known. absurd (ground arith)) in
    Runs-Keeps (OfUsers Q)
      (users-KeptByAll Q add_user_with-AtMostTen login_user_with-AtMostTen
        logout_user_with-AtMostTen modify_profile_with-AtMostTen)
      run start
