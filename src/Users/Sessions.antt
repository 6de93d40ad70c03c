-- ===== src/Users/Sessions.antt =====
-- src/user_system.cpp: logging in and out.
use bh_ticket_system.Base.{ℕ, ◌≡◌, some, hash_eq, arith, ==_iff, ==_self}
use bh_ticket_system.Base.Map.{get, put, erase, get-put, get-erase, get-put_self}
use bh_ticket_system.Hash.{split_mix64_hash}
use bh_ticket_system.Data.{FullUserData}
use bh_ticket_system.Args.{Command}
use bh_ticket_system.Engine.{Engine, refuse, accept}
use bh_ticket_system.Users.{LoginArgs, login_user_with, logout_user_with}
use bh_ticket_system.Users.Outcomes.{LogsIn}

-- One who is not logged in and gives the right password is logged in, with the level of the account.
-- Logging in again is refused. Logging out is accepted, and afterwards the same users are logged in
-- as before, with the same levels; logging out again is refused.
pub logout_user_with-login_user_with :
    (a : LoginArgs) (s : Engine) (dat : FullUserData) (command : Command)
    → LogsIn a s dat
    → (s' s'' : Engine) × (login_user_with a s command ≡ accept s' command)
      × (get (split_mix64_hash a.user_name) s'.online_users ≡ some dat.privilege)
      × (login_user_with a s' command ≡ refuse s' command)
      × (logout_user_with a.user_name s' command ≡ accept s'' command)
      × ((u : ℕ) → get u s''.online_users ≡ get u s.online_users)
      × (logout_user_with a.user_name s'' command ≡ refuse s'' command)
unfolding login_user_with logout_user_with
logout_user_with-login_user_with a s dat command (offline, known, right) =
    let user = split_mix64_hash a.user_name in
    let logged_in : Engine = record s { online_users = put user dat.privilege s.online_users } in
    let logged_out : Engine = record logged_in {
      online_users = erase user logged_in.online_users;
    } in
    let there = get-put_self user dat.privilege s.online_users in
    let gone = get-erase user user (put user dat.privilege s.online_users) in
    let self = ==_self user in
    (
      logged_in,
      logged_out,
      ground arith,
      there,
      ground arith,
      ground arith,
      λ u.
          (let erased = get-erase user u (put user dat.privilege s.online_users) in
            let stored = get-put user u dat.privilege s.online_users in
            ground (arith, ==_iff user u)),
      ground arith,
    )
