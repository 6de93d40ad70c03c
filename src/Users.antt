-- ===== src/Users.antt =====
-- src/user_system.cpp: accounts, and who is logged in.
pub mod Outcomes
pub mod Registered
pub mod Examples
pub mod Sessions
pub mod Levels
pub mod Keys
use bh_ticket_system.Base.{
  ℕ, ◌%◌, ◌^◌, ◌&&◌, Option, none, some, [], ◌++◌, Bytes, codes, leb, ◌==◌, ◌!=◌, if◌then◌else◌,
  Result, ok, err, invalid_argument, runtime_error, ◌>>=◌, decimal, scan_int, hash_eq,
}
use bh_ticket_system.Base.Map.{get, put, erase, is_empty}
use bh_ticket_system.Hash.{split_mix64_hash}
use bh_ticket_system.Data.{FullUserData}
use bh_ticket_system.Transactions.{prepare_user_info}
use bh_ticket_system.Args.{KeyAction, reads, throws, parse_args, arguments}
use bh_ticket_system.Engine.{Engine, Handler, answer, refuse, accept}

-- The local variables of `AddUser` and of `ModifyProfile` that the command sets.
pub record ProfileArgs : Type 0 where
  pub cur_username : Bytes
  pub username : Bytes
  pub password : Bytes
  pub name : Bytes
  pub mail_addr : Bytes
  pub privilege : ℕ

-- The `switch` of both: `-g` is read as an `int`, and kept in a `uint8_t`.
unfoldable pub profile_keys : ℕ → KeyAction ProfileArgs
profile_keys c =
    if c == b'c'
    then reads (λ v a. record a { cur_username = v })
    else if c == b'u'
    then reads (λ v a. record a { username = v })
    else if c == b'p'
    then reads (λ v a. record a { password = v })
    else if c == b'n'
    then reads (λ v a. record a { name = v })
    else if c == b'm'
    then reads (λ v a. record a { mail_addr = v })
    else if c == b'g'
    then reads (λ v a. record a { privilege = scan_int v % 2 ^ 8 })
    else throws invalid_argument

abbrev pub no_profile_args : ℕ → ProfileArgs
no_profile_args privilege = record {
  cur_username = [];
  username = [];
  password = [];
  name = [];
  mail_addr = [];
  privilege = privilege;
}

-- The record that `AddUser` stores, and the two places that learn of the user.
pub store_user : ProfileArgs → ℕ → Engine → Engine
store_user a privilege s =
    let user = split_mix64_hash a.username in
    let dat : FullUserData = record {
      username = a.username;
      password_hash = split_mix64_hash a.password;
      name = a.name;
      mail_addr = a.mail_addr;
      privilege = privilege;
    } in
    record s {
      user_data = put user dat s.user_data;
      transaction_manager = prepare_user_info user s.transaction_manager;
    }

-- `AddUser`, once the arguments are read. The first user needs no permission, and gets the level 10.
unfoldable pub add_user_with : ProfileArgs → Handler
unfolding store_user
add_user_with a s command =
    if is_empty s.user_data
    then accept (store_user a 10 s) command
    else elim (get (split_mix64_hash a.cur_username) s.online_users) [
      | none ↦ refuse s command
      | some level ↦
          if leb level a.privilege
          then refuse s command
          else elim (get (split_mix64_hash a.username) s.user_data) [
            | none ↦ accept (store_user a a.privilege s) command
            | some _ ↦ refuse s command
          ]
    ]

-- `privilege` is not initialised.
unfoldable pub add_user : Handler
unfolding add_user_with profile_keys
add_user s command = parse_args profile_keys (no_profile_args 0) (arguments command) >>= λ a.
    add_user_with a s command

pub record LoginArgs : Type 0 where
  pub user_name : Bytes
  pub password : Bytes

unfoldable pub login_keys : ℕ → KeyAction LoginArgs
login_keys c =
    if c == b'u'
    then reads (λ v a. record a { user_name = v })
    else if c == b'p'
    then reads (λ v a. record a { password = v })
    else throws invalid_argument

unfoldable pub login_user_with : LoginArgs → Handler
login_user_with a s command =
    let user = split_mix64_hash a.user_name in
    elim (get user s.online_users) [
      | some _ ↦ refuse s command
      | none ↦ elim (get user s.user_data) [
        | none ↦ refuse s command
        | some dat ↦
            if dat.password_hash != split_mix64_hash a.password
            then refuse s command
            else accept (record s { online_users = put user dat.privilege s.online_users }) command
      ]
    ]

unfoldable pub login_user : Handler
unfolding login_user_with login_keys
login_user s command =
    parse_args login_keys (record { user_name = []; password = [] }) (arguments command) >>= λ a.
    login_user_with a s command

unfoldable pub logout_keys : ℕ → KeyAction Bytes
logout_keys c = if c == b'u' then reads (λ v a. v) else throws invalid_argument

unfoldable pub logout_user_with : Bytes → Handler
logout_user_with user_name s command =
    let user = split_mix64_hash user_name in
    elim (get user s.online_users) [
      | none ↦ refuse s command
      | some _ ↦ accept (record s { online_users = erase user s.online_users }) command
    ]

unfoldable pub logout_user : Handler
unfolding logout_user_with logout_keys
logout_user s command = parse_args logout_keys [] (arguments command) >>= λ user_name.
    logout_user_with user_name s command

pub record QueryProfileArgs : Type 0 where
  pub current_user_name : Bytes
  pub user_name : Bytes

unfoldable pub query_profile_keys : ℕ → KeyAction QueryProfileArgs
query_profile_keys c =
    if c == b'c'
    then reads (λ v a. record a { current_user_name = v })
    else if c == b'u'
    then reads (λ v a. record a { user_name = v })
    else throws invalid_argument

-- `username name mailAddr privilege`
unfoldable pub profile_line : FullUserData → Bytes
unfolding decimal
profile_line dat =
    dat.username
    ++ codes " "
    ++ dat.name
    ++ codes " "
    ++ dat.mail_addr
    ++ codes " "
    ++ decimal dat.privilege

-- The middle part of `QueryProfile` and of `ModifyProfile`: the record of `user`, if one of the
-- level `level` who is logged in as `cur` may see it. `Get` of the own record is not in a `try`.
unfoldable pub visible_profile : ℕ → ℕ → ℕ → Engine → Result (Option FullUserData)
visible_profile level cur user s =
    if cur != user
    then elim (get user s.user_data) [
      | none ↦ ok none
      | some dat ↦ if leb level dat.privilege then ok none else ok (some dat)
    ]
    else elim (get user s.user_data) [ none ↦ err runtime_error | some dat ↦ ok (some dat) ]

unfoldable pub query_profile_with : QueryProfileArgs → Handler
unfolding visible_profile profile_line
query_profile_with a s command =
    let cur = split_mix64_hash a.current_user_name in
    elim (get cur s.online_users) [
      | none ↦ refuse s command
      | some level ↦ visible_profile level cur (split_mix64_hash a.user_name) s >>= λ found.
          elim found [ none ↦ refuse s command | some dat ↦ answer s command (profile_line dat) ]
    ]

unfoldable pub query_profile : Handler
unfolding query_profile_with query_profile_keys
query_profile s command =
    parse_args query_profile_keys (record { current_user_name = []; user_name = [] })
      (arguments command)
    >>= λ a. query_profile_with a s command

-- `if (x != "") …`
abbrev unless_empty {ℓ} : {A : Type ℓ} → Bytes → A → A → A
unless_empty text given old = if is_empty text then old else given

-- 11 stands for a level that the command does not give.
abbrev pub no_privilege : ℕ
no_privilege = 11

unfoldable pub modified_profile : ProfileArgs → FullUserData → FullUserData
modified_profile a dat = record {
  username = dat.username;
  password_hash = unless_empty a.password (split_mix64_hash a.password) dat.password_hash;
  name = unless_empty a.name a.name dat.name;
  mail_addr = unless_empty a.mail_addr a.mail_addr dat.mail_addr;
  privilege = if a.privilege != no_privilege then a.privilege else dat.privilege;
}

unfoldable pub modify_profile_with : ProfileArgs → Handler
unfolding visible_profile profile_line modified_profile
modify_profile_with a s command =
    let cur = split_mix64_hash a.cur_username in
    let user = split_mix64_hash a.username in
    elim (get cur s.online_users) [
      | none ↦ refuse s command
      | some level ↦ visible_profile level cur user s >>= λ found. elim found [
        | none ↦ refuse s command
        | some dat ↦
            let new_dat = modified_profile a dat in
            if a.privilege != no_privilege && leb level a.privilege
            then refuse s command
            else answer (record s { user_data = put user new_dat s.user_data }) command
                (profile_line new_dat)
      ]
    ]

unfoldable pub modify_profile : Handler
unfolding modify_profile_with profile_keys
modify_profile s command =
    parse_args profile_keys (no_profile_args no_privilege) (arguments command) >>= λ a.
    modify_profile_with a s command
