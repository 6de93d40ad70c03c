-- ===== src/Users/Registered.antt =====
-- src/user_system.cpp: whoever is logged in has an account, so that the handlers that look at an
-- account do not throw; and no level is above that of the first user.
use bh_ticket_system.Base.{
  ℕ, ◌≡◌, inl, inr, Option, none, some, Bytes, ◌==◌, hash_eq, ok, arith, Option-cases, Bool-cases,
  sym, leb, Result-cases,
}
use mathlib.Core.Path.{subst}
use bh_ticket_system.Base.Map.{Map, get, put, get-put, get-erase}
use bh_ticket_system.Hash.{split_mix64_hash}
use bh_ticket_system.Data.{FullUserData}
use bh_ticket_system.Args.{Command}
use bh_ticket_system.Engine.{Engine}
use bh_ticket_system.Users.{
  ProfileArgs, LoginArgs, QueryProfileArgs, add_user_with, login_user_with, logout_user_with,
  query_profile_with, modify_profile_with, visible_profile, store_user,
}
use bh_ticket_system.Users.Outcomes.{
  add_user_with-cases, login_user_with-cases, logout_user_with-cases, modify_profile_with-cases,
  query_profile_with-same,
}

abbrev pub Registered : ℕ → Map ℕ FullUserData → Type 0
Registered user accounts = (dat : FullUserData) × (get user accounts ≡ some dat)

-- Whoever is logged in has an account.
abbrev pub OnlineRegistered : Engine → Type 0
OnlineRegistered s =
    (user level : ℕ) → get user s.online_users ≡ some level → Registered user s.user_data

put-Registered :
    (user u : ℕ) (dat : FullUserData) (m : Map ℕ FullUserData)
    → Registered u m
    → Registered u (put user dat m)
put-Registered user u dat m (old, found) = elim (Bool-cases (user == u)) [
  | inl hit ↦ (dat, ground (arith, get-put user u dat m))
  | inr miss ↦ (old, ground (arith, get-put user u dat m))
]

pub add_user_with-OnlineRegistered :
    (a : ProfileArgs) (s s' : Engine) (command : Command) (r : Bytes)
    → OnlineRegistered s
    → add_user_with a s command ≡ ok (s', r)
    → OnlineRegistered s'
unfolding store_user
add_user_with-OnlineRegistered a s s' command r reg e =
    elim (add_user_with-cases a s s' command r e) [
      | inl same ↦ subst OnlineRegistered (sym same) reg
      | inr (privilege, _, same) ↦
          subst OnlineRegistered (sym same)
            (λ u level online. put-Registered _ u _ s.user_data (reg u level online))
    ]

pub login_user_with-OnlineRegistered :
    (a : LoginArgs) (s s' : Engine) (command : Command) (r : Bytes)
    → OnlineRegistered s
    → login_user_with a s command ≡ ok (s', r)
    → OnlineRegistered s'
login_user_with-OnlineRegistered a s s' command r reg e =
    elim (login_user_with-cases a s s' command r e) [
      | inl same ↦ subst OnlineRegistered (sym same) reg
      | inr (dat, (_, known, _), same) ↦
          let user = split_mix64_hash a.user_name in
          subst OnlineRegistered (sym same) (λ u level online. elim (Bool-cases (user == u)) [
            | inl hit ↦ (dat, ground arith)
            | inr miss ↦ reg u level (ground (arith, get-put user u dat.privilege s.online_users))
          ])
    ]

pub logout_user_with-OnlineRegistered :
    (user_name : Bytes) (s s' : Engine) (command : Command) (r : Bytes)
    → OnlineRegistered s
    → logout_user_with user_name s command ≡ ok (s', r)
    → OnlineRegistered s'
logout_user_with-OnlineRegistered user_name s s' command r reg e =
    elim (logout_user_with-cases user_name s s' command r e) [
      | inl same ↦ subst OnlineRegistered (sym same) reg
      | inr same ↦
          let user = split_mix64_hash user_name in
          subst OnlineRegistered (sym same)
            (λ u level online. reg u level (ground (arith, get-erase user u s.online_users)))
    ]

pub modify_profile_with-OnlineRegistered :
    (a : ProfileArgs) (s s' : Engine) (command : Command) (r : Bytes)
    → OnlineRegistered s
    → modify_profile_with a s command ≡ ok (s', r)
    → OnlineRegistered s'
modify_profile_with-OnlineRegistered a s s' command r reg e =
    elim (modify_profile_with-cases a s s' command r e) [
      | inl same ↦ subst OnlineRegistered (sym same) reg
      | inr (dat, _, same) ↦
          subst OnlineRegistered (sym same)
            (λ u level online. put-Registered _ u _ s.user_data (reg u level online))
    ]

visible_profile-ok :
    (level cur user : ℕ) (s : Engine)
    → Registered cur s.user_data
    → (found : Option FullUserData) × (visible_profile level cur user s ≡ ok found)
unfolding visible_profile
visible_profile-ok level cur user s (own, known) = elim (Bool-cases (cur == user)) [
  | inl same ↦ (some own, ground arith)
  | inr other ↦ elim (Option-cases (get user s.user_data)) [
    | inl unknown ↦ (none, ground arith)
    | inr (dat, known') ↦ elim (Bool-cases (leb level dat.privilege)) [
      | inl high ↦ (none, ground arith)
      | inr low ↦ (some dat, ground arith)
    ]
  ]
]

-- Where everyone who is logged in has an account, `QueryProfile` throws nothing, and leaves the
-- engine as it is.
pub query_profile_with-total :
    (a : QueryProfileArgs) (s : Engine) (command : Command)
    → OnlineRegistered s
    → (r : Bytes) × (query_profile_with a s command ≡ ok (s, r))
unfolding query_profile_with
query_profile_with-total a s command reg = elim (Result-cases (query_profile_with a s command)) [
  | inl ((s', r), e) ↦ (
    r,
    subst (λ t. query_profile_with a s command ≡ ok (t, r))
        (query_profile_with-same a s s' command r e) e,
  )
  | inr (error, thrown) ↦
      let cur = split_mix64_hash a.current_user_name in
      elim (Option-cases (get cur s.online_users)) [
        | inl offline ↦ absurd (ground arith)
        | inr (level, online) ↦
            let (found, shown) =
              visible_profile-ok level cur (split_mix64_hash a.user_name) s
                (reg cur level online) in
            absurd (ground arith)
      ]
]

-- Nor does `ModifyProfile` throw there.
pub modify_profile_with-total :
    (a : ProfileArgs) (s : Engine) (command : Command)
    → OnlineRegistered s
    → (s' : Engine) × (r : Bytes) × (modify_profile_with a s command ≡ ok (s', r))
unfolding modify_profile_with
modify_profile_with-total a s command reg = elim (Result-cases (modify_profile_with a s command)) [
  | inl ((s', r), e) ↦ (s', r, e)
  | inr (error, thrown) ↦
      let cur = split_mix64_hash a.cur_username in
      elim (Option-cases (get cur s.online_users)) [
        | inl offline ↦ absurd (ground arith)
        | inr (level, online) ↦
            let (found, shown) =
              visible_profile-ok level cur (split_mix64_hash a.username) s (reg cur level online) in
            absurd (ground arith)
      ]
]
