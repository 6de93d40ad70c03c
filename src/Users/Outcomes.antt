-- ===== src/Users/Outcomes.antt =====
-- src/user_system.cpp: the states in which the handlers of the users may leave the engine.
use bh_ticket_system.Base.{
  ℕ, ◌≡◌, ◌<◌, refl, ◌⊎◌, inl, inr, true, none, some, Bytes, ◌!=◌, leb, hash_eq, ok, arith,
  Option-cases, Bool-cases, ◌&&◌, Result-cases,
}
use bh_ticket_system.Base.Map.{get, put, erase, is_empty}
use bh_ticket_system.Hash.{split_mix64_hash}
use bh_ticket_system.Data.{FullUserData}
use bh_ticket_system.Args.{Command}
use bh_ticket_system.Engine.{Engine}
use bh_ticket_system.Users.{
  ProfileArgs, LoginArgs, QueryProfileArgs, add_user_with, login_user_with, logout_user_with,
  query_profile_with, modify_profile_with, visible_profile, store_user, modified_profile,
  no_privilege,
}

-- An account is stored: the first one, or one that a user who is logged in may create.
abbrev pub Creates : ProfileArgs → Engine → ℕ → Type 0
Creates a s privilege =
    ((is_empty s.user_data ≡ true) × (privilege ≡ 10))
    ⊎ ((level : ℕ) × (get (split_mix64_hash a.cur_username) s.online_users ≡ some level)
        × (privilege ≡ a.privilege)
        × (privilege < level)
        × (get (split_mix64_hash a.username) s.user_data ≡ none))

pub add_user_with-cases :
    (a : ProfileArgs) (s s' : Engine) (command : Command) (r : Bytes)
    → add_user_with a s command ≡ ok (s', r)
    → (s' ≡ s) ⊎ ((privilege : ℕ) × Creates a s privilege × (s' ≡ store_user a privilege s))
unfolding add_user_with
add_user_with-cases a s s' command r e = elim (Bool-cases (is_empty s.user_data)) [
  | inl first ↦ inr (10, inl (first, refl), ground arith)
  | inr later ↦ elim (Option-cases (get (split_mix64_hash a.cur_username) s.online_users)) [
    | inl offline ↦ inl (ground arith)
    | inr (level, online) ↦ elim (Bool-cases (leb level a.privilege)) [
      | inl low ↦ inl (ground arith)
      | inr high ↦ elim (Option-cases (get (split_mix64_hash a.username) s.user_data)) [
        | inl new ↦ inr (a.privilege, inr (level, online, refl, ground arith, new), ground arith)
        | inr (dat, known) ↦ inl (ground arith)
      ]
    ]
  ]
]

-- A user logs in with the level of the account.
abbrev pub LogsIn : LoginArgs → Engine → FullUserData → Type 0
LogsIn a s dat =
    (get (split_mix64_hash a.user_name) s.online_users ≡ none)
    × (get (split_mix64_hash a.user_name) s.user_data ≡ some dat)
    × (dat.password_hash ≡ split_mix64_hash a.password)

pub login_user_with-cases :
    (a : LoginArgs) (s s' : Engine) (command : Command) (r : Bytes)
    → login_user_with a s command ≡ ok (s', r)
    → (s' ≡ s)
      ⊎ ((dat : FullUserData) × LogsIn a s dat
          × (s' ≡ record s {
            online_users = put (split_mix64_hash a.user_name) dat.privilege s.online_users;
          }))
unfolding login_user_with
login_user_with-cases a s s' command r e =
    elim (Option-cases (get (split_mix64_hash a.user_name) s.online_users)) [
      | inr (level, online) ↦ inl (ground arith)
      | inl offline ↦ elim (Option-cases (get (split_mix64_hash a.user_name) s.user_data)) [
        | inl unknown ↦ inl (ground arith)
        | inr (dat, known) ↦ elim (Bool-cases (dat.password_hash != split_mix64_hash a.password)) [
          | inl wrong ↦ inl (ground arith)
          | inr right ↦ inr (dat, (offline, known, ground arith), ground arith)
        ]
      ]
    ]

pub logout_user_with-cases :
    (user_name : Bytes) (s s' : Engine) (command : Command) (r : Bytes)
    → logout_user_with user_name s command ≡ ok (s', r)
    → (s' ≡ s)
      ⊎ (s' ≡ record s { online_users = erase (split_mix64_hash user_name) s.online_users })
unfolding logout_user_with
logout_user_with-cases user_name s s' command r e =
    elim (Option-cases (get (split_mix64_hash user_name) s.online_users)) [
      | inl offline ↦ inl (ground arith)
      | inr (level, online) ↦ inr (ground arith)
    ]

-- What one of level `level` who is logged in as `cur` may see: the own account, and those of a lower
-- level.
abbrev pub Sees : ℕ → ℕ → ℕ → FullUserData → Engine → Type 0
Sees level cur user dat s =
    (get user s.user_data ≡ some dat) × ((cur ≡ user) ⊎ (dat.privilege < level))

pub visible_profile-Sees :
    (level cur user : ℕ) (dat : FullUserData) (s : Engine)
    → visible_profile level cur user s ≡ ok (some dat)
    → Sees level cur user dat s
unfolding visible_profile
visible_profile-Sees level cur user dat s e = elim (Option-cases (get user s.user_data)) [
  | inl unknown ↦ absurd (ground arith)
  | inr (dat', known) ↦ elim (Bool-cases (cur != user)) [
    | inl other ↦ elim (Bool-cases (leb level dat'.privilege)) [
      | inl high ↦ absurd (ground arith)
      | inr low ↦ (ground arith, inr (ground arith))
    ]
    | inr own ↦ (ground arith, inl (ground arith))
  ]
]

pub query_profile_with-same :
    (a : QueryProfileArgs) (s s' : Engine) (command : Command) (r : Bytes)
    → query_profile_with a s command ≡ ok (s', r)
    → s' ≡ s
unfolding query_profile_with
query_profile_with-same a s s' command r e = ground arith

-- An account is modified by one who may see it and gives it a lower level than the own one.
abbrev pub Modifies : ProfileArgs → Engine → FullUserData → Type 0
Modifies a s dat =
    (level : ℕ) × (get (split_mix64_hash a.cur_username) s.online_users ≡ some level)
    × Sees level (split_mix64_hash a.cur_username) (split_mix64_hash a.username) dat s
    × ((a.privilege ≡ no_privilege) ⊎ (a.privilege < level))

pub modify_profile_with-cases :
    (a : ProfileArgs) (s s' : Engine) (command : Command) (r : Bytes)
    → modify_profile_with a s command ≡ ok (s', r)
    → (s' ≡ s)
      ⊎ ((dat : FullUserData) × Modifies a s dat
          × (s' ≡ record s {
            user_data = put (split_mix64_hash a.username) (modified_profile a dat) s.user_data;
          }))
unfolding modify_profile_with
modify_profile_with-cases a s s' command r e =
    let cur = split_mix64_hash a.cur_username in
    let user = split_mix64_hash a.username in
    elim (Option-cases (get cur s.online_users)) [
      | inl offline ↦ inl (ground arith)
      | inr (level, online) ↦ elim (Result-cases (visible_profile level cur user s)) [
        | inr (_, failed) ↦ absurd (ground arith)
        | inl (none, hidden) ↦ inl (ground arith)
        | inl (some dat, shown) ↦
            elim (Bool-cases (a.privilege != no_privilege && leb level a.privilege)) [
              | inl low ↦ inl (ground arith)
              | inr high ↦ inr (
                dat,
                (level, online, visible_profile-Sees level cur user dat s shown, ground arith),
                ground arith,
              )
            ]
      ]
    ]
