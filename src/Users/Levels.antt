-- ===== src/Users/Levels.antt =====
-- src/user_system.cpp: nobody comes to a level above that of the first user, and no one gives a
-- level as high as the own one.
use bh_ticket_system.Base.{
  ℕ, ◌≡◌, ◌≤◌, ◌<◌, refl, ◌⊎◌, inl, inr, true, none, some, List, Bytes, ◌==◌, if◌then◌else◌,
  hash_eq, ok, arith, ap, ◌∙◌, ==_iff, Bool-cases, sym, [], ◌∷◌,
}
use mathlib.Core.Path.{subst}
use bh_ticket_system.Base.Map.{Map, get, put, get-put, get-erase, is_empty}
use bh_ticket_system.Hash.{split_mix64_hash}
use bh_ticket_system.Data.{FullUserData}
use bh_ticket_system.Args.{Command}
use bh_ticket_system.Engine.{Engine}
use bh_ticket_system.Users.{
  ProfileArgs, LoginArgs, add_user_with, login_user_with, logout_user_with, modify_profile_with,
  store_user, modified_profile,
}
use bh_ticket_system.Users.Outcomes.{
  add_user_with-cases, login_user_with-cases, logout_user_with-cases, modify_profile_with-cases,
}

-- No account, and nobody who is logged in, has a level above 10.
abbrev pub AtMostTen : Engine → Type 0
AtMostTen s =
    ((user level : ℕ) → get user s.online_users ≡ some level → level ≤ 10)
    × ((user : ℕ) (dat : FullUserData) → get user s.user_data ≡ some dat → dat.privilege ≤ 10)

put-at_most :
    (user u : ℕ) (dat found : FullUserData) (m : Map ℕ FullUserData)
    → ((v : ℕ) (d : FullUserData) → get v m ≡ some d → d.privilege ≤ 10)
    → dat.privilege ≤ 10
    → get u (put user dat m) ≡ some found
    → found.privilege ≤ 10
put-at_most user u dat found m all low e = ground (arith, all u found, get-put user u dat m)

pub add_user_with-AtMostTen :
    (a : ProfileArgs) (s s' : Engine) (command : Command) (r : Bytes)
    → AtMostTen s
    → add_user_with a s command ≡ ok (s', r)
    → AtMostTen s'
unfolding store_user
add_user_with-AtMostTen a s s' command r (online, accounts) e =
    elim (add_user_with-cases a s s' command r e) [
      | inl same ↦ subst AtMostTen (sym same) (online, accounts)
      | inr (privilege, creates, same) ↦
          let low : privilege ≤ 10 = elim creates [
            | inl (_, ten) ↦ omega arith
            | inr (level, found, given, less, _) ↦ (let top = online _ level found in omega arith)
          ] in
          subst AtMostTen (sym same)
            (online, λ u d found. put-at_most _ u _ d s.user_data accounts low found)
    ]

pub login_user_with-AtMostTen :
    (a : LoginArgs) (s s' : Engine) (command : Command) (r : Bytes)
    → AtMostTen s
    → login_user_with a s command ≡ ok (s', r)
    → AtMostTen s'
login_user_with-AtMostTen a s s' command r (online, accounts) e =
    elim (login_user_with-cases a s s' command r e) [
      | inl same ↦ subst AtMostTen (sym same) (online, accounts)
      | inr (dat, (_, known, _), same) ↦
          let user = split_mix64_hash a.user_name in
          let low = accounts user dat known in
          subst AtMostTen (sym same) (
            λ u level found.
                ground (arith, online u level, get-put user u dat.privilege s.online_users),
            accounts,
          )
    ]

pub logout_user_with-AtMostTen :
    (user_name : Bytes) (s s' : Engine) (command : Command) (r : Bytes)
    → AtMostTen s
    → logout_user_with user_name s command ≡ ok (s', r)
    → AtMostTen s'
logout_user_with-AtMostTen user_name s s' command r (online, accounts) e =
    elim (logout_user_with-cases user_name s s' command r e) [
      | inl same ↦ subst AtMostTen (sym same) (online, accounts)
      | inr same ↦
          let user = split_mix64_hash user_name in
          subst AtMostTen (sym same) (
            λ u level found. ground (arith, online u level, get-erase user u s.online_users),
            accounts,
          )
    ]

pub modify_profile_with-AtMostTen :
    (a : ProfileArgs) (s s' : Engine) (command : Command) (r : Bytes)
    → AtMostTen s
    → modify_profile_with a s command ≡ ok (s', r)
    → AtMostTen s'
unfolding modified_profile
modify_profile_with-AtMostTen a s s' command r (online, accounts) e =
    elim (modify_profile_with-cases a s s' command r e) [
      | inl same ↦ subst AtMostTen (sym same) (online, accounts)
      | inr (dat, (level, logged_in, (known, _), given), same) ↦
          let top = online _ level logged_in in
          let old = accounts _ dat known in
          let low : (modified_profile a dat).privilege ≤ 10 = ground arith in
          subst AtMostTen (sym same)
            (online, λ u d found. put-at_most _ u _ d s.user_data accounts low found)
    ]

is_empty_lem : {A : Type 0} (xs : List A) → is_empty xs ≡ true → xs ≡ []
is_empty_lem [] e = refl
is_empty_lem (x ∷ xs) e = cc

abbrev pub new_account : ProfileArgs → ℕ → FullUserData
new_account a privilege = record {
  username = a.username;
  password_hash = split_mix64_hash a.password;
  name = a.name;
  mail_addr = a.mail_addr;
  privilege = privilege;
}

-- Who creates an account, at which level: the first one has the level 10, and any other one a level
-- below that of the user who asks.
abbrev pub FitLevel : ProfileArgs → Engine → ℕ → Type 0
FitLevel a s privilege =
    ((s.user_data ≡ []) × (privilege ≡ 10))
    ⊎ ((level : ℕ) × (get (split_mix64_hash a.cur_username) s.online_users ≡ some level)
        × (privilege ≡ a.privilege)
        × (privilege < level))

-- `AddUser` leaves every account as it is, and adds none but that of the user it names, who had none:
-- with the data of the command and the level 10, if it is the first account of all, or else the level
-- of the command, which is below that of the user who asks. It logs nobody in or out.
pub add_user_with-effect :
    (a : ProfileArgs) (s s' : Engine) (command : Command) (r : Bytes)
    → add_user_with a s command ≡ ok (s', r)
    → (s'.online_users ≡ s.online_users)
      × ((u : ℕ)
          → (get u s'.user_data ≡ get u s.user_data)
            ⊎ ((u ≡ split_mix64_hash a.username)
                × (get u s.user_data ≡ none)
                × (privilege : ℕ) × (get u s'.user_data ≡ some (new_account a privilege))
                × FitLevel a s privilege))
unfolding store_user get
add_user_with-effect a s s' command r e =
    let user = split_mix64_hash a.username in
    elim (add_user_with-cases a s s' command r e) [
      | inl same ↦ (ground arith, λ u. inl (ap (λ (x : Engine). get u x.user_data) same))
      | inr (privilege, creates, same) ↦ (
        ap (λ (x : Engine). x.online_users) same,
        λ u.
            let stored : get u s'.user_data
                ≡ (if user == u then some (new_account a privilege) else get u s.user_data) =
              ap (λ (x : Engine). get u x.user_data) same
              ∙ get-put user u (new_account a privilege) s.user_data in
            elim (Bool-cases (user == u)) [
              | inr miss ↦ inl (ground arith)
              | inl hit ↦
                  let is_u : user ≡ u = (==_iff user u).0 hit in
                  elim creates [
                    | inl (first, ten) ↦
                        let none_yet = is_empty_lem s.user_data first in
                        inr (
                          sym is_u,
                          ap (λ (m : Map ℕ FullUserData). get u m) none_yet,
                          privilege,
                          ground arith,
                          inl (none_yet, ten),
                        )
                    | inr (level, online, given, less, new) ↦ inr (
                      sym is_u,
                      ap (λ (i : ℕ). get i s.user_data) (sym is_u) ∙ new,
                      privilege,
                      ground arith,
                      inr (level, online, given, less),
                    )
                  ]
            ],
      )
    ]

-- `ModifyProfile` leaves every account as it is but that which it names. There it keeps the user's
-- name, and gives no level as high as that of the user who asks. It logs nobody in or out, so that one
-- who is logged in keeps the level of the last login.
pub modify_profile_with-effect :
    (a : ProfileArgs) (s s' : Engine) (command : Command) (r : Bytes)
    → modify_profile_with a s command ≡ ok (s', r)
    → (s'.online_users ≡ s.online_users)
      × ((u : ℕ)
          → (get u s'.user_data ≡ get u s.user_data)
            ⊎ ((u ≡ split_mix64_hash a.username)
                × (dat : FullUserData) × (dat' : FullUserData) × (get u s.user_data ≡ some dat)
                × (get u s'.user_data ≡ some dat')
                × (dat'.username ≡ dat.username)
                × (level : ℕ) × (get (split_mix64_hash a.cur_username) s.online_users ≡ some level)
                × ((dat'.privilege ≡ dat.privilege) ⊎ (dat'.privilege < level))))
unfolding modified_profile
modify_profile_with-effect a s s' command r e =
    let user = split_mix64_hash a.username in
    elim (modify_profile_with-cases a s s' command r e) [
      | inl same ↦ (ground arith, λ u. inl (ap (λ (x : Engine). get u x.user_data) same))
      | inr (dat, (level, online, (known, _), given), same) ↦ (
        ap (λ (x : Engine). x.online_users) same,
        λ u.
            let stored : get u s'.user_data
                ≡ (if user == u then some (modified_profile a dat) else get u s.user_data) =
              ap (λ (x : Engine). get u x.user_data) same
              ∙ get-put user u (modified_profile a dat) s.user_data in
            elim (Bool-cases (user == u)) [
              | inr miss ↦ inl (ground arith)
              | inl hit ↦
                  let is_u : user ≡ u = (==_iff user u).0 hit in
                  inr (
                    sym is_u,
                    dat,
                    modified_profile a dat,
                    ap (λ (i : ℕ). get i s.user_data) (sym is_u) ∙ known,
                    ground arith,
                    refl,
                    level,
                    online,
                    ground arith,
                  )
            ],
      )
    ]
