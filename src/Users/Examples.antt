-- ===== src/Users/Examples.antt =====
-- src/user_system.cpp: runs of the handlers with the user of the examples.
use bh_ticket_system.Base.{
  err, invalid_argument, true, false, [], ◌∷◌, ℕ, ◌≡◌, ◌<◌, refl, ◌⊎◌, inl, inr, Option, none, some,
  List, [], ◌∷◌, Bytes, codes, hash_eq, Result, ok, arith,
}
use bh_ticket_system.Base.Map.{get}
use bh_ticket_system.Hash.{split_mix64_hash}
use bh_ticket_system.Data.{FullUserData}
use bh_ticket_system.Engine.{Engine, refuse, accept}
use bh_ticket_system.Users.{
  ProfileArgs, LoginArgs, add_user_with, login_user_with, logout_user_with, modify_profile_with,
  modify_profile,
}
use bh_ticket_system.Users.Levels.{
  new_account, FitLevel, add_user_with-effect, modify_profile_with-effect,
}
use bh_ticket_system.Users.Registered.{OnlineRegistered}
use bh_ticket_system.Users.Keys.{modify_profile-total}
use bh_ticket_system.Args.{Command, arguments}
use bh_ticket_system.Args.Keys.{known_keys}
use bh_ticket_system.Users.Sessions.{logout_user_with-login_user_with}
use bh_ticket_system.Stage.{user_u, on_sale, state_of, response_of}

abbrev logged_out : Engine
logged_out = record on_sale { online_users = [] }

abbrev right_password : LoginArgs
right_password = record { user_name = codes "u"; password = codes "p" }

logout_user_with-login_user_with_example :
    (s' s'' : Engine) × (login_user_with right_password logged_out [] ≡ accept s' [])
    × (get (split_mix64_hash (codes "u")) s'.online_users ≡ some 10)
    × (login_user_with right_password s' [] ≡ refuse s' [])
    × (logout_user_with (codes "u") s' [] ≡ accept s'' [])
    × ((u : ℕ) → get u s''.online_users ≡ get u [])
    × (logout_user_with (codes "u") s'' [] ≡ refuse s'' [])
unfolding get split_mix64_hash
logout_user_with-login_user_with_example =
    logout_user_with-login_user_with right_password logged_out user_u [] (refl, refl, refl)

-- `u` creates the account `v`.
abbrev new_user : ProfileArgs
new_user = record {
  cur_username = codes "u";
  username = codes "v";
  password = codes "q";
  name = codes "V";
  mail_addr = codes "w";
  privilege = 3;
}

abbrev account_v : FullUserData
account_v = record {
  username = codes "v";
  password_hash = split_mix64_hash (codes "q");
  name = codes "V";
  mail_addr = codes "w";
  privilege = 3;
}

add_user_with-effect_example :
    ((state_of (add_user_with new_user on_sale [])).online_users ≡ on_sale.online_users)
    × ((u : ℕ)
        → (get u (state_of (add_user_with new_user on_sale [])).user_data ≡ get u on_sale.user_data)
          ⊎ ((u ≡ split_mix64_hash (codes "v"))
              × (get u on_sale.user_data ≡ none)
              × (privilege : ℕ) × (get u (state_of (add_user_with new_user on_sale [])).user_data
                  ≡ some (new_account new_user privilege))
              × FitLevel new_user on_sale privilege))
unfolding add_user_with get split_mix64_hash bh_ticket_system.Base.Map.put
add_user_with-effect_example =
    add_user_with-effect new_user on_sale (state_of (add_user_with new_user on_sale [])) []
      (response_of (add_user_with new_user on_sale [])) refl

-- The account is new.
stored_v :
    get (split_mix64_hash (codes "v")) (state_of (add_user_with new_user on_sale [])).user_data
    ≡ some account_v
unfolding add_user_with get split_mix64_hash bh_ticket_system.Base.Map.put
stored_v = refl

-- `u` changes the own name and level.
abbrev new_profile : ProfileArgs
new_profile = record {
  cur_username = codes "u";
  username = codes "u";
  password = [];
  name = codes "W";
  mail_addr = [];
  privilege = 2;
}

abbrev profile_W : FullUserData
profile_W = record user_u { name = codes "W"; privilege = 2 }

modify_profile_with-effect_example :
    ((state_of (modify_profile_with new_profile on_sale [])).online_users ≡ on_sale.online_users)
    × ((u : ℕ)
        → (get u (state_of (modify_profile_with new_profile on_sale [])).user_data
            ≡ get u on_sale.user_data)
          ⊎ ((u ≡ split_mix64_hash (codes "u"))
              × (dat : FullUserData) × (dat' : FullUserData) × (get u on_sale.user_data ≡ some dat)
              × (get u (state_of (modify_profile_with new_profile on_sale [])).user_data
                  ≡ some dat')
              × (dat'.username ≡ dat.username)
              × (level : ℕ) × (get (split_mix64_hash (codes "u")) on_sale.online_users ≡ some level)
              × ((dat'.privilege ≡ dat.privilege) ⊎ (dat'.privilege < level))))
unfolding modify_profile_with get split_mix64_hash bh_ticket_system.Base.Map.put
modify_profile_with-effect_example =
    modify_profile_with-effect new_profile on_sale
      (state_of (modify_profile_with new_profile on_sale [])) []
      (response_of (modify_profile_with new_profile on_sale [])) refl

stored_W :
    get
      (split_mix64_hash (codes "u"))
      (state_of (modify_profile_with new_profile on_sale [])).user_data
    ≡ some profile_W
unfolding modify_profile_with get split_mix64_hash bh_ticket_system.Base.Map.put
stored_W = refl

on_sale-OnlineRegistered : OnlineRegistered on_sale
unfolding get
on_sale-OnlineRegistered user level online = (user_u, ground arith)

abbrev rename_u : Command
rename_u =
    codes "[1]"
    ∷ codes "modify_profile"
    ∷ codes "-c"
    ∷ codes "u"
    ∷ codes "-u"
    ∷ codes "u"
    ∷ codes "-n"
    ∷ codes "W"
    ∷ []

modify_profile-total_example :
    ((known_keys (codes "cupnmg") (arguments rename_u) ≡ true)
      × (s' : Engine) × (r : Bytes) × (modify_profile on_sale rename_u ≡ ok (s', r)))
    ⊎ ((known_keys (codes "cupnmg") (arguments rename_u) ≡ false)
        × (modify_profile on_sale rename_u ≡ err invalid_argument))
modify_profile-total_example = modify_profile-total on_sale rename_u on_sale-OnlineRegistered
