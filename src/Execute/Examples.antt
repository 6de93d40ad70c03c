-- ===== src/Execute/Examples.antt =====
-- src/engine.cpp: a run from the empty engine, in which the first user comes and logs in.
use bh_ticket_system.Base.{
  ◌⊎◌, true, false, err, invalid_argument, ℕ, ◌≡◌, refl, List, [], ◌∷◌, Bytes, codes, Result, ok,
  split_by,
}
use bh_ticket_system.Args.{Command, arguments}
use bh_ticket_system.Args.Keys.{known_keys}
use bh_ticket_system.Engine.{Engine}
use bh_ticket_system.Users.{query_profile, add_user}
use bh_ticket_system.Users.Registered.{OnlineRegistered}
use bh_ticket_system.Users.Levels.{AtMostTen}
use bh_ticket_system.Execute.{execute}
use bh_ticket_system.Execute.Names.{named_add_user, execute-Named}
use bh_ticket_system.Execute.Runs.{Runs, stays, answers}
use bh_ticket_system.Execute.Users.{Runs-OnlineRegistered, Runs-AtMostTen, Runs-query_profile}
use bh_ticket_system.Execute.Stops.{Registered, Runs-Registered}
use bh_ticket_system.Stage.{empty_engine, state_of, response_of}

abbrev first_user : Command
first_user = codes "[1]" ∷ codes "add_user" ∷ codes "-u" ∷ codes "u" ∷ codes "-p" ∷ codes "p" ∷ []

abbrev first_login : Command
first_login = codes "[2]" ∷ codes "login" ∷ codes "-u" ∷ codes "u" ∷ codes "-p" ∷ codes "p" ∷ []

abbrev one_user : Engine
one_user = state_of (execute empty_engine first_user)

abbrev one_online : Engine
one_online = state_of (execute one_user first_login)

added :
    execute empty_engine first_user ≡ ok (one_user, response_of (execute empty_engine first_user))
unfolding execute bh_ticket_system.Hash.split_mix64_hash add_user bh_ticket_system.Args.parse_args
added = refl

logged_in :
    execute one_user first_login ≡ ok (one_online, response_of (execute one_user first_login))
unfolding execute bh_ticket_system.Hash.split_mix64_hash bh_ticket_system.Users.login_user
    bh_ticket_system.Args.parse_args bh_ticket_system.Base.Map.get add_user
    bh_ticket_system.Base.Map.put
logged_in = refl

abbrev first_run : Runs empty_engine one_online
first_run = answers first_login _ (answers first_user _ stays added) logged_in

Runs-OnlineRegistered_example : OnlineRegistered one_online
Runs-OnlineRegistered_example = Runs-OnlineRegistered first_run refl

Runs-AtMostTen_example : AtMostTen one_online
Runs-AtMostTen_example = Runs-AtMostTen first_run refl refl

abbrev new_train : Command
new_train = split_by 32 (
    codes
      "[3] add_train -i T -n 3 -m 10 -s A|B|C -p 5|7 -x 19:19 -t 60|60 -o 5 -d 06-01|06-01 -y G")

abbrev its_release : Command
its_release = codes "[4]" ∷ codes "release_train" ∷ codes "-i" ∷ codes "T" ∷ []

abbrev one_train : Engine
one_train = state_of (execute empty_engine new_train)

abbrev one_released : Engine
one_released = state_of (execute one_train its_release)

train_added :
    execute empty_engine new_train ≡ ok (one_train, response_of (execute empty_engine new_train))
unfolding execute split_by bh_ticket_system.Hash.split_mix64_hash bh_ticket_system.Trains.add_train
    bh_ticket_system.Args.parse_args bh_ticket_system.Base.Map.get
train_added = refl

train_released :
    execute one_train its_release ≡ ok (one_released, response_of (execute one_train its_release))
unfolding execute split_by bh_ticket_system.Hash.split_mix64_hash bh_ticket_system.Trains.add_train
    bh_ticket_system.Trains.Release.release_train bh_ticket_system.Args.parse_args
    bh_ticket_system.Base.Map.get bh_ticket_system.Base.Map.put
train_released = refl

empty_engine-Registered : Registered empty_engine
unfolding bh_ticket_system.Base.Map.get
empty_engine-Registered = (tt, tt, λ train unpriced. refl)

Runs-Registered_example : Registered one_released
Runs-Registered_example =
    Runs-Registered (answers its_release _ (answers new_train _ stays train_added) train_released)
      empty_engine-Registered

abbrev own_profile : Command
own_profile =
    codes "[3]" ∷ codes "query_profile" ∷ codes "-c" ∷ codes "u" ∷ codes "-u" ∷ codes "u" ∷ []

Runs-query_profile_example :
    ((known_keys (codes "cu") (arguments own_profile) ≡ true)
      × (r : Bytes) × (query_profile one_online own_profile ≡ ok (one_online, r)))
    ⊎ ((known_keys (codes "cu") (arguments own_profile) ≡ false)
        × (query_profile one_online own_profile ≡ err invalid_argument))
Runs-query_profile_example = Runs-query_profile own_profile first_run refl

execute-Named_example : execute empty_engine first_user ≡ add_user empty_engine first_user
execute-Named_example =
    execute-Named (codes "add_user") add_user empty_engine (codes "[1]")
      (codes "-u" ∷ codes "u" ∷ codes "-p" ∷ codes "p" ∷ []) named_add_user
