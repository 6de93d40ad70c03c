-- ===== src/Users/Keys.antt =====
-- src/user_system.cpp: what `QueryProfile` and `ModifyProfile` do with a command, its keys included.
use bh_ticket_system.Base.{
  ◌≡◌, ◌==◌, ap, ◌∙◌, ◌⊎◌, inl, inr, true, false, [], Bytes, codes, ok, err, invalid_argument,
  ◌>>=◌, arith,
}
use bh_ticket_system.Args.{Command, arguments}
use bh_ticket_system.Args.Keys.{known_keys, Reads, reads_if, parse_args-known}
use bh_ticket_system.Engine.{Engine}
use bh_ticket_system.Users.{
  query_profile_keys, query_profile_with, query_profile, profile_keys, no_profile_args,
  no_privilege, modify_profile_with, modify_profile,
}
use bh_ticket_system.Users.Registered.{
  OnlineRegistered, query_profile_with-total, modify_profile_with-total,
}

query_profile_keys-Reads : Reads query_profile_keys (codes "cu")
unfolding query_profile_keys
query_profile_keys-Reads = record {
  known = λ c e.
      reads_if (c == b'c') _ _
        (λ n0. reads_if (c == b'u') _ _ (λ n1. absurd (ground (arith, e, n0, n1))));
  unknown = λ c e. ground (arith, e);
}

profile_keys-Reads : Reads profile_keys (codes "cupnmg")
unfolding profile_keys
profile_keys-Reads = record {
  known = λ c e. reads_if (c == b'c') _ _ (λ n0. reads_if (c == b'u') _ _ (λ n1.
      reads_if (c == b'p') _ _ (λ n2. reads_if (c == b'n') _ _ (λ n3.
        reads_if (c == b'm') _ _ (λ n4.
          reads_if (c == b'g') _ _ (λ n5. absurd (ground (arith, e, n0, n1, n2, n3, n4, n5))))))));
  unknown = λ c e. ground (arith, e);
}

-- Where everyone who is logged in has an account, `QueryProfile` answers and leaves the engine as it
-- is, when each key of the command is -c or -u; it throws `invalid_argument` for another key, and
-- nothing else.
pub query_profile-total :
    (s : Engine) (command : Command)
    → OnlineRegistered s
    → ((known_keys (codes "cu") (arguments command) ≡ true)
        × (r : Bytes) × (query_profile s command ≡ ok (s, r)))
      ⊎ ((known_keys (codes "cu") (arguments command) ≡ false)
          × (query_profile s command ≡ err invalid_argument))
unfolding query_profile
query_profile-total s command reg =
    elim (parse_args-known query_profile_keys (codes "cu") query_profile_keys-Reads
      (record { current_user_name = []; user_name = [] }) (arguments command)) [
        | inl (known, a, parsed) ↦
            let (r, runs) = query_profile_with-total a s command reg in
            inl (known, r, ap (λ x. x >>= λ a. query_profile_with a s command) parsed ∙ runs)
        | inr (unknown, thrown) ↦
            inr (unknown, ap (λ x. x >>= λ a. query_profile_with a s command) thrown)
      ]

-- Where everyone who is logged in has an account, `ModifyProfile` answers when each key of the command
-- is -c, -u, -p, -n, -m or -g; it throws `invalid_argument` for another key, and nothing else.
pub modify_profile-total :
    (s : Engine) (command : Command)
    → OnlineRegistered s
    → ((known_keys (codes "cupnmg") (arguments command) ≡ true)
        × (s' : Engine) × (r : Bytes) × (modify_profile s command ≡ ok (s', r)))
      ⊎ ((known_keys (codes "cupnmg") (arguments command) ≡ false)
          × (modify_profile s command ≡ err invalid_argument))
unfolding modify_profile
modify_profile-total s command reg =
    elim (parse_args-known profile_keys (codes "cupnmg") profile_keys-Reads
      (no_profile_args no_privilege) (arguments command)) [
        | inl (known, a, parsed) ↦
            let (s', r, runs) = modify_profile_with-total a s command reg in
            inl (known, s', r, ap (λ x. x >>= λ a. modify_profile_with a s command) parsed ∙ runs)
        | inr (unknown, thrown) ↦
            inr (unknown, ap (λ x. x >>= λ a. modify_profile_with a s command) thrown)
      ]
