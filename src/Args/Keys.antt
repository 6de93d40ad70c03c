-- ===== src/Args/Keys.antt =====
-- src/user_system.cpp: the keys that a handler knows, and what becomes of a command with another one.
use bh_ticket_system.Base.{
  ℕ, ◌≡◌, refl, ◌⊎◌, inl, inr, Bool, true, false, ◌&&◌, ◌||◌, [], ◌∷◌, Bytes, get_or, ◌==◌,
  if◌then◌else◌, ok, err, invalid_argument, Bool-cases,
}
use bh_ticket_system.Args.{Command, KeyAction, reads, throws, parse_args}

abbrev pub is_in : Bytes → ℕ → Bool
is_in [] c = false
is_in (l ∷ ls) c = (c == l) || is_in ls c

-- Every key of the command is a dash with one of the letters. Keys and values take turns.
abbrev pub known_keys : Bytes → Command → Bool
known_keys letters [] = true
known_keys letters (token ∷ []) = is_in letters (get_or token 1 0)
known_keys letters (token ∷ value ∷ rest) =
    is_in letters (get_or token 1 0) && known_keys letters rest

-- The switch reads a value for each of the letters, and throws for any other one.
pub record Reads {A : Type 0} (keys : ℕ → KeyAction A) (letters : Bytes) : Type 0 where
  pub known : (c : ℕ) → is_in letters c ≡ true → (f : Bytes → A → A) × (keys c ≡ reads f)
  pub unknown : (c : ℕ) → is_in letters c ≡ false → keys c ≡ throws invalid_argument

-- A test of a switch is one more letter.
pub reads_if :
    {A : Type 0} (b : Bool) (f : Bytes → A → A) (rest : KeyAction A)
    → (b ≡ false → (g : Bytes → A → A) × (rest ≡ reads g))
    → (g : Bytes → A → A) × ((if b then reads f else rest) ≡ reads g)
reads_if true f rest later = (f, refl)
reads_if false f rest later = later refl

module _ {A : Type 0} (keys : ℕ → KeyAction A) (letters : Bytes) (r : Reads keys letters) where
  -- A command whose keys are known is read, and any other one is refused by the exception.
  pub parse_args-known :
      (a : A) (tokens : Command)
      → ((known_keys letters tokens ≡ true) × (a' : A) × (parse_args keys a tokens ≡ ok a'))
        ⊎ ((known_keys letters tokens ≡ false) × (parse_args keys a tokens ≡ err invalid_argument))
  unfolding parse_args
  parse_args-known a [] = inl (refl, a, refl)
  parse_args-known a (token ∷ []) = elim (Bool-cases (is_in letters (get_or token 1 0))) [
    | inl yes_in ↦
        let (f, e) = r.known (get_or token 1 0) yes_in in inl (yes_in, a, rw (e, parse_args) refl)
    | inr not_in ↦ inr (not_in, rw (r.unknown (get_or token 1 0) not_in, parse_args) refl)
  ]
  parse_args-known a (token ∷ value ∷ rest) = elim (Bool-cases (is_in letters (get_or token 1 0))) [
    | inl yes_in ↦
        let (f, e) = r.known (get_or token 1 0) yes_in in
        elim (parse_args-known (f value a) rest) [
          | inl (known, a', runs) ↦ inl (rw yes_in known, a', rw (e, parse_args) runs)
          | inr (unknown, fails) ↦ inr (rw yes_in unknown, rw (e, parse_args) fails)
        ]
    | inr not_in ↦ inr (rw not_in refl, rw (r.unknown (get_or token 1 0) not_in, parse_args) refl)
  ]
