-- ===== src/Args.antt =====
-- How the handlers read a command: `command_stream >> token` in a loop, and a `switch` on the
-- letter behind the dash. A command is the list of its tokens, which hold no white space.
pub mod Keys
use bh_ticket_system.Base.{
  ℕ, ◌%◌, ◌^◌, List, [], ◌∷◌, ◌++◌, Bytes, codes, get_or, drop, Result, ok, err, Error, ◌>>=◌,
  decimal, scan_digits,
}

abbrev pub Command : Type 0
Command = List Bytes

-- What a `switch` does with a letter: the value behind it is read, or read and checked, or nothing
-- is read, or it throws.
pub data KeyAction (A : Type 0) : Type 0 where
  reads : (Bytes → A → A) → KeyAction A
  checks : (Bytes → A → Result A) → KeyAction A
  ignores : KeyAction A
  throws : Error → KeyAction A

module _ {A : Type 0} where
  -- A value that is missing at the end of the command leaves the variable as it was.
  unfoldable pub parse_args : (ℕ → KeyAction A) → A → Command → Result A
  parse_args keys a [] = ok a
  parse_args keys a (token ∷ []) = elim (keys (get_or token 1 0)) [ throws e ↦ err e | _ ↦ ok a ]
  parse_args keys a (token ∷ value ∷ rest) = elim (keys (get_or token 1 0)) [
    | reads f ↦ parse_args keys (f value a) rest
    | checks f ↦ f value a >>= λ a'. parse_args keys a' rest
    | ignores ↦ parse_args keys a (value ∷ rest)
    | throws e ↦ err e
  ]

-- The tokens behind the time stamp and the command's name.
abbrev pub arguments : Command → Command
arguments command = drop 2 command

-- `sscanf(command.c_str(), "[%llu]", &command_id)`
unfoldable pub command_id : Command → ℕ
unfolding scan_digits
command_id command = (scan_digits 0 (drop 1 (get_or command 0 []))).0 % 2 ^ 64

-- `response_stream << '[' << command_id << "] " << …`
unfoldable pub respond : Command → Bytes → Bytes
unfolding command_id decimal
respond command body = codes "[" ++ decimal (command_id command) ++ codes "] " ++ body
