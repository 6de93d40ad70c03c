-- ===== src/Base/Text.antt =====
-- Text as the bytes of a `std::string`, and what the source uses of `std::ostream`, `sscanf` and
-- `std::getline`.
use Prim.Native.Nat.{ℕ, zero, suc, ◌+◌, ◌-◌, ◌*◌, ◌/◌, ◌%◌}
use Prim.Native.Char.{code}
use Prim.Native.String.{String}
use mathlib.Core.Bool.{Bool, true, false, ◌&&◌}
use mathlib.Core.List.{List, [], ◌∷◌, ◌++◌}
use bh_ticket_system.Base.Tests.{ltb, leb, ◌==◌, if◌then◌else◌}
use bh_ticket_system.Base.Lists.{length, replicate}

abbrev pub Bytes : Type 0
Bytes = List ℕ

abbrev pub codes : String → Bytes
codes String.[] = []
codes (String.◌∷◌ c s) = code c ∷ codes s

-- `operator==` of two strings.
abbrev pub bytes_eq : Bytes → Bytes → Bool
bytes_eq [] [] = true
bytes_eq (a ∷ as') (b ∷ bs) = (a == b) && bytes_eq as' bs
bytes_eq _ _ = false

-- `strcmp(a, b) < 0`, over the bytes as unsigned numbers.
abbrev pub bytes_lt : Bytes → Bytes → Bool
bytes_lt [] [] = false
bytes_lt [] (b ∷ bs) = true
bytes_lt (a ∷ as') [] = false
bytes_lt (a ∷ as') (b ∷ bs) =
    let rest = bytes_lt as' bs in if ltb a b then true else if ltb b a then false else rest

-- The decimal digits of `n`, in front of `acc`. Every round divides by ten, so `suc n` rounds do.
decimal_digits : ℕ → ℕ → Bytes → Bytes
decimal_digits zero n acc = acc
decimal_digits (suc fuel) n acc =
    let digit : ℕ = n % 10 + b'0' in
    let more = decimal_digits fuel (n / 10) (digit ∷ acc) in if ltb n 10 then digit ∷ acc else more

-- `os << n`
unfoldable pub decimal : ℕ → Bytes
unfolding decimal_digits
decimal n = decimal_digits (suc n) n []

-- `os << std::setw(2) << std::setfill('0') << n`
unfoldable pub two_digits : ℕ → Bytes
unfolding decimal
two_digits n = replicate (2 - length (decimal n)) b'0' ++ decimal n

abbrev pub is_digit : ℕ → Bool
is_digit c = leb b'0' c && leb c b'9'

-- `%d` of `sscanf` on a number without a sign, from the value of the digits before: the value, and
-- what is left of the text.
unfoldable pub scan_digits : ℕ → Bytes → ℕ × Bytes
scan_digits n [] = (n, [])
scan_digits n (c ∷ s) =
    let more = scan_digits (n * 10 + (c - b'0')) s in if is_digit c then more else (n, c ∷ s)

unfoldable pub scan_int : Bytes → ℕ
unfolding scan_digits
scan_int s = (scan_digits 0 s).0

-- The text behind one separator.
abbrev pub skip : ℕ → Bytes → Bytes
skip sep [] = []
skip sep (c ∷ s) = if c == sep then s else c ∷ s

-- `sscanf(s, "%d<sep>%d", &a, &b)`
unfoldable pub scan_pair : ℕ → Bytes → ℕ × ℕ
unfolding scan_digits
scan_pair sep s = let (a, rest) = scan_digits 0 s in (a, (scan_digits 0 (skip sep rest)).0)

-- The fields of a text that `std::getline(s, field, sep)` reads one after the other.
push_front : ℕ → List Bytes → List Bytes
push_front c [] = (c ∷ []) ∷ []
push_front c (f ∷ fs) = (c ∷ f) ∷ fs

unfoldable pub split_by : ℕ → Bytes → List Bytes
unfolding push_front
split_by sep [] = []
split_by sep (c ∷ s) =
    let rest = split_by sep s in if c == sep then [] ∷ rest else push_front c rest
