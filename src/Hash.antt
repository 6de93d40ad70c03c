-- ===== src/Hash.antt =====
-- src/include/utils.h: `SplitMix64Hash`, by which every name is stored.
use bh_ticket_system.Base.{
  ℕ, ◌+◌, ◌-◌, ◌*◌, ◌/◌, ◌%◌, ◌^◌, [], ◌∷◌, Bytes, codes, ltb, if◌then◌else◌, get_or, bit_xor,
}

abbrev pub hash_mod : ℕ
hash_mod = 2 ^ 64

abbrev inner_salt : Bytes
inner_salt = codes "si9aW@zl#2$3%4^!"

-- The bytes `b[0] … b[7]` as one little-endian word.
word_of : Bytes → ℕ
word_of [] = 0
word_of (b ∷ bs) = b + 256 * word_of bs

salt_word : ℕ → ℕ
unfolding word_of
salt_word i = if ltb (i % 16) 8 then word_of (codes "si9aW@zl") else word_of (codes "#2$3%4^!")

-- A `char` is signed: a byte of 128 or more is extended by ones.
sign_extend : ℕ → ℕ
sign_extend b = if ltb b 128 then b else b + (hash_mod - 256)

-- One round: the lines that follow the two `^=`.
mix : ℕ → ℕ
mix ret =
    let a : ℕ = (ret + 0x9e3779b97f4a7c15) % hash_mod in
    let b : ℕ = bit_xor a (a / 2 ^ 30) * 0xbf58476d1ce4e5b9 % hash_mod in
    let c : ℕ = bit_xor b (b / 2 ^ 27) * 0x94d049bb133111eb % hash_mod in bit_xor c (c / 2 ^ 31)

-- `for (; i < len; ++i)`
hash_bytes : ℕ → ℕ → Bytes → ℕ
unfolding mix sign_extend
hash_bytes i ret [] = ret
hash_bytes i ret (b ∷ bs) =
    hash_bytes (i + 1) (mix (bit_xor (bit_xor ret (sign_extend b)) (get_or inner_salt (i % 16) 0)))
      bs

-- `for (; i + 8 <= len; i += 8)`, and then the loop over the bytes that are left.
hash_words : ℕ → ℕ → Bytes → ℕ
unfolding mix hash_bytes salt_word word_of
hash_words i ret (a ∷ b ∷ c ∷ d ∷ e ∷ f ∷ g ∷ h ∷ rest) =
    let word = word_of (a ∷ b ∷ c ∷ d ∷ e ∷ f ∷ g ∷ h ∷ []) in
    hash_words (i + 8) (mix (bit_xor (bit_xor ret word) (salt_word i))) rest
hash_words i ret rest = hash_bytes i ret rest

unfoldable pub split_mix64_hash : Bytes → ℕ
unfolding hash_words
split_mix64_hash s = hash_words 0 0 s
