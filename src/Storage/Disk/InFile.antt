-- ===== src/Storage/Disk/InFile.antt =====
-- storage/src/disk_manager.cpp: integers in memory and the pages of a file.
use bh_ticket_system.Base.{
  ℕ, zero, suc, ◌/◌, ◌^◌, ◌<◌, ◌≡◌, ◌≢◌, refl, ap, List, [], ◌∷◌, ◌++◌, some, Bytes, get_or,
  get_elem?, length, drop, arith,
}
use bh_ticket_system.Storage.Disk.{le_bytes, le_number, write_at}

-- The bytes of an integer are read back as it, when it fits.
pub le_number-le_bytes :
    (n x : ℕ) (rest : Bytes) → x < 256 ^ n → le_number n (le_bytes n x ++ rest) ≡ x
unfolding le_number le_bytes
le_number-le_bytes zero x rest small = omega arith
le_number-le_bytes (suc n) x rest small =
    let below : x / 256 < 256 ^ n = omega arith in
    omega (arith, le_number-le_bytes n (x / 256) rest below)

-- The fields of the internal page are read back.
module _ (x y z : ℕ) (raw : Bytes) where
  abbrev fields : Bytes
  fields = le_bytes 4 x ++ (le_bytes 8 y ++ (le_bytes 8 z ++ raw))

  pub first_field : x < 2 ^ 32 → le_number 4 fields ≡ x
  first_field small = le_number-le_bytes 4 x (le_bytes 8 y ++ (le_bytes 8 z ++ raw)) small

  pub second_field : y < 2 ^ 64 → le_number 8 (drop 4 fields) ≡ y
  unfolding le_bytes
  second_field small = le_number-le_bytes 8 y (le_bytes 8 z ++ raw) small

  pub third_field : z < 2 ^ 64 → le_number 8 (drop 12 fields) ≡ z
  unfolding le_bytes
  third_field small = le_number-le_bytes 8 z raw small

  pub rest_field : drop 20 fields ≡ raw
  unfolding le_bytes
  rest_field = refl

pub write_at_self :
    (file : List Bytes) (p : ℕ) (page : Bytes) → get_elem? (write_at file p page) p ≡ some page
unfolding write_at
write_at_self [] zero page = refl
write_at_self [] (suc p) page = write_at_self [] p page
write_at_self (x ∷ xs) zero page = refl
write_at_self (x ∷ xs) (suc p) page = write_at_self xs p page

pub write_at_ne :
    (file : List Bytes) (p q : ℕ) (page : Bytes) {old : Bytes}
    → p ≢ q
    → get_elem? file q ≡ some old
    → get_elem? (write_at file p page) q ≡ some old
unfolding write_at
write_at_ne [] p q page ne e = absurd (ground (arith, e))
write_at_ne (x ∷ xs) zero zero page ne e = absurd (ne refl)
write_at_ne (x ∷ xs) zero (suc q) page ne e = e
write_at_ne (x ∷ xs) (suc p) zero page ne e = e
write_at_ne (x ∷ xs) (suc p) (suc q) page ne e = write_at_ne xs p q page (λ k. ne (ap suc k)) e

pub write_at_other :
    (file : List Bytes) (p q : ℕ) (page : Bytes)
    → p < length file
    → p ≢ q
    → get_elem? (write_at file p page) q ≡ get_elem? file q
unfolding write_at
write_at_other [] p q page lt ne = absurd (omega arith)
write_at_other (x ∷ xs) zero zero page lt ne = absurd (ne refl)
write_at_other (x ∷ xs) zero (suc q) page lt ne = refl
write_at_other (x ∷ xs) (suc p) zero page lt ne = refl
write_at_other (x ∷ xs) (suc p) (suc q) page lt ne =
    write_at_other xs p q page (omega arith) (λ k. ne (ap suc k))

pub get_elem_there :
    (file : List Bytes) (q : ℕ) → q < length file → (page : Bytes) × (get_elem? file q ≡ some page)
get_elem_there [] q lt = absurd (omega arith)
get_elem_there (x ∷ xs) zero lt = (x, refl)
get_elem_there (x ∷ xs) (suc q) lt = get_elem_there xs q (omega arith)

pub length-write_at :
    (file : List Bytes) (p : ℕ) (page : Bytes)
    → p < length file
    → length (write_at file p page) ≡ length file
unfolding write_at
length-write_at [] p page lt = absurd (omega arith)
length-write_at (x ∷ xs) zero page lt = refl
length-write_at (x ∷ xs) (suc p) page lt = ap suc (length-write_at xs p page (omega arith))

pub get_elem?-append :
    (file : List Bytes) (q : ℕ) (page : Bytes) {old : Bytes}
    → get_elem? file q ≡ some old
    → get_elem? (file ++ page ∷ []) q ≡ some old
get_elem?-append [] q page e = absurd (ground (arith, e))
get_elem?-append (x ∷ xs) zero page e = e
get_elem?-append (x ∷ xs) (suc q) page e = get_elem?-append xs q page e

pub get_or_elem :
    (file : List Bytes) (q : ℕ) (buffer : Bytes) {old : Bytes}
    → get_elem? file q ≡ some old
    → get_or file q buffer ≡ old
get_or_elem [] q buffer e = absurd (ground (arith, e))
get_or_elem (x ∷ xs) zero buffer e = ground (arith, e)
get_or_elem (x ∷ xs) (suc q) buffer e = get_or_elem xs q buffer e
