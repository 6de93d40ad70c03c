-- ===== src/Snapshot/Diff/Steps.antt =====
-- dataguard/src/snapshot.cpp: what the rounds of `ApplyPatch` do to its two files.
use mathlib.Core.List.{append-nil, append_assoc}
use bh_ticket_system.Base.{
  ℕ, suc, ◌+◌, ◌-◌, ◌^◌, ◌<◌, ◌≡◌, refl, ap, ◌∙◌, Bool, [], ◌∷◌, ◌++◌, Bytes, if◌then◌else◌, length,
  arith, Result, ok, ◌>>=◌,
}
use bh_ticket_system.Snapshot.Diff.{
  Patching, stretch, four_bytes, split_bytes, read_number, copy_bytes, copy_until, write_over,
  patch_stretch, patch_loop, next_byte, behind_byte,
}

split_bytes-append : (xs ys : Bytes) → split_bytes (length xs) (xs ++ ys) ≡ ok (xs, ys)
unfolding split_bytes
split_bytes-append [] ys = refl
split_bytes-append (x ∷ xs) ys = rw (split_bytes-append xs ys) refl

read_number-four_bytes :
    (n : ℕ) (rest : Bytes) → n < 2 ^ 32 → read_number (four_bytes n ++ rest) ≡ ok (n, rest)
unfolding read_number four_bytes
read_number-four_bytes n rest small = ap (λ (k : ℕ). ok (k, rest)) (omega arith)

copy_bytes-append :
    (xs ys w : Bytes) (c : ℕ)
    → copy_bytes (length xs) (record { reader = xs ++ ys; reader_cursor = c; written = w })
      ≡ record { reader = ys; reader_cursor = c + length xs; written = w ++ xs }
unfolding copy_bytes next_byte behind_byte
copy_bytes-append [] ys w c = ground (arith, append-nil w)
copy_bytes-append (x ∷ xs) ys w c =
    copy_bytes-append xs ys (w ++ x ∷ []) (c + 1) ∙ ground (arith, append_assoc w (x ∷ []) xs)

-- What lies before the target is copied.
pub copy_until-append :
    (xs ys w : Bytes) (c target : ℕ)
    → c + length xs ≡ target
    → copy_until target (record { reader = xs ++ ys; reader_cursor = c; written = w })
      ≡ record { reader = ys; reader_cursor = target; written = w ++ xs }
unfolding copy_until
copy_until-append xs ys w c target e =
    let rounds : target - c ≡ length xs = omega arith in
    rw rounds (copy_bytes-append xs ys w c ∙ ground arith)

-- So is what a reader has before the target.
pub copy_until-same :
    (p : Patching) (xs ys : Bytes) (target : ℕ)
    → p.reader ≡ xs ++ ys
    → p.reader_cursor + length xs ≡ target
    → copy_until target p
      ≡ record { reader = ys; reader_cursor = target; written = p.written ++ xs }
copy_until-same p xs ys target reads place =
    let at : p
        ≡ record { reader = xs ++ ys; reader_cursor = p.reader_cursor; written = p.written } =
      ground arith in
    ap (copy_until target) at ∙ copy_until-append xs ys p.written p.reader_cursor target place

write_over-append :
    (bs xs ys w : Bytes) (c : ℕ)
    → length bs ≡ length xs
    → write_over bs (record { reader = xs ++ ys; reader_cursor = c; written = w })
      ≡ record { reader = ys; reader_cursor = c + length bs; written = w ++ bs }
unfolding write_over behind_byte
write_over-append [] [] ys w c e = ground (arith, append-nil w)
write_over-append (b ∷ bs) (x ∷ xs) ys w c e =
    write_over-append bs xs ys (w ++ b ∷ []) (c + 1) (omega arith)
    ∙ ground (arith, append_assoc w (b ∷ []) bs)
write_over-append [] (x ∷ xs) ys w c e = absurd (omega arith)
write_over-append (b ∷ bs) [] ys w c e = absurd (omega arith)

-- A stretch replaces the bytes `xs` of the one file by the bytes of the other.
pub patch_stretch-stretch :
    (is_reverse : Bool) (p : Patching) (same xs ys in_old in_new rest : Bytes) (pos len : ℕ)
    → p.reader ≡ same ++ (xs ++ ys)
    → p.reader_cursor + length same ≡ pos
    → length in_old ≡ len
    → length in_new ≡ len
    → length xs ≡ len
    → pos < 2 ^ 32
    → len < 2 ^ 32
    → patch_stretch is_reverse p
        (four_bytes len ++ (four_bytes pos ++ (in_old ++ (in_new ++ rest))))
      ≡ ok (
        record {
          reader = ys;
          reader_cursor = pos + len;
          written = p.written ++ (same ++ (if is_reverse then in_old else in_new));
        },
        rest,
      )
unfolding patch_stretch
patch_stretch-stretch is_reverse p same xs ys in_old in_new rest pos len reads place l_old l_new
      long small short =
    let bs = if is_reverse then in_old else in_new in
    let chosen : length bs ≡ len = ground arith in
    let old_read : split_bytes len (in_old ++ (in_new ++ rest)) ≡ ok (in_old, in_new ++ rest) =
      rw (← l_old) (split_bytes-append in_old (in_new ++ rest)) in
    let new_read : split_bytes len (in_new ++ rest) ≡ ok (in_new, rest) =
      rw (← l_new) (split_bytes-append in_new rest) in
    rw
      (
        read_number-four_bytes len (four_bytes pos ++ (in_old ++ (in_new ++ rest))) short,
        read_number-four_bytes pos (in_old ++ (in_new ++ rest)) small,
        old_read,
        new_read,
        copy_until-same p same (xs ++ ys) pos reads place,
        write_over-append bs xs ys (p.written ++ same) pos (omega arith),
        chosen,
        append_assoc p.written same bs,
      )
      refl

-- A stretch is one round.
pub patch_loop-stretch :
    (fuel size : ℕ) (is_reverse : Bool) (p q : Patching) (len pos : ℕ) (in_old in_new rest : Bytes)
    → patch_stretch is_reverse p
        (four_bytes len ++ (four_bytes pos ++ (in_old ++ (in_new ++ rest))))
      ≡ ok (q, rest)
    → patch_loop (suc fuel) is_reverse size p (stretch len pos in_old in_new ++ rest)
      ≡ patch_loop fuel is_reverse size q rest
unfolding patch_loop stretch
patch_loop-stretch fuel size is_reverse p q len pos in_old in_new rest e =
    rw (append_assoc in_old in_new rest) (
      ap
        (λ (r : Result (Patching × Bytes)).
          r >>= λ (q, rest). patch_loop fuel is_reverse size q rest)
        e)
