-- ===== src/Snapshot/Diff/Generated.antt =====
-- dataguard/src/snapshot.cpp: what `GenerateDiff` writes for two files.
use mathlib.Core.List.{append-nil}
use bh_ticket_system.Base.{
  ℕ, ◌+◌, ◌-◌, ◌%◌, ◌^◌, ◌<◌, ◌≡◌, refl, ap, ◌∙◌, sym, true, false, [], ◌∷◌, ◌++◌, Bytes, length,
  arith, inl, inr, ◌⊎◌, min,
}
use bh_ticket_system.Snapshot.Diff.{
  Differing, compare_bytes, no_difference, longer_end, read_bytes, next_byte, behind_byte,
  or_equal_mark, generate_diff,
}
use bh_ticket_system.Snapshot.Diff.Emitted.{
  Pairs, column, emitted, compare_bytes-emitted, at_hand, closing,
}

-- The bytes at the same place, and what the longer file has behind them.
pub pairs : Bytes → Bytes → Pairs
pairs [] new = []
pairs (o ∷ old) [] = []
pairs (o ∷ old) (n ∷ new) = (o, n) ∷ pairs old new

pub end_of : Bytes → Bytes → Bytes
end_of [] new = []
end_of (o ∷ old) [] = o ∷ old
end_of (o ∷ old) (n ∷ new) = end_of old new

pub pairs_old : (old new : Bytes) → old ≡ column true (pairs old new) ++ end_of old new
unfolding pairs end_of
pairs_old [] new = refl
pairs_old (o ∷ old) [] = refl
pairs_old (o ∷ old) (n ∷ new) = ap (λ (l : Bytes). o ∷ l) (pairs_old old new)

pub pairs_new : (old new : Bytes) → new ≡ column false (pairs old new) ++ end_of new old
unfolding pairs end_of
pairs_new [] [] = refl
pairs_new [] (n ∷ new) = refl
pairs_new (o ∷ old) [] = refl
pairs_new (o ∷ old) (n ∷ new) = ap (λ (l : Bytes). n ∷ l) (pairs_new old new)

pub length-pairs : (old new : Bytes) → length (pairs old new) ≡ min (length old) (length new)
unfolding pairs
length-pairs [] new = ground arith
length-pairs (o ∷ old) [] = ground arith
length-pairs (o ∷ old) (n ∷ new) = ground (arith, length-pairs old new)

pub one_end : (old new : Bytes) → (end_of old new ≡ []) ⊎ (end_of new old ≡ [])
unfolding end_of
one_end [] new = inl refl
one_end (o ∷ old) [] = inr refl
one_end (o ∷ old) (n ∷ new) = one_end old new

read_bytes_all : (xs : Bytes) (n : ℕ) → n ≡ length xs → read_bytes n xs ≡ xs
unfolding read_bytes next_byte behind_byte
read_bytes_all xs n e = rw e (all xs)
  where
    all : (xs : Bytes) → read_bytes (length xs) xs ≡ xs
    all [] = refl
    all (x ∷ xs) = ap (λ (l : Bytes). x ∷ l) (all xs)

pub length-end_of :
    (old new : Bytes) → length (end_of old new) ≡ length old - min (length old) (length new)
unfolding end_of
length-end_of [] new = omega arith
length-end_of (o ∷ old) [] = ground arith
length-end_of (o ∷ old) (n ∷ new) = ground (arith, length-end_of old new)

-- What stands behind the stretches.
unfoldable pub ends : Bytes → Bytes → Bytes
ends [] [] = []
ends (o ∷ old) new = 1 ∷ o ∷ old
ends [] (n ∷ new) = 2 ∷ n ∷ new

longer_end-ends :
    (k a b : ℕ) (e1 e2 : Bytes)
    → k + length e1 ≡ a
    → k + length e2 ≡ b
    → (e1 ≡ []) ⊎ (e2 ≡ [])
    → longer_end a b e1 e2 ≡ ends e1 e2
unfolding longer_end ends
longer_end-ends k a b [] [] ea eb one = ground arith
longer_end-ends k a b (o ∷ e1) [] ea eb one =
    let k_min : min a b ≡ k = omega arith in
    let read = read_bytes_all (o ∷ e1) (a - k) (omega arith) in
    rw (k_min, read) (ground (arith, append-nil (1 ∷ o ∷ e1)))
longer_end-ends k a b [] (n ∷ e2) ea eb one =
    let k_min : min a b ≡ k = omega arith in
    let read = read_bytes_all (n ∷ e2) (b - k) (omega arith) in rw (k_min, read) (ground arith)
longer_end-ends k a b (o ∷ e1) (n ∷ e2) ea eb (inl none) = absurd (ground arith)
longer_end-ends k a b (o ∷ e1) (n ∷ e2) ea eb (inr none) = absurd (ground arith)

pub min_swap : (a b : ℕ) → min a b ≡ min b a
min_swap a b = omega arith

pub generate_diff-emitted :
    (old new : Bytes)
    → length old < 2 ^ 32
    → length new < 2 ^ 32
    → generate_diff old new
      ≡ or_equal_mark (emitted 0 [] (pairs old new) ++ ends (end_of old new) (end_of new old))
unfolding generate_diff no_difference
generate_diff-emitted old new small small' =
    let ps = pairs old new in
    let e1 = end_of old new in
    let e2 = end_of new old in
    let shared : length ps ≡ min (length old) (length new) = length-pairs old new in
    let l_old : length ps + length e1 ≡ length old = omega (arith, length-end_of old new) in
    let l_new : length ps + length e2 ≡ length new =
      omega (arith, length-end_of new old, min_swap (length old) (length new)) in
    let start : Differing = at_hand 0 0 [] [] in
    let finish = λ (r : Differing × Bytes × Bytes).
      or_equal_mark ((closing r.0).buf ++ longer_end (length old) (length new) r.1 r.2) in
    let same_run : compare_bytes (min (length old) (length new)) 0 old new start
        ≡ compare_bytes (length ps) 0 (column true ps ++ e1) (column false ps ++ e2) start =
      ap (λ (k : ℕ). compare_bytes k 0 old new start) (sym shared)
      ∙ ap (λ (l : Bytes). compare_bytes (length ps) 0 l new start) (pairs_old old new)
      ∙ ap (λ (l : Bytes). compare_bytes (length ps) 0 (column true ps ++ e1) l start)
          (pairs_new old new) in
    let (wrote, left1, left2) = compare_bytes-emitted ps 0 0 0 [] [] e1 e2 refl (omega arith) in
    let fits : length old % 2 ^ 32 ≡ length old = omega arith in
    let fits' : length new % 2 ^ 32 ≡ length new = omega arith in
    rw (fits, fits')
      (ap finish same_run
        ∙ rw
            (
              wrote,
              left1,
              left2,
              longer_end-ends (length ps) (length old) (length new) e1 e2 l_old l_new
                  (one_end old new),
            )
            refl)
