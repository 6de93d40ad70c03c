-- ===== src/Snapshot/Diff/RoundTrip.antt =====
-- dataguard/src/snapshot.cpp: `ApplyPatch` undoes and redoes what `GenerateDiff` has written.
use mathlib.Core.List.{append-nil}
use bh_ticket_system.Base.{
  ℕ, zero, suc, ◌+◌, ◌-◌, ◌%◌, ◌^◌, ◌<◌, ◌≤◌, ◌≡◌, refl, ap, ◌∙◌, sym, Bool, true, false, not, [],
  ◌∷◌, ◌++◌, Bytes, if◌then◌else◌, length, arith, Result, ok, ◌>>=◌, length-append, inl, inr, ◌⊎◌,
}
use bh_ticket_system.Snapshot.Diff.{
  Patching, patch_loop, copy_until, patch_end, or_equal_mark, generate_diff, apply_patch,
}
use bh_ticket_system.Snapshot.Diff.Emitted.{Pairs, column, length-column, emitted}
use bh_ticket_system.Snapshot.Diff.Steps.{copy_until-same}
use bh_ticket_system.Snapshot.Diff.Arrive.{arrive}
use bh_ticket_system.Snapshot.Diff.Generated.{
  pairs, end_of, pairs_old, pairs_new, length-pairs, one_end, length-end_of, min_swap,
  generate_diff-emitted, ends,
}

copied_part :
    (p : Patching) (same ys : Bytes) (target : ℕ)
    → p.reader ≡ same ++ ys
    → p.reader_cursor + length same ≡ target
    → (copy_until target p).written ≡ (p.written ++ same) ++ []
copied_part p same ys target reads place =
    ap (λ (q : Patching). q.written) (copy_until-same p same ys target reads place)
    ∙ sym (append-nil (p.written ++ same))

copied_all :
    (p : Patching) (same : Bytes) (target : ℕ)
    → p.reader ≡ same ++ []
    → p.reader_cursor + length same ≡ target
    → (q : Patching) × (◌≡◌ {A = Result Patching} (ok (copy_until target p)) (ok q))
      × (q.written ≡ (p.written ++ same) ++ [])
copied_all p same target reads place =
    (copy_until target p, refl, copied_part p same [] target reads place)

-- The marks behind the stretches leave the loop with the end of the one file or the other.
patch_loop-ends :
    (is_reverse : Bool) (size fuel k : ℕ) (p : Patching) (same e1 e2 : Bytes)
    → (e1 ≡ []) ⊎ (e2 ≡ [])
    → length (ends e1 e2) ≤ fuel
    → p.reader ≡ same ++ (if is_reverse then e2 else e1)
    → p.reader_cursor + length same ≡ k
    → size ≡ k + length (if is_reverse then e2 else e1)
    → size < 2 ^ 32
    → (q : Patching) × (patch_loop fuel is_reverse size p (ends e1 e2) ≡ ok q)
      × (q.written ≡ (p.written ++ same) ++ (if is_reverse then e1 else e2))
unfolding patch_loop patch_end ends
patch_loop-ends true size fuel k p same [] [] one enough reads place sized small =
    copied_all p same size reads (omega arith)
patch_loop-ends false size fuel k p same [] [] one enough reads place sized small =
    copied_all p same size reads (omega arith)
patch_loop-ends true size (suc fuel) k p same (o ∷ e1) [] one enough reads place sized small = (
  _,
  refl,
  ap (λ (q : Patching). q.written ++ o ∷ e1) (copy_until-same p same [] size reads (omega arith)),
)
patch_loop-ends false size (suc fuel) k p same (o ∷ e1) [] one enough reads place sized small = (
  _,
  refl,
  copied_part p same (o ∷ e1) ((size + 2 ^ 64 - length (o ∷ e1)) % 2 ^ 64) reads (omega arith),
)
patch_loop-ends true size (suc fuel) k p same [] (n ∷ e2) one enough reads place sized small = (
  _,
  refl,
  copied_part p same (n ∷ e2) ((size + 2 ^ 64 - length (n ∷ e2)) % 2 ^ 64) reads (omega arith),
)
patch_loop-ends false size (suc fuel) k p same [] (n ∷ e2) one enough reads place sized small = (
  _,
  refl,
  ap (λ (q : Patching). q.written ++ n ∷ e2) (copy_until-same p same [] size reads (omega arith)),
)
patch_loop-ends is_reverse size fuel k p same (o ∷ e1) (n ∷ e2) (inl none) enough reads place sized
      small =
    absurd (ground arith)
patch_loop-ends is_reverse size fuel k p same (o ∷ e1) (n ∷ e2) (inr none) enough reads place sized
      small =
    absurd (ground arith)
patch_loop-ends is_reverse size zero k p same (o ∷ e1) [] one enough reads place sized small =
    absurd (omega arith)
patch_loop-ends is_reverse size zero k p same [] (n ∷ e2) one enough reads place sized small =
    absurd (omega arith)

-- The bytes of a file, read from its beginning.
whole_file : Bytes → Patching
whole_file file = record { reader = file; reader_cursor = 0; written = [] }

source-length :
    (is_reverse : Bool) (ps : Pairs) (e : Bytes)
    → length (column is_reverse ps ++ e) ≡ length ps + length e
source-length is_reverse ps e =
    omega (arith, length-append (column is_reverse ps) e, length-column is_reverse ps)

-- The loop turns the one file into the other, for the pairs of their bytes and their ends.
patch_loop-files :
    (is_reverse : Bool) (ps : Pairs) (e1 e2 : Bytes)
    → (e1 ≡ []) ⊎ (e2 ≡ [])
    → length ps + length (if is_reverse then e2 else e1) < 2 ^ 32
    → let buf = emitted 0 [] ps ++ ends e1 e2 in
      let file = column (not is_reverse) ps ++ (if is_reverse then e2 else e1) in
      (q : Patching) × (patch_loop (length buf) is_reverse (length file) (whole_file file) buf
        ≡ ok q)
      × (q.written ≡ column is_reverse ps ++ (if is_reverse then e1 else e2))
unfolding whole_file
patch_loop-files is_reverse ps e1 e2 one small =
    let e = if is_reverse then e2 else e1 in
    let file = column (not is_reverse) ps ++ e in
    let buf = emitted 0 [] ps ++ ends e1 e2 in
    let sized = source-length (not is_reverse) ps e in
    let r =
      arrive is_reverse (length file) (length buf) 0 (whole_file file) [] ps [] (ends e1 e2) e refl
        refl (omega arith) (omega arith) in
    let (q, done, wrote) =
      patch_loop-ends is_reverse (length file) r.fuel_left (length ps) r.reached r.same e1 e2 one
        r.enough r.reads_on (r.at_end ∙ omega arith) sized (omega arith) in
    (q, r.steps ∙ done, wrote ∙ ap (λ (l : Bytes). l ++ (if is_reverse then e1 else e2)) r.writes)

-- The mark of equal files is read as the end of the buffer.
apply_patch-mark :
    (is_reverse : Bool) (file buf : Bytes) (q : Patching)
    → length file < 2 ^ 32
    → patch_loop (length buf) is_reverse (length file) (whole_file file) buf ≡ ok q
    → apply_patch is_reverse file (or_equal_mark buf) ≡ ok q.written
unfolding apply_patch patch_loop or_equal_mark whole_file
apply_patch-mark is_reverse file [] q small e =
    let fits : length file % 2 ^ 32 ≡ length file = omega arith in
    rw fits (ap (λ (r : Result Patching). r >>= λ p. ok p.written) e)
apply_patch-mark is_reverse file (b ∷ buf) q small e =
    let written = λ (r : Result Patching). r >>= λ p. ok p.written in
    let fits : length file % 2 ^ 32 ≡ length file = omega arith in
    ap
      (λ (size : ℕ).
        written (patch_loop (length (b ∷ buf)) is_reverse size (whole_file file) (b ∷ buf)))
      fits
    ∙ ap written e

patched :
    (is_reverse : Bool) (ps : Pairs) (e1 e2 : Bytes)
    → (e1 ≡ []) ⊎ (e2 ≡ [])
    → length ps + length (if is_reverse then e2 else e1) < 2 ^ 32
    → apply_patch is_reverse
        (column (not is_reverse) ps ++ (if is_reverse then e2 else e1))
        (or_equal_mark (emitted 0 [] ps ++ ends e1 e2))
      ≡ ok (column is_reverse ps ++ (if is_reverse then e1 else e2))
patched is_reverse ps e1 e2 one small =
    let file = column (not is_reverse) ps ++ (if is_reverse then e2 else e1) in
    let buf = emitted 0 [] ps ++ ends e1 e2 in
    let (q, done, wrote) = patch_loop-files is_reverse ps e1 e2 one small in
    let sized = source-length (not is_reverse) ps (if is_reverse then e2 else e1) in
    apply_patch-mark is_reverse file buf q (omega arith) done ∙ ap (λ (l : Bytes). ok l) wrote

-- `ApplyPatch` makes the new file of the old one and what `GenerateDiff` has written for the two,
-- and in reverse the old file of the new one, for files below 4 GiB.
pub apply_patch-generate_diff :
    (old new : Bytes)
    → length old < 2 ^ 32
    → length new < 2 ^ 32
    → (apply_patch false old (generate_diff old new) ≡ ok new)
      × (apply_patch true new (generate_diff old new) ≡ ok old)
apply_patch-generate_diff old new small small' =
    let ps = pairs old new in
    let e1 = end_of old new in
    let e2 = end_of new old in
    let one = one_end old new in
    let l_old : length ps + length e1 ≡ length old =
      omega (arith, length-pairs old new, length-end_of old new) in
    let l_new : length ps + length e2 ≡ length new =
      omega
        (arith, length-pairs old new, length-end_of new old, min_swap (length old) (length new)) in
    let buf = or_equal_mark (emitted 0 [] ps ++ ends e1 e2) in
    rw (generate_diff-emitted old new small small') (
      ap (λ (l : Bytes). apply_patch false l buf) (pairs_old old new)
          ∙ patched false ps e1 e2 one (omega arith)
          ∙ ap (λ (l : Bytes). ok l) (sym (pairs_new old new)),
      ap (λ (l : Bytes). apply_patch true l buf) (pairs_new old new)
          ∙ patched true ps e1 e2 one (omega arith)
          ∙ ap (λ (l : Bytes). ok l) (sym (pairs_old old new)),
    )
