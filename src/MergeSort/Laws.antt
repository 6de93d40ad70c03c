-- ===== src/MergeSort/Laws.antt =====
-- stlite/algorithm.hpp: what `MergeSort` makes of a list.
use mathlib.Core.Path.{subst}
use mathlib.Core.List.{Perm, perm_middle, append-nil}
use mathlib.Core.List.Perm
use bh_ticket_system.Base.{
  Option, some, ℕ, zero, suc, ◌-◌, ◌/◌, ◌≤◌, ◌≡◌, refl, ap, ◌∙◌, Bool, true, false, List, [], ◌∷◌,
  ◌++◌, leb, leb→le, le→leb, if-true, if-false, length, take, drop, arith, Bool-cases, inl, inr,
}
use bh_ticket_system.Tickets.Sorted.{NoneBefore, Sorted, NoneBefore-trans}
use bh_ticket_system.MergeSort.{merge, merge_sorted, sort_within, merge_sort}

module _ {A : Type 0} where
  take-append-drop : (n : ℕ) (xs : List A) → take n xs ++ drop n xs ≡ xs
  take-append-drop zero xs = refl
  take-append-drop (suc n) [] = refl
  take-append-drop (suc n) (x ∷ xs) = ap (λ (ys : List A). x ∷ ys) (take-append-drop n xs)

  length-take-le : (n : ℕ) (xs : List A) → length (take n xs) ≤ n
  length-take-le zero xs = omega arith
  length-take-le (suc n) [] = omega arith
  length-take-le (suc n) (x ∷ xs) = omega (arith, length-take-le n xs)

  length-drop : (n : ℕ) (xs : List A) → length (drop n xs) ≡ length xs - n
  length-drop zero xs = omega arith
  length-drop (suc n) [] = omega arith
  length-drop (suc n) (x ∷ xs) = omega (arith, length-drop n xs)

module _ {A : Type 0} (cmp : A → A → Bool) where
  merge-left :
      (x y : A) (xs ys : List A)
      → cmp x y ≡ true
      → merge cmp (x ∷ xs) (y ∷ ys) ≡ x ∷ merge cmp xs (y ∷ ys)
  unfolding merge
  merge-left x y xs ys e = if-true (cmp x y) _ _ e

  merge-right :
      (x y : A) (xs ys : List A)
      → cmp x y ≡ false
      → merge cmp (x ∷ xs) (y ∷ ys) ≡ y ∷ merge cmp (x ∷ xs) ys
  unfolding merge
  merge-right x y xs ys e = if-false (cmp x y) _ _ e

  merge-Perm : (xs ys : List A) → Perm (merge cmp xs ys) (xs ++ ys)
  unfolding merge
  merge-Perm [] ys = Perm.rfl
  merge-Perm (x ∷ xs) [] = rw (append-nil xs) Perm.rfl
  merge-Perm (x ∷ xs) (y ∷ ys) = elim (Bool-cases (cmp x y)) [
    | inl e ↦ rw e (Perm.cons x (merge-Perm xs (y ∷ ys)))
    | inr e ↦
        rw e
          (Perm.trans (Perm.cons y (merge-Perm (x ∷ xs) ys)) (Perm.symm (perm_middle (x ∷ xs) ys)))
  ]

  -- A run of `MergeSort` on a list that is not short is made of the runs on its halves.
  sort_within_long :
      (fuel : ℕ) (xs ls rs : List A)
      → 2 ≤ length xs
      → sort_within fuel cmp (take (length xs / 2) xs) ≡ some ls
      → sort_within fuel cmp (drop (length xs / 2) xs) ≡ some rs
      → sort_within (suc fuel) cmp xs ≡ some (merge cmp ls rs)
  unfolding sort_within merge_sorted
  sort_within_long fuel xs ls rs long left right =
      if-false (leb (length xs) 1) (some xs) _ (ground arith)
      ∙ (ap
            (λ (o : Option (List A)).
              merge_sorted cmp o (sort_within fuel cmp (drop (length xs / 2) xs)))
            left
          ∙ ap (λ (o : Option (List A)). merge_sorted cmp (some ls) o) right)

  sort_within_short :
      (fuel : ℕ) (xs : List A) → length xs ≤ 1 → sort_within (suc fuel) cmp xs ≡ some xs
  unfolding sort_within
  sort_within_short fuel xs short = if-true (leb (length xs) 1) _ _ (le→leb _ _ short)

  halves-Perm :
      (xs ls rs : List A)
      → Perm ls (take (length xs / 2) xs)
      → Perm rs (drop (length xs / 2) xs)
      → Perm (merge cmp ls rs) xs
  halves-Perm xs ls rs left right = Perm.trans (merge-Perm ls rs) (
      Perm.trans (Perm.append left right) (
        subst (Perm (take (length xs / 2) xs ++ drop (length xs / 2) xs))
          (take-append-drop (length xs / 2) xs) Perm.rfl))

  module _ (asym : (a b : A) → cmp a b ≡ true → cmp b a ≡ false)
      (neg_trans : (a b c : A) → cmp b a ≡ false → cmp c b ≡ false → cmp c a ≡ false) where
    NoneBefore-merge :
        (z : A) (xs ys : List A)
        → NoneBefore cmp z xs
        → NoneBefore cmp z ys
        → NoneBefore cmp z (merge cmp xs ys)
    unfolding merge
    NoneBefore-merge z [] ys bx by = by
    NoneBefore-merge z (x ∷ xs) [] bx by = bx
    NoneBefore-merge z (x ∷ xs) (y ∷ ys) (bx, bxs) (by, bys) = elim (Bool-cases (cmp x y)) [
      | inl e ↦ rw e (bx, NoneBefore-merge z xs (y ∷ ys) bxs (by, bys))
      | inr e ↦ rw e (by, NoneBefore-merge z (x ∷ xs) ys (bx, bxs) bys)
    ]

    merge-Sorted : (xs ys : List A) → Sorted cmp xs → Sorted cmp ys → Sorted cmp (merge cmp xs ys)
    unfolding merge
    merge-Sorted [] ys sx sy = sy
    merge-Sorted (x ∷ xs) [] sx sy = sx
    merge-Sorted (x ∷ xs) (y ∷ ys) (bx, sx) (by, sy) = elim (Bool-cases (cmp x y)) [
      | inl e ↦
          let first = asym x y e in
          rw e (
            NoneBefore-merge x xs (y ∷ ys) bx
                (first, NoneBefore-trans cmp asym neg_trans x y ys first by),
            merge-Sorted xs (y ∷ ys) sx (by, sy),
          )
      | inr e ↦ rw e (
        NoneBefore-merge y (x ∷ xs) ys (e, NoneBefore-trans cmp asym neg_trans y x xs e bx) by,
        merge-Sorted (x ∷ xs) ys (bx, sx) sy,
      )
    ]

    short-Sorted : (xs : List A) → length xs ≤ 1 → Sorted cmp xs
    short-Sorted [] h = tt
    short-Sorted (x ∷ []) h = (tt, tt)
    short-Sorted (x ∷ y ∷ xs) h = absurd (omega arith)

    sort_within-Sorted :
        (fuel : ℕ) (xs : List A)
        → length xs ≤ fuel
        → (ys : List A) × (sort_within (suc fuel) cmp xs ≡ some ys) × Perm ys xs × Sorted cmp ys
    sort_within-Sorted zero xs small =
        (xs, sort_within_short zero xs (omega arith), Perm.rfl, short-Sorted xs (omega arith))
    sort_within-Sorted (suc fuel) xs small = elim (Bool-cases (leb (length xs) 1)) [
      | inl short ↦
          let few = leb→le _ _ short in
          (xs, sort_within_short (suc fuel) xs few, Perm.rfl, short-Sorted xs few)
      | inr long ↦
          let n = length xs in
          let two : 2 ≤ n = ground (arith, long) in
          let (ls, left, perm_l, sorted_l) =
            sort_within-Sorted fuel (take (n / 2) xs) (omega (arith, length-take-le (n / 2) xs)) in
          let (rs, right, perm_r, sorted_r) =
            sort_within-Sorted fuel (drop (n / 2) xs) (omega (arith, length-drop (n / 2) xs)) in
          (
            merge cmp ls rs,
            sort_within_long (suc fuel) xs ls rs two left right,
            halves-Perm xs ls rs perm_l perm_r,
            merge-Sorted ls rs sorted_l sorted_r,
          )
    ]

    -- `MergeSort` comes to its end, with the elements that it was given, each as often, and none
    -- precedes one in front of it, for a comparison that is a strict order in which elements that
    -- neither precedes the other are alike.
    pub merge_sort-Sorted :
        (xs : List A) → (ys : List A) × (merge_sort cmp xs ≡ some ys) × Perm ys xs × Sorted cmp ys
    unfolding merge_sort
    merge_sort-Sorted xs = sort_within-Sorted (length xs) xs (omega arith)
