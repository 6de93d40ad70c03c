-- ===== src/MergeSort.antt =====
-- stlite/algorithm.hpp: `MergeSort`. The memory from `beg` to `end` is a list, and so is each half.
pub mod Laws
pub mod Examples
use bh_ticket_system.Base.{
  ℕ, zero, suc, ◌/◌, Bool, Option, none, some, List, [], ◌∷◌, leb, if◌then◌else◌, length, take,
  drop,
}

-- The three loops that fill `tmp`.
pub merge {ℓ} : {A : Type ℓ} → (A → A → Bool) → List A → List A → List A
merge cmp [] ys = ys
merge cmp (x ∷ xs) [] = x ∷ xs
merge cmp (x ∷ xs) (y ∷ ys) =
    let left = merge cmp xs (y ∷ ys) in
    let right = merge cmp (x ∷ xs) ys in if cmp x y then x ∷ left else y ∷ right

-- The loops, once both calls of `MergeSort` have come to their ends.
pub merge_sorted {ℓ} :
    {A : Type ℓ} → (A → A → Bool) → Option (List A) → Option (List A) → Option (List A)
unfolding merge
merge_sorted cmp (some left) (some right) = some (merge cmp left right)
merge_sorted cmp _ _ = none

-- `MergeSort`, where at most `fuel` calls may stand inside one another: `none` is a run that has not
-- come to its end.
unfoldable pub sort_within {ℓ} : {A : Type ℓ} → ℕ → (A → A → Bool) → List A → Option (List A)
unfolding merge_sorted
sort_within zero cmp xs = none
sort_within (suc fuel) cmp xs =
    let len = length xs in
    let left = sort_within fuel cmp (take (len / 2) xs) in
    let right = sort_within fuel cmp (drop (len / 2) xs) in
    if leb len 1 then some xs else merge_sorted cmp left right

unfoldable pub merge_sort {ℓ} : {A : Type ℓ} → (A → A → Bool) → List A → Option (List A)
unfolding sort_within
merge_sort cmp xs = sort_within (suc (length xs)) cmp xs
