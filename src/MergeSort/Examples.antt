-- ===== src/MergeSort/Examples.antt =====
-- stlite/algorithm.hpp: a list of three numbers.
use mathlib.Core.List.{Perm}
use bh_ticket_system.Base.{ℕ, ◌≡◌, refl, true, false, none, some, List, [], ◌∷◌, ltb, arith}
use bh_ticket_system.Tickets.Sorted.{Sorted}
use bh_ticket_system.MergeSort.{sort_within, merge_sort}
use bh_ticket_system.MergeSort.Laws.{merge_sort-Sorted}

abbrev three : List ℕ
three = 3 ∷ 1 ∷ 2 ∷ []

three_sorted : merge_sort ltb three ≡ some (1 ∷ 2 ∷ 3 ∷ [])
unfolding merge_sort
three_sorted = refl

-- Two calls inside one another are too few.
three_too_deep : sort_within 2 ltb three ≡ none
unfolding sort_within
three_too_deep = refl

ltb_asym : (a b : ℕ) → ltb a b ≡ true → ltb b a ≡ false
ltb_asym a b e = ground (arith, e)

ltb_neg_trans : (a b c : ℕ) → ltb b a ≡ false → ltb c b ≡ false → ltb c a ≡ false
ltb_neg_trans a b c e f = ground (arith, e, f)

merge_sort-Sorted_example :
    (ys : List ℕ) × (merge_sort ltb three ≡ some ys) × Perm ys three × Sorted ltb ys
merge_sort-Sorted_example = merge_sort-Sorted ltb ltb_asym ltb_neg_trans three
