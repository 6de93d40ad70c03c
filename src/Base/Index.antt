-- ===== src/Base/Index.antt =====
-- The contract of `BPlusTreeIndexer`: entries in the order of their keys, one for each key. An
-- iterator is the list of the entries from its place on; the empty list is `end()`.
use mathlib.Core.Bool.{Bool}
use mathlib.Core.List.{List, [], ◌∷◌}
use bh_ticket_system.Base.Tests.{if◌then◌else◌}

pub record Order {ℓ} (K : Type ℓ) : Type ℓ where
  pub lt : K → K → Bool

abbrev pub Entries {ℓ κ} : Type ℓ → Type κ → Type (ℓ ⊔ κ)
Entries K V = List (K × V)

module _ {ℓ κ} {K : Type ℓ} {V : Type κ} ⦃o : Order K⦄ where
  unfoldable pub lower_bound : K → Entries K V → Entries K V
  lower_bound k [] = []
  lower_bound k ((j, v) ∷ m) = if o.lt j k then lower_bound k m else (j, v) ∷ m

  unfoldable pub insert : K → V → Entries K V → Entries K V
  insert k v [] = (k, v) ∷ []
  insert k v ((j, w) ∷ m) =
      if o.lt j k
      then (j, w) ∷ insert k v m
      else if o.lt k j
      then (k, v) ∷ (j, w) ∷ m
      else (j, v) ∷ m

  unfoldable pub remove : K → Entries K V → Entries K V
  remove k [] = []
  remove k ((j, w) ∷ m) =
      if o.lt j k then (j, w) ∷ remove k m else if o.lt k j then (j, w) ∷ m else m

  -- `lower_bound(k).SetValue(v)`
  unfoldable pub set_value : K → V → Entries K V → Entries K V
  set_value k v [] = []
  set_value k v ((j, w) ∷ m) = if o.lt j k then (j, w) ∷ set_value k v m else (j, v) ∷ m
