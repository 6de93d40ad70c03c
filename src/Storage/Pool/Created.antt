-- ===== src/Storage/Pool/Created.antt =====
-- storage/src/buffer_pool_manager.cpp: the parts of a new pool agree.
use mathlib.Core.Path.{subst}
use bh_ticket_system.Base.{
  ℕ, zero, suc, ◌+◌, ◌^◌, ◌≤◌, ◌<◌, ◌≡◌, refl, sym, ap, ◌∙◌, true, get_or, arith, Bool-cases, inl,
  inr, ◌==◌, ==_iff, hash_eq, get_elem?,
}
use bh_ticket_system.Base.Map.{get}
use bh_ticket_system.Storage.Replacer.{record_of}
use bh_ticket_system.Storage.Replacer.Valid.{can_go}
use bh_ticket_system.Storage.Disk.Contract.{occurs}
use bh_ticket_system.Storage.Pool.{Page, fresh_page}
use bh_ticket_system.Base.{replicate, length-replicate}
use bh_ticket_system.Storage.Replacer.{fresh_record, new_replacer, LrukRecord}
use bh_ticket_system.Storage.Replacer.Valid.{new_replacer-Valid}
use bh_ticket_system.Storage.Disk.{Disk}
use bh_ticket_system.Storage.Pool.{new_pool, numbers_from}
use bh_ticket_system.Storage.Pool.Coherent.{Coherent, content}
use bh_ticket_system.Storage.Pool.Brought.{Young}

-- The numbers from `i` on are different, and lie where they should.
occurs_below : (i n f : ℕ) → f < i → occurs f (numbers_from i n) ≡ 0
occurs_below i zero f lt = refl
occurs_below i (suc n) f lt = ground (arith, occurs_below (i + 1) n f)

occurs-numbers_from : (i n f : ℕ) → occurs f (numbers_from i n) ≤ 1
occurs-numbers_from i zero f = omega arith
occurs-numbers_from i (suc n) f = elim (Bool-cases (i == f)) [
  | inl same ↦ ground (arith, occurs_below (i + 1) n f (ground (arith, (==_iff i f).0 same)))
  | inr other ↦ ground (arith, other, occurs-numbers_from (i + 1) n f)
]

numbers_from-lt : (i n f : ℕ) → 1 ≤ occurs f (numbers_from i n) → f < i + n
numbers_from-lt i zero f h = absurd (omega arith)
numbers_from-lt i (suc n) f h = elim (Bool-cases (i == f)) [
  | inl same ↦ ground (arith, (==_iff i f).0 same)
  | inr other ↦ omega (arith, numbers_from-lt (i + 1) n f (ground (arith, other, h)))
]

get_or_replicated : {A : Type 0} (n f : ℕ) (a : A) → get_or (replicate n a) f a ≡ a
get_or_replicated zero f a = refl
get_or_replicated (suc n) zero a = refl
get_or_replicated (suc n) (suc f) a = get_or_replicated n f a

module _ (n k : ℕ) (d : Disk) where
  new_record : (f : ℕ) → record_of (new_replacer n k) f ≡ fresh_record
  unfolding new_replacer
  new_record f = get_or_replicated n f fresh_record

  pub new_pool-Coherent : n < 2 ^ 32 → 1 ≤ k → d.is_open ≡ true → Coherent (new_pool n k d)
  unfolding new_pool get new_replacer
  new_pool-Coherent small positive open_now = record {
    lru = new_replacer-Valid n k small positive;
    sized = length-replicate n fresh_record ∙ sym (length-replicate n fresh_page);
    opened = open_now;
    held = λ p f e. absurd (ground (arith, e));
    stored = λ p f e. absurd (ground (arith, e));
    once = λ f. occurs-numbers_from 0 n f;
    free = λ f p i.
        let lt = numbers_from-lt 0 n f i in
        (
          subst (λ (m : ℕ). f < m) (sym (length-replicate n fresh_page)) (omega arith),
          λ e. ground (arith, e),
        );
    idle =
        λ f goes. absurd (ground (arith, ap (λ (x : LrukRecord). can_go x) (new_record f), goes));
    clean = λ p f e. absurd (ground (arith, e));
  }

  -- At first the contents are those of the disk.
  pub new_pool-content : (p : ℕ) → content (new_pool n k d) p ≡ get_elem? d.file p
  unfolding new_pool get
  new_pool-content p = refl

  pub new_pool-Young : Young (new_pool n k d)
  unfolding new_pool
  new_pool-Young = record {
    visits = λ f.
        subst (λ (x : LrukRecord). x.visit_count + 1 < 2 ^ 64) (sym (new_record f)) (omega arith);
    pins = λ f.
        subst (λ (x : Page). x.pin_count + 1 < 2 ^ 64) (sym (get_or_replicated n f fresh_page))
          (omega arith);
  }
