-- ===== src/Storage/Disk/Sound.antt =====
-- storage/src/disk_manager.cpp: a page is given out or empty, and never both.
use mathlib.Core.Path.{subst}
use bh_ticket_system.Base.{
  ℕ, ◌+◌, ◌≤◌, ◌<◌, ◌≡◌, refl, List, [], ◌∷◌, ◌==◌, leb, leb→le, if◌then◌else◌, length, Bool-cases,
  inl, inr, arith, ==_iff,
}
use bh_ticket_system.Storage.Disk.Contract.{
  Call, alloc, dealloc, write, read, raw_write, raw_read, restart, Volume, Sound, InUse, MayCall,
  occurs, remove, serve, serve_alloc,
}

occurs-remove :
    (p q : ℕ) (is : List ℕ)
    → 1 ≤ occurs p is
    → occurs q (remove p is) + (if p == q then 1 else 0) ≡ occurs q is
occurs-remove p q [] h = absurd (omega arith)
occurs-remove p q (i ∷ is) h = elim (Bool-cases (i == p)) [
  | inl here ↦ ground (arith, here, (==_iff i p).0 here)
  | inr other ↦ ground (arith, other, occurs-remove p q is (ground (arith, other, h)))
]

pub length-remove : (p : ℕ) (is : List ℕ) → 1 ≤ occurs p is → length (remove p is) + 1 ≡ length is
length-remove p [] h = absurd (omega arith)
length-remove p (i ∷ is) h = elim (Bool-cases (i == p)) [
  | inl here ↦ rw here (omega arith)
  | inr other ↦ rw other (omega (arith, length-remove p is (ground (arith, other, h))))
]

-- A page behind the last one is neither given out nor empty.
pub occurs_fresh :
    (v : Volume) (p : ℕ) → Sound v → v.total < p → occurs p v.used + occurs p v.empty ≡ 0
occurs_fresh v p s lt = elim (Bool-cases (leb 1 (occurs p v.used + occurs p v.empty))) [
  | inl some_place ↦ absurd (omega (arith, (s.inside p (leb→le _ _ some_place)).1))
  | inr none_there ↦ ground (arith, none_there)
]

-- The page that `alloc` gives out was not in use.
pub serve_alloc-Sound :
    (v : Volume) (ps : List ℕ) → v.empty ≡ ps → Sound v → Sound (serve_alloc ps v).1
serve_alloc-Sound v [] e s =
    let all = s.all in
    record {
      once = λ p.
          let least = s.once p in
          elim (Bool-cases ((v.total + 1) == p)) [
            | inl new ↦
                let zero_now = occurs_fresh v p s (ground (arith, (==_iff _ _).0 new)) in
                rw new (omega arith)
            | inr old ↦ rw old (omega arith)
          ];
      inside = λ p i. elim (Bool-cases ((v.total + 1) == p)) [
        | inl new ↦ ground (arith, (==_iff _ _).0 new)
        | inr old ↦ let (above, below) = s.inside p (ground (arith, old, i)) in (above, omega arith)
      ];
      all = omega arith;
    }
serve_alloc-Sound v (q ∷ ps) e s = record {
  once = λ p.
      let least = subst (λ (is : List ℕ). occurs p v.used + occurs p is ≤ 1) e (s.once p) in
      omega arith;
  inside = λ p i. s.inside p (rw e (omega arith));
  all =
      let all = subst (λ (is : List ℕ). length v.used + length is ≡ v.total) e s.all in omega arith;
}

serve_dealloc-Sound : (v : Volume) (q : ℕ) → InUse v q → Sound v → Sound (serve (dealloc q) v).1
serve_dealloc-Sound v q u s = record {
  once = λ p. omega (arith, s.once p, occurs-remove q p v.used u);
  inside = λ p i. s.inside p (omega (arith, occurs-remove q p v.used u));
  all = omega (arith, s.all, length-remove q v.used u);
}

pub serve-Sound : (c : Call) (v : Volume) → MayCall v c → Sound v → Sound (serve c v).1
serve-Sound alloc v m s = serve_alloc-Sound v v.empty refl s
serve-Sound (dealloc p) v m s = serve_dealloc-Sound v p m s
serve-Sound (write p page) v m s = record { once = s.once; inside = s.inside; all = s.all }
serve-Sound (read p buffer) v m s = s
serve-Sound (raw_write bs) v m s = record { once = s.once; inside = s.inside; all = s.all }
serve-Sound raw_read v m s = s
serve-Sound restart v m s = s

pub in_use :
    (v : Volume) (p : ℕ) → Sound v → InUse v p → (1 ≤ p) × (p ≤ v.total) × (occurs p v.empty ≡ 0)
in_use v p s u =
    let (above, below) = s.inside p (omega arith) in (above, below, omega (arith, s.once p))

pub empty_inside : (v : Volume) → Sound v → (p : ℕ) → 1 ≤ occurs p v.empty → p ≤ v.total
empty_inside v s p i = (s.inside p (omega arith)).1
