-- ===== src/Storage/Replacer/Victim.antt =====
-- storage/src/replacer.cpp: what frame `TryEvictLeastImportant` gives up.
use mathlib.Core.Path.{subst}
use bh_ticket_system.Base.{
  ℕ, ◌≤◌, ◌≡◌, refl, ap, ◌∙◌, Bool, true, false, Option, none, some, List, [], ◌∷◌, ◌==◌,
  if◌then◌else◌, length, arith, Bool-cases, Option-cases, inl, inr, ◌⊎◌,
}
use bh_ticket_system.Storage.Replacer.{
  Replacer, record_of, first_evitable, frames, try_evict_exact_frame, try_evict_least_important,
}
use bh_ticket_system.Storage.Replacer.Chain.{Chain, nodes_of}
use bh_ticket_system.Storage.Replacer.Valid.{
  times, can_go, evitable_count-ge, evitable_count-zero, Valid,
}
use bh_ticket_system.Storage.Replacer.Evict.{forgotten, try_evict_exact_frame-forgotten}

-- A frame of a chain is found only if it can be given up, and it stands in the chain.
pub first_evitable-some :
    (r : Replacer) (l : List ℕ) (f : ℕ)
    → first_evitable r l ≡ some f
    → ((record_of r f).evitable ≡ true) × (1 ≤ times f l)
unfolding first_evitable
first_evitable-some r [] f e = absurd (ground arith)
first_evitable-some r (g ∷ l) f e = elim (Bool-cases (record_of r g).evitable) [
  | inl goes ↦
      let same : g ≡ f = ground arith in
      (subst (λ (x : ℕ). (record_of r x).evitable ≡ true) same goes, ground arith)
  | inr stays ↦ let (goes, there) = first_evitable-some r l f (ground arith) in (goes, ground arith)
]

-- Where none is found, no frame of the chain can be given up.
pub first_evitable-none :
    (r : Replacer) (l : List ℕ) (f : ℕ)
    → first_evitable r l ≡ none
    → 1 ≤ times f l
    → (record_of r f).evitable ≡ false
unfolding first_evitable
first_evitable-none r [] f e there = absurd (omega arith)
first_evitable-none r (g ∷ l) f e there = elim (Bool-cases (record_of r g).evitable) [
  | inl goes ↦ absurd (ground arith)
  | inr stays ↦ elim (Bool-cases (g == f)) [
    | inl same ↦
        let one : g ≡ f = ground arith in
        subst (λ (x : ℕ). (record_of r x).evitable ≡ false) one stays
    | inr other ↦ first_evitable-none r l f (ground arith) (ground arith)
  ]
]

times-frames : (f : ℕ) (c : Chain) → times f (frames c) ≡ length (nodes_of f c)
unfolding frames
times-frames f [] = refl
times-frames f (n ∷ ns) = ground (arith, times-frames f ns)

-- A frame in one of the chains is known.
in_chain-active :
    (r : Replacer) (f : ℕ)
    → Valid r
    → (1 ≤ times f r.lru_chain) ⊎ (1 ≤ length (nodes_of f r.lruk_chain))
    → (record_of r f).active ≡ true
in_chain-active r f v there = elim (v.each f) [
  | inl t ↦ t.is_active
  | inr u ↦
      let gone = u.not_in_chain in
      let empty = ap (λ (c : Chain). length c) u.no_nodes in absurd (ground arith)
]

-- One that can be given up stands in the main chain.
pub can_go-in_chain :
    (r : Replacer) (f : ℕ)
    → Valid r
    → can_go (record_of r f) ≡ true
    → 1 ≤ length (nodes_of f r.lruk_chain)
can_go-in_chain r f v goes = elim (v.each f) [
  | inl t ↦ let visited = t.visited in let kept = t.kept in let k = v.positive in ground arith
  | inr u ↦ absurd (let gone = u.not_active in ground arith)
]

-- A frame of a chain that is found is given up.
found-forgotten :
    (r : Replacer) (f : ℕ)
    → Valid r
    → can_go (record_of r f) ≡ true
    → let (done, r') = try_evict_exact_frame f r in
      ◌≡◌ {A = Option ℕ × Replacer} (if done then some f else none, r') (some f, forgotten f r)
found-forgotten r f v goes =
    let answer : try_evict_exact_frame f r ≡ (true, forgotten f r) =
      try_evict_exact_frame-forgotten f r v ∙ rw goes refl in
    ap (λ (p : Bool × Replacer). (if p.0 then some f else none, p.1)) answer

-- Nothing can be given up; or the first such frame of the chain for less than k visits goes; or
-- there is none there, and the first of the main chain goes.
pub data Outcome (r : Replacer) (result : Option ℕ × Replacer) : Type 0 where
  nothing : result ≡ (none, r) → ((f : ℕ) → can_go (record_of r f) ≡ false) → Outcome r result
  of_few :
      (f : ℕ)
      → result ≡ (some f, forgotten f r)
      → can_go (record_of r f) ≡ true
      → first_evitable r r.lru_chain ≡ some f
      → Outcome r result
  of_many :
      (f : ℕ)
      → result ≡ (some f, forgotten f r)
      → can_go (record_of r f) ≡ true
      → first_evitable r r.lru_chain ≡ none
      → first_evitable r (frames r.lruk_chain) ≡ some f
      → Outcome r result

goes_of :
    (r : Replacer) (f : ℕ)
    → (record_of r f).active ≡ true
    → (record_of r f).evitable ≡ true
    → can_go (record_of r f) ≡ true
goes_of r f a e = ground arith

pub try_evict_least_important-Outcome :
    (r : Replacer) → Valid r → Outcome r (try_evict_least_important r)
unfolding try_evict_least_important
try_evict_least_important-Outcome r v = elim (Bool-cases (r.current_evitable_count == 0)) [
  | inl empty ↦
      let counted = v.counted in
      nothing (rw empty refl) (λ f. elim (Bool-cases (can_go (record_of r f))) [
        | inl goes ↦ absurd (ground (arith, evitable_count-ge r.hash_for_record f goes))
        | inr stays ↦ stays
      ])
  | inr more ↦ elim (Option-cases (first_evitable r r.lru_chain)) [
    | inr (f, found) ↦
        let (goes, there) = first_evitable-some r r.lru_chain f found in
        let known = in_chain-active r f v (inl there) in
        let can = goes_of r f known goes in
        of_few f (rw (more, found) (found-forgotten r f v can)) can found
    | inl none_few ↦ elim (Option-cases (first_evitable r (frames r.lruk_chain))) [
      | inr (f, found) ↦
          let (goes, there) = first_evitable-some r (frames r.lruk_chain) f found in
          let known = in_chain-active r f v (inr (omega (arith, times-frames f r.lruk_chain))) in
          let can = goes_of r f known goes in
          of_many f (rw (more, none_few, found) (found-forgotten r f v can)) can none_few found
      | inl none_at_all ↦
          let counted = v.counted in
          let (f, can) = evitable_count-zero r.hash_for_record (ground arith) in
          let there = can_go-in_chain r f v can in
          absurd (
            ground (
              arith,
              first_evitable-none r (frames r.lruk_chain) f none_at_all
                  (omega (arith, times-frames f r.lruk_chain)),
            ))
    ]
  ]
]
