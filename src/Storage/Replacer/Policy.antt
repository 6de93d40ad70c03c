-- ===== src/Storage/Replacer/Policy.antt =====
-- storage/src/replacer.cpp: `TryEvictLeastImportant` gives up the frame whose k-th last visit is
-- the longest ago.
use mathlib.Core.Path.{subst}
use bh_ticket_system.Base.{
  ℕ, suc, ◌+◌, ◌≤◌, ◌≡◌, refl, ap, ◌∙◌, Bool, true, false, ◌||◌, none, some, List, [], ◌∷◌, ltb,
  ◌==◌, length, arith, Bool-cases, inl, inr,
}
use bh_ticket_system.Storage.Replacer.{
  MainChainNode, Replacer, record_of, first_evitable, frames, try_evict_least_important,
}
use bh_ticket_system.Storage.Replacer.Chain.{Chain, nodes_of, Ordered, head_of, first-ge}
use bh_ticket_system.Storage.Replacer.Links.{first-some}
use bh_ticket_system.Storage.Replacer.Valid.{times, one_if, can_go, IsTracked, Valid}
use bh_ticket_system.Storage.Replacer.Evict.{forgotten, FrameValid-IsTracked}
use bh_ticket_system.Storage.Replacer.Victim.{
  nothing, of_few, of_many, try_evict_least_important-Outcome, can_go-in_chain, first_evitable-some,
  first_evitable-none,
}
use bh_ticket_system.Storage.Replacer.Recent.{
  Recent, nil, cons, InOrder, last_visit, number, Recent-ge,
}

-- A frame has had less than k visits, or its first one only.
abbrev pub few_visits : Replacer → ℕ → Bool
few_visits r f = let n : ℕ = (record_of r f).visit_count in ltb n r.k_value || (n == 1)

abbrev pub first_kept : Replacer → ℕ → ℕ
first_kept r f = number (record_of r f).head_node_in_main_chain

abbrev pub last_kept : Replacer → ℕ → ℕ
last_kept r f = number (record_of r f).tail_node_in_main_chain

-- Frames with few visits go first, the one visited last the longest ago; then the one whose k-th
-- last visit, the first that is kept, is the longest ago.
pub data GoesBefore (r : Replacer) (f g : ℕ) : Type 0 where
  fewer : few_visits r f ≡ true → few_visits r g ≡ false → GoesBefore r f g
  both_few :
      few_visits r f ≡ true
      → few_visits r g ≡ true
      → last_kept r f ≤ last_kept r g
      → GoesBefore r f g
  both_many :
      few_visits r f ≡ false
      → few_visits r g ≡ false
      → first_kept r f ≤ first_kept r g
      → GoesBefore r f g

tracked :
    (r : Replacer) (f : ℕ)
    → Valid r
    → can_go (record_of r f) ≡ true
    → IsTracked r.k_value (record_of r f) (nodes_of f r.lruk_chain) (times f r.lru_chain)
tracked r f v goes =
    FrameValid-IsTracked r.k_value (record_of r f) (nodes_of f r.lruk_chain) (times f r.lru_chain)
      (v.each f) (ground arith)

-- A frame that can go is no frame that cannot.
other_there :
    (r : Replacer) (h g : ℕ) (fs : List ℕ)
    → (record_of r h).evitable ≡ false
    → can_go (record_of r g) ≡ true
    → 1 ≤ times g (h ∷ fs)
    → 1 ≤ times g fs
other_there r h g fs cannot goes there = elim (Bool-cases (h == g)) [
  | inl same ↦
      let one : h ≡ g = ground arith in
      let cannot' : (record_of r g).evitable ≡ false =
        subst (λ (z : ℕ). (record_of r z).evitable ≡ false) one cannot in
      absurd (ground arith)
  | inr other ↦ ground arith
]

head-ge :
    (g lo hi : ℕ) (c : Chain)
    → Ordered lo hi c
    → 1 ≤ length (nodes_of g c)
    → lo ≤ number (head_of (nodes_of g c))
head-ge g lo hi c o there =
    let (n, rest, first) = first-some (nodes_of g c) there in
    rw first (first-ge g lo hi c rest n o first)

-- Of two frames of the chain for few visits that can go, the first that can go was visited earlier.
first_evitable-earliest :
    (r : Replacer) (hi lo : ℕ) (fs : List ℕ) (f g : ℕ)
    → Recent r.hash_for_record hi lo fs
    → first_evitable r fs ≡ some f
    → can_go (record_of r g) ≡ true
    → 1 ≤ times g fs
    → last_kept r f ≤ last_kept r g
unfolding first_evitable
first_evitable-earliest r hi lo [] f g nil found goes there = absurd (omega arith)
first_evitable-earliest r hi lo (h ∷ fs) f g (cons x last a b rest) found goes there =
    elim (Bool-cases (record_of r h).evitable) [
      | inl can ↦
          let one : h ≡ f = ground arith in
          let mine : last_visit r.hash_for_record f ≡ some x =
            subst (λ (z : ℕ). last_visit r.hash_for_record z ≡ some x) one last in
          rw mine (Recent-ge g (h ∷ fs) (cons x last (omega arith) b rest) there)
      | inr cannot ↦
          first_evitable-earliest r hi (suc x) fs f g rest (ground arith) goes
            (other_there r h g fs cannot goes there)
    ]

same_nodes :
    (r : Replacer) (f : ℕ) (n : MainChainNode) (ns : Chain)
    → (record_of r n.frame_id).evitable ≡ false
    → (record_of r f).evitable ≡ true
    → nodes_of f (n ∷ ns) ≡ nodes_of f ns
same_nodes r f n ns cannot can = elim (Bool-cases (n.frame_id == f)) [
  | inl same ↦
      let one : n.frame_id ≡ f = ground arith in
      let cannot' : (record_of r f).evitable ≡ false =
        subst (λ (z : ℕ). (record_of r z).evitable ≡ false) one cannot in
      absurd (ground arith)
  | inr other ↦ rw other refl
]

-- So for the main chain: the first node of a frame that can go is the first that is kept of it.
first_evitable-oldest :
    (r : Replacer) (hi lo : ℕ) (c : Chain) (f g : ℕ)
    → Ordered lo hi c
    → first_evitable r (frames c) ≡ some f
    → can_go (record_of r g) ≡ true
    → 1 ≤ length (nodes_of g c)
    → number (head_of (nodes_of f c)) ≤ number (head_of (nodes_of g c))
unfolding first_evitable frames
first_evitable-oldest r hi lo [] f g o found goes there = absurd (omega arith)
first_evitable-oldest r hi lo (n ∷ ns) f g (a, b, o) found goes there =
    elim (Bool-cases (record_of r n.frame_id).evitable) [
      | inl can ↦
          let one : n.frame_id ≡ f = ground arith in
          let mine : number (head_of (nodes_of f (n ∷ ns))) ≡ n.node = ground arith in
          rw mine (head-ge g n.node hi (n ∷ ns) (omega arith, b, o) there)
      | inr cannot ↦
          let found' : first_evitable r (frames ns) ≡ some f = ground arith in
          let f_can = (first_evitable-some r (frames ns) f found').0 in
          let f_other = same_nodes r f n ns cannot f_can in
          let g_other = same_nodes r g n ns cannot (ground arith) in
          rw (f_other, g_other)
            (first_evitable-oldest r hi (n.node + 1) ns f g o found' goes (rw g_other at there))
    ]

-- The chain for few visits holds the frames with few visits.
few-in_chain :
    (r : Replacer) (f : ℕ)
    → Valid r
    → can_go (record_of r f) ≡ true
    → times f r.lru_chain ≡ one_if (few_visits r f)
few-in_chain r f v goes = let t = tracked r f v goes in t.in_chain ∙ ap one_if t.few

few_goes :
    (r : Replacer) (f g : ℕ)
    → Valid r
    → InOrder r
    → can_go (record_of r f) ≡ true
    → first_evitable r r.lru_chain ≡ some f
    → can_go (record_of r g) ≡ true
    → GoesBefore r f g
few_goes r f g v o can found goes =
    let there = (first_evitable-some r r.lru_chain f found).1 in
    let f_in = few-in_chain r f v can in
    let g_in = few-in_chain r g v goes in
    elim (Bool-cases (few_visits r f)) [
      | inr many ↦
          absurd (let none_there : times f r.lru_chain ≡ 0 = f_in ∙ (ap one_if many) in omega arith)
      | inl few ↦ elim (Bool-cases (few_visits r g)) [
        | inr many ↦ fewer few many
        | inl few' ↦
            let one : times g r.lru_chain ≡ 1 = g_in ∙ ap one_if few' in
            both_few few few'
              (first_evitable-earliest r r.next_node 0 r.lru_chain f g o found goes (omega arith))
      ]
    ]

many_visits :
    (r : Replacer) (g : ℕ)
    → Valid r
    → first_evitable r r.lru_chain ≡ none
    → can_go (record_of r g) ≡ true
    → few_visits r g ≡ false
many_visits r g v none_few goes = elim (Bool-cases (few_visits r g)) [
  | inr many ↦ many
  | inl few ↦
      let there : times g r.lru_chain ≡ 1 = few-in_chain r g v goes ∙ ap one_if few in
      absurd
        (let stays = first_evitable-none r r.lru_chain g none_few (omega arith) in ground arith)
]

many_goes :
    (r : Replacer) (f g : ℕ)
    → Valid r
    → can_go (record_of r f) ≡ true
    → first_evitable r r.lru_chain ≡ none
    → first_evitable r (frames r.lruk_chain) ≡ some f
    → can_go (record_of r g) ≡ true
    → GoesBefore r f g
many_goes r f g v can none_few found goes =
    let older =
      first_evitable-oldest r r.next_node 0 r.lruk_chain f g v.ordered found goes
        (can_go-in_chain r g v goes) in
    let at_f = ap number (tracked r f v can).head in
    let at_g = ap number (tracked r g v goes).head in
    both_many (many_visits r f v none_few can) (many_visits r g v none_few goes)
      (rw (at_f, at_g) older)

-- The frame that is given up can go, and it goes before every other frame that can.
pub try_evict_least_important-GoesBefore :
    (r r' : Replacer) (f g : ℕ)
    → Valid r
    → InOrder r
    → try_evict_least_important r ≡ (some f, r')
    → can_go (record_of r g) ≡ true
    → (can_go (record_of r f) ≡ true) × GoesBefore r f g
try_evict_least_important-GoesBefore r r' f g v o answer goes =
    elim (try_evict_least_important-Outcome r v) [
      | nothing e none_can ↦ absurd (let no = none_can g in ground arith)
      | of_few f' e can found ↦
          let one : f' ≡ f = ground arith in
          let can' : can_go (record_of r f) ≡ true =
            subst (λ (z : ℕ). can_go (record_of r z) ≡ true) one can in
          (can', few_goes r f g v o can' (found ∙ ap (λ (z : ℕ). some z) one) goes)
      | of_many f' e can none_few found ↦
          let one : f' ≡ f = ground arith in
          let can' : can_go (record_of r f) ≡ true =
            subst (λ (z : ℕ). can_go (record_of r z) ≡ true) one can in
          (can', many_goes r f g v can' none_few (found ∙ ap (λ (z : ℕ). some z) one) goes)
    ]

-- If a frame can be given up, one is.
pub try_evict_least_important-some :
    (r : Replacer) (g : ℕ)
    → Valid r
    → can_go (record_of r g) ≡ true
    → (f : ℕ) × (try_evict_least_important r ≡ (some f, forgotten f r))
      × (can_go (record_of r f) ≡ true)
try_evict_least_important-some r g v goes = elim (try_evict_least_important-Outcome r v) [
  | nothing e none_can ↦ absurd (let no = none_can g in ground arith)
  | of_few f e can found ↦ (f, e, can)
  | of_many f e can none_few found ↦ (f, e, can)
]
