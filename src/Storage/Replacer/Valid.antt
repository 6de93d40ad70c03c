-- ===== src/Storage/Replacer/Valid.antt =====
-- storage/src/replacer.cpp: what holds of the records and the chains of a replacer.
use mathlib.Core.Path.{subst}
use bh_ticket_system.Base.{
  ℕ, zero, suc, ◌+◌, ◌-◌, ◌^◌, ◌≤◌, ◌<◌, ◌≡◌, ◌≢◌, refl, ap, sym, Bool, true, false, ◌&&◌, ◌||◌,
  List, [], ◌∷◌, ◌++◌, ltb, ◌==◌, if◌then◌else◌, length, get_or, set, replicate, arith, Bool-cases,
  inl, inr, ◌⊎◌, get_or-set_self, get_or-set_ne, length-set,
}
use bh_ticket_system.Storage.Replacer.{
  LrukRecord, Replacer, record_of, fresh_record, remove_frame, new_replacer,
}
use bh_ticket_system.Storage.Replacer.Chain.{Chain, nodes_of, Ordered, Linked, head_of, last_of}

-- How often a frame stands in the chain for less than k visits.
abbrev pub times : ℕ → List ℕ → ℕ
times f [] = 0
times f (g ∷ gs) = if g == f then suc (times f gs) else times f gs

pub times-append :
    (f g : ℕ) (l : List ℕ) → times f (l ++ g ∷ []) ≡ times f l + (if g == f then 1 else 0)
times-append f g [] = ground arith
times-append f g (x ∷ l) = ground (arith, times-append f g l)

pub times-remove_frame_self : (f : ℕ) (l : List ℕ) → times f (remove_frame f l) ≡ times f l - 1
unfolding remove_frame
times-remove_frame_self f [] = refl
times-remove_frame_self f (x ∷ l) = ground (arith, times-remove_frame_self f l)

pub times-remove_frame_ne : (f g : ℕ) (l : List ℕ) → f ≢ g → times g (remove_frame f l) ≡ times g l
unfolding remove_frame
times-remove_frame_ne f g [] ne = refl
times-remove_frame_ne f g (x ∷ l) ne = ground (arith, times-remove_frame_ne f g l)

abbrev pub one_if : Bool → ℕ
one_if b = if b then 1 else 0

abbrev pub can_go : LrukRecord → Bool
can_go h = h.active && h.evitable

-- The number of frames that can be given up.
abbrev pub evitable_count : List LrukRecord → ℕ
evitable_count [] = 0
evitable_count (h ∷ hs) = one_if (can_go h) + evitable_count hs

pub evitable_count-set :
    (hs : List LrukRecord) (f : ℕ) (h : LrukRecord)
    → f < length hs
    → evitable_count (set hs f h) + one_if (can_go (get_or hs f fresh_record))
      ≡ evitable_count hs + one_if (can_go h)
evitable_count-set [] f h lt = absurd (omega arith)
evitable_count-set (x ∷ hs) zero h lt = omega arith
evitable_count-set (x ∷ hs) (suc f) h lt = omega (arith, evitable_count-set hs f h (omega arith))

pub evitable_count-le : (hs : List LrukRecord) → evitable_count hs ≤ length hs
evitable_count-le [] = omega arith
evitable_count-le (x ∷ hs) = ground (arith, evitable_count-le hs)

pub evitable_count-ge :
    (hs : List LrukRecord) (f : ℕ)
    → can_go (get_or hs f fresh_record) ≡ true
    → 1 ≤ evitable_count hs
evitable_count-ge [] f e = absurd (ground arith)
evitable_count-ge (x ∷ hs) zero e = ground arith
evitable_count-ge (x ∷ hs) (suc f) e = omega (arith, evitable_count-ge hs f e)

pub evitable_count-zero :
    (hs : List LrukRecord)
    → 1 ≤ evitable_count hs
    → (f : ℕ) × (can_go (get_or hs f fresh_record) ≡ true)
evitable_count-zero [] e = absurd (omega arith)
evitable_count-zero (x ∷ hs) e = elim (Bool-cases (can_go x)) [
  | inl goes ↦ (0, goes)
  | inr stays ↦ let (f, found) = evitable_count-zero hs (ground arith) in (suc f, found)
]

-- A frame that is known lies in the pool.
pub active-lt :
    (hs : List LrukRecord) (f : ℕ) → (get_or hs f fresh_record).active ≡ true → f < length hs
active-lt [] f e = absurd (ground arith)
active-lt (x ∷ hs) zero e = omega arith
active-lt (x ∷ hs) (suc f) e = omega (arith, active-lt hs f e)

-- A frame whose visits are kept: the last k of them, or the only one.
pub record IsTracked (k : ℕ) (h : LrukRecord) (ns : Chain) (n : ℕ) : Type 0 where
  pub is_active : h.active ≡ true
  pub linked : Linked ns
  pub head : h.head_node_in_main_chain ≡ head_of ns
  pub tail : h.tail_node_in_main_chain ≡ last_of ns
  pub visited : 1 ≤ h.visit_count
  pub kept :
      (length ns ≡ h.visit_count) × (h.visit_count ≤ k) ⊎ (length ns ≡ k) × (k < h.visit_count)
  pub few : h.has_node_in_lru_chain ≡ (ltb h.visit_count k || (h.visit_count == 1))
  pub in_chain : n ≡ one_if h.has_node_in_lru_chain

-- A frame of which nothing is kept.
pub record IsUnknown (h : LrukRecord) (ns : Chain) (n : ℕ) : Type 0 where
  pub not_active : h.active ≡ false
  pub no_nodes : ns ≡ []
  pub no_node : h.has_node_in_lru_chain ≡ false
  pub not_in_chain : n ≡ 0

abbrev pub FrameValid : ℕ → LrukRecord → Chain → ℕ → Type 0
FrameValid k h ns n = IsTracked k h ns n ⊎ IsUnknown h ns n

pub record Valid (r : Replacer) : Type 0 where
  pub small : length r.hash_for_record < 2 ^ 32
  pub positive : 1 ≤ r.k_value
  pub ordered : Ordered 0 r.next_node r.lruk_chain
  pub counted : r.current_evitable_count ≡ evitable_count r.hash_for_record
  pub each :
      (f : ℕ) → FrameValid r.k_value (record_of r f) (nodes_of f r.lruk_chain) (times f r.lru_chain)

fresh_all : (n f : ℕ) → get_or (replicate n fresh_record) f fresh_record ≡ fresh_record
fresh_all zero f = refl
fresh_all (suc n) zero = refl
fresh_all (suc n) (suc f) = fresh_all n f

none_evitable : (n : ℕ) → evitable_count (replicate n fresh_record) ≡ 0
none_evitable zero = refl
none_evitable (suc n) = omega (arith, none_evitable n)

length_fresh : (n : ℕ) → length (replicate n fresh_record) ≡ n
length_fresh zero = refl
length_fresh (suc n) = ap suc (length_fresh n)

-- A new replacer is valid.
pub new_replacer-Valid : (n k : ℕ) → n < 2 ^ 32 → 1 ≤ k → Valid (new_replacer n k)
unfolding new_replacer
new_replacer-Valid n k small positive = record {
  small = omega (arith, length_fresh n);
  positive = positive;
  ordered = tt;
  counted = omega (arith, none_evitable n);
  each = λ f.
      let e = fresh_all n f in
      inr (record {
        not_active = ap (λ (h : LrukRecord). h.active) e;
        no_nodes = refl;
        no_node = ap (λ (h : LrukRecord). h.has_node_in_lru_chain) e;
        not_in_chain = refl;
      });
}

-- The record of a frame, behind a write to it.
pub record_of-set_self :
    (hs : List LrukRecord) (frame f : ℕ) (h : LrukRecord)
    → frame < length hs
    → frame ≡ f
    → get_or (set hs frame h) f fresh_record ≡ h
record_of-set_self hs frame f h lt e = rw (← e) (get_or-set_self hs frame h fresh_record lt)

-- What is known of one frame is written anew, with the chains and the counters.
abbrev pub written : ℕ → LrukRecord → List ℕ → Chain → ℕ → ℕ → ℕ → Replacer → Replacer
written frame h lru chain count stamp next r = record r {
  hash_for_record = set r.hash_for_record frame h;
  lru_chain = lru;
  lruk_chain = chain;
  current_evitable_count = count;
  current_timestamp = stamp;
  next_node = next;
}

-- It suffices to look at that frame, where the chains hold for the others what they held.
pub written-Valid :
    (frame : ℕ) (h : LrukRecord) (lru : List ℕ) (chain : Chain) (count stamp next : ℕ)
    (r : Replacer)
    → Valid r
    → frame < length r.hash_for_record
    → Ordered 0 next chain
    → count + one_if (can_go (record_of r frame)) ≡ r.current_evitable_count + one_if (can_go h)
    → FrameValid r.k_value h (nodes_of frame chain) (times frame lru)
    → ((f : ℕ)
        → frame ≢ f
        → (nodes_of f chain ≡ nodes_of f r.lruk_chain) × (times f lru ≡ times f r.lru_chain))
    → Valid (written frame h lru chain count stamp next r)
written-Valid frame h lru chain count stamp next r v lt ordered counts one others =
    let total = evitable_count-set r.hash_for_record frame h lt in
    let c_lem = v.counted in
    record {
      small = omega (arith, v.small, length-set r.hash_for_record frame h);
      positive = v.positive;
      ordered = ordered;
      counted = ground arith;
      each = λ f. elim (Bool-cases (frame == f)) [
        | inl same ↦
            let e : frame ≡ f = ground arith in
            subst (λ (h : LrukRecord). FrameValid r.k_value h (nodes_of f chain) (times f lru))
              (sym (record_of-set_self r.hash_for_record frame f h lt e))
              (subst (λ (g : ℕ). FrameValid r.k_value h (nodes_of g chain) (times g lru)) e one)
        | inr other ↦
            let ne : frame ≢ f = λ e. absurd (ground arith) in
            let (same_nodes, same_times) = others f ne in
            subst (λ (h : LrukRecord). FrameValid r.k_value h (nodes_of f chain) (times f lru))
              (sym (get_or-set_ne r.hash_for_record frame f h fresh_record ne))
              (rw (same_nodes, same_times) (v.each f))
      ];
    }
