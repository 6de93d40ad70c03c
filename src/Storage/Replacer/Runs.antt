-- ===== src/Storage/Replacer/Runs.antt =====
-- storage/src/replacer.cpp: sequences of calls of a replacer.
use mathlib.Core.Path.{subst}
use bh_ticket_system.Base.{
  ℕ, zero, suc, ◌+◌, ◌^◌, ◌≤◌, ◌<◌, ◌≡◌, ap, ◌∙◌, sym, Bool, true, Option, List, [], ◌∷◌, length,
  get_or, set, arith, Bool-cases, inl, inr, length-set, length-replicate, replicate,
}
use bh_ticket_system.Storage.Replacer.{
  LrukRecord, Replacer, record_of, fresh_record, set_evictable, try_evict_exact_frame,
  try_evict_least_important, record_access, new_replacer,
}
use bh_ticket_system.Storage.Replacer.Valid.{can_go, Valid, new_replacer-Valid}
use bh_ticket_system.Storage.Replacer.Evict.{
  forgotten, forgotten-Valid, set_evictable-Valid, try_evict_exact_frame-forgotten, marked,
  as_before, set_evictable-Marked,
}
use bh_ticket_system.Storage.Replacer.Access.{record_access-Valid}
use bh_ticket_system.Storage.Replacer.Visited.{visited, record_access-Visited}
use bh_ticket_system.Storage.Replacer.Victim.{
  nothing, of_few, of_many, try_evict_least_important-Outcome,
}
use bh_ticket_system.Storage.Replacer.Recent.{
  InOrder, new_replacer-InOrder, set_evictable-InOrder, forgotten-InOrder, record_access-InOrder,
}

pub data Call : Type 0 where
  access : ℕ → Call
  evictable : ℕ → Bool → Call
  evict_exact : ℕ → Call
  evict_least : Call

pub call : Call → Replacer → Replacer
unfolding record_access set_evictable try_evict_exact_frame try_evict_least_important
call (access f) r = record_access f r
call (evictable f b) r = set_evictable f b r
call (evict_exact f) r = (try_evict_exact_frame f r).1
call evict_least r = (try_evict_least_important r).1

unfoldable pub calls : List Call → Replacer → Replacer
unfolding call
calls [] r = r
calls (c ∷ cs) r = calls cs (call c r)

-- The frames that are visited lie in the pool.
abbrev pub InPool : ℕ → List Call → Type 0
InPool n [] = Unit
InPool n (access f ∷ cs) = (f < n) × InPool n cs
InPool n (evictable f b ∷ cs) = InPool n cs
InPool n (evict_exact f ∷ cs) = InPool n cs
InPool n (evict_least ∷ cs) = InPool n cs

-- What holds after `m` calls on `n` frames.
record Kept (n m : ℕ) (r : Replacer) : Type 0 where
  valid : Valid r
  in_order : InOrder r
  sized : length r.hash_for_record ≡ n
  young : (f : ℕ) → (record_of r f).visit_count ≤ m

-- A write of a record with few visits.
young-set :
    (hs : List LrukRecord) (frame f m : ℕ) (h : LrukRecord)
    → ((g : ℕ) → (get_or hs g fresh_record).visit_count ≤ m)
    → h.visit_count ≤ m
    → (get_or (set hs frame h) f fresh_record).visit_count ≤ m
young-set [] frame f m h young few = young f
young-set (x ∷ hs) zero zero m h young few = few
young-set (x ∷ hs) zero (suc f) m h young few = young (suc f)
young-set (x ∷ hs) (suc frame) zero m h young few = young zero
young-set (x ∷ hs) (suc frame) (suc f) m h young few =
    young-set hs frame f m h (λ g. young (suc g)) few

-- A call is one step of the invariant.
access-Kept :
    {n m : ℕ} (f : ℕ) (r : Replacer)
    → f < n
    → suc m < 2 ^ 64
    → Kept n m r
    → Kept n (suc m) (record_access f r)
access-Kept {n} {m} f r lt small k = elim (record_access-Visited f r) [
  | visited h e a g few ↦
      let sized = k.sized in
      let old = k.young f in
      record {
        valid = record_access-Valid f r k.valid (omega arith) (omega arith);
        in_order = record_access-InOrder f r k.valid (omega arith) k.in_order;
        sized =
            ap (λ (hs : List LrukRecord). length hs) e ∙ length-set r.hash_for_record f h ∙ sized;
        young = λ x.
            subst (λ (hs : List LrukRecord). (get_or hs x fresh_record).visit_count ≤ suc m) (sym e)
              (young-set r.hash_for_record f x (suc m) h (λ y. omega (arith, k.young y))
                (ground arith));
      }
]

forgotten-Kept :
    {n m : ℕ} (f : ℕ) (r : Replacer)
    → can_go (record_of r f) ≡ true
    → Kept n m r
    → Kept n m (forgotten f r)
forgotten-Kept {n} {m} f r goes k =
    let sized = k.sized in
    record {
      valid = forgotten-Valid f r k.valid goes;
      in_order = forgotten-InOrder f r goes k.in_order;
      sized = length-set r.hash_for_record f _ ∙ sized;
      young = λ x. young-set r.hash_for_record f x m _ k.young (k.young f);
    }

older : {n m : ℕ} (r : Replacer) → Kept n m r → Kept n (suc m) r
older r k = record {
  valid = k.valid;
  in_order = k.in_order;
  sized = k.sized;
  young = λ f. omega (arith, k.young f);
}

evictable-Kept :
    {n m : ℕ} (f : ℕ) (b : Bool) (r : Replacer) → Kept n m r → Kept n m (set_evictable f b r)
evictable-Kept {n} {m} f b r k =
    let valid = set_evictable-Valid f b r k.valid in
    let in_order = set_evictable-InOrder f b r k.in_order in
    let sized = k.sized in
    elim (set_evictable-Marked f b r) [
      | marked e known ↦ record {
        valid = valid;
        in_order = in_order;
        sized =
            ap (λ (hs : List LrukRecord). length hs) e ∙ length-set r.hash_for_record f _ ∙ sized;
        young = λ x.
            subst (λ (hs : List LrukRecord). (get_or hs x fresh_record).visit_count ≤ m) (sym e)
              (young-set r.hash_for_record f x m _ k.young (k.young f));
      }
      | as_before e why ↦ record {
        valid = valid;
        in_order = in_order;
        sized = ap (λ (hs : List LrukRecord). length hs) e ∙ sized;
        young = λ x.
            subst (λ (hs : List LrukRecord). (get_or hs x fresh_record).visit_count ≤ m) (sym e)
              (k.young x);
      }
    ]

exact-Kept : {n m : ℕ} (f : ℕ) (r : Replacer) → Kept n m r → Kept n m (try_evict_exact_frame f r).1
exact-Kept {n} {m} f r k =
    subst (λ (x : Bool × Replacer). Kept n m x.1)
      (sym (try_evict_exact_frame-forgotten f r k.valid))
      (elim (Bool-cases (can_go (record_of r f))) [
        | inl goes ↦ rw goes (forgotten-Kept f r goes k)
        | inr stays ↦ rw stays k
      ])

call-Kept :
    {n m : ℕ} (c : Call) (r : Replacer)
    → InPool n (c ∷ [])
    → suc m < 2 ^ 64
    → Kept n m r
    → Kept n (suc m) (call c r)
unfolding call
call-Kept (access f) r i small k = access-Kept f r i.0 small k
call-Kept (evictable f b) r i small k = older _ (evictable-Kept f b r k)
call-Kept {n} {m} (evict_exact f) r i small k = older _ (exact-Kept f r k)
call-Kept {n} {m} evict_least r i small k =
    older _ (elim (try_evict_least_important-Outcome r k.valid) [
      | nothing e none_can ↦ subst (λ (x : Option ℕ × Replacer). Kept n m x.1) (sym e) k
      | of_few f e goes found ↦
          subst (λ (x : Option ℕ × Replacer). Kept n m x.1) (sym e) (forgotten-Kept f r goes k)
      | of_many f e goes none_few found ↦
          subst (λ (x : Option ℕ × Replacer). Kept n m x.1) (sym e) (forgotten-Kept f r goes k)
    ])

one_call : (n : ℕ) (c : Call) (cs : List Call) → InPool n (c ∷ cs) → InPool n (c ∷ []) × InPool n cs
one_call n (access f) cs i = ((i.0, tt), i.1)
one_call n (evictable f b) cs i = (tt, i)
one_call n (evict_exact f) cs i = (tt, i)
one_call n evict_least cs i = (tt, i)

calls-Kept :
    {n m : ℕ} (cs : List Call) (r : Replacer)
    → InPool n cs
    → m + length cs < 2 ^ 64
    → Kept n m r
    → Kept n (m + length cs) (calls cs r)
unfolding calls
calls-Kept {n} {m} [] r i small k = subst (λ (x : ℕ). Kept n x r) (omega arith) k
calls-Kept {n} {m} (c ∷ cs) r i small k =
    let (now, later) = one_call n c cs i in
    subst (λ (x : ℕ). Kept n x (calls cs (call c r))) (omega arith)
      (calls-Kept {m = suc m} cs (call c r) later (omega arith) (call-Kept c r now (omega arith) k))

fresh_visits : (n f : ℕ) → (get_or (replicate n fresh_record) f fresh_record).visit_count ≤ 0
fresh_visits zero f = omega arith
fresh_visits (suc n) zero = omega arith
fresh_visits (suc n) (suc f) = fresh_visits n f

-- What any calls lead to from a new replacer is valid and in the order of the visits, for frames of
-- the pool and fewer than 2^64 calls.
pub calls-Valid :
    (n k : ℕ) (cs : List Call)
    → n < 2 ^ 32
    → 1 ≤ k
    → InPool n cs
    → length cs < 2 ^ 64
    → Valid (calls cs (new_replacer n k)) × InOrder (calls cs (new_replacer n k))
unfolding new_replacer
calls-Valid n k cs small positive i few =
    let start : Kept n 0 (new_replacer n k) = record {
      valid = new_replacer-Valid n k small positive;
      in_order = new_replacer-InOrder n k;
      sized = length-replicate n fresh_record;
      young = λ f. fresh_visits n f;
    } in
    let end = calls-Kept {m = 0} cs (new_replacer n k) i (omega arith) start in
    (end.valid, end.in_order)
