-- ===== src/Storage/Pool/Frames.antt =====
-- storage/src/buffer_pool_manager.cpp: the frames that the replacer may give up.
use mathlib.Core.Path.{subst}
use bh_ticket_system.Base.{
  ℕ, zero, suc, ◌+◌, ◌^◌, ◌<◌, ◌≡◌, ◌≢◌, refl, sym, ap, ◌∙◌, true, false, List, [], ◌∷◌, length,
  get_or, set, arith, Bool-cases, inl, inr, length-set, get_or-set_self, get_or-set_ne, ◌==◌,
  ==_iff, ==_self,
}
use bh_ticket_system.Storage.Replacer.{LrukRecord, Replacer, record_of, fresh_record, record_access}
use bh_ticket_system.Storage.Replacer.Valid.{Valid, can_go}
use bh_ticket_system.Storage.Replacer.Evict.{
  forgotten, set_evictable-Valid, set_evictable-Marked, marked, as_before,
}
use bh_ticket_system.Storage.Replacer.Access.{record_access-Valid}
use bh_ticket_system.Storage.Replacer.Visited.{visited, record_access-Visited}
use bh_ticket_system.Storage.Pool.{used_frame}

set-set : (hs : List LrukRecord) (f : ℕ) (h k : LrukRecord) → set (set hs f h) f k ≡ set hs f k
set-set [] f h k = refl
set-set (x ∷ hs) zero h k = refl
set-set (x ∷ hs) (suc f) h k = ap (λ (ys : List LrukRecord). x ∷ ys) (set-set hs f h k)

-- A record that keeps its frame is written: the other frames go as before.
set-can_go :
    (hs : List LrukRecord) (f g : ℕ) (h : LrukRecord)
    → f < length hs
    → can_go h ≡ false
    → can_go (get_or (set hs f h) g fresh_record) ≡ true
    → (g ≢ f) × (can_go (get_or hs g fresh_record) ≡ true)
set-can_go hs f g h lt stays goes = elim (Bool-cases (f == g)) [
  | inl same ↦
      let is_f : f ≡ g = (==_iff f g).0 same in
      let gone : can_go (get_or (set hs f h) g fresh_record) ≡ false =
        ap (λ (i : ℕ). can_go (get_or (set hs f h) i fresh_record)) (sym is_f)
        ∙ (ap (λ (x : LrukRecord). can_go x) (get_or-set_self hs f h fresh_record lt) ∙ stays) in
      absurd (ground (arith, gone, goes))
  | inr other ↦
      let ne : f ≢ g = λ e. ground (arith, e, other, ==_self f) in
      (
        λ e. ne (sym e),
        sym (ap (λ (x : LrukRecord). can_go x) (get_or-set_ne hs f g h fresh_record ne)) ∙ goes,
      )
]

module _ (f : ℕ) (r : Replacer) (lt : f < length r.hash_for_record) where
  pub forgotten-can_go :
      (g : ℕ)
      → can_go (record_of (forgotten f r) g) ≡ true
      → (g ≢ f) × (can_go (record_of r g) ≡ true)
  forgotten-can_go g = set-can_go r.hash_for_record f g _ lt refl

  pub visit_count-forgotten :
      (g : ℕ) → (record_of (forgotten f r) g).visit_count ≡ (record_of r g).visit_count
  visit_count-forgotten g = elim (Bool-cases (f == g)) [
    | inl same ↦
        subst (λ (i : ℕ). (record_of (forgotten f r) i).visit_count ≡ (record_of r i).visit_count)
          ((==_iff f g).0 same)
          (ap (λ (x : LrukRecord). x.visit_count)
            (get_or-set_self r.hash_for_record f _ fresh_record lt))
    | inr other ↦
        ap (λ (x : LrukRecord). x.visit_count)
          (get_or-set_ne r.hash_for_record f g _ fresh_record
            (λ e. ground (arith, e, other, ==_self f)))
  ]

  -- The record of a frame that was used is written, and keeps it.
  used_frame-written :
      (h : LrukRecord) × ((used_frame f r).hash_for_record ≡ set r.hash_for_record f h)
      × (can_go h ≡ false)
  unfolding used_frame
  used_frame-written = elim (record_access-Visited f r) [
    | visited h e known same few ↦
        let here : record_of (record_access f r) f ≡ h =
          ap (λ (hs : List LrukRecord). get_or hs f fresh_record) e
          ∙ get_or-set_self r.hash_for_record f h fresh_record lt in
        elim (set_evictable-Marked f false (record_access f r)) [
          | marked twice active ↦ (
            record (record_of (record_access f r) f) { evitable = false },
            twice
                ∙ (ap
                      (λ (hs : List LrukRecord).
                        set hs f (record (record_of (record_access f r) f) { evitable = false }))
                      e
                    ∙ set-set r.hash_for_record f h _),
            ground arith,
          )
          | as_before once why ↦
              (h, once ∙ e, subst (λ (x : LrukRecord). can_go x ≡ false) here (ground (arith, why)))
        ]
  ]

  pub length-used_frame : length (used_frame f r).hash_for_record ≡ length r.hash_for_record
  length-used_frame =
      let (h, e, stays) = used_frame-written in
      ap (λ (hs : List LrukRecord). length hs) e ∙ length-set r.hash_for_record f h

  -- A frame that was used cannot be given up, and the others go as before.
  pub used_frame-can_go :
      (g : ℕ)
      → can_go (record_of (used_frame f r) g) ≡ true
      → (g ≢ f) × (can_go (record_of r g) ≡ true)
  used_frame-can_go g goes =
      let (h, e, stays) = used_frame-written in
      set-can_go r.hash_for_record f g h lt stays
        (subst (λ (hs : List LrukRecord). can_go (get_or hs g fresh_record) ≡ true) e goes)

  pub used_frame-Valid : Valid r → (record_of r f).visit_count + 1 < 2 ^ 64 → Valid (used_frame f r)
  unfolding used_frame
  used_frame-Valid v young = set_evictable-Valid f false _ (record_access-Valid f r v lt young)
