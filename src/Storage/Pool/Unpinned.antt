-- ===== src/Storage/Pool/Unpinned.antt =====
-- storage/src/buffer_pool_manager.cpp: a page is unpinned, and the memory of a pinned one is written.
use mathlib.Core.Path.{subst}
use bh_ticket_system.Base.{
  ℕ, ◌≤◌, ◌≡◌, ◌≢◌, ◌⊎◌, refl, sym, ap, ◌∙◌, Bool, true, false, Option, some, List, length, get_or,
  arith, Bool-cases, inl, inr, length-set, get_or-set_ne, ◌==◌, ==_iff, ==_self, hash_eq, Bytes,
  get_elem?, if-true, if-false, if-elim, if◌then◌else◌,
}
use bh_ticket_system.Base.Map.{get}
use bh_ticket_system.Storage.Replacer.{Replacer, record_of}
use bh_ticket_system.Storage.Replacer.Valid
use bh_ticket_system.Storage.Replacer.Valid.{can_go}
use bh_ticket_system.Storage.Pool.{Page, Pool, page_of}
use bh_ticket_system.Base.{◌-◌}
use bh_ticket_system.Storage.Replacer.{set_evictable, fresh_record, LrukRecord}
use bh_ticket_system.Storage.Replacer.Evict.{
  set_evictable-Valid, set_evictable-Marked, marked, as_before,
}
use bh_ticket_system.Storage.Pool.{unpin_frame, unpin_page, write_data}
use bh_ticket_system.Storage.Pool.Coherent.{Coherent, content}
use bh_ticket_system.Storage.Pool.Repaged.{repaged, repaged-Coherent, repaged-content}

-- A frame that is marked may be given up; the others go as before.
length-set_evictable :
    (f : ℕ) (r : Replacer)
    → length (set_evictable f true r).hash_for_record ≡ length r.hash_for_record
length-set_evictable f r = elim (set_evictable-Marked f true r) [
  | marked e known ↦ ap (λ (hs : List LrukRecord). length hs) e ∙ length-set r.hash_for_record f _
  | as_before e why ↦ ap (λ (hs : List LrukRecord). length hs) e
]

set_evictable-can_go :
    (f g : ℕ) (r : Replacer) → g ≢ f → record_of (set_evictable f true r) g ≡ record_of r g
set_evictable-can_go f g r ne = elim (set_evictable-Marked f true r) [
  | marked e known ↦
      ap (λ (hs : List LrukRecord). get_or hs g fresh_record) e
      ∙ get_or-set_ne r.hash_for_record f g _ fresh_record (λ k. ne (sym k))
  | as_before e why ↦ ap (λ (hs : List LrukRecord). get_or hs g fresh_record) e
]

module _ (b : Pool) (c : Coherent b) (p f : ℕ) (at : get p b.page_table ≡ some f)
    (pinned : 1 ≤ (page_of b f).pin_count) (is_dirty : Bool)
    (unwritten : is_dirty ≡ false
      → (page_of b f).pin_count ≡ 1
      → (page_of b f).is_dirty ≡ false
      → get_elem? b.disk_manager.file p ≡ some (page_of b f).mem) where
  abbrev page : Page
  page = record (page_of b f) {
    pin_count = (page_of b f).pin_count - 1;
    is_dirty = if is_dirty then true else (page_of b f).is_dirty;
  }

  abbrev r : Replacer
  r = if (page_of b f).pin_count == 1 then set_evictable f true b.replacer else b.replacer

  abbrev pub unpinned : Pool
  unpinned = repaged b c p f at page (c.held p f at).1 r

  pub unpin_page-unpinned : unpin_page p is_dirty b ≡ (true, unpinned)
  unfolding unpin_page unpin_frame
  unpin_page-unpinned =
      ap (λ (o : Option ℕ). unpin_frame o is_dirty b) at
      ∙ if-false ((page_of b f).pin_count == 0) (false, b) (true, unpinned) (ground (arith, pinned))

  unpinned-goes :
      (g : ℕ)
      → can_go (record_of r g) ≡ true
      → ((g ≡ f) × (page.pin_count ≡ 0)) ⊎ ((g ≢ f) × (can_go (record_of b.replacer g) ≡ true))
  unpinned-goes g goes = elim (Bool-cases ((page_of b f).pin_count == 1)) [
    | inl last ↦
        let marking : r ≡ set_evictable f true b.replacer =
          if-true ((page_of b f).pin_count == 1) _ _ last in
        elim (Bool-cases (g == f)) [
          | inl same ↦ inl ((==_iff g f).0 same, ground (arith, last))
          | inr other ↦
              let ne : g ≢ f = λ k. ground (arith, k, other, ==_self f) in
              inr (
                ne,
                sym (ap (λ (x : LrukRecord). can_go x) (set_evictable-can_go f g b.replacer ne))
                    ∙ (ap (λ (x : Replacer). can_go (record_of x g)) (sym marking) ∙ goes),
              )
        ]
    | inr more ↦
        let could : can_go (record_of b.replacer g) ≡ true =
          ap (λ (x : Replacer). can_go (record_of x g))
            (sym (
              if-false ((page_of b f).pin_count == 1) (set_evictable f true b.replacer) b.replacer
                more))
          ∙ goes in
        inr (
          λ k.
              let none_now = (c.idle g could).1 in
              let here = subst (λ (i : ℕ). 1 ≤ (page_of b i).pin_count) (sym k) pinned in
              omega arith,
          could,
        )
  ]

  pub unpinned-Coherent : Coherent unpinned
  unpinned-Coherent =
      repaged-Coherent b c p f at page (c.held p f at).1 r
        (if-elim Valid.Valid ((page_of b f).pin_count == 1)
          (set_evictable-Valid f true b.replacer c.lru) c.lru)
        (if-elim (λ (x : Replacer). length x.hash_for_record ≡ length b.replacer.hash_for_record)
          ((page_of b f).pin_count == 1) (length-set_evictable f b.replacer) refl)
        unpinned-goes
        (λ zero_now undirty. elim (Bool-cases is_dirty) [
          | inl dirty ↦ absurd (ground (arith, dirty, undirty))
          | inr kept ↦
              unwritten kept (omega arith)
                (sym (if-false is_dirty true (page_of b f).is_dirty kept) ∙ undirty)
        ])

  pub unpinned-content : (q : ℕ) → content unpinned q ≡ content b q
  unpinned-content = repaged-content b c p f at page (c.held p f at).1 r refl

-- A write through the memory of a pinned frame.
module _ (b : Pool) (c : Coherent b) (p f : ℕ) (at : get p b.page_table ≡ some f)
    (pinned : 1 ≤ (page_of b f).pin_count) (mem : Bytes) where
  abbrev pub new : Page
  new = record (page_of b f) { mem = mem }

  abbrev pub written : Pool
  written = repaged b c p f at new (c.held p f at).1 b.replacer

  pub written-Coherent : Coherent written
  written-Coherent =
      repaged-Coherent b c p f at new (c.held p f at).1 b.replacer c.lru refl
        (λ g could. inr (
          (λ k.
              let none_now = (c.idle g could).1 in
              let here = subst (λ (i : ℕ). 1 ≤ (page_of b i).pin_count) (sym k) pinned in
              omega arith),
          could,
        ))
        (λ none_now. absurd (omega arith))

  pub write_data-written : write_data f mem b ≡ written
  unfolding write_data
  write_data-written = refl
