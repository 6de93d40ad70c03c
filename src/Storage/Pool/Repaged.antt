-- ===== src/Storage/Pool/Repaged.antt =====
-- storage/src/buffer_pool_manager.cpp: what is known of a page in a frame is written.
use mathlib.Core.Path.{subst}
use bh_ticket_system.Base.{
  ℕ, ◌<◌, ◌≡◌, ◌≢◌, ◌⊎◌, refl, sym, ap, ◌∙◌, true, false, Option, none, some, length, set, arith,
  Bool-cases, inl, inr, length-set, get_or-set_self, get_or-set_ne, ◌==◌, ==_iff, ==_self, hash_eq,
  Bytes, get_elem?,
}
use bh_ticket_system.Base.Map.{get}
use bh_ticket_system.Storage.Replacer.{Replacer, record_of}
use bh_ticket_system.Storage.Replacer.Valid
use bh_ticket_system.Storage.Replacer.Valid.{can_go}
use bh_ticket_system.Storage.Pool.{Page, Pool, page_of, fresh_page}
use bh_ticket_system.Storage.Pool.Coherent.{Coherent, content, in_frame}

module _ (b : Pool) (c : Coherent b) (p f : ℕ) (at : get p b.page_table ≡ some f) (page : Page)
    (same_id : page.page_id ≡ p) (r : Replacer) where
  abbrev pub repaged : Pool
  repaged = record b { replacer = r; pages = set b.pages f page }

  pub repaged-here : page_of repaged f ≡ page
  repaged-here = get_or-set_self b.pages f page fresh_page (c.held p f at).0

  repaged-other : (g : ℕ) → g ≢ f → page_of repaged g ≡ page_of b g
  repaged-other g ne = get_or-set_ne b.pages f g page fresh_page (λ e. ne (sym e))

  -- A frame is the one that was written, with its page, or as it was.
  repaged-cases :
      (q g : ℕ)
      → get q b.page_table ≡ some g
      → ((g ≡ f) × (q ≡ p)) ⊎ ((g ≢ f) × (page_of repaged g ≡ page_of b g))
  repaged-cases q g e = elim (Bool-cases (g == f)) [
    | inl same ↦
        let is_f : g ≡ f = (==_iff g f).0 same in
        inl (is_f, sym ((c.held q f (e ∙ ap (λ (i : ℕ). some i) is_f)).1) ∙ (c.held p f at).1)
    | inr other ↦
        let ne : g ≢ f = λ k. ground (arith, k, other, ==_self f) in inr (ne, repaged-other g ne)
  ]

  repaged-held :
      (q g : ℕ)
      → get q b.page_table ≡ some g
      → (g < length b.pages) × ((page_of repaged g).page_id ≡ q)
  repaged-held q g e =
      let (lt, is_q) = c.held q g e in
      elim (repaged-cases q g e) [
        | inl (is_f, is_p) ↦ (
          lt,
          ap (λ (i : ℕ). (page_of repaged i).page_id) is_f
              ∙ (ap (λ (x : Page). x.page_id) repaged-here ∙ (same_id ∙ sym is_p)),
        )
        | inr (ne, same) ↦ (lt, ap (λ (x : Page). x.page_id) same ∙ is_q)
      ]

  pub repaged-Coherent :
      Valid.Valid r
      → length r.hash_for_record ≡ length b.replacer.hash_for_record
      → ((g : ℕ)
          → can_go (record_of r g) ≡ true
          → ((g ≡ f) × (page.pin_count ≡ 0)) ⊎ ((g ≢ f) × (can_go (record_of b.replacer g) ≡ true)))
      → (page.pin_count ≡ 0
          → page.is_dirty ≡ false
          → get_elem? b.disk_manager.file p ≡ some page.mem)
      → Coherent repaged
  repaged-Coherent lru same_length goes clean =
      let sized : length repaged.pages ≡ length b.pages = length-set b.pages f page in
      record {
        lru = lru;
        sized = same_length ∙ (c.sized ∙ sym sized);
        opened = c.opened;
        held = λ q g e.
            let (lt, is_q) = repaged-held q g e in (subst (λ (n : ℕ). g < n) (sym sized) lt, is_q);
        stored = c.stored;
        once = c.once;
        free =
            λ g q i. let (lt, out) = c.free g q i in (subst (λ (n : ℕ). g < n) (sym sized) lt, out);
        idle = λ g could. elim (goes g could) [
          | inl (is_f, unpinned) ↦
              subst
                (λ (i : ℕ).
                  (get (page_of repaged i).page_id b.page_table ≡ some i)
                  × ((page_of repaged i).pin_count ≡ 0))
                (sym is_f)
                (
                  ap (λ (x : Page). get x.page_id b.page_table) repaged-here
                      ∙ (ap (λ (i : ℕ). get i b.page_table) same_id ∙ at),
                  ap (λ (x : Page). x.pin_count) repaged-here ∙ unpinned,
                )
          | inr (ne, could_go) ↦
              let (there, unpinned) = c.idle g could_go in
              let same = repaged-other g ne in
              (
                ap (λ (x : Page). get x.page_id b.page_table) same ∙ there,
                ap (λ (x : Page). x.pin_count) same ∙ unpinned,
              )
        ];
        clean = λ q g e unpinned undirty. elim (repaged-cases q g e) [
          | inl (is_f, is_p) ↦
              let now : page_of repaged g ≡ page =
                ap (λ (i : ℕ). page_of repaged i) is_f ∙ repaged-here in
              ap (λ (i : ℕ). get_elem? b.disk_manager.file i) is_p
              ∙ (clean (sym (ap (λ (x : Page). x.pin_count) now) ∙ unpinned)
                    (sym (ap (λ (x : Page). x.is_dirty) now) ∙ undirty)
                  ∙ ap (λ (x : Page). some x.mem) (sym now))
          | inr (ne, same) ↦
              c.clean q g e (sym (ap (λ (x : Page). x.pin_count) same) ∙ unpinned)
                (sym (ap (λ (x : Page). x.is_dirty) same) ∙ undirty)
              ∙ ap (λ (x : Page). some x.mem) (sym same)
        ];
      }

  repaged-old :
      (q : ℕ)
      → p ≢ q
      → (o : Option ℕ) → get q b.page_table ≡ o
      → in_frame repaged o (get_elem? b.disk_manager.file q)
        ≡ in_frame b o (get_elem? b.disk_manager.file q)
  repaged-old q ne none e = refl
  repaged-old q ne (some g) e = elim (repaged-cases q g e) [
    | inl (is_f, is_p) ↦ absurd (ne (sym is_p))
    | inr (other, same) ↦ ap (λ (x : Page). some x.mem) same
  ]

  pub repaged-content_self : content repaged p ≡ some page.mem
  repaged-content_self =
      ap (λ (o : Option ℕ). in_frame repaged o (get_elem? b.disk_manager.file p)) at
      ∙ ap (λ (x : Page). some x.mem) repaged-here

  pub repaged-content_other : (q : ℕ) → p ≢ q → content repaged q ≡ content b q
  repaged-content_other q ne = repaged-old q ne (get q b.page_table) refl

  -- When the memory is left alone, so are the contents.
  pub repaged-content : page.mem ≡ (page_of b f).mem → (q : ℕ) → content repaged q ≡ content b q
  repaged-content same q = elim (Bool-cases (p == q)) [
    | inl here ↦
        let is_q : p ≡ q = (==_iff p q).0 here in
        subst (λ (i : ℕ). content repaged i ≡ content b i) is_q
          (repaged-content_self
            ∙ (ap (λ (m : Bytes). some m) same
                ∙ sym (ap (λ (o : Option ℕ). in_frame b o (get_elem? b.disk_manager.file p)) at)))
    | inr other ↦ repaged-content_other q (λ k. ground (arith, k, other, ==_self p))
  ]
