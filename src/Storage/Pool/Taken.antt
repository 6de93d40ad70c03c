-- ===== src/Storage/Pool/Taken.antt =====
-- storage/src/buffer_pool_manager.cpp: a frame is taken over by a page.
use mathlib.Core.Path.{subst}
use bh_ticket_system.Base.{
  ℕ, ◌+◌, ◌^◌, ◌≤◌, ◌<◌, ◌≡◌, ◌≢◌, ◌⊎◌, refl, sym, ap, ◌∙◌, true, false, Option, none, some, length,
  arith, Bool-cases, inl, inr, length-set, get_or-set_self, get_or-set_ne, ◌==◌, ==_iff, ==_self,
  hash_eq, Bytes, get_elem?, if-true, if-false, if◌then◌else◌,
}
use bh_ticket_system.Base.Map.{Map, get}
use bh_ticket_system.Storage.Replacer.{record_of}
use bh_ticket_system.Storage.Replacer.Valid.{can_go}
use bh_ticket_system.Storage.Disk.Contract.{occurs}
use bh_ticket_system.Storage.Pool.{Page, Pool, page_of, fresh_page, insert_frame, take_frame}
use bh_ticket_system.Storage.Pool.Frames.{length-used_frame, used_frame-can_go, used_frame-Valid}
use bh_ticket_system.Storage.Pool.Coherent.{Coherent, Vacant, content, in_frame, get-insert_frame}

-- The page is not where it was, so it can be taken out.
get-take :
    (p q f g : ℕ) (t : Map ℕ ℕ)
    → get p t ≡ none
    → get q (insert_frame p f t) ≡ some g
    → ((p ≡ q) × (f ≡ g)) ⊎ ((p ≢ q) × (get q t ≡ some g))
get-take p q f g t absent e = elim (Bool-cases (p == q)) [
  | inl same ↦
      let there =
        sym (if-true (p == q) (some f) (get q t) same)
        ∙ sym (get-insert_frame p q f t absent)
        ∙ e in
      inl ((==_iff p q).0 same, ground (arith, there))
  | inr other ↦
      let there =
        sym (if-false (p == q) (some f) (get q t) other)
        ∙ sym (get-insert_frame p q f t absent)
        ∙ e in
      inr (λ k. ground (arith, k, other, ==_self p), there)
]

-- A frame is taken over by a page that is in none.
module _ (b : Pool) (c : Coherent b) (p f : ℕ) (mem : Bytes) (empty : Vacant f b)
    (absent : get p b.page_table ≡ none) where
  abbrev pub page : Page
  page = record { mem = mem; is_dirty = false; pin_count = 1; page_id = p }

  abbrev pub after : Pool
  after = take_frame f p mem b

  pub take_frame-here : page_of after f ≡ page
  unfolding take_frame
  take_frame-here = get_or-set_self b.pages f page fresh_page empty.inside

  pub take_frame-table_self : get p after.page_table ≡ some f
  unfolding take_frame
  take_frame-table_self =
      get-insert_frame p p f b.page_table absent ∙ if-true (p == p) _ _ (==_self p)

  take_frame-other : (g : ℕ) → g ≢ f → page_of after g ≡ page_of b g
  unfolding take_frame
  take_frame-other g ne = get_or-set_ne b.pages f g page fresh_page (λ e. ne (sym e))

  take_frame-table :
      (q g : ℕ)
      → get q after.page_table ≡ some g
      → ((p ≡ q) × (f ≡ g)) ⊎ ((p ≢ q) × (get q b.page_table ≡ some g))
  unfolding take_frame
  take_frame-table q g e = get-take p q f g b.page_table absent e

  -- A page of the old table is not in the frame that was taken.
  old_frame : (q g : ℕ) → get q b.page_table ≡ some g → g ≢ f
  old_frame q g e same = empty.nowhere q (e ∙ ap (λ (i : ℕ). some i) same)

  take_frame-held :
      (q g : ℕ)
      → get q after.page_table ≡ some g
      → (g < length b.pages) × ((page_of after g).page_id ≡ q)
  take_frame-held q g e = elim (take_frame-table q g e) [
    | inl (same, at) ↦ (
      subst (λ (i : ℕ). i < length b.pages) at empty.inside,
      subst (λ (i : ℕ). (page_of after i).page_id ≡ q) at
          (ap (λ (x : Page). x.page_id) take_frame-here ∙ same),
    )
    | inr (other, there) ↦
        let (lt, is_q) = c.held q g there in
        (lt, ap (λ (x : Page). x.page_id) (take_frame-other g (old_frame q g there)) ∙ is_q)
  ]

  take_frame-free :
      (g q : ℕ)
      → 1 ≤ occurs g b.free_list
      → (g < length b.pages) × (get q after.page_table ≢ some g)
  take_frame-free g q i =
      let (lt, out) = c.free g q i in
      (
        lt,
        λ e. elim (take_frame-table q g e) [
          | inl (same, at) ↦
              let none_of : occurs g b.free_list ≡ 0 =
                subst (λ (j : ℕ). occurs j b.free_list ≡ 0) at empty.not_free in
              omega arith
          | inr (other, there) ↦ out there
        ],
      )

  take_frame-idle :
      (g : ℕ)
      → can_go (record_of after.replacer g) ≡ true
      → (get (page_of after g).page_id after.page_table ≡ some g)
        × ((page_of after g).pin_count ≡ 0)
  unfolding take_frame
  take_frame-idle g goes =
      let (ne, could) =
        used_frame-can_go f b.replacer (subst (λ (n : ℕ). f < n) (sym c.sized) empty.inside) g
          goes in
      let (at, unpinned) = c.idle g could in
      let same = take_frame-other g ne in
      let differs : (p == (page_of b g).page_id) ≡ false =
        elim (Bool-cases (p == (page_of b g).page_id)) [
          | inl is_p ↦ absurd (
              ground (
                arith,
                absent,
                at,
                ap (λ (i : ℕ). get i b.page_table) ((==_iff p (page_of b g).page_id).0 is_p),
              ))
          | inr other ↦ other
        ] in
      (
        ap (λ (x : Page). get x.page_id (insert_frame p f b.page_table)) same
            ∙ (get-insert_frame p (page_of b g).page_id f b.page_table absent
                ∙ (if-false (p == (page_of b g).page_id) _ _ differs ∙ at)),
        ap (λ (x : Page). x.pin_count) same ∙ unpinned,
      )

  take_frame-clean :
      (q g : ℕ)
      → get q after.page_table ≡ some g
      → (page_of after g).pin_count ≡ 0
      → (page_of after g).is_dirty ≡ false
      → get_elem? b.disk_manager.file q ≡ some (page_of after g).mem
  take_frame-clean q g e unpinned undirty = elim (take_frame-table q g e) [
    | inl (same, at) ↦
        let pinned : (page_of after g).pin_count ≡ 1 =
          subst (λ (i : ℕ). (page_of after i).pin_count ≡ 1) at
            (ap (λ (x : Page). x.pin_count) take_frame-here) in
        absurd (omega arith)
    | inr (other, there) ↦
        let same = take_frame-other g (old_frame q g there) in
        c.clean q g there (ap (λ (x : Page). x.pin_count) (sym same) ∙ unpinned)
          (ap (λ (x : Page). x.is_dirty) (sym same) ∙ undirty)
        ∙ ap (λ (x : Page). some x.mem) (sym same)
  ]

  pub take_frame-Coherent :
      (record_of b.replacer f).visit_count + 1 < 2 ^ 64
      → p < length b.disk_manager.file
      → Coherent after
  unfolding take_frame
  take_frame-Coherent young there =
      let lt = subst (λ (n : ℕ). f < n) (sym c.sized) empty.inside in
      let sized : length after.pages ≡ length b.pages = length-set b.pages f page in
      record {
        lru = used_frame-Valid f b.replacer lt c.lru young;
        sized = length-used_frame f b.replacer lt ∙ c.sized ∙ sym sized;
        opened = c.opened;
        held = λ q g e.
            let (below, is_q) = take_frame-held q g e in
            (subst (λ (n : ℕ). g < n) (sym sized) below, is_q);
        stored = λ q g e. elim (take_frame-table q g e) [
          | inl (same, at) ↦ subst (λ (i : ℕ). i < length b.disk_manager.file) same there
          | inr (other, old) ↦ c.stored q g old
        ];
        once = c.once;
        free = λ g q i.
            let (below, out) = take_frame-free g q i in
            (subst (λ (n : ℕ). g < n) (sym sized) below, out);
        idle = take_frame-idle;
        clean = take_frame-clean;
      }

  -- The page that takes the frame has the contents that are put there, and the others keep theirs.
  pub take_frame-content : (q : ℕ) → content after q ≡ (if p == q then some mem else content b q)
  unfolding take_frame
  take_frame-content q =
      let table = get-insert_frame p q f b.page_table absent in
      let stored = get_elem? b.disk_manager.file q in
      elim (Bool-cases (p == q)) [
        | inl same ↦
            ap (λ (o : Option ℕ). in_frame after o stored) (table ∙ if-true (p == q) _ _ same)
            ∙ (ap (λ (x : Page). some x.mem) take_frame-here
                ∙ sym (if-true (p == q) (some mem) (content b q) same))
        | inr other ↦
            ap (λ (o : Option ℕ). in_frame after o stored) (table ∙ if-false (p == q) _ _ other)
            ∙ (kept (get q b.page_table) refl
                ∙ sym (if-false (p == q) (some mem) (content b q) other))
      ]
    where
      kept :
          (o : Option ℕ)
          → get q b.page_table ≡ o
          → in_frame after o (get_elem? b.disk_manager.file q)
            ≡ in_frame b o (get_elem? b.disk_manager.file q)
      kept none e = refl
      kept (some g) e = ap (λ (x : Page). some x.mem) (take_frame-other g (old_frame q g e))
