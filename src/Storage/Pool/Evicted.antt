-- ===== src/Storage/Pool/Evicted.antt =====
-- storage/src/buffer_pool_manager.cpp: a page leaves its frame.
use mathlib.Core.Path.{subst}
use bh_ticket_system.Base.{
  ℕ, ◌<◌, ◌≡◌, ◌≢◌, refl, sym, ap, ◌∙◌, true, false, Option, none, some, length, arith, Bool-cases,
  inl, inr, length-set, ◌==◌, ==_iff, ==_self, hash_eq, Bytes, get_elem?, if-true, if-false,
}
use bh_ticket_system.Base.Map.{get, erase, get-erase}
use bh_ticket_system.Storage.Replacer.{record_of}
use bh_ticket_system.Storage.Replacer.Valid.{can_go}
use bh_ticket_system.Storage.Replacer.Evict.{forgotten, forgotten-Valid}
use bh_ticket_system.Storage.Disk.Contract.{occurs}
use bh_ticket_system.Storage.Pool.{Page, Pool, page_of, without_page_of}
use bh_ticket_system.Storage.Pool.Frames.{forgotten-can_go}
use bh_ticket_system.Storage.Disk.{Disk, write_page}
use bh_ticket_system.Storage.Disk.InFile.{write_at_self, write_at_other, length-write_at}
use bh_ticket_system.Storage.Pool.{written_back}
use bh_ticket_system.Storage.Pool.Coherent.{Coherent, Vacant, content, in_frame}

-- A disk on which the page of a frame is what is in the frame, and the other pages are as before.
pub record Stored (b : Pool) (f : ℕ) (d : Disk) : Type 0 where
  pub opened : d.is_open ≡ true
  pub sized : length d.file ≡ length b.disk_manager.file
  pub here : get_elem? d.file (page_of b f).page_id ≡ some (page_of b f).mem
  pub other :
      (q : ℕ) → (page_of b f).page_id ≢ q → get_elem? d.file q ≡ get_elem? b.disk_manager.file q

module _ (b : Pool) (c : Coherent b) (f : ℕ) (goes : can_go (record_of b.replacer f) ≡ true) where
  abbrev pub page_left : ℕ
  page_left = (page_of b f).page_id

  abbrev page : Page
  page = page_of b f

  abbrev pub at_left : get page_left b.page_table ≡ some f
  at_left = (c.idle f goes).0

  in_records : f < length b.replacer.hash_for_record
  in_records = subst (λ (n : ℕ). f < n) (sym c.sized) (c.held page_left f at_left).0

  write_page-Stored : Stored b f (write_page page_left page.mem b.disk_manager)
  unfolding write_page
  write_page-Stored =
      let there = c.stored page_left f at_left in
      subst (Stored b f) (sym (if-true b.disk_manager.is_open _ _ c.opened)) (record {
        opened = c.opened;
        sized = length-write_at b.disk_manager.file page_left page.mem there;
        here = write_at_self b.disk_manager.file page_left page.mem;
        other = λ q ne. write_at_other b.disk_manager.file page_left q page.mem there ne;
      })

  unwritten-Stored : page.is_dirty ≡ false → Stored b f b.disk_manager
  unwritten-Stored undirty = record {
    opened = c.opened;
    sized = refl;
    here = c.clean page_left f at_left (c.idle f goes).1 undirty;
    other = λ q ne. refl;
  }

  module _ (d : Disk) (s : Stored b f d) where
    abbrev pub left : Pool
    left = record b {
      replacer = forgotten f b.replacer;
      disk_manager = d;
      page_table = erase page_left b.page_table;
    }

    left-table :
        (q g : ℕ) → get q left.page_table ≡ some g → (page_left ≢ q) × (get q b.page_table ≡ some g)
    left-table q g e =
        let there = get-erase page_left q b.page_table in
        elim (Bool-cases (page_left == q)) [
          | inl same ↦ absurd (
              ground (
                arith,
                sym (if-true (page_left == q) none (get q b.page_table) same) ∙ (sym there ∙ e),
              ))
          | inr other ↦ (
            λ k. ground (arith, k, other, ==_self page_left),
            sym (if-false (page_left == q) none (get q b.page_table) other) ∙ (sym there ∙ e),
          )
        ]

    -- The frame's page is at the frame only.
    left-nowhere : (q : ℕ) → get q left.page_table ≢ some f
    left-nowhere q e = let (ne, there) = left-table q f e in ne ((c.held q f there).1)

    left-idle :
        (g : ℕ)
        → can_go (record_of left.replacer g) ≡ true
        → (get (page_of b g).page_id left.page_table ≡ some g) × ((page_of b g).pin_count ≡ 0)
    left-idle g could_go =
        let (ne, could) = forgotten-can_go f b.replacer in_records g could_go in
        let (at, unpinned) = c.idle g could in
        let differs : (page_left == (page_of b g).page_id) ≡ false =
          elim (Bool-cases (page_left == (page_of b g).page_id)) [
            | inl same ↦ absurd (
                ne (
                  ground
                    (arith, at, at_left, ap (λ (i : ℕ). get i b.page_table) ((==_iff _ _).0 same))))
            | inr other ↦ other
          ] in
        (
          get-erase page_left (page_of b g).page_id b.page_table
              ∙ (if-false (page_left == (page_of b g).page_id) _ _ differs ∙ at),
          unpinned,
        )

    pub left-Coherent : Coherent left
    left-Coherent = record {
      lru = forgotten-Valid f b.replacer c.lru goes;
      sized = length-set b.replacer.hash_for_record f _ ∙ c.sized;
      opened = s.opened;
      held = λ q g e. c.held q g (left-table q g e).1;
      stored = λ q g e. subst (λ (n : ℕ). q < n) (sym s.sized) (c.stored q g (left-table q g e).1);
      once = c.once;
      free = λ g q i. let (below, out) = c.free g q i in (below, λ e. out (left-table q g e).1);
      idle = left-idle;
      clean = λ q g e unpinned undirty.
          let (ne, there) = left-table q g e in s.other q ne ∙ c.clean q g there unpinned undirty;
    }

    pub left-Vacant : Vacant f left
    left-Vacant = record {
      inside = (c.held page_left f at_left).0;
      nowhere = left-nowhere;
      not_free = elim (Bool-cases (occurs f b.free_list == 0)) [
        | inl out ↦ (==_iff _ _).0 out
        | inr listed ↦ absurd ((c.free f page_left (ground (arith, listed))).1 at_left)
      ];
      stays = elim (Bool-cases (can_go (record_of left.replacer f))) [
        | inl could ↦ absurd ((forgotten-can_go f b.replacer in_records f could).0 refl)
        | inr stay ↦ stay
      ];
    }

    pub left-content : (q : ℕ) → content left q ≡ content b q
    left-content q =
        let there = get-erase page_left q b.page_table in
        elim (Bool-cases (page_left == q)) [
          | inl same ↦
              let is_q : page_left ≡ q = (==_iff _ _).0 same in
              ap (λ (o : Option ℕ). in_frame left o (get_elem? d.file q))
                (there ∙ if-true (page_left == q) _ _ same)
              ∙ (ap (λ (i : ℕ). get_elem? d.file i) (sym is_q)
                  ∙ (s.here
                      ∙ sym (
                          ap (λ (o : Option ℕ). in_frame b o (get_elem? b.disk_manager.file q))
                            (ap (λ (i : ℕ). get i b.page_table) (sym is_q) ∙ at_left))))
          | inr other ↦
              ap (λ (o : Option ℕ). in_frame left o (get_elem? d.file q))
                (there ∙ if-false (page_left == q) _ _ other)
              ∙ ap (λ (o : Option Bytes). in_frame b (get q b.page_table) o)
                  (s.other q (λ k. ground (arith, k, other, ==_self page_left)))
        ]

  abbrev forgetting : Pool
  forgetting = record b { replacer = forgotten f b.replacer }

  written_back_dirty :
      page.is_dirty ≡ true
      → written_back f forgetting
        ≡ record forgetting { disk_manager = write_page page_left page.mem b.disk_manager }
  unfolding written_back
  written_back_dirty dirty =
      if-true page.is_dirty
        (record forgetting { disk_manager = write_page page_left page.mem b.disk_manager })
        forgetting dirty

  written_back_clean : page.is_dirty ≡ false → written_back f forgetting ≡ forgetting
  unfolding written_back
  written_back_clean undirty =
      if-false page.is_dirty
        (record forgetting { disk_manager = write_page page_left page.mem b.disk_manager })
        forgetting undirty

  -- What the code does with the frame that it gives up.
  pub written_back-left :
      (d : Disk) × (s : Stored b f d) × (without_page_of f (written_back f forgetting) ≡ left d s)
      × ((written_back f forgetting).disk_manager ≡ d)
  unfolding without_page_of
  written_back-left = elim (Bool-cases page.is_dirty) [
    | inl dirty ↦
        let e = written_back_dirty dirty in
        (
          write_page page_left page.mem b.disk_manager,
          write_page-Stored,
          ap (λ (x : Pool). without_page_of f x) e,
          ap (λ (x : Pool). x.disk_manager) e,
        )
    | inr undirty ↦
        let e = written_back_clean undirty in
        (
          b.disk_manager,
          unwritten-Stored undirty,
          ap (λ (x : Pool). without_page_of f x) e,
          ap (λ (x : Pool). x.disk_manager) e,
        )
  ]
