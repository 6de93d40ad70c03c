-- ===== src/Storage/Pool/Flush.antt =====
-- storage/src/buffer_pool_manager.cpp: what `FlushPage` and `FlushAllPages` write to the disk.
use mathlib.Core.Path.{subst}
use bh_ticket_system.Base.{
  ℕ, zero, suc, ◌≤◌, ◌<◌, ◌≡◌, ◌≢◌, ◌⊎◌, refl, sym, ap, ◌∙◌, Bool, true, false, Option, none, some,
  List, [], ◌∷◌, length, get_or, set, get_elem?, arith, Bool-cases, inl, inr, ◌==◌, ==_iff, ==_self,
  hash_eq, Bytes, if-true, if-false,
}
use bh_ticket_system.Base.Map.{Map, get, put, get-put_self}
use bh_ticket_system.Storage.Disk.{Disk, write_at, write_page, fully_flush, internal_page}
use bh_ticket_system.Storage.Disk.InFile.{write_at_self, write_at_other, length-write_at}
use bh_ticket_system.Storage.Pool.{
  Page, Pool, page_of, fresh_page, insert_frame, flush_frame, flush_page, flush_pages,
  flush_all_pages,
}
use bh_ticket_system.Storage.Pool.Coherent.{Coherent, content, in_frame, insert_frame-put}

write_page-open :
    (d : Disk) (p : ℕ) (mem : Bytes)
    → d.is_open ≡ true
    → write_page p mem d ≡ record d { file = write_at d.file p mem }
unfolding write_page
write_page-open d p mem open_now = if-true d.is_open _ _ open_now

-- `FlushPage` of a page that is in no frame answers true and not false: it puts the page into frame 0
-- and writes what is there to the place of the page, where the file is open.
pub flush_page-absent :
    (b : Pool) (p : ℕ)
    → get p b.page_table ≡ none
    → b.disk_manager.is_open ≡ true
    → ((flush_page p b).0 ≡ true)
      × (get p (flush_page p b).1.page_table ≡ some 0)
      × (get_elem? (flush_page p b).1.disk_manager.file p ≡ some (page_of b 0).mem)
unfolding flush_page flush_frame
flush_page-absent b p absent open_now =
    let there : get p (insert_frame p 0 b.page_table) ≡ some 0 =
      ap (λ (m : Map ℕ ℕ). get p m) (insert_frame-put p 0 b.page_table absent)
      ∙ get-put_self p 0 b.page_table in
    let b' : Pool = record b { page_table = insert_frame p 0 b.page_table } in
    let run : flush_page p b ≡ flush_frame p (some 0) b' =
      ap (λ (o : Option ℕ). flush_frame p o b') there in
    (
      ap (λ (x : Bool × Pool). x.0) run,
      ap (λ (x : Bool × Pool). get p x.1.page_table) run ∙ there,
      ap (λ (x : Bool × Pool). get_elem? x.1.disk_manager.file p) run
          ∙ (ap (λ (x : Disk). get_elem? x.file p)
                (write_page-open b.disk_manager p (page_of b 0).mem open_now)
              ∙ write_at_self b.disk_manager.file p (page_of b 0).mem),
    )

insert_frame-there : (p f g : ℕ) (t : Map ℕ ℕ) → get p t ≡ some g → insert_frame p f t ≡ t
unfolding insert_frame
insert_frame-there p f g t there =
    ap (λ (o : Option ℕ). elim o as (λ x. Map ℕ ℕ) [ none ↦ put p f t | some h ↦ t ]) there

-- What stays the same, from `b` on, while pages are written to the disk.
record Flushing (b b' : Pool) : Type 0 where
  table : b'.page_table ≡ b.page_table
  mems : (g : ℕ) → (page_of b' g).mem ≡ (page_of b g).mem
  opened : b'.disk_manager.is_open ≡ true
  sized : length b'.disk_manager.file ≡ length b.disk_manager.file

cleaned_mem :
    (ps : List Page) (f g : ℕ)
    → (get_or (set ps f (record (get_or ps f fresh_page) { is_dirty = false })) g fresh_page).mem
      ≡ (get_or ps g fresh_page).mem
cleaned_mem [] f g = refl
cleaned_mem (x ∷ ps) zero zero = refl
cleaned_mem (x ∷ ps) zero (suc g) = refl
cleaned_mem (x ∷ ps) (suc f) zero = refl
cleaned_mem (x ∷ ps) (suc f) (suc g) = cleaned_mem ps f g

module _ (b : Pool) (c : Coherent b) where
  flushed_disk :
      (b' : Pool) (p f : ℕ)
      → Flushing b b'
      → get p b.page_table ≡ some f
      → (flush_page p b').1 ≡ record b' {
        disk_manager = record b'.disk_manager {
          file = write_at b'.disk_manager.file p (page_of b' f).mem;
        };
        pages = set b'.pages f (record (page_of b' f) { is_dirty = false });
      }
  unfolding flush_page flush_frame
  flushed_disk b' p f k at =
      let there : get p b'.page_table ≡ some f = ap (λ (t : Map ℕ ℕ). get p t) k.table ∙ at in
      let same = insert_frame-there p 0 f b'.page_table there in
      ap (λ (t : Map ℕ ℕ). (flush_frame p (get p t) (record b' { page_table = t })).1) same
      ∙ (ap (λ (o : Option ℕ). (flush_frame p o b').1) there
          ∙ ap
              (λ (d : Disk). record b' {
                disk_manager = d;
                pages = set b'.pages f (record (page_of b' f) { is_dirty = false });
              })
              (write_page-open b'.disk_manager p (page_of b' f).mem k.opened))

  flush_page-Flushing :
      (b' : Pool) (p f : ℕ)
      → Flushing b b'
      → get p b.page_table ≡ some f
      → Flushing b (flush_page p b').1
  flush_page-Flushing b' p f k at =
      let there : p < length b'.disk_manager.file =
        subst (λ (n : ℕ). p < n) (sym k.sized) (c.stored p f at) in
      subst (Flushing b) (sym (flushed_disk b' p f k at)) (record {
        table = k.table;
        mems = λ g. cleaned_mem b'.pages f g ∙ k.mems g;
        opened = k.opened;
        sized = length-write_at b'.disk_manager.file p (page_of b' f).mem there ∙ k.sized;
      })

  -- The page that is flushed is stored, and one that was stored stays so.
  flush_page-stores :
      (b' : Pool) (p f q : ℕ)
      → Flushing b b'
      → get p b.page_table ≡ some f
      → ((p ≡ q) ⊎ (get_elem? b'.disk_manager.file q ≡ content b q))
      → get_elem? (flush_page p b').1.disk_manager.file q ≡ content b q
  flush_page-stores b' p f q k at known =
      let there : p < length b'.disk_manager.file =
        subst (λ (n : ℕ). p < n) (sym k.sized) (c.stored p f at) in
      let mem = (page_of b' f).mem in
      let holds : content b p ≡ some mem =
        ap (λ (o : Option ℕ). in_frame b o (get_elem? b.disk_manager.file p)) at
        ∙ ap (λ (m : Bytes). some m) (sym (k.mems f)) in
      let now : get_elem? (write_at b'.disk_manager.file p mem) p ≡ content b p =
        write_at_self b'.disk_manager.file p mem ∙ sym holds in
      ap (λ (x : Pool). get_elem? x.disk_manager.file q) (flushed_disk b' p f k at)
      ∙ elim (Bool-cases (p == q)) [
        | inl same ↦
            subst (λ (i : ℕ). get_elem? (write_at b'.disk_manager.file p mem) i ≡ content b i)
              ((==_iff p q).0 same) now
        | inr other ↦
            let ne : p ≢ q = λ e. ground (arith, e, other, ==_self p) in
            write_at_other b'.disk_manager.file p q mem there ne
            ∙ elim known [ inl same ↦ absurd (ne same) | inr stored ↦ stored ]
      ]

  flush_pages-Flushing :
      (l : Map ℕ ℕ) (b' : Pool)
      → Flushing b b'
      → ((q g : ℕ) → get q l ≡ some g → (f : ℕ) × (get q b.page_table ≡ some f))
      → Flushing b (flush_pages l b')
        × ((q : ℕ)
            → ((g : ℕ) × (get q l ≡ some g)) ⊎ (get_elem? b'.disk_manager.file q ≡ content b q)
            → get_elem? (flush_pages l b').disk_manager.file q ≡ content b q)
  unfolding flush_pages get
  flush_pages-Flushing [] b' k listed =
      (k, λ q known. elim known [ inl (g, e) ↦ absurd (ground (arith, e)) | inr stored ↦ stored ])
  flush_pages-Flushing ((p, h) ∷ l) b' k listed =
      let (f, at) = listed p h (if-true (p == p) _ _ (==_self p)) in
      let (kept, stores) =
        flush_pages-Flushing l (flush_page p b').1 (flush_page-Flushing b' p f k at) (λ q g e.
          elim (Bool-cases (p == q)) [
            | inl same ↦ listed q h (if-true (p == q) (some h) (get q l) same)
            | inr other ↦ listed q g (if-false (p == q) (some h) (get q l) other ∙ e)
          ]) in
      (
        kept,
        λ q known. stores q (elim known [
          | inl (g, e) ↦ elim (Bool-cases (p == q)) [
            | inl same ↦ inr (flush_page-stores b' p f q k at (inl ((==_iff p q).0 same)))
            | inr other ↦ inl (g, sym (if-false (p == q) (some h) (get q l) other) ∙ e)
          ]
          | inr stored ↦ inr (flush_page-stores b' p f q k at (inr stored))
        ]),
      )

  -- After `FlushAllPages`, which the destructor calls, the disk has the contents of every page but the
  -- internal one, when the parts of the pool agree and the file has its internal page.
  pub flush_all_pages-stores :
      1 ≤ length b.disk_manager.file
      → (q : ℕ) → q ≢ 0
      → get_elem? (flush_all_pages b).disk_manager.file q ≡ content b q
  unfolding flush_all_pages fully_flush
  flush_all_pages-stores some_page q nonzero =
      let start : Flushing b b = record {
        table = refl;
        mems = λ g. refl;
        opened = c.opened;
        sized = refl;
      } in
      let (k, stores) = flush_pages-Flushing b.page_table b start (λ i g e. (g, e)) in
      let b' = flush_pages b.page_table b in
      let first : 0 < length b'.disk_manager.file =
        subst (λ (n : ℕ). 0 < n) (sym k.sized) (omega arith) in
      ap (λ (d : Disk). get_elem? d.file q) (if-true b'.disk_manager.is_open _ _ k.opened)
      ∙ (write_at_other b'.disk_manager.file 0 q (internal_page b'.disk_manager) first
            (λ z. nonzero (sym z))
          ∙ stores q (known (get q b.page_table) refl))
    where
      known :
          (o : Option ℕ)
          → get q b.page_table ≡ o
          → ((g : ℕ) × (get q b.page_table ≡ some g))
            ⊎ (get_elem? b.disk_manager.file q ≡ content b q)
      known none e =
          inr (sym (ap (λ (o : Option ℕ). in_frame b o (get_elem? b.disk_manager.file q)) e))
      known (some g) e = inl (g, e)
