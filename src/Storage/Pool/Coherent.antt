-- ===== src/Storage/Pool/Coherent.antt =====
-- storage/src/buffer_pool_manager.cpp: a pool whose frames, table and disk agree, and the contents
-- that its pages have.

use bh_ticket_system.Base.{
  ℕ, ◌≤◌, ◌<◌, ◌≡◌, ◌≢◌, ap, ◌∙◌, true, false, Option, none, some, length, ◌==◌, hash_eq, Bytes,
  get_elem?, if◌then◌else◌,
}
use bh_ticket_system.Base.Map.{Map, get, put, get-put}
use bh_ticket_system.Storage.Replacer.{record_of}
use bh_ticket_system.Storage.Replacer.Valid
use bh_ticket_system.Storage.Replacer.Valid.{can_go}
use bh_ticket_system.Storage.Disk.Contract.{occurs}
use bh_ticket_system.Storage.Pool.{Pool, page_of, insert_frame}

-- What a page holds: in its frame, or on the disk.
abbrev pub in_frame : Pool → Option ℕ → Option Bytes → Option Bytes
in_frame b none stored = stored
in_frame b (some frame) stored = some (page_of b frame).mem

abbrev pub content : Pool → ℕ → Option Bytes
content b p = in_frame b (get p b.page_table) (get_elem? b.disk_manager.file p)

pub record Coherent (b : Pool) : Type 0 where
  pub lru : Valid.Valid b.replacer
  pub sized : length b.replacer.hash_for_record ≡ length b.pages
  pub opened : b.disk_manager.is_open ≡ true
  pub held :
      (p f : ℕ) → get p b.page_table ≡ some f → (f < length b.pages) × ((page_of b f).page_id ≡ p)
  pub stored : (p f : ℕ) → get p b.page_table ≡ some f → p < length b.disk_manager.file
  pub once : (f : ℕ) → occurs f b.free_list ≤ 1
  pub free :
      (f p : ℕ) → 1 ≤ occurs f b.free_list → (f < length b.pages) × (get p b.page_table ≢ some f)
  pub idle :
      (f : ℕ)
      → can_go (record_of b.replacer f) ≡ true
      → (get (page_of b f).page_id b.page_table ≡ some f) × ((page_of b f).pin_count ≡ 0)
  pub clean :
      (p f : ℕ)
      → get p b.page_table ≡ some f
      → (page_of b f).pin_count ≡ 0
      → (page_of b f).is_dirty ≡ false
      → get_elem? b.disk_manager.file p ≡ some (page_of b f).mem

-- A frame that no page is in.
pub record Vacant (f : ℕ) (b : Pool) : Type 0 where
  pub inside : f < length b.pages
  pub nowhere : (p : ℕ) → get p b.page_table ≢ some f
  pub not_free : occurs f b.free_list ≡ 0
  pub stays : can_go (record_of b.replacer f) ≡ false

pub insert_frame-put : (p f : ℕ) (t : Map ℕ ℕ) → get p t ≡ none → insert_frame p f t ≡ put p f t
unfolding insert_frame
insert_frame-put p f t absent =
    ap (λ (o : Option ℕ). elim o as (λ x. Map ℕ ℕ) [ none ↦ put p f t | some there ↦ t ]) absent

pub get-insert_frame :
    (p q f : ℕ) (t : Map ℕ ℕ)
    → get p t ≡ none
    → get q (insert_frame p f t) ≡ (if p == q then some f else get q t)
get-insert_frame p q f t absent =
    ap (λ (m : Map ℕ ℕ). get q m) (insert_frame-put p f t absent) ∙ get-put p q f t
