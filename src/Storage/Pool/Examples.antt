-- ===== src/Storage/Pool/Examples.antt =====
-- storage/src/buffer_pool_manager.cpp: a pool of one frame on a file of two pages.
use mathlib.Core.Path.{subst}
use bh_ticket_system.Base.{
  hash_eq, get_elem?, ◌≢◌, ℕ, ◌≡◌, ◌≢◌, ◌⊎◌, refl, arith, true, false, some, [], ◌∷◌, Bytes, ok,
  err, runtime_error, ◌>>=◌,
}
use bh_ticket_system.Storage.Disk.{Disk}
use bh_ticket_system.Storage.Pool.{Pool, page_of, flush_page, flush_all_pages, new_pool, fetch_page}
use bh_ticket_system.Base.Map.{get}
use bh_ticket_system.Storage.Pool.Flush.{flush_page-absent, flush_all_pages-stores}
use bh_ticket_system.Storage.Pool.Coherent.{Coherent, content}
use bh_ticket_system.Storage.Pool.Created.{new_pool-Coherent, new_pool-Young}
use bh_ticket_system.Storage.Pool.Brought.{Fetched}
use bh_ticket_system.Storage.Pool.Fetch.{fetch_page-Fetched}
use bh_ticket_system.Storage.Pool.Guards.{
  IsFull, read_through, write_through, read_through-content, write_through-content,
}

abbrev two_pages : Disk
two_pages = record {
  first_empty_page_id = 0;
  current_total_page_count = 2;
  current_none_empty_page_count = 2;
  raw_data_memory = [];
  page_buf = [];
  is_new = false;
  is_open = true;
  file = [] ∷ (1 ∷ []) ∷ (2 ∷ []) ∷ [];
}

abbrev one_frame : Pool
one_frame = new_pool 1 2 two_pages

one_frame-Coherent : Coherent one_frame
one_frame-Coherent = new_pool-Coherent 1 2 two_pages (omega arith) (omega arith) refl

fetch_page-Fetched_example : Fetched one_frame 2 (fetch_page 2 one_frame)
unfolding new_pool
fetch_page-Fetched_example =
    fetch_page-Fetched one_frame 2 one_frame-Coherent (new_pool-Young 1 2 two_pages) (omega arith)

read_through-content_example :
    ((read_through 2 one_frame ≡ err runtime_error) × IsFull one_frame 2)
    ⊎ ((mem : Bytes) × (b : Pool) × (read_through 2 one_frame ≡ ok (mem, b))
        × (content one_frame 2 ≡ some mem)
        × Coherent b
        × ((q : ℕ) → content b q ≡ content one_frame q))
unfolding new_pool
read_through-content_example =
    read_through-content one_frame 2 one_frame-Coherent (new_pool-Young 1 2 two_pages) (omega arith)

write_through-content_example :
    ((write_through 1 (5 ∷ []) one_frame ≡ err runtime_error) × IsFull one_frame 1)
    ⊎ ((b : Pool) × (write_through 1 (5 ∷ []) one_frame ≡ ok b)
        × (content b 1 ≡ some (5 ∷ []))
        × Coherent b
        × ((q : ℕ) → 1 ≢ q → content b q ≡ content one_frame q))
unfolding new_pool
write_through-content_example =
    write_through-content one_frame 1 (5 ∷ []) one_frame-Coherent (new_pool-Young 1 2 two_pages)
      (omega arith)

-- Page 1 is written, leaves the frame for page 2, and is read again.
evicted_and_read :
    (write_through 1 (5 ∷ []) one_frame >>= λ b.
    read_through 2 b >>= λ x. read_through 1 x.1 >>= λ y. ok y.0)
    ≡ ok (5 ∷ [])
unfolding write_through read_through new_pool
evicted_and_read = refl

flush_page-absent_example :
    ((flush_page 2 one_frame).0 ≡ true)
    × (get 2 (flush_page 2 one_frame).1.page_table ≡ some 0)
    × (get_elem? (flush_page 2 one_frame).1.disk_manager.file 2 ≡ some (page_of one_frame 0).mem)
unfolding new_pool get
flush_page-absent_example = flush_page-absent one_frame 2 refl refl

-- A pool that holds a page which was written.
abbrev dirty_pool : Pool
dirty_pool = record one_frame {
  pages = record { mem = 7 ∷ []; is_dirty = true; pin_count = 1; page_id = 2 } ∷ [];
  page_table = (2, 0) ∷ [];
  free_list = [];
}

only_page : (p f : ℕ) → get p dirty_pool.page_table ≡ some f → (p ≡ 2) × (f ≡ 0)
unfolding get
only_page p f e = ground (arith, e)

dirty_pool-Coherent : Coherent dirty_pool
unfolding new_pool get
dirty_pool-Coherent = record {
  lru = one_frame-Coherent.lru;
  sized = refl;
  opened = refl;
  held = λ p f e. ground (arith, only_page p f e);
  stored = λ p f e. ground (arith, only_page p f e);
  once = λ f. omega arith;
  free = λ f p i. absurd (omega arith);
  idle =
      λ f goes. absurd (let (at, unpinned) = one_frame-Coherent.idle f goes in ground (arith, at));
  clean = λ p f e none_now. absurd (
      let one : 1 ≡ 0 =
        subst (λ (i : ℕ). (page_of dirty_pool i).pin_count ≡ 0) (only_page p f e).1 none_now in
      omega arith);
}

flush_all_pages-stores_example :
    get_elem? (flush_all_pages dirty_pool).disk_manager.file 2 ≡ content dirty_pool 2
unfolding new_pool
flush_all_pages-stores_example =
    flush_all_pages-stores dirty_pool dirty_pool-Coherent (omega arith) 2 (λ z. omega arith)

dirty_page_flushed : get_elem? (flush_all_pages dirty_pool).disk_manager.file 2 ≡ some (7 ∷ [])
unfolding flush_all_pages new_pool
dirty_page_flushed = refl
