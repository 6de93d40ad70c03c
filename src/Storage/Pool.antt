-- ===== src/Storage/Pool.antt =====
-- storage/src/buffer_pool_manager.cpp and storage/include/storage/buffer_pool_manager.h:
-- `BufferPoolManager`, which keeps pages of a file in frames. A `Page *` is the number of its frame.
pub mod Frames
pub mod Coherent
pub mod Repaged
pub mod Taken
pub mod Evicted
pub mod Brought
pub mod Fetch
pub mod Unpinned
pub mod Guards
pub mod Flush
pub mod Created
pub mod Examples
use bh_ticket_system.Base.{
  ℕ, zero, suc, ◌+◌, ◌-◌, ◌%◌, ◌^◌, Bool, true, false, ◌||◌, not, Option, none, some, List, [], ◌∷◌,
  ◌++◌, ◌==◌, leb, if◌then◌else◌, Bytes, get_or, set, replicate, Result, err, ok, runtime_error,
  ◌>>=◌, hash_eq,
}
use bh_ticket_system.Base.Map.{Map, get, put, erase}
use bh_ticket_system.Storage.Replacer.{
  Replacer, new_replacer, record_access, set_evictable, try_evict_least_important,
  try_evict_exact_frame,
}
use bh_ticket_system.Storage.Disk
use bh_ticket_system.Storage.Disk.{
  Disk, k_page_size, read_page, write_page, alloc_new_empty_page_id, fully_flush,
}

pub record Page : Type 0 where
  pub mem : Bytes
  pub is_dirty : Bool
  pub pin_count : ℕ
  pub page_id : ℕ

-- A replacer, the disk manager, the frames, the frame of each page, and the frames without a page.
pub record Pool : Type 0 where
  pub replacer : Replacer
  pub disk_manager : Disk
  pub pages : List Page
  pub page_table : Map ℕ ℕ
  pub free_list : List ℕ

unfoldable pub zero_page : Bytes
zero_page = replicate k_page_size 0

abbrev pub fresh_page : Page
fresh_page = record { mem = zero_page; is_dirty = false; pin_count = 0; page_id = 0 }

abbrev pub page_of : Pool → ℕ → Page
page_of b frame = get_or b.pages frame fresh_page

abbrev pub with_page : ℕ → Page → Pool → Pool
with_page frame page b = record b { pages = set b.pages frame page }

abbrev pub numbers_from : ℕ → ℕ → List ℕ
numbers_from i zero = []
numbers_from i (suc n) = i ∷ numbers_from (i + 1) n

unfoldable pub new_pool : ℕ → ℕ → Disk → Pool
unfolding new_replacer
new_pool pool_size replacer_k disk = record {
  replacer = new_replacer pool_size replacer_k;
  disk_manager = disk;
  pages = replicate pool_size fresh_page;
  page_table = [];
  free_list = numbers_from 0 pool_size;
}

-- `page_table_.insert`: a page that is there keeps its frame.
pub insert_frame : ℕ → ℕ → Map ℕ ℕ → Map ℕ ℕ
unfolding get put
insert_frame page_id frame table = elim (get page_id table) [
  | none ↦ put page_id frame table
  | some there ↦ table
]

-- `RecordAccess`, then `SetEvictable` with false.
pub used_frame : ℕ → Replacer → Replacer
unfolding record_access set_evictable
used_frame frame r = set_evictable frame false (record_access frame r)

-- A frame is taken over by a page, which is pinned once.
pub take_frame : ℕ → ℕ → Bytes → Pool → Pool
unfolding insert_frame used_frame
take_frame frame page_id mem b = record b {
  replacer = used_frame frame b.replacer;
  pages =
      set b.pages frame (record { mem = mem; is_dirty = false; pin_count = 1; page_id = page_id });
  page_table = insert_frame page_id frame b.page_table;
}

-- A victim is written to the disk, if it has to be.
pub written_back : ℕ → Pool → Pool
unfolding write_page
written_back frame b =
    let page = page_of b frame in
    if page.is_dirty
    then record b { disk_manager = write_page page.page_id page.mem b.disk_manager }
    else b

pub without_page_of : ℕ → Pool → Pool
unfolding erase
without_page_of frame b = record b { page_table = erase (page_of b frame).page_id b.page_table }

pub new_page_free : ℕ → List ℕ → Pool → Result (Option (ℕ × ℕ) × Pool)
unfolding take_frame alloc_new_empty_page_id
new_page_free frame rest b = alloc_new_empty_page_id b.disk_manager >>= λ x. ok (
  some (x.0, frame),
  take_frame frame x.0 (page_of b frame).mem (record b { disk_manager = x.1; free_list = rest }),
)

pub new_page_victim : ℕ → Pool → Result (Option (ℕ × ℕ) × Pool)
unfolding take_frame written_back without_page_of alloc_new_empty_page_id
new_page_victim frame b =
    let b' = written_back frame b in
    alloc_new_empty_page_id b'.disk_manager >>= λ x. ok (
      some (x.0, frame),
      take_frame frame x.0 zero_page (without_page_of frame (record b' { disk_manager = x.1 })),
    )

pub new_page_evicted : Option ℕ × Replacer → Pool → Result (Option (ℕ × ℕ) × Pool)
unfolding new_page_victim
new_page_evicted (none, r) b = ok (none, record b { replacer = r })
new_page_evicted (some frame, r) b = new_page_victim frame (record b { replacer = r })

pub new_page_from : List ℕ → Pool → Result (Option (ℕ × ℕ) × Pool)
unfolding new_page_free new_page_evicted try_evict_least_important
new_page_from (frame ∷ rest) b = new_page_free frame rest b
new_page_from [] b = new_page_evicted (try_evict_least_important b.replacer) b

-- `NewPage`: the page and its frame, if there is one.
unfoldable pub new_page : Pool → Result (Option (ℕ × ℕ) × Pool)
unfolding new_page_from
new_page b = new_page_from b.free_list b

-- A page that is in a frame.
pub fetch_kept : ℕ → Pool → Pool
unfolding used_frame
fetch_kept frame b =
    let page = page_of b frame in
    record b {
      replacer = used_frame frame b.replacer;
      pages = set b.pages frame (record page { pin_count = (page.pin_count + 1) % 2 ^ 64 });
    }

pub fetch_free : ℕ → ℕ → List ℕ → Pool → Pool
unfolding take_frame read_page
fetch_free page_id frame rest b =
    take_frame frame page_id (read_page page_id (page_of b frame).mem b.disk_manager)
      (record b { free_list = rest })

pub fetch_victim : ℕ → ℕ → Pool → Pool
unfolding take_frame written_back without_page_of read_page
fetch_victim page_id frame b =
    let b' = written_back frame b in
    take_frame frame page_id (read_page page_id (page_of b frame).mem b'.disk_manager)
      (without_page_of frame b')

pub fetch_evicted : ℕ → Option ℕ × Replacer → Pool → Option ℕ × Pool
unfolding fetch_victim
fetch_evicted page_id (none, r) b = (none, record b { replacer = r })
fetch_evicted page_id (some frame, r) b =
    (some frame, fetch_victim page_id frame (record b { replacer = r }))

-- A page that is in no frame: a free frame takes it, or one that is given up.
pub fetch_missing : ℕ → List ℕ → Pool → Option ℕ × Pool
unfolding fetch_free fetch_evicted try_evict_least_important
fetch_missing page_id (frame ∷ rest) b = (some frame, fetch_free page_id frame rest b)
fetch_missing page_id [] b = fetch_evicted page_id (try_evict_least_important b.replacer) b

pub fetch_from : ℕ → Option ℕ → Pool → Option ℕ × Pool
unfolding fetch_kept fetch_missing
fetch_from page_id (some frame) b = (some frame, fetch_kept frame b)
fetch_from page_id none b = fetch_missing page_id b.free_list b

-- `FetchPage`
unfoldable pub fetch_page : ℕ → Pool → Option ℕ × Pool
unfolding fetch_from get
fetch_page page_id b = fetch_from page_id (get page_id b.page_table) b

pub unpin_frame : Option ℕ → Bool → Pool → Bool × Pool
unfolding set_evictable
unpin_frame none is_dirty b = (false, b)
unpin_frame (some frame) is_dirty b =
    let page = page_of b frame in
    if page.pin_count == 0 then (false, b) else (
      true,
      record b {
        replacer = if page.pin_count == 1 then set_evictable frame true b.replacer else b.replacer;
        pages = set b.pages frame (record page {
          pin_count = page.pin_count - 1;
          is_dirty = if is_dirty then true else page.is_dirty;
        });
      },
    )

-- `UnpinPage`
unfoldable pub unpin_page : ℕ → Bool → Pool → Bool × Pool
unfolding unpin_frame get
unpin_page page_id is_dirty b = unpin_frame (get page_id b.page_table) is_dirty b

pub flush_frame : ℕ → Option ℕ → Pool → Bool × Pool
unfolding write_page
flush_frame page_id none b = (false, b)
flush_frame page_id (some frame) b =
    let page = page_of b frame in
    (
      true,
      record b {
        disk_manager = write_page page_id page.mem b.disk_manager;
        pages = set b.pages frame (record page { is_dirty = false });
      },
    )

-- `FlushPage`: `page_table_[page_id]` comes before the test, and puts frame 0 there for a page that
-- is not in the table.
unfoldable pub flush_page : ℕ → Pool → Bool × Pool
unfolding flush_frame get insert_frame
flush_page page_id b =
    let b' = record b { page_table = insert_frame page_id 0 b.page_table } in
    flush_frame page_id (get page_id b'.page_table) b'

pub flush_pages : Map ℕ ℕ → Pool → Pool
unfolding flush_page
flush_pages [] b = b
flush_pages ((page_id, frame) ∷ table) b = flush_pages table (flush_page page_id b).1

-- `FlushAllPages`, which the destructor calls.
unfoldable pub flush_all_pages : Pool → Pool
unfolding flush_pages fully_flush
flush_all_pages b =
    let b' = flush_pages b.page_table b in record b' { disk_manager = fully_flush b'.disk_manager }

-- `DeletePage`
unfoldable pub delete_page : ℕ → Pool → Bool × Pool
unfolding get erase try_evict_exact_frame Disk.deallocate_page
delete_page page_id b = elim (get page_id b.page_table) [
  | none ↦ (true, b)
  | some frame ↦ if leb 1 (page_of b frame).pin_count then (false, b) else (
    true,
    record (with_page frame fresh_page b) {
      replacer = (try_evict_exact_frame frame b.replacer).1;
      disk_manager = Disk.deallocate_page page_id b.disk_manager;
      page_table = erase page_id b.page_table;
      free_list = b.free_list ++ frame ∷ [];
    },
  )
]

-- A write through the pointer to a frame's memory.
pub write_data : ℕ → Bytes → Pool → Pool
write_data frame mem b = with_page frame (record (page_of b frame) { mem = mem }) b

pub or_full : {A : Type 0} → Option A × Pool → Result (A × Pool)
or_full (none, b) = err runtime_error
or_full (some a, b) = ok (a, b)

-- `FetchPageBasic`, `FetchPageRead` and `FetchPageWrite`, without the latches.
unfoldable pub fetch_page_guarded : ℕ → Pool → Result (ℕ × Pool)
unfolding fetch_page or_full
fetch_page_guarded page_id b = or_full (fetch_page page_id b)

-- `NewPageGuarded`
unfoldable pub new_page_guarded : Pool → Result ((ℕ × ℕ) × Pool)
unfolding new_page or_full
new_page_guarded b = new_page b >>= λ x. or_full x

-- `BasicPageGuard`: `bpm_` is not kept apart from `page_`.
pub record PageGuard : Type 0 where
  pub page : Option ℕ
  pub is_dirty : Bool

-- `BasicPageGuard::Drop`, which the destructor calls.
unfoldable pub drop_guard : PageGuard → Pool → PageGuard × Pool
unfolding unpin_page
drop_guard g b = elim g.page [
  | none ↦ (g, b)
  | some frame ↦ (
    record { page = none; is_dirty = false },
    (unpin_page (page_of b frame).page_id g.is_dirty b).1,
  )
]
