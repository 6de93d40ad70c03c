-- ===== src/Storage/Disk.antt =====
-- storage/src/disk_manager.cpp and storage/include/storage/disk_manager.h: `DiskManager`, which gives
-- out the pages of a file.
pub mod InFile
pub mod Contract
pub mod Sound
pub mod Holds
pub mod Given
pub mod Served
pub mod Refine
pub mod Examples
use bh_ticket_system.Base.{
  ℕ, zero, suc, ◌+◌, ◌-◌, ◌*◌, ◌/◌, ◌%◌, ◌^◌, Bool, true, false, Option, none, some, List, [], ◌∷◌,
  ◌++◌, ◌==◌, if◌then◌else◌, Bytes, get_or, replicate, drop, Result, err, ok, undefined,
}

abbrev pub k_page_size : ℕ
k_page_size = 4096

abbrev pub meta_data_size : ℕ
meta_data_size = 20

-- An integer of `n` bytes in memory, the low byte first.
pub le_bytes : ℕ → ℕ → Bytes
le_bytes zero x = []
le_bytes (suc n) x = (x % 256) ∷ le_bytes n (x / 256)

pub le_number : ℕ → Bytes → ℕ
le_number zero bs = 0
le_number (suc n) [] = 0
le_number (suc n) (b ∷ bs) = b + 256 * le_number n bs

-- `file` is the list of the pages of the file, the internal page first, and outlives the manager;
-- `is_open` says that `fp` is not null.
pub record Disk : Type 0 where
  pub first_empty_page_id : ℕ
  pub current_total_page_count : ℕ
  pub current_none_empty_page_count : ℕ
  pub raw_data_memory : Bytes
  pub page_buf : Bytes
  pub is_new : Bool
  pub is_open : Bool
  pub file : List Bytes

-- `fseek` to a page and `fwrite` of one; what lies between the end of the file and it reads as zero.
pub write_at : List Bytes → ℕ → Bytes → List Bytes
write_at [] zero page = page ∷ []
write_at [] (suc n) page = replicate k_page_size 0 ∷ write_at [] n page
write_at (x ∷ xs) zero page = page ∷ xs
write_at (x ∷ xs) (suc n) page = x ∷ write_at xs n page

-- What `FullyFlush` writes.
pub internal_page : Disk → Bytes
unfolding le_bytes
internal_page d =
    le_bytes 4 d.first_empty_page_id
    ++ (le_bytes 8 d.current_total_page_count
        ++ (le_bytes 8 d.current_none_empty_page_count ++ d.raw_data_memory))

unfoldable pub fully_flush : Disk → Disk
unfolding write_at internal_page
fully_flush d = if d.is_open then record d { file = write_at d.file 0 (internal_page d) } else d

-- The constructor on the file that is there, if one is.
pub open_file : Option (List Bytes) → Disk
unfolding fully_flush le_number
open_file none = fully_flush (record {
  first_empty_page_id = 0;
  current_total_page_count = 0;
  current_none_empty_page_count = 0;
  raw_data_memory = replicate (k_page_size - meta_data_size) 0;
  page_buf = replicate k_page_size 0;
  is_new = true;
  is_open = true;
  file = [];
})
open_file (some file) =
    let page = get_or file 0 [] in
    record {
      first_empty_page_id = le_number 4 page;
      current_total_page_count = le_number 8 (drop 4 page);
      current_none_empty_page_count = le_number 8 (drop 12 page);
      raw_data_memory = drop meta_data_size page;
      page_buf = replicate k_page_size 0;
      is_new = false;
      is_open = true;
      file = file;
    }

unfoldable pub open_disk : Option (List Bytes) → Bool → Disk
unfolding open_file
open_disk file renew = open_file (if renew then none else file)

unfoldable pub close : Disk → Disk
unfolding fully_flush
close d = if d.is_open then record (fully_flush d) { is_open = false } else d

-- What is in the buffer of the caller afterwards.
unfoldable pub read_page : ℕ → Bytes → Disk → Bytes
read_page page_id buffer d = if d.is_open then get_or d.file page_id buffer else buffer

unfoldable pub write_page : ℕ → Bytes → Disk → Disk
unfolding write_at
write_page page_id page d =
    if d.is_open then record d { file = write_at d.file page_id page } else d

-- A new page is appended when no page is empty.
pub append_page : Disk → Result (ℕ × Disk)
append_page d =
    let total = (d.current_total_page_count + 1) % 2 ^ 64 in
    if d.is_open
    then ok (
      total % 2 ^ 32,
      record d {
        current_total_page_count = total;
        current_none_empty_page_count = (d.current_none_empty_page_count + 1) % 2 ^ 64;
        file = d.file ++ d.page_buf ∷ [];
      },
    )
    else err undefined

-- The first empty page, which holds the place of the next one.
pub take_empty_page : Disk → ℕ × Disk
unfolding read_page le_number
take_empty_page d =
    let page = read_page d.first_empty_page_id d.page_buf d in
    (
      d.first_empty_page_id,
      record d {
        first_empty_page_id = le_number 4 page;
        current_none_empty_page_count = (d.current_none_empty_page_count + 1) % 2 ^ 64;
        page_buf = page;
      },
    )

unfoldable pub alloc_new_empty_page_id : Disk → Result (ℕ × Disk)
unfolding append_page take_empty_page
alloc_new_empty_page_id d =
    if d.first_empty_page_id == 0 then append_page d else ok (take_empty_page d)

unfoldable pub deallocate_page : ℕ → Disk → Disk
unfolding write_page le_bytes
deallocate_page page_id d =
    let page = le_bytes 4 d.first_empty_page_id ++ drop 4 d.page_buf in
    record (write_page page_id page d) {
      first_empty_page_id = page_id;
      current_none_empty_page_count = (d.current_none_empty_page_count + (2 ^ 64 - 1)) % 2 ^ 64;
      page_buf = page;
    }
