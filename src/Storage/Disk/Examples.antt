-- ===== src/Storage/Disk/Examples.antt =====
-- storage/src/disk_manager.cpp: pages of a small file.
use bh_ticket_system.Base.{
  ℕ, ◌≤◌, ◌≡◌, refl, arith, true, false, none, List, [], ◌∷◌, ok, replicate,
}
use bh_ticket_system.Storage.Disk.{
  Disk, open_disk, alloc_new_empty_page_id, write_at, internal_page, k_page_size,
}
use bh_ticket_system.Storage.Disk.Contract.{
  Call, alloc, dealloc, write, read, raw_write, raw_read, restart, id, bytes, done, calls, serve,
  serve_all, MayCallAll, occurs, restarted,
}
use bh_ticket_system.Storage.Disk.Holds.{Holds}
use bh_ticket_system.Storage.Disk.Given.{alloc_new_empty_page_id-fresh}
use bh_ticket_system.Storage.Disk.Refine.{
  new_volume, new_disk-Holds, calls_on_new-refine, restarted-same,
}

abbrev pages_used : List Call
pages_used =
    alloc
    ∷ alloc
    ∷ write 1 (7 ∷ 8 ∷ [])
    ∷ dealloc 2
    ∷ raw_write (5 ∷ [])
    ∷ restart
    ∷ alloc
    ∷ write 2 (9 ∷ [])
    ∷ read 1 []
    ∷ read 2 []
    ∷ raw_read
    ∷ alloc
    ∷ []

pages_used-MayCallAll : MayCallAll new_volume pages_used
pages_used-MayCallAll = (
  omega arith,
  (
    omega arith,
    (
      omega arith,
      (
        omega arith,
        (
          tt,
          (
            tt,
            (
              omega arith,
              (omega arith, ((7 ∷ 8 ∷ [], refl), ((9 ∷ [], refl), (tt, (omega arith, tt))))),
            ),
          ),
        ),
      ),
    ),
  ),
)

calls_on_new-refine_example :
    (after : Disk) × (calls pages_used (open_disk none false)
      ≡ ok (
        id 1
            ∷ id 2
            ∷ done
            ∷ done
            ∷ done
            ∷ done
            ∷ id 2
            ∷ done
            ∷ bytes (7 ∷ 8 ∷ [])
            ∷ bytes (9 ∷ [])
            ∷ bytes (5 ∷ [])
            ∷ id 3
            ∷ [],
        after,
      ))
    × Holds after (serve_all pages_used new_volume).1
calls_on_new-refine_example = calls_on_new-refine pages_used pages_used-MayCallAll

alloc_new_empty_page_id-fresh_example :
    (p : ℕ) × (after : Disk) × (alloc_new_empty_page_id (open_disk none false) ≡ ok (p, after))
    × ((serve alloc new_volume).0 ≡ id p)
    × (1 ≤ p)
    × (occurs p [] ≡ 0)
    × Holds after (serve alloc new_volume).1
alloc_new_empty_page_id-fresh_example =
    alloc_new_empty_page_id-fresh (open_disk none false) new_volume (omega arith) new_disk-Holds

abbrev small_disk : Disk
small_disk = record {
  first_empty_page_id = 2;
  current_total_page_count = 2;
  current_none_empty_page_count = 1;
  raw_data_memory = 6 ∷ [];
  page_buf = [];
  is_new = true;
  is_open = true;
  file = [] ∷ (1 ∷ []) ∷ (0 ∷ 0 ∷ 0 ∷ 0 ∷ []) ∷ [];
}

restarted-same_example : restarted small_disk ≡ record small_disk {
  page_buf = replicate k_page_size 0;
  is_new = false;
  is_open = true;
  file = write_at small_disk.file 0 (internal_page small_disk);
}
restarted-same_example = restarted-same small_disk refl (omega arith) (omega arith) (omega arith)
