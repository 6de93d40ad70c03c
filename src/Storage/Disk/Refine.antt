-- ===== src/Storage/Disk/Refine.antt =====
-- storage/src/disk_manager.cpp: sequences of calls of `DiskManager`, across restarts.
use mathlib.Core.Path.{subst}
use bh_ticket_system.Base.{
  ◌-◌, ◌^◌, ◌<◌, ◌≡◌, ◌∙◌, refl, sym, ap, true, false, none, some, List, [], ◌∷◌, Bytes, get_or,
  arith, ok, replicate, if-true,
}
use bh_ticket_system.Storage.Disk.{
  Disk, write_at, deallocate_page, write_page, read_page, open_disk, open_file, close, fully_flush,
  internal_page, k_page_size, meta_data_size,
}
use bh_ticket_system.Storage.Disk.InFile.{
  write_at_ne, write_at_self, get_or_elem, length-write_at, first_field, second_field, third_field,
  rest_field,
}
use bh_ticket_system.Storage.Disk.Contract.{
  Call, bytes, alloc, dealloc, write, read, raw_write, raw_read, restart, Volume, call, calls,
  serve, serve_all, MayCall, MayCallAll, restarted,
}
use bh_ticket_system.Storage.Disk.Holds.{Holds, Linked-internal, Linked-head}
use bh_ticket_system.Storage.Disk.Sound.{empty_inside}
use bh_ticket_system.Storage.Disk.Given.{Serves, alloc-Serves}
use bh_ticket_system.Storage.Disk.Served.{write_page-Holds, deallocate_page-Holds}

file-close : (d : Disk) → d.is_open ≡ true → (close d).file ≡ write_at d.file 0 (internal_page d)
unfolding close fully_flush
file-close d open_now =
    ap (λ (x : Disk). x.file)
      (if-true d.is_open (record (fully_flush d) { is_open = false }) d open_now)
    ∙ ap (λ (x : Disk). x.file)
        (if-true d.is_open (record d { file = write_at d.file 0 (internal_page d) }) d open_now)

-- The internal page is read back from a file that it was written to.
open_file-internal_page :
    (d : Disk)
    → d.first_empty_page_id < 2 ^ 32
    → d.current_total_page_count < 2 ^ 64
    → d.current_none_empty_page_count < 2 ^ 64
    → open_file (some (write_at d.file 0 (internal_page d))) ≡ record d {
      page_buf = replicate k_page_size 0;
      is_new = false;
      is_open = true;
      file = write_at d.file 0 (internal_page d);
    }
unfolding open_file internal_page
open_file-internal_page d small_id small_total small_count =
    let file = write_at d.file 0 (internal_page d) in
    let read_back : get_or file 0 [] ≡ internal_page d =
      get_or_elem file 0 [] (write_at_self d.file 0 (internal_page d)) in
    let x = d.first_empty_page_id in
    let y = d.current_total_page_count in
    let z = d.current_none_empty_page_count in
    let raw = d.raw_data_memory in
    rw
      (
        read_back,
        first_field x y z raw small_id,
        second_field x y z raw small_total,
        third_field x y z raw small_count,
        rest_field x y z raw,
      )
      refl

-- A manager that is destroyed and built again on its file has the fields that it had; the file has
-- its old pages but for the internal one.
pub restarted-same :
    (d : Disk)
    → d.is_open ≡ true
    → d.first_empty_page_id < 2 ^ 32
    → d.current_total_page_count < 2 ^ 64
    → d.current_none_empty_page_count < 2 ^ 64
    → restarted d ≡ record d {
      page_buf = replicate k_page_size 0;
      is_new = false;
      is_open = true;
      file = write_at d.file 0 (internal_page d);
    }
unfolding restarted open_disk
restarted-same d open_now small_id small_total small_count =
    ap (λ (file : List Bytes). open_file (some file)) (file-close d open_now)
    ∙ open_file-internal_page d small_id small_total small_count

restarted-Holds : (d : Disk) (v : Volume) → Holds d v → Holds (restarted d) v
restarted-Holds d v h =
    let small = h.below in
    let total = h.total in
    let sized = h.sized in
    let all = h.sound.all in
    let count = h.count in
    let page = internal_page d in
    let first =
      Linked-head d.file d.first_empty_page_id v.total v.empty (empty_inside v h.sound) h.links in
    let same = restarted-same d h.opened (omega arith) (omega arith) (omega arith) in
    subst (λ (x : Disk). Holds x v) (sym same)
      (record {
        opened = refl;
        links = Linked-internal d.file d.first_empty_page_id v.empty page h.links;
        total = h.total;
        sized = length-write_at d.file 0 page (omega arith) ∙ h.sized;
        below = h.below;
        count = h.count;
        raw = h.raw;
        sound = h.sound;
        known = λ p old e.
            let (nonzero, there) = h.known p old e in
            (nonzero, write_at_ne d.file 0 p page (λ z. nonzero (sym z)) there);
      })

-- Each call of a disk that keeps the promise is answered as promised.
pub call-Serves :
    (c : Call) (d : Disk) (v : Volume) → MayCall v c → Holds d v → Serves (call c d) (serve c v)
unfolding call read_page
call-Serves alloc d v m h = alloc-Serves d v m h
call-Serves (dealloc p) d v m h = (deallocate_page p d, refl, deallocate_page-Holds d v p m h)
call-Serves (write p page) d v m h = (write_page p page d, refl, write_page-Holds d v p page m h)
call-Serves (read p buffer) d v (page, e) h = (
  d,
  ap (λ (x : Bytes). ok (bytes x, d))
      (if-true d.is_open _ _ h.opened
        ∙ get_or_elem d.file p buffer (h.known p page e).1
        ∙ rw e refl),
  h,
)
call-Serves (raw_write bs) d v m h = (
  record d { raw_data_memory = bs },
  refl,
  record {
    opened = h.opened;
    links = h.links;
    total = h.total;
    sized = h.sized;
    below = h.below;
    count = h.count;
    raw = refl;
    sound = record { once = h.sound.once; inside = h.sound.inside; all = h.sound.all };
    known = h.known;
  },
)
call-Serves raw_read d v m h = (d, ap (λ (x : Bytes). ok (bytes x, d)) h.raw, h)
call-Serves restart d v m h = (restarted d, refl, restarted-Holds d v h)

-- Calls on pages in use are all answered, as the promised volume answers them, over any number of
-- restarts, and leave a disk that keeps its promise.
pub calls-refine :
    (cs : List Call) (d : Disk) (v : Volume)
    → MayCallAll v cs
    → Holds d v
    → (after : Disk) × (calls cs d ≡ ok ((serve_all cs v).0, after))
      × Holds after (serve_all cs v).1
unfolding calls
calls-refine [] d v m h = (d, refl, h)
calls-refine (c ∷ cs) d v (now, later) h =
    let (middle, first, kept) = call-Serves c d v now h in
    let (after, rest, end) = calls-refine cs middle (serve c v).1 later kept in
    (after, rw (first, rest) refl, end)

-- What is promised of a file that is created.
abbrev pub new_volume : Volume
new_volume = record {
  total = 0;
  used = [];
  empty = [];
  raw = replicate (k_page_size - meta_data_size) 0;
  written = λ p. none;
}

pub new_disk-Holds : Holds (open_disk none false) new_volume
unfolding open_disk open_file fully_flush write_at
new_disk-Holds = record {
  opened = refl;
  links = refl;
  total = refl;
  sized = refl;
  below = omega arith;
  count = refl;
  raw = refl;
  sound = record { once = λ p. omega arith; inside = λ p i. absurd (omega arith); all = refl };
  known = λ p page e. absurd (ground (arith, e));
}

-- Calls on a file that is created are all answered as the promised volume answers them, over any
-- number of restarts, when they give back, write and read pages in use, read what was written
-- before, and there are fewer than 2^32 pages.
pub calls_on_new-refine :
    (cs : List Call)
    → MayCallAll new_volume cs
    → (after : Disk) × (calls cs (open_disk none false) ≡ ok ((serve_all cs new_volume).0, after))
      × Holds after (serve_all cs new_volume).1
calls_on_new-refine cs m = calls-refine cs (open_disk none false) new_volume m new_disk-Holds
