-- ===== src/Storage/Disk/Contract.antt =====
-- storage/src/disk_manager.cpp: what `DiskManager` promises to its caller: pages that hold what was
-- written to them, and a stack of the pages that were given back.
use bh_ticket_system.Base.{
  ℕ, ◌+◌, ◌^◌, ◌≤◌, ◌<◌, ◌≡◌, false, Option, none, some, List, [], ◌∷◌, ◌==◌, length, if◌then◌else◌,
  Bytes, Result, ok, ◌>>=◌,
}
use bh_ticket_system.Storage.Disk.{
  Disk, alloc_new_empty_page_id, deallocate_page, write_page, read_page, open_disk, close,
}

-- `raw_write` and `raw_read` are what a caller does with the pointer of `RawDataMemory`. `restart`
-- is the destructor, then the constructor on the same file.
pub data Call : Type 0 where
  alloc : Call
  dealloc : ℕ → Call
  write : ℕ → Bytes → Call
  read : ℕ → Bytes → Call
  raw_write : Bytes → Call
  raw_read : Call
  restart : Call

pub data Answer : Type 0 where
  id : ℕ → Answer
  bytes : Bytes → Answer
  done : Answer

unfoldable pub restarted : Disk → Disk
unfolding open_disk close
restarted d = open_disk (some (close d).file) false

unfoldable pub call : Call → Disk → Result (Answer × Disk)
unfolding alloc_new_empty_page_id deallocate_page write_page read_page restarted
call alloc d = alloc_new_empty_page_id d >>= λ x. ok (id x.0, x.1)
call (dealloc p) d = ok (done, deallocate_page p d)
call (write p page) d = ok (done, write_page p page d)
call (read p buffer) d = ok (bytes (read_page p buffer d), d)
call (raw_write bs) d = ok (done, record d { raw_data_memory = bs })
call raw_read d = ok (bytes d.raw_data_memory, d)
call restart d = ok (done, restarted d)

unfoldable pub calls : List Call → Disk → Result (List Answer × Disk)
unfolding call
calls [] d = ok ([], d)
calls (c ∷ cs) d = call c d >>= λ x. calls cs x.1 >>= λ y. ok (x.0 ∷ y.0, y.1)

-- The pages are 1 to `total`; `used` are those that are given out, `empty` is the stack of those that
-- were given back; `written` says what a page holds since it was given out.
pub record Volume : Type 0 where
  pub total : ℕ
  pub used : List ℕ
  pub empty : List ℕ
  pub raw : Bytes
  pub written : ℕ → Option Bytes

abbrev pub occurs : ℕ → List ℕ → ℕ
occurs p [] = 0
occurs p (i ∷ is) = (if i == p then 1 else 0) + occurs p is

abbrev pub remove : ℕ → List ℕ → List ℕ
remove p [] = []
remove p (i ∷ is) = if i == p then is else i ∷ remove p is

abbrev pub written_over : ℕ → Option Bytes → (ℕ → Option Bytes) → ℕ → Option Bytes
written_over p page written q = if p == q then page else written q

abbrev pub or_buffer : Option Bytes → Bytes → Bytes
or_buffer none buffer = buffer
or_buffer (some page) buffer = page

abbrev pub serve_alloc : List ℕ → Volume → Answer × Volume
serve_alloc [] v =
    (id (v.total + 1), record v { total = v.total + 1; used = (v.total + 1) ∷ v.used })
serve_alloc (p ∷ ps) v = (id p, record v { used = p ∷ v.used; empty = ps })

abbrev pub serve : Call → Volume → Answer × Volume
serve alloc v = serve_alloc v.empty v
serve (dealloc p) v = (
  done,
  record v { used = remove p v.used; empty = p ∷ v.empty; written = written_over p none v.written },
)
serve (write p page) v = (done, record v { written = written_over p (some page) v.written })
serve (read p buffer) v = (bytes (or_buffer (v.written p) buffer), v)
serve (raw_write bs) v = (done, record v { raw = bs })
serve raw_read v = (bytes v.raw, v)
serve restart v = (done, v)

abbrev pub serve_all : List Call → Volume → List Answer × Volume
serve_all [] v = ([], v)
serve_all (c ∷ cs) v =
    let (answer, after) = serve c v in
    let (answers, end) = serve_all cs after in (answer ∷ answers, end)

-- A page that was given out and not given back.
abbrev pub InUse : Volume → ℕ → Type 0
InUse v p = 1 ≤ occurs p v.used

-- Each page is given out or empty, and only one of the two.
pub record Sound (v : Volume) : Type 0 where
  pub once : (p : ℕ) → occurs p v.used + occurs p v.empty ≤ 1
  pub inside : (p : ℕ) → 1 ≤ occurs p v.used + occurs p v.empty → (1 ≤ p) × (p ≤ v.total)
  pub all : length v.used + length v.empty ≡ v.total

-- Callers give back, write and read pages in use, and read what was written before. A place has 32
-- bits.
abbrev pub MayCall : Volume → Call → Type 0
MayCall v alloc = v.total + 1 < 2 ^ 32
MayCall v (dealloc p) = InUse v p
MayCall v (write p page) = InUse v p
MayCall v (read p buffer) = (page : Bytes) × (v.written p ≡ some page)
MayCall v (raw_write bs) = Unit
MayCall v raw_read = Unit
MayCall v restart = Unit

abbrev pub MayCallAll : Volume → List Call → Type 0
MayCallAll v [] = Unit
MayCallAll v (c ∷ cs) = MayCall v c × MayCallAll (serve c v).1 cs
