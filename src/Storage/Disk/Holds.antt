-- ===== src/Storage/Disk/Holds.antt =====
-- storage/src/disk_manager.cpp: a disk that keeps the promise, and what keeps the list of empty pages.

use bh_ticket_system.Base.{
  ℕ, ◌+◌, ◌^◌, ◌≤◌, ◌<◌, ◌≡◌, ◌≢◌, sym, ap, true, some, List, [], ◌∷◌, ◌++◌, Bytes, get_elem?,
  length, arith, ==_self,
}
use bh_ticket_system.Storage.Disk.{Disk, le_number, write_at}
use bh_ticket_system.Storage.Disk.InFile.{write_at_ne, get_elem?-append}
use bh_ticket_system.Storage.Disk.Contract.{Volume, occurs, Sound}

-- The pages that are linked from `head` on: each holds the place of the next in its first bytes.
abbrev pub Linked : List Bytes → ℕ → List ℕ → Type 0
Linked file head [] = head ≡ 0
Linked file head (p ∷ ps) =
    (head ≡ p)
    × (p ≢ 0)
    × ((page : Bytes) × (get_elem? file p ≡ some page) × Linked file (le_number 4 page) ps)

pub record Holds (d : Disk) (v : Volume) : Type 0 where
  pub opened : d.is_open ≡ true
  pub links : Linked d.file d.first_empty_page_id v.empty
  pub total : d.current_total_page_count ≡ v.total
  pub sized : length d.file ≡ v.total + 1
  pub below : v.total < 2 ^ 32
  pub count : d.current_none_empty_page_count ≡ length v.used
  pub raw : d.raw_data_memory ≡ v.raw
  pub sound : Sound v
  pub known :
      (p : ℕ) (page : Bytes) → v.written p ≡ some page → (p ≢ 0) × (get_elem? d.file p ≡ some page)

occurs_ne : (p q : ℕ) (ps : List ℕ) → occurs p ps ≡ 0 → 1 ≤ occurs q ps → p ≢ q
occurs_ne p q ps out i e =
    let same : occurs p ps ≡ occurs q ps = ap (λ (r : ℕ). occurs r ps) e in omega arith

-- A change of the file that leaves the empty pages alone.
Linked-kept :
    (file after : List Bytes) (head : ℕ) (ps : List ℕ)
    → ((q : ℕ) (page : Bytes)
        → q ≢ 0
        → 1 ≤ occurs q ps
        → get_elem? file q ≡ some page
        → get_elem? after q ≡ some page)
    → Linked file head ps
    → Linked after head ps
Linked-kept file after head [] kept l = l
Linked-kept file after head (p ∷ ps) kept (e, ne, (page, here, rest)) = (
  e,
  ne,
  (
    page,
    kept p page ne (ground (arith, ==_self p)) here,
    Linked-kept file after (le_number 4 page) ps (λ q old k i. kept q old k (omega arith)) rest,
  ),
)

pub Linked-write_at :
    (file : List Bytes) (head : ℕ) (ps : List ℕ) (p : ℕ) (page : Bytes)
    → occurs p ps ≡ 0
    → Linked file head ps
    → Linked (write_at file p page) head ps
Linked-write_at file head ps p page out =
    Linked-kept file (write_at file p page) head ps
      (λ q old ne i e. write_at_ne file p q page (occurs_ne p q ps out i) e)

-- The internal page is no empty page.
pub Linked-internal :
    (file : List Bytes) (head : ℕ) (ps : List ℕ) (page : Bytes)
    → Linked file head ps
    → Linked (write_at file 0 page) head ps
Linked-internal file head ps page =
    Linked-kept file (write_at file 0 page) head ps
      (λ q old ne i e. write_at_ne file 0 q page (λ k. ne (sym k)) e)

pub Linked-append :
    (file : List Bytes) (head : ℕ) (ps : List ℕ) (page : Bytes)
    → Linked file head ps
    → Linked (file ++ page ∷ []) head ps
Linked-append file head ps page =
    Linked-kept file (file ++ page ∷ []) head ps (λ q old ne i e. get_elem?-append file q page e)

pub Linked-head :
    (file : List Bytes) (head total : ℕ) (ps : List ℕ)
    → ((p : ℕ) → 1 ≤ occurs p ps → p ≤ total)
    → Linked file head ps
    → head ≤ total
Linked-head file head total [] lent l = omega arith
Linked-head file head total (p ∷ ps) lent l =
    let first = lent p (ground (arith, ==_self p)) in let place = l.0 in omega arith
