-- ===== src/Storage/Disk/Given.antt =====
-- storage/src/disk_manager.cpp: `AllocNewEmptyPageId` answers as promised and keeps the promise.
use mathlib.Core.Path.{subst}
use bh_ticket_system.Base.{
  ℕ, ◌+◌, ◌%◌, ◌^◌, ◌≤◌, ◌<◌, ◌≡◌, ◌∙◌, refl, sym, ap, List, [], ◌∷◌, ◌++◌, ◌==◌, Bytes, length,
  arith, ok, length-append, ==_iff, Result, if-true, if-false, ==_self,
}
use bh_ticket_system.Storage.Disk.{
  Disk, le_number, alloc_new_empty_page_id, append_page, take_empty_page, read_page,
}
use bh_ticket_system.Storage.Disk.InFile.{get_elem?-append, get_or_elem}
use bh_ticket_system.Storage.Disk.Contract.{
  Answer, id, alloc, Volume, occurs, call, serve, serve_alloc,
}
use bh_ticket_system.Storage.Disk.Sound.{serve_alloc-Sound, occurs_fresh}
use bh_ticket_system.Storage.Disk.Holds.{Linked, Holds, Linked-append}

-- A call ends, with the promised answer, and leaves a disk that keeps the promise.
abbrev pub Serves : Result (Answer × Disk) → Answer × Volume → Type 0
Serves result (answer, v) = (after : Disk) × (result ≡ ok (answer, after)) × Holds after v

append_page-Holds :
    (d : Disk) (v : Volume)
    → v.empty ≡ []
    → v.total + 1 < 2 ^ 32
    → Holds d v
    → (after : Disk) × (append_page d ≡ ok (v.total + 1, after)) × Holds after (serve_alloc [] v).1
unfolding append_page
append_page-Holds d v none_empty small h =
    let total = (d.current_total_page_count + 1) % 2 ^ 64 in
    let after = record d {
      current_total_page_count = total;
      current_none_empty_page_count = (d.current_none_empty_page_count + 1) % 2 ^ 64;
      file = d.file ++ d.page_buf ∷ [];
    } in
    let same = h.total in
    let sized = h.sized in
    let count = h.count in
    let all = h.sound.all in
    (
      after,
      if-true d.is_open _ _ h.opened ∙ ap (λ (n : ℕ). ok (n, after)) (omega arith),
      record {
        opened = h.opened;
        links = Linked-append d.file d.first_empty_page_id v.empty d.page_buf h.links;
        total = omega arith;
        sized = omega (arith, length-append d.file (d.page_buf ∷ []));
        below = small;
        count = omega arith;
        raw = h.raw;
        sound = serve_alloc-Sound v [] none_empty h.sound;
        known =
            λ p page e. let k = h.known p page e in (k.0, get_elem?-append d.file p d.page_buf k.1);
      },
    )

take_empty_page-Holds :
    (d : Disk) (v : Volume) (p : ℕ) (ps : List ℕ)
    → v.empty ≡ p ∷ ps
    → Holds d v
    → (d.first_empty_page_id ≡ p) × Holds (take_empty_page d).1 (serve_alloc (p ∷ ps) v).1
unfolding take_empty_page read_page
take_empty_page-Holds d v p ps e h =
    let (place, other, (page, here, rest)) =
      subst (λ (is : List ℕ). Linked d.file d.first_empty_page_id is) e h.links in
    let count = h.count in
    let total = h.total in
    let all = subst (λ (is : List ℕ). length v.used + length is ≡ v.total) e h.sound.all in
    let below = h.below in
    let found : read_page d.first_empty_page_id d.page_buf d ≡ page =
      if-true d.is_open _ _ h.opened
      ∙ get_or_elem d.file d.first_empty_page_id d.page_buf (rw place here) in
    (
      place,
      record {
        opened = h.opened;
        links = subst (λ (bs : Bytes). Linked d.file (le_number 4 bs) ps) (sym found) rest;
        total = h.total;
        sized = h.sized;
        below = h.below;
        count = omega arith;
        raw = h.raw;
        sound = serve_alloc-Sound v (p ∷ ps) e h.sound;
        known = h.known;
      },
    )

-- The next empty page is given out, or a new one, and it was not in use.
alloc_from :
    (d : Disk) (v : Volume) (ps : List ℕ)
    → v.empty ≡ ps
    → v.total + 1 < 2 ^ 32
    → Holds d v
    → (p : ℕ) × (after : Disk) × (alloc_new_empty_page_id d ≡ ok (p, after))
      × ((serve_alloc ps v).0 ≡ id p)
      × (1 ≤ p)
      × (occurs p v.used ≡ 0)
      × Holds after (serve_alloc ps v).1
unfolding alloc_new_empty_page_id
alloc_from d v [] e small h =
    let none_left : d.first_empty_page_id ≡ 0 =
      subst (λ (is : List ℕ). Linked d.file d.first_empty_page_id is) e h.links in
    let (after, runs, kept) = append_page-Holds d v e small h in
    let fresh = occurs_fresh v (v.total + 1) h.sound (omega arith) in
    (
      v.total + 1,
      after,
      if-true (d.first_empty_page_id == 0) _ _ ((==_iff _ 0).1 none_left) ∙ runs,
      refl,
      omega arith,
      omega arith,
      kept,
    )
alloc_from d v (p ∷ ps) e small h =
    let (place, other, rest) =
      subst (λ (is : List ℕ). Linked d.file d.first_empty_page_id is) e h.links in
    let (same, kept) = take_empty_page-Holds d v p ps e h in
    let once = subst (λ (is : List ℕ). occurs p v.used + occurs p is ≤ 1) e (h.sound.once p) in
    (
      p,
      (take_empty_page d).1,
      if-false (d.first_empty_page_id == 0) _ _ (ground (arith, place, other))
          ∙ ap (λ (i : ℕ). ok (i, (take_empty_page d).1)) place,
      refl,
      ground (arith, other),
      ground (arith, once, ==_self p),
      kept,
    )

-- `AllocNewEmptyPageId` gives out a page that is not in use, on a disk that keeps its promise.
pub alloc_new_empty_page_id-fresh :
    (d : Disk) (v : Volume)
    → v.total + 1 < 2 ^ 32
    → Holds d v
    → (p : ℕ) × (after : Disk) × (alloc_new_empty_page_id d ≡ ok (p, after))
      × ((serve alloc v).0 ≡ id p)
      × (1 ≤ p)
      × (occurs p v.used ≡ 0)
      × Holds after (serve alloc v).1
alloc_new_empty_page_id-fresh d v small h = alloc_from d v v.empty refl small h

pub alloc-Serves :
    (d : Disk) (v : Volume)
    → v.total + 1 < 2 ^ 32
    → Holds d v
    → Serves (call alloc d) (serve alloc v)
unfolding call
alloc-Serves d v small h =
    let (p, after, runs, answer, above, fresh, kept) = alloc_new_empty_page_id-fresh d v small h in
    (after, rw (runs, answer) refl, kept)
