-- ===== src/Storage/Disk/Served.antt =====
-- storage/src/disk_manager.cpp: `WritePage` and `DeallocatePage` keep the promise.
use mathlib.Core.Path.{subst}
use bh_ticket_system.Base.{
  ℕ, ◌+◌, ◌-◌, ◌%◌, ◌^◌, ◌≡◌, ◌≢◌, ◌∙◌, refl, sym, ap, Option, none, some, List, ◌∷◌, ◌++◌, ◌==◌,
  Bytes, get_elem?, arith, drop, Bool-cases, inl, inr, ==_iff, if-true, if-false,
}
use bh_ticket_system.Storage.Disk.{Disk, le_bytes, le_number, write_at, deallocate_page, write_page}
use bh_ticket_system.Storage.Disk.InFile.{
  write_at_ne, write_at_self, length-write_at, le_number-le_bytes,
}
use bh_ticket_system.Storage.Disk.Contract.{dealloc, Volume, InUse, written_over, serve}
use bh_ticket_system.Storage.Disk.Sound.{serve-Sound, length-remove, in_use, empty_inside}
use bh_ticket_system.Storage.Disk.Holds.{Linked, Holds, Linked-write_at, Linked-head}

-- A write leaves known what is written and what was known of the other pages.
written_over-known :
    (file : List Bytes) (written : ℕ → Option Bytes) (p : ℕ) (page : Bytes) (entry : Option Bytes)
    → p ≢ 0
    → ((old : Bytes) → entry ≡ some old → page ≡ old)
    → ((q : ℕ) (old : Bytes) → written q ≡ some old → (q ≢ 0) × (get_elem? file q ≡ some old))
    → (q : ℕ) (old : Bytes) → written_over p entry written q ≡ some old
    → (q ≢ 0) × (get_elem? (write_at file p page) q ≡ some old)
written_over-known file written p page entry ne same known q old e = elim (Bool-cases (p == q)) [
  | inl here ↦
      let is_p : p ≡ q = (==_iff p q).0 here in
      let is_page = same old (sym (if-true (p == q) _ _ here) ∙ e) in
      (
        λ z. ne (is_p ∙ z),
        subst (λ (i : ℕ). get_elem? (write_at file p page) i ≡ some old) is_p
            (write_at_self file p page ∙ ap (λ (x : Bytes). some x) is_page),
      )
  | inr other ↦
      let (nonzero, there) = known q old (sym (if-false (p == q) _ _ other) ∙ e) in
      (nonzero, write_at_ne file p q page (λ k. ground (arith, k, other)) there)
]

pub write_page-Holds :
    (d : Disk) (v : Volume) (p : ℕ) (page : Bytes)
    → InUse v p
    → Holds d v
    → Holds (write_page p page d) (record v { written = written_over p (some page) v.written })
unfolding write_page
write_page-Holds d v p page u h =
    let sized = h.sized in
    let (above, below, out) = in_use v p h.sound u in
    subst (λ (x : Disk). Holds x (record v { written = written_over p (some page) v.written }))
      (sym (if-true d.is_open _ _ h.opened))
      (record {
        opened = h.opened;
        links = Linked-write_at d.file d.first_empty_page_id v.empty p page out h.links;
        total = h.total;
        sized = length-write_at d.file p page (omega arith) ∙ h.sized;
        below = h.below;
        count = h.count;
        raw = h.raw;
        sound = record { once = h.sound.once; inside = h.sound.inside; all = h.sound.all };
        known =
            written_over-known d.file v.written p page (some page) (omega arith)
              (λ old e. ground (arith, e)) h.known;
      })

pub deallocate_page-Holds :
    (d : Disk) (v : Volume) (p : ℕ)
    → InUse v p
    → Holds d v
    → Holds (deallocate_page p d) (serve (dealloc p) v).1
unfolding deallocate_page write_page
deallocate_page-Holds d v p u h =
    let sized = h.sized in
    let count = h.count in
    let small = h.below in
    let all = h.sound.all in
    let fewer = length-remove p v.used u in
    let (above, below, out) = in_use v p h.sound u in
    let page = le_bytes 4 d.first_empty_page_id ++ drop 4 d.page_buf in
    let first =
      Linked-head d.file d.first_empty_page_id v.total v.empty (empty_inside v h.sound) h.links in
    let next : le_number 4 page ≡ d.first_empty_page_id =
      le_number-le_bytes 4 d.first_empty_page_id (drop 4 d.page_buf) (omega arith) in
    let links : Linked (write_at d.file p page) p (p ∷ v.empty) = (
      refl,
      (λ z. omega arith),
      (
        page,
        write_at_self d.file p page,
        subst (λ (i : ℕ). Linked (write_at d.file p page) i v.empty) (sym next)
            (Linked-write_at d.file d.first_empty_page_id v.empty p page out h.links),
      ),
    ) in
    subst
      (λ (x : Disk).
        Holds
          (record x {
            first_empty_page_id = p;
            current_none_empty_page_count =
                (d.current_none_empty_page_count + (2 ^ 64 - 1)) % 2 ^ 64;
            page_buf = page;
          })
          (serve (dealloc p) v).1)
      (sym (if-true d.is_open _ _ h.opened))
      (record {
        opened = h.opened;
        links = links;
        total = h.total;
        sized = length-write_at d.file p page (omega arith) ∙ h.sized;
        below = h.below;
        count = omega arith;
        raw = h.raw;
        sound = serve-Sound (dealloc p) v u h.sound;
        known =
            written_over-known d.file v.written p page none (omega arith)
              (λ old e. absurd (ground (arith, e))) h.known;
      })
