-- ===== src/Storage/Pool/Fetch.antt =====
-- storage/src/buffer_pool_manager.cpp: `FetchPage`, where a frame has to be given up and in all cases.
use mathlib.Core.Path.{subst}
use bh_ticket_system.Base.{
  ℕ, ◌<◌, ◌≡◌, ◌≢◌, refl, sym, ap, ◌∙◌, true, Option, none, some, List, [], ◌∷◌, length, arith,
  Option-cases, inl, inr, ◌==◌, hash_eq, Bytes, get_elem?, if-elim,
}
use bh_ticket_system.Base.Map.{get, get-erase}
use bh_ticket_system.Storage.Replacer.{Replacer, record_of}
use bh_ticket_system.Storage.Replacer.Valid.{can_go}
use bh_ticket_system.Storage.Replacer.Evict.{forgotten}
use bh_ticket_system.Storage.Pool.{Pool, page_of, take_frame, without_page_of}
use bh_ticket_system.Storage.Pool.Frames.{visit_count-forgotten}
use bh_ticket_system.Storage.Replacer.{try_evict_least_important}
use bh_ticket_system.Storage.Replacer.Victim.{
  nothing, of_few, of_many, try_evict_least_important-Outcome,
}
use bh_ticket_system.Storage.Disk.{Disk, read_page}
use bh_ticket_system.Storage.Disk.InFile.{get_elem_there}
use bh_ticket_system.Storage.Pool.{
  fetch_kept, fetch_free, fetch_victim, fetch_missing, fetch_evicted, fetch_from, fetch_page,
  written_back,
}
use bh_ticket_system.Storage.Pool.Coherent.{Coherent}
use bh_ticket_system.Storage.Pool.Evicted.{
  page_left, at_left, left, left-Coherent, left-Vacant, left-content, written_back-left,
}
use bh_ticket_system.Storage.Pool.Brought.{
  Young, Brought, Fetched, full, brought, fetch_kept-Brought, take_frame-Brought, read_page-stored,
  fetch_free-Brought,
}

fetch_victim-Brought :
    (b : Pool) (p f : ℕ)
    → Coherent b
    → Young b
    → can_go (record_of b.replacer f) ≡ true
    → get p b.page_table ≡ none
    → p < length b.disk_manager.file
    → Brought b p f (fetch_victim p f (record b { replacer = forgotten f b.replacer }))
unfolding fetch_victim
fetch_victim-Brought b p f c young goes absent there =
    let (d, s, moved, disk) = written_back-left b c f goes in
    let b' = left b c f goes d s in
    let (mem, stored) = get_elem_there b.disk_manager.file p there in
    let other : page_left b c f goes ≢ p =
      λ k. ground (arith, absent, at_left b c f goes, ap (λ (i : ℕ). get i b.page_table) k) in
    let there' : get_elem? d.file p ≡ some mem = s.other p other ∙ stored in
    let young' : Young b' = record {
      visits = λ g. omega (
        arith,
        young.visits g,
        visit_count-forgotten f b.replacer
            (subst (λ (n : ℕ). f < n) (sym c.sized)
              (c.held (page_left b c f goes) f (at_left b c f goes)).0)
            g,
      );
      pins = young.pins;
    } in
    let absent' : get p b'.page_table ≡ none =
      get-erase (page_left b c f goes) p b.page_table
      ∙ if-elim (λ (o : Option ℕ). o ≡ none) (page_left b c f goes == p) refl absent in
    let done =
      take_frame-Brought b' p f mem (left-Coherent b c f goes d s) young'
        (left-Vacant b c f goes d s) absent' there'
        (subst (λ (n : ℕ). p < n) (sym s.sized) there) in
    let read : read_page p (page_of b f).mem
          (written_back f (record b { replacer = forgotten f b.replacer })).disk_manager
        ≡ mem =
      ap (λ (x : Disk). read_page p (page_of b f).mem x) disk
      ∙ read_page-stored d p (page_of b f).mem s.opened there' in
    let goal : Brought b p f (take_frame f p mem b') = record {
      coherent = done.coherent;
      at = done.at;
      pinned = done.pinned;
      unwritten = done.unwritten;
      same = λ q. done.same q ∙ left-content b c f goes d s q;
    } in
    subst
      (λ (m : Bytes). Brought b p f (
        take_frame f p m
          (without_page_of f (written_back f (record b { replacer = forgotten f b.replacer })))))
      (sym read) (subst (λ (x : Pool). Brought b p f (take_frame f p mem x)) (sym moved) goal)

fetch_missing-Fetched :
    (b : Pool) (p : ℕ) (l : List ℕ)
    → b.free_list ≡ l
    → Coherent b
    → Young b
    → get p b.page_table ≡ none
    → p < length b.disk_manager.file
    → Fetched b p (fetch_missing p l b)
unfolding fetch_missing fetch_evicted
fetch_missing-Fetched b p (f ∷ rest) e c young absent there =
    brought f (fetch_free p f rest b) refl (fetch_free-Brought b p f rest c young e absent there)
fetch_missing-Fetched b p [] e c young absent there =
    elim (try_evict_least_important-Outcome b.replacer c.lru) [
      | nothing r none_can ↦
          full (ap (λ (x : Option ℕ × Replacer). fetch_evicted p x b) r) absent e none_can
      | of_few f r goes found ↦ victim f r goes
      | of_many f r goes none_few found ↦ victim f r goes
    ]
  where
    victim :
        (f : ℕ)
        → try_evict_least_important b.replacer ≡ (some f, forgotten f b.replacer)
        → can_go (record_of b.replacer f) ≡ true
        → Fetched b p (fetch_evicted p (try_evict_least_important b.replacer) b)
    victim f r goes =
        brought f (fetch_victim p f (record b { replacer = forgotten f b.replacer }))
          (ap (λ (x : Option ℕ × Replacer). fetch_evicted p x b) r)
          (fetch_victim-Brought b p f c young goes absent there)

-- `FetchPage` on a pool whose parts agree and a page of the file: where the page is in no frame, no
-- frame is free and none can be given up, it answers nothing and changes nothing; else the page is in
-- the frame that is answered, pinned, the parts agree again, and no page has other contents than before.
pub fetch_page-Fetched :
    (b : Pool) (p : ℕ)
    → Coherent b
    → Young b
    → p < length b.disk_manager.file
    → Fetched b p (fetch_page p b)
unfolding fetch_page fetch_from
fetch_page-Fetched b p c young there = elim (Option-cases (get p b.page_table)) [
  | inl absent ↦
      subst (Fetched b p) (sym (ap (λ (o : Option ℕ). fetch_from p o b) absent))
        (fetch_missing-Fetched b p b.free_list refl c young absent there)
  | inr (f, at) ↦
      brought f (fetch_kept f b) (ap (λ (o : Option ℕ). fetch_from p o b) at)
        (fetch_kept-Brought b p f c young at)
]
