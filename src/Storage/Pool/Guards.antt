-- ===== src/Storage/Pool/Guards.antt =====
-- storage/src/buffer_pool_manager.cpp: pages are read and written through guards.
use mathlib.Core.Path.{subst}
use bh_ticket_system.Base.{
  ℕ, ◌≤◌, ◌<◌, ◌≡◌, ◌≢◌, ◌⊎◌, sym, ap, ◌∙◌, Bool, true, false, Option, none, some, [], length,
  arith, inl, inr, hash_eq, Bytes, get_elem?,
}
use bh_ticket_system.Base.Map.{get}
use bh_ticket_system.Storage.Replacer.{record_of}
use bh_ticket_system.Storage.Replacer.Valid.{can_go}
use bh_ticket_system.Storage.Pool.{Page, Pool, page_of}
use bh_ticket_system.Base.{Result, ok, err, runtime_error, ◌>>=◌}
use bh_ticket_system.Storage.Pool.{unpin_page, fetch_page_guarded, or_full, write_data, drop_guard}
use bh_ticket_system.Storage.Pool.Coherent.{Coherent, content, in_frame}
use bh_ticket_system.Storage.Pool.Repaged.{
  repaged-here, repaged-content_self, repaged-content_other,
}
use bh_ticket_system.Storage.Pool.Brought.{Young, full, brought}
use bh_ticket_system.Storage.Pool.Fetch.{fetch_page-Fetched}
use bh_ticket_system.Storage.Pool.Unpinned.{
  unpinned, unpin_page-unpinned, unpinned-Coherent, unpinned-content, new, written,
  written-Coherent, write_data-written,
}

-- A page is read through a guard, and the guard is dropped.
pub read_dropped : ℕ × Pool → Bytes × Pool
unfolding drop_guard
read_dropped (f, b) =
    ((page_of b f).mem, (drop_guard (record { page = some f; is_dirty = false }) b).1)

unfoldable pub read_through : ℕ → Pool → Result (Bytes × Pool)
unfolding fetch_page_guarded read_dropped
read_through p b = fetch_page_guarded p b >>= λ x. ok (read_dropped x)

-- A page is written through a guard, and the guard is dropped.
pub write_dropped : Bytes → ℕ × Pool → Pool
unfolding drop_guard write_data
write_dropped mem (f, b) =
    (drop_guard (record { page = some f; is_dirty = true }) (write_data f mem b)).1

unfoldable pub write_through : ℕ → Bytes → Pool → Result Pool
unfolding fetch_page_guarded write_dropped
write_through p mem b = fetch_page_guarded p b >>= λ x. ok (write_dropped mem x)

-- No frame is free and none can be given up, and the page is in none.
abbrev pub IsFull : Pool → ℕ → Type 0
IsFull b p =
    (get p b.page_table ≡ none)
    × (b.free_list ≡ [])
    × ((f : ℕ) → can_go (record_of b.replacer f) ≡ false)

-- A page that is read through a guard has its contents, and all pages keep theirs.
pub read_through-content :
    (b : Pool) (p : ℕ)
    → Coherent b
    → Young b
    → p < length b.disk_manager.file
    → ((read_through p b ≡ err runtime_error) × IsFull b p)
      ⊎ ((mem : Bytes) × (b' : Pool) × (read_through p b ≡ ok (mem, b'))
          × (content b p ≡ some mem)
          × Coherent b'
          × ((q : ℕ) → content b' q ≡ content b q))
unfolding read_through fetch_page_guarded or_full read_dropped drop_guard
read_through-content b p c young there = elim (fetch_page-Fetched b p c young there) [
  | full e absent none_free none_can ↦ inl (
    ap (λ (x : Option ℕ × Pool). or_full x >>= λ y. ok (read_dropped y)) e,
    (absent, none_free, none_can),
  )
  | brought f b' e k ↦
      let c' = k.coherent in
      let unwritten : false ≡ false
          → (page_of b' f).pin_count ≡ 1
          → (page_of b' f).is_dirty ≡ false
          → get_elem? b'.disk_manager.file p ≡ some (page_of b' f).mem =
        λ same one undirty. k.unwritten one undirty in
      let b'' = unpinned b' c' p f k.at k.pinned false unwritten in
      let dropped : (unpin_page (page_of b' f).page_id false b').1 ≡ b'' =
        ap (λ (i : ℕ). (unpin_page i false b').1) (c'.held p f k.at).1
        ∙ ap (λ (x : Bool × Pool). x.1)
            (unpin_page-unpinned b' c' p f k.at k.pinned false unwritten) in
      inr (
        (page_of b' f).mem,
        b'',
        ap (λ (x : Option ℕ × Pool). or_full x >>= λ y. ok (read_dropped y)) e
            ∙ ap (λ (x : Pool). ok ((page_of b' f).mem, x)) dropped,
        sym (k.same p)
            ∙ ap (λ (o : Option ℕ). in_frame b' o (get_elem? b'.disk_manager.file p)) k.at,
        unpinned-Coherent b' c' p f k.at k.pinned false unwritten,
        λ q. unpinned-content b' c' p f k.at k.pinned false unwritten q ∙ k.same q,
      )
]

-- What a drop leaves of a pool in which the page of a pinned frame was written.
module _ (b : Pool) (c : Coherent b) (p f : ℕ) (at : get p b.page_table ≡ some f)
    (pinned : 1 ≤ (page_of b f).pin_count) (mem : Bytes) where
  abbrev filled : Pool
  filled = written b c p f at pinned mem

  filled-Coherent : Coherent filled
  filled-Coherent = written-Coherent b c p f at pinned mem

  filled-pinned : 1 ≤ (page_of filled f).pin_count
  filled-pinned =
      subst (λ (x : Page). 1 ≤ x.pin_count)
        (sym (repaged-here b c p f at (new b c p f at pinned mem) (c.held p f at).1 b.replacer))
        pinned

  marked_dirty :
      true ≡ false
      → (page_of filled f).pin_count ≡ 1
      → (page_of filled f).is_dirty ≡ false
      → get_elem? filled.disk_manager.file p ≡ some (page_of filled f).mem
  marked_dirty e one undirty = absurd (ground (arith, e))

  abbrev dropped : Pool
  dropped = unpinned filled filled-Coherent p f at filled-pinned true marked_dirty

  write_dropped-dropped : write_dropped mem (f, b) ≡ dropped
  unfolding write_dropped drop_guard
  write_dropped-dropped =
      ap (λ (x : Pool). (drop_guard (record { page = some f; is_dirty = true }) x).1)
        (write_data-written b c p f at pinned mem)
      ∙ (ap (λ (i : ℕ). (unpin_page i true filled).1) (filled-Coherent.held p f at).1
          ∙ ap (λ (x : Bool × Pool). x.1)
              (unpin_page-unpinned filled filled-Coherent p f at filled-pinned true marked_dirty))

  dropped-Coherent : Coherent dropped
  dropped-Coherent = unpinned-Coherent filled filled-Coherent p f at filled-pinned true marked_dirty

  dropped-content : (q : ℕ) → content dropped q ≡ content filled q
  dropped-content = unpinned-content filled filled-Coherent p f at filled-pinned true marked_dirty

  dropped-content_self : content dropped p ≡ some mem
  dropped-content_self =
      dropped-content p
      ∙ repaged-content_self b c p f at (new b c p f at pinned mem) (c.held p f at).1 b.replacer

  dropped-content_other : (q : ℕ) → p ≢ q → content dropped q ≡ content b q
  dropped-content_other q ne =
      dropped-content q
      ∙ repaged-content_other b c p f at (new b c p f at pinned mem) (c.held p f at).1 b.replacer q
          ne

-- A page that is written through a guard has what was written, and the others keep their contents.
pub write_through-content :
    (b : Pool) (p : ℕ) (mem : Bytes)
    → Coherent b
    → Young b
    → p < length b.disk_manager.file
    → ((write_through p mem b ≡ err runtime_error) × IsFull b p)
      ⊎ ((b' : Pool) × (write_through p mem b ≡ ok b')
          × (content b' p ≡ some mem)
          × Coherent b'
          × ((q : ℕ) → p ≢ q → content b' q ≡ content b q))
unfolding write_through fetch_page_guarded or_full
write_through-content b p mem c young there = elim (fetch_page-Fetched b p c young there) [
  | full e absent none_free none_can ↦ inl (
    ap (λ (x : Option ℕ × Pool). or_full x >>= λ y. ok (write_dropped mem y)) e,
    (absent, none_free, none_can),
  )
  | brought f b' e k ↦
      let c' = k.coherent in
      inr (
        dropped b' c' p f k.at k.pinned mem,
        ap (λ (x : Option ℕ × Pool). or_full x >>= λ y. ok (write_dropped mem y)) e
            ∙ ap (λ (x : Pool). ok x) (write_dropped-dropped b' c' p f k.at k.pinned mem),
        dropped-content_self b' c' p f k.at k.pinned mem,
        dropped-Coherent b' c' p f k.at k.pinned mem,
        λ q ne. dropped-content_other b' c' p f k.at k.pinned mem q ne ∙ k.same q,
      )
]
