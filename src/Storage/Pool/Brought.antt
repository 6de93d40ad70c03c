-- ===== src/Storage/Pool/Brought.antt =====
-- storage/src/buffer_pool_manager.cpp: a page is brought into a frame, and every page keeps its contents.
use mathlib.Core.Path.{subst}
use bh_ticket_system.Base.{
  ℕ, ◌+◌, ◌^◌, ◌≤◌, ◌<◌, ◌≡◌, refl, sym, ap, ◌∙◌, true, false, Option, none, some, List, [], ◌∷◌,
  length, ◌%◌, arith, Bool-cases, inl, inr, ◌==◌, ==_iff, ==_self, hash_eq, Bytes, get_elem?,
  if-true, if-false, if◌then◌else◌,
}
use bh_ticket_system.Base.Map.{get}
use bh_ticket_system.Storage.Replacer.{record_of}
use bh_ticket_system.Storage.Replacer.Valid.{can_go}
use bh_ticket_system.Storage.Disk.Contract.{occurs}
use bh_ticket_system.Storage.Pool.{Page, Pool, page_of, used_frame, take_frame}
use bh_ticket_system.Storage.Pool.Frames.{length-used_frame, used_frame-can_go, used_frame-Valid}
use bh_ticket_system.Storage.Disk.{Disk, read_page}
use bh_ticket_system.Storage.Disk.InFile.{get_or_elem, get_elem_there}
use bh_ticket_system.Storage.Pool.{fetch_kept, fetch_free}
use bh_ticket_system.Storage.Pool.Coherent.{Coherent, Vacant, content, in_frame}
use bh_ticket_system.Storage.Pool.Repaged.{repaged-here, repaged-Coherent, repaged-content}
use bh_ticket_system.Storage.Pool.Taken.{
  take_frame-here, take_frame-table_self, take_frame-Coherent, take_frame-content,
}

-- The counters of visits and of pins have not come to their ends.
pub record Young (b : Pool) : Type 0 where
  pub visits : (f : ℕ) → (record_of b.replacer f).visit_count + 1 < 2 ^ 64
  pub pins : (f : ℕ) → (page_of b f).pin_count + 1 < 2 ^ 64

-- The page is in frame `f` of `b'`, pinned, with its contents, and all pages have the contents that they
-- had in `b`.
pub record Brought (b : Pool) (p f : ℕ) (b' : Pool) : Type 0 where
  pub coherent : Coherent b'
  pub at : get p b'.page_table ≡ some f
  pub pinned : 1 ≤ (page_of b' f).pin_count
  pub unwritten :
      (page_of b' f).pin_count ≡ 1
      → (page_of b' f).is_dirty ≡ false
      → get_elem? b'.disk_manager.file p ≡ some (page_of b' f).mem
  pub same : (q : ℕ) → content b' q ≡ content b q

pub data Fetched (b : Pool) (p : ℕ) (result : Option ℕ × Pool) : Type 0 where
  full :
      result ≡ (none, b)
      → get p b.page_table ≡ none
      → b.free_list ≡ []
      → ((f : ℕ) → can_go (record_of b.replacer f) ≡ false)
      → Fetched b p result
  brought : (f : ℕ) (b' : Pool) → result ≡ (some f, b') → Brought b p f b' → Fetched b p result

pub fetch_kept-Brought :
    (b : Pool) (p f : ℕ)
    → Coherent b
    → Young b
    → get p b.page_table ≡ some f
    → Brought b p f (fetch_kept f b)
unfolding fetch_kept
fetch_kept-Brought b p f c young at =
    let page = record (page_of b f) { pin_count = ((page_of b f).pin_count + 1) % 2 ^ 64 } in
    let (below, is_p) = c.held p f at in
    let lt = subst (λ (n : ℕ). f < n) (sym c.sized) below in
    let few = young.pins f in
    let r = used_frame f b.replacer in
    record {
      coherent =
          repaged-Coherent b c p f at page is_p r
            (used_frame-Valid f b.replacer lt c.lru (young.visits f))
            (length-used_frame f b.replacer lt)
            (λ g goes. inr (used_frame-can_go f b.replacer lt g goes)) (λ z. absurd (omega arith));
      at = at;
      pinned =
          subst (λ (x : Page). 1 ≤ x.pin_count) (sym (repaged-here b c p f at page is_p r))
            (omega arith);
      unwritten =
          subst
            (λ (x : Page).
              x.pin_count ≡ 1 → x.is_dirty ≡ false → get_elem? b.disk_manager.file p ≡ some x.mem)
            (sym (repaged-here b c p f at page is_p r))
            (λ one undirty. c.clean p f at (omega arith) undirty);
      same = repaged-content b c p f at page is_p r refl;
    }

-- A vacant frame is taken by the page, as it is on the disk.
pub take_frame-Brought :
    (b : Pool) (p f : ℕ) (mem : Bytes)
    → Coherent b
    → Young b
    → Vacant f b
    → get p b.page_table ≡ none
    → get_elem? b.disk_manager.file p ≡ some mem
    → p < length b.disk_manager.file
    → Brought b p f (take_frame f p mem b)
unfolding take_frame
take_frame-Brought b p f mem c young empty absent stored there = record {
  coherent = take_frame-Coherent b c p f mem empty absent (young.visits f) there;
  at = take_frame-table_self b c p f mem empty absent;
  pinned =
      subst (λ (x : Page). 1 ≤ x.pin_count) (sym (take_frame-here b c p f mem empty absent))
        (omega arith);
  unwritten = λ one undirty.
      stored ∙ ap (λ (x : Page). some x.mem) (sym (take_frame-here b c p f mem empty absent));
  same = λ q. take_frame-content b c p f mem empty absent q ∙ kept q;
}
  where
    on_disk : content b p ≡ some mem
    on_disk = ap (λ (o : Option ℕ). in_frame b o (get_elem? b.disk_manager.file p)) absent ∙ stored

    kept : (q : ℕ) → (if p == q then some mem else content b q) ≡ content b q
    kept q = elim (Bool-cases (p == q)) [
      | inl same ↦
          if-true (p == q) (some mem) (content b q) same
          ∙ (sym on_disk ∙ ap (λ (i : ℕ). content b i) ((==_iff p q).0 same))
      | inr other ↦ if-false (p == q) (some mem) (content b q) other
    ]

pub read_page-stored :
    (d : Disk) (p : ℕ) (buffer : Bytes) {mem : Bytes}
    → d.is_open ≡ true
    → get_elem? d.file p ≡ some mem
    → read_page p buffer d ≡ mem
unfolding read_page
read_page-stored d p buffer open_now stored =
    if-true d.is_open _ _ open_now ∙ get_or_elem d.file p buffer stored

-- The first free frame.
popped-Vacant :
    (b : Pool) (f : ℕ) (rest : List ℕ)
    → Coherent b
    → b.free_list ≡ f ∷ rest
    → Coherent (record b { free_list = rest }) × Vacant f (record b { free_list = rest })
popped-Vacant b f rest c e =
    let head : 1 ≤ occurs f b.free_list =
      subst (λ (l : List ℕ). 1 ≤ occurs f l) (sym e) (ground (arith, ==_self f)) in
    let once : (g : ℕ) → occurs g (f ∷ rest) ≤ 1 =
      λ g. subst (λ (l : List ℕ). occurs g l ≤ 1) e (c.once g) in
    (
      record {
        lru = c.lru;
        sized = c.sized;
        opened = c.opened;
        held = c.held;
        stored = c.stored;
        once = λ g. omega (arith, once g);
        free = λ g q i. c.free g q (subst (λ (l : List ℕ). 1 ≤ occurs g l) (sym e) (omega arith));
        idle = c.idle;
        clean = c.clean;
      },
      record {
        inside = (c.free f 0 head).0;
        nowhere = λ q. (c.free f q head).1;
        not_free = ground (arith, once f, ==_self f);
        stays = elim (Bool-cases (can_go (record_of b.replacer f))) [
          | inl goes ↦ absurd ((c.free f _ head).1 ((c.idle f goes).0))
          | inr stay ↦ stay
        ];
      },
    )

pub fetch_free-Brought :
    (b : Pool) (p f : ℕ) (rest : List ℕ)
    → Coherent b
    → Young b
    → b.free_list ≡ f ∷ rest
    → get p b.page_table ≡ none
    → p < length b.disk_manager.file
    → Brought b p f (fetch_free p f rest b)
unfolding fetch_free
fetch_free-Brought b p f rest c young e absent there =
    let (c', empty) = popped-Vacant b f rest c e in
    let (mem, stored) = get_elem_there b.disk_manager.file p there in
    let b' : Pool = record b { free_list = rest } in
    let young' : Young b' = record { visits = young.visits; pins = young.pins } in
    let done = take_frame-Brought b' p f mem c' young' empty absent stored there in
    let read = read_page-stored b.disk_manager p (page_of b f).mem c.opened stored in
    subst (λ (m : Bytes). Brought b p f (take_frame f p m b')) (sym read)
      (record {
        coherent = done.coherent;
        at = done.at;
        pinned = done.pinned;
        unwritten = done.unwritten;
        same = done.same;
      })
