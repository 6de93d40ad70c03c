-- ===== src/Storage/Replacer/Access.antt =====
-- storage/src/replacer.cpp: `RecordAccess` keeps a replacer valid.
use mathlib.Core.Path.{subst}
use bh_ticket_system.Base.{
  ℕ, ◌+◌, ◌%◌, ◌^◌, ◌<◌, ◌≡◌, ◌≢◌, refl, ap, ◌∙◌, sym, Bool, true, false, Option, none, some, List,
  [], ◌∷◌, ◌++◌, ltb, if◌then◌else◌, length, arith, Bool-cases, inl, inr,
}
use bh_ticket_system.Storage.Replacer.{
  MainChainNode, LrukRecord, Replacer, record_of, remove_frame, remove_node, next_self, add_record,
  first_access, forget_first, next_access, record_access,
}
use bh_ticket_system.Storage.Replacer.Chain.{
  Chain, nodes_of, Linked, head_of, last_of, nodes_of-append,
}
use bh_ticket_system.Storage.Replacer.Links.{
  Ordered-append, nodes_of-append_ne, first-some, Longer, add_record-Longer, remove_first-Shorter,
}
use bh_ticket_system.Storage.Replacer.Valid.{
  times, times-append, times-remove_frame_self, times-remove_frame_ne, one_if, active-lt, Valid,
  written, written-Valid,
}
use bh_ticket_system.Storage.Replacer.Evict.{FrameValid-IsTracked, FrameValid-IsUnknown}

abbrev new_node : ℕ → ℕ → ℕ → MainChainNode
new_node frame stamp new = record {
  node = new;
  frame_id = frame;
  time_stamp = stamp;
  next_self_record = none;
}

first_access-Valid :
    (frame : ℕ) (r : Replacer)
    → Valid r
    → frame < length r.hash_for_record
    → (record_of r frame).active ≡ false
    → Valid (first_access frame r)
unfolding first_access add_record
first_access-Valid frame r v lt unknown =
    let u =
      FrameValid-IsUnknown r.k_value (record_of r frame) (nodes_of frame r.lruk_chain)
        (times frame r.lru_chain) (v.each frame) unknown in
    let none_yet = u.not_in_chain in
    let k = v.positive in
    let node = new_node frame r.current_timestamp r.next_node in
    let nodes : nodes_of frame (r.lruk_chain ++ node ∷ []) ≡ node ∷ [] =
      nodes_of-append frame r.lruk_chain (node ∷ []) ∙ ground (arith, u.no_nodes) in
    written-Valid frame _ (r.lru_chain ++ frame ∷ []) (r.lruk_chain ++ node ∷ [])
      r.current_evitable_count r.current_timestamp (r.next_node + 1) r v lt
      (Ordered-append 0 r.next_node r.lruk_chain node (omega arith) v.ordered refl) (ground arith)
      (inl (record {
        is_active = refl;
        linked = subst Linked (sym nodes) refl;
        head = ap head_of (sym nodes);
        tail = ap last_of (sym nodes);
        visited = omega arith;
        kept = inl (ap (λ (c : Chain). length c) nodes, k);
        few = ground arith;
        in_chain = ground (arith, times-append frame frame r.lru_chain);
      }))
      (λ f ne. (
        nodes_of-append_ne f r.lruk_chain node ne,
        ground (arith, times-append f frame r.lru_chain),
      ))

-- The chain for less than k visits, behind one more visit.
unfoldable pub visited_chain : ℕ → Bool → Bool → List ℕ → List ℕ
unfolding remove_frame
visited_chain frame was_in stays lru =
    let rest = if was_in then remove_frame frame lru else lru in
    if stays then rest ++ frame ∷ [] else rest

times-visited_chain_self :
    (frame : ℕ) (was_in stays : Bool) (lru : List ℕ)
    → times frame lru ≡ one_if was_in
    → times frame (visited_chain frame was_in stays lru) ≡ one_if stays
unfolding visited_chain
times-visited_chain_self frame was_in stays lru e = ground (
  arith,
  times-remove_frame_self frame lru,
  times-append frame frame lru,
  times-append frame frame (remove_frame frame lru),
)

times-visited_chain_ne :
    (frame f : ℕ) (was_in stays : Bool) (lru : List ℕ)
    → frame ≢ f
    → times f (visited_chain frame was_in stays lru) ≡ times f lru
unfolding visited_chain
times-visited_chain_ne frame f was_in stays lru ne = ground (
  arith,
  times-remove_frame_ne frame f lru ne,
  times-append f frame lru,
  times-append f frame (remove_frame frame lru),
)

-- What is known of a frame after one more visit, when all visits are kept.
unfoldable pub visited_record : ℕ → LrukRecord → ℕ → LrukRecord
visited_record k h new = record h {
  visit_count = (h.visit_count + 1) % 2 ^ 64;
  tail_node_in_main_chain = some new;
  has_node_in_lru_chain = ltb ((h.visit_count + 1) % 2 ^ 64) k;
}

-- `RecordAccess` of a known frame, on its two branches.
pub next_access_cases :
    (frame : ℕ) (r : Replacer)
    → let h = record_of r frame in
      let h' = visited_record r.k_value h r.next_node in
      let chain =
        add_record frame r.current_timestamp h.tail_node_in_main_chain r.next_node r.lruk_chain in
      let lru =
        visited_chain frame h.has_node_in_lru_chain (ltb h'.visit_count r.k_value) r.lru_chain in
      let f = forget_first h' chain in
      next_access frame r ≡ (
        if ltb r.k_value h'.visit_count
        then written frame f.0 lru f.1 r.current_evitable_count r.current_timestamp
            (r.next_node + 1)
            r
        else written frame h' lru chain r.current_evitable_count r.current_timestamp
            (r.next_node + 1)
            r)
unfolding next_access visited_record visited_chain
next_access_cases frame r = ground arith

forget_first-some :
    (h : LrukRecord) (chain : Chain) (first : ℕ)
    → h.head_node_in_main_chain ≡ some first
    → forget_first h chain
      ≡ (record h { head_node_in_main_chain = next_self first chain }, remove_node first chain)
unfolding forget_first
forget_first-some h chain first e = ground arith

-- The time is no part of what is known of the frames.
pub restamped :
    (r : Replacer)
    → Valid r
    → Valid (record r { current_timestamp = (r.current_timestamp + 1) % 2 ^ 64 })
restamped r v = record {
  small = v.small;
  positive = v.positive;
  ordered = v.ordered;
  counted = v.counted;
  each = v.each;
}

-- A frame that is known has its visits prolonged, and the oldest one forgotten if there are too
-- many.
next_access-Valid :
    (frame : ℕ) (r : Replacer)
    → Valid r
    → (record_of r frame).active ≡ true
    → (record_of r frame).visit_count + 1 < 2 ^ 64
    → Valid (next_access frame r)
unfolding visited_record
next_access-Valid frame r v known young =
    let h = record_of r frame in
    let ns = nodes_of frame r.lruk_chain in
    let t = FrameValid-IsTracked r.k_value h ns (times frame r.lru_chain) (v.each frame) known in
    let k = v.positive in
    let visited = t.visited in
    let kept = t.kept in
    let visits : (h.visit_count + 1) % 2 ^ 64 ≡ h.visit_count + 1 = omega arith in
    let h' = visited_record r.k_value h r.next_node in
    let chain =
      add_record frame r.current_timestamp h.tail_node_in_main_chain r.next_node r.lruk_chain in
    let x : Longer frame r.next_node r.lruk_chain chain ns =
      subst
        (λ (o : Option ℕ).
          Longer frame r.next_node r.lruk_chain
            (add_record frame r.current_timestamp o r.next_node r.lruk_chain) ns)
        (sym t.tail)
        (add_record-Longer frame r.current_timestamp r.next_node r.lruk_chain v.ordered t.linked
          (ground arith)) in
    let lru =
      visited_chain frame h.has_node_in_lru_chain (ltb h'.visit_count r.k_value) r.lru_chain in
    let lt = active-lt r.hash_for_record frame known in
    let in_lru =
      times-visited_chain_self frame h.has_node_in_lru_chain (ltb h'.visit_count r.k_value)
        r.lru_chain t.in_chain in
    let lru_others : (f : ℕ) → frame ≢ f → times f lru ≡ times f r.lru_chain = λ f.
      times-visited_chain_ne frame f h.has_node_in_lru_chain (ltb h'.visit_count r.k_value)
        r.lru_chain in
    let longer = x.one_more in
    elim (Bool-cases (ltb r.k_value h'.visit_count)) [
      | inr fits ↦ subst Valid (sym (next_access_cases frame r ∙ (rw fits refl))) (
          written-Valid frame h' lru chain r.current_evitable_count r.current_timestamp
            (r.next_node + 1) r v lt x.ordered (ground arith)
            (inl (record {
              is_active = known;
              linked = x.linked;
              head = t.head ∙ sym x.same_head;
              tail = sym x.new_last;
              visited = omega arith;
              kept = inl (ground arith);
              few = ground arith;
              in_chain = in_lru;
            }))
            (λ f ne. (x.others f ne, lru_others f ne)))
      | inl too_many ↦
          let (n, rest, first) = first-some (nodes_of frame chain) (omega arith) in
          let n_rest = ap (λ (c : Chain). length c) first in
          let head' : h'.head_node_in_main_chain ≡ some n.node =
            t.head ∙ sym x.same_head ∙ ap head_of first in
          let y =
            remove_first-Shorter frame (r.next_node + 1) chain rest n x.ordered x.linked first
              (ground arith) in
          let shorter = y.one_less in
          subst Valid
            (sym (
              next_access_cases frame r
              ∙ (rw (too_many, forget_first-some h' chain n.node head') refl)))
            (written-Valid frame (record h' { head_node_in_main_chain = next_self n.node chain })
              lru (remove_node n.node chain) r.current_evitable_count r.current_timestamp
              (r.next_node + 1) r v lt y.ordered (ground arith)
              (inl (record {
                is_active = known;
                linked = y.linked;
                head = y.at_head;
                tail = sym x.new_last ∙ sym y.same_last;
                visited = omega arith;
                kept = inr (ground arith);
                few = ground arith;
                in_chain = in_lru;
              }))
              (λ f ne. (y.others f ne ∙ x.others f ne, lru_others f ne)))
    ]

-- `RecordAccess` keeps a replacer valid, for fewer than 2^64 visits of the frame.
pub record_access-Valid :
    (frame : ℕ) (r : Replacer)
    → Valid r
    → frame < length r.hash_for_record
    → (record_of r frame).visit_count + 1 < 2 ^ 64
    → Valid (record_access frame r)
unfolding record_access
record_access-Valid frame r v lt young =
    let r' : Replacer = record r { current_timestamp = (r.current_timestamp + 1) % 2 ^ 64 } in
    elim (Bool-cases (record_of r frame).active) [
      | inl known ↦
          subst (λ (b : Bool). Valid (if b then next_access frame r' else first_access frame r'))
            (sym known) (next_access-Valid frame r' (restamped r v) known young)
      | inr unknown ↦
          subst (λ (b : Bool). Valid (if b then next_access frame r' else first_access frame r'))
            (sym unknown) (first_access-Valid frame r' (restamped r v) lt unknown)
    ]
