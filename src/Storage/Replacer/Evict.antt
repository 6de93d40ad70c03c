-- ===== src/Storage/Replacer/Evict.antt =====
-- storage/src/replacer.cpp: `SetEvictable` and `TryEvictExactFrame` keep a replacer valid.

use bh_ticket_system.Base.{
  ℕ, ◌+◌, ◌-◌, ◌%◌, ◌^◌, ◌≡◌, refl, ap, ◌∙◌, Bool, true, false, ◌&&◌, not, Option, if◌then◌else◌,
  length, set, arith, Bool-cases, inl, inr, ◌⊎◌,
}
use bh_ticket_system.Storage.Replacer.{
  LrukRecord, Replacer, record_of, remove_frame, set_evictable, try_evict_exact_frame,
  remove_whole_frame,
}
use bh_ticket_system.Storage.Replacer.Chain.{
  Chain, nodes_of, without, Ordered-without, nodes_of-without_self, nodes_of-without_ne,
  remove_whole_frame-without,
}
use bh_ticket_system.Storage.Replacer.Links.{length-nodes_of-le}
use bh_ticket_system.Storage.Replacer.Valid.{
  times, times-remove_frame_self, times-remove_frame_ne, one_if, can_go, evitable_count-le,
  evitable_count-ge, active-lt, IsTracked, IsUnknown, FrameValid, Valid, written, written-Valid,
}

-- Whether a frame can be given up is said for one frame.
with_evitable-FrameValid :
    (k : ℕ) (h : LrukRecord) (b : Bool) (ns : Chain) (n : ℕ)
    → FrameValid k h ns n
    → FrameValid k (record h { evitable = b }) ns n
with_evitable-FrameValid k h b ns n (inl t) = inl (record {
  is_active = t.is_active;
  linked = t.linked;
  head = t.head;
  tail = t.tail;
  visited = t.visited;
  kept = t.kept;
  few = t.few;
  in_chain = t.in_chain;
})
with_evitable-FrameValid k h b ns n (inr u) = inr (record {
  not_active = u.not_active;
  no_nodes = u.no_nodes;
  no_node = u.no_node;
  not_in_chain = u.not_in_chain;
})

evitable_write-Valid :
    (frame : ℕ) (b : Bool) (c : ℕ) (r : Replacer)
    → Valid r
    → (record_of r frame).active ≡ true
    → c + one_if (can_go (record_of r frame)) ≡ r.current_evitable_count + one_if b
    → Valid (record r {
      hash_for_record = set r.hash_for_record frame (record (record_of r frame) { evitable = b });
      current_evitable_count = c;
    })
evitable_write-Valid frame b c r v known counts =
    let h = record_of r frame in
    written-Valid frame (record h { evitable = b }) r.lru_chain r.lruk_chain c r.current_timestamp
      r.next_node r v (active-lt r.hash_for_record frame known) v.ordered (ground arith)
      (with_evitable-FrameValid r.k_value h b (nodes_of frame r.lruk_chain)
        (times frame r.lru_chain) (v.each frame))
      (λ f ne. (refl, refl))

-- `SetEvictable` keeps a replacer valid.
pub set_evictable-Valid :
    (frame : ℕ) (b : Bool) (r : Replacer) → Valid r → Valid (set_evictable frame b r)
unfolding set_evictable
set_evictable-Valid frame true r v =
    elim (Bool-cases ((record_of r frame).active && not (record_of r frame).evitable)) [
      | inl changes ↦ rw changes (
          evitable_write-Valid frame true ((r.current_evitable_count + 1) % 2 ^ 64) r v
            (ground arith) (ground (arith, evitable_count-le r.hash_for_record)))
      | inr same ↦ rw same v
    ]
set_evictable-Valid frame false r v =
    elim (Bool-cases ((record_of r frame).active && (record_of r frame).evitable)) [
      | inl changes ↦ rw changes (
          evitable_write-Valid frame false ((r.current_evitable_count + 2 ^ 64 - 1) % 2 ^ 64) r v
            (ground arith)
            (ground (
              arith,
              evitable_count-le r.hash_for_record,
              evitable_count-ge r.hash_for_record frame,
            )))
      | inr same ↦ rw same v
    ]

-- A frame that is known and can be given up is forgotten.
abbrev pub forgotten : ℕ → Replacer → Replacer
forgotten frame r =
    let h = record_of r frame in
    written frame (record h { has_node_in_lru_chain = false; active = false })
      (if h.has_node_in_lru_chain then remove_frame frame r.lru_chain else r.lru_chain)
      (without frame r.lruk_chain) (r.current_evitable_count - 1) r.current_timestamp r.next_node r

pub FrameValid-IsTracked :
    (k : ℕ) (h : LrukRecord) (ns : Chain) (n : ℕ)
    → FrameValid k h ns n
    → h.active ≡ true
    → IsTracked k h ns n
FrameValid-IsTracked k h ns n (inl t) e = t
FrameValid-IsTracked k h ns n (inr u) e = absurd (let u1 = u.not_active in ground arith)

pub FrameValid-IsUnknown :
    (k : ℕ) (h : LrukRecord) (ns : Chain) (n : ℕ)
    → FrameValid k h ns n
    → h.active ≡ false
    → IsUnknown h ns n
FrameValid-IsUnknown k h ns n (inl t) e = absurd (let t1 = t.is_active in ground arith)
FrameValid-IsUnknown k h ns n (inr u) e = u

-- `TryEvictExactFrame` forgets a frame that is known and can be given up, and no other.
pub try_evict_exact_frame-forgotten :
    (frame : ℕ) (r : Replacer)
    → Valid r
    → try_evict_exact_frame frame r
      ≡ (if can_go (record_of r frame) then (true, forgotten frame r) else (false, r))
unfolding try_evict_exact_frame
try_evict_exact_frame-forgotten frame r v = elim (Bool-cases (can_go (record_of r frame))) [
  | inr stays ↦ rw stays refl
  | inl goes ↦
      let t =
        FrameValid-IsTracked r.k_value (record_of r frame) (nodes_of frame r.lruk_chain)
          (times frame r.lru_chain) (v.each frame) (ground arith) in
      let removed : remove_whole_frame (length r.lruk_chain)
            (record_of r frame).head_node_in_main_chain r.lruk_chain
          ≡ without frame r.lruk_chain =
        ap (λ (o : Option ℕ). remove_whole_frame (length r.lruk_chain) o r.lruk_chain) t.head
        ∙ remove_whole_frame-without (length r.lruk_chain) frame 0 r.next_node r.lruk_chain
            (nodes_of frame r.lruk_chain) v.ordered refl t.linked
            (length-nodes_of-le frame r.lruk_chain) in
      let one_less : (r.current_evitable_count + 2 ^ 64 - 1) % 2 ^ 64
          ≡ r.current_evitable_count - 1 =
        let c = v.counted in
        let s = v.small in
        omega (
          arith,
          evitable_count-le r.hash_for_record,
          evitable_count-ge r.hash_for_record frame goes,
        ) in
      rw (goes, removed, one_less) refl
]

pub forgotten-Valid :
    (frame : ℕ) (r : Replacer)
    → Valid r
    → can_go (record_of r frame) ≡ true
    → Valid (forgotten frame r)
forgotten-Valid frame r v goes =
    let h = record_of r frame in
    let known : h.active ≡ true = ground arith in
    let t =
      FrameValid-IsTracked r.k_value h (nodes_of frame r.lruk_chain) (times frame r.lru_chain)
        (v.each frame) known in
    let c = v.counted in
    let n = t.in_chain in
    written-Valid frame (record h { has_node_in_lru_chain = false; active = false }) _
      (without frame r.lruk_chain) _ r.current_timestamp r.next_node r v
      (active-lt r.hash_for_record frame known)
      (Ordered-without frame 0 r.next_node r.lruk_chain v.ordered)
      (ground (arith, evitable_count-ge r.hash_for_record frame))
      (inr (record {
        not_active = refl;
        no_nodes = nodes_of-without_self frame r.lruk_chain;
        no_node = refl;
        not_in_chain = ground (arith, times-remove_frame_self frame r.lru_chain);
      }))
      (λ f ne. (
        nodes_of-without_ne frame f r.lruk_chain ne,
        ground (arith, times-remove_frame_ne frame f r.lru_chain ne),
      ))

-- Of the records, `SetEvictable` writes whether the frame can be given up, if it is known.
pub data Marked (r : Replacer) (frame : ℕ) (b : Bool) (r' : Replacer) : Type 0 where
  marked :
      r'.hash_for_record ≡ set r.hash_for_record frame (record (record_of r frame) { evitable = b })
      → (record_of r frame).active ≡ true
      → Marked r frame b r'
  as_before :
      r'.hash_for_record ≡ r.hash_for_record
      → ((record_of r frame).active ≡ false) ⊎ ((record_of r frame).evitable ≡ b)
      → Marked r frame b r'

pub set_evictable-Marked :
    (frame : ℕ) (b : Bool) (r : Replacer) → Marked r frame b (set_evictable frame b r)
unfolding set_evictable
set_evictable-Marked frame true r =
    elim (Bool-cases ((record_of r frame).active && not (record_of r frame).evitable)) [
      | inl changes ↦ rw changes (marked refl (ground arith))
      | inr same ↦ rw same (as_before refl (ground arith))
    ]
set_evictable-Marked frame false r =
    elim (Bool-cases ((record_of r frame).active && (record_of r frame).evitable)) [
      | inl changes ↦ rw changes (marked refl (ground arith))
      | inr same ↦ rw same (as_before refl (ground arith))
    ]
