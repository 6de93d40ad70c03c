-- ===== src/Storage/Replacer.antt =====
-- storage/src/replacer.cpp and storage/include/storage/replacer.h: `LRUKReplacer`, which says what
-- frame of a buffer pool is given up next.
pub mod Chain
pub mod Valid
pub mod Links
pub mod Evict
pub mod Access
pub mod Visited
pub mod Victim
pub mod Recent
pub mod Policy
pub mod Runs
pub mod Examples
use bh_ticket_system.Base.{
  ℕ, zero, suc, ◌+◌, ◌-◌, ◌%◌, ◌^◌, Bool, true, false, ◌&&◌, Option, none, some, List, [], ◌∷◌,
  ◌++◌, not, ltb, ◌==◌, if◌then◌else◌, get_or, set, length, replicate,
}

-- `MainChainNodeType`. `node` is the node's address; `prev` and `next` are its place in the chain.
pub record MainChainNode : Type 0 where
  pub node : ℕ
  pub frame_id : ℕ
  pub time_stamp : ℕ
  pub next_self_record : Option ℕ

-- `LRUKRecord`. A frame has one node at most in the chain for less than k visits, so the pointer to
-- it is known from whether it is null.
pub record LrukRecord : Type 0 where
  pub evitable : Bool
  pub visit_count : ℕ
  pub active : Bool
  pub head_node_in_main_chain : Option ℕ
  pub tail_node_in_main_chain : Option ℕ
  pub has_node_in_lru_chain : Bool

-- The chains without their guards. `next_node` is the address of the next node that is allocated.
pub record Replacer : Type 0 where
  pub hash_for_record : List LrukRecord
  pub lru_chain : List ℕ
  pub lruk_chain : List MainChainNode
  pub current_timestamp : ℕ
  pub current_evitable_count : ℕ
  pub max_frame_count : ℕ
  pub k_value : ℕ
  pub next_node : ℕ

abbrev pub fresh_record : LrukRecord
fresh_record = record {
  evitable = false;
  visit_count = 0;
  active = false;
  head_node_in_main_chain = none;
  tail_node_in_main_chain = none;
  has_node_in_lru_chain = false;
}

unfoldable pub new_replacer : ℕ → ℕ → Replacer
new_replacer max_frame_count k_value = record {
  hash_for_record = replicate max_frame_count fresh_record;
  lru_chain = [];
  lruk_chain = [];
  current_timestamp = 0;
  current_evitable_count = 0;
  max_frame_count = max_frame_count;
  k_value = k_value;
  next_node = 0;
}

abbrev pub record_of : Replacer → ℕ → LrukRecord
record_of r frame = get_or r.hash_for_record frame fresh_record

abbrev pub with_record : Replacer → ℕ → LrukRecord → Replacer
with_record r frame h = record r { hash_for_record = set r.hash_for_record frame h }

-- `RemoveFromList` on the chain for less than k visits.
pub remove_frame : ℕ → List ℕ → List ℕ
remove_frame frame [] = []
remove_frame frame (g ∷ gs) = if g == frame then gs else g ∷ remove_frame frame gs

-- `RemoveFromList` on the main chain.
pub remove_node : ℕ → List MainChainNode → List MainChainNode
remove_node node [] = []
remove_node node (n ∷ ns) = if n.node == node then ns else n ∷ remove_node node ns

-- `next_self_record` of a node.
pub next_self : ℕ → List MainChainNode → Option ℕ
next_self node [] = none
next_self node (n ∷ ns) = if n.node == node then n.next_self_record else next_self node ns

-- `node->next_self_record = next`
pub link_self : ℕ → ℕ → List MainChainNode → List MainChainNode
link_self node next [] = []
link_self node next (n ∷ ns) =
    if n.node == node
    then record n { next_self_record = some next } ∷ ns
    else n ∷ link_self node next ns

-- `RemoveWholeFrameFromLRUKChain`: each round takes a node off, so the length of the chain is fuel
-- enough.
pub remove_whole_frame : ℕ → Option ℕ → List MainChainNode → List MainChainNode
unfolding remove_node next_self
remove_whole_frame fuel none chain = chain
remove_whole_frame zero (some node) chain = chain
remove_whole_frame (suc fuel) (some node) chain =
    remove_whole_frame fuel (next_self node chain) (remove_node node chain)

-- `AddRecordToMainChain`: the chain with a new node at its end.
pub add_record : ℕ → ℕ → Option ℕ → ℕ → List MainChainNode → List MainChainNode
unfolding link_self
add_record frame time_stamp none new chain =
    chain
    ++ record { node = new; frame_id = frame; time_stamp = time_stamp; next_self_record = none }
      ∷ []
add_record frame time_stamp (some last) new chain =
    link_self last new chain
    ++ record { node = new; frame_id = frame; time_stamp = time_stamp; next_self_record = none }
      ∷ []

unfoldable pub set_evictable : ℕ → Bool → Replacer → Replacer
set_evictable frame true r =
    let h = record_of r frame in
    if h.active && not h.evitable
    then record (with_record r frame (record h { evitable = true })) {
      current_evitable_count = (r.current_evitable_count + 1) % 2 ^ 64;
    }
    else r
set_evictable frame false r =
    let h = record_of r frame in
    if h.active && h.evitable
    then record (with_record r frame (record h { evitable = false })) {
      current_evitable_count = (r.current_evitable_count + 2 ^ 64 - 1) % 2 ^ 64;
    }
    else r

-- `TryEvictExactFrame`
unfoldable pub try_evict_exact_frame : ℕ → Replacer → Bool × Replacer
unfolding remove_frame remove_whole_frame
try_evict_exact_frame frame r =
    let h = record_of r frame in
    if h.active && h.evitable
    then (
      true,
      record r {
        hash_for_record =
            set r.hash_for_record frame
              (record h { has_node_in_lru_chain = false; active = false });
        lru_chain = if h.has_node_in_lru_chain then remove_frame frame r.lru_chain else r.lru_chain;
        lruk_chain =
            remove_whole_frame (length r.lruk_chain) h.head_node_in_main_chain r.lruk_chain;
        current_evitable_count = (r.current_evitable_count + 2 ^ 64 - 1) % 2 ^ 64;
      },
    )
    else (false, r)

-- The first frame of a chain that can be given up.
pub first_evitable : Replacer → List ℕ → Option ℕ
first_evitable r [] = none
first_evitable r (g ∷ gs) =
    let rest = first_evitable r gs in if (record_of r g).evitable then some g else rest

pub frames : List MainChainNode → List ℕ
frames [] = []
frames (n ∷ ns) = n.frame_id ∷ frames ns

-- `TryEvictLeastImportant`: the frame, if there is one.
unfoldable pub try_evict_least_important : Replacer → Option ℕ × Replacer
unfolding first_evitable frames try_evict_exact_frame
try_evict_least_important r =
    if r.current_evitable_count == 0 then (none, r) else elim (first_evitable r r.lru_chain) [
      | some frame ↦
          let (done, r') = try_evict_exact_frame frame r in (if done then some frame else none, r')
      | none ↦ elim (first_evitable r (frames r.lruk_chain)) [
        | some frame ↦
            let (done, r') = try_evict_exact_frame frame r in
            (if done then some frame else none, r')
        | none ↦ (none, r)
      ]
    ]

-- The first visit of a frame.
pub first_access : ℕ → Replacer → Replacer
unfolding add_record
first_access frame r = record r {
  hash_for_record = set r.hash_for_record frame (record {
    evitable = false;
    visit_count = 1;
    active = true;
    head_node_in_main_chain = some r.next_node;
    tail_node_in_main_chain = some r.next_node;
    has_node_in_lru_chain = true;
  });
  lru_chain = r.lru_chain ++ frame ∷ [];
  lruk_chain = add_record frame r.current_timestamp none r.next_node r.lruk_chain;
  next_node = r.next_node + 1;
}

-- `if (visit_count > k_value)`: the oldest of the visits is forgotten.
pub forget_first : LrukRecord → List MainChainNode → LrukRecord × List MainChainNode
unfolding next_self remove_node
forget_first h chain = elim h.head_node_in_main_chain [
  | none ↦ (h, chain)
  | some first ↦
      (record h { head_node_in_main_chain = next_self first chain }, remove_node first chain)
]

-- A visit of a frame that is known.
pub next_access : ℕ → Replacer → Replacer
unfolding add_record remove_frame forget_first
next_access frame r =
    let h = record_of r frame in
    let visits : ℕ = (h.visit_count + 1) % 2 ^ 64 in
    let chain =
      add_record frame r.current_timestamp h.tail_node_in_main_chain r.next_node r.lruk_chain in
    let without = if h.has_node_in_lru_chain then remove_frame frame r.lru_chain else r.lru_chain in
    let h' = record h {
      visit_count = visits;
      tail_node_in_main_chain = some r.next_node;
      has_node_in_lru_chain = ltb visits r.k_value;
    } in
    let (h'', chain') = if ltb r.k_value visits then forget_first h' chain else (h', chain) in
    record r {
      hash_for_record = set r.hash_for_record frame h'';
      lru_chain = if ltb visits r.k_value then without ++ frame ∷ [] else without;
      lruk_chain = chain';
      next_node = r.next_node + 1;
    }

-- `RecordAccess`
unfoldable pub record_access : ℕ → Replacer → Replacer
unfolding first_access next_access
record_access frame r =
    let r' = record r { current_timestamp = (r.current_timestamp + 1) % 2 ^ 64 } in
    if (record_of r frame).active then next_access frame r' else first_access frame r'
