-- ===== src/Storage/Replacer/Chain.antt =====
-- storage/src/replacer.cpp: the nodes of one frame in the main chain, and what the operations on
-- the chain do to them.

use mathlib.Core.Path.{subst}
use bh_ticket_system.Base.{
  ℕ, zero, suc, ◌+◌, ◌≤◌, ◌<◌, ◌≡◌, ◌≢◌, refl, ap, ◌∙◌, sym, Option, none, some, List, [], ◌∷◌,
  ◌++◌, ◌==◌, if◌then◌else◌, length, arith, Bool-cases, inl, inr,
}
use bh_ticket_system.Storage.Replacer.{
  MainChainNode, remove_node, next_self, link_self, remove_whole_frame,
}

abbrev pub Chain : Type 0
Chain = List MainChainNode

-- The nodes of a frame, and those of the other frames.
abbrev pub nodes_of : ℕ → Chain → Chain
nodes_of f [] = []
nodes_of f (n ∷ ns) = if n.frame_id == f then n ∷ nodes_of f ns else nodes_of f ns

abbrev pub without : ℕ → Chain → Chain
without f [] = []
without f (n ∷ ns) = if n.frame_id == f then without f ns else n ∷ without f ns

-- The nodes were allocated in the order of the chain, after `lo` and before `hi`.
abbrev pub Ordered : ℕ → ℕ → Chain → Type 0
Ordered lo hi [] = Unit
Ordered lo hi (n ∷ ns) = (lo ≤ n.node) × (n.node < hi) × Ordered (n.node + 1) hi ns

-- `next_self_record` of each node is the next one, and null at the end.
abbrev pub Linked : Chain → Type 0
Linked [] = Unit
Linked (n ∷ []) = n.next_self_record ≡ none
Linked (n ∷ m ∷ ns) = (n.next_self_record ≡ some m.node) × Linked (m ∷ ns)

abbrev pub head_of : Chain → Option ℕ
head_of [] = none
head_of (n ∷ ns) = some n.node

abbrev pub last_of : Chain → Option ℕ
last_of [] = none
last_of (n ∷ []) = some n.node
last_of (n ∷ m ∷ ns) = last_of (m ∷ ns)

pub Ordered-weaken : (lo lo' hi : ℕ) (c : Chain) → lo' ≤ lo → Ordered lo hi c → Ordered lo' hi c
Ordered-weaken lo lo' hi [] le o = tt
Ordered-weaken lo lo' hi (n ∷ ns) le (a, b, o) = (omega arith, b, o)

pub Ordered-nodes_of : (f lo hi : ℕ) (c : Chain) → Ordered lo hi c → Ordered lo hi (nodes_of f c)
Ordered-nodes_of f lo hi [] o = tt
Ordered-nodes_of f lo hi (n ∷ ns) (a, b, o) = elim (Bool-cases (n.frame_id == f)) [
  | inl mine ↦ rw mine (a, b, Ordered-nodes_of f (n.node + 1) hi ns o)
  | inr other ↦ rw other (
      Ordered-weaken (n.node + 1) lo hi (nodes_of f ns) (omega arith)
        (Ordered-nodes_of f (n.node + 1) hi ns o))
]

pub Ordered-without : (f lo hi : ℕ) (c : Chain) → Ordered lo hi c → Ordered lo hi (without f c)
Ordered-without f lo hi [] o = tt
Ordered-without f lo hi (n ∷ ns) (a, b, o) = elim (Bool-cases (n.frame_id == f)) [
  | inl mine ↦ rw mine (
      Ordered-weaken (n.node + 1) lo hi (without f ns) (omega arith)
        (Ordered-without f (n.node + 1) hi ns o))
  | inr other ↦ rw other (a, b, Ordered-without f (n.node + 1) hi ns o)
]

pub Ordered-remove_node :
    (x lo hi : ℕ) (c : Chain) → Ordered lo hi c → Ordered lo hi (remove_node x c)
unfolding remove_node
Ordered-remove_node x lo hi [] o = tt
Ordered-remove_node x lo hi (n ∷ ns) (a, b, o) = elim (Bool-cases (n.node == x)) [
  | inl mine ↦ rw mine (Ordered-weaken (n.node + 1) lo hi ns (omega arith) o)
  | inr other ↦ rw other (a, b, Ordered-remove_node x (n.node + 1) hi ns o)
]

pub Ordered-link_self :
    (x new lo hi : ℕ) (c : Chain) → Ordered lo hi c → Ordered lo hi (link_self x new c)
unfolding link_self
Ordered-link_self x new lo hi [] o = tt
Ordered-link_self x new lo hi (n ∷ ns) (a, b, o) = elim (Bool-cases (n.node == x)) [
  | inl mine ↦ rw mine (a, b, o)
  | inr other ↦ rw other (a, b, Ordered-link_self x new (n.node + 1) hi ns o)
]

-- A node allocated before all others is not among them.
pub remove_node_absent : (x lo hi : ℕ) (c : Chain) → x < lo → Ordered lo hi c → remove_node x c ≡ c
unfolding remove_node
remove_node_absent x lo hi [] lt o = refl
remove_node_absent x lo hi (n ∷ ns) lt (a, b, o) =
    ground (arith, remove_node_absent x (n.node + 1) hi ns (omega arith) o)

pub link_self_absent :
    (x new lo hi : ℕ) (c : Chain) → x < lo → Ordered lo hi c → link_self x new c ≡ c
unfolding link_self
link_self_absent x new lo hi [] lt o = refl
link_self_absent x new lo hi (n ∷ ns) lt (a, b, o) =
    ground (arith, link_self_absent x new (n.node + 1) hi ns (omega arith) o)

-- The operations on the chain are operations on the nodes of each frame.
pub nodes_of-remove_node :
    (f x lo hi : ℕ) (c : Chain)
    → Ordered lo hi c
    → nodes_of f (remove_node x c) ≡ remove_node x (nodes_of f c)
unfolding remove_node
nodes_of-remove_node f x lo hi [] o = refl
nodes_of-remove_node f x lo hi (n ∷ ns) (a, b, o) = ground (
  arith,
  nodes_of-remove_node f x (n.node + 1) hi ns o,
  remove_node_absent n.node (n.node + 1) hi (nodes_of f ns) (omega arith)
      (Ordered-nodes_of f (n.node + 1) hi ns o),
)

pub nodes_of-link_self :
    (f x new lo hi : ℕ) (c : Chain)
    → Ordered lo hi c
    → nodes_of f (link_self x new c) ≡ link_self x new (nodes_of f c)
unfolding link_self
nodes_of-link_self f x new lo hi [] o = refl
nodes_of-link_self f x new lo hi (n ∷ ns) (a, b, o) = ground (
  arith,
  nodes_of-link_self f x new (n.node + 1) hi ns o,
  link_self_absent n.node new (n.node + 1) hi (nodes_of f ns) (omega arith)
      (Ordered-nodes_of f (n.node + 1) hi ns o),
)

pub nodes_of-append : (f : ℕ) (c d : Chain) → nodes_of f (c ++ d) ≡ nodes_of f c ++ nodes_of f d
nodes_of-append f [] d = refl
nodes_of-append f (n ∷ ns) d = ground (arith, nodes_of-append f ns d)

pub nodes_of-without_self : (f : ℕ) (c : Chain) → nodes_of f (without f c) ≡ []
nodes_of-without_self f [] = refl
nodes_of-without_self f (n ∷ ns) = ground (arith, nodes_of-without_self f ns)

pub nodes_of-without_ne : (f g : ℕ) (c : Chain) → f ≢ g → nodes_of g (without f c) ≡ nodes_of g c
nodes_of-without_ne f g [] ne = refl
nodes_of-without_ne f g (n ∷ ns) ne = ground (arith, nodes_of-without_ne f g ns ne)

pub without_none : (f : ℕ) (c : Chain) → nodes_of f c ≡ [] → without f c ≡ c
without_none f [] e = refl
without_none f (n ∷ ns) e = ground (arith, without_none f ns)

-- The first node of a frame: it is behind what stands before it, and its link is found.
pub first-ge :
    (f lo hi : ℕ) (c ns : Chain) (n : MainChainNode)
    → Ordered lo hi c
    → nodes_of f c ≡ n ∷ ns
    → lo ≤ n.node
first-ge f lo hi c ns n o e = let r = subst (Ordered lo hi) e (Ordered-nodes_of f lo hi c o) in r.0

pub next_self_first :
    (f lo hi : ℕ) (c ns : Chain) (n : MainChainNode)
    → Ordered lo hi c
    → nodes_of f c ≡ n ∷ ns
    → next_self n.node c ≡ n.next_self_record
unfolding next_self
next_self_first f lo hi [] ns n o e = absurd (ground arith)
next_self_first f lo hi (m ∷ ms) ns n (a, b, o) e =
    ground
      (arith, next_self_first f (m.node + 1) hi ms ns n o, first-ge f (m.node + 1) hi ms ns n o)

pub without-remove_node :
    (f lo hi : ℕ) (c ns : Chain) (n : MainChainNode)
    → Ordered lo hi c
    → nodes_of f c ≡ n ∷ ns
    → without f (remove_node n.node c) ≡ without f c
unfolding remove_node
without-remove_node f lo hi [] ns n o e = absurd (ground arith)
without-remove_node f lo hi (m ∷ ms) ns n (a, b, o) e =
    ground
      (arith, without-remove_node f (m.node + 1) hi ms ns n o, first-ge f (m.node + 1) hi ms ns n o)

pub Linked-next :
    (n : MainChainNode) (ns : Chain) → Linked (n ∷ ns) → n.next_self_record ≡ head_of ns
Linked-next n [] l = l
Linked-next n (m ∷ ns) l = l.0

pub Linked-tail : (n : MainChainNode) (ns : Chain) → Linked (n ∷ ns) → Linked ns
Linked-tail n [] l = tt
Linked-tail n (m ∷ ns) l = l.1

pub remove_node_first : (n : MainChainNode) (ns : Chain) → remove_node n.node (n ∷ ns) ≡ ns
unfolding remove_node
remove_node_first n ns = ground arith

-- `RemoveWholeFrameFromLRUKChain` takes off the nodes of the frame and no other.
pub remove_whole_frame-without :
    (fuel f lo hi : ℕ) (c ns : Chain)
    → Ordered lo hi c
    → nodes_of f c ≡ ns
    → Linked ns
    → length ns ≤ fuel
    → remove_whole_frame fuel (head_of ns) c ≡ without f c
unfolding remove_whole_frame
remove_whole_frame-without fuel f lo hi c [] o e l enough = sym (without_none f c e)
remove_whole_frame-without zero f lo hi c (n ∷ ns) o e l enough = absurd (omega arith)
remove_whole_frame-without (suc fuel) f lo hi c (n ∷ ns) o e l enough =
    let link : next_self n.node c ≡ head_of ns =
      next_self_first f lo hi c ns n o e ∙ Linked-next n ns l in
    let left : nodes_of f (remove_node n.node c) ≡ ns =
      nodes_of-remove_node f n.node lo hi c o
      ∙ ap (remove_node n.node) e
      ∙ remove_node_first n ns in
    ap (λ (next : Option ℕ). remove_whole_frame fuel next (remove_node n.node c)) link
    ∙ remove_whole_frame-without fuel f lo hi (remove_node n.node c) ns
        (Ordered-remove_node n.node lo hi c o) left (Linked-tail n ns l) (omega arith)
    ∙ without-remove_node f lo hi c ns n o e
