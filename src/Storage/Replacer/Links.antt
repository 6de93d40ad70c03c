-- ===== src/Storage/Replacer/Links.antt =====
-- storage/src/replacer.cpp: how the nodes of a frame are linked, when a visit is added or forgotten.
use mathlib.Core.List.{append-nil}
use mathlib.Core.Path.{subst}
use bh_ticket_system.Base.{
  ℕ, ◌+◌, ◌≤◌, ◌<◌, ◌≡◌, ◌≢◌, refl, ap, ◌∙◌, sym, Option, none, some, [], ◌∷◌, ◌++◌, ◌==◌, length,
  arith, Bool-cases, inl, inr, ◌⊎◌,
}
use bh_ticket_system.Storage.Replacer.{MainChainNode, remove_node, next_self, link_self, add_record}
use bh_ticket_system.Storage.Replacer.Chain.{
  Chain, nodes_of, Ordered, Linked, head_of, last_of, Ordered-nodes_of, Ordered-remove_node,
  Ordered-link_self, link_self_absent, nodes_of-remove_node, nodes_of-link_self, nodes_of-append,
  first-ge, next_self_first, Linked-next, Linked-tail, remove_node_first,
}

pub Linked-cons :
    (n : MainChainNode) (ns : Chain) → n.next_self_record ≡ head_of ns → Linked ns → Linked (n ∷ ns)
Linked-cons n [] e l = e
Linked-cons n (m ∷ ns) e l = (e, l)

pub last_of-cons :
    (n : MainChainNode) (ns : Chain) (x : ℕ) → head_of ns ≡ some x → last_of (n ∷ ns) ≡ last_of ns
last_of-cons n [] x e = absurd (ground arith)
last_of-cons n (m ∷ ns) x e = refl

pub last-ge : (lo hi x : ℕ) (ns : Chain) → Ordered lo hi ns → last_of ns ≡ some x → lo ≤ x
last-ge lo hi x [] o e = absurd (ground arith)
last-ge lo hi x (n ∷ []) (a, b, o) e = ground arith
last-ge lo hi x (n ∷ m ∷ ns) (a, b, o) e = omega (arith, last-ge (n.node + 1) hi x (m ∷ ns) o e)

pub link_self_later :
    (x new : ℕ) (n : MainChainNode) (ns : Chain)
    → n.node < x
    → link_self x new (n ∷ ns) ≡ n ∷ link_self x new ns
unfolding link_self
link_self_later x new n ns lt = ground arith

-- A node that is linked behind the last one.
pub link_last :
    (lo hi x new : ℕ) (ns : Chain) (node : MainChainNode)
    → Ordered lo hi ns
    → Linked ns
    → last_of ns ≡ some x
    → node.node ≡ new
    → node.next_self_record ≡ none
    → Linked (link_self x new ns ++ node ∷ [])
      × (head_of (link_self x new ns ++ node ∷ []) ≡ head_of ns)
      × (last_of (link_self x new ns ++ node ∷ []) ≡ some new)
      × (length (link_self x new ns ++ node ∷ []) ≡ length ns + 1)
unfolding link_self
link_last lo hi x new [] node o l last at end = absurd (ground arith)
link_last lo hi x new (n ∷ []) node o l last at end = ground arith
link_last lo hi x new (n ∷ m ∷ ns) node o l last at end =
    let later =
      link_self_later x new n (m ∷ ns)
        (omega (arith, last-ge (n.node + 1) hi x (m ∷ ns) o.2 last)) in
    let (linked, first, ends, longer) =
      link_last (n.node + 1) hi x new (m ∷ ns) node o.2 l.1 last at end in
    let rest = link_self x new (m ∷ ns) ++ node ∷ [] in
    subst
      (λ (c : Chain).
        Linked (c ++ node ∷ [])
        × (head_of (c ++ node ∷ []) ≡ some n.node)
        × (last_of (c ++ node ∷ []) ≡ some new)
        × (length (c ++ node ∷ []) ≡ length (n ∷ m ∷ ns) + 1))
      (sym later)
      (
        Linked-cons n rest (l.0 ∙ sym first) linked,
        refl,
        last_of-cons n rest m.node first ∙ ends,
        omega (arith, longer),
      )

pub last_of-cases :
    (n : MainChainNode) (ns : Chain) (x : ℕ)
    → last_of (n ∷ ns) ≡ some x
    → (n.node ≡ x) ⊎ (last_of ns ≡ some x)
last_of-cases n [] x e = inl (ground arith)
last_of-cases n (m ∷ ns) x e = inr e

-- The last node of one frame is no node of another.
pub link_self_other :
    (f g lo hi x new : ℕ) (c : Chain)
    → Ordered lo hi c
    → last_of (nodes_of f c) ≡ some x
    → f ≢ g
    → link_self x new (nodes_of g c) ≡ nodes_of g c
unfolding link_self
link_self_other f g lo hi x new [] o last ne = refl
link_self_other f g lo hi x new (n ∷ ns) (a, b, o) last ne = elim (Bool-cases (n.frame_id == g)) [
  | inl mine ↦
      let last' : last_of (nodes_of f ns) ≡ some x = ground arith in
      let after =
        last-ge (n.node + 1) hi x (nodes_of f ns) (Ordered-nodes_of f (n.node + 1) hi ns o) last' in
      rw mine (
        link_self_later x new n (nodes_of g ns) (omega arith)
        ∙ ap (λ (c : Chain). n ∷ c) (link_self_other f g (n.node + 1) hi x new ns o last' ne))
  | inr other ↦ rw other (elim (Bool-cases (n.frame_id == f)) [
    | inl first ↦ elim (last_of-cases n (nodes_of f ns) x (rw first at last)) [
      | inl alone ↦
          link_self_absent x new (n.node + 1) hi (nodes_of g ns) (omega arith)
            (Ordered-nodes_of g (n.node + 1) hi ns o)
      | inr more ↦ link_self_other f g (n.node + 1) hi x new ns o more ne
    ]
    | inr neither ↦ link_self_other f g (n.node + 1) hi x new ns o (rw neither at last) ne
  ])
]

pub length-nodes_of-le : (f : ℕ) (c : Chain) → length (nodes_of f c) ≤ length c
length-nodes_of-le f [] = omega arith
length-nodes_of-le f (n ∷ ns) = ground (arith, length-nodes_of-le f ns)

pub Ordered-append :
    (lo hi : ℕ) (c : Chain) (n : MainChainNode)
    → lo ≤ hi
    → Ordered lo hi c
    → n.node ≡ hi
    → Ordered lo (hi + 1) (c ++ n ∷ [])
Ordered-append lo hi [] n le o at = (omega arith, omega arith, tt)
Ordered-append lo hi (m ∷ ms) n le (a, b, o) at =
    (a, omega arith, Ordered-append (m.node + 1) hi ms n (omega arith) o at)

-- Without its first node, a chain that is long enough ends as before.
pub last_of-tail : (n : MainChainNode) (ns : Chain) → 1 ≤ length ns → last_of ns ≡ last_of (n ∷ ns)
last_of-tail n [] long = absurd (omega arith)
last_of-tail n (m ∷ ns) long = refl

-- The first node of one frame is no node of another.
pub remove_node_other :
    (f g lo hi : ℕ) (c ns : Chain) (n : MainChainNode)
    → Ordered lo hi c
    → nodes_of f c ≡ n ∷ ns
    → f ≢ g
    → nodes_of g (remove_node n.node c) ≡ nodes_of g c
unfolding remove_node
remove_node_other f g lo hi [] ns n o e ne = refl
remove_node_other f g lo hi (m ∷ ms) ns n (a, b, o) e ne =
    ground
      (arith, remove_node_other f g (m.node + 1) hi ms ns n o, first-ge f (m.node + 1) hi ms ns n o)

pub nodes_of-append_self :
    (f : ℕ) (c : Chain) (n : MainChainNode)
    → n.frame_id ≡ f
    → nodes_of f (c ++ n ∷ []) ≡ nodes_of f c ++ n ∷ []
nodes_of-append_self f c n e = nodes_of-append f c (n ∷ []) ∙ ground arith

pub nodes_of-append_ne :
    (f : ℕ) (c : Chain) (n : MainChainNode)
    → n.frame_id ≢ f
    → nodes_of f (c ++ n ∷ []) ≡ nodes_of f c
nodes_of-append_ne f c n ne =
    nodes_of-append f c (n ∷ []) ∙ ground (arith, append-nil (nodes_of f c))

pub last_of-some : (ns : Chain) → 1 ≤ length ns → (x : ℕ) × (last_of ns ≡ some x)
last_of-some [] long = absurd (omega arith)
last_of-some (n ∷ []) long = (n.node, refl)
last_of-some (n ∷ m ∷ ns) long = last_of-some (m ∷ ns) (omega arith)

pub first-some :
    (ns : Chain) → 1 ≤ length ns → (n : MainChainNode) × (rest : Chain) × (ns ≡ n ∷ rest)
first-some [] long = absurd (omega arith)
first-some (n ∷ rest) long = (n, rest, refl)

pub add_record-some :
    (frame stamp x new : ℕ) (chain : Chain)
    → add_record frame stamp (some x) new chain
      ≡ link_self x new chain
        ++ record { node = new; frame_id = frame; time_stamp = stamp; next_self_record = none } ∷ []
unfolding add_record
add_record-some frame stamp x new chain = refl

-- A frame with the nodes `ns` is visited once more.
pub record Longer (frame new : ℕ) (chain chain' : Chain) (ns : Chain) : Type 0 where
  pub ordered : Ordered 0 (new + 1) chain'
  pub linked : Linked (nodes_of frame chain')
  pub same_head : head_of (nodes_of frame chain') ≡ head_of ns
  pub new_last : last_of (nodes_of frame chain') ≡ some new
  pub one_more : length (nodes_of frame chain') ≡ length ns + 1
  pub others : (f : ℕ) → frame ≢ f → nodes_of f chain' ≡ nodes_of f chain

pub add_record-Longer :
    (frame stamp new : ℕ) (chain : Chain)
    → Ordered 0 new chain
    → Linked (nodes_of frame chain)
    → 1 ≤ length (nodes_of frame chain)
    → Longer frame new chain
        (add_record frame stamp (last_of (nodes_of frame chain)) new chain)
        (nodes_of frame chain)
add_record-Longer frame stamp new chain o l long =
    let node : MainChainNode = record {
      node = new;
      frame_id = frame;
      time_stamp = stamp;
      next_self_record = none;
    } in
    let (x, last) = last_of-some (nodes_of frame chain) long in
    let chain' = link_self x new chain ++ node ∷ [] in
    let added : add_record frame stamp (last_of (nodes_of frame chain)) new chain ≡ chain' =
      ap (λ (o : Option ℕ). add_record frame stamp o new chain) last
      ∙ add_record-some frame stamp x new chain in
    let mine : nodes_of frame chain' ≡ link_self x new (nodes_of frame chain) ++ node ∷ [] =
      nodes_of-append_self frame (link_self x new chain) node refl
      ∙ ap (λ (c : Chain). c ++ node ∷ []) (nodes_of-link_self frame x new 0 new chain o) in
    let (linked, first, ends, longer) =
      link_last 0 new x new (nodes_of frame chain) node (Ordered-nodes_of frame 0 new chain o) l
        last refl refl in
    subst (λ (c : Chain). Longer frame new chain c (nodes_of frame chain)) (sym added)
      (record {
        ordered =
            Ordered-append 0 new (link_self x new chain) node (omega arith)
              (Ordered-link_self x new 0 new chain o) refl;
        linked = subst Linked (sym mine) linked;
        same_head = ap head_of mine ∙ first;
        new_last = ap last_of mine ∙ ends;
        one_more = ap (λ (c : Chain). length c) mine ∙ longer;
        others = λ f ne.
            nodes_of-append_ne f (link_self x new chain) node ne
            ∙ nodes_of-link_self f x new 0 new chain o
            ∙ link_self_other frame f 0 new x new chain o last ne;
      })

-- The oldest visit of a frame is forgotten.
pub record Shorter (frame hi : ℕ) (chain chain' : Chain) (head : Option ℕ) : Type 0 where
  pub ordered : Ordered 0 hi chain'
  pub linked : Linked (nodes_of frame chain')
  pub at_head : head ≡ head_of (nodes_of frame chain')
  pub same_last : last_of (nodes_of frame chain') ≡ last_of (nodes_of frame chain)
  pub one_less : length (nodes_of frame chain') + 1 ≡ length (nodes_of frame chain)
  pub others : (f : ℕ) → frame ≢ f → nodes_of f chain' ≡ nodes_of f chain

pub remove_first-Shorter :
    (frame hi : ℕ) (chain ns : Chain) (n : MainChainNode)
    → Ordered 0 hi chain
    → Linked (nodes_of frame chain)
    → nodes_of frame chain ≡ n ∷ ns
    → 1 ≤ length ns
    → Shorter frame hi chain (remove_node n.node chain) (next_self n.node chain)
remove_first-Shorter frame hi chain ns n o l first long =
    let l' : Linked (n ∷ ns) = subst Linked first l in
    let left : nodes_of frame (remove_node n.node chain) ≡ ns =
      nodes_of-remove_node frame n.node 0 hi chain o
      ∙ ap (remove_node n.node) first
      ∙ remove_node_first n ns in
    record {
      ordered = Ordered-remove_node n.node 0 hi chain o;
      linked = subst Linked (sym left) (Linked-tail n ns l');
      at_head =
          next_self_first frame 0 hi chain ns n o first
          ∙ Linked-next n ns l'
          ∙ ap head_of (sym left);
      same_last = ap last_of left ∙ last_of-tail n ns long ∙ ap last_of (sym first);
      one_less =
          omega (arith, ap (λ (c : Chain). length c) left, ap (λ (c : Chain). length c) first);
      others = λ f ne. remove_node_other frame f 0 hi chain ns n o first ne;
    }
