-- ===== src/Storage/Replacer/Recent.antt =====
-- storage/src/replacer.cpp: the chain for less than k visits stands in the order of the last visits.
use mathlib.Core.Path.{subst}
use bh_ticket_system.Base.{
  ℕ, suc, ◌+◌, ◌%◌, ◌^◌, ◌≤◌, ◌<◌, ◌≡◌, ◌≢◌, refl, ap, ◌∙◌, sym, Bool, true, false, ◌&&◌, not,
  Option, none, some, List, [], ◌∷◌, ◌++◌, ltb, ◌==◌, if◌then◌else◌, length, get_or, set, arith,
  Bool-cases, inl, inr, get_or-set_ne, if-elim,
}
use bh_ticket_system.Storage.Replacer.{
  LrukRecord, Replacer, record_of, fresh_record, remove_frame, set_evictable, first_access,
  next_access, record_access, new_replacer, forget_first, add_record,
}
use bh_ticket_system.Storage.Replacer.Valid.{
  times, times-remove_frame_self, one_if, can_go, active-lt, Valid, record_of-set_self,
}
use bh_ticket_system.Storage.Replacer.Chain.{Chain, nodes_of}
use bh_ticket_system.Storage.Replacer.Access.{
  visited_chain, visited_record, next_access_cases, restamped,
}
use bh_ticket_system.Storage.Replacer.Evict.{forgotten, FrameValid-IsTracked, FrameValid-IsUnknown}

-- The node of the last visit of a frame.
abbrev pub last_visit : List LrukRecord → ℕ → Option ℕ
last_visit hs f = (get_or hs f fresh_record).tail_node_in_main_chain

-- The last visits of the frames of a chain, which lie in its order between `lo` and `hi`.
pub data Recent (hs : List LrukRecord) (hi : ℕ) : ℕ → List ℕ → Type 0 where
  nil : {lo : ℕ} → Recent hs hi lo []
  cons :
      {lo f : ℕ} {fs : List ℕ} (x : ℕ)
      → last_visit hs f ≡ some x
      → lo ≤ x
      → x < hi
      → Recent hs hi (suc x) fs
      → Recent hs hi lo (f ∷ fs)

pub Recent-weaken :
    {hs : List LrukRecord} {hi lo lo' : ℕ} {fs : List ℕ}
    → lo' ≤ lo
    → Recent hs hi lo fs
    → Recent hs hi lo' fs
Recent-weaken le nil = nil
Recent-weaken le (cons x last a b rest) = cons x last (omega arith) b rest

Recent-remove_frame :
    {hs : List LrukRecord} {hi lo : ℕ} (f : ℕ) (fs : List ℕ)
    → Recent hs hi lo fs
    → Recent hs hi lo (remove_frame f fs)
unfolding remove_frame
Recent-remove_frame f [] nil = nil
Recent-remove_frame f (g ∷ gs) (cons x last a b rest) = elim (Bool-cases (g == f)) [
  | inl mine ↦ rw mine (Recent-weaken (omega arith) rest)
  | inr other ↦ rw other (cons x last a b (Recent-remove_frame f gs rest))
]

-- The records of frames that do not stand in the chain are of no account.
Recent-other :
    {hs hs' : List LrukRecord} {hi hi' lo : ℕ} (f : ℕ) (fs : List ℕ)
    → times f fs ≡ 0
    → ((g : ℕ) → f ≢ g → last_visit hs' g ≡ last_visit hs g)
    → hi ≤ hi'
    → Recent hs hi lo fs
    → Recent hs' hi' lo fs
Recent-other f [] gone same le nil = nil
Recent-other f (g ∷ gs) gone same le (cons x last a b rest) =
    let ne : f ≢ g = λ e. absurd (ground arith) in
    cons x (same g ne ∙ last) a (omega arith) (Recent-other f gs (ground arith) same le rest)

Recent-append :
    {hs : List LrukRecord} {hi lo : ℕ} (f : ℕ) (fs : List ℕ)
    → lo ≤ hi
    → last_visit hs f ≡ some hi
    → Recent hs hi lo fs
    → Recent hs (hi + 1) lo (fs ++ f ∷ [])
Recent-append {hs} {hi} f [] le last nil = cons hi last le (omega arith) nil
Recent-append {hs} {hi} f (g ∷ gs) le last (cons x last' a b rest) =
    cons x last' a (omega arith) (Recent-append f gs (omega arith) last rest)

-- The number of the node of a visit; visits are numbered as they come.
abbrev pub number : Option ℕ → ℕ
number none = 0
number (some x) = x

pub Recent-ge :
    {hs : List LrukRecord} {hi lo : ℕ} (g : ℕ) (fs : List ℕ)
    → Recent hs hi lo fs
    → 1 ≤ times g fs
    → lo ≤ number (last_visit hs g)
Recent-ge g [] nil there = absurd (omega arith)
Recent-ge {hs} g (f ∷ fs) (cons x last a b rest) there = elim (Bool-cases (f == g)) [
  | inl same ↦
      let one : f ≡ g = ground arith in
      let mine : last_visit hs g ≡ some x = subst (λ (z : ℕ). last_visit hs z ≡ some x) one last in
      rw mine a
  | inr other ↦ omega (arith, Recent-ge g fs rest (ground arith))
]

abbrev pub InOrder : Replacer → Type 0
InOrder r = Recent r.hash_for_record r.next_node 0 r.lru_chain

pub new_replacer-InOrder : (n k : ℕ) → InOrder (new_replacer n k)
unfolding new_replacer
new_replacer-InOrder n k = nil

Recent-same :
    {hs hs' : List LrukRecord} {hi lo : ℕ} {fs : List ℕ}
    → ((g : ℕ) → last_visit hs' g ≡ last_visit hs g)
    → Recent hs hi lo fs
    → Recent hs' hi lo fs
Recent-same same nil = nil
Recent-same same (cons {f = f} x last a b rest) = cons x (same f ∙ last) a b (Recent-same same rest)

last_visit-set_ne :
    (hs : List LrukRecord) (frame g : ℕ) (h : LrukRecord)
    → frame ≢ g
    → last_visit (set hs frame h) g ≡ last_visit hs g
last_visit-set_ne hs frame g h ne =
    ap (λ (h : LrukRecord). h.tail_node_in_main_chain) (get_or-set_ne hs frame g h fresh_record ne)

-- A write that leaves the last visit of the frame.
last_visit-set_same :
    (hs : List LrukRecord) (frame g : ℕ) (h : LrukRecord)
    → frame < length hs
    → h.tail_node_in_main_chain ≡ last_visit hs frame
    → last_visit (set hs frame h) g ≡ last_visit hs g
last_visit-set_same hs frame g h lt e = elim (Bool-cases (frame == g)) [
  | inl same ↦
      let one : frame ≡ g = ground arith in
      ap (λ (h : LrukRecord). h.tail_node_in_main_chain) (record_of-set_self hs frame g h lt one)
      ∙ e
      ∙ ap (last_visit hs) one
  | inr other ↦ last_visit-set_ne hs frame g h (λ e. absurd (ground arith))
]

pub set_evictable-InOrder :
    (frame : ℕ) (b : Bool) (r : Replacer) → InOrder r → InOrder (set_evictable frame b r)
unfolding set_evictable
set_evictable-InOrder frame true r o =
    elim (Bool-cases ((record_of r frame).active && not (record_of r frame).evitable)) [
      | inl changes ↦ rw changes (
          Recent-same
            (λ g.
              last_visit-set_same r.hash_for_record frame g _
                (active-lt r.hash_for_record frame (ground arith)) refl)
            o)
      | inr same ↦ rw same o
    ]
set_evictable-InOrder frame false r o =
    elim (Bool-cases ((record_of r frame).active && (record_of r frame).evitable)) [
      | inl changes ↦ rw changes (
          Recent-same
            (λ g.
              last_visit-set_same r.hash_for_record frame g _
                (active-lt r.hash_for_record frame (ground arith)) refl)
            o)
      | inr same ↦ rw same o
    ]

pub forgotten-InOrder :
    (frame : ℕ) (r : Replacer)
    → can_go (record_of r frame) ≡ true
    → InOrder r
    → InOrder (forgotten frame r)
forgotten-InOrder frame r goes o =
    Recent-same
      (λ g.
        last_visit-set_same r.hash_for_record frame g _
          (active-lt r.hash_for_record frame (ground arith)) refl)
      (elim (Bool-cases (record_of r frame).has_node_in_lru_chain) [
        | inl was_in ↦ rw was_in (Recent-remove_frame frame r.lru_chain o)
        | inr was_not ↦ rw was_not o
      ])

-- A visit puts the frame behind all others, or takes it off the chain.
visit-InOrder :
    (frame hi : ℕ) (h : LrukRecord) (hs : List LrukRecord) (lru : List ℕ) (stays : Bool)
    → frame < length hs
    → h.tail_node_in_main_chain ≡ some hi
    → times frame lru ≡ 0
    → Recent hs hi 0 lru
    → Recent (set hs frame h) (hi + 1) 0 (if stays then lru ++ frame ∷ [] else lru)
visit-InOrder frame hi h hs lru true lt last gone o =
    Recent-append frame lru (omega arith)
      (ap (λ (h : LrukRecord). h.tail_node_in_main_chain)
          (record_of-set_self hs frame frame h lt refl)
        ∙ last)
      (Recent-other frame lru gone (λ g ne. last_visit-set_ne hs frame g h ne) (omega arith) o)
visit-InOrder frame hi h hs lru false lt last gone o =
    Recent-other frame lru gone (λ g ne. last_visit-set_ne hs frame g h ne) (omega arith) o

first_access-InOrder :
    (frame : ℕ) (r : Replacer)
    → Valid r
    → frame < length r.hash_for_record
    → (record_of r frame).active ≡ false
    → InOrder r
    → InOrder (first_access frame r)
unfolding first_access
first_access-InOrder frame r v lt unknown o =
    let u =
      FrameValid-IsUnknown r.k_value (record_of r frame) (nodes_of frame r.lruk_chain)
        (times frame r.lru_chain) (v.each frame) unknown in
    visit-InOrder frame r.next_node _ r.hash_for_record r.lru_chain true lt refl u.not_in_chain o

forget_first-last :
    (h : LrukRecord) (chain : Chain)
    → (forget_first h chain).0.tail_node_in_main_chain ≡ h.tail_node_in_main_chain
unfolding forget_first
forget_first-last h chain = ground arith

visited_chain-Recent :
    (frame : ℕ) (h : LrukRecord) (r : Replacer) (was_in stays : Bool)
    → frame < length r.hash_for_record
    → h.tail_node_in_main_chain ≡ some r.next_node
    → times frame r.lru_chain ≡ one_if was_in
    → InOrder r
    → Recent
        (set r.hash_for_record frame h)
        (r.next_node + 1)
        0
        (visited_chain frame was_in stays r.lru_chain)
unfolding visited_chain
visited_chain-Recent frame h r true stays lt last there o =
    visit-InOrder frame r.next_node h r.hash_for_record (remove_frame frame r.lru_chain) stays lt
      last (omega (arith, times-remove_frame_self frame r.lru_chain))
      (Recent-remove_frame frame r.lru_chain o)
visited_chain-Recent frame h r false stays lt last there o =
    visit-InOrder frame r.next_node h r.hash_for_record r.lru_chain stays lt last there o

next_access-InOrder :
    (frame : ℕ) (r : Replacer)
    → Valid r
    → (record_of r frame).active ≡ true
    → InOrder r
    → InOrder (next_access frame r)
unfolding visited_record
next_access-InOrder frame r v known o =
    let h = record_of r frame in
    let t =
      FrameValid-IsTracked r.k_value h (nodes_of frame r.lruk_chain) (times frame r.lru_chain)
        (v.each frame) known in
    let lt = active-lt r.hash_for_record frame known in
    let h' = visited_record r.k_value h r.next_node in
    let chain =
      add_record frame r.current_timestamp h.tail_node_in_main_chain r.next_node r.lruk_chain in
    subst InOrder (sym (next_access_cases frame r)) (
      if-elim InOrder (ltb r.k_value h'.visit_count)
        (visited_chain-Recent frame (forget_first h' chain).0 r h.has_node_in_lru_chain
          (ltb h'.visit_count r.k_value) lt (forget_first-last h' chain) t.in_chain o)
        (visited_chain-Recent frame h' r h.has_node_in_lru_chain (ltb h'.visit_count r.k_value) lt
          refl t.in_chain o))

pub record_access-InOrder :
    (frame : ℕ) (r : Replacer)
    → Valid r
    → frame < length r.hash_for_record
    → InOrder r
    → InOrder (record_access frame r)
unfolding record_access
record_access-InOrder frame r v lt o =
    let r' : Replacer = record r { current_timestamp = (r.current_timestamp + 1) % 2 ^ 64 } in
    elim (Bool-cases (record_of r frame).active) [
      | inl known ↦
          subst (λ (b : Bool). InOrder (if b then next_access frame r' else first_access frame r'))
            (sym known) (next_access-InOrder frame r' (restamped r v) known o)
      | inr unknown ↦
          subst (λ (b : Bool). InOrder (if b then next_access frame r' else first_access frame r'))
            (sym unknown) (first_access-InOrder frame r' (restamped r v) lt unknown o)
    ]
