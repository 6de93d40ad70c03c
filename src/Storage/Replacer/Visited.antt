-- ===== src/Storage/Replacer/Visited.antt =====
-- storage/src/replacer.cpp: what `RecordAccess` writes of the records.
use mathlib.Core.Path.{subst}
use bh_ticket_system.Base.{
  ℕ, ◌+◌, ◌%◌, ◌^◌, ◌≤◌, ◌≡◌, refl, ◌∙◌, sym, Bool, true, ltb, if◌then◌else◌, set, arith,
  Bool-cases, inl, inr, ◌⊎◌, if-elim,
}
use bh_ticket_system.Storage.Replacer.{
  LrukRecord, Replacer, record_of, add_record, first_access, forget_first, next_access,
  record_access,
}
use bh_ticket_system.Storage.Replacer.Chain.{Chain}
use bh_ticket_system.Storage.Replacer.Valid.{can_go}
use bh_ticket_system.Storage.Replacer.Access.{visited_record, next_access_cases}

-- Of the records, a visit writes that of its frame: it is known then, and can be given up if it
-- could before.
pub data Visited (r : Replacer) (frame : ℕ) (r' : Replacer) : Type 0 where
  visited :
      (h : LrukRecord)
      → r'.hash_for_record ≡ set r.hash_for_record frame h
      → h.active ≡ true
      → can_go h ≡ can_go (record_of r frame)
      → h.visit_count ≤ (record_of r frame).visit_count + 1 ⊎ h.visit_count ≤ 1
      → Visited r frame r'

forget_first-fields :
    (h : LrukRecord) (chain : Chain)
    → let f = (forget_first h chain).0 in
      (f.active ≡ h.active) × (f.evitable ≡ h.evitable) × (f.visit_count ≡ h.visit_count)
unfolding forget_first
forget_first-fields h chain = ground arith

next_access-Visited :
    (frame : ℕ) (r : Replacer)
    → (record_of r frame).active ≡ true
    → Visited r frame (next_access frame r)
unfolding visited_record
next_access-Visited frame r known =
    let h = record_of r frame in
    let h' = visited_record r.k_value h r.next_node in
    let chain =
      add_record frame r.current_timestamp h.tail_node_in_main_chain r.next_node r.lruk_chain in
    let (same_active, same_evitable, same_visits) = forget_first-fields h' chain in
    subst (Visited r frame) (sym (next_access_cases frame r)) (
      if-elim (Visited r frame) (ltb r.k_value h'.visit_count)
        (visited (forget_first h' chain).0 refl (same_active ∙ known) (ground arith)
          (inl (omega arith)))
        (visited h' refl known refl (inl (omega arith))))

pub record_access-Visited : (frame : ℕ) (r : Replacer) → Visited r frame (record_access frame r)
unfolding record_access first_access
record_access-Visited frame r =
    let r' : Replacer = record r { current_timestamp = (r.current_timestamp + 1) % 2 ^ 64 } in
    elim (Bool-cases (record_of r frame).active) [
      | inl known ↦
          subst
            (λ (b : Bool).
              Visited r frame (if b then next_access frame r' else first_access frame r'))
            (sym known) (again (next_access-Visited frame r' known))
      | inr unknown ↦
          subst
            (λ (b : Bool).
              Visited r frame (if b then next_access frame r' else first_access frame r'))
            (sym unknown) (visited _ refl refl (ground arith) (inr (omega arith)))
    ]
  where
    again :
        {r' : Replacer}
        → Visited (record r { current_timestamp = (r.current_timestamp + 1) % 2 ^ 64 }) frame r'
        → Visited r frame r'
    again (visited h e a g few) = visited h e a g few
