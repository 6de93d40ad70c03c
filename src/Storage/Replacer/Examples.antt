-- ===== src/Storage/Replacer/Examples.antt =====
-- storage/src/replacer.cpp: a replacer of three frames that keeps two visits of each.
use bh_ticket_system.Base.{ℕ, ◌≡◌, refl, true, some, List, [], ◌∷◌, arith}
use bh_ticket_system.Storage.Replacer.{Replacer, record_of, new_replacer, try_evict_least_important}
use bh_ticket_system.Storage.Replacer.Valid.{can_go, Valid}
use bh_ticket_system.Storage.Replacer.Evict.{forgotten}
use bh_ticket_system.Storage.Replacer.Recent.{InOrder}
use bh_ticket_system.Storage.Replacer.Policy.{
  GoesBefore, try_evict_least_important-GoesBefore, try_evict_least_important-some,
}
use bh_ticket_system.Storage.Replacer.Runs.{
  Call, access, evictable, evict_least, calls, calls-Valid,
}

-- Frame 1 has one visit; frame 2 was visited three times, and frame 0 twice.
abbrev visits : List Call
visits =
    access 2
    ∷ access 0
    ∷ access 2
    ∷ access 1
    ∷ access 0
    ∷ access 2
    ∷ evictable 0 true
    ∷ evictable 1 true
    ∷ evictable 2 true
    ∷ []

abbrev pool : Replacer
pool = calls visits (new_replacer 3 2)

calls-Valid_example : Valid pool × InOrder pool
calls-Valid_example = calls-Valid 3 2 visits (omega arith) (omega arith) (omega arith) (omega arith)

pool_kept : Valid pool × InOrder pool
pool_kept = calls-Valid 3 2 visits (omega arith) (omega arith) (omega arith) (omega arith)

victim_1 : (try_evict_least_important pool).0 ≡ some 1
unfolding calls new_replacer try_evict_least_important
victim_1 = refl

-- Then frame 0 goes, whose last visit but one came before that of frame 2.
victim_0 : (try_evict_least_important (calls (evict_least ∷ []) pool)).0 ≡ some 0
unfolding calls new_replacer try_evict_least_important
victim_0 = refl

answer_1 : try_evict_least_important pool ≡ (some 1, (try_evict_least_important pool).1)
unfolding calls new_replacer try_evict_least_important
answer_1 = refl

frame_2 : can_go (record_of pool 2) ≡ true
unfolding calls new_replacer
frame_2 = refl

try_evict_least_important-GoesBefore_example :
    (can_go (record_of pool 1) ≡ true) × GoesBefore pool 1 2
try_evict_least_important-GoesBefore_example =
    try_evict_least_important-GoesBefore pool (try_evict_least_important pool).1 1 2 pool_kept.0
      pool_kept.1 answer_1 frame_2

try_evict_least_important-some_example :
    (f : ℕ) × (try_evict_least_important pool ≡ (some f, forgotten f pool))
    × (can_go (record_of pool f) ≡ true)
try_evict_least_important-some_example = try_evict_least_important-some pool 2 pool_kept.0 frame_2
