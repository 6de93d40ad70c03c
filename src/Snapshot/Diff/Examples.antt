-- ===== src/Snapshot/Diff/Examples.antt =====
-- dataguard/src/snapshot.cpp: a difference of two small files.
use bh_ticket_system.Base.{◌≡◌, refl, true, false, [], ◌∷◌, Bytes, ok, arith}
use bh_ticket_system.Snapshot.Diff.{generate_diff, apply_patch}
use bh_ticket_system.Snapshot.Diff.RoundTrip.{apply_patch-generate_diff}

abbrev first : Bytes
first = 1 ∷ 2 ∷ 3 ∷ 4 ∷ 5 ∷ []

abbrev second : Bytes
second = 1 ∷ 9 ∷ 8 ∷ 4 ∷ 6 ∷ 7 ∷ []

-- Two stretches, and one byte behind the shorter file.
difference :
    generate_diff first second
    ≡ 0 ∷ 0 ∷ 0 ∷ 0 ∷ 2 ∷ 0 ∷ 0 ∷ 0 ∷ 1 ∷ 2 ∷ 3 ∷ 9 ∷ 8 ∷ 0 ∷ 0 ∷ 0 ∷ 0 ∷ 1 ∷ 0 ∷ 0 ∷ 0 ∷ 4 ∷ 5 ∷ 6
      ∷ 2 ∷ 7 ∷ []
unfolding generate_diff bh_ticket_system.Snapshot.Diff.stretch
difference = refl

equal_files : generate_diff first first ≡ 3 ∷ []
unfolding generate_diff bh_ticket_system.Snapshot.Diff.stretch
equal_files = refl

back : apply_patch true second (generate_diff first second) ≡ ok first
unfolding apply_patch generate_diff bh_ticket_system.Snapshot.Diff.stretch
back = refl

apply_patch-generate_diff_example :
    (apply_patch false first (generate_diff first second) ≡ ok second)
    × (apply_patch true second (generate_diff first second) ≡ ok first)
apply_patch-generate_diff_example =
    apply_patch-generate_diff first second (omega arith) (omega arith)
