-- ===== src/Snapshot/Diff/Emitted.antt =====
-- dataguard/src/snapshot.cpp: what the first loop of `GenerateDiff` writes, by recursion on the
-- pairs of bytes that the two files have at the same place.
use mathlib.Core.List.{append-nil, append_assoc}
use mathlib.Core.Path.{subst}
use bh_ticket_system.Base.{
  ℕ, suc, ◌+◌, ◌^◌, ◌<◌, ◌≡◌, refl, ap, ◌∙◌, sym, Bool, true, false, List, [], ◌∷◌, ◌++◌, Bytes,
  ◌==◌, if◌then◌else◌, length, arith, Bool-cases, inl, inr, length-append,
}
use bh_ticket_system.Snapshot.Diff.{Differing, stretch, close_stretch, compare_byte, compare_bytes}

abbrev pub Pairs : Type 0
Pairs = List (ℕ × ℕ)

-- The bytes of the old file, or those of the new one.
abbrev pub column : Bool → Pairs → Bytes
column b [] = []
column b ((o, n) ∷ ps) = (if b then o else n) ∷ column b ps

pub column-append : (b : Bool) (ps qs : Pairs) → column b (ps ++ qs) ≡ column b ps ++ column b qs
column-append b [] qs = refl
column-append b ((o, n) ∷ ps) qs =
    ap (λ (l : Bytes). (if b then o else n) ∷ l) (column-append b ps qs)

pub length-column : (b : Bool) (ps : Pairs) → length (column b ps) ≡ length ps
length-column b [] = refl
length-column b ((o, n) ∷ ps) = ap suc (length-column b ps)

-- The pairs `qs` that differ from place `pos` on, as they are written.
abbrev pub closed : ℕ → Pairs → Bytes
closed pos [] = []
closed pos (q ∷ qs) = stretch (length (q ∷ qs)) pos (column true (q ∷ qs)) (column false (q ∷ qs))

-- What is written for the pairs `ps`, when the pairs `qs` from `pos` on are those that differ last.
unfoldable pub emitted : ℕ → Pairs → Pairs → Bytes
emitted pos qs [] = closed pos qs
emitted pos qs ((o, n) ∷ ps) =
    let ends = closed pos qs ++ emitted (pos + length qs + 1) [] ps in
    let goes_on = emitted pos (qs ++ (o, n) ∷ []) ps in if o == n then ends else goes_on

-- The variables of the loop, with the pairs `qs` at hand; `stale` is left from a stretch before.
abbrev pub at_hand : ℕ → ℕ → Pairs → Bytes → Differing
at_hand stale pos [] buf = record {
  is_diff = false;
  len = 0;
  pos = stale;
  in_old = [];
  in_new = [];
  buf = buf;
}
at_hand stale pos (q ∷ qs) buf = record {
  is_diff = true;
  len = length (q ∷ qs);
  pos = pos;
  in_old = column true (q ∷ qs);
  in_new = column false (q ∷ qs);
  buf = buf;
}

abbrev pub closing : Differing → Differing
closing d = if d.is_diff then close_stretch d else d

-- A pair of equal bytes closes what is at hand.
compare_byte_same :
    (stale pos i o : ℕ) (qs : Pairs) (buf : Bytes)
    → (stale' : ℕ) × (compare_byte i o o (at_hand stale pos qs buf)
        ≡ at_hand stale' (pos + length qs + 1) [] (buf ++ closed pos qs))
unfolding compare_byte close_stretch
compare_byte_same stale pos i o [] buf = (stale, ground (arith, append-nil buf))
compare_byte_same stale pos i o (q ∷ qs) buf = (pos, ground arith)

-- A pair of different bytes is added.
compare_byte_other :
    (stale pos i o n : ℕ) (qs : Pairs) (buf : Bytes)
    → (o == n) ≡ false
    → pos + length qs ≡ i
    → i < 2 ^ 32
    → length qs + 1 < 2 ^ 32
    → compare_byte i o n (at_hand stale pos qs buf) ≡ at_hand stale pos (qs ++ (o, n) ∷ []) buf
unfolding compare_byte
compare_byte_other stale pos i o n [] buf other place small short = ground arith
compare_byte_other stale pos i o n (q ∷ qs) buf other place small short = ground (
  arith,
  column-append true qs ((o, n) ∷ []),
  column-append false qs ((o, n) ∷ []),
  length-append qs ((o, n) ∷ []),
)

-- The rounds for the pairs `ps` end with `whole` in the buffer and the readers behind the pairs.
abbrev pub Writes : Pairs → ℕ → Bytes → Bytes → Differing → Bytes → Type 0
Writes ps i t1 t2 d whole =
    let r = compare_bytes (length ps) i (column true ps ++ t1) (column false ps ++ t2) d in
    ((closing r.0).buf ≡ whole) × (r.1 ≡ t1) × (r.2 ≡ t2)

-- The loop writes what is said above, and leaves the readers behind the pairs.
pub compare_bytes-emitted :
    (ps : Pairs) (stale pos i : ℕ) (qs : Pairs) (buf t1 t2 : Bytes)
    → pos + length qs ≡ i
    → i + length ps < 2 ^ 32
    → Writes ps i t1 t2 (at_hand stale pos qs buf) (buf ++ emitted pos qs ps)
unfolding compare_bytes emitted
compare_bytes-emitted [] stale pos i [] buf t1 t2 place short = (sym (append-nil buf), refl, refl)
compare_bytes-emitted [] stale pos i (q ∷ qs) buf t1 t2 place short =
    unfold close_stretch in (refl, refl, refl)
compare_bytes-emitted ((o, n) ∷ ps) stale pos i qs buf t1 t2 place short =
    elim (Bool-cases (o == n)) [
      | inl same ↦
          let one : o ≡ n = ground arith in
          let (stale', step) = compare_byte_same stale pos i o qs buf in
          let step' : compare_byte i o n (at_hand stale pos qs buf)
              ≡ at_hand stale' (pos + length qs + 1) [] (buf ++ closed pos qs) =
            subst
              (λ (z : ℕ).
                compare_byte i o z (at_hand stale pos qs buf)
                ≡ at_hand stale' (pos + length qs + 1) [] (buf ++ closed pos qs))
              one step in
          let (wrote, left1, left2) =
            compare_bytes-emitted ps stale' (pos + length qs + 1) (i + 1) [] (buf ++ closed pos qs)
              t1 t2 (omega arith) (omega arith) in
          rw same (
            subst
              (λ (d : Differing).
                Writes ps (i + 1) t1 t2 d
                  (buf ++ (closed pos qs ++ emitted (pos + length qs + 1) [] ps)))
              (sym step')
              (
                wrote ∙ append_assoc buf (closed pos qs) (emitted (pos + length qs + 1) [] ps),
                left1,
                left2,
              ))
      | inr other ↦
          let step =
            compare_byte_other stale pos i o n qs buf other place (omega arith) (omega arith) in
          rw other (
            subst
              (λ (d : Differing).
                Writes ps (i + 1) t1 t2 d (buf ++ emitted pos (qs ++ (o, n) ∷ []) ps))
              (sym step)
              (compare_bytes-emitted ps stale pos (i + 1) (qs ++ (o, n) ∷ []) buf t1 t2
                (omega (arith, length-append qs ((o, n) ∷ []))) (omega arith)))
    ]
