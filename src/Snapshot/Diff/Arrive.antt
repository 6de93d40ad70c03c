-- ===== src/Snapshot/Diff/Arrive.antt =====
-- dataguard/src/snapshot.cpp: how the loop of `ApplyPatch` reads the stretches of `GenerateDiff`.
use mathlib.Core.List.{append-nil, append_assoc}
use bh_ticket_system.Base.{
  ℕ, zero, suc, ◌+◌, ◌^◌, ◌<◌, ◌≤◌, ◌≡◌, refl, ap, ◌∙◌, sym, Bool, true, false, not, [], ◌∷◌, ◌++◌,
  Bytes, ◌==◌, if◌then◌else◌, length, arith, ok, length-append, Bool-cases, inl, inr,
}
use bh_ticket_system.Snapshot.Diff.{Patching, stretch, patch_loop}
use bh_ticket_system.Snapshot.Diff.Emitted.{
  Pairs, column, column-append, length-column, closed, emitted,
}
use bh_ticket_system.Snapshot.Diff.Steps.{patch_stretch-stretch, patch_loop-stretch}

-- The loop has come to `rest`: what is written, with the bytes `same` that are still to be copied,
-- is `whole`, and `end` bytes of the old file are behind it then.
pub record Arrives (is_reverse : Bool) (size fuel : ℕ) (p : Patching) (buf rest t whole : Bytes)
    (end : ℕ) : Type 0 where
  pub fuel_left : ℕ
  pub reached : Patching
  pub same : Bytes
  pub enough : length rest ≤ fuel_left
  pub steps :
      patch_loop fuel is_reverse size p buf ≡ patch_loop fuel_left is_reverse size reached rest
  pub reads_on : reached.reader ≡ same ++ t
  pub at_end : reached.reader_cursor + length same ≡ end
  pub writes : reached.written ++ same ≡ whole

column_if : (b : Bool) (ps : Pairs) → (if b then column true ps else column false ps) ≡ column b ps
column_if true ps = refl
column_if false ps = refl

-- One stretch is read.
closed-step :
    (is_reverse : Bool) (size fuel pos : ℕ) (p : Patching) (q : ℕ × ℕ) (qs : Pairs)
    (same ys rest : Bytes)
    → p.reader ≡ same ++ (column (not is_reverse) (q ∷ qs) ++ ys)
    → p.reader_cursor + length same ≡ pos
    → pos < 2 ^ 32
    → length (q ∷ qs) < 2 ^ 32
    → patch_loop (suc fuel) is_reverse size p (closed pos (q ∷ qs) ++ rest)
      ≡ patch_loop fuel is_reverse size
          (record {
            reader = ys;
            reader_cursor = pos + length (q ∷ qs);
            written = p.written ++ (same ++ column is_reverse (q ∷ qs));
          })
          rest
closed-step is_reverse size fuel pos p q qs same ys rest reads place small short =
    patch_loop-stretch fuel size is_reverse p _ (length (q ∷ qs)) pos (column true (q ∷ qs))
      (column false (q ∷ qs)) rest
      (patch_stretch-stretch is_reverse p same (column (not is_reverse) (q ∷ qs)) ys
          (column true (q ∷ qs)) (column false (q ∷ qs)) rest pos (length (q ∷ qs)) reads place
          (length-column true (q ∷ qs)) (length-column false (q ∷ qs))
          (length-column (not is_reverse) (q ∷ qs)) small short
        ∙ ap
            (λ (bs : Bytes). ok (
              record {
                reader = ys;
                reader_cursor = pos + length (q ∷ qs);
                written = p.written ++ (same ++ bs);
              },
              rest,
            ))
            (column_if is_reverse (q ∷ qs)))

-- Behind the stretch at hand, if there is one, the loop goes on with what `next` says.
arrive_closed :
    (is_reverse : Bool) (size fuel pos : ℕ) (p : Patching) (qs : Pairs)
    (same ys next rest t whole : Bytes) (end : ℕ)
    → p.reader ≡ same ++ (column (not is_reverse) qs ++ ys)
    → p.reader_cursor + length same ≡ pos
    → pos < 2 ^ 32
    → length qs < 2 ^ 32
    → length (closed pos qs ++ next) ≤ fuel
    → ((fuel' : ℕ) (p' : Patching) (same' : Bytes)
        → length next ≤ fuel'
        → p'.reader ≡ same' ++ ys
        → p'.reader_cursor + length same' ≡ pos + length qs
        → p'.written ++ same' ≡ p.written ++ (same ++ column is_reverse qs)
        → Arrives is_reverse size fuel' p' next rest t whole end)
    → Arrives is_reverse size fuel p (closed pos qs ++ next) rest t whole end
unfolding stretch
arrive_closed is_reverse size fuel pos p [] same ys next rest t whole end reads place small short
      enough go_on =
    go_on fuel p same enough reads (omega arith)
      (ap (λ (l : Bytes). p.written ++ l) (sym (append-nil same)))
arrive_closed is_reverse size zero pos p (q ∷ qs) same ys next rest t whole end reads place small
      short enough go_on =
    absurd (omega arith)
arrive_closed is_reverse size (suc fuel) pos p (q ∷ qs) same ys next rest t whole end reads place
      small short enough go_on =
    let step = closed-step is_reverse size fuel pos p q qs same ys next reads place small short in
    let p' : Patching = record {
      reader = ys;
      reader_cursor = pos + length (q ∷ qs);
      written = p.written ++ (same ++ column is_reverse (q ∷ qs));
    } in
    let enough' : length next ≤ fuel = omega (arith, length-append (closed pos (q ∷ qs)) next) in
    let r = go_on fuel p' [] enough' refl (omega arith) (append-nil p'.written) in
    record {
      fuel_left = r.fuel_left;
      reached = r.reached;
      same = r.same;
      enough = r.enough;
      steps = step ∙ r.steps;
      reads_on = r.reads_on;
      at_end = r.at_end;
      writes = r.writes;
    }

Arrives-cast :
    {is_reverse : Bool} {size fuel : ℕ} {p : Patching} {buf rest t whole whole' : Bytes}
    {end end' : ℕ}
    → whole ≡ whole'
    → end ≡ end'
    → Arrives is_reverse size fuel p buf rest t whole end
    → Arrives is_reverse size fuel p buf rest t whole' end'
Arrives-cast e f r = record {
  fuel_left = r.fuel_left;
  reached = r.reached;
  same = r.same;
  enough = r.enough;
  steps = r.steps;
  reads_on = r.reads_on;
  at_end = r.at_end ∙ f;
  writes = r.writes ∙ e;
}

one_more : (a s c : Bytes) (y : ℕ) → a ++ ((s ++ y ∷ []) ++ c) ≡ (a ++ s) ++ y ∷ c
one_more a s c y = simp append_assoc

column_one_more :
    (b : Bool) (qs : Pairs) (o n : ℕ) (l : Bytes)
    → column b (qs ++ (o, n) ∷ []) ++ l ≡ column b qs ++ (if b then o else n) ∷ l
column_one_more b qs o n l =
    rw (column-append b qs ((o, n) ∷ [])) (append_assoc (column b qs) ((if b then o else n) ∷ []) l)

regroup : (a s c d : Bytes) → (a ++ (s ++ c)) ++ d ≡ a ++ (s ++ (c ++ d))
regroup a s c d = simp append_assoc

-- The loop reads what is emitted for the pairs, and comes to what is behind it.
pub arrive :
    (is_reverse : Bool) (size fuel pos : ℕ) (p : Patching) (qs ps : Pairs) (same rest t : Bytes)
    → p.reader ≡ same ++ (column (not is_reverse) qs ++ (column (not is_reverse) ps ++ t))
    → p.reader_cursor + length same ≡ pos
    → pos + length qs + length ps < 2 ^ 32
    → length (emitted pos qs ps ++ rest) ≤ fuel
    → Arrives is_reverse size fuel p
        (emitted pos qs ps ++ rest)
        rest
        t
        (p.written ++ (same ++ (column is_reverse qs ++ column is_reverse ps)))
        (pos + length qs + length ps)
unfolding emitted
arrive is_reverse size fuel pos p qs [] same rest t reads place small enough =
    arrive_closed is_reverse size fuel pos p qs same t rest rest t _ _ reads place (omega arith)
      (omega arith) enough
      λ fuel' p' same' enough' reads' place' wrote. record {
        fuel_left = fuel';
        reached = p';
        same = same';
        enough = enough';
        steps = refl;
        reads_on = reads';
        at_end = omega arith;
        writes =
            wrote
            ∙ ap (λ (l : Bytes). p.written ++ (same ++ l))
                (sym (append-nil (column is_reverse qs)));
      }
arrive is_reverse size fuel pos p qs ((o, n) ∷ ps) same rest t reads place small enough =
    elim (Bool-cases (o == n)) [
      | inl alike ↦
          let x : ℕ = if not is_reverse then o else n in
          let y : ℕ = if is_reverse then o else n in
          let one : x ≡ y = ground arith in
          let more = emitted (pos + length qs + 1) [] ps in
          let assoc = append_assoc (closed pos qs) more rest in
          rw (alike, assoc)
            (arrive_closed is_reverse size fuel pos p qs same
              (column (not is_reverse) ((o, n) ∷ ps) ++ t) (more ++ rest) rest t _ _ reads place
              (omega arith) (omega arith) (rw (alike, assoc) at enough)
              λ fuel' p' same' enough' reads' place' wrote.
                Arrives-cast
                  (one_more p'.written same' (column is_reverse ps) y
                    ∙ ap (λ (l : Bytes). l ++ y ∷ column is_reverse ps) wrote
                    ∙ regroup p.written same (column is_reverse qs) (y ∷ column is_reverse ps))
                  (omega arith)
                  (arrive is_reverse size fuel' (pos + length qs + 1) p' [] ps (same' ++ y ∷ [])
                    rest t
                    (reads'
                      ∙ ap (λ (z : ℕ). same' ++ z ∷ (column (not is_reverse) ps ++ t)) one
                      ∙ sym (append_assoc same' (y ∷ []) (column (not is_reverse) ps ++ t)))
                    (omega (arith, length-append same' (y ∷ []))) (omega arith) enough'))
      | inr other ↦
          let qs' = qs ++ (o, n) ∷ [] in
          let x : ℕ = if not is_reverse then o else n in
          let y : ℕ = if is_reverse then o else n in
          rw other (
            Arrives-cast
              (ap (λ (l : Bytes). p.written ++ (same ++ l))
                (column_one_more is_reverse qs o n (column is_reverse ps)))
              (omega (arith, length-append qs ((o, n) ∷ [])))
              (arrive is_reverse size fuel pos p qs' ps same rest t
                (reads
                  ∙ ap (λ (l : Bytes). same ++ l)
                      (sym (
                        column_one_more (not is_reverse) qs o n (column (not is_reverse) ps ++ t))))
                place (omega (arith, length-append qs ((o, n) ∷ []))) (rw other at enough)))
    ]
