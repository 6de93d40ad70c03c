-- ===== src/Snapshot/Diff.antt =====
-- dataguard/src/snapshot.cpp: `GenerateDiff` and `ApplyPatch` on the bytes of the files. The
-- compression of the patch, which stands between them, is left out.
pub mod Emitted
pub mod Steps
pub mod Arrive
pub mod Generated
pub mod Examples
pub mod RoundTrip
use bh_ticket_system.Base.{
  ℕ, zero, suc, ◌+◌, ◌-◌, ◌*◌, ◌/◌, ◌%◌, ◌^◌, min, Bool, true, false, not, List, [], ◌∷◌, ◌++◌,
  Bytes, ltb, ◌==◌, if◌then◌else◌, length, Result, ok, err, undefined, ◌>>=◌,
}

-- `uint8_t_reader`: the bytes that are still to be read. At the end it gives EOF, a byte of ones.
pub next_byte : Bytes → ℕ
next_byte [] = 255
next_byte (b ∷ bs) = b

pub behind_byte : Bytes → Bytes
behind_byte [] = []
behind_byte (b ∷ bs) = bs

-- `n` calls of a reader.
pub read_bytes : ℕ → Bytes → Bytes
unfolding next_byte behind_byte
read_bytes zero file = []
read_bytes (suc n) file = next_byte file ∷ read_bytes n (behind_byte file)

-- `current_is_diff` to `diff_buff_in_new`, with `buf`.
pub record Differing : Type 0 where
  pub is_diff : Bool
  pub len : ℕ
  pub pos : ℕ
  pub in_old : Bytes
  pub in_new : Bytes
  pub buf : Bytes

-- A number of 32 bits, the high byte first.
pub four_bytes : ℕ → Bytes
four_bytes n = (n / 2 ^ 24 % 256) ∷ (n / 2 ^ 16 % 256) ∷ (n / 2 ^ 8 % 256) ∷ (n % 256) ∷ []

-- A stretch of bytes that differ, as it is written to `buf`.
pub stretch : ℕ → ℕ → Bytes → Bytes → Bytes
unfolding four_bytes
stretch len pos in_old in_new = 0 ∷ (four_bytes len ++ (four_bytes pos ++ (in_old ++ in_new)))

pub close_stretch : Differing → Differing
close_stretch d = record d {
  is_diff = false;
  len = 0;
  in_old = [];
  in_new = [];
  buf = d.buf ++ stretch d.len d.pos d.in_old d.in_new;
}

-- One round of the first loop.
pub compare_byte : ℕ → ℕ → ℕ → Differing → Differing
unfolding close_stretch
compare_byte i o n d =
    if o == n
    then if d.is_diff then close_stretch d else d
    else if d.is_diff
    then record d {
      in_old = d.in_old ++ o ∷ [];
      in_new = d.in_new ++ n ∷ [];
      len = (d.len + 1) % 2 ^ 32;
    }
    else record d {
      is_diff = true;
      len = 1;
      pos = i % 2 ^ 32;
      in_old = d.in_old ++ o ∷ [];
      in_new = d.in_new ++ n ∷ [];
    }

-- The rounds of the first loop from `i` on; the readers are left behind the shared part.
pub compare_bytes : ℕ → ℕ → Bytes → Bytes → Differing → Differing × Bytes × Bytes
unfolding compare_byte next_byte behind_byte
compare_bytes zero i old new d = (d, old, new)
compare_bytes (suc rounds) i old new d =
    compare_bytes rounds (i + 1) (behind_byte old) (behind_byte new)
      (compare_byte i (next_byte old) (next_byte new) d)

pub no_difference : Differing
no_difference = record { is_diff = false; len = 0; pos = 0; in_old = []; in_new = []; buf = [] }

-- What is written behind the stretches: the end of the longer file.
pub longer_end : ℕ → ℕ → Bytes → Bytes → Bytes
unfolding read_bytes
longer_end old_size new_size old new =
    let shared : ℕ = min old_size new_size in
    (if ltb shared old_size then 1 ∷ read_bytes (old_size - shared) old else [])
    ++ (if ltb shared new_size then 2 ∷ read_bytes (new_size - shared) new else [])

pub or_equal_mark : Bytes → Bytes
or_equal_mark [] = 3 ∷ []
or_equal_mark (b ∷ bs) = b ∷ bs

-- `GenerateDiff` up to the compression: `buf` for the bytes of the two files.
unfoldable pub generate_diff : Bytes → Bytes → Bytes
unfolding compare_bytes no_difference longer_end or_equal_mark
generate_diff old new =
    let old_size : ℕ = length old % 2 ^ 32 in
    let new_size : ℕ = length new % 2 ^ 32 in
    let (d, old', new') = compare_bytes (min old_size new_size) 0 old new no_difference in
    let closed = if d.is_diff then close_stretch d else d in
    or_equal_mark (closed.buf ++ longer_end old_size new_size old' new')

-- The next `n` bytes of the decompressed buffer and those behind them; a read behind its end is
-- undefined.
pub split_bytes : ℕ → Bytes → Result (Bytes × Bytes)
split_bytes zero buf = ok ([], buf)
split_bytes (suc n) [] = err undefined
split_bytes (suc n) (b ∷ buf) = split_bytes n buf >>= λ (front, rest). ok (b ∷ front, rest)

pub read_number : Bytes → Result (ℕ × Bytes)
read_number (a ∷ b ∷ c ∷ d ∷ buf) = ok (a * 2 ^ 24 + b * 2 ^ 16 + c * 2 ^ 8 + d, buf)
read_number _ = err undefined

-- The reader of the old file with `reader_cursor`, and what is written of the new one.
pub record Patching : Type 0 where
  pub reader : Bytes
  pub reader_cursor : ℕ
  pub written : Bytes

-- `writer(reader()); reader_cursor++;` for `n` rounds.
pub copy_bytes : ℕ → Patching → Patching
unfolding next_byte behind_byte
copy_bytes zero p = p
copy_bytes (suc n) p = copy_bytes n (record {
  reader = behind_byte p.reader;
  reader_cursor = p.reader_cursor + 1;
  written = p.written ++ next_byte p.reader ∷ [];
})

-- `while (reader_cursor < target)`
pub copy_until : ℕ → Patching → Patching
unfolding copy_bytes
copy_until target p = copy_bytes (target - p.reader_cursor) p

-- The bytes of a stretch are written, and as many of the old file are passed over.
pub write_over : Bytes → Patching → Patching
unfolding behind_byte
write_over [] p = p
write_over (b ∷ bs) p = write_over bs (record {
  reader = behind_byte p.reader;
  reader_cursor = p.reader_cursor + 1;
  written = p.written ++ b ∷ [];
})

-- A stretch, behind its flag.
pub patch_stretch : Bool → Patching → Bytes → Result (Patching × Bytes)
unfolding read_number split_bytes copy_until write_over
patch_stretch is_reverse p buf = do
  (len, buf1) ← read_number buf
  (pos, buf2) ← read_number buf1
  (in_old, buf3) ← split_bytes len buf2
  (in_new, buf4) ← split_bytes len buf3
  ok (write_over (if is_reverse then in_old else in_new) (copy_until pos p), buf4)

-- The end of the longer file, behind its flag: it is taken off or written, and the loop is left.
pub patch_end : Bool → ℕ → Patching → Bytes → Patching
unfolding copy_until
patch_end takes_off size p buf =
    if takes_off
    then copy_until ((size + 2 ^ 64 - length buf) % 2 ^ 64) p
    else let q = copy_until size p in record q { written = q.written ++ buf }

-- The loop over the decompressed buffer, and the copy of what is left. A round reads a flag at
-- least, so the length of the buffer is fuel enough.
pub patch_loop : ℕ → Bool → ℕ → Patching → Bytes → Result Patching
unfolding patch_stretch patch_end copy_until
patch_loop fuel is_reverse size p [] = ok (copy_until size p)
patch_loop zero is_reverse size p (flag ∷ buf) = err undefined
patch_loop (suc fuel) is_reverse size p (flag ∷ buf) =
    let after_stretch =
      patch_stretch is_reverse p buf >>= λ (q, rest). patch_loop fuel is_reverse size q rest in
    let passed_over = patch_loop fuel is_reverse size p buf in
    if flag == 3
    then ok (copy_until size p)
    else if flag == 0
    then after_stretch
    else if flag == 1
    then ok (patch_end (not is_reverse) size p buf)
    else if flag == 2
    then ok (patch_end is_reverse size p buf)
    else passed_over

-- `ApplyPatch` behind the decompression: the bytes of the new file.
unfoldable pub apply_patch : Bool → Bytes → Bytes → Result Bytes
unfolding patch_loop
apply_patch is_reverse old buf =
    patch_loop (length buf) is_reverse (length old % 2 ^ 32)
      (record { reader = old; reader_cursor = 0; written = [] }) buf
    >>= λ p. ok p.written
