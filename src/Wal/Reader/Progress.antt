-- ===== src/Wal/Reader/Progress.antt =====
-- `next` moves strictly forward inside the file, and stays where it is on a record that does not
-- decode.
use native.Mathlib.Nat.{mod-eq_of_lt}
use gemgraph.Base.{
  ℕ, ◌+◌, ◌≤◌, ◌<◌, ◌^◌, ◌≡◌, refl, List, Option, none, some, length, drop, length-drop, Result, ok,
  err, arith, false, ◌==◌, ◌%◌,
}
use gemgraph.Bytes.Le.{from_le_bytes}
use gemgraph.Wal.Record.{WalRecord, WalError}
use gemgraph.Wal.Reader.{
  WalIter, read_exact_or_none, next, parse_body, yield_record, check_crc, read_body, read_size,
}

le_lt_trans : {a b c : ℕ} → a ≤ b → b < c → a < c
le_lt_trans h k = omega arith

read_exact-some :
    (n : ℕ) (xs : List ℕ) (p : List ℕ × List ℕ)
    → read_exact_or_none n xs ≡ some p
    → length p.1 + n ≡ length xs
unfolding read_exact_or_none
read_exact-some n xs p h = ground (arith, length-drop n xs)

module _ (crc32c : List ℕ → ℕ) where
  -- Where each stage yields a record, what it read was there, and the iterator has moved.
  abbrev moved : WalIter → ℕ → WalIter
  moved it size = record it { offset = (it.offset + (4 + size + 4)) % 2 ^ 64 }

  yield-ok :
      (it : WalIter) (size : ℕ) (res : Result WalRecord WalError) (r : WalRecord)
      → (yield_record it size res).0 ≡ some (ok r)
      → (yield_record it size res).1 ≡ moved it size
  yield-ok it size (ok x) r e = refl
  yield-ok it size (err x) r e = cc

  check-ok :
      (it : WalIter) (size : ℕ) (body : List ℕ) (o : Option (List ℕ × List ℕ)) (r : WalRecord)
      → (check_crc crc32c it size body o).0 ≡ some (ok r)
      → (p : List ℕ × List ℕ) × (o ≡ some p) × ((check_crc crc32c it size body o).1 ≡ moved it size)
  check-ok it size body none r e = cc
  check-ok it size body (some (buf, rest)) r e =
      ((buf, rest), refl, ground (arith, yield-ok it size (parse_body body) r))

  body-ok :
      (it : WalIter) (size : ℕ) (o : Option (List ℕ × List ℕ)) (r : WalRecord)
      → (read_body crc32c it size o).0 ≡ some (ok r)
      → (p : List ℕ × List ℕ) × (o ≡ some p)
        × (4 ≤ length p.1)
        × ((read_body crc32c it size o).1 ≡ moved it size)
  body-ok it size none r e = cc
  body-ok it size (some (body, rest)) r e =
      let (p, found, at) = check-ok it size body (read_exact_or_none 4 rest) r e in
      ((body, rest), refl, omega (arith, read_exact-some 4 rest p found), at)

  size-ok :
      (it : WalIter) (o : Option (List ℕ × List ℕ)) (r : WalRecord)
      → (read_size crc32c it o).0 ≡ some (ok r)
      → (p : List ℕ × List ℕ) × (size : ℕ) × (o ≡ some p)
        × (size + 4 ≤ length p.1)
        × ((read_size crc32c it o).1 ≡ moved it size)
  size-ok it none r e = cc
  size-ok it (some (len_buf, rest)) r e =
      let size = from_le_bytes len_buf in
      let nonzero : (size == 0) ≡ false = ground arith in
      let (p, found, enough, at) =
        body-ok it size (read_exact_or_none size rest) r (rw nonzero at e) in
      ((len_buf, rest), size, refl, omega (arith, read_exact-some size rest p found), rw nonzero at)

  -- A record that was read lies inside the file, and the iterator stands behind it.
  pub next-ok :
      (it : WalIter) (r : WalRecord)
      → length it.file < 2 ^ 64
      → (next crc32c it).0 ≡ some (ok r)
      → ((next crc32c it).1.file ≡ it.file)
        × (it.offset < (next crc32c it).1.offset)
        × ((next crc32c it).1.offset ≤ length it.file)
  unfolding next
  next-ok it r room e =
      let (p, size, found, enough, at) =
        size-ok it (read_exact_or_none 4 (drop it.offset it.file)) r e in
      let behind = read_exact-some 4 (drop it.offset it.file) p found in
      let inside : it.offset + (4 + size + 4) ≤ length it.file =
        omega (arith, length-drop it.offset it.file, behind) in
      rw (at, mod-eq_of_lt (le_lt_trans inside room)) (refl, omega arith, inside)

  -- A record that is whole and does not decode is reported, and reported again by the next call.
  pub next-err :
      (it : WalIter) (e : WalError) → (next crc32c it).0 ≡ some (err e) → (next crc32c it).1 ≡ it
  unfolding next read_exact_or_none
  next-err it e h = ground arith
