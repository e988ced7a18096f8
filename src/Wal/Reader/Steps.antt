-- ===== src/Wal/Reader/Steps.antt =====
-- What `next` returns on a whole frame, on a torn one, and at the end of the file.
use mathlib.Core.List.{append_assoc}
use native.Mathlib.Nat.{mod-eq_of_lt}
use native.Mathlib.Decide.{dec_lt}
use gemgraph.Base.{
  ℕ, ◌+◌, ◌-◌, ◌≤◌, ◌<◌, ◌^◌, ◌≡◌, ap, ◌∙◌, List, [], ◌++◌, none, some, length, take, drop,
  length-append, take-append_length, drop-append_length, take-append_ge, length-take, ok, arith,
}
use gemgraph.Bytes.Le.{to_le_bytes, from_le_bytes, length-to_le_bytes, from_le_bytes-to_le_bytes}
use gemgraph.Wal.Record.{WalRecord, payload, IsWellTyped}
use gemgraph.Wal.Record.RoundTrip.{from_raw-payload, length-payload-le}
use gemgraph.Wal.Frame.{body, frame, length-frame}
use gemgraph.Wal.Reader.{WalIter, read_exact_or_none, next}

read_exact-append :
    (n : ℕ) (xs ys : List ℕ) → length xs ≡ n → read_exact_or_none n (xs ++ ys) ≡ some (xs, ys)
unfolding read_exact_or_none
read_exact-append n xs ys h = ground (
  arith,
  length-append xs ys,
  take-append_length xs ys,
  drop-append_length xs ys,
  ap (λ k. take k (xs ++ ys)) h,
  ap (λ k. drop k (xs ++ ys)) h,
)

read_exact_short : (n : ℕ) (xs : List ℕ) → length xs < n → read_exact_or_none n xs ≡ none
unfolding read_exact_or_none
read_exact_short n xs h = ground arith

module _ (crc32c : List ℕ → ℕ) (crc32c-lt : (bytes : List ℕ) → crc32c bytes < 2 ^ 32) where
  frame-append :
      (r : WalRecord) (rest : List ℕ)
      → frame crc32c r ++ rest
        ≡ to_le_bytes 4 (1 + length (payload r))
          ++ (body r ++ (to_le_bytes 4 (crc32c (body r)) ++ rest))
  unfolding frame
  frame-append r rest = simp append_assoc

  -- A whole frame yields its record, and the iterator moves behind it.
  pub next-frame :
      (it : WalIter) (r : WalRecord) (rest : List ℕ)
      → IsWellTyped r
      → drop it.offset it.file ≡ frame crc32c r ++ rest
      → it.offset + length (frame crc32c r) < 2 ^ 64
      → next crc32c it ≡ (some (ok r), record it { offset = it.offset + length (frame crc32c r) })
  unfolding next
  next-frame it r rest wf at fits =
      let L = to_le_bytes 4 (1 + length (payload r)) in
      let C = to_le_bytes 4 (crc32c (body r)) in
      let whole : drop it.offset it.file ≡ L ++ (body r ++ (C ++ rest)) =
        at ∙ frame-append r rest in
      ground (
        arith,
        whole,
        read_exact-append 4 L (body r ++ (C ++ rest))
            (length-to_le_bytes 4 (1 + length (payload r))),
        read_exact-append (1 + length (payload r)) (body r) (C ++ rest) (omega arith),
        read_exact-append 4 C rest (length-to_le_bytes 4 (crc32c (body r))),
        from_le_bytes-to_le_bytes 4 (1 + length (payload r))
            (omega (arith, length-payload-le r wf)),
        from_le_bytes-to_le_bytes 4 (crc32c (body r)) (crc32c-lt (body r)),
        from_raw-payload r wf,
        length-frame crc32c r,
        mod-eq_of_lt fits,
      )

  take-frame :
      (r : WalRecord) (n : ℕ)
      → 4 ≤ n
      → take n (frame crc32c r)
        ≡ to_le_bytes 4 (1 + length (payload r))
          ++ take (n - 4) (body r ++ to_le_bytes 4 (crc32c (body r)))
  unfolding frame
  take-frame r n h =
      let L = to_le_bytes 4 (1 + length (payload r)) in
      let X = body r ++ to_le_bytes 4 (crc32c (body r)) in
      let four = length-to_le_bytes 4 (1 + length (payload r)) in
      take-append_ge n L X (omega (arith, four)) ∙ ap (λ k. L ++ take (n - k) X) four

  next-short_size :
      (it : WalIter) → length (drop it.offset it.file) < 4 → next crc32c it ≡ (none, it)
  unfolding next
  next-short_size it short = ground (arith, read_exact_short 4 (drop it.offset it.file))

  -- The length field is whole, and the end of the file cuts the body or the checksum.
  next-torn_body :
      (it : WalIter) (r : WalRecord) (k : ℕ)
      → IsWellTyped r
      → drop it.offset it.file
        ≡ to_le_bytes 4 (1 + length (payload r))
          ++ take k (body r ++ to_le_bytes 4 (crc32c (body r)))
      → k < length (payload r) + 5
      → next crc32c it ≡ (none, it)
  unfolding next
  next-torn_body it r k wf at torn =
      let L = to_le_bytes 4 (1 + length (payload r)) in
      let C = to_le_bytes 4 (crc32c (body r)) in
      let tail = take k (body r ++ C) in
      let shared : (read_exact_or_none 4 (L ++ tail) ≡ some (L, tail))
          × (from_le_bytes L ≡ 1 + length (payload r)) =
        (
          read_exact-append 4 L tail (length-to_le_bytes 4 (1 + length (payload r))),
          from_le_bytes-to_le_bytes 4 (1 + length (payload r))
              (omega (arith, length-payload-le r wf)),
        ) in
      elim (dec_lt k (1 + length (payload r))) [
        | yes p ↦ ground (
          arith,
          at,
          shared,
          read_exact_short (1 + length (payload r)) tail
              (omega (arith, length-take k (body r ++ C))),
        )
        | no p ↦
            let cut = take (k - length (body r)) C in
            let whole : tail ≡ body r ++ cut = take-append_ge k (body r) C (omega arith) in
            ground (
              arith,
              at,
              shared,
              whole,
              read_exact-append (1 + length (payload r)) (body r) cut (omega arith),
              read_exact_short 4 cut (
                  omega (
                    arith,
                    length-take (k - length (body r)) C,
                    length-to_le_bytes 4 (crc32c (body r)),
                  )),
            )
      ]

  -- A torn frame ends the iteration.
  pub next-torn :
      (it : WalIter) (r : WalRecord) (n : ℕ)
      → IsWellTyped r
      → drop it.offset it.file ≡ take n (frame crc32c r)
      → n < length (frame crc32c r)
      → next crc32c it ≡ (none, it)
  next-torn it r n wf at torn = elim (dec_lt n 4) [
    | yes p ↦ next-short_size it (rw at (omega (arith, length-take n (frame crc32c r))))
    | no p ↦
        next-torn_body it r (n - 4) wf (at ∙ take-frame r n (omega arith))
          (omega (arith, length-frame crc32c r))
  ]

  pub next-end : (it : WalIter) → drop it.offset it.file ≡ [] → next crc32c it ≡ (none, it)
  unfolding next read_exact_or_none
  next-end it at = rw at
