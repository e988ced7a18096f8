-- ===== src/Wal/Writer/Appends.antt =====
-- What an append leaves in the log file, when its writes succeed and when one of them fails.
use Prim.Native.Nat.{min}
use native.Mathlib.Nat.{mod-eq_of_lt}
use mathlib.Core.List.{append_assoc}
use gemgraph.Base.{
  ℕ, ◌+◌, ◌≤◌, ◌<◌, ◌^◌, ◌%◌, ◌≡◌, refl, ap, ◌∙◌, ◌⊎◌, List, [], ◌∷◌, ◌++◌, Option, none, some,
  length, take, take-length_le, take-min, take-min_append, take-add_append, sym, Result, ok, err,
  Method, ◌>>◌, pure, and_then-keeps, arith,
}
use gemgraph.Bytes.Le.{to_le_bytes, length-to_le_bytes}
use gemgraph.Wal.Record.{
  WalRecord, WalError, io, page_write, commit, checkpoint, record_type, payload, IsWellTyped,
}
use gemgraph.Wal.Record.RoundTrip.{length-payload-le}
use gemgraph.Wal.Device.{write_all}
use gemgraph.Wal.Frame.{body, frame, length-frame}
use gemgraph.Wal.Writer.{
  WalWriter, on_file, advance, append_record, append_page_write, append_commit, append_checkpoint,
}

module _ (crc32c : List ℕ → ℕ) where
  -- The append of one record, by the function that the crate has for its kind.
  unfoldable pub append : WalRecord → Method WalWriter WalError ℕ
  unfolding append_page_write append_commit append_checkpoint
  append (page_write page_id bytes) = append_page_write crc32c page_id bytes
  append (commit txn_id) = append_commit crc32c txn_id
  append (checkpoint txn_id) = append_checkpoint crc32c txn_id

  append-eq-append_record :
      (r : WalRecord) → append r ≡ append_record crc32c (record_type r) (payload r)
  unfolding append record_type payload
  append-eq-append_record (page_write page_id bytes) = refl
  append-eq-append_record (commit txn_id) = refl
  append-eq-append_record (checkpoint txn_id) = refl

  no_wrap :
      (r : WalRecord)
      → IsWellTyped r
      → (1 + length (payload r) % 2 ^ 32) % 2 ^ 32 ≡ 1 + length (payload r)
  no_wrap r wf = omega (arith, length-payload-le r wf)

  -- The three writes are the frame.
  frame_pieces :
      (r : WalRecord) (content : List ℕ)
      → content
          ++ to_le_bytes 4 (1 + length (payload r))
          ++ body r
          ++ to_le_bytes 4 (crc32c (body r))
        ≡ content ++ frame crc32c r
  unfolding frame
  frame_pieces r content = simp append_assoc

  -- Without a fault the frame of the record stands at the end of the file, the result is the offset
  -- where it starts, and the writer's offset moves behind it.
  pub append_lem :
      (r : WalRecord) (w : WalWriter)
      → IsWellTyped r
      → w.file.faults ≡ []
      → w.offset + length (frame crc32c r) < 2 ^ 64
      → append r w ≡ (
        ok w.offset,
        record {
          file = record { content = w.file.content ++ frame crc32c r; faults = [] };
          offset = w.offset + length (frame crc32c r);
        },
      )
  unfolding append_record
  append_lem r w wf calm room = rw (append-eq-append_record r) (
      ground (
        arith,
        no_wrap r wf,
        frame_pieces r w.file.content,
        length-frame crc32c r,
        mod-eq_of_lt room,
      ))

  abbrev Outcome : WalRecord → WalWriter → Result ℕ WalError × WalWriter → Type 0
  Outcome r w res =
      (k : ℕ) × (res.1.file.content ≡ w.file.content ++ take k (frame crc32c r))
      × (((res.0 ≡ ok w.offset)
            × (length (frame crc32c r) ≤ k)
            × (res.1.offset ≡ (w.offset + length (frame crc32c r)) % 2 ^ 64))
          ⊎ ((res.0 ≡ err io) × (res.1.offset ≡ w.offset)))

  frame_cuts :
      (r : WalRecord) (n : ℕ)
      → let L = to_le_bytes 4 (1 + length (payload r)) in
        let C = to_le_bytes 4 (crc32c (body r)) in
        (take (min n 4) (frame crc32c r) ≡ take n L)
        × (take (4 + min n (length (body r))) (frame crc32c r) ≡ L ++ take n (body r))
        × (take (4 + (length (body r) + min n 4)) (frame crc32c r) ≡ L ++ (body r ++ take n C))
        × (take (length (payload r) + 9) (frame crc32c r) ≡ L ++ (body r ++ C))
  unfolding frame
  frame_cuts r n =
      let L = to_le_bytes 4 (1 + length (payload r)) in
      let C = to_le_bytes 4 (crc32c (body r)) in
      let four = sym (length-to_le_bytes 4 (1 + length (payload r))) in
      let four' = sym (length-to_le_bytes 4 (crc32c (body r))) in
      let behind = λ (m : ℕ).
        ap (λ k. take (k + m) (L ++ (body r ++ C))) four ∙ take-add_append m L (body r ++ C) in
      (
        ap (λ k. take (min n k) (L ++ (body r ++ C))) four ∙ take-min_append n L (body r ++ C),
        behind (min n (length (body r)))
            ∙ ap (λ (l : List ℕ). L ++ l) (take-min_append n (body r) C),
        behind (length (body r) + min n 4)
            ∙ ap (λ (l : List ℕ). L ++ l)
                (take-add_append (min n 4) (body r) C
                  ∙ ap (λ (l : List ℕ). body r ++ l)
                      (ap (λ k. take (min n k) C) four' ∙ take-min n C)),
        take-length_le (length (payload r) + 9) (frame crc32c r)
            (omega (arith, length-frame crc32c r)),
      )

  -- Appending piece after piece is appending the pieces joined.
  joined :
      (r : WalRecord) (content : List ℕ) (n : ℕ)
      → let L = to_le_bytes 4 (1 + length (payload r)) in
        let C = to_le_bytes 4 (crc32c (body r)) in
        (content ++ L ++ take n (body r) ≡ content ++ (L ++ take n (body r)))
        × (content ++ L ++ body r ++ take n C ≡ content ++ (L ++ (body r ++ take n C)))
        × (content ++ L ++ body r ++ C ≡ content ++ (L ++ (body r ++ C)))
  joined r content n = (simp append_assoc, simp append_assoc, simp append_assoc)

  append_record_faults :
      (r : WalRecord) (w : WalWriter) (faults : List (Option ℕ))
      → IsWellTyped r
      → w.file.faults ≡ faults
      → Outcome r w (append_record crc32c (record_type r) (payload r) w)
  unfolding append_record
  append_record_faults r w [] wf e = (
    length (payload r) + 9,
    ground (arith, e, no_wrap r wf, frame_cuts r 0, joined r w.file.content 0),
    ground (arith, e, length-frame crc32c r),
  )
  append_record_faults r w (some n ∷ fs) wf e = (
    min n 4,
    ground (arith, e, no_wrap r wf, frame_cuts r n, joined r w.file.content n),
    ground (arith, e, length-frame crc32c r),
  )
  append_record_faults r w (none ∷ []) wf e = (
    length (payload r) + 9,
    ground (arith, e, no_wrap r wf, frame_cuts r 0, joined r w.file.content 0),
    ground (arith, e, length-frame crc32c r),
  )
  append_record_faults r w (none ∷ some n ∷ fs) wf e = (
    4 + min n (length (body r)),
    ground (arith, e, no_wrap r wf, frame_cuts r n, joined r w.file.content n),
    ground (arith, e, length-frame crc32c r),
  )
  append_record_faults r w (none ∷ none ∷ []) wf e = (
    length (payload r) + 9,
    ground (arith, e, no_wrap r wf, frame_cuts r 0, joined r w.file.content 0),
    ground (arith, e, length-frame crc32c r),
  )
  append_record_faults r w (none ∷ none ∷ none ∷ fs) wf e = (
    length (payload r) + 9,
    ground (arith, e, no_wrap r wf, frame_cuts r 0, joined r w.file.content 0),
    ground (arith, e, length-frame crc32c r),
  )
  append_record_faults r w (none ∷ none ∷ some n ∷ fs) wf e = (
    4 + (length (body r) + min n 4),
    ground (arith, e, no_wrap r wf, frame_cuts r n, joined r w.file.content n),
    ground (arith, e, length-frame crc32c r),
  )

  -- However its writes fail, an append leaves the old content and some first bytes of the frame in
  -- the file: all of them where it succeeds; where it fails the writer's offset has not moved.
  pub append_faults :
      (r : WalRecord) (w : WalWriter)
      → IsWellTyped r
      → (k : ℕ) × ((append r w).1.file.content ≡ w.file.content ++ take k (frame crc32c r))
        × ((((append r w).0 ≡ ok w.offset)
              × (length (frame crc32c r) ≤ k)
              × ((append r w).1.offset ≡ (w.offset + length (frame crc32c r)) % 2 ^ 64))
            ⊎ (((append r w).0 ≡ err io) × ((append r w).1.offset ≡ w.offset)))
  append_faults r w wf =
      rw (append-eq-append_record r) (append_record_faults r w w.file.faults wf refl)

-- The offset is a `u64` behind an append as it was before.
pub append_record-offset :
    (crc32c : List ℕ → ℕ) (record_type : ℕ) (payload : List ℕ) (w : WalWriter)
    → w.offset < 2 ^ 64
    → (append_record crc32c record_type payload w).1.offset < 2 ^ 64
unfolding append_record
append_record-offset crc32c record_type payload w h =
    let body = record_type ∷ payload in
    let crc = crc32c body in
    let last : Method WalWriter WalError ℕ = advance (4 + length body + 4) >> pure w.offset in
    let third : Method WalWriter WalError ℕ = on_file (write_all (to_le_bytes 4 crc)) >> last in
    let second : Method WalWriter WalError ℕ = on_file (write_all body) >> third in
    let Small : WalWriter → Type 0 = λ (u : WalWriter). u.offset < 2 ^ 64 in
    let size = (1 + length payload % 2 ^ 32) % 2 ^ 32 in
    and_then-keeps Small (on_file (write_all (to_le_bytes 4 size)) w) (λ _. second) h
      λ a1 w1 h1.
        and_then-keeps Small (on_file (write_all body) w1) (λ _. third) h1
          λ a2 w2 h2.
            and_then-keeps Small (on_file (write_all (to_le_bytes 4 crc)) w2) (λ _. last) h2
              λ a3 w3 h3. omega arith
