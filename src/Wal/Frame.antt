-- ===== src/Wal/Frame.antt =====
-- The bytes of one framed record, and of a log of them.
use gemgraph.Base.{ℕ, ◌+◌, ◌*◌, ◌≤◌, All, ◌≡◌, List, [], ◌∷◌, ◌++◌, length, length-append, arith}
use gemgraph.Bytes.Le.{to_le_bytes, length-to_le_bytes}
use gemgraph.Wal.Record.{WalRecord, record_type, payload, IsWellTyped}
use gemgraph.Wal.Record.RoundTrip.{length-payload-le}

abbrev pub body : WalRecord → List ℕ
body r = record_type r ∷ payload r

module _ (crc32c : List ℕ → ℕ) where
  -- [length: u32][record_type: u8][payload][crc: u32]
  unfoldable pub frame : WalRecord → List ℕ
  frame r = to_le_bytes 4 (1 + length (payload r)) ++ (body r ++ to_le_bytes 4 (crc32c (body r)))

  unfoldable pub frames : List WalRecord → List ℕ
  frames [] = []
  frames (r ∷ rs) = frame r ++ frames rs

  pub length-frame : (r : WalRecord) → length (frame r) ≡ length (payload r) + 9
  unfolding frame
  length-frame r = omega (
    arith,
    length-append (to_le_bytes 4 (1 + length (payload r)))
        (body r ++ to_le_bytes 4 (crc32c (body r))),
    length-append (payload r) (to_le_bytes 4 (crc32c (body r))),
    length-to_le_bytes 4 (1 + length (payload r)),
    length-to_le_bytes 4 (crc32c (body r)),
  )

  -- A log of well-typed records takes at most 4109 bytes for each.
  pub length-frames-le :
      (rs : List WalRecord) → All IsWellTyped rs → length (frames rs) ≤ 4109 * length rs
  unfolding frames
  length-frames-le [] wf = omega arith
  length-frames-le (r ∷ rs) wf = omega (
    arith,
    length-append (frame r) (frames rs),
    length-frame r,
    length-payload-le r wf.0,
    length-frames-le rs wf.1,
  )
