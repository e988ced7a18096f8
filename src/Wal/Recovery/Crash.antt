-- ===== src/Wal/Recovery/Crash.antt =====
-- Recovery from a log file that a crash has cut at any byte.
use native.Mathlib.Decide.{dec_le}
use gemgraph.Base.{
  ℕ, zero, suc, ◌+◌, ◌-◌, ◌≤◌, ◌<◌, ◌^◌, ◌≡◌, refl, ap, ◌∙◌, List, [], ◌∷◌, ◌++◌, some, length,
  take, drop, length-append, length-drop, take-append_ge, take-append_le, take-nil,
  drop-append_length, drop-add, All, ok, leb, if◌then◌else◌, arith,
}
use gemgraph.Wal.Record.{WalRecord, IsWellTyped}
use gemgraph.Wal.Frame.{frame, frames, length-frame}
use gemgraph.Wal.Reader.{WalIter, iter_from}
use gemgraph.Wal.Reader.Steps.{next-frame, next-torn, next-end}
use gemgraph.Wal.Recovery.{Progress, nothing, absorb, recover_loop, recover}
use gemgraph.Wal.Recovery.Committed.{committed_writes, absorb_all, committed_from_nothing}

module _ (crc32c : List ℕ → ℕ) where
  -- The records of which the first `n` bytes of the log hold the whole frame.
  unfoldable pub whole_records : ℕ → List WalRecord → List WalRecord
  whole_records n [] = []
  whole_records n (r ∷ rs) =
      let rest = whole_records (n - length (frame crc32c r)) rs in
      if leb (length (frame crc32c r)) n then r ∷ rest else []

  drop-frame :
      (it : WalIter) (r : WalRecord) (n : ℕ) (rest : List ℕ)
      → drop it.offset it.file ≡ take n (frame crc32c r ++ rest)
      → length (frame crc32c r) ≤ n
      → drop (it.offset + length (frame crc32c r)) it.file ≡ take (n - length (frame crc32c r)) rest
  drop-frame it r n rest at h =
      drop-add it.offset (length (frame crc32c r)) it.file
      ∙ ap (drop (length (frame crc32c r))) (at ∙ take-append_ge n (frame crc32c r) rest h)
      ∙ drop-append_length (frame crc32c r) (take (n - length (frame crc32c r)) rest)

module _ (crc32c : List ℕ → ℕ) (crc32c-lt : (bytes : List ℕ) → crc32c bytes < 2 ^ 32) where
  recover_loop-take :
      (rs : List WalRecord) (fuel : ℕ) (it : WalIter) (p : Progress) (n : ℕ)
      → All IsWellTyped rs
      → drop it.offset it.file ≡ take n (frames crc32c rs)
      → it.offset + length (frames crc32c rs) < 2 ^ 64
      → length (drop it.offset it.file) < fuel
      → recover_loop crc32c fuel it p
        ≡ some (ok (absorb_all p (whole_records crc32c n rs)).committed_actions)
  unfolding recover_loop frames whole_records
  recover_loop-take rs zero it p n wf at room enough = absurd (omega arith)
  recover_loop-take [] (suc fuel) it p n wf at room enough =
      ground (arith, next-end crc32c crc32c-lt it (at ∙ take-nil n))
  recover_loop-take (r ∷ rs) (suc fuel) it p n wf at room enough =
      let size = length (frame crc32c r) in
      let total = length-append (frame crc32c r) (frames crc32c rs) in
      elim (dec_le size n) [
        | yes h ↦
            let later = record it { offset = it.offset + size } in
            let behind = drop-frame crc32c it r n (frames crc32c rs) at h in
            let split = take-append_ge n (frame crc32c r) (frames crc32c rs) h in
            ground (
              arith,
              next-frame crc32c crc32c-lt it r (take (n - size) (frames crc32c rs)) wf.0
                  (at ∙ split) (omega (arith, total)),
              recover_loop-take rs fuel later (absorb p r) (n - size) wf.1 behind
                  (omega (arith, total))
                  (omega (
                    arith,
                    ap length (at ∙ split),
                    length-append (frame crc32c r) (take (n - size) (frames crc32c rs)),
                    length-drop it.offset it.file,
                    length-drop (it.offset + size) it.file,
                    length-frame crc32c r,
                  )),
            )
        | no h ↦ ground (
          arith,
          next-torn crc32c crc32c-lt it r n wf.0
              (at ∙ take-append_le n (frame crc32c r) (frames crc32c rs) (omega arith))
              (omega arith),
        )
      ]

  -- Cut a log of well-typed records at any byte: recovery returns the page writes that a commit
  -- follows among the records whose frames are whole.
  pub recover_crash :
      (rs : List WalRecord) (n : ℕ)
      → All IsWellTyped rs
      → length (frames crc32c rs) < 2 ^ 64
      → recover crc32c (take n (frames crc32c rs)) 0
        ≡ some (ok (committed_writes (whole_records crc32c n rs)))
  unfolding recover
  recover_crash rs n wf room =
      recover_loop-take rs (suc (length (take n (frames crc32c rs))))
        (iter_from (take n (frames crc32c rs)) 0) nothing n wf refl (omega arith) (omega arith)
      ∙ ap (λ a. some (ok a)) (committed_from_nothing (whole_records crc32c n rs))
