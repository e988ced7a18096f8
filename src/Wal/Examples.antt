-- ===== src/Wal/Examples.antt =====
-- Runs of the log's parts at concrete inputs, with a checksum that stands in for crc32c.
use gemgraph.Base.{
  ℕ, ◌+◌, ◌%◌, ◌^◌, ◌<◌, ◌≤◌, ◌≡◌, refl, List, [], ◌∷◌, ◌++◌, none, some, length, take, All, Result,
  ok, err, arith, ◌⊎◌, ◌↔◌,
}
use gemgraph.Base.SumCrc.{sum_crc, sum_crc-lt}
use gemgraph.Bytes.Buffer.{zeros, length-zeros, zeros-IsByte}
use gemgraph.Wal.Record.{
  WalRecord, WalError, io, page_write, commit, record_type, payload, from_raw, IsPage, IsWellTyped,
}
use gemgraph.Wal.Record.RoundTrip.{from_raw-ok_iff, length-payload-le}
use gemgraph.Wal.Frame.{frame, frames, length-frame, length-frames-le}
use gemgraph.Wal.Writer.{WalWriter, create}
use gemgraph.Wal.Writer.Appends.{append, append_faults}
use gemgraph.Wal.Reader.{iter_from, next}
use gemgraph.Wal.Reader.Steps.{next-frame}
use gemgraph.Wal.Recovery.{RecoveryAction, recover}
use gemgraph.Wal.Recovery.Committed.{committed_writes, all_writes, has_commit}
use gemgraph.Wal.Recovery.Crash.{whole_records, recover_crash}
use gemgraph.Wal.Recovery.Durability.{commit_survives, uncommitted_discarded}
use gemgraph.Wal.Recovery.Total.{recover_total}
use gemgraph.Wal.Recovery.Appended.{append_all, recover-append_all, append_atomic}

abbrev blank : List ℕ
blank = zeros 4096

blank-IsPage : IsPage blank
blank-IsPage = record { size = length-zeros 4096; range = zeros-IsByte 4096 }

-- One committed transaction that writes page 7, and a write that no commit follows.
abbrev sample : List WalRecord
sample = page_write 7 blank ∷ commit 1 ∷ page_write 8 blank ∷ []

sample-IsWellTyped : All IsWellTyped sample
sample-IsWellTyped = ((omega arith, blank-IsPage), (omega arith, ((omega arith, blank-IsPage), tt)))

sample_room : length (frames sum_crc sample) < 2 ^ 64
sample_room = omega (arith, length-frames-le sum_crc sample sample-IsWellTyped)

recover_crash_example :
    recover sum_crc (take 5000 (frames sum_crc sample)) 0
    ≡ some (ok (committed_writes (whole_records sum_crc 5000 sample)))
recover_crash_example = recover_crash sum_crc sum_crc-lt sample 5000 sample-IsWellTyped sample_room

abbrev first_txn : ℕ
first_txn = length (frames sum_crc (page_write 7 blank ∷ commit 1 ∷ []))

commit_survives_example :
    (later : List RecoveryAction) × (recover sum_crc
        (take (first_txn + 100) (frames sum_crc sample))
        0
      ≡ some (ok (all_writes (page_write 7 blank ∷ []) ++ later)))
commit_survives_example =
    commit_survives sum_crc sum_crc-lt (page_write 7 blank ∷ []) 1 (page_write 8 blank ∷ [])
      (first_txn + 100) sample-IsWellTyped sample_room (omega arith)

uncommitted_discarded_example :
    recover sum_crc (take (first_txn + 5000) (frames sum_crc sample)) 0
    ≡ some (ok (all_writes (page_write 7 blank ∷ [])))
unfolding has_commit
uncommitted_discarded_example =
    uncommitted_discarded sum_crc sum_crc-lt (page_write 7 blank ∷ []) 1 (page_write 8 blank ∷ [])
      (first_txn + 5000) sample-IsWellTyped sample_room (omega arith) refl

recover_total_example :
    (r : Result (List RecoveryAction) WalError) × (recover sum_crc (1 ∷ 2 ∷ 3 ∷ 4 ∷ 5 ∷ []) 1
      ≡ some r)
recover_total_example = recover_total sum_crc (1 ∷ 2 ∷ 3 ∷ 4 ∷ 5 ∷ []) 1 (omega arith)

recover-append_all_example :
    recover sum_crc (take 4200 (append_all sum_crc sample (create [])).file.content) 0
    ≡ some (ok (committed_writes (whole_records sum_crc 4200 sample)))
recover-append_all_example =
    recover-append_all sum_crc sum_crc-lt sample 4200 sample-IsWellTyped sample_room

-- A writer behind the first two records, whose next append fails in its second write.
abbrev faulty : WalWriter
faulty = record {
  file = record {
    content = frames sum_crc (page_write 7 blank ∷ commit 1 ∷ []);
    faults = none ∷ some 17 ∷ [];
  };
  offset = first_txn;
}

append_atomic_example :
    (recover sum_crc (append sum_crc (page_write 8 blank) faulty).1.file.content 0
      ≡ some (ok (committed_writes (page_write 7 blank ∷ commit 1 ∷ []))))
    ⊎ (recover sum_crc (append sum_crc (page_write 8 blank) faulty).1.file.content 0
        ≡ some (ok (committed_writes sample)))
append_atomic_example =
    append_atomic sum_crc sum_crc-lt (page_write 7 blank ∷ commit 1 ∷ []) (page_write 8 blank)
      faulty sample-IsWellTyped sample_room refl

append_faults_example :
    (k : ℕ) × ((append sum_crc (commit 2) faulty).1.file.content
      ≡ faulty.file.content ++ take k (frame sum_crc (commit 2)))
    × ((((append sum_crc (commit 2) faulty).0 ≡ ok faulty.offset)
          × (length (frame sum_crc (commit 2)) ≤ k)
          × ((append sum_crc (commit 2) faulty).1.offset
              ≡ (faulty.offset + length (frame sum_crc (commit 2))) % 2 ^ 64))
        ⊎ (((append sum_crc (commit 2) faulty).0 ≡ err io)
            × ((append sum_crc (commit 2) faulty).1.offset ≡ faulty.offset)))
append_faults_example = append_faults sum_crc (commit 2) faulty (omega arith)

next-frame_example : next sum_crc (iter_from (frame sum_crc (commit 9) ++ 255 ∷ []) 0) ≡ (
  some (ok (commit 9)),
  record {
    file = frame sum_crc (commit 9) ++ 255 ∷ [];
    offset = 0 + length (frame sum_crc (commit 9));
  },
)
unfolding iter_from
next-frame_example =
    next-frame sum_crc sum_crc-lt (iter_from (frame sum_crc (commit 9) ++ 255 ∷ []) 0) (commit 9)
      (255 ∷ []) (omega arith) refl
      (omega (arith, length-frame sum_crc (commit 9), length-payload-le (commit 9) (omega arith)))

from_raw-ok_iff_example : (from_raw 2 (1 ∷ 2 ∷ 0 ∷ 0 ∷ 0 ∷ 0 ∷ 0 ∷ 0 ∷ []) ≡ ok (commit 513)) ↔ (
    IsWellTyped (commit 513)
    × (record_type (commit 513) ≡ 2)
    × (payload (commit 513) ≡ 1 ∷ 2 ∷ 0 ∷ 0 ∷ 0 ∷ 0 ∷ 0 ∷ 0 ∷ []))
from_raw-ok_iff_example =
    from_raw-ok_iff 2 (1 ∷ 2 ∷ 0 ∷ 0 ∷ 0 ∷ 0 ∷ 0 ∷ 0 ∷ []) (commit 513) (omega arith)
