-- ===== src/Wal/Recovery/Total.antt =====
-- Recovery ends on every file: the fuel that `recover` gives its loop is enough.
use gemgraph.Base.{
  ℕ, zero, suc, ◌-◌, ◌<◌, ◌^◌, ◌≡◌, refl, List, Option, some, none, length, Result, ok, err, arith,
}
use gemgraph.Wal.Record.{WalRecord, WalError}
use gemgraph.Wal.Reader.{WalIter, iter_from, next}
use gemgraph.Wal.Reader.Progress.{next-ok}
use gemgraph.Wal.Recovery.{RecoveryAction, Progress, nothing, absorb, recover_loop, recover}

module _ (crc32c : List ℕ → ℕ) where
  recover_loop_total :
      (fuel : ℕ) (it : WalIter) (p : Progress)
      → length it.file < 2 ^ 64
      → length it.file - it.offset < fuel
      → (r : Result (List RecoveryAction) WalError) × (recover_loop crc32c fuel it p ≡ some r)
  unfolding recover_loop
  recover_loop_total zero it p room enough = absurd (omega arith)
  recover_loop_total (suc fuel) it p room enough =
      let it' = (next crc32c it).1 in
      after (next crc32c it).0 refl (λ r. recover_loop_total fuel it' (absorb p r))
    where
      after :
          (item : Option (Result WalRecord WalError))
          → (next crc32c it).0 ≡ item
          → ((r : WalRecord)
              → length (next crc32c it).1.file < 2 ^ 64
              → length (next crc32c it).1.file - (next crc32c it).1.offset < fuel
              → (a : Result (List RecoveryAction) WalError) × (recover_loop crc32c fuel
                    (next crc32c it).1
                    (absorb p r)
                  ≡ some a))
          → (a : Result (List RecoveryAction) WalError) × (recover_loop crc32c (suc fuel) it p
              ≡ some a)
      after none e rest = (ok p.committed_actions, rw (e, recover_loop))
      after (some (err x)) e rest = (err x, rw (e, recover_loop))
      after (some (ok r)) e rest =
          let (same, forward, inside) = next-ok crc32c it r room e in
          rw (e, recover_loop) (rest r (rw same room) (rw same (omega arith)))

  -- Whatever the bytes of the file, torn, corrupt or not a log at all, recovery returns.
  pub recover_total :
      (file : List ℕ) (from_offset : ℕ)
      → length file < 2 ^ 64
      → (r : Result (List RecoveryAction) WalError) × (recover crc32c file from_offset ≡ some r)
  unfolding recover
  recover_total file from_offset room =
      recover_loop_total (suc (length file)) (iter_from file from_offset) nothing room (omega arith)
