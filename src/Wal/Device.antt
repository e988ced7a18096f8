-- ===== src/Wal/Device.antt =====
-- The log file as the crate sees it through `File`: bytes that grow at the end, and an environment
-- that says which writes fail. The list `faults` is consumed by one entry for each call: `none` is
-- a call that succeeds, `some n` one that reports an error after `n` of its bytes have reached the
-- file. When the list is used up every call succeeds.
use gemgraph.Base.{ℕ, List, [], ◌∷◌, ◌++◌, Option, none, some, take, Result, ok, err}
use gemgraph.Wal.Record.{WalError, io}

pub record Device : Type 0 where
  pub content : List ℕ
  pub faults : List (Option ℕ)

abbrev write_outcome : List (Option ℕ) → List ℕ → List ℕ → Result (Unit {0}) WalError × Device
write_outcome [] content bytes = (ok tt, record { content = content ++ bytes; faults = [] })
write_outcome (none ∷ faults) content bytes =
    (ok tt, record { content = content ++ bytes; faults = faults })
write_outcome (some n ∷ faults) content bytes =
    (err io, record { content = content ++ take n bytes; faults = faults })

-- `Write::write_all`; the cursor of an appending writer stands at the end of the file.
abbrev pub write_all : List ℕ → Device → Result (Unit {0}) WalError × Device
write_all bytes d = write_outcome d.faults d.content bytes

abbrev sync_outcome : List (Option ℕ) → List ℕ → Result (Unit {0}) WalError × Device
sync_outcome [] content = (ok tt, record { content = content; faults = [] })
sync_outcome (none ∷ faults) content = (ok tt, record { content = content; faults = faults })
sync_outcome (some n ∷ faults) content = (err io, record { content = content; faults = faults })

-- `File::sync_all`, which may report an error and never changes what is read.
abbrev pub sync_all : Device → Result (Unit {0}) WalError × Device
sync_all d = sync_outcome d.faults d.content
