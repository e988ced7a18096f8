-- ===== src/Wal/Recovery.antt =====
-- crates/gemgraph-wal/src/recovery.rs: the page writes of committed transactions.
pub mod Committed
pub mod Crash
pub mod Durability
pub mod Total
pub mod Appended
use gemgraph.Base.{
  ℕ, zero, suc, List, [], ◌∷◌, ◌++◌, map, Option, none, some, length, Result, ok, err,
}
use gemgraph.Wal.Record.{WalRecord, page_write, commit, checkpoint, WalError}
use gemgraph.Wal.Reader.{WalIter, iter_from, next}

pub data RecoveryAction : Type 0 where
  replay_page : ℕ → List ℕ → RecoveryAction

-- The two vectors of `recover`.
pub record Progress : Type 0 where
  pub pending_pages : List (ℕ × List ℕ)
  pub committed_actions : List RecoveryAction

abbrev pub to_action : ℕ × List ℕ → RecoveryAction
to_action (page_id, bytes) = replay_page page_id bytes

abbrev pub nothing : Progress
nothing = record { pending_pages = []; committed_actions = [] }

-- The body of the loop over the records.
unfoldable pub absorb : Progress → WalRecord → Progress
absorb p (page_write page_id bytes) = record p {
  pending_pages = p.pending_pages ++ (page_id, bytes) ∷ [];
}
absorb p (commit txn_id) = record {
  pending_pages = [];
  committed_actions = p.committed_actions ++ map to_action p.pending_pages;
}
absorb p (checkpoint txn_id) = p

module _ (crc32c : List ℕ → ℕ) where
  -- `none` means that the fuel ran out.
  unfoldable pub recover_loop :
      ℕ → WalIter → Progress → Option (Result (List RecoveryAction) WalError)
  recover_loop zero it p = none
  recover_loop (suc fuel) it p =
      let (item, it') = next crc32c it in
      elim item [
        | none ↦ some (ok p.committed_actions)
        | some r ↦ elim r [ err e ↦ some (err e) | ok rec ↦ recover_loop fuel it' (absorb p rec) ]
      ]

  -- Each record takes nine bytes at least, so that one round for each byte is enough.
  unfoldable pub recover : List ℕ → ℕ → Option (Result (List RecoveryAction) WalError)
  unfolding iter_from
  recover file from_offset = recover_loop (suc (length file)) (iter_from file from_offset) nothing
