-- ===== src/Mvcc.antt =====
-- crates/gemgraph-mvcc/src/lib.rs: the errors of transactions, and calls that may fail with them.
pub mod Catalog
pub mod Database
pub mod ReadTxn
pub mod WriteTxn
pub mod Serves
pub mod InTxn
pub mod Writes
pub mod Trees
pub mod Three
pub mod Commit
mod Examples
mod CommitExample
use gemgraph.Base.{ℕ, Result, ok, err, Method}
use gemgraph.Pager.Disk.{PagerError}
use gemgraph.Pager.Store.{Pager}
use gemgraph.Wal.Record.{WalError}
use gemgraph.Wal.Writer.{WalWriter}
use gemgraph.BTree.Leaf.Page.{BTreeError}

pub data MvccError : Type 0 where
  pager_error : PagerError → MvccError
  btree_error : BTreeError → MvccError
  wal_error : WalError → MvccError
  tree_not_found : ℕ → MvccError
  io_error already_exists not_found : MvccError

-- `panicked` is an `expect` that fails, and `out_of_fuel` stands for no result of the source.
pub data MvccFailure : Type 0 where
  error : MvccError → MvccFailure
  panicked : MvccFailure
  out_of_fuel : MvccFailure

-- `#[from]`
abbrev pub of_pager : {A : Type 0} → Result A PagerError → Result A MvccFailure
of_pager (ok a) = ok a
of_pager (err e) = err (error (pager_error e))

abbrev pub of_wal : {A : Type 0} → Result A WalError → Result A MvccFailure
of_wal (ok a) = ok a
of_wal (err e) = err (error (wal_error e))

abbrev pub PagerCall : Type 0 → Type 0
PagerCall A = Method Pager MvccFailure A
