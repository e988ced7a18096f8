-- ===== src/Wal/Recovery/Durability.antt =====
-- What a crash can and cannot take from the committed transactions.
use mathlib.Core.List.{append_assoc, append-nil}
use gemgraph.Base.{
  ℕ, ◌+◌, ◌-◌, ◌≤◌, ◌<◌, ◌^◌, ◌≡◌, refl, ap, ◌∙◌, true, false, List, [], ◌∷◌, ◌++◌, some, length,
  take, length-append, All, ok, le→leb, arith,
}
use gemgraph.Wal.Record.{WalRecord, IsWellTyped, page_write, commit, checkpoint}
use gemgraph.Wal.Frame.{frame, frames}
use gemgraph.Wal.Recovery.{RecoveryAction, recover}
use gemgraph.Wal.Recovery.Committed.{committed_writes, all_writes, has_commit, no_commit}
use gemgraph.Wal.Recovery.Crash.{whole_records, recover_crash}

has_commit-append :
    (xs : List WalRecord) (txn_id : ℕ) (ys : List WalRecord)
    → has_commit (xs ++ commit txn_id ∷ ys) ≡ true
unfolding has_commit
has_commit-append [] txn_id ys = refl
has_commit-append (page_write page_id bytes ∷ xs) txn_id ys = has_commit-append xs txn_id ys
has_commit-append (commit _ ∷ xs) txn_id ys = refl
has_commit-append (checkpoint _ ∷ xs) txn_id ys = has_commit-append xs txn_id ys

committed_writes-commit :
    (xs : List WalRecord) (txn_id : ℕ) (ys : List WalRecord)
    → committed_writes (xs ++ commit txn_id ∷ ys) ≡ all_writes xs ++ committed_writes ys
unfolding committed_writes all_writes
committed_writes-commit [] txn_id ys = refl
committed_writes-commit (x ∷ xs) txn_id ys =
    rw (has_commit-append (x ∷ xs) txn_id ys, committed_writes-commit xs txn_id ys)
      (simp append_assoc)

sub_sub : (n a b : ℕ) → n - a - b ≡ n - (a + b)
sub_sub n a b = omega arith

module _ (crc32c : List ℕ → ℕ) where
  pub frames-append :
      (xs ys : List WalRecord) → frames crc32c (xs ++ ys) ≡ frames crc32c xs ++ frames crc32c ys
  unfolding frames
  frames-append [] ys = refl
  frames-append (x ∷ xs) ys = rw (frames-append xs ys) (simp append_assoc)

  pub whole_records-append :
      (xs ys : List WalRecord) (n : ℕ)
      → length (frames crc32c xs) ≤ n
      → whole_records crc32c n (xs ++ ys)
        ≡ xs ++ whole_records crc32c (n - length (frames crc32c xs)) ys
  unfolding frames whole_records
  whole_records-append [] ys n h = ap (λ k. whole_records crc32c k ys) (omega arith)
  whole_records-append (x ∷ xs) ys n h =
      let size = length (frame crc32c x) in
      let total = length-append (frame crc32c x) (frames crc32c xs) in
      ground (
        arith,
        whole_records-append xs ys (n - size) (omega (arith, total)),
        ap (λ k. whole_records crc32c k ys) (sub_sub n size (length (frames crc32c xs))),
        ap (λ k. whole_records crc32c (n - k) ys) total,
      )

  -- Where the commit record is whole, what recovery returns splits there.
  committed_behind :
      (xs : List WalRecord) (txn_id : ℕ) (ys : List WalRecord) (n : ℕ)
      → length (frames crc32c (xs ++ commit txn_id ∷ [])) ≤ n
      → (m : ℕ) × (committed_writes (whole_records crc32c n (xs ++ commit txn_id ∷ ys))
          ≡ all_writes xs ++ committed_writes (whole_records crc32c m ys))
  unfolding whole_records frames
  committed_behind xs txn_id ys n fits =
      let c = commit txn_id in
      let rest = n - length (frames crc32c xs) in
      let size = length (frame crc32c c) in
      let total : length (frames crc32c xs) + size ≤ n = omega (
        arith,
        fits,
        ap length (frames-append xs (c ∷ [])),
        length-append (frames crc32c xs) (frames crc32c (c ∷ [])),
        length-append (frame crc32c c) [],
      ) in
      let whole : whole_records crc32c rest (c ∷ ys) ≡ c ∷ whole_records crc32c (rest - size) ys =
        rw (le→leb size rest (omega arith)) in
      (
        rest - size,
        ap committed_writes (
              whole_records-append xs (c ∷ ys) n (omega arith)
              ∙ ap (λ (l : List WalRecord). xs ++ l) whole)
            ∙ committed_writes-commit xs txn_id (whole_records crc32c (rest - size) ys),
      )

  whole_records-no_commit :
      (ys : List WalRecord) (n : ℕ)
      → has_commit ys ≡ false
      → has_commit (whole_records crc32c n ys) ≡ false
  unfolding has_commit whole_records
  whole_records-no_commit [] n h = refl
  whole_records-no_commit (page_write page_id bytes ∷ ys) n h =
      ground
        (arith, whole_records-no_commit ys (n - length (frame crc32c (page_write page_id bytes))))
  whole_records-no_commit (commit txn_id ∷ ys) n h = ground arith
  whole_records-no_commit (checkpoint txn_id ∷ ys) n h =
      ground (arith, whole_records-no_commit ys (n - length (frame crc32c (checkpoint txn_id))))

module _ (crc32c : List ℕ → ℕ) (crc32c-lt : (bytes : List ℕ) → crc32c bytes < 2 ^ 32) where
  -- Once a commit record is whole in the file, recovery returns every page write before it, first
  -- and in order, wherever behind it the file is cut.
  pub commit_survives :
      (xs : List WalRecord) (txn_id : ℕ) (ys : List WalRecord) (n : ℕ)
      → All IsWellTyped (xs ++ commit txn_id ∷ ys)
      → length (frames crc32c (xs ++ commit txn_id ∷ ys)) < 2 ^ 64
      → length (frames crc32c (xs ++ commit txn_id ∷ [])) ≤ n
      → (later : List RecoveryAction) × (recover crc32c
            (take n (frames crc32c (xs ++ commit txn_id ∷ ys)))
            0
          ≡ some (ok (all_writes xs ++ later)))
  commit_survives xs txn_id ys n wf room fits =
      let (m, split) = committed_behind crc32c xs txn_id ys n fits in
      (
        committed_writes (whole_records crc32c m ys),
        recover_crash crc32c crc32c-lt (xs ++ commit txn_id ∷ ys) n wf room
            ∙ ap (λ a. some (ok a)) split,
      )

  -- Page writes that no commit follows are not replayed, wherever the file is cut behind the last
  -- commit.
  pub uncommitted_discarded :
      (xs : List WalRecord) (txn_id : ℕ) (ys : List WalRecord) (n : ℕ)
      → All IsWellTyped (xs ++ commit txn_id ∷ ys)
      → length (frames crc32c (xs ++ commit txn_id ∷ ys)) < 2 ^ 64
      → length (frames crc32c (xs ++ commit txn_id ∷ [])) ≤ n
      → has_commit ys ≡ false
      → recover crc32c (take n (frames crc32c (xs ++ commit txn_id ∷ ys))) 0
        ≡ some (ok (all_writes xs))
  uncommitted_discarded xs txn_id ys n wf room fits none_left =
      let (m, split) = committed_behind crc32c xs txn_id ys n fits in
      recover_crash crc32c crc32c-lt (xs ++ commit txn_id ∷ ys) n wf room
      ∙ ap (λ a. some (ok a))
          (split
            ∙ ap (λ (l : List RecoveryAction). all_writes xs ++ l)
                (no_commit (whole_records crc32c m ys)
                  (whole_records-no_commit crc32c ys m none_left))
            ∙ append-nil (all_writes xs))
