-- ===== src/Wal/Recovery/Committed.antt =====
-- Which page writes recovery replays: those that a commit follows in the log.
use mathlib.Core.List.{append_assoc, append-nil, map-append}
use gemgraph.Base.{
  ◌≡◌, refl, Bool, true, false, List, [], ◌∷◌, ◌++◌, map, if◌then◌else◌, Bool-cases, inl, inr,
}
use gemgraph.Wal.Record.{WalRecord, page_write, commit, checkpoint}
use gemgraph.Wal.Recovery.{RecoveryAction, replay_page, Progress, nothing, to_action, absorb}

unfoldable pub has_commit : List WalRecord → Bool
has_commit [] = false
has_commit (commit txn_id ∷ rs) = true
has_commit (page_write page_id bytes ∷ rs) = has_commit rs
has_commit (checkpoint txn_id ∷ rs) = has_commit rs

abbrev pub writes_of : WalRecord → List RecoveryAction
writes_of (page_write page_id bytes) = replay_page page_id bytes ∷ []
writes_of (commit txn_id) = []
writes_of (checkpoint txn_id) = []

-- Every page write of a log, in order.
unfoldable pub all_writes : List WalRecord → List RecoveryAction
all_writes [] = []
all_writes (r ∷ rs) = writes_of r ++ all_writes rs

-- The page writes behind which a commit stands.
unfoldable pub committed_writes : List WalRecord → List RecoveryAction
unfolding has_commit
committed_writes [] = []
committed_writes (r ∷ rs) =
    let rest = committed_writes rs in if has_commit (r ∷ rs) then writes_of r ++ rest else []

abbrev pub absorb_all : Progress → List WalRecord → Progress
absorb_all p [] = p
absorb_all p (r ∷ rs) = absorb_all (absorb p r) rs

pub no_commit : (rs : List WalRecord) → has_commit rs ≡ false → committed_writes rs ≡ []
unfolding committed_writes
no_commit [] h = refl
no_commit (r ∷ rs) h = rw h

-- The loop's two vectors compute the specification.
pub absorb_all-committed :
    (rs : List WalRecord) (p : Progress)
    → (absorb_all p rs).committed_actions
      ≡ p.committed_actions
        ++ (if has_commit rs then map to_action p.pending_pages ++ committed_writes rs else [])
unfolding absorb committed_writes has_commit
absorb_all-committed [] p = rw append-nil
absorb_all-committed (page_write page_id bytes ∷ rs) p =
    rw (absorb_all-committed rs (absorb p (page_write page_id bytes)))
      (elim (Bool-cases (has_commit rs)) [
        | inl e ↦ rw e (simp (map-append, append_assoc))
        | inr e ↦ rw e
      ])
absorb_all-committed (commit txn_id ∷ rs) p =
    rw (absorb_all-committed rs (absorb p (commit txn_id))) (elim (Bool-cases (has_commit rs)) [
      | inl e ↦ rw e (simp append_assoc)
      | inr e ↦ rw (e, no_commit rs e) (simp (append_assoc, append-nil))
    ])
absorb_all-committed (checkpoint txn_id ∷ rs) p =
    rw (absorb_all-committed rs (absorb p (checkpoint txn_id)))
      (elim (Bool-cases (has_commit rs)) [ inl e ↦ rw e | inr e ↦ rw e ])

-- From empty vectors it is the specification itself.
pub committed_from_nothing :
    (rs : List WalRecord) → (absorb_all nothing rs).committed_actions ≡ committed_writes rs
committed_from_nothing rs =
    rw (absorb_all-committed rs nothing)
      (elim (Bool-cases (has_commit rs)) [ inl e ↦ rw e | inr e ↦ rw (e, no_commit rs e) ])
