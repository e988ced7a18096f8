-- ===== src/Wal/Recovery/Appended.antt =====
-- Recovery of logs that the writer has written.
use mathlib.Core.List.{append_assoc, append-nil}
use gemgraph.Base.{
  ℕ, ◌+◌, ◌-◌, ◌<◌, ◌^◌, ◌≡◌, refl, ap, sym, ◌∙◌, ◌⊎◌, inl, inr, List, [], ◌∷◌, ◌++◌, some, length,
  take, length-append, take-add_append, All, All-append_right, Result, ok, arith,
}
use gemgraph.Wal.Record.{WalRecord, WalError, IsWellTyped}
use gemgraph.Wal.Frame.{frame, frames}
use gemgraph.Wal.Writer.{WalWriter, create}
use gemgraph.Wal.Writer.Appends.{append, append_lem, append_faults}
use gemgraph.Wal.Recovery.{recover}
use gemgraph.Wal.Recovery.Committed.{committed_writes}
use gemgraph.Wal.Recovery.Crash.{whole_records, recover_crash}
use gemgraph.Wal.Recovery.Durability.{frames-append, whole_records-append}

module _ (crc32c : List ℕ → ℕ) where
  unfoldable pub append_all : List WalRecord → WalWriter → WalWriter
  append_all [] w = w
  append_all (r ∷ rs) w = append_all rs (append crc32c r w).1

  append_all-content :
      (rs : List WalRecord) (w : WalWriter)
      → All IsWellTyped rs
      → w.file.faults ≡ []
      → w.offset + length (frames crc32c rs) < 2 ^ 64
      → (append_all rs w).file.content ≡ w.file.content ++ frames crc32c rs
  unfolding append_all frames
  append_all-content [] w wf calm room = rw append-nil
  append_all-content (r ∷ rs) w wf calm room =
      let step =
        append_lem crc32c r w wf.0 calm
          (omega (arith, length-append (frame crc32c r) (frames crc32c rs))) in
      let field = λ (res : Result ℕ WalError × WalWriter). res.1.file in
      append_all-content rs (append crc32c r w).1 wf.1 (ap (λ res. (field res).faults) step) (
        omega (
          arith,
          ap (λ (res : Result ℕ WalError × WalWriter). res.1.offset) step,
          length-append (frame crc32c r) (frames crc32c rs),
        ))
      ∙ ap (λ res. (field res).content ++ frames crc32c rs) step
      ∙ append_assoc w.file.content (frame crc32c r) (frames crc32c rs)

  log_prefix :
      (rs : List WalRecord) (r : WalRecord) (content : List ℕ) (k : ℕ)
      → content ≡ frames crc32c rs
      → content ++ take k (frame crc32c r)
        ≡ take (length (frames crc32c rs) + k) (frames crc32c (rs ++ r ∷ []))
  unfolding frames
  log_prefix rs r content k log =
      ap (λ c. c ++ take k (frame crc32c r)) log
      ∙ sym (take-add_append k (frames crc32c rs) (frame crc32c r))
      ∙ ap (take (length (frames crc32c rs) + k)) (
          ap (λ (l : List ℕ). frames crc32c rs ++ l) (sym (append-nil (frame crc32c r)))
          ∙ sym (frames-append crc32c rs (r ∷ [])))

  whole_or_none :
      (r : WalRecord) (n : ℕ)
      → (whole_records crc32c n (r ∷ []) ≡ []) ⊎ (whole_records crc32c n (r ∷ []) ≡ r ∷ [])
  unfolding whole_records
  whole_or_none r n = ground arith

module _ (crc32c : List ℕ → ℕ) (crc32c-lt : (bytes : List ℕ) → crc32c bytes < 2 ^ 32) where
  -- Records appended to a new log without a fault, and the file then cut at any byte: recovery
  -- returns the page writes that a commit follows among the records that are whole.
  pub recover-append_all :
      (rs : List WalRecord) (n : ℕ)
      → All IsWellTyped rs
      → length (frames crc32c rs) < 2 ^ 64
      → recover crc32c (take n (append_all crc32c rs (create [])).file.content) 0
        ≡ some (ok (committed_writes (whole_records crc32c n rs)))
  unfolding create
  recover-append_all rs n wf room =
      ap (λ file. recover crc32c (take n file) 0)
        (append_all-content crc32c rs (create []) wf refl (omega arith))
      ∙ recover_crash crc32c crc32c-lt rs n wf room

  -- An append is atomic: whichever of its writes fails, and after however many bytes, recovery
  -- finds the log as it was, or the log with the record.
  pub append_atomic :
      (rs : List WalRecord) (r : WalRecord) (w : WalWriter)
      → All IsWellTyped (rs ++ r ∷ [])
      → length (frames crc32c (rs ++ r ∷ [])) < 2 ^ 64
      → w.file.content ≡ frames crc32c rs
      → (recover crc32c (append crc32c r w).1.file.content 0 ≡ some (ok (committed_writes rs)))
        ⊎ (recover crc32c (append crc32c r w).1.file.content 0
            ≡ some (ok (committed_writes (rs ++ r ∷ []))))
  append_atomic rs r w wf room log =
      let size = length (frames crc32c rs) in
      let (k, at, outcome) =
        append_faults crc32c r w (All-append_right IsWellTyped rs (r ∷ []) wf).0 in
      let file : (append crc32c r w).1.file.content
          ≡ take (size + k) (frames crc32c (rs ++ r ∷ [])) =
        at ∙ log_prefix crc32c rs r w.file.content k log in
      let recovered =
        ap (λ bytes. recover crc32c bytes 0) file
        ∙ recover_crash crc32c crc32c-lt (rs ++ r ∷ []) (size + k) wf room
        ∙ ap (λ l. some (ok (committed_writes l)))
            (whole_records-append crc32c rs (r ∷ []) (size + k) (omega arith)) in
      elim (whole_or_none crc32c r (size + k - size)) [
        | inl e ↦ inl (
            recovered
            ∙ ap (λ l. some (ok (committed_writes (rs ++ l)))) e
            ∙ ap (λ l. some (ok (committed_writes l))) (append-nil rs))
        | inr e ↦ inr (recovered ∙ ap (λ l. some (ok (committed_writes (rs ++ l)))) e)
      ]
