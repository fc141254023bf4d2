-- ===== src/Wal/Checkpoint.antt =====
-- The acknowledged sequence numbers and the checkpoint (`ack`, `readCheckpoint`, `writeCheckpoint`
-- of internal/storage/loki/wal.go).
use alertsnitch.Base.{
  ℕ, zero, suc, Option, none, some, Bool, true, false, ◌||◌, List, [], ◌∷◌, Bytes, Result, ok, err,
  Error, external, wrap, inc_u64, ltb, ◌==◌, if◌then◌else◌,
}
use alertsnitch.Wal.{Codec, Disk}

-- w.acked[s]
unfoldable pub is_acked : List ℕ → ℕ → Bool
is_acked [] s = false
is_acked (x ∷ xs) s = x == s || is_acked xs s

-- delete(w.acked, s)
unfoldable pub delete : ℕ → List ℕ → List ℕ
delete s [] = []
delete s (x ∷ xs) = let rest = delete s xs in if x == s then rest else x ∷ rest

-- w.acked[s] = true
unfoldable pub set_acked : ℕ → List ℕ → List ℕ
unfolding is_acked
set_acked s acked = if is_acked acked s then acked else s ∷ acked

-- `for _, s := range seqs { if s > w.checkpoint { w.acked[s] = true } }`
unfoldable pub mark : ℕ → List ℕ → List ℕ → List ℕ
unfolding set_acked
mark checkpoint [] acked = acked
mark checkpoint (s ∷ seqs) acked =
    mark checkpoint seqs (if ltb checkpoint s then set_acked s acked else acked)

-- `for w.acked[w.checkpoint+1] { w.checkpoint++; delete(w.acked, w.checkpoint) }`
-- The flag is `advanced`. Every round deletes a number: the length of `acked` is fuel enough.
unfoldable pub advance : ℕ → Bool → ℕ → List ℕ → ℕ × List ℕ × Bool
unfolding is_acked delete
advance zero advanced checkpoint acked = (checkpoint, acked, advanced)
advance (suc fuel) advanced checkpoint acked =
    let rest = advance fuel true (inc_u64 checkpoint) (delete (inc_u64 checkpoint) acked) in
    if is_acked acked (inc_u64 checkpoint) then rest else (checkpoint, acked, advanced)

-- The outcome of a checkpoint write: the temporary file is written, and renamed.
pub record CkptIo : Type 0 where
  pub wrote : Bool
  pub renamed : Bool

-- `writeCheckpoint`. The temporary file is overwritten by the next call, and nothing reads it.
unfoldable pub write_checkpoint : Codec → CkptIo → ℕ → Disk → Option Error × Disk
write_checkpoint c io seq d =
    if io.wrote
    then (if io.renamed
        then (none, record d { ckpt = some (c.format seq) })
        else (some (wrap "committing wal checkpoint" (external "rename")), d))
    else (some (wrap "writing wal checkpoint" (external "write")), d)

-- `readCheckpoint`; the flag says that the file can be read. A missing file is checkpoint 0.
unfoldable pub read_checkpoint : Codec → Bool → Option Bytes → Result ℕ
read_checkpoint c readable none =
    if readable then ok 0 else err (wrap "reading wal checkpoint" (external "read"))
read_checkpoint c readable (some bytes) =
    if readable
    then elim (c.scan bytes) [
      | none ↦ err (wrap "parsing wal checkpoint" (external "scan"))
      | some seq ↦ ok seq
    ]
    else err (wrap "reading wal checkpoint" (external "read"))
