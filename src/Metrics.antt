-- ===== src/Metrics.antt =====
-- The counters of internal/metrics/metrics.go. The program adds whole numbers to them, so a counter
-- is a natural number here.
use mathlib.Core.Bool.{◌&&◌}
use text.Mathlib.Text.{◌==◌ as str_eq}
use alertsnitch.Base.{
  ℕ, ◌+◌, ◌≡◌, Bool, Option, none, some, String, Error, ◌==◌, if◌then◌else◌, arith,
}

-- A counter for each receiver and status.
abbrev pub CounterVec : Type 0
CounterVec = String → String → ℕ

-- WithLabelValues(receiver, status).Add(n)
unfoldable pub add : String → String → ℕ → CounterVec → CounterVec
add receiver status n v = λ r s. if str_eq receiver r && str_eq status s then v r s + n else v r s

pub record Metrics : Type 0 where
  pub webhooks_received : ℕ
  pub webhooks_invalid : ℕ
  pub alerts_received : CounterVec
  pub alerts_saved : CounterVec
  pub saving_failures : CounterVec
  pub database_up : Bool

-- `RecordSaveOutcome`
unfoldable pub record_save_outcome : String → String → ℕ → Option Error → Metrics → Metrics
unfolding add
record_save_outcome receiver status count none m =
    if count == 0 then m else record m { alerts_saved = add receiver status count m.alerts_saved }
record_save_outcome receiver status count (some e) m =
    if count == 0
    then m
    else record m { saving_failures = add receiver status count m.saving_failures }

-- The alerts of a receiver and status whose outcome is counted, saved or failed.
unfoldable pub accounted : Metrics → String → String → ℕ
accounted m r s = m.alerts_saved r s + m.saving_failures r s

-- Every outcome counts its alerts once, whichever it is and also where there are none.
pub accounted-record_save_outcome :
    (receiver status r s : String) (n : ℕ) (e : Option Error) (m : Metrics)
    → accounted (record_save_outcome receiver status n e m) r s
      ≡ (if str_eq receiver r && str_eq status s then accounted m r s + n else accounted m r s)
unfolding accounted record_save_outcome
accounted-record_save_outcome receiver status r s n none m = ground arith
accounted-record_save_outcome receiver status r s n (some e) m = ground arith
