-- ===== src/Examples/Data.antt =====
-- The inputs of the tests: a group with two alerts, a codec that writes a record's number, and a log
-- that has just been made.
use alertsnitch.Base.{
  ℕ, zero, suc, ◌≡◌, refl, none, some, Option, true, false, Bool, List, [], ◌∷◌, ◌++◌, String,
  Bytes, ok, arith, message, pos,
}
use alertsnitch.Alert.{Alert, AlertGroup}
use alertsnitch.Metrics.{Metrics}
use alertsnitch.Stream.{Converter}
use alertsnitch.Wal.{WalRecord, Store, Disk, Codec, CodecLaws}
use alertsnitch.Wal.Frame.{in_full, frame}
use alertsnitch.Wal.Frame.RoundTrip.{nil, cons, IsEntry, IsLog}
use alertsnitch.Wal.Checkpoint.{read_checkpoint}
use alertsnitch.Wal.Recovery.{IsSound}
use alertsnitch.Wal.Recovery.Replay.{opened, opened-IsSound}
use alertsnitch.Wal.Ops.{AppendIo, CompactIo, AckIo, last_seq}
use alertsnitch.Batch.{QueuedAlert, Attempt}
use alertsnitch.Batch.Flush.{FlushEnv, Processor}

abbrev alert : String → Alert
alert status = record {
  status = status;
  labels = ("pod", "p1") ∷ ("severity", "page") ∷ [];
  annotations = [];
  starts_at = 1;
  ends_at = 2;
  generator_url = "";
  fingerprint = "f";
}

abbrev pub two_alerts : List Alert
two_alerts = alert "firing" ∷ alert "resolved" ∷ []

abbrev pub group : AlertGroup
group = record {
  version = "4";
  group_key = "k";
  receiver = "web";
  status = "firing";
  alerts = two_alerts;
  group_labels = ("severity", "page") ∷ [];
  common_labels = ("alertname", "Down") ∷ ("severity", "warn") ∷ [];
  common_annotations = [];
  external_url = "";
}

abbrev blank : AlertGroup
blank = record {
  version = "";
  group_key = "";
  receiver = "";
  status = "";
  alerts = [];
  group_labels = [];
  common_labels = [];
  common_annotations = [];
  external_url = "";
}

abbrev pub numbered : ℕ → WalRecord
numbered n = record { seq = n; group = blank; extra_labels = []; received_at = 0 }

abbrev unmarshal : Bytes → Option WalRecord
unmarshal [] = none
unmarshal (n ∷ _) = some (numbered n)

abbrev scan : Bytes → Option ℕ
scan [] = none
scan (n ∷ _) = some n

-- Keeps the number of a record, in one byte that holds any number.
abbrev pub toy : Codec
toy = record {
  marshal = λ r. ok (r.seq ∷ []);
  unmarshal = unmarshal;
  stored = λ r. numbered r.seq;
  format = λ n. n ∷ [];
  scan = scan;
}

ok_inj : (b b' : Bytes) → ok b ≡ ok b' → b ≡ b'
ok_inj b b' h = cc (h)

pub toy-CodecLaws : CodecLaws toy
toy-CodecLaws = record {
  decodes = λ r b h. rw (← ok_inj (r.seq ∷ []) b h) refl;
  keeps_seq = λ r. refl;
  stable = λ r. refl;
  encodes_again = λ r b h. (r.seq ∷ [], refl, rw (← ok_inj (r.seq ∷ []) b h) (omega arith));
  not_empty = λ r b h. rw (← ok_inj (r.seq ∷ []) b h) (omega arith);
  scans = λ n h. refl;
}

abbrev pub no_files : Disk
no_files = record { log = none; ckpt = none }

-- The log of a first start.
abbrev pub start : Store
start = opened no_files [] 0

pub start-IsSound : IsSound toy start
unfolding read_checkpoint last_seq
start-IsSound = opened-IsSound no_files [] 0 nil refl (omega arith) (omega arith)

-- System calls that all succeed.
abbrev pub append_well : AppendIo
append_well = record { fails_after = none; synced = true }

abbrev pub compact_well : CompactIo
compact_well = record {
  read = in_full;
  created = true;
  wrote = true;
  synced = true;
  closed = true;
  renamed = true;
  reopened = true;
}

abbrev pub ack_well : AckIo
ack_well = record { ckpt = record { wrote = true; renamed = true }; compaction = compact_well }

-- Counters that have counted nothing.
abbrev pub zeros : Metrics
zeros = record {
  webhooks_received = 0;
  webhooks_invalid = 0;
  alerts_received = λ r s. 0;
  alerts_saved = λ r s. 0;
  saving_failures = λ r s. 0;
  database_up = true;
}

abbrev pub allowed : List (String × Bool)
allowed = ("severity", true) ∷ []

-- A conversion whose log lines are the statuses of the alerts.
abbrev pub converter : Converter
converter = record {
  allowed_labels = allowed;
  structured_metadata = true;
  marshal_line = λ f. ok f.alert.status;
}

-- The second attempt succeeds.
abbrev pub attempts : ℕ → Attempt
attempts zero = record {
  cancelled_before = false;
  push = some (message "busy");
  cancelled_after = false;
}
attempts (suc _) = record { cancelled_before = false; push = none; cancelled_after = false }

abbrev pub env : FlushEnv
env = record {
  converter = converter;
  now = λ qa. 7;
  key = λ labels. "k";
  max_retries = pos 3;
  attempts = attempts;
  codec = toy;
  ack_io = ack_well;
}

abbrev pub processor : Processor
processor = record { metrics = zeros; wal = some start }

abbrev pub queued : QueuedAlert
queued = record { group = group; extra_labels = []; received_at = 5; seq = 0 }

-- One record in a log, and its entry.
pub entry : (n : ℕ) → IsEntry toy (n ∷ []) (numbered n)
entry n = record {
  nonempty = omega arith;
  fits = omega arith;
  decoded = refl;
  settled = refl;
  again = n ∷ [];
  encoded = refl;
  again_fits = omega arith;
}

pub one_record : IsLog toy (frame (3 ∷ []) ++ []) (numbered 3 ∷ [])
one_record = cons (entry 3) nil

abbrev pub one_file : Disk
one_file = record { log = some (frame (3 ∷ []) ++ []); ckpt = none }
