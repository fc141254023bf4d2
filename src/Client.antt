-- ===== src/Client.antt =====
-- The Loki client when it starts (`New` of internal/storage/loki/client.go,
-- `buildTLSConfig` of config.go, `newBatchProcessor` of batch.go).
pub mod Started
pub mod Saves
use text.Mathlib.Text.{◌==◌ as str_eq}
use alertsnitch.Base.{
  ℕ, suc, ◌*◌, ◌%◌, ◌-◌, ◌||◌, leb, u64_mod, panicked, Bool, true, false, ◌&&◌, not, ltb, Option,
  none, some, List, [], ◌∷◌, String, Bytes, Labels, Time, Result, ok, err, Error, message, wrap,
  context, ◌>>=◌, ℤ, pos, negsuc, if◌then◌else◌,
}
use alertsnitch.Alert.{AlertGroup}
use alertsnitch.Config.{Config, TlsConfig, BatchConfig, validate}
use alertsnitch.Labels.{allowed_label_set}
use alertsnitch.Timestamps.{Stream}
use alertsnitch.Stream.{Converter}
use alertsnitch.Metrics.{Metrics}
use alertsnitch.Wal.{Codec, Disk, Store, WalRecord}
use alertsnitch.Wal.Ops.{OpenIo, open_wal, recover}
use alertsnitch.Batch.Flush.{Processor}
use alertsnitch.Batch.Enqueue.{Pipeline, replay}
use alertsnitch.Transport.{Http, ping}

-- What crypto/tls, crypto/x509 and os answer to `buildTLSConfig`.
pub record TlsIo : Type 0 where
  pub read_file : String → Result Bytes
  pub append_certs : Bytes → Bool
  pub load_key_pair : (cert key : String) → Result Bytes

-- The `tls.Config` that is built: the pool of roots and the client certificate, where configured.
pub record TlsSettings : Type 0 where
  pub skip_verify : Bool
  pub root_cas : Option Bytes
  pub certificate : Option Bytes

unfoldable pub root_cas : TlsIo → String → Result (Option Bytes)
root_cas io path = if str_eq path "" then ok none else elim (io.read_file path) [
  | err e ↦ err (wrap "failed to read CA certificate" e)
  | ok pem ↦
      if io.append_certs pem then ok (some pem) else err (message "failed to parse CA certificate")
]

unfoldable pub client_certificate : TlsIo → TlsConfig → Result (Option Bytes)
client_certificate io c =
    if not (str_eq c.client_cert_path "") && not (str_eq c.client_key_path "")
    then elim (io.load_key_pair c.client_cert_path c.client_key_path) [
      | err e ↦ err (wrap "failed to load client certificate" e)
      | ok cert ↦ ok (some cert)
    ]
    else ok none

-- `buildTLSConfig`
unfoldable pub build_tls_config : TlsIo → TlsConfig → Result TlsSettings
unfolding root_cas client_certificate
build_tls_config io c = do
  roots ← root_cas io c.ca_cert_path
  certificate ← client_certificate io c
  ok (record { skip_verify = c.insecure_skip_verify; root_cas = roots; certificate = certificate })

-- `cfg.Size * 10` as an int of 64 bits, in two's complement.
abbrev pub ten_times : ℤ → ℕ
ten_times (pos size) = size * 10 % u64_mod
ten_times (negsuc n) = (u64_mod - (suc n * 10 % u64_mod)) % u64_mod

-- The capacity of the queue (`newBatchProcessor`): a number from 2 ^ 63 on stands for a negative one.
unfoldable pub buffer_size : ℤ → ℕ
buffer_size size =
    if ltb (ten_times size) 1000 || leb 9223372036854775808 (ten_times size)
    then 1000
    else ten_times size

-- A client: the configuration that validation left, and the batch processor where there is one.
pub record Client : Type 0 where
  pub cfg : Config
  pub tls : TlsSettings
  pub allowed_labels : List (String × Bool)
  pub batch : Option Pipeline

-- What `New` meets: the files that are missing, TLS, the log's codec and system calls and directory,
-- whether a channel and a slice of so many alerts can be made, how often the queue is taken during the
-- replay, the HTTP client that its settings make, and the counters.
pub record NewIo : Type 0 where
  pub not_exist : String → Bool
  pub tls : TlsIo
  pub codec : Codec
  pub open_io : OpenIo
  pub disk : Disk
  pub can_make_chan : ℕ → Bool
  pub can_make_slice : ℕ → Bool
  pub taken : ℕ
  pub http : TlsSettings → Http
  pub metrics : Metrics

-- The log, where the configuration asks for one.
unfoldable pub client_wal : NewIo → Config → Result (List WalRecord × Option Store)
unfolding open_wal recover
client_wal io cfg =
    if cfg.wal.enabled
    then elim (open_wal io.codec io.open_io io.disk) [
      | err e ↦ err (wrap "failed to open Loki WAL" e)
      | ok w ↦ (let (records, w') = recover w in ok (records, some w'))
    ]
    else ok ([], none)

-- The batch processor, started and with the recovered records replayed.
unfoldable pub start_batch : NewIo → List WalRecord × Option Store → Pipeline
unfolding replay
start_batch io (records, wal) =
    replay io.taken records
      (record { queue = []; processor = record { metrics = io.metrics; wal = wal } })

-- make([]queuedAlert, 0, size)
abbrev pub makes_slice : (ℕ → Bool) → ℤ → Bool
makes_slice can_make (pos size) = can_make size
makes_slice can_make (negsuc n) = false

abbrev pub is_interval : ℤ → Bool
is_interval (pos n) = ltb 0 n
is_interval (negsuc n) = false

-- The goroutine of `accumulate` up to its loop: time.NewTicker panics on an interval that is not
-- positive, and make on a size that is negative or too large.
unfoldable pub start_accumulate : (ℕ → Bool) → BatchConfig → Result (Unit {0})
start_accumulate can_make cfg =
    if is_interval cfg.flush_timeout
    then (if makes_slice can_make cfg.size
        then ok tt
        else err (panicked "makeslice: cap out of range"))
    else err (panicked "non-positive interval for NewTicker")

-- A panic stands as an error here: nothing recovers one, in a goroutine as little as in `New`, so it
-- ends the program.
unfoldable pub client_batch : NewIo → Config → Result (Option Pipeline)
unfolding client_wal start_batch start_accumulate buffer_size
client_batch io cfg =
    if cfg.batch.enabled
    then (if io.can_make_chan (buffer_size cfg.batch.size)
        then (do
          found ← client_wal io cfg
          _ ← start_accumulate io.can_make_slice cfg.batch
          ok (some (start_batch io found)))
        else err (panicked "makechan: size out of range"))
    else ok none

abbrev pub accepted : Option Error × Config → Result Config
accepted (none, cfg) = ok cfg
accepted (some e, cfg) = err (wrap "invalid loki configuration" e)

-- `New`. What the drain that follows a failed ping does to the log is not part of the result.
unfoldable pub new_client : NewIo → Config → Result Client
unfolding validate build_tls_config allowed_label_set client_batch
new_client io given = do
  cfg ← accepted (validate io.not_exist given)
  tls ← context "failed to build TLS config" (build_tls_config io.tls cfg.tls)
  batch ← client_batch io cfg
  _ ← ping (io.http tls) cfg.auth
  ok (record {
    cfg = cfg;
    tls = tls;
    allowed_labels = allowed_label_set cfg.allowed_labels;
    batch = batch;
  })
