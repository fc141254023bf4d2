-- ===== src/Client/Started.antt =====
-- When a Loki client starts (`New` of internal/storage/loki/client.go).
use alertsnitch.Base.{
  ℕ, ◌<◌, ℤ, pos, negsuc, Bool, List, ap, ◌∙◌, lt→ltb, ltb→lt, ◌≡◌, ◌↔◌, refl, sym, inl, inr, true,
  Option, none, some, [], String, Result, ok, err, Error, context, ◌>>=◌, arith, Bool-cases,
  Result-cases,
}
use alertsnitch.Config.{Config, BatchConfig, validate}
use alertsnitch.Config.Valid.{IsValid, validate_iff}
use alertsnitch.Transport.{ping}
use alertsnitch.Transport.Sent.{Pinged, ping_iff}
use alertsnitch.Labels.{allowed_label_set}
use alertsnitch.Batch.Enqueue.{Pipeline}
use alertsnitch.Wal.{Store, WalRecord}
use alertsnitch.Wal.Ops.{open_wal, recover}
use alertsnitch.Client.{
  buffer_size, is_interval, makes_slice, start_accumulate, Client, NewIo, TlsSettings,
  build_tls_config, client_batch, client_wal, start_batch, accepted, new_client,
}

abbrev pub settled : NewIo → Config → Config
settled io given = (validate io.not_exist given).1

-- What the batches need: memory for the queue and for a batch, a positive interval, and, if the log is
-- on, a log that can be opened.
pub record RunsBatches (io : NewIo) (cfg : Config) : Type 0 where
  pub queue : io.can_make_chan (buffer_size cfg.batch.size) ≡ true
  pub interval : (n : ℕ) × (cfg.batch.flush_timeout ≡ pos n) × (0 < n)
  pub slice : (n : ℕ) × (cfg.batch.size ≡ pos n) × (io.can_make_slice n ≡ true)
  pub opened : cfg.wal.enabled ≡ true → (w : Store) × (open_wal io.codec io.open_io io.disk ≡ ok w)

-- What a start needs: a valid configuration, TLS settings, what the batches need if they are on, and an
-- answer from Loki.
pub record Starts (io : NewIo) (given : Config) : Type 0 where
  pub valid : IsValid io.not_exist given
  pub tls : TlsSettings
  pub built : build_tls_config io.tls (settled io given).tls ≡ ok tls
  pub batches : (settled io given).batch.enabled ≡ true → RunsBatches io (settled io given)
  pub pinged : Pinged (io.http tls) (settled io given).auth

accepted_iff :
    (r : Option Error × Config) (cfg : Config)
    → (accepted r ≡ ok cfg) ↔ ((r.0 ≡ none) × (r.1 ≡ cfg))
accepted_iff (none, c) cfg = (λ h. (refl, cc (h)), λ (_, h). cc (h))
accepted_iff (some e, c) cfg = (λ h. absurd (cc (h)), λ (h, _). absurd (cc (h)))

pos_inj : {m n : ℕ} → pos m ≡ pos n → m ≡ n
pos_inj h = cc (h)

positive_iff : (z : ℤ) → (is_interval z ≡ true) ↔ ((n : ℕ) × (z ≡ pos n) × (0 < n))
positive_iff (pos n) =
    (λ h. (n, refl, ltb→lt 0 n h), λ (m, e, h). lt→ltb 0 n (omega (arith, pos_inj e, h)))
positive_iff (negsuc n) = (λ h. absurd (cc (h)), λ (m, e, h). absurd (cc (e)))

makes_slice_iff :
    (can_make : ℕ → Bool) (z : ℤ)
    → (makes_slice can_make z ≡ true) ↔ ((n : ℕ) × (z ≡ pos n) × (can_make n ≡ true))
makes_slice_iff can_make (pos n) = (λ h. (n, refl, h), λ (m, e, h). ap can_make (pos_inj e) ∙ h)
makes_slice_iff can_make (negsuc n) = (λ h. absurd (cc (h)), λ (m, e, h). absurd (cc (e)))

start_accumulate_iff :
    (can_make : ℕ → Bool) (cfg : BatchConfig)
    → ((u : Unit {0}) × (start_accumulate can_make cfg ≡ ok u))
      ↔ ((is_interval cfg.flush_timeout ≡ true) × (makes_slice can_make cfg.size ≡ true))
unfolding start_accumulate
start_accumulate_iff can_make cfg = elim (Bool-cases (is_interval cfg.flush_timeout)) [
  | inr p ↦ (λ (u, h). absurd (ground (arith, p, h)), λ (h, _). absurd (cc (h, p)))
  | inl p ↦ elim (Bool-cases (makes_slice can_make cfg.size)) [
    | inr m ↦ (λ (u, h). absurd (ground (arith, p, m, h)), λ (_, h). absurd (cc (h, m)))
    | inl m ↦ (λ _. (p, m), λ _. (tt, rw (p) (rw (m) refl)))
  ]
]

client_wal_iff :
    (io : NewIo) (cfg : Config)
    → ((found : List WalRecord × Option Store) × (client_wal io cfg ≡ ok found))
      ↔ (cfg.wal.enabled ≡ true → (w : Store) × (open_wal io.codec io.open_io io.disk ≡ ok w))
unfolding client_wal
client_wal_iff io cfg = elim (Bool-cases cfg.wal.enabled) [
  | inr l ↦ (λ h. λ l'. absurd (cc (l, l')), λ h. (([], none), ground (arith, l)))
  | inl l ↦ elim (Result-cases (open_wal io.codec io.open_io io.disk)) [
    | inl (w, o) ↦
        (λ h. λ _. (w, o), λ h. (((recover w).0, some (recover w).1), rw (l, o, client_wal) refl))
    | inr (x, o) ↦ (
      λ (p, h). absurd (ground (arith, l, o, h)),
      λ h. (let (w, o') = h l in absurd (cc (o, o'))),
    )
  ]
]

bind_steps :
    {A B : Type 0} (r : Result A) (f : A → Result B) (b : B)
    → (r >>= f) ≡ ok b
    → (a : A) × (r ≡ ok a) × (f a ≡ ok b)
bind_steps (ok a) f b e = (a, refl, e)
bind_steps (err x) f b e = absurd (cc (e))

bind_ok : {A B : Type 0} {r : Result A} {a : A} (f : A → Result B) → r ≡ ok a → (r >>= f) ≡ f a
bind_ok f e = rw e refl

-- What `New` does with batches on, once the queue is made.
abbrev finish_batch : NewIo → Config → List WalRecord × Option Store → Result (Option Pipeline)
finish_batch io cfg found =
    start_accumulate io.can_make_slice cfg.batch >>= (λ _. ok (some (start_batch io found)))

client_batch-on :
    (io : NewIo) (cfg : Config)
    → cfg.batch.enabled ≡ true
    → io.can_make_chan (buffer_size cfg.batch.size) ≡ true
    → client_batch io cfg ≡ (client_wal io cfg >>= finish_batch io cfg)
unfolding client_batch
client_batch-on io cfg b q = ground (arith, b, q)

client_batch_iff :
    (io : NewIo) (cfg : Config)
    → ((p : Option Pipeline) × (client_batch io cfg ≡ ok p))
      ↔ (cfg.batch.enabled ≡ true → RunsBatches io cfg)
unfolding client_batch
client_batch_iff io cfg = elim (Bool-cases cfg.batch.enabled) [
  | inr b ↦ (λ h. λ b'. absurd (cc (b, b')), λ h. (none, ground (arith, b)))
  | inl b ↦ elim (Bool-cases (io.can_make_chan (buffer_size cfg.batch.size))) [
    | inr q ↦ (λ (p, h). absurd (ground (arith, b, q, h)), λ h. absurd (cc (q, (h b).queue)))
    | inl q ↦ (
      λ (p, h) _.
          let (found, f, h') =
            bind_steps (client_wal io cfg) (finish_batch io cfg) p
              (sym (client_batch-on io cfg b q) ∙ h) in
          let (u, a, _) = bind_steps (start_accumulate io.can_make_slice cfg.batch) _ p h' in
          let (ticks, fits) = (start_accumulate_iff io.can_make_slice cfg.batch).0 (u, a) in
          record {
            queue = q;
            interval = (positive_iff cfg.batch.flush_timeout).0 ticks;
            slice = (makes_slice_iff io.can_make_slice cfg.batch.size).0 fits;
            opened = (client_wal_iff io cfg).0 (found, f);
          },
      λ h.
          let r = h b in
          let (found, f) = (client_wal_iff io cfg).1 r.opened in
          let (u, a) = (start_accumulate_iff io.can_make_slice cfg.batch).1 (
            (positive_iff cfg.batch.flush_timeout).1 r.interval,
            (makes_slice_iff io.can_make_slice cfg.batch.size).1 r.slice,
          ) in
          (
            some (start_batch io found),
            client_batch-on io cfg b q
                ∙ (bind_ok (finish_batch io cfg) f
                    ∙ bind_ok (λ _. ok (some (start_batch io found))) a),
          ),
    )
  ]
]

context_ok : {A : Type 0} (what : String) (r : Result A) (a : A) → context what r ≡ ok a → r ≡ ok a
context_ok what (ok b) a e = e
context_ok what (err x) a e = absurd (cc (e))

-- A client starts, without an error and without a panic, exactly when its configuration is valid, its TLS
-- settings can be built, Loki answers a ping, and, if batches are on, their interval is positive, their
-- size not negative, the queue and a batch fit in memory, and the log can be opened if it is on; and it
-- has the configuration that validation leaves.
pub new_client_iff :
    (io : NewIo) (given : Config)
    → ((c : Client) × (new_client io given ≡ ok c) × (c.cfg ≡ settled io given)) ↔ Starts io given
unfolding new_client
new_client_iff io given = (
  λ (c, h, _).
      let (cfg, v, h1) = bind_steps (accepted (validate io.not_exist given)) _ c h in
      let (passed, same) = (accepted_iff (validate io.not_exist given) cfg).0 v in
      let (tls, t, h2) =
        bind_steps (context "failed to build TLS config" (build_tls_config io.tls cfg.tls)) _ c
          h1 in
      let (batch, b, h3) = bind_steps (client_batch io cfg) _ c h2 in
      let (_, p, _) = bind_steps (ping (io.http tls) cfg.auth) _ c h3 in
      record {
        valid = (validate_iff io.not_exist given).0 passed;
        tls = tls;
        built = rw (same) (context_ok _ _ tls t);
        batches = rw (same) ((client_batch_iff io cfg).0 (batch, b));
        pinged = rw (same) ((ping_iff (io.http tls) cfg.auth).0 p);
      },
  λ s.
      let v =
        (accepted_iff (validate io.not_exist given) (settled io given)).1
          ((validate_iff io.not_exist given).1 s.valid, refl) in
      let (batch, b) = (client_batch_iff io (settled io given)).1 s.batches in
      let p = (ping_iff (io.http s.tls) (settled io given).auth).1 s.pinged in
      (
        record {
          cfg = settled io given;
          tls = s.tls;
          allowed_labels = allowed_label_set (settled io given).allowed_labels;
          batch = batch;
        },
        rw (v, s.built, b, p) refl,
        refl,
      ),
)
