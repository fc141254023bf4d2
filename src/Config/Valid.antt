-- ===== src/Config/Valid.antt =====
-- `Validate` (internal/storage/loki/config.go) against a description of the valid configurations.
use text.Mathlib.Text.{◌==◌ as str_eq}
use text.Mathlib.TextEquality.{eq_iff}
use alertsnitch.Base.{
  message, ok, err, Error, suc, zero, ◌≤◌, ◌≡◌, ◌≢◌, ◌↔◌, ◌⊎◌, refl, inl, inr, Bool, true, false,
  not, ◌&&◌, Option, none, some, String, ℤ, pos, negsuc, arith, Option-cases, Bool-cases, ltb,
}
use alertsnitch.Config.{
  Config, Url, AuthConfig, TlsConfig, WalConfig, min_timeout, max_timeout, default_timeout,
  validate, settle_timeout, validate_parts, validate_auth, validate_tls, validate_wal,
}

-- A timeout that a client may run with.
abbrev pub InRange : ℤ → Type 0
InRange (negsuc n) = ⊥
InRange (pos n) = (min_timeout ≤ n) × (n ≤ max_timeout)

-- The user and the password of basic authentication are both set or both not.
abbrev pub IsPaired : AuthConfig → Type 0
IsPaired a = (a.basic_auth_user ≡ "") ↔ (a.basic_auth_password ≡ "")

-- The log needs batch mode and a directory.
abbrev pub HasPlace : Bool → WalConfig → Type 0
HasPlace batch w = w.enabled ≡ true → (batch ≡ true) × (w.dir ≢ "")

pub validate_auth_iff : (a : AuthConfig) → (validate_auth a ≡ none) ↔ IsPaired a
unfolding validate_auth
validate_auth_iff a = ground (arith, eq_iff a.basic_auth_user "", eq_iff a.basic_auth_password "")

pub validate_wal_iff : (b : Bool) (w : WalConfig) → (validate_wal b w ≡ none) ↔ HasPlace b w
unfolding validate_wal
validate_wal_iff b w = ground (arith, eq_iff w.dir "")

-- A client certificate has its key and the other way round, and the files that are named are there.
abbrev pub HasFiles : (String → Bool) → TlsConfig → Type 0
HasFiles not_exist t =
    ((t.client_cert_path ≡ "") ↔ (t.client_key_path ≡ ""))
    × (t.ca_cert_path ≢ "" → not_exist t.ca_cert_path ≡ false)
    × (t.client_cert_path ≢ "" → not_exist t.client_cert_path ≡ false)
    × (t.client_key_path ≢ "" → not_exist t.client_key_path ≡ false)

validate_tls_iff :
    (not_exist : String → Bool) (t : TlsConfig)
    → (validate_tls not_exist t ≡ none) ↔ HasFiles not_exist t
unfolding validate_tls
validate_tls_iff not_exist t =
    ground
      (arith, eq_iff t.client_cert_path "", eq_iff t.client_key_path "", eq_iff t.ca_cert_path "")

abbrev pub IsSupported : Option Url → Type 0
IsSupported none = ⊥
IsSupported (some u) = (u.scheme ≡ "http") ⊎ (u.scheme ≡ "https")

-- Zero stands for the default timeout.
abbrev pub IsUsable : ℤ → Type 0
IsUsable (negsuc n) = ⊥
IsUsable (pos n) = (n ≡ 0) ⊎ InRange (pos n)

-- The timeout that is settled on.
record Settles (t : ℤ) : Type 0 where
  timeout : ℤ
  settled : settle_timeout t ≡ ok timeout
  within : InRange timeout

settle_timeout-cases :
    (t : ℤ)
    → (IsUsable t × Settles t) ⊎ ((e : Error) × (settle_timeout t ≡ err e) × (IsUsable t → ⊥))
unfolding settle_timeout
settle_timeout-cases (negsuc n) = inr (_, refl, λ h. h)
settle_timeout-cases (pos zero) = inl (
  inl refl,
  record { timeout = pos default_timeout; settled = refl; within = (omega arith, omega arith) },
)
settle_timeout-cases (pos (suc n)) = elim (Bool-cases (ltb (suc n) min_timeout)) [
  | inl short ↦ inr (message "request timeout too short", rw short refl, ground arith)
  | inr b ↦ elim (Bool-cases (ltb max_timeout (suc n))) [
    | inl long ↦ inr (message "request timeout too long", rw (b, long) refl, ground arith)
    | inr b' ↦
        let within : InRange (pos (suc n)) = (ground arith, ground arith) in
        inl
          (inr within, record { timeout = pos (suc n); settled = rw (b, b') refl; within = within })
  ]
]

validate_parts_iff :
    (not_exist : String → Bool) (c : Config)
    → (validate_parts not_exist c ≡ none)
      ↔ (IsPaired c.auth × HasFiles not_exist c.tls × HasPlace c.batch.enabled c.wal)
unfolding validate_parts
validate_parts_iff not_exist c = ground (
  arith,
  validate_auth_iff c.auth,
  validate_tls_iff not_exist c.tls,
  validate_wal_iff c.batch.enabled c.wal,
)

-- What `Validate` accepts.
abbrev pub IsValid : (String → Bool) → Config → Type 0
IsValid not_exist c =
    IsSupported c.url
    × IsUsable c.request_timeout
    × IsPaired c.auth
    × HasFiles not_exist c.tls
    × HasPlace c.batch.enabled c.wal

http_cases :
    (s : String)
    → (((not (str_eq s "http") && not (str_eq s "https")) ≡ false) × ((s ≡ "http") ⊎ (s ≡ "https")))
      ⊎ (((not (str_eq s "http") && not (str_eq s "https")) ≡ true)
          × ((s ≡ "http") ⊎ (s ≡ "https") → ⊥))
http_cases s = ground (arith, eq_iff s "http", eq_iff s "https")

-- `Validate` accepts exactly the configurations with an http or https URL, no timeout or one from 1 to
-- 30 seconds, both or neither of the basic-auth values, both or neither of the client certificate
-- and its key, no named file that is missing, and, with the log on, batch mode and a directory.
pub validate_iff :
    (not_exist : String → Bool) (c : Config)
    → ((validate not_exist c).0 ≡ none) ↔ IsValid not_exist c
unfolding validate
validate_iff not_exist c = elim (Option-cases c.url) [
  | inl e ↦ rw (e, validate) (λ h. absurd (cc (h)), λ v. absurd v.0)
  | inr (u, e) ↦
      rw (e, validate)
        (elim (http_cases u.scheme) [
          | inl (t, web) ↦ rw t (elim (settle_timeout-cases c.request_timeout) [
            | inr (_, refused, unusable) ↦
                rw refused (λ h. absurd (cc (h)), λ v. absurd (unusable v.1))
            | inl (usable, k) ↦
                let parts = validate_parts_iff not_exist c in
                rw k.settled (
                  λ h.
                      let (paired, files, place) = parts.0 h in (web, usable, paired, files, place),
                  λ (_, _, paired, files, place). parts.1 (paired, files, place),
                )
          ])
          | inr (t, other) ↦ rw t (λ h. absurd (cc (h)), λ v. absurd (other v.0))
        ])
]

-- The timeout of an accepted configuration is from 1 to 30 seconds afterwards.
pub validate-InRange :
    (not_exist : String → Bool) (c : Config)
    → (validate not_exist c).0 ≡ none
    → InRange (validate not_exist c).1.request_timeout
unfolding validate
validate-InRange not_exist c h = elim (Option-cases c.url) [
  | inl e ↦ absurd (cc (rw (e, validate) at h))
  | inr (u, e) ↦ elim (http_cases u.scheme) [
    | inr (t, other) ↦ absurd (other (rw e at ((validate_iff not_exist c).0 h).0))
    | inl (t, web) ↦ elim (settle_timeout-cases c.request_timeout) [
      | inr (_, refused, unusable) ↦ absurd (unusable ((validate_iff not_exist c).0 h).1)
      | inl (usable, k) ↦ rw (e, validate) (rw t (rw k.settled k.within))
    ]
  ]
]
