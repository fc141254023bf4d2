-- ===== src/Transport/Sent.antt =====
-- What the requests to Loki carry, and what counts as an answer (internal/storage/loki/transport.go).
use text.Mathlib.Text.{◌==◌ as str_eq}
use alertsnitch.Base.{
  ◌∙◌, ap, ◌≡◌, ◌↔◌, ◌<◌, ◌≤◌, refl, inl, inr, Bool, true, ◌&&◌, not, some, List, String, Bytes,
  Result, ok, err, context, ◌>>=◌, if◌then◌else◌, arith, Bool-cases, Result-cases,
}
use alertsnitch.Base.Maps.{lookup, insert, lookup-insert}
use alertsnitch.Timestamps.{Stream}
use alertsnitch.Config.{AuthConfig}
use alertsnitch.Server.{World, status_ok, ready_probe, healthy_probe}
use alertsnitch.Server.Probes.{probes_iff}
use alertsnitch.Transport.{
  Http, Headers, Response, set_auth_and_tenant_headers, push_request, check_response, push_payload,
  max_error_body_size, ping_request, ping, reachability,
}

-- Look at a header that is set under a condition.
lookup-insert_if :
    (b : Bool) (key asked value : String) (headers : Headers)
    → lookup asked (if b then insert key value headers else headers)
      ≡ (if str_eq key asked && b then some value else lookup asked headers)
lookup-insert_if b key asked value headers = elim (Bool-cases b) [
  | inl e ↦ ground (arith, e, lookup-insert key asked value headers)
  | inr e ↦ ground (arith, e)
]

module _ (h : Http) (auth : AuthConfig) where
  -- A request carries the content type, the tenant exactly when one is configured, and the
  -- credentials exactly when both of them are; it keeps what else it had.
  pub lookup-set_auth_and_tenant_headers :
      (headers : Headers) (name : String)
      → lookup name (set_auth_and_tenant_headers h auth headers) ≡ (
          if str_eq "Content-Type" name
          then some "application/json"
          else if str_eq "Authorization" name
              && (not (str_eq auth.basic_auth_user "") && not (str_eq auth.basic_auth_password ""))
          then some (h.basic_auth auth.basic_auth_user auth.basic_auth_password)
          else if str_eq "X-Scope-OrgID" name && not (str_eq auth.tenant_id "")
          then some auth.tenant_id
          else lookup name headers)
  unfolding set_auth_and_tenant_headers
  lookup-set_auth_and_tenant_headers headers name =
      let tenant = not (str_eq auth.tenant_id "") in
      let basic =
        not (str_eq auth.basic_auth_user "") && not (str_eq auth.basic_auth_password "") in
      let credentials = h.basic_auth auth.basic_auth_user auth.basic_auth_password in
      let with_tenant = if tenant then insert "X-Scope-OrgID" auth.tenant_id headers else headers in
      lookup-insert "Content-Type" name "application/json"
        (if basic then insert "Authorization" credentials with_tenant else with_tenant)
      ∙ ap (λ o. if str_eq "Content-Type" name then some "application/json" else o)
          (lookup-insert_if basic "Authorization" name credentials with_tenant
            ∙ ap (λ o. if str_eq "Authorization" name && basic then some credentials else o)
                (lookup-insert_if tenant "X-Scope-OrgID" name auth.tenant_id headers))

  -- The steps by which a push is accepted.
  pub record Pushed (streams : List Stream) : Type 0 where
    pub payload : Bytes
    pub compressed : Bytes
    pub response : Response
    pub marshalled : h.marshal streams ≡ ok payload
    pub written : h.write payload ≡ ok tt
    pub closed : h.close payload ≡ ok compressed
    pub created : h.create "POST" (push_request h auth compressed).uri ≡ ok tt
    pub answered : h.send (push_request h auth compressed) ≡ ok response
    pub at_least : 200 ≤ response.status
    pub below : response.status < 300

  bind_cases :
      {A B : Type 0} (what : String) (r : Result A) (f : A → Result B) (b : B)
      → (context what r >>= f) ≡ ok b
      → (a : A) × (r ≡ ok a) × (f a ≡ ok b)
  bind_cases what (ok a) f b e = (a, refl, e)
  bind_cases what (err x) f b e = absurd (cc (e))

  check_response_ok :
      (res : Response)
      → (check_response h auth res ≡ ok tt) ↔ ((200 ≤ res.status) × (res.status < 300))
  unfolding check_response
  check_response_ok res = elim (Result-cases (res.read_all max_error_body_size)) [
    | inl (b, e) ↦ (ground (arith, e), ground (arith, e))
    | inr (x, e) ↦ (ground (arith, e), ground (arith, e))
  ]

  -- A push is accepted exactly when its payload could be written and compressed and Loki has answered
  -- the request that carries it with a status from 200 to 299.
  pub push_payload_iff :
      (streams : List Stream) → (push_payload h auth streams ≡ ok tt) ↔ Pushed streams
  unfolding push_payload
  push_payload_iff streams = (
    λ e.
        let (payload, marshalled, e1) = bind_cases _ (h.marshal streams) _ tt e in
        let (_, written, e2) = bind_cases _ (h.write payload) _ tt e1 in
        let (compressed, closed, e3) = bind_cases _ (h.close payload) _ tt e2 in
        let (_, created, e4) =
          bind_cases _ (h.create "POST" (push_request h auth compressed).uri) _ tt e3 in
        let (response, answered, e5) =
          bind_cases _ (h.send (push_request h auth compressed)) _ tt e4 in
        let (at_least, below) = (check_response_ok response).0 e5 in
        record {
          payload = payload;
          compressed = compressed;
          response = response;
          marshalled = marshalled;
          written = written;
          closed = closed;
          created = created;
          answered = answered;
          at_least = at_least;
          below = below;
        },
    λ p.
        rw (p.marshalled, p.written, p.closed, p.created, p.answered)
          ((check_response_ok p.response).1 (p.at_least, p.below)),
  )

  -- The steps by which a ping is answered.
  pub record Pinged : Type 0 where
    pub response : Response
    pub created : h.create "GET" (ping_request h auth).uri ≡ ok tt
    pub answered : h.send (ping_request h auth) ≡ ok response
    pub at_least : 200 ≤ response.status
    pub below : response.status < 300

  pub ping_iff : (ping h auth ≡ ok tt) ↔ Pinged
  unfolding ping
  ping_iff = (
    λ e.
        let (_, created, e1) = bind_cases _ (h.create "GET" (ping_request h auth).uri) _ tt e in
        let (response, answered, e2) = bind_cases _ (h.send (ping_request h auth)) _ tt e1 in
        record {
          response = response;
          created = created;
          answered = answered;
          at_least = ground arith;
          below = ground arith;
        },
    λ p. rw (p.created, p.answered) (ground (arith, p.at_least, p.below)),
  )

  reachability-ready : ((reachability h auth).ready ≡ true) ↔ (ping h auth ≡ ok tt)
  unfolding reachability
  reachability-ready = elim (Result-cases (ping h auth)) [
    | inl (u, e) ↦ (λ _. e, ground (arith, e))
    | inr (x, e) ↦ (ground (arith, e), ground (arith, e))
  ]

  reachability-healthy : (reachability h auth).healthy ≡ true
  unfolding reachability
  reachability-healthy = ground arith

  -- Both probes of a server with a Loki backend answer 200 exactly when Loki has answered a ping with a
  -- status from 200 to 299.
  pub loki_probes_iff :
      {B : Type 0} (w : World B)
      → (((ready_probe (some (reachability h auth)) w).0 ≡ status_ok) ↔ Pinged)
        × (((healthy_probe (some (reachability h auth)) w).0 ≡ status_ok) ↔ Pinged)
  loki_probes_iff w =
      let (ready, live, _, _) = probes_iff (some (reachability h auth)) w in
      let (there, back) = reachability-ready in
      (
        (
          λ e. ping_iff.0 (there (ready.0 e).0),
          λ p. ready.1 (back (ping_iff.1 p), reachability-healthy),
        ),
        (λ e. ping_iff.0 (there (live.0 e)), λ p. live.1 (back (ping_iff.1 p))),
      )
