-- ===== src/Server/Answers.antt =====
-- What `webhookPost` (internal/server/server.go) answers.
use text.Mathlib.Text.{◌==◌ as str_eq}
use text.Mathlib.TextEquality.{eq_iff}
use alertsnitch.Base.{
  ℕ, ◌+◌, ◌≡◌, ◌↔◌, ap, ◌⊎◌, refl, ◌∙◌, inl, inr, false, true, Option, none, some, [], Bytes,
  Result, ok, err, Error, arith, Bool-cases, Result-cases,
}
use alertsnitch.Alert.{AlertGroup}
use alertsnitch.Server.{
  World, Save, Request, receive, accept_group, webhook_post, parse_webhook, query_labels, status_ok,
  bad_request, server_error,
}

abbrev status_of : Option Error → ℕ
status_of none = status_ok
status_of (some e) = server_error

module _ {B : Type 0} (unmarshal : Bytes → Result AlertGroup) (save : Save B) (r : Request)
    (w : World B) where
  -- The world after the count of the webhook and of its alerts.
  abbrev noticed : World B
  noticed = record w {
    metrics = record w.metrics { webhooks_received = w.metrics.webhooks_received + 1 };
  }

  abbrev pub arrived : AlertGroup → World B
  arrived g = receive g noticed

  -- The request has a body that is JSON of a group in version 4, and the backend returns this.
  abbrev pub Saved : Option Error → Type 0
  Saved e =
      (body : Bytes) × (g : AlertGroup) × (r.body ≡ ok body)
      × (unmarshal body ≡ ok g)
      × (g.version ≡ "4")
      × ((save g (query_labels r.query []) (arrived g)).0 ≡ e)

  abbrev pub answer : ℕ
  answer = (webhook_post (parse_webhook unmarshal) save r w).0

  Saved-unique : (e e' : Option Error) → Saved e → Saved e' → e ≡ e'
  Saved-unique e e' (body, g, read, parsed, version, saved)
        (body', g', read', parsed', version', saved') =
      let bodies : body ≡ body' = cc (read, read') in
      let groups : g ≡ g' = cc (bodies, parsed, parsed') in
      cc (ap (λ x. (save x (query_labels r.query []) (arrived x)).0) groups, saved, saved')

  -- The three ways in which a call ends.
  abbrev Ends : Type 0
  Ends =
      (Saved none × (answer ≡ status_ok))
      ⊎ (((e : Error) × Saved (some e) × (answer ≡ server_error))
          ⊎ (((e : Option Error) → Saved e → ⊥) × (answer ≡ bad_request)))

  unparsed :
      (body body' : Bytes) (g : AlertGroup) (x : Error)
      → r.body ≡ ok body
      → r.body ≡ ok body'
      → unmarshal body ≡ err x
      → unmarshal body' ≡ ok g
      → ⊥
  unparsed body body' g x read read' bad parsed =
      let bodies : body ≡ body' = cc (read, read') in cc (bodies, bad, parsed)

  other_version :
      (body body' : Bytes) (g g' : AlertGroup)
      → r.body ≡ ok body
      → r.body ≡ ok body'
      → unmarshal body ≡ ok g
      → unmarshal body' ≡ ok g'
      → str_eq g.version "4" ≡ false
      → g'.version ≡ "4"
      → ⊥
  other_version body body' g g' read read' parsed parsed' old version =
      let bodies : body ≡ body' = cc (read, read') in
      let groups : g ≡ g' = cc (bodies, parsed, parsed') in
      let four : g.version ≡ "4" = ap (λ x. x.version) groups ∙ version in
      cc (old, (eq_iff g.version "4").1 four)

  by_result : (e : Option Error) → Saved e → answer ≡ status_of e → Ends
  by_result none found status = inl (found, status)
  by_result (some x) found status = inr (inl (x, found, status))

  by_body :
      (b : Result Bytes) (body : Bytes) (g : AlertGroup)
      → b ≡ ok body
      → unmarshal body ≡ ok g
      → (webhook_post (parse_webhook unmarshal) save (record r { body = b }) w).0
        ≡ (accept_group save r g noticed).0
  unfolding webhook_post parse_webhook accept_group
  by_body b body g read parsed = rw (read, webhook_post) (rw (parsed, parse_webhook) refl)

  by_parse :
      (b : Result Bytes) (body : Bytes) (x : Error)
      → b ≡ ok body
      → unmarshal body ≡ err x
      → (webhook_post (parse_webhook unmarshal) save (record r { body = b }) w).0 ≡ bad_request
  unfolding webhook_post parse_webhook
  by_parse b body x read bad = rw (read, webhook_post) (rw (bad, parse_webhook) refl)

  by_error :
      (b : Result Bytes) (x : Error)
      → b ≡ err x
      → (webhook_post (parse_webhook unmarshal) save (record r { body = b }) w).0 ≡ bad_request
  unfolding webhook_post
  by_error b x unread = rw (unread, webhook_post) refl

  accepted_old :
      (g : AlertGroup)
      → str_eq g.version "4" ≡ false
      → (accept_group save r g noticed).0 ≡ bad_request
  unfolding accept_group
  accepted_old g old = rw (old, accept_group) refl

  accepted_new :
      (g : AlertGroup) (e : Option Error)
      → str_eq g.version "4" ≡ true
      → (save g (query_labels r.query []) (arrived g)).0 ≡ e
      → (accept_group save r g noticed).0 ≡ status_of e
  unfolding accept_group
  accepted_new g none four fine = rw (four, accept_group) (rw fine refl)
  accepted_new g (some x) four failed = rw (four, accept_group) (rw failed refl)

  ends : Ends
  ends = elim (Result-cases r.body) [
    | inr (x, unread) ↦
        inr (inr (λ e (body, g, read, _, _, _). cc (unread, read), by_error r.body x unread))
    | inl (body, read) ↦ elim (Result-cases (unmarshal body)) [
      | inr (x, bad) ↦ inr (
          inr (
            λ e (body', g, read', parsed, _, _). unparsed body body' g x read read' bad parsed,
            by_parse r.body body x read bad,
          ))
      | inl (g, parsed) ↦ elim (Bool-cases (str_eq g.version "4")) [
        | inr old ↦ inr (
            inr (
              λ e (body', g', read', parsed', version, _).
                  other_version body body' g g' read read' parsed parsed' old version,
              by_body r.body body g read parsed ∙ accepted_old g old,
            ))
        | inl four ↦
            let found : Saved (save g (query_labels r.query []) (arrived g)).0 =
              (body, g, read, parsed, (eq_iff g.version "4").0 four, refl) in
            let status = by_body r.body body g read parsed ∙ accepted_new g _ four refl in
            by_result (save g (query_labels r.query []) (arrived g)).0 found status
      ]
    ]
  ]

  -- A webhook call is answered with 200 exactly when its body can be read, is JSON of a group in version
  -- 4, and the backend saves that group; with 500 exactly when all this holds but the backend returns an
  -- error; and with 400 otherwise.
  pub webhook_post_iff :
      ((answer ≡ status_ok) ↔ Saved none)
      × ((answer ≡ server_error) ↔ ((e : Error) × Saved (some e)))
      × ((answer ≡ bad_request) ↔ ((e : Option Error) → Saved e → ⊥))
  webhook_post_iff = elim ends [
    | inl (found, ok_) ↦ (
      (λ _. found, λ _. ok_),
      (
        λ h. absurd (omega (arith, h, ok_)),
        λ (e, other). absurd (cc (Saved-unique none (some e) found other)),
      ),
      (λ h. absurd (omega (arith, h, ok_)), λ no_. absurd (no_ none found)),
    )
    | inr (inl (e, found, failed)) ↦ (
      (
        λ h. absurd (omega (arith, h, failed)),
        λ other. absurd (cc (Saved-unique none (some e) other found)),
      ),
      (λ _. (e, found), λ _. failed),
      (λ h. absurd (omega (arith, h, failed)), λ no_. absurd (no_ (some e) found)),
    )
    | inr (inr (no_, refused)) ↦ (
      (λ h. absurd (omega (arith, h, refused)), λ found. absurd (no_ none found)),
      (λ h. absurd (omega (arith, h, refused)), λ (e, found). absurd (no_ (some e) found)),
      (λ _. no_, λ _. refused),
    )
  ]
