-- ===== src/Program/Orderly.antt =====
-- What holds of the program's life (`run` of main.go) at every moment.
use mathlib.Core.Path.{subst}
use alertsnitch.Base.{ℕ, ◌+◌, ◌≡◌, ◌≢◌, ◌⊎◌, refl, sym, ◌∙◌, inl, inr, Bool, true, false, arith}
use alertsnitch.Program.{
  shutdown_server, Http, unassigned, created, listening, shut, Main, starting, assigned, serving,
  waiting, finished, failed, Watch, quiet, signalled, draining, drained, done, Life, Step, assigns,
  listens, refuses, returns, breaks, finishes, accepts, lingers, answers, signals, shuts, drains,
  gives_up, closes, begun, Reach, here, next,
}

-- `Shutdown` has closed the listeners, or found none; it has returned.
abbrev pub HasShut : Watch → Type 0
HasShut quiet = ⊥
HasShut signalled = ⊥
HasShut draining = Unit
HasShut drained = Unit
HasShut done = Unit

abbrev pub HasDrained : Watch → Type 0
HasDrained quiet = ⊥
HasDrained signalled = ⊥
HasDrained draining = ⊥
HasDrained drained = Unit
HasDrained done = Unit

-- `Start` has returned without an error.
abbrev pub HasReturned : Main → Type 0
HasReturned starting = ⊥
HasReturned assigned = ⊥
HasReturned serving = ⊥
HasReturned waiting = Unit
HasReturned finished = Unit
HasReturned failed = ⊥

pub record IsOrderly (s : Life) : Type 0 where
  pub unborn : s.main ≡ starting → s.http ≡ unassigned
  pub shut_down : HasShut s.watch → (s.missed ≡ true) ⊎ (s.http ≡ shut)
  pub at_rest : HasDrained s.watch → (s.missed ≡ true) ⊎ ((s.late ≡ true) ⊎ (s.requests ≡ 0))
  pub closed_last : s.backend_open ≡ false → s.watch ≡ done
  pub closed : s.watch ≡ done → s.backend_open ≡ false
  pub returned : HasReturned s.main → s.http ≡ shut
  pub ended : s.main ≡ finished → s.watch ≡ done

pub IsOrderly-begun : IsOrderly begun
IsOrderly-begun = record {
  unborn = λ e. refl;
  shut_down = λ h. elim h [ ];
  at_rest = λ h. elim h [ ];
  closed_last = λ e. absurd (cc (e));
  closed = λ e. absurd (cc (e));
  returned = λ h. elim h [ ];
  ended = λ e. absurd (cc (e));
}

HasDrained-HasShut : (v : Watch) → HasDrained v → HasShut v
HasDrained-HasShut quiet h = elim h [ ]
HasDrained-HasShut signalled h = elim h [ ]
HasDrained-HasShut draining h = elim h [ ]
HasDrained-HasShut drained h = _
HasDrained-HasShut done h = _

module _ (s : Life) (k : IsOrderly s) where
  missed_of : {h : Http} → s.http ≡ h → (h ≢ shut) → HasShut s.watch → s.missed ≡ true
  missed_of e other g = elim (k.shut_down g) [ inl m ↦ m | inr x ↦ absurd (other (sym e ∙ x)) ]

  -- The main goroutine takes a step.
  at_main :
      (m : Main) (h : Http)
      → m ≢ starting
      → (HasShut s.watch → (s.missed ≡ true) ⊎ (h ≡ shut))
      → (HasReturned m → h ≡ shut)
      → (m ≡ finished → s.watch ≡ done)
      → IsOrderly (record s { main = m; http = h })
  at_main m h later shut_down returned ended = record {
    unborn = λ x. absurd (later x);
    shut_down = shut_down;
    at_rest = k.at_rest;
    closed_last = k.closed_last;
    closed = k.closed;
    returned = returned;
    ended = ended;
  }

  -- A handler begins or ends.
  at_requests :
      (n : ℕ)
      → (HasDrained s.watch → (s.missed ≡ true) ⊎ ((s.late ≡ true) ⊎ (n ≡ 0)))
      → IsOrderly (record s { requests = n })
  at_requests n at_rest = record {
    unborn = k.unborn;
    shut_down = k.shut_down;
    at_rest = at_rest;
    closed_last = k.closed_last;
    closed = k.closed;
    returned = k.returned;
    ended = k.ended;
  }

  -- The other goroutine takes a step before `Close`.
  at_watch :
      {v : Watch}
      → s.watch ≡ v
      → v ≢ done
      → (v' : Watch) (h : Http) (missed late : Bool) → v' ≢ done
      → (s.main ≡ starting → h ≡ unassigned)
      → (HasShut v' → (missed ≡ true) ⊎ (h ≡ shut))
      → (HasDrained v' → (missed ≡ true) ⊎ ((late ≡ true) ⊎ (s.requests ≡ 0)))
      → (HasReturned s.main → h ≡ shut)
      → IsOrderly (record s { watch = v'; http = h; missed = missed; late = late })
  at_watch e before v' h missed late after unborn shut_down at_rest returned = record {
    unborn = unborn;
    shut_down = shut_down;
    at_rest = at_rest;
    closed_last = λ x. absurd (before (sym e ∙ k.closed_last x));
    closed = λ x. absurd (after x);
    returned = returned;
    ended = λ x. absurd (before (sym e ∙ k.ended x));
  }

  IsOrderly-closes : s.watch ≡ drained → IsOrderly (record s { watch = done; backend_open = false })
  IsOrderly-closes e = record {
    unborn = k.unborn;
    shut_down = λ g. k.shut_down (subst HasShut (sym e) _);
    at_rest = λ g. k.at_rest (subst HasDrained (sym e) _);
    closed_last = λ x. refl;
    closed = λ x. refl;
    returned = k.returned;
    ended = λ x. refl;
  }

IsOrderly-shuts :
    (s : Life)
    → IsOrderly s
    → s.watch ≡ signalled
    → s.http ≢ unassigned
    → IsOrderly (record s { watch = draining; http = shut })
IsOrderly-shuts s k e h =
    at_watch s k e (λ x. cc (x)) draining shut s.missed s.late (λ x. cc (x))
      (λ x. absurd (h (k.unborn x))) (λ g. inr refl) (λ g. elim g [ ]) (λ g. refl)

IsOrderly-shutdown_server :
    (s : Life)
    → IsOrderly s
    → s.watch ≡ signalled
    → (h : Http) → s.http ≡ h
    → IsOrderly (shutdown_server h s)
IsOrderly-shutdown_server s k e unassigned h =
    at_watch s k e (λ x. cc (x)) drained s.http true s.late (λ x. cc (x)) k.unborn (λ g. inl refl)
      (λ g. inl refl) k.returned
IsOrderly-shutdown_server s k e created h = IsOrderly-shuts s k e (λ x. cc (h, x))
IsOrderly-shutdown_server s k e listening h = IsOrderly-shuts s k e (λ x. cc (h, x))
IsOrderly-shutdown_server s k e shut h = IsOrderly-shuts s k e (λ x. cc (h, x))

IsOrderly-Step : {s t : Life} → Step s t → IsOrderly s → IsOrderly t
IsOrderly-Step {s} (assigns e) k =
    at_main s k assigned created (λ x. cc (x))
      (λ g. inl (missed_of s k (k.unborn e) (λ x. cc (x)) g)) (λ g. elim g [ ])
      (λ x. absurd (cc (x)))
IsOrderly-Step {s} (listens e h) k =
    at_main s k serving listening (λ x. cc (x)) (λ g. inl (missed_of s k h (λ x. cc (x)) g))
      (λ g. elim g [ ]) (λ x. absurd (cc (x)))
IsOrderly-Step {s} (refuses e h) k =
    at_main s k failed s.http (λ x. cc (x)) k.shut_down (λ g. elim g [ ]) (λ x. absurd (cc (x)))
IsOrderly-Step {s} (returns e h) k =
    at_main s k waiting s.http (λ x. cc (x)) k.shut_down (λ g. h) (λ x. absurd (cc (x)))
IsOrderly-Step {s} (breaks e h) k =
    at_main s k failed s.http (λ x. cc (x)) k.shut_down (λ g. elim g [ ]) (λ x. absurd (cc (x)))
IsOrderly-Step {s} (finishes e h) k =
    at_main s k finished s.http (λ x. cc (x)) k.shut_down
      (λ g. k.returned (subst HasReturned (sym e) _)) (λ x. h)
IsOrderly-Step {s} (accepts a h) k =
    at_requests s k (s.requests + 1)
      (λ g. inl (missed_of s k h (λ x. cc (x)) (HasDrained-HasShut s.watch g)))
IsOrderly-Step {s} (lingers a h open_) k =
    at_requests s k (s.requests + 1)
      (λ g. elim open_ [ inl d ↦ absurd (subst HasDrained d g) | inr l ↦ inr (inl l) ])
IsOrderly-Step {s} (answers {n = n} a h) k = at_requests s k n (λ g. elim (k.at_rest g) [
  | inl m ↦ inl m
  | inr (inl l) ↦ inr (inl l)
  | inr (inr z) ↦ absurd (omega (arith, h, z))
])
IsOrderly-Step {s} (signals a e) k =
    at_watch s k e (λ x. cc (x)) signalled s.http s.missed s.late (λ x. cc (x)) k.unborn
      (λ g. elim g [ ]) (λ g. elim g [ ]) k.returned
IsOrderly-Step {s} (shuts a e) k = IsOrderly-shutdown_server s k e s.http refl
IsOrderly-Step {s} (drains a e z) k =
    at_watch s k e (λ x. cc (x)) drained s.http s.missed s.late (λ x. cc (x)) k.unborn
      (λ g. k.shut_down (subst HasShut (sym e) _)) (λ g. inr (inr z)) k.returned
IsOrderly-Step {s} (gives_up a e) k =
    at_watch s k e (λ x. cc (x)) drained s.http s.missed true (λ x. cc (x)) k.unborn
      (λ g. k.shut_down (subst HasShut (sym e) _)) (λ g. inr (inl refl)) k.returned
IsOrderly-Step {s} (closes a e) k = IsOrderly-closes s k e

pub IsOrderly-Reach : {s t : Life} → Reach s t → IsOrderly s → IsOrderly t
IsOrderly-Reach here k = k
IsOrderly-Reach (next r w) k = IsOrderly-Step w (IsOrderly-Reach r k)

-- The order of the shutdown, at every moment of the program's life: when it has ended of its own accord,
-- the listeners are shut and the backend is closed; and when the backend is closed, the listeners are
-- shut and no handler is at work, unless `Shutdown` found no server yet, or, for the handlers, reached
-- its deadline.
pub record ShutsInOrder (s : Life) : Type 0 where
  pub finished_closed : s.main ≡ finished → (s.http ≡ shut) × (s.backend_open ≡ false)
  pub closed_shut : s.backend_open ≡ false → s.missed ≡ false → s.http ≡ shut
  pub closed_idle : s.backend_open ≡ false → s.missed ≡ false → s.late ≡ false → s.requests ≡ 0

pub Reach-ShutsInOrder : {s : Life} → Reach begun s → ShutsInOrder s
Reach-ShutsInOrder {s} r =
    let k = IsOrderly-Reach r IsOrderly-begun in
    record {
      finished_closed = λ e. (k.returned (subst HasReturned (sym e) _), k.closed (k.ended e));
      closed_shut = λ e m. elim (k.shut_down (subst HasShut (sym (k.closed_last e)) _)) [
        | inl m' ↦ absurd (cc (m, m'))
        | inr h ↦ h
      ];
      closed_idle = λ e m l. elim (k.at_rest (subst HasDrained (sym (k.closed_last e)) _)) [
        | inl m' ↦ absurd (cc (m, m'))
        | inr (inl l') ↦ absurd (cc (l, l'))
        | inr (inr z) ↦ z
      ];
    }
