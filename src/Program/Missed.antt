-- ===== src/Program/Missed.antt =====
-- A signal before `Start` (internal/server/server.go) has assigned the server that `Shutdown` looks for.
use mathlib.Core.Path.{subst}
use alertsnitch.Base.{◌≡◌, ◌≢◌, sym}
use alertsnitch.Program.{
  shutdown_server, shut, finished, Watch, unassigned, Life, Step, assigns, listens, refuses,
  returns, breaks, finishes, accepts, lingers, answers, signals, shuts, drains, gives_up, closes,
  begun, Reach, here, next,
}
use alertsnitch.Program.Orderly.{HasDrained, HasReturned, IsOrderly-begun, IsOrderly-Reach}

-- `Shutdown` found no server: nothing shuts the one that comes.
record IsStuck (s : Life) : Type 0 where
  pub past : HasDrained s.watch
  pub open_ : s.http ≢ shut
  pub busy : HasReturned s.main → ⊥

past_not : {s : Life} {v : Watch} → IsStuck s → s.watch ≡ v → (HasDrained v → ⊥) → ⊥
past_not k e no_ = no_ (subst HasDrained e k.past)

IsStuck-Step : {s t : Life} → Step s t → IsStuck s → IsStuck t
IsStuck-Step (assigns e) k = record { past = k.past; open_ = λ x. cc (x); busy = λ g. elim g [ ] }
IsStuck-Step (listens e h) k = record { past = k.past; open_ = λ x. cc (x); busy = λ g. elim g [ ] }
IsStuck-Step (refuses e h) k = record { past = k.past; open_ = k.open_; busy = λ g. elim g [ ] }
IsStuck-Step (returns e h) k = absurd (k.open_ h)
IsStuck-Step (breaks e h) k = record { past = k.past; open_ = k.open_; busy = λ g. elim g [ ] }
IsStuck-Step (finishes e h) k = absurd (k.busy (subst HasReturned (sym e) _))
IsStuck-Step (accepts a h) k = record { past = k.past; open_ = k.open_; busy = k.busy }
IsStuck-Step (lingers a h open_) k = absurd (k.open_ h)
IsStuck-Step (answers a h) k = record { past = k.past; open_ = k.open_; busy = k.busy }
IsStuck-Step {s} (signals a e) k = absurd (past_not k e (λ g. elim g [ ]))
IsStuck-Step (shuts a e) k = absurd (past_not k e (λ g. elim g [ ]))
IsStuck-Step (drains a e z) k = absurd (past_not k e (λ g. elim g [ ]))
IsStuck-Step (gives_up a e) k = absurd (past_not k e (λ g. elim g [ ]))
IsStuck-Step (closes a e) k = record { past = _; open_ = k.open_; busy = k.busy }

IsStuck-Reach : {s t : Life} → Reach s t → IsStuck s → IsStuck t
IsStuck-Reach here k = k
IsStuck-Reach (next r w) k = IsStuck-Step w (IsStuck-Reach r k)

-- When the signal is handled before `Start` has assigned its server, `Shutdown` does nothing: whatever
-- follows, no server is ever shut and the program never ends of its own accord, while the backend is
-- closed behind that `Shutdown`.
pub missed-unfinished :
    {s t : Life}
    → Reach begun s
    → s.http ≡ unassigned
    → Reach (shutdown_server s.http s) t
    → (t.http ≢ shut) × (t.main ≢ finished)
missed-unfinished {s} {t} r e later =
    let o = IsOrderly-Reach r IsOrderly-begun in
    let k =
      IsStuck-Reach (subst (λ h. Reach (shutdown_server h s) t) e later)
        (record { past = _; open_ = λ x. cc (e, x); busy = λ g. cc (e, o.returned g) }) in
    (k.open_, λ x. k.busy (subst HasReturned (sym x) _))
