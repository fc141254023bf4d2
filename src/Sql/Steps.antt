-- ===== src/Sql/Steps.antt =====
-- The steps of a transaction that succeeds as a whole.
use alertsnitch.Base.{◌≡◌, refl, String, Result, ok, err}
use alertsnitch.Sql.{Tx, and_then, failing, name_error}

-- A step of a `do` block that succeeds as a whole has succeeded.
pub record Steps {S A B : Type 0} (m : Tx S A) (f : A → Tx S B) (s : S) (b : B) (u : S)
    : Type 0 where
  pub value : A
  pub between : S
  pub first : m s ≡ (ok value, between)
  pub rest : f value between ≡ (ok b, u)

Steps_of_result :
    {S A B : Type 0} (r : Result A × S) (f : A → Tx S B) (b : B) (u : S)
    → and_then r f ≡ (ok b, u)
    → (a : A) × (t : S) × (r ≡ (ok a, t)) × (f a t ≡ (ok b, u))
Steps_of_result (ok a, t) f b u h = (a, t, refl, h)
Steps_of_result (err e, t) f b u h = absurd (cc (h))

pub bind_ok :
    {S A B : Type 0} (m : Tx S A) (f : A → Tx S B) (s : S) (b : B) (u : S)
    → and_then (m s) f ≡ (ok b, u)
    → Steps m f s b u
bind_ok m f s b u h =
    let (a, t, e, r) = Steps_of_result (m s) f b u h in
    record { value = a; between = t; first = e; rest = r }

name_error_ok :
    {S A : Type 0} (what : String) (r : Result A × S) (a : A) (t : S)
    → name_error what r ≡ (ok a, t)
    → r ≡ (ok a, t)
name_error_ok what (ok a', t') a t h = h
name_error_ok what (err e, t') a t h = absurd (cc (h))

pub failing_ok :
    {S A : Type 0} (what : String) (m : Tx S A) (s : S) (a : A) (t : S)
    → failing what m s ≡ (ok a, t)
    → m s ≡ (ok a, t)
failing_ok what m s a t h = name_error_ok what (m s) a t h

-- The same for a step under `failing`.
pub failing_step :
    {S A B : Type 0} (what : String) (m : Tx S A) (f : A → Tx S B) (s : S) (b : B) (u : S)
    → and_then (failing what m s) f ≡ (ok b, u)
    → Steps m f s b u
failing_step what m f s b u h =
    let a = bind_ok (failing what m) f s b u h in
    record {
      value = a.value;
      between = a.between;
      first = failing_ok what m s a.value a.between a.first;
      rest = a.rest;
    }
