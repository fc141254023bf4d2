-- ===== src/Sql/Succeeds.antt =====
-- Code in a transaction that returns a value from every state.
use alertsnitch.Base.{ℕ, ◌≡◌, refl, ◌∙◌, ap, String, ok}
use alertsnitch.Sql.{Statement, Driver, Tx, ◌>>=◌, pure, failing, and_then, name_error}

-- The code returns a value from every state.
abbrev pub Succeeds : {S A : Type 0} → Tx S A → Type 0
Succeeds {S} {A} m = (s : S) → (a : A) × (t : S) × (m s ≡ (ok a, t))

module _ {S : Type 0} where
  pub Succeeds-bind :
      {A B : Type 0} (m : Tx S A) (f : A → Tx S B)
      → Succeeds m
      → ((a : A) → Succeeds (f a))
      → Succeeds (m >>= f)
  Succeeds-bind m f h k s =
      let (a, t, e) = h s in let (b, u, e') = k a t in (b, u, ap (λ r. and_then r f) e ∙ e')

  pub Succeeds-failing :
      {A : Type 0} (what : String) (m : Tx S A) → Succeeds m → Succeeds (failing what m)
  Succeeds-failing what m h s = let (a, t, e) = h s in (a, t, ap (name_error what) e)

  pub Succeeds-pure : {A : Type 0} (a : A) → Succeeds (pure {S = S} a)
  Succeeds-pure a s = (a, s, refl)

-- No statement fails, and each returns the ID of its row.
pub record NeverFails {S : Type 0} (d : Driver S) : Type 0 where
  pub executes : (st : Statement) (s : S) → (id : ℕ) × (t : S) × (d.exec st s ≡ (ok (ok id), t))
  pub queries : (st : Statement) → Succeeds (d.query st)
