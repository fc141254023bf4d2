-- ===== src/Base/Go.antt =====
-- Values of Go that every package of the program uses: errors, results, bytes, uint64, labels.
use Prim.Native.Nat.{ℕ, ◌+◌, ◌-◌, ◌%◌, ◌^◌, ◌<◌}
use Prim.Native.String.{String}
use mathlib.Core.Path.{◌≡◌, refl}
use mathlib.Core.Logic.{◌⊎◌, inl, inr}
use mathlib.Core.List.{List}
use native.Mathlib.Omega.{arith}

-- An error value: one of the program's own, one that a library returned (a `*mysql.MySQLError` has a
-- number), or a context around one error or two (`fmt.Errorf("context: %w", e)`).
pub data Error : Type 0 where
  message : String → Error
  external : String → Error
  too_large : ℕ → Error
  mysql_error : ℕ → Error
  wrap : String → Error → Error
  wrap_both : String → Error → Error → Error
  panicked : String → Error

-- A function that returns `(T, error)`.
pub data Result {ℓ} (A : Type ℓ) : Type ℓ where
  ok : A → Result A
  err : Error → Result A

infixl 5 ◌>>=◌
abbrev pub ◌>>=◌ {ℓ κ} : {A : Type ℓ} {B : Type κ} → Result A → (A → Result B) → Result B
ok a >>= f = f a
err e >>= f = err e

-- `if err != nil { return fmt.Errorf("context: %w", err) }`
abbrev pub context {ℓ} : {A : Type ℓ} → String → Result A → Result A
context c (ok a) = ok a
context c (err e) = err (wrap c e)

abbrev pub Bytes : Type 0
Bytes = List ℕ

-- Arithmetic of `uint64` wraps.
abbrev pub u64_mod : ℕ
u64_mod = 2 ^ 64

abbrev pub inc_u64 : ℕ → ℕ
inc_u64 n = (n + 1) % u64_mod

abbrev pub dec_u64 : ℕ → ℕ
dec_u64 n = (n + u64_mod - 1) % u64_mod

pub dec_u64-inc_u64 : (n : ℕ) → n < u64_mod → dec_u64 (inc_u64 n) ≡ n
dec_u64-inc_u64 n h = omega arith

-- An instant of `time.Time`: nanoseconds since the zero time, the start of year 1.
abbrev pub Time : Type 0
Time = ℕ

-- `map[string]string` in one of its iteration orders.
abbrev pub Labels : Type 0
Labels = List (String × String)

-- To split on a computed result and keep the equation.
pub Result-cases {ℓ} :
    {A : Type ℓ} (r : Result A) → ((a : A) × (r ≡ ok a)) ⊎ ((e : Error) × (r ≡ err e))
Result-cases (ok a) = inl (a, refl)
Result-cases (err e) = inr (e, refl)

-- `int`, where the program may see a negative one; `negsuc n` is -(n + 1).
pub data ℤ : Type 0 where
  pos : ℕ → ℤ
  negsuc : ℕ → ℤ
