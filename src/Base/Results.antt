-- ===== src/Base/Results.antt =====
-- What a Python call gives back: a value, or one of the exceptions that the modelled code raises.
use Prim.Native.Nat.{ℕ}
use mathlib.Core.Path.{◌≡◌, refl, subst}
use mathlib.Core.Bool.{Bool, true, false}
use mathlib.Core.Option.{Option, none, some}

-- `http n` is FastAPI's HTTPException with that status code.
pub data Exception : Type 0 where
  value_error permission_error type_error key_error attribute_error not_implemented : Exception
  missing_auth_info extension_not_found operational_error unbound_local_error : Exception
  expired_signature invalid_audience invalid_signature jwt_error : Exception
  http : ℕ → Exception

pub data Result {ℓ} (A : Type ℓ) : Type ℓ where
  raise : Exception → Result A
  ok : A → Result A

-- The statements of a function in their order: an exception ends it.
module _ {ℓ} {B : Type ℓ} where
  infixl 5 ◌>>=◌ ◌>>◌
  abbrev pub ◌>>=◌ {κ} : {A : Type κ} (call : Result A) → (A → Result B) → Result B
  raise e >>= rest = raise e
  ok a >>= rest = rest a

  abbrev pub ◌>>◌ : Result (Unit {0}) → Result B → Result B
  call >> rest = call >>= λ done. rest

-- `if not test: raise e`
abbrev pub require : Bool → Exception → Result (Unit {0})
require true e = ok tt
require false e = raise e

-- `except ValueError: raise e`; every other exception passes through.
abbrev pub on_value_error {ℓ} : {A : Type ℓ} → Exception → Result A → Result A
on_value_error e (raise value_error) = raise e
on_value_error e r = r

abbrev pub or_raise {ℓ} : {A : Type ℓ} → Exception → Option A → Result A
or_raise e (some a) = ok a
or_raise e none = raise e

-- A function that returned has passed its first call.
module _ {ℓ κ} {A : Type κ} {B : Type ℓ} where
  pub >>=-eq-ok :
      (call : Result A) (rest : A → Result B) {b : B}
      → (call >>= rest) ≡ ok b
      → (a : A) × (call ≡ ok a) × (rest a ≡ ok b)
  >>=-eq-ok (raise e) rest h = cc
  >>=-eq-ok (ok a) rest h = (a, refl, h)

-- Whatever the call returns has the property.
pub record Returns {ℓ κ} {A : Type ℓ} (P : A → Type κ) (r : Result A) : Type (ℓ ⊔ κ) where
  pub at : (a : A) → r ≡ ok a → P a

module _ {ℓ κ} {A : Type ℓ} {P : A → Type κ} where
  pub Returns-ok : (a : A) → P a → Returns P (ok a)
  Returns-ok a h = record { at = λ b e. subst P (ok-injective a b e) h }
    where
      ok-injective : (a b : A) → ok a ≡ ok b → a ≡ b
      ok-injective a b e = cc

  pub Returns-raise : (e : Exception) → Returns P (raise e)
  Returns-raise e = record { at = λ b h. absurd (cc) }

  pub Returns-require :
      (b : Bool) (e : Exception) (r : Result A)
      → (b ≡ true → Returns P r)
      → Returns P (require b e >> r)
  Returns-require true e r h = h refl
  Returns-require false e r h = Returns-raise e

  pub Returns-bind {μ} :
      {B : Type μ} (m : Result B) (f : B → Result A)
      → ((b : B) → m ≡ ok b → Returns P (f b))
      → Returns P (m >>= f)
  Returns-bind (ok b) f h = h b refl
  Returns-bind (raise e) f h = Returns-raise e

  pub Returns-then :
      (m : Result (Unit {0})) (r : Result A) → (m ≡ ok tt → Returns P r) → Returns P (m >> r)
  Returns-then (ok u) r h = h refl
  Returns-then (raise e) r h = Returns-raise e

  pub Returns-or_raise :
      {B : Type 0} (e : Exception) (o : Option B) (f : B → Result A)
      → ((b : B) → o ≡ some b → Returns P (f b))
      → Returns P (or_raise e o >>= f)
  Returns-or_raise e (some b) f h = h b refl
  Returns-or_raise e none f h = Returns-raise e

  pub Returns-on_value_error :
      (e : Exception) (r : Result A) → Returns P r → Returns P (on_value_error e r)
  Returns-on_value_error e (ok a) h = h
  Returns-on_value_error e (raise value_error) h = Returns-raise e
  Returns-on_value_error e (raise _) h = h

-- What a call returns, and what the code behind it makes of it.
module _ {ℓ κ μ ν} {A : Type ℓ} {P : A → Type κ} {B : Type μ} {Q : B → Type ν} where
  pub Returns-call :
      (m : Result B) (f : B → Result A)
      → Returns Q m
      → ((b : B) → Q b → Returns P (f b))
      → Returns P (m >>= f)
  Returns-call (ok b) f q h = h b (q.at b refl)
  Returns-call (raise e) f q h = Returns-raise e

pub ok-injective {ℓ} : {A : Type ℓ} {a b : A} → ok a ≡ ok b → a ≡ b
ok-injective h = cc

pub or_raise-eq-ok {ℓ} :
    {A : Type ℓ} (e : Exception) (o : Option A) {a : A} → or_raise e o ≡ ok a → o ≡ some a
or_raise-eq-ok e none h = cc
or_raise-eq-ok e (some b) h = cc

pub require-eq-ok : (b : Bool) (e : Exception) → require b e ≡ ok tt → b ≡ true
require-eq-ok true e h = refl
require-eq-ok false e h = cc
