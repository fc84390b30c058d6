-- ===== src/Runtime/Error.antt =====
-- Exceptions as values. `except Exception` catches both kinds.
use skyline_apiserver_extens.Common.{ℕ, String, ◌≡◌, refl, ◌⊎◌, inl, inr}

pub data Exn : Type 0 where
  -- `HTTPException(status_code, detail)`
  http : ℕ → String → Exn
  -- any other exception, by its name
  other : String → Exn

pub data Result {ℓ} (A : Type ℓ) : Type ℓ where
  ok : A → Result A
  err : Exn → Result A

infixl 5 ◌>>=◌
abbrev pub ◌>>=◌ {ℓ κ} : {A : Type ℓ} {B : Type κ} → Result A → (A → Result B) → Result B
ok a >>= f = f a
err e >>= f = err e

pub Result-cases {ℓ} :
    {A : Type ℓ} (r : Result A) → ((a : A) × (r ≡ ok a)) ⊎ ((e : Exn) × (r ≡ err e))
Result-cases (ok a) = inl (a, refl)
Result-cases (err e) = inr (e, refl)

pub ok-injective {ℓ} : {A : Type ℓ} {a b : A} → ok a ≡ ok b → a ≡ b
ok-injective e = cc
