-- ===== src/World/Keeps.antt =====
-- Steps that leave the database alone.
use skyline_apiserver_extens.Common.{
  ◌≡◌, refl, Bool, true, false, if◌then◌else◌, ◌∙◌, List, [], ◌∷◌, Option, none, some,
}
use skyline_apiserver_extens.Runtime.{Exn, Result, ok, err}
use skyline_apiserver_extens.World.{
  World, Call, steps, M, ◌>>=◌, ◌>>◌, next, handle, pure, lift, try_except, query, ask, request,
  sleep, for_each,
}
use skyline_apiserver_extens.Common.Int.{ℤ}
use skyline_apiserver_extens.Db.{Db}

module _ {ℓ} {A : Type ℓ} where
  pub data KeepsDb (m : M A) : Type ℓ where
    keeps : ((w : World) → (m w).1.db ≡ w.db) → KeepsDb m

  pub use_keeps : {m : M A} → KeepsDb m → (w : World) → (m w).1.db ≡ w.db
  use_keeps (keeps h) = h

  pub keeps-lift : (r : Result A) → KeepsDb (lift r)
  unfolding steps
  keeps-lift r = keeps λ w. refl

  pub keeps-ask : (f : World → Result A) → KeepsDb (ask f)
  unfolding steps
  keeps-ask f = keeps λ w. refl

  pub keeps-query : (f : Db → A) → KeepsDb (query f)
  unfolding steps
  keeps-query f = keeps λ w. refl

  pub keeps-pure : (a : A) → KeepsDb (pure a)
  unfolding steps
  keeps-pure a = keeps λ w. refl

  pub keeps-if : (b : Bool) {m n : M A} → KeepsDb m → KeepsDb n → KeepsDb (if b then m else n)
  keeps-if true h k = h
  keeps-if false h k = k

  handle_db :
      (r : Result A × World) (f : Exn → M A) (d : Db)
      → r.1.db ≡ d
      → ((e : Exn) → KeepsDb (f e))
      → (handle r f).1.db ≡ d
  unfolding steps
  handle_db (ok a, w) f d h k = h
  handle_db (err e, w) f d h k = use_keeps (k e) w ∙ h

  pub keeps-try :
      {m : M A} {f : Exn → M A} → KeepsDb m → ((e : Exn) → KeepsDb (f e)) → KeepsDb (try_except m f)
  unfolding steps
  keeps-try {m} {f} h k = keeps λ w. handle_db (m w) f w.db (use_keeps h w) k

pub keeps-request :
    (answer : World → Call → Result (Unit {0})) (c : Call) → KeepsDb (request answer c)
unfolding steps
keeps-request answer c = keeps λ w. refl

pub keeps-sleep : (s : ℤ) → KeepsDb (sleep s)
unfolding steps
keeps-sleep s = keeps λ w. refl

module _ {ℓ κ} {A : Type ℓ} {B : Type κ} where
  next_db :
      (r : Result A × World) (f : A → M B) (d : Db)
      → r.1.db ≡ d
      → ((a : A) → KeepsDb (f a))
      → (next r f).1.db ≡ d
  unfolding steps
  next_db (ok a, w) f d h k = use_keeps (k a) w ∙ h
  next_db (err e, w) f d h k = h

  pub keeps-bind :
      {m : M A} {f : A → M B} → KeepsDb m → ((a : A) → KeepsDb (f a)) → KeepsDb (m >>= f)
  unfolding steps
  keeps-bind {m} {f} h k = keeps λ w. next_db (m w) f w.db (use_keeps h w) k

  pub keeps-then : {m : M A} {n : M B} → KeepsDb m → KeepsDb n → KeepsDb (m >> n)
  unfolding ◌>>◌
  keeps-then h k = keeps-bind h (λ _. k)

pub keeps-for_each {ℓ} :
    {A : Type ℓ} (xs : List A) {body : A → M (Unit {0})}
    → ((x : A) → KeepsDb (body x))
    → KeepsDb (for_each xs body)
unfolding for_each
keeps-for_each [] h = keeps-pure tt
keeps-for_each (x ∷ xs) h = keeps-then (h x) (keeps-for_each xs h)

module _ {ℓ κ} {A : Type ℓ} {B : Type κ} where
  pub keeps-Option :
      (o : Option A) {n : M B} {f : A → M B}
      → KeepsDb n
      → ((a : A) → KeepsDb (f a))
      → KeepsDb (elim o [ none ↦ n | some a ↦ f a ])
  keeps-Option none h k = h
  keeps-Option (some a) h k = k a

  pub keeps-first :
      (xs : List A) {n : M B} {f : A → M B}
      → KeepsDb n
      → ((a : A) → KeepsDb (f a))
      → KeepsDb (elim xs [ [] ↦ n | x ∷ _ ↦ f x ])
  keeps-first [] h k = h
  keeps-first (x ∷ _) h k = k x
