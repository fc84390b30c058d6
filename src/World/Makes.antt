-- ===== src/World/Makes.antt =====
-- Steps whose requests all have a property.
use skyline_apiserver_extens.Common.{
  ◌≡◌, sym, ap, subst, Bool, true, false, List, [], ◌∷◌, ◌++◌, All, if◌then◌else◌,
}
use skyline_apiserver_extens.Runtime.{Exn, Result}
use skyline_apiserver_extens.Db.{Db}
use skyline_apiserver_extens.World.{
  World, Call, M, steps, ◌>>=◌, ◌>>◌, execute, request, try_except, for_each,
}
use skyline_apiserver_extens.World.Loops.{next_inv, handle_inv, for_each_inv}
use skyline_apiserver_extens.World.Reads.{Reads, use-Reads}

-- The requests after `base` have the property.
abbrev pub Since : (Call → Type 0) → List Call → World → Type 0
Since Q base w = (new : List Call) × (w.calls ≡ new ++ base) × All Q new

module _ (Q : Call → Type 0) where
  pub data Makes {ℓ} {A : Type ℓ} (m : M A) : Type ℓ where
    makes : ((base : List Call) (w : World) → Since Q base w → Since Q base (m w).1) → Makes m

  pub use-Makes {ℓ} :
      {A : Type ℓ} {m : M A}
      → Makes m
      → (base : List Call) (w : World) → Since Q base w
      → Since Q base (m w).1
  use-Makes (makes h) = h

  pub Makes-Reads {ℓ} : {A : Type ℓ} {m : M A} → Reads m → Makes m
  Makes-Reads h = makes λ base w s. subst (Since Q base) (sym (use-Reads h w)) s

  pub Makes-execute : (f : Db → Db) → Makes (execute f)
  unfolding steps
  Makes-execute f = makes λ base w s. s

  pub Makes-request :
      (answer : World → Call → Result (Unit {0})) (c : Call) → Q c → Makes (request answer c)
  unfolding steps
  Makes-request answer c q =
      makes λ base w (new, same, h). (c ∷ new, ap (λ cs. c ∷ cs) same, (q, h))

  pub Makes-if {ℓ} :
      {A : Type ℓ} (b : Bool) {m n : M A} → Makes m → Makes n → Makes (if b then m else n)
  Makes-if true h k = h
  Makes-if false h k = k

  pub Makes-try {ℓ} :
      {A : Type ℓ} {m : M A} {f : Exn → M A}
      → Makes m
      → ((e : Exn) → Makes (f e))
      → Makes (try_except m f)
  unfolding try_except
  Makes-try {m = m} {f = f} h k = makes λ base w s.
      handle_inv (Since Q base) (m w) f (use-Makes h base w s) (λ e v. use-Makes (k e) base v)

  pub Makes-bind {ℓ} :
      {A : Type ℓ} {B : Type ℓ} {m : M A} {f : A → M B}
      → Makes m
      → ((a : A) → Makes (f a))
      → Makes (m >>= f)
  unfolding ◌>>=◌
  Makes-bind {m = m} {f = f} h k = makes λ base w s.
      next_inv (Since Q base) (m w) f (use-Makes h base w s) (λ a v. use-Makes (k a) base v)

  pub Makes-then {ℓ} :
      {A : Type ℓ} {B : Type ℓ} {m : M A} {n : M B} → Makes m → Makes n → Makes (m >> n)
  unfolding ◌>>◌
  Makes-then h k = Makes-bind h (λ _. k)

  All-each :
      {A : Type 0} (body : A → M (Unit {0})) (base : List Call) (xs : List A)
      → All (λ x. Makes (body x)) xs
      → All (λ x. (w : World) → Since Q base w → Since Q base (body x w).1) xs
  All-each body base [] h = tt
  All-each body base (x ∷ xs) (h, k) = (use-Makes h base, All-each body base xs k)

  pub Makes-for_each :
      {A : Type 0} (body : A → M (Unit {0})) (xs : List A)
      → All (λ x. Makes (body x)) xs
      → Makes (for_each xs body)
  Makes-for_each body xs h =
      makes λ base. for_each_inv (Since Q base) body xs (All-each body base xs h)
