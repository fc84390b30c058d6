-- ===== src/World/Reads.antt =====
-- Steps that leave the whole world alone.
use skyline_apiserver_extens.Common.{
  ◌≡◌, refl, sym, ap, ◌∙◌, Bool, true, false, Option, none, some, if◌then◌else◌, ◌⊎◌, inl, inr,
}
use skyline_apiserver_extens.Runtime.{Exn, Result, ok, err}
use skyline_apiserver_extens.Db.{Db}
use skyline_apiserver_extens.World.{
  World, M, ◌>>=◌, ◌>>◌, steps, next, handle, pure, raise, lift, try_except, query, ask, time,
}

module _ {ℓ} {A : Type ℓ} where
  pub data Reads (m : M A) : Type ℓ where
    reads : ((w : World) → (m w).1 ≡ w) → Reads m

  pub use-Reads : {m : M A} → Reads m → (w : World) → (m w).1 ≡ w
  use-Reads (reads h) = h

  pub Reads-lift : (r : Result A) → Reads (lift r)
  unfolding steps
  Reads-lift r = reads λ w. refl

  pub Reads-query : (f : Db → A) → Reads (query f)
  unfolding steps
  Reads-query f = reads λ w. refl

  pub Reads-ask : (f : World → Result A) → Reads (ask f)
  unfolding steps
  Reads-ask f = reads λ w. refl

  pub Reads-pure : (a : A) → Reads (pure a)
  unfolding steps
  Reads-pure a = reads λ w. refl

  pub Reads-raise : (e : Exn) → Reads (raise e)
  unfolding steps
  Reads-raise e = reads λ w. refl

  pub Reads-if : (b : Bool) {m n : M A} → Reads m → Reads n → Reads (if b then m else n)
  Reads-if true h k = h
  Reads-if false h k = k

  handle-ok :
      (r : Result A × World) (x : Exn) (a : A) → (handle r (λ _. raise x)).0 ≡ ok a → r.0 ≡ ok a
  unfolding steps
  handle-ok (ok b, w) x a h = h
  handle-ok (err e, w) x a h = cc

  -- What a step gives although its errors are replaced, it gave itself.
  pub try-ok :
      (m : M A) (x : Exn) (w : World) (a : A)
      → (try_except m (λ _. raise x) w).0 ≡ ok a
      → (m w).0 ≡ ok a
  unfolding try_except
  try-ok m x w a h = handle-ok (m w) x a h

  handle-err : (r : Result A × World) (x e : Exn) → (handle r (λ _. raise x)).0 ≡ err e → e ≡ x
  unfolding steps
  handle-err (ok b, w) x e h = cc
  handle-err (err y, w) x e h = cc

  -- The error of such a step is the replacement.
  pub try-err :
      (m : M A) (x : Exn) (w : World) (e : Exn) → (try_except m (λ _. raise x) w).0 ≡ err e → e ≡ x
  unfolding try_except
  try-err m x w e h = handle-err (m w) x e h

  handle-Reads :
      (r : Result A × World) (f : Exn → M A) (w : World)
      → r.1 ≡ w
      → ((e : Exn) → Reads (f e))
      → (handle r f).1 ≡ w
  unfolding steps
  handle-Reads (ok a, w') f w h k = h
  handle-Reads (err e, w') f w h k = use-Reads (k e) w' ∙ h

  pub Reads-try :
      {m : M A} {f : Exn → M A} → Reads m → ((e : Exn) → Reads (f e)) → Reads (try_except m f)
  unfolding steps
  Reads-try {m} {f} h k = reads λ w. handle-Reads (m w) f w (use-Reads h w) k

module _ {ℓ κ} {A : Type ℓ} {B : Type κ} where
  next-Reads :
      (r : Result A × World) (f : A → M B) (w : World)
      → r.1 ≡ w
      → ((a : A) → Reads (f a))
      → (next r f).1 ≡ w
  unfolding steps
  next-Reads (ok a, w') f w h k = use-Reads (k a) w' ∙ h
  next-Reads (err e, w') f w h k = h

  pub Reads-bind : {m : M A} {f : A → M B} → Reads m → ((a : A) → Reads (f a)) → Reads (m >>= f)
  unfolding steps
  Reads-bind {m} {f} h k = reads λ w. next-Reads (m w) f w (use-Reads h w) k

  pub Reads-then : {m : M A} {n : M B} → Reads m → Reads n → Reads (m >> n)
  unfolding ◌>>◌
  Reads-then h k = Reads-bind h (λ _. k)

  pub Reads-option :
      (o : Option A) {n : M B} {f : A → M B}
      → Reads n
      → ((a : A) → Reads (f a))
      → Reads (elim o [ none ↦ n | some a ↦ f a ])
  Reads-option none h k = h
  Reads-option (some a) h k = k a

  -- What a step that only reads hands on: its error, or its value.
  abbrev pub Outcome : Result A × World → (A → M B) → World → Type (ℓ ⊔ κ)
  Outcome r f w =
      ((e : Exn) × (r.0 ≡ err e) × (next r f ≡ (err e, w)))
      ⊎ ((a : A) × (r.0 ≡ ok a) × (next r f ≡ f a w))

  next-Outcome : (r : Result A × World) (f : A → M B) (w : World) → r.1 ≡ w → Outcome r f w
  unfolding steps
  next-Outcome (ok a, v) f w h = inr (a, refl, ap (f a) h)
  next-Outcome (err e, v) f w h = inl (e, refl, ap (λ x. (err e, x)) h)

  pub bind-Outcome : {m : M A} → Reads m → (f : A → M B) (w : World) → Outcome (m w) f w
  bind-Outcome {m} h f w = next-Outcome (m w) f w (use-Reads h w)

  next-value :
      (r : Result A × World) (f : A → M B) (w : World) (a : A)
      → r.1 ≡ w
      → r.0 ≡ ok a
      → next r f ≡ f a w
  unfolding steps
  next-value r f w a h e = rw (h, e) refl

  -- A step that only reads and gives a value, before others.
  pub bind-value :
      {m : M A}
      → Reads m
      → (f : A → M B) (w : World) (a : A) → (m w).0 ≡ ok a
      → next (m w) f ≡ f a w
  bind-value {m} h f w a e = next-value (m w) f w a (use-Reads h w) e

  -- A step that only reads and is followed by others that end gave a value.
  pub bind-ok :
      {m : M A}
      → Reads m
      → (f : A → M B) (w : World) (b : B) → ((m >>= f) w).0 ≡ ok b
      → (a : A) × ((m w).0 ≡ ok a) × ((f a w).0 ≡ ok b)
  unfolding steps
  bind-ok h f w b e = elim (bind-Outcome h f w) [
    | inl (x, _, q) ↦ cc
    | inr (a, p, q) ↦ (a, p, sym (ap (λ r. r.0) q) ∙ e)
  ]

  -- A step that only reads and whose errors are replaced, before others.
  pub try-Outcome :
      {m : M A}
      → Reads m
      → (x : Exn) (f : A → M B) (w : World)
      → ((try_except m (λ _. raise x) >>= f) w ≡ (err x, w))
        ⊎ ((a : A) × ((m w).0 ≡ ok a) × ((try_except m (λ _. raise x) >>= f) w ≡ f a w))
  unfolding ◌>>=◌
  try-Outcome {m} h x f w = elim (bind-Outcome (Reads-try h (λ _. Reads-raise x)) f w) [
    | inl (e, failed, q) ↦ inl (q ∙ ap (λ y. (err y, w)) (try-err m x w e failed))
    | inr (a, made, q) ↦ inr (a, try-ok m x w a made, q)
  ]

pub Reads-time : Reads time
unfolding steps
Reads-time = reads λ w. refl
