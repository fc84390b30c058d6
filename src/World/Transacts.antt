-- ===== src/World/Transacts.antt =====
-- A handler that is all or nothing: either it raises and leaves the database alone, or it ends and
-- the database has changed as it should.
use skyline_apiserver_extens.Common.{
  ◌≡◌, refl, subst, Bool, true, false, ◌⊎◌, inl, inr, if◌then◌else◌,
}
use skyline_apiserver_extens.Runtime.{Exn, Result, ok, err}
use skyline_apiserver_extens.Db.{Db}
use skyline_apiserver_extens.World.{
  World, M, steps, next, handle, ◌>>=◌, ◌>>◌, pure, raise, try_except,
}
use skyline_apiserver_extens.World.Keeps.{KeepsDb, use_keeps}

-- What is left of a database by a step that began with `d`.
abbrev pub AllOrNothing {ℓ} : {A : Type ℓ} → (A → Db → Db → Type 0) → Db → Result A × World → Type ℓ
AllOrNothing {A = A} P d (r, w') =
    ((e : Exn) × (r ≡ err e) × (w'.db ≡ d)) ⊎ ((a : A) × (r ≡ ok a) × P a d w'.db)

module _ {ℓ} {A : Type ℓ} (P : A → Db → Db → Type 0) where
  pub data Transacts (m : M A) : Type ℓ where
    transacts : ((w : World) → AllOrNothing P w.db (m w)) → Transacts m

  pub use-Transacts : {m : M A} → Transacts m → (w : World) → AllOrNothing P w.db (m w)
  use-Transacts (transacts h) = h

  pub Transacts-raise : (e : Exn) → Transacts (raise e)
  unfolding steps
  Transacts-raise e = transacts λ w. inl (e, refl, refl)

  pub Transacts-if :
      (b : Bool) {m n : M A} → Transacts m → Transacts n → Transacts (if b then m else n)
  Transacts-if true h k = h
  Transacts-if false h k = k

  handle-raise :
      (x : Exn) (d : Db) (r : Result A × World)
      → AllOrNothing P d r
      → AllOrNothing P d (handle r (λ _. raise x))
  unfolding steps
  handle-raise x d (ok a, w) h = h
  handle-raise x d (err e, w) (inl (f, same, kept)) = inl (x, refl, kept)
  handle-raise x d (err e, w) (inr (a, same, h)) = cc

  pub Transacts-try : (x : Exn) {m : M A} → Transacts m → Transacts (try_except m (λ _. raise x))
  unfolding try_except
  Transacts-try x {m} h = transacts λ w. handle-raise x w.db (m w) (use-Transacts h w)

  handled :
      (d : Db) (r : Result A × World) (f : Exn → M A)
      → AllOrNothing P d r
      → ((e : Exn) → Transacts (f e))
      → AllOrNothing P d (handle r f)
  unfolding steps
  handled d (ok a, w) f h k = h
  handled d (err e, w) f (inl (x, same, kept)) k =
      subst (λ c. AllOrNothing P c (f e w)) kept (use-Transacts (k e) w)
  handled d (err e, w) f (inr (a, same, h)) k = cc

  pub Transacts-handle :
      {m : M A} {f : Exn → M A}
      → Transacts m
      → ((e : Exn) → Transacts (f e))
      → Transacts (try_except m f)
  unfolding try_except
  Transacts-handle {m} {f} h k = transacts λ w. handled w.db (m w) f (use-Transacts h w) k

  module _ {κ} {B : Type κ} where
    next-Transacts :
        (d : Db) (r : Result B × World) (f : B → M A)
        → r.1.db ≡ d
        → ((b : B) → Transacts (f b))
        → AllOrNothing P d (next r f)
    unfolding next
    next-Transacts d (err e, w) f same h = inl (e, refl, same)
    next-Transacts d (ok b, w) f same h =
        subst (λ x. AllOrNothing P x (f b w)) same (use-Transacts (h b) w)

    pub Transacts-bind :
        {m : M B} {f : B → M A} → KeepsDb m → ((b : B) → Transacts (f b)) → Transacts (m >>= f)
    unfolding ◌>>=◌
    Transacts-bind {m} {f} k h = transacts λ w. next-Transacts w.db (m w) f (use_keeps k w) h

    pub Transacts-then : {m : M B} {n : M A} → KeepsDb m → Transacts n → Transacts (m >> n)
    unfolding ◌>>◌
    Transacts-then k h = Transacts-bind k (λ _. h)

module _ {ℓ κ} {A : Type ℓ} {B : Type κ} (P : A → Db → Db → Type 0) (Q : B → Db → Db → Type 0) where
  next-pure :
      (d : Db) (b : B) (r : Result A × World)
      → ((a : A) (e : Db) → P a d e → Q b d e)
      → AllOrNothing P d r
      → AllOrNothing Q d (next r (λ _. pure b))
  unfolding steps
  next-pure d b (ok a, w) h (inl (x, same, kept)) = cc
  next-pure d b (ok a, w) h (inr (c, same, p)) = inr (b, refl, h c w.db p)
  next-pure d b (err e, w) h (inl (x, same, kept)) = inl (e, refl, kept)
  next-pure d b (err e, w) h (inr (c, same, p)) = cc

  -- A handler that ends with a value of its own.
  pub Transacts-pure :
      {m : M A} (b : B)
      → ((a : A) (d e : Db) → P a d e → Q b d e)
      → Transacts P m
      → Transacts Q (m >>= λ _. pure b)
  unfolding ◌>>=◌
  Transacts-pure {m} b h k =
      transacts λ w. next-pure w.db b (m w) (λ a e. h a w.db e) (use-Transacts P k w)
