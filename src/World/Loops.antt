-- ===== src/World/Loops.antt =====
-- Rules for a sequence of steps and for a loop: a property of the world that each step keeps.
use skyline_apiserver_extens.Common.{
  ◌≡◌, List, [], ◌∷◌, All, ◌⊎◌, inl, inr, ap, if◌then◌else◌, Bool, true, false,
}
use skyline_apiserver_extens.Runtime.{Exn, Result, ok, err}
use skyline_apiserver_extens.Db.{Db}
use skyline_apiserver_extens.World.{
  World, M, steps, next, handle, ◌>>=◌, lift, pure, execute, for_each,
}

module _ {ℓ} (P : World → Type ℓ) where
  pub next_inv {κ} :
      {A B : Type κ} (r : Result A × World) (f : A → M B)
      → P r.1
      → ((a : A) (w : World) → P w → P (f a w).1)
      → P (next r f).1
  unfolding steps
  next_inv (ok a, w) f h k = k a w h
  next_inv (err e, w) f h k = h

  -- a step that only raises or gives a value
  pub lift_inv {κ} :
      {A B : Type κ} (r : Result A) (f : A → M B) (w : World)
      → P w
      → ((a : A) → P (f a w).1)
      → P ((lift r >>= f) w).1
  unfolding steps
  lift_inv (ok a) f w h k = k a
  lift_inv (err e) f w h k = h

  pub handle_inv {κ} :
      {A : Type κ} (r : Result A × World) (f : Exn → M A)
      → P r.1
      → ((e : Exn) (w : World) → P w → P (f e w).1)
      → P (handle r f).1
  unfolding steps
  handle_inv (ok a, w) f h k = h
  handle_inv (err e, w) f h k = k e w h

  pub for_each_inv :
      {A : Type 0} (body : A → M (Unit {0})) (xs : List A)
      → All (λ x. (w : World) → P w → P (body x w).1) xs
      → (w : World) → P w
      → P (for_each xs body w).1
  unfolding steps for_each
  for_each_inv body [] hs w h = h
  for_each_inv body (x ∷ xs) (k, ks) w h =
      next_inv (body x w) (λ _. for_each xs body) (k w h) (λ _ w' h'. for_each_inv body xs ks w' h')

-- `done ← m; if done: db.f()`, where `m` leaves the database alone
pub commit_db :
    (r : Result Bool × World) (f : Db → Db) (d : Db)
    → r.1.db ≡ d
    → ((next r (λ done. if done then execute f else pure tt)).1.db ≡ d)
      ⊎ ((next r (λ done. if done then execute f else pure tt)).1.db ≡ f d)
unfolding steps
commit_db (ok true, w) f d h = inr (ap f h)
commit_db (ok false, w) f d h = inl h
commit_db (err e, w) f d h = inl h
