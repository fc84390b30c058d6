-- ===== src/World/Sends.antt =====
-- Steps that end with certain values only if they made a certain call.
use skyline_apiserver_extens.Common.{
  ◌≡◌, refl, sym, ap, subst, Bool, true, false, List, [], ◌∷◌, ◌++◌, if◌then◌else◌,
}
use skyline_apiserver_extens.Runtime.{Exn, Result, ok, err, ok-injective}
use skyline_apiserver_extens.World.{
  World, Call, M, steps, next, handle, ◌>>=◌, pure, raise, ask, exchange, try_except,
}

-- The call was made.
abbrev pub Sent : Call → World → Type 0
Sent c w = (later : List Call) × (earlier : List Call) × (w.calls ≡ later ++ c ∷ earlier)

-- Where a step gives a value with the property, the call was made.
module _ {A : Type 0} (P : A → Type 0) (c : Call) where
  pub data Sends (m : M A) : Type 0 where
    sends : ((w : World) (a : A) → (m w).0 ≡ ok a → P a → Sent c (m w).1) → Sends m

  pub use-Sends : {m : M A} → Sends m → (w : World) (a : A) → (m w).0 ≡ ok a → P a → Sent c (m w).1
  use-Sends (sends h) = h

  pub Sends-raise : (e : Exn) → Sends (raise e)
  unfolding steps
  Sends-raise e = sends λ w a h p. cc

  pub Sends-pure : (a : A) → (P a → ⊥) → Sends (pure a)
  unfolding steps
  Sends-pure a never = sends λ w b h p. absurd (never (subst P (sym (ok-injective h)) p))

  handle-Sends :
      (r : Result A × World) (f : Exn → M A)
      → ((a : A) → r.0 ≡ ok a → P a → Sent c r.1)
      → ((e : Exn) → Sends (f e))
      → (a : A) → (handle r f).0 ≡ ok a
      → P a
      → Sent c (handle r f).1
  unfolding steps
  handle-Sends (ok b, w) f h k a e p = h a e p
  handle-Sends (err x, w) f h k a e p = use-Sends (k x) w a e p

  pub Sends-try :
      {m : M A} {f : Exn → M A} → Sends m → ((e : Exn) → Sends (f e)) → Sends (try_except m f)
  unfolding try_except
  Sends-try {m} {f} h k = sends λ w. handle-Sends (m w) f (use-Sends h w) k

  pub Sends-if : (b : Bool) {m n : M A} → Sends m → Sends n → Sends (if b then m else n)
  Sends-if true h k = h
  Sends-if false h k = k

  module _ {B : Type 0} where
    next-Sends :
        (r : Result B × World) (f : B → M A)
        → ((b : B) → r.0 ≡ ok b → (a : A) → (f b r.1).0 ≡ ok a → P a → Sent c (f b r.1).1)
        → (a : A) → (next r f).0 ≡ ok a
        → P a
        → Sent c (next r f).1
    unfolding steps
    next-Sends (ok b, w) f k a e p = k b refl a e p
    next-Sends (err x, w) f k a e p = cc

    pub Sends-bind : (m : M B) {f : B → M A} → ((b : B) → Sends (f b)) → Sends (m >>= f)
    unfolding ◌>>=◌
    Sends-bind m {f} k = sends λ w. next-Sends (m w) f (λ b _. use-Sends (k b) (m w).1)

-- Steps after which every call still has been made.
module _ (c : Call) where
  module _ {A : Type 0} where
    pub data Retains (m : M A) : Type 0 where
      retains : ((w : World) → Sent c w → Sent c (m w).1) → Retains m

    pub use-Retains : {m : M A} → Retains m → (w : World) → Sent c w → Sent c (m w).1
    use-Retains (retains h) = h

    pub Retains-ask : (f : World → Result A) → Retains (ask f)
    unfolding steps
    Retains-ask f = retains λ w s. s

    pub Retains-pure : (a : A) → Retains (pure a)
    unfolding steps
    Retains-pure a = retains λ w s. s

    pub Retains-exchange : (f : World → Result A) (d : Call) → Retains (exchange f d)
    unfolding steps
    Retains-exchange f d = retains λ w s. (d ∷ s.0, s.1, ap (λ cs. d ∷ cs) s.2)

  module _ {A B : Type 0} where
    next-Retains :
        (r : Result A × World) (f : A → M B)
        → Sent c r.1
        → ((a : A) → Retains (f a))
        → Sent c (next r f).1
    unfolding steps
    next-Retains (ok a, w) f s k = use-Retains (k a) w s
    next-Retains (err e, w) f s k = s

    pub Retains-bind :
        {m : M A} {f : A → M B} → Retains m → ((a : A) → Retains (f a)) → Retains (m >>= f)
    unfolding ◌>>=◌
    Retains-bind {m} {f} h k = retains λ w s. next-Retains (m w) f (use-Retains h w s) k

    next-Ends :
        (P : B → Type 0) (r : Result A × World) (f : A → M B)
        → ((a : A) → r.0 ≡ ok a → Sent c r.1)
        → ((a : A) → Retains (f a))
        → (b : B) → (next r f).0 ≡ ok b
        → P b
        → Sent c (next r f).1
    unfolding steps
    next-Ends P (ok a, w) f h k b e p = use-Retains (k a) w (h a refl)
    next-Ends P (err x, w) f h k b e p = cc

    -- The call is made first.
    pub Sends-first :
        (P : B → Type 0) {m : M A} {f : A → M B}
        → Sends (λ _. Unit {0}) c m
        → ((a : A) → Retains (f a))
        → Sends P c (m >>= f)
    unfolding ◌>>=◌
    Sends-first P {m} {f} h k =
        sends λ w. next-Ends P (m w) f (λ a e. use-Sends (λ _. Unit {0}) c h w a e tt) k

pub Sends-exchange :
    {A : Type 0} (P : A → Type 0) (f : World → Result A) (c : Call) → Sends P c (exchange f c)
unfolding steps
Sends-exchange P f c = sends λ w a e p. ([], w.calls, refl)
