-- ===== src/World/Within.antt =====
-- Steps that leave the database alone and take a bounded time.
use skyline_apiserver_extens.Common.{
  Option, none, some, ℕ, ◌+◌, ◌≤◌, ◌*◌, ◌≡◌, refl, ◌∙◌, Bool, true, false, List, [], ◌∷◌, length,
  arith, if◌then◌else◌,
}
use skyline_apiserver_extens.Common.Int.{ℤ, pos, ◌+ℤ◌, ◌≤ℤ◌, int_laws}
use skyline_apiserver_extens.Runtime.{Exn, Result, ok, err}
use skyline_apiserver_extens.World.{
  World, Call, M, steps, next, handle, ◌>>=◌, ◌>>◌, pure, raise, ask, sleep, request, try_except,
  for_each,
}

-- From the world `w`, at most `k` seconds and no change of the database.
abbrev pub Quick {ℓ} : {A : Type ℓ} → ℕ → World → Result A × World → Type 0
Quick k w (r, w') = (w'.db ≡ w.db) × (w'.clock ≤ℤ w.clock +ℤ pos k)

quick_trans : (j k : ℕ) (a b c : ℤ) → b ≤ℤ a +ℤ pos j → c ≤ℤ b +ℤ pos k → c ≤ℤ a +ℤ pos (j + k)
quick_trans j k a b c h g = omega (int_laws, h, g)

quick_weaken : (j k : ℕ) (a b : ℤ) → j ≤ k → b ≤ℤ a +ℤ pos j → b ≤ℤ a +ℤ pos k
quick_weaken j k a b h g = omega (int_laws, h, g)

quick_now : (k : ℕ) (a : ℤ) → a ≤ℤ a +ℤ pos k
quick_now k a = omega int_laws

module _ {ℓ} {A : Type ℓ} where
  pub data Within (k : ℕ) (m : M A) : Type ℓ where
    within : ((w : World) → Quick k w (m w)) → Within k m

  pub use-Within : {k : ℕ} {m : M A} → Within k m → (w : World) → Quick k w (m w)
  use-Within (within h) = h

  pub Within-ask : (f : World → Result A) → Within 0 (ask f)
  unfolding steps
  Within-ask f = within λ w. (refl, quick_now 0 w.clock)

  pub Within-pure : (a : A) → Within 0 (pure a)
  unfolding steps
  Within-pure a = within λ w. (refl, quick_now 0 w.clock)

  pub Within-raise : (e : Exn) → Within 0 (raise {A = A} e)
  unfolding steps
  Within-raise e = within λ w. (refl, quick_now 0 w.clock)

  pub Within-weaken : {j k : ℕ} {m : M A} → Within j m → j ≤ k → Within k m
  Within-weaken {j} {k} h le =
      within λ w. ((use-Within h w).0, quick_weaken j k w.clock _ le (use-Within h w).1)

  pub Within-if :
      {k : ℕ} (b : Bool) {m n : M A} → Within k m → Within k n → Within k (if b then m else n)
  Within-if true h g = h
  Within-if false h g = g

  handle-Quick :
      (j k : ℕ) (w : World) (r : Result A × World) (f : Exn → M A)
      → Quick j w r
      → ((e : Exn) → Within k (f e))
      → Quick (j + k) w (handle r f)
  unfolding handle
  handle-Quick j k w (ok a, v) f (d, c) h =
      (d, quick_weaken j (j + k) w.clock v.clock (omega arith) c)
  handle-Quick j k w (err e, v) f (d, c) h =
      ((use-Within (h e) v).0 ∙ d, quick_trans j k w.clock v.clock _ c (use-Within (h e) v).1)

  pub Within-try :
      {j k : ℕ} {m : M A} {f : Exn → M A}
      → Within j m
      → ((e : Exn) → Within k (f e))
      → Within (j + k) (try_except m f)
  unfolding try_except
  Within-try {j} {k} {m} {f} h g = within λ w. handle-Quick j k w (m w) f (use-Within h w) g

pub Within-sleep : (k : ℕ) → Within k (sleep (pos k))
unfolding steps
Within-sleep k = within λ w. (refl, omega arith)

pub Within-request :
    (answer : World → Call → Result (Unit {0})) (c : Call) → Within 0 (request answer c)
unfolding steps
Within-request answer c = within λ w. (refl, quick_now 0 w.clock)

module _ {ℓ κ} {A : Type ℓ} {B : Type κ} where
  next-Quick :
      (j k : ℕ) (w : World) (r : Result A × World) (f : A → M B)
      → Quick j w r
      → ((a : A) → Within k (f a))
      → Quick (j + k) w (next r f)
  unfolding next
  next-Quick j k w (err e, v) f (d, c) h =
      (d, quick_weaken j (j + k) w.clock v.clock (omega arith) c)
  next-Quick j k w (ok a, v) f (d, c) h =
      ((use-Within (h a) v).0 ∙ d, quick_trans j k w.clock v.clock _ c (use-Within (h a) v).1)

  pub Within-bind :
      {j k : ℕ} {m : M A} {f : A → M B}
      → Within j m
      → ((a : A) → Within k (f a))
      → Within (j + k) (m >>= f)
  unfolding ◌>>=◌
  Within-bind {j} {k} {m} {f} h g = within λ w. next-Quick j k w (m w) f (use-Within h w) g

  pub Within-then :
      {j k : ℕ} {m : M A} {n : M B} → Within j m → Within k n → Within (j + k) (m >> n)
  unfolding ◌>>◌
  Within-then h g = Within-bind h (λ _. g)

-- Such a step that does not raise.
pub data Ends (k : ℕ) (m : M (Unit {0})) : Type 0 where
  ends : ((w : World) → (m w).0 ≡ ok tt) → Within k m → Ends k m

pub use-Ends :
    {k : ℕ} {m : M (Unit {0})} → Ends k m → (w : World) → ((m w).0 ≡ ok tt) × Quick k w (m w)
use-Ends (ends h g) w = (h w, use-Within g w)

next_ends :
    (r : Result (Unit {0}) × World) (f : Unit {0} → M (Unit {0}))
    → r.0 ≡ ok tt
    → ((w : World) → (f tt w).0 ≡ ok tt)
    → (next r f).0 ≡ ok tt
unfolding next
next_ends (ok _, w) f h g = g w
next_ends (err e, w) f h g = cc

pub Ends-then : {j k : ℕ} {m n : M (Unit {0})} → Ends j m → Ends k n → Ends (j + k) (m >> n)
unfolding ◌>>◌ ◌>>=◌
Ends-then {m = m} {n = n} (ends a b) (ends c d) =
    ends (λ w. next_ends (m w) (λ _. n) (a w) c) (Within-then b d)

handle_ends : (r : Result (Unit {0}) × World) → (handle r (λ _. pure tt)).0 ≡ ok tt
unfolding steps
handle_ends (ok _, w) = refl
handle_ends (err e, w) = refl

pub Ends-ignore :
    {k : ℕ} {m : M (Unit {0})} → Within k m → Ends (k + 0) (try_except m (λ _. pure tt))
unfolding try_except
Ends-ignore {m = m} h = ends (λ w. handle_ends (m w)) (Within-try h (λ _. Within-pure tt))

pub Ends-weaken : {j k : ℕ} {m : M (Unit {0})} → Ends j m → j ≤ k → Ends k m
Ends-weaken (ends h g) le = ends h (Within-weaken g le)

pub Ends-if :
    {k : ℕ} (b : Bool) {m n : M (Unit {0})} → Ends k m → Ends k n → Ends k (if b then m else n)
Ends-if true h g = h
Ends-if false h g = g

pub Ends-sleep : (k : ℕ) → Ends k (sleep (pos k))
unfolding sleep
Ends-sleep k = ends (λ w. refl) (Within-sleep k)

pub Ends-pure : (k : ℕ) → Ends k (pure tt)
unfolding pure
Ends-pure k = ends (λ w. refl) (within λ w. (refl, quick_now k w.clock))

pub Ends-for_each :
    {A : Type 0} {k : ℕ} {body : A → M (Unit {0})}
    → ((x : A) → Ends k (body x))
    → (xs : List A) → Ends (length xs * k) (for_each xs body)
unfolding for_each
Ends-for_each h [] = Ends-pure _
Ends-for_each {k = k} h (x ∷ xs) = Ends-weaken (Ends-then (h x) (Ends-for_each h xs)) (omega arith)

module _ {ℓ κ} {A : Type ℓ} {B : Type κ} {k : ℕ} where
  pub Within-Option :
      (o : Option A) {n : M B} {f : A → M B}
      → Within k n
      → ((a : A) → Within k (f a))
      → Within k (elim o [ none ↦ n | some a ↦ f a ])
  Within-Option none h g = h
  Within-Option (some a) h g = g a

  pub Within-first :
      (xs : List A) {n : M B} {f : A → M B}
      → Within k n
      → ((a : A) → Within k (f a))
      → Within k (elim xs [ [] ↦ n | x ∷ _ ↦ f x ])
  Within-first [] h g = h
  Within-first (x ∷ _) h g = g x

pub Within-for_each :
    {A : Type 0} {k : ℕ} (xs : List A) {body : A → M (Unit {0})}
    → ((x : A) → Within k (body x))
    → Within (length xs * k) (for_each xs body)
unfolding for_each
Within-for_each [] h = Within-weaken (Within-pure tt) (omega arith)
Within-for_each (x ∷ xs) h = Within-weaken (Within-then (h x) (Within-for_each xs h)) (omega arith)
