-- ===== src/Portforward/Attempts.antt =====
-- How often the client asks, and how long it waits.
use Prim.Native.String
use skyline_apiserver_extens.Common.{
  ℕ, zero, suc, ◌+◌, ◌≤◌, String, ◌≡◌, refl, sym, ap, ◌∙◌, subst, Bool-cases, Option, List, [], ◌∷◌,
  ◌++◌, length, if◌then◌else◌, inl, inr, arith,
}
use skyline_apiserver_extens.Common.Dict.{Dict}
use skyline_apiserver_extens.Common.Int.{ℤ, pos, ◌+ℤ◌, ◌≤ℤ◌, int_laws}
use skyline_apiserver_extens.Runtime.{Result, ok, err, other, Json}
use skyline_apiserver_extens.World.{
  World, Call, portforward, M, steps, next, handle, lift, ◌>>◌, raise, sleep, try_except,
}
use skyline_apiserver_extens.Portforward.{
  Service, Request, is_network_error, retrying, waits, attempt, call, authorization,
  handle_response,
}

abbrev pub repeat : ℕ → Call → List Call
repeat zero c = []
repeat (suc n) c = c ∷ repeat n c

abbrev pub sum : List ℕ → ℕ
sum [] = 0
sum (t ∷ ts) = t + sum ts

-- From `w`, up to `k` requests, all the same, in up to `s` seconds, and no change of the database.
abbrev pub Attempted {ℓ} : {A : Type ℓ} → Call → ℕ → ℕ → World → Result A × World → Type 0
Attempted c k s w (r, w') =
    (n : ℕ) × (1 ≤ n)
    × (n ≤ k)
    × (w'.calls ≡ repeat n c ++ w.calls)
    × (w'.clock ≤ℤ w.clock +ℤ pos s)
    × (w'.db ≡ w.db)

repeat-append : (n : ℕ) (c : Call) (xs : List Call) → repeat n c ++ c ∷ xs ≡ c ∷ repeat n c ++ xs
repeat-append zero c xs = refl
repeat-append (suc n) c xs = ap (λ ys. c ∷ ys) (repeat-append n c xs)

clock_now : (s : ℕ) (a : ℤ) → a ≤ℤ a +ℤ pos s
clock_now s a = omega int_laws

clock_later : (t s : ℕ) (a b : ℤ) → b ≤ℤ (a +ℤ pos t) +ℤ pos s → b ≤ℤ a +ℤ pos (t + s)
clock_later t s a b h = omega (int_laws, h)

module _ {A : Type 0} (c : Call) (m : M A) where
  -- one attempt is one request
  abbrev pub Once : Type 0
  Once = (w : World) → (m w).1 ≡ record w { calls = c ∷ w.calls }

  once :
      (k s : ℕ) (w : World) (r : Result A × World)
      → r.1 ≡ record w { calls = c ∷ w.calls }
      → Attempted c (suc k) s w r
  once k s w r h = (
    1,
    omega arith,
    omega arith,
    ap (λ v. v.calls) h,
    subst (λ x. x ≤ℤ w.clock +ℤ pos s) (sym (ap (λ v. v.clock) h)) (clock_now s w.clock),
    ap (λ v. v.db) h,
  )

  retried :
      (t k s : ℕ) (w : World) (r : Result A × World) (v : World)
      → v ≡ record w { calls = c ∷ w.calls }
      → Attempted c k s (record v { clock = v.clock +ℤ pos t }) r
      → Attempted c (suc k) (t + s) w r
  retried t k s w (r, w') v e h =
      let from = subst (λ x. Attempted c k s (record x { clock = x.clock +ℤ pos t }) (r, w')) e h in
      (
        suc from.0,
        omega arith,
        omega (arith, from.2),
        from.3 ∙ repeat-append from.0 c w.calls,
        clock_later t s w.clock w'.clock from.4,
        from.5,
      )

  last :
      (w : World) (r : Result A × World)
      → r.1 ≡ record w { calls = c ∷ w.calls }
      → Attempted c 1 0 w
          (handle r (λ e. if is_network_error e then raise (other "RetryError") else raise e))
  unfolding steps
  last w (ok a, v) h = once 0 0 w (ok a, v) h
  last w (err e, v) h = elim (Bool-cases (is_network_error e)) [
    | inl network ↦ rw network (once 0 0 w (err (other "RetryError"), v) h)
    | inr fatal ↦ rw fatal (once 0 0 w (err e, v) h)
  ]

  again :
      (t k s : ℕ) (rest : M A) (w : World) (r : Result A × World)
      → ((v : World) → Attempted c (suc k) s v (rest v))
      → r.1 ≡ record w { calls = c ∷ w.calls }
      → Attempted c
          (suc (suc k))
          (t + s)
          w
          (handle r (λ e. if is_network_error e then sleep (pos t) >> rest else raise e))
  unfolding steps
  again t k s rest w (ok a, v) g h = once (suc k) (t + s) w (ok a, v) h
  again t k s rest w (err e, v) g h = elim (Bool-cases (is_network_error e)) [
    | inl network ↦ rw network (retried t (suc k) s w (rest _) v h (g _))
    | inr fatal ↦ rw fatal (once (suc k) (t + s) w (err e, v) h)
  ]

  pub retrying-Attempted :
      (ts : List ℕ)
      → Once
      → (w : World) → Attempted c (suc (length ts)) (sum ts) w (retrying ts m w)
  unfolding retrying try_except
  retrying-Attempted [] o w = last w (m w) (o w)
  retrying-Attempted (t ∷ ts) o w =
      again t (length ts) (sum ts) (retrying ts m) w (m w) (retrying-Attempted ts o) (o w)

next-lift :
    {A B : Type 0} (f : A → Result B) (r : Result A × World) → (next r (λ x. lift (f x))).1 ≡ r.1
unfolding steps
next-lift f (ok a, w) = refl
next-lift f (err e, w) = refl

-- A call of the client sends its request at least once and at most three times, always the same, and
-- waits three seconds at most, whatever the service answers. The database is left alone.
pub call-Attempted :
    (service : Service) (method path : String) (token : Option String) (params : Dict String)
    (body : Option Json) (w : World)
    → Attempted
        (portforward method (String.◌++◌ service.base_url path))
        3
        3
        w
        (call service method path token params body w)
unfolding call attempt steps
call-Attempted service method path token params body w =
    let request : Request = record {
      method = method;
      url = String.◌++◌ service.base_url path;
      authorization = authorization service token;
      params = params;
      body = body;
    } in
    retrying-Attempted (portforward method request.url) (attempt service request) waits
      (λ v.
        next-lift (handle_response service)
          (service.send v request, record v { calls = portforward method request.url ∷ v.calls }))
      w
