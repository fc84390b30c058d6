-- ===== src/Session/Gate.antt =====
-- The middleware as a whole, and the sessions that it renews.
use skyline_apiserver_extens.Common.{
  String, ◌≡◌, refl, sym, ap, subst, Bool, true, false, Bool-cases, Option, none, some, ◌==◌, ◌⊎◌,
  List, [], ◌∷◌, ◌++◌, ◌∙◌, append-nil, inl, inr, if◌then◌else◌, arith, map_option,
}
use skyline_apiserver_extens.Common.Int.{ℤ, ◌+ℤ◌, ◌-ℤ◌, ltb_ℤ, leb_ℤ, +ℤ_parts, -ℤ_parts}
use skyline_apiserver_extens.Runtime.{ok}
use skyline_apiserver_extens.World.{World, M, steps, next, pure}
use skyline_apiserver_extens.Profile.{Profile}
use skyline_apiserver_extens.Keystone.{Keystone}
use skyline_apiserver_extens.Session.{
  Jwt, SessionConf, Payload, Request, State, Response, unauthorized, is_ignored, state_of, proceed,
  validate_token, with_renewal, renewed, renewed_payload, renewal_cookies, to_payload,
}
use skyline_apiserver_extens.Session.Accepts.{
  Continues, Accepted, check_cookie-Checked, check_cookie-Accepted,
  generate_profile_by_token-Continues,
}

module _ (keystone : Keystone) (conf : SessionConf) (jwt : Jwt) where
  -- What a request with a cookie comes to: a refusal, or the handler with the profile of the session.
  abbrev pub Gated : Request → String → (State → M Response) → World → Type 0
  Gated request cookie call_next w =
      ((detail : String) × (validate_token keystone conf jwt request call_next w
          ≡ (ok (unauthorized detail), w)))
      ⊎ ((token : Payload) × (profile : Profile) × Accepted keystone conf jwt cookie w token profile
          × Continues token profile
          × (validate_token keystone conf jwt request call_next w
              ≡ proceed keystone conf jwt call_next (state_of keystone conf jwt profile w.clock) w))

  -- what follows the check of a cookie
  abbrev pub after : (State → M Response) → Response ⊎ State → M Response
  after call_next (inl refusal) = pure refusal
  after call_next (inr state) = proceed keystone conf jwt call_next state

  -- A request to a path that is not ignored, with a cookie, is refused by 401 and changes nothing, or
  -- its handler is called with the profile of the session: the cookie's token was read, is not among
  -- the revoked ones, and Keystone gave the profile for it, which keeps the token, the region, the
  -- expiry where it is not 0, and the identifier where it is not empty.
  pub validate_token-Gated :
      (request : Request) (cookie : String) (call_next : State → M Response) (w : World)
      → is_ignored request.path ≡ false
      → request.cookie ≡ some cookie
      → (cookie == "") ≡ false
      → Gated request cookie call_next w
  unfolding validate_token steps
  validate_token-Gated request cookie call_next w path sent full =
      elim (check_cookie-Checked keystone conf jwt cookie w) [
        | inl (detail, q) ↦
            inl (detail, rw (path, sent, full) (ap (λ r. next r (after call_next)) q))
        | inr (token, profile, known, q) ↦ inr (
          token,
          profile,
          known,
          generate_profile_by_token-Continues keystone conf jwt token profile w known.2,
          rw (path, sent, full) (ap (λ r. next r (after call_next)) q),
        )
      ]

  abbrev or_own : Profile → Option Payload → Payload
  or_own profile none = to_payload profile
  or_own profile (some payload) = payload

  -- The session that the browser holds after an accepted request: the renewed one, or its own.
  abbrev pub held : Profile → ℤ → Payload
  held profile now = or_own profile (renewed_payload keystone conf jwt profile now)

  renewed_exp :
      (now : ℤ)
      → ltb_ℤ conf.access_token_renew conf.access_token_expire ≡ true
      → ltb_ℤ conf.access_token_renew ((now +ℤ conf.access_token_expire) -ℤ now) ≡ true
  renewed_exp now margin =
      ground (
        arith,
        +ℤ_parts now conf.access_token_expire,
        -ℤ_parts (now +ℤ conf.access_token_expire) now,
      )

  early_exp :
      (e : ℤ) → leb_ℤ e conf.access_token_renew ≡ false → ltb_ℤ conf.access_token_renew e ≡ true
  early_exp e h = ground arith

  -- The cookies of the renewed session, or none.
  abbrev pub new_cookies : Profile → ℤ → List (String × String)
  new_cookies profile now =
      if leb_ℤ (profile.exp -ℤ now) conf.access_token_renew
      then (conf.session_name, jwt.encode (held profile now))
        ∷ ("time_expired", conf.str_of_int (now +ℤ conf.access_token_expire))
        ∷ []
      else []

  -- The session that is held is the one of the profile, with more than the margin left.
  abbrev pub Lasting : Profile → ℤ → Payload → Type 0
  Lasting profile now payload =
      (ltb_ℤ conf.access_token_renew (payload.exp -ℤ now) ≡ true)
      × (payload.keystone_token ≡ profile.keystone_token)
      × (payload.region ≡ profile.region)
      × (payload.uuid ≡ profile.uuid)

  held-Lasting :
      (profile : Profile) (now : ℤ)
      → ltb_ℤ conf.access_token_renew conf.access_token_expire ≡ true
      → Lasting profile now (held profile now)
  held-Lasting profile now margin =
      let outcome : Bool → Type 0 = λ b.
        Lasting profile now
          (or_own profile (if b then some (renewed keystone conf jwt profile now) else none)) in
      elim (Bool-cases (leb_ℤ (profile.exp -ℤ now) conf.access_token_renew)) [
        | inl due ↦ subst outcome (sym due) (renewed_exp now margin, refl, refl, refl)
        | inr early ↦ subst outcome (sym early) (early_exp _ early, refl, refl, refl)
      ]

  with_renewal-state_of :
      (response : Response) (profile : Profile) (now : ℤ)
      → with_renewal keystone conf jwt (state_of keystone conf jwt profile now).renewal response
        ≡ record response { cookies = response.cookies ++ new_cookies profile now }
  with_renewal-state_of response profile now =
      let outcome : Bool → Type 0 = λ b.
        let payload = if b then some (renewed keystone conf jwt profile now) else none in
        with_renewal keystone conf jwt (map_option (renewal_cookies keystone conf jwt) payload)
          response
        ≡ record response {
          cookies =
              response.cookies
              ++ (if b
                  then (conf.session_name, jwt.encode (or_own profile payload))
                    ∷ ("time_expired", conf.str_of_int (now +ℤ conf.access_token_expire))
                    ∷ []
                  else []);
        } in
      elim (Bool-cases (leb_ℤ (profile.exp -ℤ now) conf.access_token_renew)) [
        | inl due ↦ subst outcome (sym due) refl
        | inr early ↦
            subst outcome (sym early)
              (ap (λ cs. record response { cookies = cs }) (sym (append-nil response.cookies)))
      ]

  -- A request with a cookie that is accepted, whose handler answers: where a new session lives longer
  -- than the margin for renewal, the answer is the handler's, with the cookies of a new session added
  -- exactly where that margin or less was left of the old one. The session that the browser then
  -- holds, the new one or its own, has more than the margin left when the cookie is checked, and
  -- belongs to the same token of Keystone, the same region and the same identifier.
  pub held_lem :
      (request : Request) (cookie : String) (call_next : State → M Response) (w w' : World)
      (token : Payload) (profile : Profile) (response : Response)
      → ltb_ℤ conf.access_token_renew conf.access_token_expire ≡ true
      → is_ignored request.path ≡ false
      → request.cookie ≡ some cookie
      → (cookie == "") ≡ false
      → Accepted keystone conf jwt cookie w token profile
      → call_next (state_of keystone conf jwt profile w.clock) w ≡ (ok response, w')
      → (validate_token keystone conf jwt request call_next w ≡ (
        ok (record response { cookies = response.cookies ++ new_cookies profile w.clock }),
        w',
      ))
        × Lasting profile w.clock (held profile w.clock)
  unfolding validate_token proceed steps
  held_lem request cookie call_next w w' token profile response margin path sent full accepted
        answered =
      let state : State = state_of keystone conf jwt profile w.clock in
      (
        rw (path, sent, full)
            (ap (λ r. next r (after call_next))
                (check_cookie-Accepted keystone conf jwt cookie w token profile accepted)
              ∙ ap (λ r. next r (λ x. pure (with_renewal keystone conf jwt state.renewal x)))
                  answered
              ∙ ap (λ x. (ok x, w')) (with_renewal-state_of response profile w.clock)),
        held-Lasting profile w.clock margin,
      )
