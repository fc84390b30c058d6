-- ===== src/Session/Accepts.antt =====
-- What the middleware lets pass.
use skyline_apiserver_extens.Common.{
  String, ◌≡◌, refl, sym, ap, ◌∙◌, true, false, Bool-cases, Option, some, ◌==◌, ◌⊎◌, inl, inr,
  if◌then◌else◌,
}
use skyline_apiserver_extens.Common.Int.{ℤ, ◌+ℤ◌}
use skyline_apiserver_extens.Runtime.{Exn, num, truthy, Result, ok, err, ok-injective}
use skyline_apiserver_extens.Db.{check_token}
use skyline_apiserver_extens.World.{World, ◌>>=◌, time, pure, steps, handle}
use skyline_apiserver_extens.World.Reads.{Reads-lift, bind-Outcome, bind-ok, bind-value}
use skyline_apiserver_extens.Profile.{Profile, Project, User}
use skyline_apiserver_extens.Keystone.{Keystone, TokenData}
use skyline_apiserver_extens.Session.{
  Jwt, SessionConf, Payload, State, Response, refuse, unauthorized, token_error, parse_access_token,
  generate_profile, generate_profile_by_token, check_payload, check_cookie, state_of, profile_from,
  required,
}
use skyline_apiserver_extens.Session.Reading.{
  parse_access_token-Reads, token_owner-Reads, generate_profile_by_token-Reads,
}

-- A profile that continues the session of a token.
abbrev pub Continues : Payload → Profile → Type 0
Continues token profile =
    (profile.keystone_token ≡ token.keystone_token)
    × (profile.region ≡ token.region)
    × ((profile.exp ≡ token.exp) ⊎ (truthy (num token.exp) ≡ false))
    × ((profile.uuid ≡ token.uuid) ⊎ ((token.uuid == "") ≡ true))

module _ (keystone : Keystone) (conf : SessionConf) (jwt : Jwt) where
  -- What is known where a token gave a profile and was not revoked.
  abbrev pub Accepted : String → World → Payload → Profile → Type 0
  Accepted cookie w token profile =
      ((parse_access_token keystone conf jwt cookie w).0 ≡ ok token)
      × (check_token token.uuid w.db ≡ false)
      × ((generate_profile_by_token keystone conf jwt token w).0 ≡ ok profile)

  -- A profile that is generated holds what it was generated from.
  pub generate_profile-from :
      (token region : String) (exp : Option ℤ) (uuid : Option String) (w : World)
      (profile : Profile)
      → (generate_profile keystone conf jwt token region exp uuid w).0 ≡ ok profile
      → (found : TokenData × User) × (project : Project) × (profile
          ≡ profile_from keystone conf jwt token region exp uuid found w.clock
              (conf.uuid4_hex w)
              project)
  unfolding generate_profile steps
  generate_profile-from token region exp uuid w profile h =
      let owned = bind-ok (token_owner-Reads keystone conf jwt token) _ w profile h in
      let from : Project → Profile =
        profile_from keystone conf jwt token region exp uuid owned.0 w.clock (conf.uuid4_hex w) in
      let scoped =
        bind-ok (Reads-lift (required owned.0.0.project)) (λ p. pure (from p)) w profile owned.2 in
      (owned.0, scoped.0, sym (ok-injective scoped.2))

  pub generate_profile_by_token-Continues :
      (token : Payload) (profile : Profile) (w : World)
      → (generate_profile_by_token keystone conf jwt token w).0 ≡ ok profile
      → Continues token profile
  unfolding generate_profile_by_token
  generate_profile_by_token-Continues token profile w h =
      let same =
        (generate_profile-from token.keystone_token token.region (some token.exp) (some token.uuid)
          w profile h).2 in
      (
        ap (λ p. p.keystone_token) same,
        ap (λ p. p.region) same,
        elim (Bool-cases (truthy (num token.exp))) [
          | inl e ↦ inl (
              ap (λ p. p.exp) same
              ∙ ap (λ b. if b then token.exp else w.clock +ℤ conf.access_token_expire) e)
          | inr e ↦ inr e
        ],
        elim (Bool-cases (token.uuid == "")) [
          | inl e ↦ inr e
          | inr e ↦
              inl (ap (λ p. p.uuid) same ∙ ap (λ b. if b then conf.uuid4_hex w else token.uuid) e)
        ],
      )

  -- A refusal, or the profile that is accepted.
  abbrev pub Checked : String → World → Result (Response ⊎ State) × World → Type 0
  Checked cookie w r =
      ((detail : String) × (r ≡ (ok (inl (unauthorized detail)), w)))
      ⊎ ((token : Payload) × (profile : Profile) × Accepted cookie w token profile
          × (r ≡ (ok (inr (state_of keystone conf jwt profile w.clock)), w)))

  -- The same before the errors are taken.
  Raised : String → World → Result (Response ⊎ State) × World → Type 0
  Raised cookie w r = ((e : Exn) × (r ≡ (err e, w))) ⊎ Checked cookie w r

  check_payload-Raised :
      (cookie : String) (w : World) (token : Payload) (r : Result (Response ⊎ State) × World)
      → (parse_access_token keystone conf jwt cookie w).0 ≡ ok token
      → r ≡ check_payload keystone conf jwt token w
      → Raised cookie w r
  unfolding Raised check_payload steps
  check_payload-Raised cookie w token r parsed same =
      elim (Bool-cases (check_token token.uuid w.db)) [
        | inl revoked ↦ inr (inl ("The token has revoked.", same ∙ rw revoked refl))
        | inr live ↦
            elim (bind-Outcome {B = Response ⊎ State}
              (generate_profile_by_token-Reads keystone conf jwt token)
              (λ profile. time >>= λ now. pure (inr (state_of keystone conf jwt profile now))) w) [
                | inl (e, _, q) ↦ inl (e, same ∙ rw live q)
                | inr (profile, made, q) ↦
                    inr (inr (token, profile, (parsed, live, made), same ∙ rw live q))
              ]
      ]

  settled :
      (cookie : String) (w : World) (r : Result (Response ⊎ State) × World)
      → Raised cookie w r
      → Checked cookie w (handle r refuse)
  unfolding Raised steps refuse
  settled cookie w r (inl (e, q)) = inl (token_error e, ap (λ x. handle x refuse) q)
  settled cookie w r (inr (inl (detail, q))) = inl (detail, ap (λ x. handle x refuse) q)
  settled cookie w r (inr (inr (token, profile, known, q))) =
      inr (token, profile, known, ap (λ x. handle x refuse) q)

  pub check_cookie-Checked :
      (cookie : String) (w : World) → Checked cookie w (check_cookie keystone conf jwt cookie w)
  unfolding check_cookie Raised steps
  check_cookie-Checked cookie w =
      settled cookie w _
        (elim (bind-Outcome (parse_access_token-Reads keystone conf jwt cookie)
          (check_payload keystone conf jwt) w) [
            | inl (e, _, q) ↦ inl (e, q)
            | inr (token, parsed, q) ↦ check_payload-Raised cookie w token _ parsed q
          ])

  check_payload-Accepted :
      (cookie : String) (w : World) (token : Payload) (profile : Profile)
      → Accepted cookie w token profile
      → check_payload keystone conf jwt token w
        ≡ (ok (inr (state_of keystone conf jwt profile w.clock)), w)
  unfolding check_payload steps
  check_payload-Accepted cookie w token profile (parsed, live, made) = rw live (
      bind-value {B = Response ⊎ State} (generate_profile_by_token-Reads keystone conf jwt token)
        (λ p. time >>= λ now. pure (inr (state_of keystone conf jwt p now))) w profile made)

  -- The state that an accepted cookie gives.
  pub check_cookie-Accepted :
      (cookie : String) (w : World) (token : Payload) (profile : Profile)
      → Accepted cookie w token profile
      → check_cookie keystone conf jwt cookie w
        ≡ (ok (inr (state_of keystone conf jwt profile w.clock)), w)
  unfolding check_cookie refuse steps
  check_cookie-Accepted cookie w token profile known =
      ap (λ r. handle r refuse)
        (bind-value (parse_access_token-Reads keystone conf jwt cookie)
            (check_payload keystone conf jwt) w token known.0
          ∙ check_payload-Accepted cookie w token profile known)
