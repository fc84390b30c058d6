-- ===== src/Login/Entering.antt =====
-- Which project a log in is for, and what it leaves behind.
use skyline_apiserver_extens.Common.{
  String, ◌≡◌, sym, ap, ◌∙◌, subst, Bool, true, ◌&&◌, Bool-cases, Option, none, some,
  some-injective, List, [], ◌∷◌, ◌==◌, eq_iff, contains, filter, any, map, if◌then◌else◌, arith,
  inl, inr,
}
use skyline_apiserver_extens.Runtime.{Result, ok, err, ok-injective}
use skyline_apiserver_extens.World.{World, steps, ◌>>◌, pure, ask}
use skyline_apiserver_extens.World.Reads.{bind-ok, try-ok}
use skyline_apiserver_extens.Profile.{Profile}
use skyline_apiserver_extens.Keystone.{Keystone, ProjectScope, get_project_scope_token}
use skyline_apiserver_extens.Activity.{Sessions}
use skyline_apiserver_extens.Session.{Jwt, SessionConf}
use skyline_apiserver_extens.Session.Reading.{generate_profile-Reads}
use skyline_apiserver_extens.Session.Accepts.{generate_profile-from}
use skyline_apiserver_extens.Login.Reading.{
  unscope-Reads, projects_of_token-Reads, assert_not_empty-Reads, get_default_project_id-Reads,
  get_projects_and_unscope_token-Reads, get_project_scope_token-Reads, or_index_error-Reads,
  get_endpoints-Reads, get_projects-Reads, profile_projects-Reads,
}
use skyline_apiserver_extens.Login.{
  Patched, given, first_id, preferred, choose_project, or_index_error,
  get_projects_and_unscope_token, patch_profile, enter,
}

-- An enabled project with that id.
abbrev pub is_enabled : String → ProjectScope → Bool
is_enabled id p = p.enabled && (id == p.id)

scopes_of : Result (List ProjectScope × String × Option String) → List ProjectScope
scopes_of (ok found) = found.0
scopes_of (err _) = []

contains-first_id :
    (ps : List ProjectScope) (id : String)
    → first_id ps ≡ some id
    → contains id (map (λ p. p.id) ps) ≡ true
contains-first_id [] id h = cc
contains-first_id (p ∷ ps) id h = ground (arith, eq_iff id p.id)

contains-preferred :
    (default : Option String) (ps : List ProjectScope) (id : String)
    → preferred default ps ≡ some id
    → contains id (map (λ p. p.id) ps) ≡ true
contains-preferred none ps id h = contains-first_id ps id h
contains-preferred (some d) ps id h = elim (Bool-cases (contains d (map (λ p. p.id) ps))) [
  | inl own ↦
      subst (λ x. contains x (map (λ p. p.id) ps) ≡ true)
        (some-injective (ap (λ b. if b then some d else first_id ps) (sym own) ∙ h)) own
  | inr other ↦
      contains-first_id ps id (ap (λ b. if b then some d else first_id ps) (sym other) ∙ h)
]

choose_project-contains :
    (default : Option String) (ps : List ProjectScope) (id : String)
    → choose_project default ps ≡ some id
    → contains id (map (λ p. p.id) ps) ≡ true
unfolding choose_project
choose_project-contains default ps id h = contains-preferred (given default) ps id h

contains-enabled :
    (ps : List ProjectScope) (id : String)
    → contains id (map (λ p. p.id) (filter (λ p. p.enabled) ps)) ≡ true
    → any (is_enabled id) (filter (λ p. p.enabled) ps) ≡ true
contains-enabled [] id h = h
contains-enabled (p ∷ ps) id h = ground (arith, contains-enabled ps id)

module _ (keystone : Keystone) (conf : SessionConf) (jwt : Jwt) (sessions : Sessions) where
  -- The projects that a log in may choose from are enabled.
  get_projects-enabled :
      (domain username password token : Option String) (w : World)
      (found : List ProjectScope × String × Option String)
      → (get_projects_and_unscope_token keystone conf jwt sessions domain username password token
          true w).0
        ≡ ok found
      → (ps : List ProjectScope) × (found.0 ≡ filter (λ p. p.enabled) ps)
  unfolding get_projects_and_unscope_token ◌>>◌ pure scopes_of
  get_projects-enabled domain username password token w found h =
      let a = bind-ok (unscope-Reads keystone conf jwt sessions (given token) _) _ w found h in
      let b = bind-ok (projects_of_token-Reads keystone conf jwt sessions a.0) _ w found a.2 in
      let c = bind-ok (unscope-Reads keystone conf jwt sessions (given token) _) _ w found b.2 in
      let d = bind-ok (assert_not_empty-Reads (filter (λ p. p.enabled) b.0)) _ w found c.2 in
      let e =
        bind-ok (get_default_project_id-Reads keystone conf jwt sessions _ none) _ w found d.2 in
      (b.0, ap (λ r. scopes_of r) (sym e.2))

  -- A project that was found enabled, and the token of Keystone for it.
  abbrev pub Scoped :
      Option String → Option String → Option String → Option String → World → Patched → Type 0
  Scoped domain username password token w patched =
      (found : List ProjectScope × String × Option String) × (id : String)
      × ((get_projects_and_unscope_token keystone conf jwt sessions domain username password token
            true w).0
          ≡ ok found)
      × (any (is_enabled id) found.0 ≡ true)
      × (keystone.scoped_token w found.1 id ≡ ok patched.profile.keystone_token)

  or_index_error-some :
      (o : Option String) (w : World) (id : String) → (or_index_error o w).0 ≡ ok id → o ≡ some id
  unfolding steps
  or_index_error-some none w id h = cc
  or_index_error-some (some x) w id h = ap some (ok-injective h)

  pub patch_profile-profile :
      (profile : Profile) (w : World) (patched : Patched)
      → (patch_profile keystone conf jwt sessions profile w).0 ≡ ok patched
      → patched.profile ≡ profile
  unfolding patch_profile pure
  patch_profile-profile profile w patched h =
      let a =
        bind-ok (get_endpoints-Reads keystone profile.region) _ w patched
          (try-ok _ _ w patched h) in
      let b = bind-ok (get_projects-Reads keystone profile.user.id) _ w patched a.2 in
      let c =
        bind-ok (profile_projects-Reads keystone conf jwt sessions profile b.0) _ w patched b.2 in
      ap (λ p. p.profile) (sym (ok-injective c.2))

  -- Whoever logs in is given a token for a project that was found enabled.
  pub enter-Scoped :
      (region : String) (domain username password token : Option String) (w : World)
      (patched : Patched)
      → (enter keystone conf jwt sessions region domain username password token w).0 ≡ ok patched
      → Scoped domain username password token w patched
  unfolding enter get_project_scope_token ask
  enter-Scoped region domain username password token w patched h =
      let a =
        bind-ok
          (get_projects_and_unscope_token-Reads keystone conf jwt sessions domain username password
            token true)
          _ w patched h in
      let b = bind-ok (or_index_error-Reads (choose_project a.0.2 a.0.0)) _ w patched a.2 in
      let c = bind-ok (get_project_scope_token-Reads keystone a.0.1 b.0) _ w patched b.2 in
      let d =
        bind-ok (generate_profile-Reads keystone conf jwt c.0 region none none) _ w patched c.2 in
      let own = patch_profile-profile d.0 w patched d.2 in
      let ps = get_projects-enabled domain username password token w a.0 a.1 in
      let chosen = or_index_error-some (choose_project a.0.2 a.0.0) w b.0 b.1 in
      let made = generate_profile-from keystone conf jwt c.0 region none none w d.0 d.1 in
      (
        a.0,
        b.0,
        a.1,
        subst (λ scopes. any (is_enabled b.0) scopes ≡ true) (sym ps.1)
            (contains-enabled ps.0 b.0 (
              subst (λ scopes. contains b.0 (map (λ p. p.id) scopes) ≡ true) ps.1
                (choose_project-contains a.0.2 a.0.0 b.0 chosen))),
        c.1 ∙ ap ok (sym (ap (λ p. p.keystone_token) own ∙ ap (λ p. p.keystone_token) made.2)),
      )
