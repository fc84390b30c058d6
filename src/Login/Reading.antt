-- ===== src/Login/Reading.antt =====
-- Logging in changes nothing before its activity is recorded.
use skyline_apiserver_extens.Common.{String, Bool, Option, none, some, List, [], ◌∷◌, eqb}
use skyline_apiserver_extens.Runtime.{Result}
use skyline_apiserver_extens.World.{World, M, ask, pure}
use skyline_apiserver_extens.World.Reads.{
  Reads, Reads-lift, Reads-ask, Reads-pure, Reads-raise, Reads-if, Reads-try, Reads-bind,
  Reads-then, Reads-option,
}
use skyline_apiserver_extens.Profile.{Profile}
use skyline_apiserver_extens.Keystone.{
  Keystone, ProjectScope, get_project_scope_token, get_endpoints, get_projects,
}
use skyline_apiserver_extens.Activity.{Sessions}
use skyline_apiserver_extens.Session.{Jwt, SessionConf}
use skyline_apiserver_extens.Session.Reading.{asks-Reads, generate_profile-Reads}
use skyline_apiserver_extens.Login.{
  given, or_index_error, assert_not_empty, default_project_of, get_default_project_id,
  projects_of_token, get_projects_and_unscope_token, profile_projects, patch_profile, enter,
}

pub or_index_error-Reads : (id : Option String) → Reads (or_index_error id)
or_index_error-Reads none = Reads-raise _
or_index_error-Reads (some id) = Reads-pure id

pub assert_not_empty-Reads : (scopes : List ProjectScope) → Reads (assert_not_empty scopes)
assert_not_empty-Reads [] = Reads-raise _
assert_not_empty-Reads (_ ∷ _) = Reads-pure tt

module _ (keystone : Keystone) where
  pub get_endpoints-Reads : (region : String) → Reads (get_endpoints keystone region)
  unfolding get_endpoints
  get_endpoints-Reads region =
      Reads-bind (Reads-ask _) (λ types. Reads-bind (Reads-ask _) (λ aliases. Reads-lift _))

  pub get_projects-Reads : (user : String) → Reads (get_projects keystone user)
  unfolding get_projects
  get_projects-Reads user = Reads-then (Reads-ask _) (
      asks-Reads keystone _ (λ r.
        Reads-if (eqb r.status_code 200) (Reads-bind (Reads-lift _) (λ d. Reads-pure _))
          (Reads-pure _)))

  pub get_project_scope_token-Reads :
      (token id : String) → Reads (get_project_scope_token keystone token id)
  unfolding get_project_scope_token
  get_project_scope_token-Reads token id = Reads-ask _

  module _ (conf : SessionConf) (jwt : Jwt) (sessions : Sessions) where
    default_project_of-Reads :
        (token id : String) → Reads (default_project_of keystone conf jwt sessions token id)
    unfolding default_project_of
    default_project_of-Reads token id = Reads-bind (Reads-ask _) (λ r.
        Reads-if (eqb r.status_code 200) (Reads-bind (Reads-lift _) (λ u. Reads-pure _))
          (Reads-pure _))

    pub get_default_project_id-Reads :
        (get_token : World → Result String) (user_id : Option String)
        → Reads (get_default_project_id keystone conf jwt sessions get_token user_id)
    unfolding get_default_project_id
    get_default_project_id-Reads get_token user_id = Reads-then (Reads-ask _) (
        Reads-bind (Reads-ask _) (λ t.
          Reads-option (given user_id)
            (Reads-bind (Reads-ask _) (λ s. Reads-bind (Reads-ask _) (λ r.
              Reads-if (eqb r.status_code 200)
                (Reads-bind (Reads-lift _) (λ i. default_project_of-Reads t i.user_id))
                (Reads-pure _))))
            (λ id. default_project_of-Reads t id)))

    pub projects_of_token-Reads :
        (token : String) → Reads (projects_of_token keystone conf jwt sessions token)
    unfolding projects_of_token
    projects_of_token-Reads token = Reads-bind (Reads-ask _) (λ first.
        Reads-bind
          (Reads-if (eqb first.status_code 200) (Reads-pure _) (
            Reads-bind (Reads-ask _)
              (λ s. Reads-if (eqb s.status_code 200) (Reads-pure _) (Reads-raise _))))
          (λ r. Reads-bind (Reads-lift _) (λ found. Reads-pure _)))

    pub unscope-Reads :
        (token : Option String) (get_token : World → Result String)
        → Reads (elim token as (λ _. M String) [ none ↦ ask get_token | some t ↦ pure t ])
    unscope-Reads token get_token = Reads-option token (Reads-ask _) (λ t. Reads-pure t)

    pub get_projects_and_unscope_token-Reads :
        (domain username password token : Option String) (enabled : Bool)
        → Reads (
            get_projects_and_unscope_token keystone conf jwt sessions domain username password token
              enabled)
    unfolding get_projects_and_unscope_token
    get_projects_and_unscope_token-Reads domain username password token enabled =
        Reads-bind (unscope-Reads (given token) _) (λ t.
          Reads-bind (projects_of_token-Reads t) (λ found.
            Reads-bind (unscope-Reads (given token) _) (λ again.
              Reads-then (assert_not_empty-Reads _)
                (Reads-bind (get_default_project_id-Reads _ none) (λ id. Reads-pure _)))))

    pub profile_projects-Reads :
        (profile : Profile) (projects : List ProjectScope)
        → Reads (profile_projects keystone conf jwt sessions profile projects)
    unfolding profile_projects
    profile_projects-Reads profile [] =
        Reads-bind (get_projects_and_unscope_token-Reads _ _ _ _ _) (λ found. Reads-pure _)
    profile_projects-Reads profile (p ∷ projects) =
        Reads-then (Reads-ask _)
          (Reads-bind (get_default_project_id-Reads _ _) (λ id. Reads-pure _))

    pub patch_profile-Reads :
        (profile : Profile) → Reads (patch_profile keystone conf jwt sessions profile)
    unfolding patch_profile
    patch_profile-Reads profile =
        Reads-try
          (Reads-bind (get_endpoints-Reads profile.region) (λ endpoints.
            Reads-bind (get_projects-Reads profile.user.id) (λ projects.
              Reads-bind (profile_projects-Reads profile projects) (λ found. Reads-pure _))))
          (λ _. Reads-raise _)

    pub enter-Reads :
        (region : String) (domain username password token : Option String)
        → Reads (enter keystone conf jwt sessions region domain username password token)
    unfolding enter
    enter-Reads region domain username password token =
        Reads-bind (get_projects_and_unscope_token-Reads _ _ _ _ _) (λ found.
          Reads-bind (or_index_error-Reads _) (λ id.
            Reads-bind (get_project_scope_token-Reads _ _) (λ t.
              Reads-bind (generate_profile-Reads keystone conf jwt t region none none)
                (λ profile. patch_profile-Reads profile))))
