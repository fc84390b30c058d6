-- ===== src/Login.antt =====
-- api/v1/login.py: logging in by a password or by a token, the profile, switching the project, and
-- logging out. What the browser is sent is a value and cookies.
pub mod Logout
pub mod Reading
pub mod Entering
pub mod Outcomes
mod Samples
mod Tests
use Prim.Native.String
use skyline_apiserver_extens.Common.{
  String, Bool, true, false, Option, none, some, List, [], ◌∷◌, ◌==◌, eqb, contains, filter, map,
  if◌then◌else◌,
}
use skyline_apiserver_extens.Common.Dict.{Dict, insert}
use skyline_apiserver_extens.Runtime.{Exn, http, other, Result}
use skyline_apiserver_extens.Db
use skyline_apiserver_extens.World.{
  World, revoke_keystone_token, M, ◌>>=◌, ◌>>◌, pure, raise, lift, execute, ask, request,
  try_except,
}
use skyline_apiserver_extens.Profile.{Profile}
use skyline_apiserver_extens.Keystone.{
  Keystone, ProjectScope, project_scope_of, get_project_scope_token, get_endpoints, get_projects,
}
use skyline_apiserver_extens.Activity.{Sessions, client_status, create_activity}
use skyline_apiserver_extens.Session.{
  Jwt, SessionConf, Response, to_payload, text_or, generate_profile, generate_profile_by_token,
  parse_access_token, get_profile_from_header,
}

-- `Credential` of schemas/login.py
pub record Credential : Type 0 where
  pub region : Option String
  pub domain : String
  pub username : String
  pub password : String

-- `LogoutBody`
pub record LogoutBody : Type 0 where
  pub keystone_token : Option String
  pub region : Option String

-- `SSO`: the protocols with their URLs
pub record Sso : Type 0 where
  pub enable_sso : Bool
  pub protocols : List (String × String)

-- What `get_sso` reads: the configuration, `ks_url` and `base_path`, and the request's host and port.
pub record SsoConf : Type 0 where
  pub sso_enabled : Bool
  pub ssl_enabled : Bool
  pub sso_protocols : List String
  pub ks_url : String
  pub base_path : String
  pub hostname : String
  pub port : Option String

-- the URL of a protocol
abbrev pub sso_url : SsoConf → String → String
sso_url conf protocol =
    let scheme : String = if conf.ssl_enabled then "https" else "http" in
    let port : String = elim conf.port [ none ↦ "" | some p ↦ String.◌++◌ ":" p ] in
    let base_url : String =
      String.◌++◌ scheme (String.◌++◌ "://" (String.◌++◌ conf.hostname port)) in
    String.◌++◌ conf.ks_url (
      String.◌++◌ "/auth/OS-FEDERATION/websso/" (
        String.◌++◌ protocol (
          String.◌++◌ "?origin="
            (String.◌++◌ base_url (String.◌++◌ conf.base_path "/api/v1/websso")))))

unfoldable pub get_sso : SsoConf → Sso
get_sso conf =
    if conf.sso_enabled
    then record { enable_sso = true; protocols = map (λ p. (p, sso_url conf p)) conf.sso_protocols }
    else record { enable_sso = false; protocols = [] }

-- A profile with the fields that `_patch_profile` fills.
pub record Patched : Type 0 where
  pub profile : Profile
  pub endpoints : Dict String
  pub projects : Dict ProjectScope
  pub default_project_id : Option String

abbrev pub Cookies : Type 0
Cookies = List (String × String)

-- `if text:`, where it may be None
abbrev pub given : Option String → Option String
given none = none
given (some s) = if s == "" then none else some s

-- `{i.id: … for i in projects}`
abbrev by_id : List ProjectScope → Dict ProjectScope → Dict ProjectScope
by_id [] d = d
by_id (p ∷ ps) d = by_id ps (insert p.id p d)

-- `project_scope[0].id`; none where the list is empty, which is an IndexError
abbrev pub first_id : List ProjectScope → Option String
first_id [] = none
first_id (p ∷ _) = some p.id

abbrev pub preferred : Option String → List ProjectScope → Option String
preferred none scopes = first_id scopes
preferred (some id) scopes =
    if contains id (map (λ p. p.id) scopes) then some id else first_id scopes

-- `default_project_id or project_scope[0].id`, after `default_project_id` is dropped where it is not
-- the id of a project
unfoldable pub choose_project : Option String → List ProjectScope → Option String
choose_project default_project_id scopes = preferred (given default_project_id) scopes

abbrev pub or_index_error : Option String → M String
or_index_error none = raise (other "IndexError")
or_index_error (some id) = pure id

abbrev pub assert_not_empty : List ProjectScope → M (Unit {0})
assert_not_empty [] = raise (other "Exception")
assert_not_empty (_ ∷ _) = pure tt

module _ (keystone : Keystone) (conf : SessionConf) (jwt : Jwt) (sessions : Sessions) where
  -- the end of `_get_default_project_id`
  unfoldable pub default_project_of : String → String → M (Option String)
  default_project_of system_token user_id = do
    resp ← ask (λ w.
        keystone.get_users w (String.◌++◌ keystone.base_url (String.◌++◌ "/users/" user_id))
          system_token)
    if eqb resp.status_code 200
        then (lift resp.json >>= λ user. pure user.default_project_id)
        else pure none

  -- `_get_default_project_id`, with the token of the session
  unfoldable pub get_default_project_id :
      (World → Result String) → Option String → M (Option String)
  get_default_project_id get_token user_id = do
    ask keystone.get_system_session
    system_token ← ask keystone.system_token
    elim (given user_id) [
      | some id ↦ default_project_of system_token id
      | none ↦ (do
        token ← ask get_token
        resp ← ask (λ w.
            keystone.get_tokens w (String.◌++◌ keystone.base_url "/auth/tokens") system_token token)
        if eqb resp.status_code 200
            then (lift resp.json >>= λ info. default_project_of system_token info.user_id)
            else pure none)
    ]

  -- `/auth/projects`, and then `/projects`
  unfoldable pub projects_of_token : String → M (List ProjectScope)
  projects_of_token token = do
    first ←
        ask (λ w. keystone.get_projects w (String.◌++◌ keystone.base_url "/auth/projects") token)
    resp ←
        (if eqb first.status_code 200 then pure first else (do
          second ←
              ask (λ w. keystone.get_projects w (String.◌++◌ keystone.base_url "/projects") token)
          if eqb second.status_code 200 then pure second else raise (other "Exception")))
    found ← lift resp.json
    pure (map project_scope_of found)

  -- `_get_projects_and_unscope_token`
  unfoldable pub get_projects_and_unscope_token :
      Option String
      → Option String
      → Option String
      → Option String
      → Bool
      → M (List ProjectScope × String × Option String)
  get_projects_and_unscope_token domain username password token project_enabled =
      let get_token : World → Result String = elim (given token) [
        | none ↦ (λ w. keystone.password_token w domain username password)
        | some t ↦ (λ w. keystone.token_token w t)
      ] in
      let unscope : M String = elim (given token) [ none ↦ ask get_token | some t ↦ pure t ] in
      (do
        unscope_token ← unscope
        found ← projects_of_token unscope_token
        again ← unscope
        let project_scope : List ProjectScope =
            if project_enabled then filter (λ p. p.enabled) found else found
        assert_not_empty project_scope
        default_project_id ← get_default_project_id get_token none
        pure (project_scope, again, default_project_id))

  -- the projects of a profile, and the default one
  unfoldable pub profile_projects :
      Profile → List ProjectScope → M (List ProjectScope × Option String)
  profile_projects profile [] = do
    found ← get_projects_and_unscope_token none none none (some profile.keystone_token) false
    pure (found.0, found.2)
  profile_projects profile (p ∷ projects) = do
    ask keystone.get_system_session
    id ← get_default_project_id keystone.system_token (some profile.user.id)
    pure (p ∷ projects, id)

  -- `_patch_profile`
  unfoldable pub patch_profile : Profile → M Patched
  patch_profile profile =
      try_except
        (do
          endpoints ← get_endpoints keystone profile.region
          projects ← get_projects keystone profile.user.id
          found ← profile_projects profile projects
          pure (record {
            profile = profile;
            endpoints = endpoints;
            projects = by_id found.0 [];
            default_project_id = found.1;
          }))
        (λ _. raise (http 401 "Authentication failed"))

  -- the part of a log in that `except Exception` covers
  unfoldable pub enter :
      String → Option String → Option String → Option String → Option String → M Patched
  unfolding choose_project
  enter region domain username password token = do
    found ← get_projects_and_unscope_token domain username password token true
    project_id ← or_index_error (choose_project found.2 found.0)
    project_scope_token ← get_project_scope_token keystone found.1 project_id
    profile ← generate_profile keystone conf jwt project_scope_token region none none
    patch_profile profile

  -- the two `set_cookie`
  abbrev pub session_cookies : Profile → Cookies
  session_cookies profile =
      (conf.session_name, jwt.encode (to_payload profile))
      ∷ ("time_expired", conf.str_of_int profile.exp)
      ∷ []

  unfoldable pub login : Credential → M (Patched × Cookies)
  login credential = do
    patched ←
        try_except
          (enter (text_or credential.region conf.default_region) (some credential.domain)
            (some credential.username) (some credential.password) none)
          (λ _. raise (http 401 "Invalid credentials or unauthorized"))
    ask (λ w. sessions.generate_session w patched.profile)
    create_activity sessions patched.profile "login"
        (String.◌++◌ "User " (String.◌++◌ patched.profile.user.name " logged in successfully."))
        "success"
    pure (patched, session_cookies patched.profile)

  -- `websso`, in the region `CONF.openstack.sso_region`; the cookies of its redirection
  unfoldable pub websso : String → String → M Cookies
  websso sso_region token = do
    patched ←
        try_except (enter sso_region none none none (some token))
          (λ _. raise (http 401 "SSO authentication failed"))
    pure (session_cookies patched.profile)

  unfoldable pub switch_project : String → Profile → M (Patched × Cookies)
  switch_project project_id profile = do
    patched ←
        try_except
          (do
            token ← get_project_scope_token keystone profile.keystone_token project_id
            new_profile ← generate_profile keystone conf jwt token profile.region none none
            patch_profile new_profile)
          (λ _. raise (http 401 "Project switch failed"))
    pure (patched, session_cookies patched.profile)

  -- `revoke_token` of client/openstack/keystone.py
  unfoldable pub revoke_token : String → M (Unit {0})
  revoke_token token =
      try_except (request sessions.answer (revoke_keystone_token token))
        (λ e. raise (http (client_status e) (sessions.str_of e)))

  -- the first `try` of `logout`
  unfoldable pub end_session : String → M (Unit {0})
  end_session payload = do
    token ← parse_access_token keystone conf jwt payload
    profile ← generate_profile_by_token keystone conf jwt token
    ask (λ w. sessions.generate_session w profile)
    revoke_token token.keystone_token
    execute (Db.revoke_token profile.uuid profile.exp)
    create_activity sessions profile "logout"
        (String.◌++◌ "User " (String.◌++◌ profile.user.name " logged out successfully.")) "success"

  -- its second `try`
  unfoldable pub drop_token : String → LogoutBody → M (Unit {0})
  drop_token token body = do
    ask keystone.get_system_session
    ask (λ w. sessions.get_endpoint w (text_or body.region conf.default_region))
    ask (λ w. sessions.invalidate w token)

  -- `elif body and body.keystone_token`
  unfoldable pub drop_body : Option LogoutBody → M (Unit {0})
  drop_body none = pure tt
  drop_body (some body) = elim (given body.keystone_token) [
    | none ↦ pure tt
    | some token ↦ try_except (drop_token token body) (λ _. pure tt)
  ]

  unfoldable pub close : Option LogoutBody → Option String → M (Unit {0})
  unfolding drop_body
  close body payload = elim (given payload) [
    | some p ↦ try_except (end_session p) (λ _. pure tt)
    | none ↦ drop_body body
  ]

  unfoldable pub logout : Option LogoutBody → Option String → M Response
  logout body payload = do
    close body payload
    pure
        (record { status_code = 200; detail = "Logout OK"; cookies = (conf.session_name, "") ∷ [] })

  -- the handler of `/profile`
  unfoldable pub get_profile : Option String → M Patched
  get_profile authorization = do
    profile ← get_profile_from_header keystone conf jwt authorization
    patch_profile profile
