-- ===== src/Keystone.antt =====
-- Keystone as client/openstack/keystone.py and system.py ask it, over HTTP. `Keystone` holds what
-- the service and the session library answer; a body in JSON has the fields that the code reads.
use Prim.Native.String
use skyline_apiserver_extens.Common.{
  ℕ, String, Bool, true, Option, none, some, List, [], ◌∷◌, eqb, if◌then◌else◌, map, contains,
}
use skyline_apiserver_extens.Common.Dict.{Dict, lookup, insert}
use skyline_apiserver_extens.Runtime.{other, Result, ok, err}
use skyline_apiserver_extens.World.{World, M, ◌>>=◌, ◌>>◌, pure, raise, lift, ask}
use skyline_apiserver_extens.Profile.{Domain, Role, Project}

-- `httpx.Response`
pub record Reply (A : Type 0) : Type 0 where
  pub status_code : ℕ
  pub text : String
  pub json : Result A

-- `token_data["token"]`; an unscoped token has no project
pub record TokenData : Type 0 where
  pub user_id : String
  pub user_domain : Domain
  pub project : Option Project
  pub roles : List Role

-- `resp.json().get("user", {})`
pub record UserData : Type 0 where
  pub id : Option String
  pub name : Option String
  pub email : Option String
  pub default_project_id : Option String

pub record ProjectData : Type 0 where
  pub id : String
  pub name : String
  pub enabled : Option Bool
  pub domain_id : Option String
  pub description : Option String

-- the `SimpleNamespace` of a project
pub record ProjectScope : Type 0 where
  pub id : String
  pub name : String
  pub enabled : Bool
  pub domain_id : Option String
  pub description : String

pub record Keystone : Type 0 where
  -- `CONF.openstack.keystone_url.rstrip("/")`
  pub base_url : String
  -- `CONF.openstack.service_mapping`, `extension_mapping`
  pub service_mapping : Dict String
  pub extension_mapping : Dict String
  -- `str(PurePath("/").joinpath(nginx_prefix, region.lower(), service))`
  pub path_of : String → String → String
  -- `get_system_session()`, and the token of that session
  pub get_system_session : World → Result (Unit {0})
  pub system_token : World → Result String
  -- the tokens of sessions by domain, name and password, by a token, and by a token and a project
  pub password_token : World → Option String → Option String → Option String → Result String
  pub token_token : World → String → Result String
  pub scoped_token : World → String → String → Result String
  -- GET of a URL by a token; the first also has a subject
  pub get_tokens : World → String → String → String → Result (Reply TokenData)
  pub get_users : World → String → String → Result (Reply UserData)
  pub get_projects : World → String → String → Result (Reply (List ProjectData))
  -- the types of the services in a region's catalog that have an endpoint, the aliases of Neutron
  pub catalog : World → String → Result (List String)
  pub list_extensions : World → String → Result (List String)

abbrev or_default {ℓ} : {A : Type ℓ} → Option A → A → A
or_default none a = a
or_default (some b) a = b

-- `SimpleNamespace(id=p["id"], …, enabled=p.get("enabled", True), …)`
abbrev pub project_scope_of : ProjectData → ProjectScope
project_scope_of p = record {
  id = p.id;
  name = p.name;
  enabled = or_default p.enabled true;
  domain_id = p.domain_id;
  description = or_default p.description "";
}

-- the loop over the catalog
unfoldable pub map_services : Keystone → String → List String → Dict String → Dict String
map_services keystone region [] endpoints = endpoints
map_services keystone region (t ∷ ts) endpoints = elim (lookup t keystone.service_mapping) [
  | none ↦ map_services keystone region ts endpoints
  | some service ↦
      map_services keystone region ts (insert service (keystone.path_of region service) endpoints)
]

-- the loop over the extensions
unfoldable pub map_extensions : Dict String → List String → Dict String → Result (Dict String)
map_extensions [] aliases endpoints = ok endpoints
map_extensions ((alias, name) ∷ rest) aliases endpoints =
    if contains alias aliases
    then (elim (lookup "neutron" endpoints) [
      | none ↦ err (other "KeyError")
      | some path ↦ map_extensions rest aliases (insert name path endpoints)
    ])
    else map_extensions rest aliases endpoints

module _ (keystone : Keystone) where
  -- keystone.py
  unfoldable pub get_token_data : String → M TokenData
  get_token_data token = do
    auth_token ← ask keystone.system_token
    resp ←
        ask (λ w.
          keystone.get_tokens w (String.◌++◌ keystone.base_url "/auth/tokens") auth_token token)
    if eqb resp.status_code 200 then lift resp.json else raise (other "Exception")

  unfoldable pub get_user : String → M UserData
  get_user id = do
    auth_token ← ask keystone.system_token
    resp ← ask (λ w.
        keystone.get_users w (String.◌++◌ keystone.base_url (String.◌++◌ "/users/" id)) auth_token)
    if eqb resp.status_code 200 then lift resp.json else raise (other "Exception")

  -- system.py
  unfoldable pub get_project_scope_token : String → String → M String
  get_project_scope_token keystone_token project_id =
      ask (λ w. keystone.scoped_token w keystone_token project_id)

  unfoldable pub get_endpoints : String → M (Dict String)
  unfolding map_services map_extensions
  get_endpoints region = do
    types ← ask (λ w. keystone.catalog w region)
    aliases ← ask (λ w. keystone.list_extensions w region)
    lift (map_extensions keystone.extension_mapping aliases (map_services keystone region types []))

  unfoldable pub get_projects : String → M (List ProjectScope)
  get_projects user = do
    ask keystone.get_system_session
    auth_token ← ask keystone.system_token
    resp ← ask (λ w.
        keystone.get_projects w
          (String.◌++◌ keystone.base_url (String.◌++◌ "/users/" (String.◌++◌ user "/projects")))
          auth_token)
    if eqb resp.status_code 200
        then (lift resp.json >>= λ data_of. pure (map project_scope_of data_of))
        else pure []
