-- ===== src/Login/Samples.antt =====
-- A Keystone with one user and two projects, and a token for the tests.
use skyline_apiserver_extens.Common.{String, none, some, [], ◌∷◌}
use skyline_apiserver_extens.Common.Int.{pos}
use skyline_apiserver_extens.Runtime.{ok}
use skyline_apiserver_extens.Keystone.{Keystone, ProjectData, TokenData, UserData}
use skyline_apiserver_extens.Activity.{Sessions}
use skyline_apiserver_extens.Session.{Jwt, Payload, Request, SessionConf}
use skyline_apiserver_extens.Login.{Credential}
use skyline_apiserver_extens.Profile.{Profile}
use skyline_apiserver_extens.Samples.{member}

abbrev token_data : TokenData
token_data = record {
  user_id = "u1";
  user_domain = record { id = "d1"; name = "Default" };
  project = some member.project;
  roles = member.roles;
}

abbrev user_data : UserData
user_data = record {
  id = some "u1";
  name = some "user";
  email = none;
  default_project_id = some "p1";
}

abbrev project_data : String → ProjectData
project_data id = record {
  id = id;
  name = "demo";
  enabled = none;
  domain_id = none;
  description = none;
}

abbrev pub keystone : Keystone
keystone = record {
  base_url = "http://keystone/v3";
  service_mapping = ("network", "neutron") ∷ [];
  extension_mapping = ("port-forwarding", "neutron_port_forwarding") ∷ [];
  path_of = λ region service. service;
  get_system_session = λ _. ok tt;
  system_token = λ _. ok "system";
  password_token = λ _ _ _ _. ok "unscoped";
  token_token = λ _ t. ok t;
  scoped_token = λ _ _ _. ok "scoped";
  get_tokens = λ _ _ _ _. ok (record { status_code = 200; text = ""; json = ok token_data });
  get_users = λ _ _ _. ok (record { status_code = 200; text = ""; json = ok user_data });
  get_projects = λ _ _ _. ok (record {
    status_code = 200;
    text = "";
    json = ok (project_data "p0" ∷ project_data "p1" ∷ []);
  });
  catalog = λ _ _. ok ("network" ∷ []);
  list_extensions = λ _ _. ok ("port-forwarding" ∷ []);
}

abbrev pub conf : SessionConf
conf = record {
  access_token_expire = pos 3600;
  access_token_renew = pos 1800;
  default_region = "RegionOne";
  session_name = "session";
  str_of = λ _. "error";
  str_of_int = λ _. "1003600";
  uuid4_hex = λ _. "fresh";
}

-- a session that ends 1000 seconds after the time of the world
abbrev pub payload : Payload
payload = record { keystone_token = "scoped"; region = "RegionOne"; exp = pos 1001000; uuid = "t7" }

abbrev pub jwt : Jwt
jwt = record {
  decode = λ _ _. ok (record {
    keystone_token = some "scoped";
    region = some "RegionOne";
    exp = some (pos 1001000);
    uuid = some "t7";
  });
  encode = λ p. p.uuid;
}

abbrev pub sessions : Sessions
sessions = record {
  generate_session = λ _ _. ok tt;
  get_token = λ _ _. ok "scoped";
  get_user_id = λ _ _. ok "u1";
  get_project_id = λ _ _. ok "p1";
  answer = λ _ _. ok tt;
  get_endpoint = λ _ _. ok "http://keystone";
  invalidate = λ _ _. ok tt;
  str_of = λ _. "error";
}

-- the profile that the session above stands for
abbrev pub profile : Profile
profile = record {
  keystone_token = "scoped";
  region = "RegionOne";
  exp = pos 1001000;
  uuid = "t7";
  project = member.project;
  user = record {
    id = "u1";
    name = "user";
    domain = record { id = "d1"; name = "Default" };
    email = none;
  };
  roles = member.roles;
}

abbrev pub request_to : String → Request
request_to path = record { path = path; cookie = some "cookie" }

abbrev pub credential : Credential
credential = record { region = none; domain = "Default"; username = "user"; password = "secret" }
