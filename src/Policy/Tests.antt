-- ===== src/Policy/Tests.antt =====
-- The theorems on policies at concrete rules; a check is a truth value.
use skyline_apiserver_extens.Common.{
  String, ◌≡◌, refl, Bool, true, false, ◌||◌, none, some, ◌⊎◌, [], ◌∷◌, map, ◌==◌,
}
use skyline_apiserver_extens.Common.Dict.{Dict, lookup, insert}
use skyline_apiserver_extens.Runtime.{Result, ok}
use skyline_apiserver_extens.Roles.{is_system_admin, is_system_admin_or_reader}
use skyline_apiserver_extens.Policy.Rules.{Rule}
use skyline_apiserver_extens.Policy.Enforcer.{
  Enforcer, PolicyFile, present, load_rules, authorize, reparse, setup_service,
}
use skyline_apiserver_extens.Policy.Context.{Access, user_context}
use skyline_apiserver_extens.Policy.Api.{split_colon, join_colon}
use skyline_apiserver_extens.Policy.Decisions.{authorize_sound}
use skyline_apiserver_extens.Policy.Registration.{made, setup_service_lem}
use skyline_apiserver_extens.Policy.Agreement.{no_colon, user_context-admin, split_colon-join_colon}
use skyline_apiserver_extens.Samples.{role_conf, admin}

abbrev load : String → Result (Dict Bool)
load text = ok (("list", true) ∷ [])

abbrev check : Bool → Result Bool
check b = ok b

abbrev enforcer : Enforcer Bool
enforcer = record { service = "nova"; rules = ("list", false) ∷ []; file_rules = [] }

abbrev readable : PolicyFile
readable = present (ok (true, "list: allow"))

authorize_sound_example :
    (c : Bool) × (check c ≡ ok true)
    × ((lookup "list" (authorize load readable check "list" enforcer).1.file_rules ≡ some c)
        ⊎ ((lookup "list" (authorize load readable check "list" enforcer).1.file_rules ≡ none)
            × (lookup "list" enforcer.rules ≡ some c)))
unfolding authorize load_rules
authorize_sound_example = authorize_sound load readable check "list" enforcer refl

abbrev parse_rule : String → Bool
parse_rule text = text == "@"

abbrev listing : Rule Bool
listing = record {
  name = "list";
  check_str = "@";
  check = true;
  description = "List.";
  basic_check_str = "!";
  basic_check = false;
}

abbrev showing : Rule Bool
showing = record listing { name = "show" }

setup_service_lem_example :
    setup_service parse_rule "nova" (listing ∷ showing ∷ []) [] []
    ≡ (ok tt, insert "nova" (made "nova" (map (reparse parse_rule) (listing ∷ showing ∷ []))) [])
setup_service_lem_example =
    setup_service_lem parse_rule "nova" listing (showing ∷ []) [] (refl, (refl, tt))

abbrev access : Access
access = record {
  auth_token = some "token";
  user_id = some "u1";
  project_id = some "p1";
  domain_id = none;
  user_domain_id = some "d1";
  project_domain_id = some "d1";
  username = some "user";
  project_name = some "demo";
  domain_name = none;
  user_domain_name = some "Default";
  project_domain_name = some "Default";
  system_all = false;
  role_ids = "r1" ∷ [];
  role_names = "admin" ∷ [];
}

user_context-admin_example :
    ((user_context role_conf access).is_admin ≡ is_system_admin role_conf admin)
    × (((user_context role_conf access).is_admin || (user_context role_conf access).is_reader_admin)
        ≡ is_system_admin_or_reader role_conf admin)
user_context-admin_example = user_context-admin role_conf admin access refl

split_colon-join_colon_example :
    split_colon (join_colon "nova" "os_compute_api:servers:show")
    ≡ some ("nova", "os_compute_api:servers:show")
unfolding no_colon
split_colon-join_colon_example = split_colon-join_colon "nova" "os_compute_api:servers:show" refl
