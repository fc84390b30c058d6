-- ===== src/Login/Tests.antt =====
-- The theorems on sessions at a concrete Keystone.
use skyline_apiserver_extens.Common.{◌++◌, ◌≡◌, refl, false, [], length, none, some, ◌⊎◌}
use skyline_apiserver_extens.Runtime.{Result, http, ok, err}
use skyline_apiserver_extens.World.{World, M, steps, pure}
use skyline_apiserver_extens.World.Transacts.{AllOrNothing}
use skyline_apiserver_extens.Session.{
  State, Response, is_ignored, state_of, validate_token, parse_access_token,
  generate_profile_by_token, generate_profile, token_owner,
}
use skyline_apiserver_extens.Session.Accepts.{Accepted}
use skyline_apiserver_extens.Session.Gate.{
  Gated, Lasting, new_cookies, held, validate_token-Gated, held_lem,
}
use skyline_apiserver_extens.Login.{
  Patched, enter, get_projects_and_unscope_token, projects_of_token, get_default_project_id,
  default_project_of, choose_project, patch_profile, profile_projects, login, logout, websso,
  switch_project, session_cookies,
}
use skyline_apiserver_extens.Login.Entering.{Scoped}
use skyline_apiserver_extens.Login.Outcomes.{Entered, LoggedIn, login_lem, websso-switch_project}
use skyline_apiserver_extens.Login.Logout.{handler, logout_revokes_nothing}
use skyline_apiserver_extens.Login.Samples.{
  keystone, conf, payload, jwt, sessions, profile, request_to, credential,
}
use skyline_apiserver_extens.Keystone.{
  get_token_data, get_user, get_project_scope_token, get_endpoints, map_services, map_extensions,
  get_projects,
}
use skyline_apiserver_extens.Activity.{create_activity}
use skyline_apiserver_extens.Db.{check_token, create_activity_record}
use skyline_apiserver_extens.Samples.{world}

abbrev answer_ok : State → M Response
answer_ok _ = pure (record { status_code = 200; detail = "OK"; cookies = [] })

servers_is_ignored : is_ignored "/api/v1/instances" ≡ false
unfolding is_ignored
servers_is_ignored = refl

validate_token-Gated_example :
    Gated keystone conf jwt (request_to "/api/v1/instances") "cookie" answer_ok world
validate_token-Gated_example =
    validate_token-Gated keystone conf jwt (request_to "/api/v1/instances") "cookie" answer_ok world
      servers_is_ignored refl refl

abbrev fine : Response
fine = record { status_code = 200; detail = "OK"; cookies = [] }

accepted : Accepted keystone conf jwt "cookie" world payload profile
unfolding parse_access_token check_token generate_profile_by_token generate_profile token_owner
    get_token_data get_user steps
accepted = (refl, refl, refl)

answered : (state : State) → answer_ok state world ≡ (ok fine, world)
unfolding pure
answered state = refl

held_lem_example :
    (validate_token keystone conf jwt (request_to "/api/v1/instances") answer_ok world ≡ (
      ok (record fine { cookies = [] ++ new_cookies keystone conf jwt profile world.clock }),
      world,
    ))
    × Lasting keystone conf jwt profile world.clock (held keystone conf jwt profile world.clock)
held_lem_example =
    held_lem keystone conf jwt (request_to "/api/v1/instances") "cookie" answer_ok world world
      payload profile fine refl servers_is_ignored refl refl accepted
      (answered (state_of keystone conf jwt profile world.clock))

abbrev logging_out : Result Response × World
logging_out =
    validate_token keystone conf jwt (request_to "/api/v1/logout")
      (handler keystone conf jwt sessions none) world

logout_revokes_nothing_example :
    (logging_out.1 ≡ world) × (logging_out ≡ logout keystone conf jwt sessions none none world)
logout_revokes_nothing_example =
    logout_revokes_nothing keystone conf jwt sessions (request_to "/api/v1/logout") none world refl

login_lem_example :
    (login keystone conf jwt sessions credential world
      ≡ (err (http 401 "Invalid credentials or unauthorized"), world))
    ⊎ ((patched : Patched) × Entered keystone conf jwt sessions credential world patched
        × AllOrNothing
            (LoggedIn keystone conf jwt sessions patched)
            world.db
            (login keystone conf jwt sessions credential world))
login_lem_example = login_lem keystone conf jwt sessions credential world

websso-switch_project_example :
    ((websso keystone conf jwt sessions "RegionOne" "sso" world
        ≡ (err (http 401 "SSO authentication failed"), world))
      ⊎ ((patched : Patched) × Scoped keystone conf jwt sessions none none none
            (some "sso")
            world
            patched
          × (websso keystone conf jwt sessions "RegionOne" "sso" world
              ≡ (ok (session_cookies keystone conf jwt sessions patched.profile), world))))
    × ((switch_project keystone conf jwt sessions "p1" profile world
          ≡ (err (http 401 "Project switch failed"), world))
        ⊎ ((patched : Patched) × (keystone.scoped_token world profile.keystone_token "p1"
              ≡ ok patched.profile.keystone_token)
            × (switch_project keystone conf jwt sessions "p1" profile world ≡ (
              ok (patched, session_cookies keystone conf jwt sessions patched.profile),
              world,
            ))))
websso-switch_project_example =
    websso-switch_project keystone conf jwt sessions "RegionOne" "sso" "p1" profile world

-- a log in that succeeds
login_succeeds : length (login keystone conf jwt sessions credential world).1.db.user_activity ≡ 1
unfolding login enter get_projects_and_unscope_token projects_of_token get_default_project_id
    default_project_of choose_project patch_profile profile_projects generate_profile token_owner
    get_token_data get_user get_project_scope_token get_endpoints map_services map_extensions
    get_projects create_activity create_activity_record steps
login_succeeds = refl
