-- ===== src/Activity.antt =====
-- client/openstack/activity.py: the record of what users do. `Sessions` holds what the session
-- library answers for the session of a profile.
use skyline_apiserver_extens.Common.{ℕ, String, List, ◌==◌, if◌then◌else◌}
use skyline_apiserver_extens.Runtime.{Exn, http, other, Result}
use skyline_apiserver_extens.Db.{UserActivity, create_activity_record, get_activity_records_by_user}
use skyline_apiserver_extens.World.{
  World, Call, M, ◌>>=◌, raise, query, execute, ask, time, try_except,
}
use skyline_apiserver_extens.Profile.{Profile}

pub record Sessions : Type 0 where
  -- `generate_session(profile)`
  pub generate_session : World → Profile → Result (Unit {0})
  -- the token, the user's id and the project's id of that session
  pub get_token : World → Profile → Result String
  pub get_user_id : World → Profile → Result String
  pub get_project_id : World → Profile → Result String
  -- the client and the answer of Keystone, the endpoint of a region's identity service
  pub answer : World → Call → Result (Unit {0})
  pub get_endpoint : World → String → Result String
  -- `session.invalidate()` of a session by a token
  pub invalidate : World → String → Result (Unit {0})
  pub str_of : Exn → String

-- `except Unauthorized` or `except Exception`
abbrev pub client_status : Exn → ℕ
client_status (http _ _) = 500
client_status (other name) = if name == "Unauthorized" then 401 else 500

module _ (sessions : Sessions) where
  unfoldable pub create_activity : Profile → String → String → String → M (Unit {0})
  create_activity profile category message status_result =
      try_except
        (do
          token ← ask (λ w. sessions.get_token w profile)
          user_id ← ask (λ w. sessions.get_user_id w profile)
          project_id ← ask (λ w. sessions.get_project_id w profile)
          now ← time
          execute
              (create_activity_record user_id project_id category message status_result token now))
        (λ e. raise (http (client_status e) (sessions.str_of e)))

  unfoldable pub get_activities_by_user : String → M (List UserActivity)
  get_activities_by_user user_id =
      try_except (query (get_activity_records_by_user user_id))
        (λ e. raise (http 500 (sessions.str_of e)))

  -- `list_activities` of api/v1/activity.py
  unfoldable pub list_activities : Profile → M (List UserActivity)
  list_activities profile = get_activities_by_user profile.user.id
