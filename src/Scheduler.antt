-- ===== src/Scheduler.antt =====
-- utils/lifecycle_scheduler.py. The texts of a warning are built from the row; the HTML body stands
-- for the template of utils/email.py around the name, the id, the time and the link.
pub mod Rows
pub mod Effects
pub mod Check
pub mod Tracked
pub mod Passes
pub mod Rounds
pub mod Spares
mod Tests
use Prim.Native.String
use skyline_apiserver_extens.Common.{
  String, Bool, true, false, not, ◌&&◌, Option, none, some, List, [], ◌∷◌, ◌==◌, if◌then◌else◌,
}
use skyline_apiserver_extens.Common.Int.{ℤ, pos, ◌-ℤ◌, ◌*ℤ◌}
use skyline_apiserver_extens.Runtime.{Json, truthy, Result}
use skyline_apiserver_extens.Config.{get_attr}
use skyline_apiserver_extens.Db.{
  InstanceLifecycle, is_none, list_instance_lifecycles_expiring_before,
  list_instance_lifecycles_awaiting_reply, update_instance_lifecycle_email_sent,
  update_instance_lifecycle_deleted,
}
use skyline_apiserver_extens.World.{
  World, Call, force_delete_server, M, ◌>>=◌, ◌>>◌, pure, lift, query, ask, execute, time, sleep,
  request, try_except, for_each,
}
use skyline_apiserver_extens.Env.{Env, int_of, setting_value, openstack_args}
use skyline_apiserver_extens.Mail.{send_lifecycle_warning_email}

-- The dict of `_get_lifecycle_settings`.
pub record LifecycleSettings : Type 0 where
  pub enabled : Json
  pub lifetime_days : ℤ
  pub reply_deadline_days : ℤ
  pub admin_project : Json

-- `a or b` on texts that may be missing
abbrev pub or_text : Option String → String → String
or_text none b = b
or_text (some a) b = if a == "" then b else a

-- `admin_project_id and project_id == admin_project_id`
abbrev pub is_admin_project : Option String → String → Bool
is_admin_project none project_id = false
is_admin_project (some admin) project_id = not (admin == "") && (project_id == admin)

abbrev first : List String → Option String
first [] = none
first (x ∷ _) = some x

-- the texts of the subject and the body, from the name, the id, the time and the link
module _ (env : Env) (subject : String → String)
    (body : String → String → String → String → String) where
  unfoldable pub get_lifecycle_settings : M LifecycleSettings
  get_lifecycle_settings = do
    enabled ← setting_value env "instance_lifecycle_enabled"
    days ← setting_value env "instance_lifetime_days"
    lifetime ← lift (int_of env days)
    deadline_days ← setting_value env "instance_reply_deadline_days"
    deadline ← lift (int_of env deadline_days)
    admin ← lift (get_attr env.openstack "system_project")
    pure (record {
      enabled = enabled;
      lifetime_days = lifetime;
      reply_deadline_days = deadline;
      admin_project = admin;
    })

  unfoldable pub get_admin_project_id : Json → M (Option String)
  get_admin_project_id admin_project_name =
      try_except
        (do
          args ← openstack_args env (
              "keystone_url" ∷ "system_user_name" ∷ "system_user_password" ∷ "system_user_domain"
              ∷ "system_project" ∷ "system_project_domain" ∷ [])
          ids ← ask (λ w. env.projects_named w args admin_project_name)
          pure (first ids))
        (λ _. pure none)

  unfoldable pub delete_instance : String → M Bool
  delete_instance instance_id =
      try_except
        (do
          args ← openstack_args env (
              "keystone_url" ∷ "system_project" ∷ "system_user" ∷ "system_user_password"
              ∷ "system_user_domain" ∷ "system_project_domain" ∷ [])
          request env.answer (force_delete_server instance_id)
          pure true)
        (λ _. pure false)

  -- the warning, once its time is a text
  unfoldable pub send_warning : ℤ → InstanceLifecycle → String → M (Unit {0})
  send_warning now row expires_str = do
    let name = or_text row.instance_name row.instance_id
    let extend_url = String.◌++◌ "/instances/" (String.◌++◌ row.instance_id "/extend")
    sent ←
        send_lifecycle_warning_email env (or_text row.user_email "") (subject name)
          (body name row.instance_id expires_str extend_url)
    if sent then execute (update_instance_lifecycle_email_sent row.instance_id now) else pure tt

  unfoldable pub warn : ℤ → InstanceLifecycle → M (Unit {0})
  warn now row = do
    expires_str ← lift (env.utc_text row.expires_at)
    send_warning now row expires_str

  -- the body of the first loop
  unfoldable pub warn_row : ℤ → Option String → InstanceLifecycle → M (Unit {0})
  warn_row now admin_project_id row =
      if is_admin_project admin_project_id row.project_id
      then pure tt
      else if is_none row.email_status
      then warn now row
      else pure tt

  unfoldable pub reap : InstanceLifecycle → M (Unit {0})
  reap row = do
    deleted ← delete_instance row.instance_id
    if deleted then execute (update_instance_lifecycle_deleted row.instance_id) else pure tt

  -- the body of the second loop
  unfoldable pub reap_row : Option String → InstanceLifecycle → M (Unit {0})
  reap_row admin_project_id row =
      if is_admin_project admin_project_id row.project_id then pure tt else reap row

  -- `run_lifecycle_check` after its test of `enabled`
  unfoldable pub check_rows : LifecycleSettings → M (Unit {0})
  check_rows settings = do
    now ← time
    admin_project_id ← get_admin_project_id settings.admin_project
    expiring ← query (list_instance_lifecycles_expiring_before now)
    for_each expiring (warn_row now admin_project_id)
    overdue ←
        query (
          list_instance_lifecycles_awaiting_reply
            (now -ℤ settings.reply_deadline_days *ℤ pos 86400))
    for_each overdue (reap_row admin_project_id)

  unfoldable pub run_lifecycle_check : M (Unit {0})
  run_lifecycle_check = do
    settings ← get_lifecycle_settings
    if truthy settings.enabled then check_rows settings else pure tt

  -- the body of the loop of `start_lifecycle_scheduler`
  unfoldable pub round : M (Unit {0})
  round = try_except run_lifecycle_check (λ _. pure tt) >> sleep (pos 3600)
