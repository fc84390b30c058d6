-- ===== src/Samples.antt =====
-- Concrete data for the tests: a configuration, a database and profiles.
use skyline_apiserver_extens.Common.{String, true, false, Option, none, some, List, [], ◌∷◌, map}
use skyline_apiserver_extens.Common.Int.{ℤ, pos}
use skyline_apiserver_extens.Runtime.{Json, null, bool, num, str, ok, err, other}
use skyline_apiserver_extens.Config.{Opt, Group, group}
use skyline_apiserver_extens.Config.Openstack.{all_opts}
use skyline_apiserver_extens.Db.{EmailStatus, Db, InstanceLifecycle}
use skyline_apiserver_extens.Profile.{Profile, Role}
use skyline_apiserver_extens.Roles.{RoleConf}
use skyline_apiserver_extens.Setting.{SettingConf}
use skyline_apiserver_extens.World.{World}
use skyline_apiserver_extens.Env.{Env}
use skyline_apiserver_extens.Cloud.{Cloud}

abbrev option : String → Json → Opt
option name value = record { name = name; schema = λ _. true; default = null; value = value }

abbrev pub openstack_opts : List Opt
openstack_opts = map (λ name. option name (str name)) all_opts

abbrev pub setting_group : Group
setting_group = group "setting" (
    option "instance_lifecycle_enabled" (bool true)
    ∷ option "instance_lifetime_days" (num (pos 30))
    ∷ option "instance_reply_deadline_days" (num (pos 7))
    ∷ option "smtp_host" (str "mail")
    ∷ option "smtp_port" (num (pos 25))
    ∷ option "smtp_user" (str "")
    ∷ option "smtp_password" (str "")
    ∷ option "smtp_from_address" (str "cloud@example.org")
    ∷ option "smtp_use_tls" (bool false)
    ∷ [])

abbrev pub env : Env
env = record {
  openstack = group "openstack" openstack_opts;
  setting = setting_group;
  int_of_text = λ _. none;
  utc_text = λ _. ok "2026-01-01 00:00 UTC";
  answer = λ _ _. ok tt;
  projects_named = λ _ _ _. ok ("admin-project" ∷ []);
}

abbrev pub subject : String → String
subject name = name

abbrev pub body : String → String → String → String → String
body name id time url = time

-- An instance whose time is over at 1000.
abbrev pub lifecycle : String → EmailStatus → Option ℤ → InstanceLifecycle
lifecycle id status sent_at = record {
  instance_id = id;
  instance_name = some "web";
  user_id = "u1";
  project_id = "p1";
  user_email = some "u1@example.org";
  created_at = pos 0;
  expires_at = pos 1000;
  email_status = status;
  email_sent_at = sent_at;
  extended = false;
}

abbrev pub due : InstanceLifecycle
due = lifecycle "i1" EmailStatus.none none

abbrev pub overdue : InstanceLifecycle
overdue = lifecycle "i2" EmailStatus.sent (some (pos 2000))

abbrev pub db : Db
db = record {
  revoked_token = record { uuid = "t1"; expire = pos 5 } ∷ [];
  settings = record { key = "smtp_host"; value = str "relay" } ∷ [];
  user_activity = [];
  instance_lifecycle =
      due
      ∷ overdue
      ∷ lifecycle "i3" EmailStatus.extended none
      ∷ lifecycle "i4" EmailStatus.deleted none
      ∷ [];
}

abbrev pub world : World
world = record { db = db; calls = []; clock = pos 1000000 }

abbrev pub role_conf : RoleConf
role_conf = record {
  system_admin_roles = "admin" ∷ [];
  system_reader_roles = "reader" ∷ "admin" ∷ [];
}

abbrev pub profile_with : List Role → Profile
profile_with roles = record {
  keystone_token = "token";
  region = "RegionOne";
  exp = pos 3600;
  uuid = "t0";
  project = record { id = "p1"; name = "demo"; domain = record { id = "d1"; name = "Default" } };
  user = record {
    id = "u1";
    name = "user";
    domain = record { id = "d1"; name = "Default" };
    email = none;
  };
  roles = roles;
}

abbrev pub admin : Profile
admin = profile_with (record { id = "r1"; name = "admin" } ∷ [])

abbrev pub member : Profile
member = profile_with (record { id = "r2"; name = "member" } ∷ [])

abbrev pub setting_conf : SettingConf
setting_conf = record {
  setting = setting_group;
  base_settings = "smtp_host" ∷ "smtp_port" ∷ [];
  roles = role_conf;
}

abbrev pub cloud : Cloud
cloud = record {
  generate_session = λ _ _. ok tt;
  get_system_session = λ _. ok tt;
  answer = λ _ _. ok tt;
  database = λ _. ok tt;
  str_of = λ _. "error";
  str_of_list = λ _. "['v1']";
  uuid4 = λ _. ok "r1";
  list_servers = λ _ _ _. ok ("db" ∷ []);
  server_status = λ _ _. err (other "NotFound");
  fixed_addresses = λ _ _. ok ("10.0.0.4" ∷ []);
  server_volumes = λ _ _. ok ("v1" ∷ []);
  volume_status = λ _ _. ok "available";
  list_floatingips = λ _. ok ("f1" ∷ []);
  list_port_forwardings =
      λ _ _. ok (record { id = "pf1"; internal_ip_address = some "10.0.0.4" } ∷ []);
  external_rules = λ _ _. ok (record { id = some "e1"; rule_id = none } ∷ []);
}
