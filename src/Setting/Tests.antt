-- ===== src/Setting/Tests.antt =====
-- The theorems on settings at a concrete configuration.
use skyline_apiserver_extens.Common.{
  ◌≡◌, refl, true, contains, ◌⊎◌, some, List, [], ◌∷◌, ◌==◌, if◌then◌else◌,
}
use skyline_apiserver_extens.Common.Int
use skyline_apiserver_extens.Common.Table.{find_row}
use skyline_apiserver_extens.Runtime.{Json, Exn, str, ok, err, ◌>>=◌}
use skyline_apiserver_extens.Config.{get_attr, group}
use skyline_apiserver_extens.Db
use skyline_apiserver_extens.Roles.{is_system_admin}
use skyline_apiserver_extens.Setting.{
  Setting, setting_of, show_setting, update_setting, reset_setting, list_settings,
}
use skyline_apiserver_extens.Setting.Changes.{changes_need_admin, show-update, show-reset}
use skyline_apiserver_extens.Setting.Effective.{list-show}
use skyline_apiserver_extens.Samples.{setting_conf, admin, member, db}

changes_need_admin_example :
    (((e : Exn) × (update_setting setting_conf "smtp_host" (str "new") member db ≡ (err e, db)))
      ⊎ ((is_system_admin setting_conf.roles member ≡ true)
          × (contains "smtp_host" setting_conf.base_settings ≡ true)
          × ((update_setting setting_conf "smtp_host" (str "new") member db).1
              ≡ (Db.update_setting "smtp_host" (str "new") db).1)))
    × (((e : Exn) × (reset_setting setting_conf "smtp_host" member db ≡ (err e, db)))
        ⊎ ((is_system_admin setting_conf.roles member ≡ true)
            × (contains "smtp_host" setting_conf.base_settings ≡ true)
            × ((reset_setting setting_conf "smtp_host" member db).1
                ≡ Db.delete_setting "smtp_host" db)))
changes_need_admin_example = changes_need_admin setting_conf "smtp_host" (str "new") member db

show-update_example :
    ((update_setting setting_conf "smtp_host" (str "new") admin db).0
      ≡ ok (setting_of "smtp_host" (str "new")))
    × (show_setting setting_conf "smtp_host"
          (update_setting setting_conf "smtp_host" (str "new") admin db).1
        ≡ (if "smtp_host" == "smtp_host"
            then (get_attr setting_conf.setting "smtp_host" >>= λ _.
                ok (setting_of "smtp_host" (str "new")))
            else show_setting setting_conf "smtp_host" db))
unfolding is_system_admin
show-update_example =
    show-update setting_conf "smtp_host" admin db refl refl (str "new") "smtp_host"

show-reset_example :
    (show_setting setting_conf "smtp_host" (reset_setting setting_conf "smtp_host" admin db).1
      ≡ (reset_setting setting_conf "smtp_host" admin db).0)
    × (show_setting setting_conf "smtp_port" (reset_setting setting_conf "smtp_host" admin db).1 ≡ (
        if "smtp_port" == "smtp_host"
        then (reset_setting setting_conf "smtp_host" admin db).0
        else show_setting setting_conf "smtp_port" db))
unfolding is_system_admin
show-reset_example = show-reset setting_conf "smtp_host" admin db refl refl "smtp_port"

abbrev listed : List Setting
listed = setting_of "smtp_host" (str "relay") ∷ setting_of "smtp_port" (Json.num (Int.pos 25)) ∷ []

lists : list_settings setting_conf db ≡ ok listed
unfolding list_settings Db.list_settings get_attr group
lists = refl

list-show_example :
    (s : Setting) × (find_row (λ s. s.key) "smtp_host" listed ≡ some s)
    × (show_setting setting_conf "smtp_host" db ≡ ok s)
list-show_example = list-show setting_conf "smtp_host" db listed (refl, tt) refl lists
