-- ===== src/Setting/Changes.antt =====
-- Changing settings: who may, and what is shown afterwards.
use skyline_apiserver_extens.Common.{
  String, ◌≡◌, refl, true, Bool-cases, ◌⊎◌, inl, inr, contains, ◌==◌, eq_iff, eq_refl, arith,
  if◌then◌else◌,
}
use skyline_apiserver_extens.Runtime.{Json, Exn, ok, err, http, ◌>>=◌}
use skyline_apiserver_extens.Config.{get_attr}
use skyline_apiserver_extens.Db.{Db}
use skyline_apiserver_extens.Db
use skyline_apiserver_extens.Db.Settings.{
  get_setting-update_setting, update_setting-row, get_setting-delete_setting,
}
use skyline_apiserver_extens.Profile.{Profile}
use skyline_apiserver_extens.Roles.{is_system_admin, assert_system_admin}
use skyline_apiserver_extens.Setting.{
  SettingConf, setting_of, assert_setting_key_exist, show_setting, update_setting, reset_setting,
}

-- Only an administrator changes settings, and only those of the configuration. Whoever asks, either
-- handler answers an error and the database stays, or the user is an administrator, the key is a
-- base setting, and the database has the update or the deletion of the key.
pub changes_need_admin :
    (conf : SettingConf) (key : String) (value : Json) (profile : Profile) (db : Db)
    → (((e : Exn) × (update_setting conf key value profile db ≡ (err e, db)))
        ⊎ ((is_system_admin conf.roles profile ≡ true)
            × (contains key conf.base_settings ≡ true)
            × ((update_setting conf key value profile db).1 ≡ (Db.update_setting key value db).1)))
      × (((e : Exn) × (reset_setting conf key profile db ≡ (err e, db)))
          ⊎ ((is_system_admin conf.roles profile ≡ true)
              × (contains key conf.base_settings ≡ true)
              × ((reset_setting conf key profile db).1 ≡ Db.delete_setting key db)))
unfolding update_setting reset_setting assert_system_admin assert_setting_key_exist
changes_need_admin conf key value profile db = (
  elim (Bool-cases (is_system_admin conf.roles profile)) [
    | inl admin ↦ elim (Bool-cases (contains key conf.base_settings)) [
      | inl known ↦ inr (admin, known, ground arith)
      | inr unknown ↦ inl (http 404 "Not a valid setting key.", ground arith)
    ]
    | inr other ↦ inl (http 403 "Not allowed to update settings.", ground arith)
  ],
  elim (Bool-cases (is_system_admin conf.roles profile)) [
    | inl admin ↦ elim (Bool-cases (contains key conf.base_settings)) [
      | inl known ↦ inr (admin, known, ground arith)
      | inr unknown ↦ inl (http 404 "Not a valid setting key.", ground arith)
    ]
    | inr other ↦ inl (http 403 "Not allowed to reset settings.", ground arith)
  ],
)

module _ (conf : SettingConf) (key : String) (profile : Profile) (db : Db)
    (admin : is_system_admin conf.roles profile ≡ true)
    (known : contains key conf.base_settings ≡ true) where
  update_run :
      (value : Json)
      → update_setting conf key value profile db
        ≡ (ok (setting_of key value), (Db.update_setting key value db).1)
  unfolding update_setting assert_system_admin
  update_run value = ground (arith, update_setting-row key value db)

  -- An administrator's update of a known key answers with the new value, which is what is shown for
  -- the key afterwards, if the configuration has the option; every other key is shown as before.
  pub show-update :
      (value : Json) (j : String)
      → ((update_setting conf key value profile db).0 ≡ ok (setting_of key value))
        × (show_setting conf j (update_setting conf key value profile db).1 ≡ (
            if key == j
            then (get_attr conf.setting j >>= λ _. ok (setting_of j value))
            else show_setting conf j db))
  unfolding show_setting
  show-update value j =
      rw (update_run value)
        (refl, ground (arith, eq_iff key j, get_setting-update_setting j key value db))

  reset_run : reset_setting conf key profile db ≡ (
    (get_attr conf.setting key >>= λ value. ok (setting_of key value)),
    Db.delete_setting key db,
  )
  unfolding reset_setting assert_system_admin
  reset_run = ground arith

  -- An administrator's reset of a known key answers with the value of the configuration, and that is
  -- what is shown for the key afterwards; every other key is shown as before.
  pub show-reset :
      (j : String)
      → (show_setting conf key (reset_setting conf key profile db).1
          ≡ (reset_setting conf key profile db).0)
        × (show_setting conf j (reset_setting conf key profile db).1
            ≡ (if j == key then (reset_setting conf key profile db).0 else show_setting conf j db))
  unfolding show_setting
  show-reset j = rw reset_run (
    ground (arith, eq_refl key, get_setting-delete_setting key key db),
    ground (arith, eq_iff j key, get_setting-delete_setting j key db),
  )
