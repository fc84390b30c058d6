-- ===== src/Setting.antt =====
-- api/v1/setting.py. `base_settings` is the value of `CONF.setting.base_settings`; the constants are
-- those of types/constants.py.
pub mod Changes
pub mod Effective
mod Tests
use skyline_apiserver_extens.Common.{
  String, Bool, Option, none, some, List, [], ◌∷◌, map, contains, ◌==◌, if◌then◌else◌,
}
use skyline_apiserver_extens.Common.Dict.{Dict, insert}
use skyline_apiserver_extens.Runtime.{Json, Result, ok, err, http, other, ◌>>=◌}
use skyline_apiserver_extens.Config.{Group, get_attr}
use skyline_apiserver_extens.Db.{Db}
use skyline_apiserver_extens.Db
use skyline_apiserver_extens.Profile.{Profile}
use skyline_apiserver_extens.Roles.{RoleConf, assert_system_admin}

abbrev pub settings_hidden_set : List String
settings_hidden_set = "smtp_password" ∷ []

abbrev pub settings_restart_set : List String
settings_restart_set = []

-- `schemas.Setting`
pub record Setting : Type 0 where
  pub key : String
  pub value : Json
  pub hidden : Bool
  pub restart_service : Bool

pub record SettingConf : Type 0 where
  pub setting : Group
  pub base_settings : List String
  pub roles : RoleConf

abbrev pub setting_of : String → Json → Setting
setting_of key value = record {
  key = key;
  value = value;
  hidden = contains key settings_hidden_set;
  restart_service = contains key settings_restart_set;
}

-- `value = db_setting.value if db_setting else value`
abbrev pub value_or : Option Db.Setting → Json → Json
value_or none value = value
value_or (some row) value = row.value

abbrev pub set_value : Json → Setting → Setting
set_value value s = record s { value = value }

-- `settings[key].value = value`, where the key is there
unfoldable pub assign : String → Json → Dict Setting → Dict Setting
assign key value [] = []
assign key value ((k, s) ∷ d) =
    if k == key then (k, set_value value s) ∷ d else (k, s) ∷ assign key value d

module _ (conf : SettingConf) where
  unfoldable pub assert_setting_key_exist : String → Result (Unit {0})
  assert_setting_key_exist key =
      if contains key conf.base_settings then ok tt else err (http 404 "Not a valid setting key.")

  unfoldable pub show_setting : String → Db → Result Setting
  unfolding assert_setting_key_exist
  show_setting key db = do
    _ ← assert_setting_key_exist key
    value ← get_attr conf.setting key
    ok (setting_of key (value_or (Db.get_setting key db) value))

  -- `db_setting.value`
  abbrev updated : String → Option Db.Setting × Db → Result Setting × Db
  updated key (none, db) = (err (other "AttributeError"), db)
  updated key (some row, db) = (ok (setting_of key row.value), db)

  unfoldable pub update_setting : String → Json → Profile → Db → Result Setting × Db
  unfolding assert_setting_key_exist
  update_setting key value profile db =
      elim (assert_system_admin conf.roles profile "Not allowed to update settings." >>= λ _.
      assert_setting_key_exist key) [
        | err e ↦ (err e, db)
        | ok _ ↦ updated key (Db.update_setting key value db)
      ]

  -- `{k: schemas.Setting(…) for k in ks}`; a key that is listed twice has one entry
  unfoldable pub defaults : List String → Dict Setting → Result (Dict Setting)
  defaults [] d = ok d
  defaults (k ∷ ks) d = do
    value ← get_attr conf.setting k
    defaults ks (insert k (setting_of k value) d)

  -- the loop over the rows of the database
  unfoldable pub override : List Db.Setting → Dict Setting → Dict Setting
  override [] d = d
  override (row ∷ rows) d =
      override rows (if contains row.key conf.base_settings then assign row.key row.value d else d)

  unfoldable pub list_settings : Db → Result (List Setting)
  unfolding defaults override assign
  list_settings db = do
    d ← defaults conf.base_settings []
    ok (map (λ e. e.1) (override (Db.list_settings db) d))

  -- `reset_setting`
  unfoldable pub reset_setting : String → Profile → Db → Result Setting × Db
  unfolding assert_setting_key_exist
  reset_setting key profile db =
      elim (assert_system_admin conf.roles profile "Not allowed to reset settings." >>= λ _.
      assert_setting_key_exist key) [
        | err e ↦ (err e, db)
        | ok _ ↦ (
          get_attr conf.setting key >>= (λ value. ok (setting_of key value)),
          Db.delete_setting key db,
        )
      ]
