-- ===== src/Env.antt =====
-- What the program is run with: its configuration, and the services and library functions that it
-- calls, each of which may answer by all that went before.
use skyline_apiserver_extens.Common.{String, true, false, Option, none, some, List, [], ◌∷◌}
use skyline_apiserver_extens.Common.Int.{ℤ, pos}
use skyline_apiserver_extens.Runtime.{Json, bool, num, str, Result, ok, err, other}
use skyline_apiserver_extens.Config.{Group, get_attr}
use skyline_apiserver_extens.Db.{get_setting, Setting}
use skyline_apiserver_extens.World.{World, Call, M, ◌>>=◌, pure, lift, query}

pub record Env : Type 0 where
  -- `CONF.openstack`, `CONF.setting`
  pub openstack : Group
  pub setting : Group
  -- `int(text)`; `none` where it raises
  pub int_of_text : String → Option ℤ
  -- `datetime.fromtimestamp(t, tz=utc).strftime("%Y-%m-%d %H:%M UTC")`
  pub utc_text : ℤ → Result String
  -- whether a request raises
  pub answer : World → Call → Result (Unit {0})
  -- the ids of `kc.projects.list(name=…)`, over a session with the given arguments
  pub projects_named : World → List Json → Json → Result (List String)

module _ (env : Env) where
  -- `int(v)`
  unfoldable pub int_of : Json → Result ℤ
  int_of (num n) = ok n
  int_of (bool true) = ok (pos 1)
  int_of (bool false) = ok (pos 0)
  int_of (str s) = elim (env.int_of_text s) [ none ↦ err (other "ValueError") | some n ↦ ok n ]
  int_of _ = err (other "TypeError")

  unfoldable pub row_or_conf : String → Option Setting → Result Json
  row_or_conf key (some row) = ok row.value
  row_or_conf key none = get_attr env.setting key

  -- the value of a setting: that of the database, or else that of the configuration
  unfoldable pub setting_value : String → M Json
  unfolding get_setting get_attr
  setting_value key = do row ← query (get_setting key); lift (row_or_conf key row)

  -- attributes of `CONF.openstack`, read in order
  unfoldable pub openstack_args : List String → M (List Json)
  unfolding get_attr
  openstack_args [] = pure []
  openstack_args (k ∷ ks) = do
    v ← lift (get_attr env.openstack k)
    vs ← openstack_args ks
    pure (v ∷ vs)
