-- ===== src/Roles.antt =====
-- utils/roles.py. The two lists are `CONF.openstack.system_admin_roles` and `system_reader_roles`.
pub mod Partition
mod Tests
use skyline_apiserver_extens.Common.{
  String, Bool, not, ◌&&◌, List, ◌++◌, contains, any, if◌then◌else◌,
}
use skyline_apiserver_extens.Runtime.{Result, ok, err, http}
use skyline_apiserver_extens.Profile.{Profile, Role}

pub record RoleConf : Type 0 where
  pub system_admin_roles : List String
  pub system_reader_roles : List String

-- `roles & set(names)`, as a truth value
abbrev pub has_role : List Role → List String → Bool
has_role roles names = any (λ r. contains r.name names) roles

module _ (conf : RoleConf) (profile : Profile) where
  unfoldable pub is_system_admin : Bool
  is_system_admin = has_role profile.roles conf.system_admin_roles

  unfoldable pub is_system_reader_no_admin : Bool
  is_system_reader_no_admin =
      has_role profile.roles conf.system_reader_roles
      && not (has_role profile.roles conf.system_admin_roles)

  unfoldable pub is_system_admin_or_reader : Bool
  is_system_admin_or_reader =
      has_role profile.roles (conf.system_admin_roles ++ conf.system_reader_roles)

  unfoldable pub assert_system_admin : String → Result (Unit {0})
  assert_system_admin exception = if is_system_admin then ok tt else err (http 403 exception)

  unfoldable pub assert_system_admin_or_reader : String → Result (Unit {0})
  assert_system_admin_or_reader exception =
      if is_system_admin_or_reader then ok tt else err (http 403 exception)
