-- ===== src/Roles/Partition.antt =====
-- The three role tests of a profile side by side.
use skyline_apiserver_extens.Common.{
  String, ◌≡◌, refl, false, ◌&&◌, ◌||◌, List, [], ◌∷◌, ◌++◌, contains, arith,
}
use skyline_apiserver_extens.Profile.{Profile, Role}
use skyline_apiserver_extens.Roles.{
  RoleConf, has_role, is_system_admin, is_system_reader_no_admin, is_system_admin_or_reader,
}

contains-append :
    (x : String) (a b : List String) → contains x (a ++ b) ≡ (contains x a || contains x b)
contains-append x [] b = refl
contains-append x (y ∷ a) b = ground (arith, contains-append x a b)

pub has_role-append :
    (roles : List Role) (a b : List String)
    → has_role roles (a ++ b) ≡ (has_role roles a || has_role roles b)
has_role-append [] a b = refl
has_role-append (r ∷ roles) a b =
    ground (arith, contains-append r.name a b, has_role-append roles a b)

-- A profile may see the whole system exactly if it is an administrator's, or a reader's that has no
-- administrator role; the two cases exclude each other.
pub roles_partition :
    (conf : RoleConf) (profile : Profile)
    → (is_system_admin_or_reader conf profile
        ≡ (is_system_admin conf profile || is_system_reader_no_admin conf profile))
      × ((is_system_admin conf profile && is_system_reader_no_admin conf profile) ≡ false)
unfolding is_system_admin_or_reader is_system_admin is_system_reader_no_admin
roles_partition conf profile =
    ground (arith, has_role-append profile.roles conf.system_admin_roles conf.system_reader_roles)
