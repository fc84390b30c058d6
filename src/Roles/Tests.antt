-- ===== src/Roles/Tests.antt =====
-- The partition of roles at a concrete profile.
use skyline_apiserver_extens.Common.{◌≡◌, false, ◌&&◌, ◌||◌}
use skyline_apiserver_extens.Roles.{
  is_system_admin, is_system_reader_no_admin, is_system_admin_or_reader,
}
use skyline_apiserver_extens.Roles.Partition.{roles_partition}
use skyline_apiserver_extens.Samples.{role_conf, admin}

roles_partition_example :
    (is_system_admin_or_reader role_conf admin
      ≡ (is_system_admin role_conf admin || is_system_reader_no_admin role_conf admin))
    × ((is_system_admin role_conf admin && is_system_reader_no_admin role_conf admin) ≡ false)
roles_partition_example = roles_partition role_conf admin
