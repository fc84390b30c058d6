-- ===== src/Config/Openstack.antt =====
-- The options of the group "openstack", by name: `ALL_OPTS` of config/openstack.py.
use skyline_apiserver_extens.Common.{String, List, [], ◌∷◌}

abbrev pub all_opts : List String
all_opts =
    "enforce_new_defaults" ∷ "sso_enabled" ∷ "sso_protocols" ∷ "sso_region" ∷ "keystone_url"
    ∷ "nova_endpoint" ∷ "cinder_endpoint" ∷ "neutron_endpoint" ∷ "glance_endpoint"
    ∷ "system_project_domain" ∷ "system_project" ∷ "system_user_domain" ∷ "system_user_name"
    ∷ "system_user_password" ∷ "default_region" ∷ "interface_type" ∷ "nginx_prefix" ∷ "base_domains"
    ∷ "system_admin_roles" ∷ "system_reader_roles" ∷ "service_mapping" ∷ "extension_mapping"
    ∷ "reclaim_instance_interval" ∷ "admin_role_id" ∷ "member_role_id" ∷ "admin_user_id"
    ∷ "port_forwarding_limit" ∷ "portforward_api_url" ∷ "portforward_authorization_key"
    ∷ "portforward_vm_internal_ips" ∷ "nova_quota_instances" ∷ "nova_quota_cores" ∷ "nova_quota_ram"
    ∷ "cinder_quota_gigabytes" ∷ "nova_default_image_for_volume_boot" ∷ []
