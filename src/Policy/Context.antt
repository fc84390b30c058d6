-- ===== src/Policy/Context.antt =====
-- `UserContext` of policy/base.py and `_generate_target` of api/v1/policy.py. `Access` is what
-- keystoneauth1 says of a token.
use skyline_apiserver_extens.Common.{
  String, Bool, true, false, Option, none, some, List, [], ◌∷◌, contains, if◌then◌else◌,
}
use skyline_apiserver_extens.Common.Dict.{Dict}
use skyline_apiserver_extens.Runtime.{Json, str}
use skyline_apiserver_extens.Profile.{Profile}
use skyline_apiserver_extens.Roles.{RoleConf}

pub record Access : Type 0 where
  pub auth_token : Option String
  pub user_id : Option String
  pub project_id : Option String
  pub domain_id : Option String
  pub user_domain_id : Option String
  pub project_domain_id : Option String
  pub username : Option String
  pub project_name : Option String
  pub domain_name : Option String
  pub user_domain_name : Option String
  pub project_domain_name : Option String
  -- `system.get("all")`; false where there is no system scope
  pub system_all : Bool
  pub role_ids : List String
  pub role_names : List String

pub record UserContext : Type 0 where
  pub access : Access
  pub tenant_id : Option String
  pub system_scope : String
  pub roles : List String
  pub is_admin : Bool
  pub is_reader_admin : Bool

-- `for role in names: if role in roles: …; break`
unfoldable pub has_one_of : List String → List String → Bool
has_one_of [] roles = false
has_one_of (role ∷ names) roles =
    let rest = has_one_of names roles in if contains role roles then true else rest

unfoldable pub user_context : RoleConf → Access → UserContext
user_context conf access = record {
  access = access;
  tenant_id = access.project_id;
  system_scope = if access.system_all then "all" else "";
  roles = access.role_names;
  is_admin = has_one_of conf.system_admin_roles access.role_names;
  is_reader_admin = has_one_of conf.system_reader_roles access.role_names;
}

-- `user_context["system_scope"] = …`, where the system scope could be asked for
unfoldable pub with_system_scope : Option Bool → UserContext → UserContext
with_system_scope none c = c
with_system_scope (some all) c = record c { system_scope = if all then "all" else c.system_scope }

-- `enforce_new_defaults` is the value of `CONF.openstack.enforce_new_defaults`.
unfoldable pub generate_target : Json → Profile → Dict Json
generate_target enforce_new_defaults profile =
    let user = str profile.user.id in
    let project = str profile.project.id in
    let domain = str profile.project.domain.id in
    ("user_id", user)
    ∷ ("project_id", project)
    ∷ ("enforce_new_defaults", enforce_new_defaults)
    ∷ ("tenant", project)
    ∷ ("trust.trustor_user_id", user)
    ∷ ("target.user.id", user)
    ∷ ("target.user.domain_id", str profile.user.domain.id)
    ∷ ("target.project.domain_id", domain)
    ∷ ("target.project.id", project)
    ∷ ("target.trust.trustor_user_id", user)
    ∷ ("target.trust.trustee_user_id", user)
    ∷ ("target.token.user_id", user)
    ∷ ("target.domain.id", domain)
    ∷ ("target.domain_id", domain)
    ∷ ("target.credential.user_id", user)
    ∷ ("target.role.domain_id", domain)
    ∷ ("target.group.domain_id", domain)
    ∷ ("target.limit.domain.id", domain)
    ∷ ("target.limit.project_id", domain)
    ∷ ("target.limit.project.domain_id", domain)
    ∷ ("target.container.project_id", project)
    ∷ ("target.secret.project_id", project)
    ∷ ("target.order.project_id", project)
    ∷ ("target.secret.creator_id", user)
    ∷ ("allocation.owner", project)
    ∷ ("node.lessee", project)
    ∷ ("node.owner", project)
    ∷ ("member_id", project)
    ∷ ("owner", project)
    ∷ ("domain_id", domain)
    ∷ ("tenant_id", project)
    ∷ []
