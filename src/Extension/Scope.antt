-- ===== src/Extension/Scope.antt =====
-- Whose servers a listing may show.
use skyline_apiserver_extens.Common.{
  String, ◌≡◌, refl, sym, ap, Bool, false, not, ◌&&◌, Option, none, some, ◌==◌, eq_refl,
  if◌then◌else◌,
}
use mathlib.Core.Path.{fun_ext}
use skyline_apiserver_extens.Common.Int.{ℤ}
use skyline_apiserver_extens.Runtime.{ok, err, other}
use skyline_apiserver_extens.Roles.{RoleConf}
use skyline_apiserver_extens.World.{World, ◌>>=◌, ◌>>◌, pure, lift, ask}
use skyline_apiserver_extens.Profile.{Profile}
use skyline_apiserver_extens.Extension.{Services, system, ServerQuery, ServerSearch}
use skyline_apiserver_extens.Extension.Servers.{
  Scope, list_servers, list_recycle_servers, recycled_options, search_recycled, search_plain, join,
  recycled_row, row_at, named_or_none, named_or_raise, plain_row, find_project, search_found,
}

-- A search for all tenants that does not name that project.
abbrev pub is_beyond : String → ServerSearch → Bool
is_beyond own search =
    search.all_tenants && not (elim search.project_id [ none ↦ false | some id ↦ id == own ])

-- The services, but that Nova refuses such a search.
abbrev pub confined : String → Services → Services
confined own services = record services {
  list_servers = λ w session search.
      if is_beyond own search
      then err (other "Forbidden")
      else services.list_servers w session search;
}

-- a request that does not ask for all projects
abbrev pub own_scope : Option String → Option String → Scope
own_scope project_id project_name = record {
  all_projects = false;
  project_id = project_id;
  project_name = project_name;
}

module _ (roles : RoleConf) (services : Services) (interval : ℤ) (profile : Profile)
    (query : ServerQuery) where
  recycled_search :
      search_recycled roles (confined profile.project.id services) interval profile query false none
      ≡ search_recycled roles services interval profile query false none
  unfolding search_recycled join named_or_none recycled_row row_at
  recycled_search =
      ap
        (λ f. ask f >>= λ servers.
          join roles services interval (recycled_row roles services interval false) servers
          >>= named_or_none roles services interval false)
        (fun_ext (λ w.
          ap
            (λ b.
              if not b
              then err (other "Forbidden")
              else services.list_servers w system (recycled_options profile query false none))
            (eq_refl profile.project.id)))

  -- A request that does not ask for all projects is answered as if it named no project, and as if
  -- Nova refused every search for all tenants that is not limited to the project of the profile: the
  -- listing of servers, and that of the recycle bin, which is made with the session of the system.
  pub listings-confined :
      (project_id project_name : Option String) (w : World)
      → (list_servers roles services interval profile (own_scope project_id project_name) query w
          ≡ list_servers roles
              (confined profile.project.id services)
              interval
              profile
              (own_scope none none)
              query
              w)
        × (list_recycle_servers roles services interval profile
              (own_scope project_id project_name)
              query
              w
            ≡ list_recycle_servers roles
                (confined profile.project.id services)
                interval
                profile
                (own_scope none none)
                query
                w)
  unfolding list_servers list_recycle_servers find_project search_plain join named_or_raise
      plain_row
  listings-confined project_id project_name w = (
    refl,
    ap
        (λ m.
          (lift (ok tt)
              >> (ask (λ v. services.generate_session v profile)
                  >> (ask services.get_system_session
                      >> (pure (some none) >>= search_found roles services interval (λ _. m)))))
            w)
        (sym recycled_search),
  )
