-- ===== src/Extension/Servers.antt =====
-- The listings of servers, and of servers in the recycle bin.
use skyline_apiserver_extens.Common.{
  String, Bool, true, false, Option, none, some, List, [], ◌∷◌, ◌==◌, if◌then◌else◌,
}
use skyline_apiserver_extens.Common.Int.{ℤ, ◌+ℤ◌}
use skyline_apiserver_extens.Runtime.{Result, ok, err}
use skyline_apiserver_extens.Roles.{RoleConf, assert_system_admin_or_reader}
use skyline_apiserver_extens.World.{M, ◌>>=◌, ◌>>◌, pure, lift, ask}
use skyline_apiserver_extens.Profile.{Profile}
use skyline_apiserver_extens.Common.Dict.{Dict}
use skyline_apiserver_extens.Extension.{
  ImageMeta, text_or, cons_row, Services, user, system, Server, ServerQuery, ServerSearch, Row,
  given, batches, fetch_all, id_uuid_range_step, image_ids, root_device_ids, image_mappings,
  ser_image_mappings, enrich, project_id_name_map, name_or_raise, name_or_none,
}

-- The scope that a request asks for.
pub record Scope : Type 0 where
  pub all_projects : Bool
  pub project_id : Option String
  pub project_name : Option String

-- `status`, as `list_recycle_servers` sets it
abbrev pub recycled : ServerQuery → ServerQuery
recycled query = record query { status = some "soft_deleted"; host = none; flavor_id = none }

-- without `all_projects` the two filters are dropped
abbrev pub effective : Scope → Scope
effective scope =
    if scope.all_projects
    then scope
    else record { all_projects = false; project_id = none; project_name = none }

-- Where a project was asked for by its name: none for an empty answer, or the id to look for.
abbrev pub found_project : Option String → List (String × String) → Option (Option String)
found_project project_id [] = none
found_project none (p ∷ _) = some (some p.0)
found_project (some id) (p ∷ _) = elim (given (some id)) [
  | none ↦ some (some p.0)
  | some asked ↦ if p.0 == asked then some (some p.0) else none
]

-- `search_opts` of `list_servers`
abbrev pub plain_options : ServerQuery → Bool → Option String → ServerSearch
plain_options query all_projects project_id = record {
  query = query;
  project_id = project_id;
  all_tenants = all_projects;
  deleted = false;
}

-- `search_opts` of `list_recycle_servers`
abbrev pub recycled_options : Profile → ServerQuery → Bool → Option String → ServerSearch
recycled_options profile query all_projects project_id = record {
  query = recycled query;
  project_id = if all_projects then project_id else some profile.project.id;
  all_tenants = true;
  deleted = true;
}

-- `for server in result: …`, where a step may raise
unfoldable pub enrich_all : (Server → Result Row) → List Server → Result (List Row)
enrich_all f [] = ok []
enrich_all f (s ∷ ss) = let rest = enrich_all f ss in cons_row (f s) rest

module _ (roles : RoleConf) (services : Services) (reclaim_instance_interval : ℤ) where
  unfoldable pub find_project : Scope → M (Option (Option String))
  find_project scope = elim (given scope.project_name) [
    | none ↦ pure (some scope.project_id)
    | some name ↦ (do
      projects ← ask (λ w. services.list_projects w system scope.all_projects (some name))
      pure (found_project scope.project_id projects))
  ]

  abbrev pub allowed : Profile → String → Scope → Result (Unit {0})
  allowed profile exception scope =
      if scope.all_projects then assert_system_admin_or_reader roles profile exception else ok tt

  -- the rows of the servers: the images and the volumes in batches, and what they say of a server
  unfoldable pub join :
      (Dict (Option String × Option String) → Dict ImageMeta → Server → Result Row)
      → List Server
      → M (List Row)
  unfolding enrich_all fetch_all batches
  join row servers = do
    images ← fetch_all services.list_images (batches id_uuid_range_step (image_ids [] servers))
    volumes ←
        fetch_all services.list_volumes (batches id_uuid_range_step (root_device_ids [] servers))
    lift (enrich_all (row (image_mappings images []) (ser_image_mappings volumes [])) servers)

  -- `enrich server`, in the two handlers
  unfoldable pub plain_row :
      Bool → Dict (Option String × Option String) → Dict ImageMeta → Server → Result Row
  plain_row all_projects images metas s = ok (enrich all_projects images metas none s)

  unfoldable pub row_at :
      Bool → Dict (Option String × Option String) → Dict ImageMeta → Server → Result ℤ → Result Row
  row_at all_projects images metas s (err e) = err e
  row_at all_projects images metas s (ok t) =
      ok (enrich all_projects images metas (some (t +ℤ reclaim_instance_interval)) s)

  unfoldable pub recycled_row :
      Bool → Dict (Option String × Option String) → Dict ImageMeta → Server → Result Row
  recycled_row all_projects images metas s =
      row_at all_projects images metas s (services.timestamp (text_or s.updated_at ""))

  -- `project_name` of the rows, where all projects are listed
  unfoldable pub named_or_raise : Bool → List Row → M (List Row)
  unfolding name_or_raise
  named_or_raise false rows = pure rows
  named_or_raise true rows = do
    projects ← ask (λ w. services.list_projects w user true none)
    lift (name_or_raise (project_id_name_map projects []) rows)

  unfoldable pub named_or_none : Bool → List Row → M (List Row)
  named_or_none false rows = pure rows
  named_or_none true rows = do
    projects ← ask (λ w. services.list_projects w user true none)
    pure (name_or_none (project_id_name_map projects []) rows)

  -- a search of Nova and what is made of its answer
  unfoldable pub search_plain : ServerQuery → Bool → Option String → M (List Row)
  search_plain query all_projects project_id = do
    servers ← ask (λ w. services.list_servers w user (plain_options query all_projects project_id))
    rows ← join (plain_row all_projects) servers
    named_or_raise all_projects rows

  unfoldable pub search_recycled : Profile → ServerQuery → Bool → Option String → M (List Row)
  search_recycled profile query all_projects project_id = do
    servers ← ask (λ w.
        services.list_servers w system (recycled_options profile query all_projects project_id))
    rows ← join (recycled_row all_projects) servers
    named_or_none all_projects rows

  abbrev pub search_found : (Option String → M (List Row)) → Option (Option String) → M (List Row)
  search_found search none = pure []
  search_found search (some project_id) = search project_id

  unfoldable pub list_servers : Profile → Scope → ServerQuery → M (List Row)
  unfolding search_plain
  list_servers profile scope query = do
    lift (allowed profile "Not allowed to get servers for all projects." scope)
    ask (λ w. services.generate_session w profile)
    ask services.get_system_session
    found ← find_project (effective scope)
    search_found (search_plain query scope.all_projects) found

  unfoldable pub list_recycle_servers : Profile → Scope → ServerQuery → M (List Row)
  unfolding search_recycled
  list_recycle_servers profile scope query = do
    lift (allowed profile "Not allowed to get recycle servers for all projects." scope)
    ask (λ w. services.generate_session w profile)
    ask services.get_system_session
    found ← find_project (effective scope)
    search_found (search_recycled profile query scope.all_projects) found
