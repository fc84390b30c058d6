-- ===== src/Extension/Tests.antt =====
-- The listings at concrete services.
use skyline_apiserver_extens.Common.{String, true, Option, none, some, List, [], ◌∷◌, ◌≡◌, refl}
use skyline_apiserver_extens.Common.Int.{ℤ, pos, ◌+ℤ◌}
use skyline_apiserver_extens.Runtime.{ok}
use skyline_apiserver_extens.World.{steps}
use skyline_apiserver_extens.Extension.{
  Services, user, system, Server, ServerQuery, Row, batches, fetch_all, enrich, name_or_raise,
  batches_within,
}
use skyline_apiserver_extens.Extension.Servers.{
  effective, Scope, list_servers, list_recycle_servers, plain_options, recycled_options,
  find_project, search_plain, search_recycled, join, plain_row, recycled_row, row_at,
  named_or_raise, named_or_none, enrich_all,
}
use skyline_apiserver_extens.Extension.Scope.{confined, own_scope, listings-confined}
use skyline_apiserver_extens.Extension.Found.{Found, Answered, listings-Found}
use skyline_apiserver_extens.Roles.{assert_system_admin_or_reader, is_system_admin_or_reader}
use skyline_apiserver_extens.Samples.{world, member, admin, role_conf}

abbrev ids : List String
ids = "a" ∷ "b" ∷ "c" ∷ []

abbrev server : Server
server = record {
  id = "i1";
  project_id = "p1";
  host = some "h1";
  image = some "m1";
  volumes_attached = "v1" ∷ [];
  updated_at = some "2026-01-01";
}

abbrev services : Services
services = record {
  generate_session = λ _ _. ok tt;
  get_system_session = λ _. ok tt;
  list_projects = λ _ _ _ _. ok (("p1", "demo") ∷ []);
  list_servers = λ _ _ _. ok (server ∷ []);
  list_images = λ _ _. ok (record { id = "m1"; name = some "debian"; os_distro = none } ∷ []);
  list_volumes = λ _ _. ok [];
  timestamp = λ _. ok (pos 1000);
}

abbrev query : ServerQuery
query = record {
  name = none;
  status = none;
  host = none;
  flavor_id = none;
  uuid = none;
  ip = none;
  marker = none;
  limit = none;
  sort_keys = [];
  sort_dirs = none;
}

listings-confined_example :
    (list_servers role_conf services (pos 60) member (own_scope (some "p2") none) query world
      ≡ list_servers role_conf
          (confined "p1" services)
          (pos 60)
          member
          (own_scope none none)
          query
          world)
    × (list_recycle_servers role_conf services
          (pos 60)
          member
          (own_scope (some "p2") none)
          query
          world
        ≡ list_recycle_servers role_conf
            (confined "p1" services)
            (pos 60)
            member
            (own_scope none none)
            query
            world)
listings-confined_example =
    listings-confined role_conf services (pos 60) member query (some "p2") none world

abbrev all_projects : Scope
all_projects = record { all_projects = true; project_id = none; project_name = none }

abbrev row : Option ℤ → Row
row reclaim = record {
  server = server;
  host = some "h1";
  project_name = some "demo";
  image = some "m1";
  image_name = some "debian";
  image_os_distro = none;
  reclaim_timestamp = reclaim;
}

listed :
    (list_servers role_conf services (pos 60) admin all_projects query world).0 ≡ ok (row none ∷ [])
unfolding list_servers find_project search_plain join fetch_all batches batches_within enrich_all
    plain_row enrich named_or_raise name_or_raise assert_system_admin_or_reader
    is_system_admin_or_reader steps
listed = refl

listed_recycled :
    (list_recycle_servers role_conf services (pos 60) admin all_projects query world).0
    ≡ ok (row (some (pos 1060)) ∷ [])
unfolding list_recycle_servers find_project search_recycled join fetch_all batches batches_within
    enrich_all recycled_row row_at enrich named_or_none assert_system_admin_or_reader
    is_system_admin_or_reader ◌+ℤ◌ steps
listed_recycled = refl

listings-Found_example :
    Answered role_conf services
      (pos 60)
      (effective all_projects)
      world
      (λ id.
        Found role_conf services
          (pos 60)
          world
          user
          true
          (plain_options query true id)
          (row none ∷ []))
      (row none ∷ [])
    × Answered role_conf services
        (pos 60)
        (effective all_projects)
        world
        (λ id.
          Found role_conf services
            (pos 60)
            world
            system
            true
            (recycled_options admin query true id)
            (row (some (pos 1060)) ∷ []))
        (row (some (pos 1060)) ∷ [])
listings-Found_example =
    listings-Found role_conf services (pos 60) admin all_projects query world (row none ∷ [])
      (row (some (pos 1060)) ∷ []) listed listed_recycled
