-- ===== src/Extension/Join.antt =====
-- The loops of the listings of servers: the ids to ask for, and the rows of the answer.
use skyline_apiserver_extens.Common.{
  String, Bool, Option, none, some, List, [], ◌∷◌, ◌++◌, contains, if◌then◌else◌,
}
use skyline_apiserver_extens.Common.Dict.{Dict, lookup, insert}
use skyline_apiserver_extens.Common.Int.{ℤ}
use skyline_apiserver_extens.Runtime.{other, Result, ok, err}
use skyline_apiserver_extens.Extension.Data.{given, Server, Image, ImageMeta, Volume}

-- `ids.add(id)`
abbrev pub add : List String → String → List String
add ids id = if contains id ids then ids else ids ++ id ∷ []

abbrev pub add_all : List String → List String → List String
add_all ids [] = ids
add_all ids (x ∷ xs) = add_all (add ids x) xs

-- the first loop over the servers: the ids of the images, and of the volumes
abbrev pub add_image : List String → Server → List String
add_image ids s = elim (given s.image) [ none ↦ ids | some id ↦ add ids id ]

abbrev pub image_ids : List String → List Server → List String
image_ids ids [] = ids
image_ids ids (s ∷ ss) = image_ids (add_image ids s) ss

abbrev pub root_device_ids : List String → List Server → List String
root_device_ids ids [] = ids
root_device_ids ids (s ∷ ss) = root_device_ids (add_all ids s.volumes_attached) ss

-- `image_mappings`
abbrev pub image_mappings :
    List Image → Dict (Option String × Option String) → Dict (Option String × Option String)
image_mappings [] d = d
image_mappings (i ∷ is) d = image_mappings is (insert i.id (i.name, i.os_distro) d)

-- `ser_image_mappings`
abbrev pub map_attachments : ImageMeta → List String → Dict ImageMeta → Dict ImageMeta
map_attachments meta [] d = d
map_attachments meta (s ∷ ss) d = map_attachments meta ss (insert s meta d)

abbrev pub ser_image_mappings : List Volume → Dict ImageMeta → Dict ImageMeta
ser_image_mappings [] d = d
ser_image_mappings (v ∷ vs) d =
    ser_image_mappings vs
      (elim v.volume_image_metadata [ none ↦ d | some meta ↦ map_attachments meta v.attachments d ])

-- A server of the answer.
pub record Row : Type 0 where
  pub server : Server
  pub host : Option String
  pub project_name : Option String
  pub image : Option String
  pub image_name : Option String
  pub image_os_distro : Option String
  -- of a server in the recycle bin
  pub reclaim_timestamp : Option ℤ

-- what is shown of a server's image: its id, its name and its system
abbrev pub image_info :
    Dict (Option String × Option String)
    → Option String
    → Option ImageMeta
    → Option String × Option String × Option String
image_info images image (some meta) = (meta.image_id, meta.image_name, meta.os_distro)
image_info images image none = elim (given image) [
  | none ↦ (image, none, none)
  | some id ↦ elim (lookup id images) [
    | none ↦ (image, some "", some "")
    | some info ↦ (image, info.0, info.1)
  ]
]

-- the second loop, for one server
unfoldable pub enrich :
    Bool → Dict (Option String × Option String) → Dict ImageMeta → Option ℤ → Server → Row
enrich all_projects images metas reclaim s =
    let info : Option String × Option String × Option String =
      image_info images s.image (lookup s.id metas) in
    record {
      server = s;
      host = if all_projects then s.host else none;
      project_name = none;
      image = info.0;
      image_name = info.1;
      image_os_distro = info.2;
      reclaim_timestamp = reclaim;
    }

-- one more row, where none raised
abbrev pub cons_row : Result Row → Result (List Row) → Result (List Row)
cons_row (err e) rows = err e
cons_row (ok r) (err e) = err e
cons_row (ok r) (ok rows) = ok (r ∷ rows)

-- `{project.id: project.name for project in projects}`
abbrev pub project_id_name_map : List (String × String) → Dict String → Dict String
project_id_name_map [] d = d
project_id_name_map (p ∷ ps) d = project_id_name_map ps (insert p.0 p.1 d)

-- the last loop of `list_servers`: a project that is not in the map is a KeyError
abbrev pub named_as : Option String → Row → Result Row
named_as none r = err (other "KeyError")
named_as (some name) r = ok (record r { project_name = some name })

abbrev pub with_name : Dict String → Row → Result Row
with_name names r = named_as (lookup r.server.project_id names) r

unfoldable pub name_or_raise : Dict String → List Row → Result (List Row)
name_or_raise names [] = ok []
name_or_raise names (r ∷ rows) =
    let rest = name_or_raise names rows in cons_row (with_name names r) rest

-- that of `list_recycle_servers`
abbrev pub name_or_none : Dict String → List Row → List Row
name_or_none names [] = []
name_or_none names (r ∷ rows) =
    record r { project_name = lookup r.server.project_id names } ∷ name_or_none names rows
