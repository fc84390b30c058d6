-- ===== src/Extension/Data.antt =====
-- What the listings of api/v1/extension.py are asked and what the services' clients answer, and the
-- batches of ids that are asked for.
use skyline_apiserver_extens.Common.{
  ℕ, zero, suc, String, Bool, Option, none, some, List, [], ◌∷◌, ◌==◌, length, if◌then◌else◌,
}
use skyline_apiserver_extens.Common.Int.{ℤ}
use skyline_apiserver_extens.Runtime.{Result}
use skyline_apiserver_extens.World.{World}
use skyline_apiserver_extens.Profile.{Profile}

-- whose session a client works with
pub data Session : Type 0 where
  user system : Session

-- The query parameters that the listings of servers pass on.
pub record ServerQuery : Type 0 where
  pub name : Option String
  pub status : Option String
  pub host : Option String
  pub flavor_id : Option String
  pub uuid : Option String
  pub ip : Option String
  pub marker : Option String
  pub limit : Option ℕ
  pub sort_keys : List String
  pub sort_dirs : Option String

-- `search_opts` of Nova, besides the paging and the order
pub record ServerSearch : Type 0 where
  pub query : ServerQuery
  pub project_id : Option String
  pub all_tenants : Bool
  pub deleted : Bool

-- `Server` of api/wrapper, with the fields that the joins read
pub record Server : Type 0 where
  pub id : String
  pub project_id : String
  pub host : Option String
  pub image : Option String
  pub volumes_attached : List String
  pub updated_at : Option String

pub record Image : Type 0 where
  pub id : String
  pub name : Option String
  pub os_distro : Option String

-- `volume_image_metadata`
pub record ImageMeta : Type 0 where
  pub image_id : Option String
  pub image_name : Option String
  pub os_distro : Option String

-- A volume: its metadata, none where it is missing or empty, and the servers of its attachments.
pub record Volume : Type 0 where
  pub volume_image_metadata : Option ImageMeta
  pub attachments : List String

pub record Services : Type 0 where
  pub generate_session : World → Profile → Result (Unit {0})
  pub get_system_session : World → Result (Unit {0})
  -- the projects, all of them or the user's, of a name: ids and names
  pub list_projects : World → Session → Bool → Option String → Result (List (String × String))
  pub list_servers : World → Session → ServerSearch → Result (List Server)
  pub list_images : World → List String → Result (List Image)
  pub list_volumes : World → List String → Result (List Volume)
  -- `parser.isoparse(text).timestamp()`
  pub timestamp : String → Result ℤ

-- `if text:`, where it may be None
abbrev pub given : Option String → Option String
given none = none
given (some s) = if s == "" then none else some s

-- `text or other`
abbrev pub text_or : Option String → String → String
text_or none b = b
text_or (some a) b = if a == "" then b else a

module _ {ℓ} {A : Type ℓ} where
  -- `xs[:n]` and `xs[n:]`
  abbrev pub take : ℕ → List A → List A
  take zero xs = []
  take (suc n) [] = []
  take (suc n) (x ∷ xs) = x ∷ take n xs

  abbrev pub drop : ℕ → List A → List A
  drop zero xs = xs
  drop (suc n) [] = []
  drop (suc n) (x ∷ xs) = drop n xs

  -- The rounds of `for i in range(0, len(xs), step): … xs[i : i + step]`; each takes at least one
  -- item, so as many rounds as items are enough.
  unfoldable pub batches_within : ℕ → ℕ → List A → List (List A)
  batches_within zero step xs = []
  batches_within (suc n) step [] = []
  batches_within (suc n) step (x ∷ xs) =
      take step (x ∷ xs) ∷ batches_within n step (drop step (x ∷ xs))

  unfoldable pub batches : ℕ → List A → List (List A)
  batches step xs = batches_within (length xs) step xs

-- `ID_UUID_RANGE_STEP`
abbrev pub id_uuid_range_step : ℕ
id_uuid_range_step = 100
