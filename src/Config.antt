-- ===== src/Config.antt =====
-- config/base.py, config/__init__.py and the option list of config/openstack.py. The schema check
-- of pydantic is the field `schema`; `exists` and `safe_load` are the file system and PyYAML. The
-- maps of `immutables` are dicts, visited in the order of insertion.
pub mod Openstack
pub mod Setup
mod Tests
use Prim.Native.String
use skyline_apiserver_extens.Common.{String, Bool, Option, none, some, List, [], ◌∷◌, if◌then◌else◌}
use skyline_apiserver_extens.Common.Dict.{Dict, lookup, insert}
use skyline_apiserver_extens.Runtime.{
  Json, null, obj, end, is_null, get_field, Result, ok, err, other, ◌>>=◌,
}

-- `Opt`, its value included
pub record Opt : Type 0 where
  pub name : String
  pub schema : Json → Bool
  pub default : Json
  pub value : Json

-- `Group`
pub record Group : Type 0 where
  pub name : String
  pub opts : Dict Opt

-- `Configuration`
pub record Configuration : Type 0 where
  pub config : Json
  pub groups : Dict Group

-- `{opt.name: opt for opt in init_opts}`
abbrev pub opt_map : List Opt → Dict Opt → Dict Opt
opt_map [] d = d
opt_map (o ∷ os) d = opt_map os (insert o.name o d)

abbrev pub group_map : List Group → Dict Group → Dict Group
group_map [] d = d
group_map (g ∷ gs) d = group_map gs (insert g.name g d)

-- `Group(name, init_opts)`
unfoldable pub group : String → List Opt → Group
group name init_opts = record { name = name; opts = opt_map init_opts [] }

-- `Group.__getattr__`
unfoldable pub get_attr : Group → String → Result Json
get_attr g name = elim (lookup name g.opts) [
  | none ↦ err (other "AttributeError")
  | some o ↦ ok o.value
]

-- `Configuration.__getattr__`
pub get_group : Configuration → String → Result Group
get_group c name = elim (lookup name c.groups) [
  | none ↦ err (other "AttributeError")
  | some g ↦ ok g
]

-- `CONF(init_groups)`
pub call : List Group → Configuration → Configuration
call init_groups c = record c { groups = group_map init_groups [] }

-- `Opt.load`
unfoldable pub load : Json → Opt → Result Opt
load value o =
    let v = if is_null value then o.default else value in
    if o.schema v then ok (record o { value = v }) else err (other "ValidationError")

-- `d.get(k)`, with `fallback` where the key is missing; only a mapping has `get`
unfoldable pub get : Json → String → Json → Result Json
get (obj fs) k fallback = elim (get_field k fs) [ none ↦ ok fallback | some v ↦ ok v ]
get _ k fallback = err (other "AttributeError")

-- `self.config.get(group.name, {}).get(opt.name)`
unfoldable pub configured : Json → String → String → Result Json
unfolding get
configured config group opt = do section ← get config group (obj end); get section opt null

-- The inner loop of `setup`: what was loaded before an exception stays loaded.
unfoldable pub load_opts : Json → String → Dict Opt → Result (Unit {0}) × Dict Opt
load_opts config g [] = (ok tt, [])
load_opts config g ((k, o) ∷ os) =
    let (r, os') = load_opts config g os in
    elim (configured config g o.name >>= λ v. load v o) [
      | err e ↦ (err e, (k, o) ∷ os)
      | ok o' ↦ (r, (k, o') ∷ os')
    ]

-- The outer loop.
unfoldable pub load_groups : Json → Dict Group → Result (Unit {0}) × Dict Group
load_groups config [] = (ok tt, [])
load_groups config ((k, g) ∷ gs) =
    let (r, gs') = load_groups config gs in
    let (done, os) = load_opts config g.name g.opts in
    let g' : Group = record g { opts = os } in
    elim done [ err e ↦ (err e, (k, g') ∷ gs) | ok _ ↦ (r, (k, g') ∷ gs') ]

-- `get_config_path`; `join` is `PurePath.joinpath(…).as_posix()`, `strip` that of str.
module _ (join : String → String → String) (strip : String → String) where
  unfoldable pub get_config_path : String → Dict String → String × String
  get_config_path project env =
      let dir : String = elim (lookup "OS_CONFIG_DIR" env) [
        | none ↦ join "/etc" project
        | some d ↦ d
      ] in
      (strip dir, strip (join dir (String.◌++◌ project ".yaml")))

-- The first of the possible paths that exists.
unfoldable pub first_existing : (String → Bool) → List String → Option String
first_existing exists [] = none
first_existing exists (p ∷ ps) = if exists p then some p else first_existing exists ps

-- `Configuration.setup` from the list of possible paths on. `safe_load` opens and parses a file.
unfoldable pub setup :
    (String → Bool)
    → (String → Result Json)
    → List String
    → Configuration
    → Result (Unit {0}) × Configuration
unfolding first_existing load_groups load_opts configured load
setup exists safe_load possible_paths c = elim (first_existing exists possible_paths) [
  | none ↦ (err (other "ValueError"), c)
  | some path ↦ elim (safe_load path) [
    | err _ ↦ (err (other "ValueError"), c)
    | ok config ↦
        let (r, gs) = load_groups config c.groups in (r, record c { config = config; groups = gs })
  ]
]

-- `Configuration.cleanup`; the options, which other groups may share, are reset first
unfoldable pub cleanup : Configuration → Configuration
cleanup c = record c { config = obj end; groups = [] }
