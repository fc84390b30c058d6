-- ===== src/Config/Tests.antt =====
-- The theorem on loading at a concrete file.
use skyline_apiserver_extens.Common.{◌≡◌, some, String, refl, Bool, true, [], ◌∷◌, All}
use skyline_apiserver_extens.Runtime.{Json, null, bool, str, obj, end, field, Result, ok}
use skyline_apiserver_extens.Config.{
  Opt, Configuration, load_groups, load_opts, configured, load, get, first_existing, setup,
}
use skyline_apiserver_extens.Config.Setup.{LoadedGroup, setup-LoadedGroup}

abbrev debug : Opt
debug = record { name = "debug"; schema = λ _. true; default = bool true; value = null }

abbrev region : Opt
region = record { name = "region"; schema = λ _. true; default = str "RegionOne"; value = null }

abbrev fresh : Configuration
fresh = record {
  config = obj end;
  groups =
      ("default", record { name = "default"; opts = ("debug", debug) ∷ ("region", region) ∷ [] })
      ∷ [];
}

abbrev file : Json
file = obj (field "default" (obj (field "region" (str "RegionTwo") end)) end)

abbrev exists : String → Bool
exists path = true

abbrev safe_load : String → Result Json
safe_load path = ok file

setup-LoadedGroup_example :
    (path : String) × (config : Json) × (first_existing exists ("skyline.yaml" ∷ []) ≡ some path)
    × (safe_load path ≡ ok config)
    × ((setup exists safe_load ("skyline.yaml" ∷ []) fresh).1.config ≡ config)
    × All (LoadedGroup config) (setup exists safe_load ("skyline.yaml" ∷ []) fresh).1.groups
unfolding setup first_existing load_groups load_opts configured load get
setup-LoadedGroup_example = setup-LoadedGroup exists safe_load ("skyline.yaml" ∷ []) fresh refl
