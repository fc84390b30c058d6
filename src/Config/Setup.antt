-- ===== src/Config/Setup.antt =====
-- What a configuration holds once `setup` has succeeded.
use skyline_apiserver_extens.Common.{
  String, ◌≡◌, refl, subst, Bool, true, Bool-cases, Option-cases, some, inl, inr, List, [], ◌∷◌,
  All, if◌then◌else◌,
}
use skyline_apiserver_extens.Common.Dict.{Dict}
use skyline_apiserver_extens.Runtime.{Json, is_null, Result, ok, Result-cases, ok-injective}
use skyline_apiserver_extens.Config.{
  Opt, Group, Configuration, load, configured, load_opts, load_groups, first_existing, setup,
}

-- An option has the value of the file, or its default where the file has none, and its schema
-- accepts it.
abbrev pub Loaded : Json → String → String × Opt → Type 0
Loaded config g (_, o) =
    (v : Json) × (configured config g o.name ≡ ok v)
    × (o.value ≡ (if is_null v then o.default else v))
    × (o.schema o.value ≡ true)

-- All options of a group.
abbrev pub LoadedGroup : Json → String × Group → Type 0
LoadedGroup config (_, g) = All (Loaded config g.name) g.opts

load-Loaded :
    (config : Json) (g k : String) (o o' : Opt) (v : Json)
    → configured config g o.name ≡ ok v
    → load v o ≡ ok o'
    → Loaded config g (k, o')
unfolding load
load-Loaded config g k o o' v c h =
    elim (Bool-cases (o.schema (if is_null v then o.default else v))) [
      | inl accepted ↦
          subst (λ x. Loaded config g (k, x)) (ok-injective (rw (accepted, load) at h))
            (v, c, refl, accepted)
      | inr refused ↦ absurd (cc (rw (refused, load) at h))
    ]

module _ (config : Json) where
  opts-Loaded :
      (g : String) (os : Dict Opt)
      → (load_opts config g os).0 ≡ ok tt
      → All (Loaded config g) (load_opts config g os).1
  unfolding load_opts
  opts-Loaded g [] h = tt
  opts-Loaded g ((k, o) ∷ os) h = elim (Result-cases (configured config g o.name)) [
    | inr (x, raised) ↦ absurd (cc (rw (raised, load_opts) at h))
    | inl (v, got) ↦ elim (Result-cases (load v o)) [
      | inr (x, raised) ↦ absurd (cc (rw (got, raised, load_opts) at h))
      | inl (o', made) ↦
          rw (got, made, load_opts)
            (
              load-Loaded config g k o o' v got made,
              opts-Loaded g os (rw (got, made, load_opts) at h),
            )
    ]
  ]

  groups-Loaded :
      (gs : Dict Group)
      → (load_groups config gs).0 ≡ ok tt
      → All (LoadedGroup config) (load_groups config gs).1
  unfolding load_groups
  groups-Loaded [] h = tt
  groups-Loaded ((k, g) ∷ gs) h = elim (Result-cases (load_opts config g.name g.opts).0) [
    | inr (x, raised) ↦ absurd (cc (rw (raised, load_groups) at h))
    | inl (u, done) ↦
        rw (done, load_groups)
          (opts-Loaded g.name g.opts done, groups-Loaded gs (rw (done, load_groups) at h))
  ]

-- A setup that raises nothing has read the first of the possible files that exists, and its content is
-- the configuration's. Every option of every group then has the value that the file gives it, or its
-- default where the file gives none or null, and a value that its schema accepts.
pub setup-LoadedGroup :
    (exists : String → Bool) (safe_load : String → Result Json) (possible_paths : List String)
    (c : Configuration)
    → (setup exists safe_load possible_paths c).0 ≡ ok tt
    → (path : String) × (config : Json) × (first_existing exists possible_paths ≡ some path)
      × (safe_load path ≡ ok config)
      × ((setup exists safe_load possible_paths c).1.config ≡ config)
      × All (LoadedGroup config) (setup exists safe_load possible_paths c).1.groups
unfolding setup
setup-LoadedGroup exists safe_load possible_paths c h =
    elim (Option-cases (first_existing exists possible_paths)) [
      | inl absent ↦ absurd (cc (rw (absent, setup) at h))
      | inr (path, found) ↦ elim (Result-cases (safe_load path)) [
        | inr (x, raised) ↦ absurd (cc (rw (found, raised, setup) at h))
        | inl (config, read) ↦ (
          path,
          config,
          found,
          read,
          rw (found, read, setup) refl,
          rw (found, read, setup) (groups-Loaded config c.groups (rw (found, read, setup) at h)),
        )
      ]
    ]
