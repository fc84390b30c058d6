-- ===== src/Setting/Effective.antt =====
-- The list of all settings, and what is shown for each of them.
use mathlib.Core.Option
use skyline_apiserver_extens.Common.{
  String, ◌≡◌, refl, ap, ◌∙◌, true, Option, none, some, ◌⊎◌, inl, inr, List, [], ◌∷◌, map, contains,
  ◌==◌, eq_iff, arith, text-cases, if◌then◌else◌, All,
}
use skyline_apiserver_extens.Common.Table.{find_row, Unique}
use skyline_apiserver_extens.Common.Dict.{Dict, lookup, insert, lookup-insert}
use skyline_apiserver_extens.Runtime.{Json, ok, Result-cases, ok-injective}
use skyline_apiserver_extens.Config.{get_attr}
use skyline_apiserver_extens.Db.{Db}
use skyline_apiserver_extens.Db
use skyline_apiserver_extens.Db.Settings.{IsKeyed}
use skyline_apiserver_extens.Setting.{
  SettingConf, Setting, setting_of, set_value, value_or, assign, defaults, override, list_settings,
  show_setting,
}

lookup-assign :
    (k key : String) (v : Json) (d : Dict Setting)
    → lookup k (assign key v d)
      ≡ (if key == k then Option.map (set_value v) (lookup k d) else lookup k d)
unfolding assign
lookup-assign k key v [] = ground arith
lookup-assign k key v ((j, s) ∷ d) =
    ground (arith, eq_iff key k, eq_iff j key, eq_iff j k, lookup-assign k key v d)

module _ (conf : SettingConf) where
  abbrev overridden : Option Db.Setting → Option Setting → Option Setting
  overridden none s = s
  overridden (some row) s = Option.map (set_value row.value) s

  lookup-override :
      (k : String) (rows : List Db.Setting) (d : Dict Setting)
      → contains k conf.base_settings ≡ true
      → Unique (λ r. r.key) rows
      → lookup k (override conf rows d) ≡ overridden (find_row (λ r. r.key) k rows) (lookup k d)
  unfolding override
  lookup-override k [] d h u = refl
  lookup-override k (row ∷ rows) d h (fresh, u) = ground (
    arith,
    eq_iff row.key k,
    lookup-assign k row.key row.value d,
    lookup-override k rows (assign row.key row.value d) h u,
    lookup-override k rows d h u,
  )

  -- A key that is listed has its option's value in the dict of defaults.
  lookup-defaults :
      (k : String) (v : Json) (ks : List String) (d d' : Dict Setting)
      → get_attr conf.setting k ≡ ok v
      → ((contains k ks ≡ true) ⊎ (lookup k d ≡ some (setting_of k v)))
      → defaults conf ks d ≡ ok d'
      → lookup k d' ≡ some (setting_of k v)
  unfolding defaults
  lookup-defaults k v [] d d' a h e = ground arith
  lookup-defaults k v (j ∷ ks) d d' a h e = elim (Result-cases (get_attr conf.setting j)) [
    | inl (u, got) ↦
        lookup-defaults k v ks (insert j (setting_of j u) d) d' a (kept u got)
          (rw (got, defaults) at e)
    | inr (x, raised) ↦ absurd (cc (rw (raised, defaults) at e))
  ]
    where
      kept :
          (u : Json)
          → get_attr conf.setting j ≡ ok u
          → (contains k ks ≡ true)
            ⊎ (lookup k (insert j (setting_of j u) d) ≡ some (setting_of k v))
      kept u got = ground (arith, eq_iff k j, eq_iff j k, lookup-insert j k (setting_of j u) d)

  -- Where the dict of defaults is built, every listed key has an option.
  defaults-attr :
      (k : String) (ks : List String) (d d' : Dict Setting)
      → contains k ks ≡ true
      → defaults conf ks d ≡ ok d'
      → (v : Json) × (get_attr conf.setting k ≡ ok v)
  unfolding defaults
  defaults-attr k [] d d' h e = cc
  defaults-attr k (j ∷ ks) d d' h e = elim (Result-cases (get_attr conf.setting j)) [
    | inl (u, got) ↦ elim (text-cases k j) [
      | inl same ↦ (u, rw same got)
      | inr differs ↦
          defaults-attr k ks (insert j (setting_of j u) d) d' (rw differs at h)
            (rw (got, defaults) at e)
    ]
    | inr (x, raised) ↦ absurd (cc (rw (raised, defaults) at e))
  ]

  -- Entries that stand under their own keys are found by them.
  abbrev IsNamed : Dict Setting → Type 0
  IsNamed d = All (λ e. e.1.key ≡ e.0) d

  find_row-values :
      (k : String) (d : Dict Setting)
      → IsNamed d
      → find_row (λ s. s.key) k (map (λ e. e.1) d) ≡ lookup k d
  find_row-values k [] h = refl
  find_row-values k ((j, s) ∷ d) (e, h) = ground (arith, find_row-values k d h)

  insert-IsNamed :
      (k : String) (s : Setting) (d : Dict Setting) → s.key ≡ k → IsNamed d → IsNamed (insert k s d)
  insert-IsNamed k s [] e h = (e, tt)
  insert-IsNamed k s ((j, t) ∷ d) e (f, h) = ground (arith, eq_iff j k, insert-IsNamed k s d e h)

  assign-IsNamed : (k : String) (v : Json) (d : Dict Setting) → IsNamed d → IsNamed (assign k v d)
  unfolding assign
  assign-IsNamed k v [] h = tt
  assign-IsNamed k v ((j, t) ∷ d) (f, h) = ground (arith, assign-IsNamed k v d h)

  override-IsNamed :
      (rows : List Db.Setting) (d : Dict Setting) → IsNamed d → IsNamed (override conf rows d)
  unfolding override
  override-IsNamed [] d h = h
  override-IsNamed (row ∷ rows) d h = ground (
    arith,
    override-IsNamed rows (assign row.key row.value d) (assign-IsNamed row.key row.value d h),
    override-IsNamed rows d h,
  )

  defaults-IsNamed :
      (ks : List String) (d d' : Dict Setting) → IsNamed d → defaults conf ks d ≡ ok d' → IsNamed d'
  unfolding defaults
  defaults-IsNamed [] d d' h e = ground arith
  defaults-IsNamed (j ∷ ks) d d' h e = elim (Result-cases (get_attr conf.setting j)) [
    | inl (u, got) ↦
        defaults-IsNamed ks (insert j (setting_of j u) d) d'
          (insert-IsNamed j (setting_of j u) d refl h) (rw (got, defaults) at e)
    | inr (x, raised) ↦ absurd (cc (rw (raised, defaults) at e))
  ]

  shown :
      (k : String) (db : Db) (v : Json)
      → contains k conf.base_settings ≡ true
      → get_attr conf.setting k ≡ ok v
      → show_setting conf k db ≡ ok (setting_of k (value_or (Db.get_setting k db) v))
  unfolding show_setting
  shown k db v h a = ground arith

  overridden-value_or :
      (k : String) (v : Json) (o : Option Db.Setting)
      → overridden o (some (setting_of k v)) ≡ some (setting_of k (value_or o v))
  overridden-value_or k v none = refl
  overridden-value_or k v (some row) = refl

  listed :
      (k : String) (db : Db) (d : Dict Setting) (v : Json)
      → IsKeyed db
      → contains k conf.base_settings ≡ true
      → get_attr conf.setting k ≡ ok v
      → defaults conf conf.base_settings [] ≡ ok d
      → find_row (λ s. s.key) k (map (λ e. e.1) (override conf (Db.list_settings db) d))
        ≡ some (setting_of k (value_or (Db.get_setting k db) v))
  unfolding Db.list_settings Db.get_setting
  listed k db d v u h a e =
      find_row-values k (override conf db.settings d)
        (override-IsNamed db.settings d (defaults-IsNamed conf.base_settings [] d tt e))
      ∙ lookup-override k db.settings d h u
      ∙ ap (overridden (find_row (λ r. r.key) k db.settings))
          (lookup-defaults k v conf.base_settings [] d a (inl h) e)
      ∙ overridden-value_or k v (find_row (λ r. r.key) k db.settings)

  -- Where all settings are listed, each key of the base settings is in the list with what is shown for
  -- it alone: the value of the database where it has one, or else that of the configuration.
  pub list-show :
      (k : String) (db : Db) (vs : List Setting)
      → IsKeyed db
      → contains k conf.base_settings ≡ true
      → list_settings conf db ≡ ok vs
      → (s : Setting) × (find_row (λ s. s.key) k vs ≡ some s) × (show_setting conf k db ≡ ok s)
  unfolding list_settings
  list-show k db vs u h e = elim (Result-cases (defaults conf conf.base_settings [])) [
    | inl (d, built) ↦
        let (v, a) = defaults-attr k conf.base_settings [] d h built in
        (
          setting_of k (value_or (Db.get_setting k db) v),
          rw (← ok-injective (rw (built, list_settings) at e)) (listed k db d v u h a built),
          shown k db v h a,
        )
    | inr (x, raised) ↦ absurd (cc (rw (raised, list_settings) at e))
  ]
