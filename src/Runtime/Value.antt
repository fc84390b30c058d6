-- ===== src/Runtime/Value.antt =====
-- The values of JSON and YAML that settings and configuration hold. Numbers are integers.
use skyline_apiserver_extens.Common.{
  zero, suc, String, Bool, true, false, not, Option, none, some, ◌==◌,
}
use skyline_apiserver_extens.Common.{if◌then◌else◌}
use skyline_apiserver_extens.Common.Int.{ℤ, pos}

mutual
  pub data Json : Type 0 where
    null : Json
    bool : Bool → Json
    num : ℤ → Json
    str : String → Json
    arr : Items → Json
    obj : Fields → Json

  pub data Items : Type 0 where
    nil : Items
    cons : Json → Items → Items

  pub data Fields : Type 0 where
    end : Fields
    field : String → Json → Fields → Fields

abbrev is_zero : ℤ → Bool
is_zero (pos n) = elim n [ zero ↦ true | suc _ ↦ false ]
is_zero _ = false

-- `bool(v)`
abbrev pub truthy : Json → Bool
truthy null = false
truthy (bool b) = b
truthy (num n) = not (is_zero n)
truthy (str s) = not (s == "")
truthy (arr nil) = false
truthy (arr (cons _ _)) = true
truthy (obj end) = false
truthy (obj (field _ _ _)) = true

abbrev pub is_null : Json → Bool
is_null null = true
is_null _ = false

abbrev pub get_field : String → Fields → Option Json
get_field k end = none
get_field k (field j v fs) = if j == k then some v else get_field k fs
