-- ===== src/Policy/Decisions.antt =====
-- What an enforcer grants, and what it does when its policy file cannot be read.
use skyline_apiserver_extens.Common.{
  String, ◌≡◌, refl, Bool, true, Option, none, some, ◌⊎◌, inl, inr, arith,
}
use skyline_apiserver_extens.Common.Dict.{Dict, lookup}
use skyline_apiserver_extens.Runtime.{Exn, Result, ok, err}
use skyline_apiserver_extens.Policy.Enforcer.{
  Enforcer, PolicyFile, missing, present, load_rules, authorize, reload, or_rule, decide,
}

module _ {Check : Type 0} where
  granted_by :
      (check : Check → Result Bool) (file built_in : Option Check)
      → decide check (or_rule file built_in) ≡ true
      → (c : Check) × (check c ≡ ok true)
        × ((file ≡ some c) ⊎ ((file ≡ none) × (built_in ≡ some c)))
  granted_by check (some c) b h = (c, ground arith, inl refl)
  granted_by check none (some c) h = (c, ground arith, inr (refl, refl))
  granted_by check none none h = cc

  reload-rules :
      (load : String → Result (Dict Check)) (e : Enforcer Check) (read : Result (Bool × String))
      → (reload load e read).1.rules ≡ e.rules
  reload-rules load e (err x) = refl
  reload-rules load e (ok (reloaded, text)) = ground (arith)

  load_rules-rules :
      (load : String → Result (Dict Check)) (file : PolicyFile) (e : Enforcer Check)
      → (load_rules load file e).1.rules ≡ e.rules
  unfolding load_rules
  load_rules-rules load missing e = refl
  load_rules-rules load (present read) e = reload-rules load e read

  -- Whatever the policy file and the checks do, a rule is granted only by a check that is registered
  -- under its name and evaluates to true without raising; that is the check of the policy file, as
  -- it was loaded last, wherever the file has one, and else the built-in check.
  pub authorize_sound :
      (load : String → Result (Dict Check)) (file : PolicyFile) (check : Check → Result Bool)
      (name : String) (e : Enforcer Check)
      → (authorize load file check name e).0 ≡ true
      → let e' = (authorize load file check name e).1 in
        (c : Check) × (check c ≡ ok true)
        × ((lookup name e'.file_rules ≡ some c)
            ⊎ ((lookup name e'.file_rules ≡ none) × (lookup name e.rules ≡ some c)))
  unfolding authorize
  authorize_sound load file check name e h = rw (load_rules-rules load file e) at (
      granted_by check (lookup name (load_rules load file e).1.file_rules)
        (lookup name (load_rules load file e).1.rules) h)

  -- A file that cannot be read leaves the enforcer, and so its decisions, as they were.
  pub authorize_unreadable :
      (load : String → Result (Dict Check)) (x : Exn) (check : Check → Result Bool) (name : String)
      (e : Enforcer Check)
      → authorize load (present (err x)) check name e
        ≡ (decide check (or_rule (lookup name e.file_rules) (lookup name e.rules)), e)
  unfolding authorize load_rules
  authorize_unreadable load x check name e = refl
