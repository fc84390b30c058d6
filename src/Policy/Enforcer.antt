-- ===== src/Policy/Enforcer.antt =====
-- `Enforcer` of policy/base.py and `setup` of policy/__init__.py. What oslo.policy does is passed in:
-- `read` is the state of the policy file, with the result of `read_cached_file` where it exists,
-- `load` is `policy.Rules.load`, and `check` is `_checks._check` with its context.
use skyline_apiserver_extens.Common.{
  String, Bool, true, false, ◌||◌, Option, none, some, List, [], ◌∷◌, ◌++◌, if◌then◌else◌,
}
use skyline_apiserver_extens.Common.Dict.{Dict, lookup, insert}
use skyline_apiserver_extens.Runtime.{Result, ok, err}
use skyline_apiserver_extens.Policy.Rules.{Rule, register}

pub record Enforcer (Check : Type 0) : Type 0 where
  pub service : String
  pub rules : Dict Check
  pub file_rules : Dict Check

-- The policy file of a service as a call finds it: missing, or there with what reading gives.
pub data PolicyFile : Type 0 where
  missing : PolicyFile
  present : Result (Bool × String) → PolicyFile

abbrev pub is_empty {ℓ} : {A : Type ℓ} → List A → Bool
is_empty [] = true
is_empty (_ ∷ _) = false

-- `except Exception: result = False`
abbrev pub or_false : Result Bool → Bool
or_false (ok b) = b
or_false (err _) = false

-- `ENFORCER`
abbrev pub Enforcers : Type 0 → Type 0
Enforcers Check = Dict (Enforcer Check)

module _ {Check : Type 0} where
  -- `Enforcer(service=…)`
  abbrev pub new_enforcer : String → Enforcer Check
  new_enforcer service = record { service = service; rules = []; file_rules = [] }

  unfoldable pub register_rules :
      List (Rule Check) → Enforcer Check → Result (Unit {0}) × Enforcer Check
  register_rules rules e = elim (register rules []) [
    | err x ↦ (err x, e)
    | ok rule_map ↦ (ok tt, record e { rules = rule_map })
  ]

  abbrev pub set_file_rules :
      Enforcer Check → Result (Dict Check) → Result (Unit {0}) × Enforcer Check
  set_file_rules e (ok rules) = (ok tt, record e { file_rules = rules })
  set_file_rules e (err x) = (err x, e)

  abbrev pub reload :
      (String → Result (Dict Check))
      → Enforcer Check
      → Result (Bool × String)
      → Result (Unit {0}) × Enforcer Check
  reload load e (err x) = (err x, e)
  reload load e (ok (reloaded, text)) =
      if reloaded || is_empty e.file_rules then set_file_rules e (load text) else (ok tt, e)

  unfoldable pub load_rules :
      (String → Result (Dict Check))
      → PolicyFile
      → Enforcer Check
      → Result (Unit {0}) × Enforcer Check
  load_rules load missing e = (ok tt, record e { file_rules = [] })
  load_rules load (present read) e = reload load e read

  -- `self.file_rules.get(rule) or self.rules.get(rule)`; a check is true as an object
  abbrev pub or_rule : Option Check → Option Check → Option Check
  or_rule none built_in = built_in
  or_rule (some c) built_in = some c

  abbrev pub decide : (Check → Result Bool) → Option Check → Bool
  decide check none = false
  decide check (some c) = or_false (check c)

  -- `check` is `_check` at the target, the context and the name of the rule.
  unfoldable pub authorize :
      (String → Result (Dict Check))
      → PolicyFile
      → (Check → Result Bool)
      → String
      → Enforcer Check
      → Bool × Enforcer Check
  authorize load file check name e =
      let e' = (load_rules load file e).1 in
      (decide check (or_rule (lookup name e'.file_rules) (lookup name e'.rules)), e')

  -- `rule.check = …; rule.basic_check = …`
  abbrev pub reparse : (String → Check) → Rule Check → Rule Check
  reparse parse_rule r = record r {
    check = parse_rule r.check_str;
    basic_check = parse_rule r.basic_check_str;
  }

  -- the inner loop of `setup`, with the rules that it has collected
  unfoldable pub setup_service :
      (String → Check)
      → String
      → List (Rule Check)
      → List (Rule Check)
      → Enforcers Check
      → Result (Unit {0}) × Enforcers Check
  setup_service parse_rule service [] api_rules enforcers = (ok tt, enforcers)
  setup_service parse_rule service (r ∷ rules) api_rules enforcers =
      let collected = api_rules ++ reparse parse_rule r ∷ [] in
      let (done, e) = register_rules collected (new_enforcer service) in
      let rest = setup_service parse_rule service rules collected (insert service e enforcers) in
      elim done [ err x ↦ (err x, enforcers) | ok _ ↦ rest ]

  -- `setup`
  unfoldable pub setup :
      (String → Check)
      → Dict (List (Rule Check))
      → Enforcers Check
      → Result (Unit {0}) × Enforcers Check
  setup parse_rule [] enforcers = (ok tt, enforcers)
  setup parse_rule ((service, rules) ∷ services) enforcers =
      let (done, enforcers') = setup_service parse_rule service rules [] enforcers in
      let rest = setup parse_rule services enforcers' in
      elim done [ err x ↦ (err x, enforcers') | ok _ ↦ rest ]
