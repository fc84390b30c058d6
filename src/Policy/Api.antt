-- ===== src/Policy/Api.antt =====
-- api/v1/policy.py. `file` gives the policy file of a service at each call of an enforcer, `check` is
-- `_checks._check` at a target, a context and the name of a rule. The access information and the
-- system scope are read before by the client; `SUPPORTED_SERVICE_EPS` gives the services.
use Prim.Native.String
use Prim.Native.Char.{code}
use skyline_apiserver_extens.Common.{
  ℕ, suc, String, Bool, Option, none, some, List, [], ◌∷◌, ◌++◌, map, eqb, if◌then◌else◌,
}
use skyline_apiserver_extens.Common.Dict.{Dict, lookup, insert, update}
use skyline_apiserver_extens.Runtime.{Json, Result, ok, err, http}
use skyline_apiserver_extens.Policy.Enforcer.{Enforcer, Enforcers, PolicyFile, authorize}
use skyline_apiserver_extens.Policy.Context.{UserContext}

-- the keys of `SUPPORTED_SERVICE_EPS`
abbrev pub supported_services : List String
supported_services =
    "barbican" ∷ "cinder" ∷ "designate" ∷ "glance" ∷ "heat" ∷ "ironic" ∷ "ironic_inspector"
    ∷ "keystone" ∷ "magnum" ∷ "manila" ∷ "masakari" ∷ "neutron" ∷ "nova" ∷ "octavia" ∷ "panko"
    ∷ "placement" ∷ "trove" ∷ "zun" ∷ []

-- `schemas.Policy`
pub record Policy : Type 0 where
  pub rule : String
  pub allowed : Bool

abbrev pub first_cons : String → String × String → String × String
first_cons c (a, b) = (String.◌++◌ c a, b)

abbrev pub prefixed : String → Option (String × String) → Option (String × String)
prefixed c none = none
prefixed c (some p) = some (first_cons c p)

-- `s.split(":", 1)`, where it has two parts
unfoldable pub split_colon : String → Option (String × String)
split_colon String.[] = none
split_colon (String.◌∷◌ c s) =
    if eqb (code c) b':' then some ("", s) else prefixed (String.◌∷◌ c String.[]) (split_colon s)

-- `f"{service}:{rule}"`
abbrev pub join_colon : String → String → String
join_colon service rule = String.◌++◌ service (String.◌++◌ ":" rule)

pub record State (Check : Type 0) : Type 0 where
  pub enforcers : Enforcers Check
  pub count : ℕ

module _ {Check : Type 0} (load : String → Result (Dict Check)) (file : ℕ → String → PolicyFile)
    (check : Dict Json → UserContext → String → Check → Result Bool) where
  -- `ENFORCER[service].authorize(rule, target, context)`, on the enforcer `e`
  unfoldable pub ask_enforcer :
      String → String → Dict Json → UserContext → Enforcer Check → State Check → Bool × State Check
  ask_enforcer service rule target context e s =
      let (allowed, e') =
        authorize load (file s.count service) (check target context rule) rule e in
      (allowed, record { enforcers = insert service e' s.enforcers; count = suc s.count })

  -- the rules of one service; the enforcer is the object in `ENFORCER`
  unfoldable pub list_rules :
      String
      → List String
      → Dict Json
      → UserContext
      → Enforcer Check
      → State Check
      → List Policy × State Check
  list_rules service [] target context e s = ([], s)
  list_rules service (rule ∷ rules) target context e s =
      let (allowed, e') =
        authorize load (file s.count service) (check target context rule) rule e in
      let s' : State Check = record {
        enforcers = insert service e' s.enforcers;
        count = suc s.count;
      } in
      let (rest, s'') = list_rules service rules target context e' s' in
      (record { rule = join_colon service rule; allowed = allowed } ∷ rest, s'')

  -- the loop of `list_policies`; a service with no enforcer is passed over
  unfoldable pub list_services :
      List String → Dict Json → UserContext → State Check → List Policy × State Check
  list_services [] target context s = ([], s)
  list_services (service ∷ services) target context s =
      let skipped = list_services services target context s in
      elim (lookup service s.enforcers) [
        | none ↦ skipped
        | some e ↦
            let (found, s') = list_rules service (map (λ r. r.0) e.rules) target context e s in
            let (rest, s'') = list_services services target context s' in (found ++ rest, s'')
      ]

  unfoldable pub list_policies : Dict Json → UserContext → State Check → List Policy × State Check
  list_policies target context s = list_services supported_services target context s

  abbrev forbidden : State Check → Result (List Policy) × State Check
  forbidden s = (err (http 403 "Forbidden"), s)

  abbrev cons_result :
      Policy → Result (List Policy) × State Check → Result (List Policy) × State Check
  cons_result p (ok ps, s) = (ok (p ∷ ps), s)
  cons_result p (err x, s) = (err x, s)

  -- the loop of `check_policies`; the detail of the 403 is the text of the exception
  unfoldable pub check_rules :
      List String → Dict Json → UserContext → State Check → Result (List Policy) × State Check
  check_rules [] target context s = (ok [], s)
  check_rules (policy_rule ∷ policy_rules) target context s = elim (split_colon policy_rule) [
    | none ↦ forbidden s
    | some (service, rule) ↦ elim (lookup service s.enforcers) [
      | none ↦ forbidden s
      | some e ↦
          let (allowed, s') = ask_enforcer service rule target context e s in
          cons_result (record { rule = policy_rule; allowed = allowed })
            (check_rules policy_rules target context s')
    ]
  ]

  -- `overrides` is `policy_rules.target`, empty where the body has none.
  unfoldable pub check_policies :
      List String
      → Dict Json
      → Dict Json
      → UserContext
      → State Check
      → Result (List Policy) × State Check
  check_policies rules overrides target context s =
      check_rules rules (update target overrides) context s
