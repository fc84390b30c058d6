-- ===== src/Policy/Registration.antt =====
-- What `setup` of policy/__init__.py leaves in `ENFORCER`. Its inner loop makes a new enforcer for
-- every rule of a service, with the rules so far; the last of them stays.
use skyline_apiserver_extens.Common.{
  String, ◌≡◌, refl, ap, ◌∙◌, false, List, [], ◌∷◌, ◌++◌, map, append-nil, append_assoc, contains,
  eq_iff, arith,
}
use skyline_apiserver_extens.Common.Dict.{Dict, has_key, insert}
use skyline_apiserver_extens.Runtime.{Result, ok, err}
use skyline_apiserver_extens.Policy.Rules.{Rule, register}
use skyline_apiserver_extens.Policy.Enforcer.{
  Enforcer, Enforcers, new_enforcer, register_rules, reparse, setup_service,
}

insert-insert {ℓ} :
    {V : Type ℓ} (k : String) (v w : V) (d : Dict V) → insert k v (insert k w d) ≡ insert k v d
insert-insert k v w [] = ground (arith, eq_iff k k)
insert-insert k v w ((j, u) ∷ d) = ground (arith, insert-insert k v w d)

insert-missing {ℓ} :
    {V : Type ℓ} (k : String) (v : V) (d : Dict V)
    → has_key k d ≡ false
    → insert k v d ≡ d ++ (k, v) ∷ []
insert-missing k v [] h = refl
insert-missing k v ((j, u) ∷ d) h = ground (arith, insert-missing k v d)

-- No name is that of an earlier one, or among `seen`.
abbrev pub Fresh : List String → List String → Type 0
Fresh [] seen = Unit
Fresh (n ∷ names) seen = (contains n seen ≡ false) × Fresh names (seen ++ n ∷ [])

module _ {Check : Type 0} where
  abbrev pub names : List (Rule Check) → List String
  names rules = map (λ r. r.name) rules

  abbrev pub entry : Rule Check → String × Check
  entry r = (r.name, r.basic_check)

  has_key-entries :
      (n : String) (rules : List (Rule Check))
      → has_key n (map entry rules) ≡ contains n (names rules)
  has_key-entries n [] = refl
  has_key-entries n (r ∷ rules) =
      ground (arith, eq_iff r.name n, eq_iff n r.name, has_key-entries n rules)

  map-snoc {ℓ} :
      {B : Type ℓ} (f : Rule Check → B) (rules : List (Rule Check)) (r : Rule Check)
      → map f (rules ++ r ∷ []) ≡ map f rules ++ f r ∷ []
  map-snoc f [] r = refl
  map-snoc f (x ∷ rules) r = ap (λ t. f x ∷ t) (map-snoc f rules r)

  after : Result (Dict Check) → (Dict Check → Result (Dict Check)) → Result (Dict Check)
  after (ok d) f = f d
  after (err x) f = err x

  register-append :
      (a b : List (Rule Check)) (d : Dict Check)
      → register (a ++ b) d ≡ after (register a d) (register b)
  unfolding register after
  register-append [] b d = refl
  register-append (r ∷ a) b d = ground (arith, register-append a b (insert r.name r.basic_check d))

  register-one :
      (r : Rule Check) (d : Dict Check)
      → has_key r.name d ≡ false
      → register (r ∷ []) d ≡ ok (d ++ entry r ∷ [])
  unfolding register
  register-one r d h = ground (arith, insert-missing r.name r.basic_check d h)

  register-snoc :
      (rules : List (Rule Check)) (r : Rule Check)
      → register rules [] ≡ ok (map entry rules)
      → contains r.name (names rules) ≡ false
      → register (rules ++ r ∷ []) [] ≡ ok (map entry (rules ++ r ∷ []))
  unfolding after
  register-snoc rules r h fresh =
      rw (register-append rules (r ∷ []) [], h, map-snoc entry rules r)
        (register-one r (map entry rules) (has_key-entries r.name rules ∙ fresh))

  -- The enforcer of a service with just these rules.
  abbrev pub made : String → List (Rule Check) → Enforcer Check
  made service rules = record { service = service; rules = map entry rules; file_rules = [] }

  register_rules-made :
      (service : String) (rules : List (Rule Check))
      → register rules [] ≡ ok (map entry rules)
      → register_rules rules (new_enforcer service) ≡ (ok tt, made service rules)
  unfolding register_rules
  register_rules-made service rules h = ground arith

  module _ (parse_rule : String → Check) (service : String) where
    -- The rest of the loop after the registration of its rules so far.
    abbrev installed :
        Rule Check
        → List (Rule Check)
        → List (Rule Check)
        → Enforcers Check
        → Result (Unit {0}) × Enforcer Check
        → Result (Unit {0}) × Enforcers Check
    installed r rules api_rules enforcers p = elim p.0 [
      | err x ↦ (err x, enforcers)
      | ok _ ↦
          setup_service parse_rule service rules (api_rules ++ reparse parse_rule r ∷ [])
            (insert service p.1 enforcers)
    ]

    setup_step :
        (r : Rule Check) (rules api_rules : List (Rule Check)) (enforcers : Enforcers Check)
        → register api_rules [] ≡ ok (map entry api_rules)
        → contains r.name (names api_rules) ≡ false
        → let collected = api_rules ++ reparse parse_rule r ∷ [] in
          setup_service parse_rule service (r ∷ rules) api_rules enforcers
          ≡ setup_service parse_rule service rules collected
              (insert service (made service collected) enforcers)
    unfolding setup_service
    setup_step r rules api_rules enforcers h fresh = ap (installed r rules api_rules enforcers) (
        register_rules-made service (api_rules ++ reparse parse_rule r ∷ [])
          (register-snoc api_rules (reparse parse_rule r) h fresh))

    setup_rest :
        (rules api_rules : List (Rule Check)) (enforcers : Enforcers Check)
        → register api_rules [] ≡ ok (map entry api_rules)
        → Fresh (names rules) (names api_rules)
        → setup_service parse_rule service rules api_rules
            (insert service (made service api_rules) enforcers)
          ≡ (
            ok tt,
            insert service (made service (api_rules ++ map (reparse parse_rule) rules)) enforcers,
          )
    unfolding setup_service
    setup_rest [] api_rules enforcers h fresh = rw (append-nil api_rules) refl
    setup_rest (r ∷ rules) api_rules enforcers h (n, fresh) =
        setup_step r rules api_rules (insert service (made service api_rules) enforcers) h n
        ∙ ap (setup_service parse_rule service rules (api_rules ++ reparse parse_rule r ∷ [])) (
            insert-insert service (made service (api_rules ++ reparse parse_rule r ∷ []))
              (made service api_rules) enforcers)
        ∙ setup_rest rules (api_rules ++ reparse parse_rule r ∷ []) enforcers
            (register-snoc api_rules (reparse parse_rule r) h n)
            (rw (map-snoc (λ x. x.name) api_rules (reparse parse_rule r)) fresh)
        ∙ ap (λ t. (ok tt, insert service (made service t) enforcers))
            (append_assoc api_rules (reparse parse_rule r ∷ []) (map (reparse parse_rule) rules))

  -- For a service with at least one rule and no name twice, the loop ends without an exception, and
  -- the enforcer of the service has every rule, in order, with the check that its basic text parses
  -- to, as if all rules were registered at once; the other enforcers stay.
  pub setup_service_lem :
      (parse_rule : String → Check) (service : String) (r : Rule Check) (rules : List (Rule Check))
      (enforcers : Enforcers Check)
      → Fresh (names (r ∷ rules)) []
      → setup_service parse_rule service (r ∷ rules) [] enforcers
        ≡ (ok tt, insert service (made service (map (reparse parse_rule) (r ∷ rules))) enforcers)
  unfolding register
  setup_service_lem parse_rule service r rules enforcers (n, fresh) =
      setup_step parse_rule service r rules [] enforcers refl refl
      ∙ setup_rest parse_rule service rules (reparse parse_rule r ∷ []) enforcers
          (register-snoc [] (reparse parse_rule r) refl refl) fresh
