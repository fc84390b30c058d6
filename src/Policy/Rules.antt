-- ===== src/Policy/Rules.antt =====
-- `Rule` of policy/manager/base.py, and `Enforcer.register_rules` of policy/base.py. `Check` is the
-- type of oslo.policy's checks and `parse_rule` its parser. An `APIRule` adds only documentation.
use skyline_apiserver_extens.Common.{String, List, [], ◌∷◌, ◌==◌, if◌then◌else◌}
use skyline_apiserver_extens.Common.Dict.{Dict, has_key, insert}
use skyline_apiserver_extens.Runtime.{Result, ok, err, other}

pub record Rule (Check : Type 0) : Type 0 where
  pub name : String
  pub check_str : String
  pub check : Check
  pub description : String
  pub basic_check_str : String
  pub basic_check : Check

-- `a or b` on texts
abbrev or_else : String → String → String
or_else a b = if a == "" then b else a

module _ {Check : Type 0} where
  -- `Rule.__init__`
  unfoldable pub rule : (String → Check) → String → String → String → String → Rule Check
  rule parse_rule name check_str description basic_check_str = record {
    name = name;
    check_str = check_str;
    check = parse_rule check_str;
    description = or_else description "No description";
    basic_check_str = or_else basic_check_str check_str;
    basic_check = parse_rule (or_else basic_check_str check_str);
  }

  -- the loop of `register_rules`
  unfoldable pub register : List (Rule Check) → Dict Check → Result (Dict Check)
  register [] rule_map = ok rule_map
  register (r ∷ rules) rule_map =
      let rest = register rules (insert r.name r.basic_check rule_map) in
      if has_key r.name rule_map then err (other "ValueError") else rest
