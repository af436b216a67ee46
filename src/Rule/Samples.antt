-- ===== src/Rule/Samples.antt =====
-- A rule that holds until it is deactivated.
use tmis.Prelude.{
  String, ◌≡◌, refl, true, false, ◌&&◌, some, [], ◌∷◌, if◌then◌else◌, ◌==◌, nat_eq, string_eq,
  key_eq, keep,
}
use tmis.Prelude.Dict.{get}
use tmis.Prelude.Python.{ok}
use tmis.Prelude.Sample.{plain}
use tmis.Rule.Lifecycle.{evaluate_rule-deactivate_rule, holds, evaluate_all_lem}
use tmis.Condition.{cond_role_is, Context, evaluate}
use tmis.Rule.{Rule, RuleStore, list_rules, deactivate_rule, evaluate_rule, evaluate_all}

abbrev partners_only : Rule
partners_only = record {
  id = "r1";
  firm_id = "f";
  name = "Partners";
  condition = cond_role_is "partner";
  description = "";
  active = true;
  created_at = 0;
}

abbrev firm : String
firm = "f"

abbrev rule_name : String
rule_name = "r1"

abbrev rules : RuleStore
rules = (("f", "r1"), partners_only) ∷ []

abbrev role : Context
role = ("role", "partner") ∷ []

found_rule : get rules (firm, rule_name) ≡ some partners_only
unfolding get
found_rule = refl

before : evaluate_rule plain 5 [] role rules "f" "r1" ≡ ok true
unfolding evaluate_rule evaluate get
before = refl

evaluate_rule-deactivate_rule_example :
    evaluate_rule plain 5 [] role (deactivate_rule rules firm rule_name).1 firm rule_name ≡ (
      if firm == firm && rule_name == rule_name
      then ok false
      else evaluate_rule plain 5 [] role rules firm rule_name)
evaluate_rule-deactivate_rule_example =
    evaluate_rule-deactivate_rule plain 5 [] role rules firm rule_name firm rule_name partners_only
      found_rule

all_found : evaluate_all plain 5 [] role rules firm ≡ ok (partners_only ∷ [])
unfolding evaluate_all evaluate get
all_found = refl

evaluate_all_lem_example :
    partners_only ∷ []
    ≡ keep (holds plain 5 [] role) (keep (λ r. r.active) (list_rules rules firm false))
evaluate_all_lem_example =
    evaluate_all_lem plain 5 [] role rules firm (partners_only ∷ []) all_found
