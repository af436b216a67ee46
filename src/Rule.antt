-- ===== src/Rule.antt =====
-- Configurable rules: backend/src/tmis/workflow_automation/rule_engine (schemas.py, store.py and
-- engine.py).
pub mod Lifecycle
mod Samples
use tmis.Prelude.{
  ℕ, String, Bool, true, false, none, some, List, [], ◌∷◌, if◌then◌else◌, ◌==◌, nat_eq, string_eq,
  key_eq, keep,
}
use tmis.Prelude.Dict.{Dict, get, put}
use tmis.Prelude.Python.{key_error, Result, ok, raise, ◌>>=◌, ◌>>◌, Builtins}
use tmis.Condition.{Condition, Context, Library, evaluate}

pub record Rule : Type 0 where
  pub id : String
  pub firm_id : String
  pub name : String
  pub condition : Condition
  pub description : String
  pub active : Bool
  pub created_at : ℕ

-- `InMemoryRuleStore`
abbrev pub RuleStore : Type 0
RuleStore = Dict (String × String) Rule

unfoldable pub add_rule : RuleStore → Rule → RuleStore
add_rule rules rule = put rules (rule.firm_id, rule.id) rule

unfoldable pub rules_for_firm : RuleStore → String → List Rule
rules_for_firm [] firm_id = []
rules_for_firm (((fid, _), r) ∷ rules) firm_id =
    if fid == firm_id then r ∷ rules_for_firm rules firm_id else rules_for_firm rules firm_id

-- `RuleEngine.create_rule`. The new identifier and the time are arguments.
unfoldable pub create_rule :
    String → ℕ → RuleStore → (firm_id name : String) → Condition → String → Rule × RuleStore
unfolding add_rule
create_rule id now rules firm_id name test description =
    let rule : Rule = record {
      id = id;
      firm_id = firm_id;
      name = name;
      condition = test;
      description = description;
      active = true;
      created_at = now;
    } in
    (rule, add_rule rules rule)

unfoldable pub get_rule : RuleStore → String → String → Result Rule
get_rule rules firm_id rule_id = elim (get rules (firm_id, rule_id)) [
  | none ↦ raise (key_error rule_id)
  | some rule ↦ ok rule
]

unfoldable pub list_rules : RuleStore → String → (active_only : Bool) → List Rule
unfolding rules_for_firm
list_rules rules firm_id true = keep (λ r. r.active) (rules_for_firm rules firm_id)
list_rules rules firm_id false = rules_for_firm rules firm_id

-- The rule is changed where the store holds it, under the key at which it was found.
unfoldable pub deactivate_rule : RuleStore → String → String → Result Rule × RuleStore
unfolding get_rule
deactivate_rule rules firm_id rule_id = elim (get_rule rules firm_id rule_id) [
  | raise exc ↦ (raise exc, rules)
  | ok rule ↦
      let rule' = record rule { active = false } in (ok rule', put rules (firm_id, rule_id) rule')
]

module _ (py : Builtins) (room : ℕ) (library : Library) (context : Context) where
  unfoldable pub evaluate_rule : RuleStore → String → String → Result Bool
  unfolding get_rule
  evaluate_rule rules firm_id rule_id = do
    rule ← get_rule rules firm_id rule_id
    if rule.active then evaluate py room library context rule.condition else ok false

  -- The comprehension of `evaluate_all` over the firm's active rules.
  unfoldable pub rules_that_hold : List Rule → Result (List Rule)
  rules_that_hold [] = ok []
  rules_that_hold (r ∷ rs) = do
    b ← evaluate py room library context r.condition
    rest ← rules_that_hold rs
    ok (if b then r ∷ rest else rest)

  unfoldable pub evaluate_all : RuleStore → String → Result (List Rule)
  unfolding rules_that_hold list_rules
  evaluate_all rules firm_id = rules_that_hold (list_rules rules firm_id true)
