-- ===== src/Rule/Lifecycle.antt =====
-- What deactivating a rule does to its evaluation.
use tmis.Prelude.{
  ℕ, String, ◌≡◌, refl, sym, ◌∙◌, inl, inr, Bool, false, ◌&&◌, some, List, [], ◌∷◌, if◌then◌else◌,
  Bool-cases, ◌==◌, nat_eq, string_eq, key_eq, keep,
}
use tmis.Prelude.Dict.{get, get-put}
use tmis.Prelude.Python.{ok, raise, Result-cases, ok_injective, Builtins}
use tmis.Condition.{Context, Library, evaluate}
use tmis.Rule.{
  Rule, RuleStore, rules_for_firm, get_rule, list_rules, deactivate_rule, evaluate_rule,
  rules_that_hold, evaluate_all,
}

module _ (py : Builtins) (room : ℕ) (library : Library) (context : Context) where
  -- Once a rule that the store holds is deactivated, it evaluates to false whatever its condition
  -- and the context are, and every rule under another key evaluates as before.
  pub evaluate_rule-deactivate_rule :
      (rules : RuleStore) (firm_id rule_id firm other : String) (rule : Rule)
      → get rules (firm_id, rule_id) ≡ some rule
      → evaluate_rule py room library context (deactivate_rule rules firm_id rule_id).1 firm other
        ≡ (if firm_id == firm && rule_id == other
            then ok false
            else evaluate_rule py room library context rules firm other)
  unfolding evaluate_rule deactivate_rule get_rule
  evaluate_rule-deactivate_rule rules firm_id rule_id firm other rule found =
      let gone = record rule { active = false } in
      let required : get_rule rules firm_id rule_id ≡ ok rule = rw (found, get_rule) refl in
      elim (Bool-cases (firm_id == firm && rule_id == other)) [
        | inl hit ↦ rw (required, deactivate_rule) (rw (get-put, hit, get_rule) refl)
        | inr miss ↦ rw (required, deactivate_rule) (rw (get-put, miss, get_rule) refl)
      ]

  -- The rules of a list whose conditions evaluate to true.
  abbrev pub holds : Rule → Bool
  holds r = elim (evaluate py room library context r.condition) [ ok b ↦ b | raise exc ↦ false ]

  rules_that_hold_lem :
      (rs found : List Rule)
      → rules_that_hold py room library context rs ≡ ok found
      → found ≡ keep holds rs
  unfolding rules_that_hold
  rules_that_hold_lem [] found h = sym (ok_injective h)
  rules_that_hold_lem (r ∷ rs) found h =
      elim (Result-cases (evaluate py room library context r.condition)) [
        | inr (exc, e) ↦ absurd (cc (rw (e, rules_that_hold) at h))
        | inl (b, e) ↦ elim (Result-cases (rules_that_hold py room library context rs)) [
          | inr (exc, e') ↦ absurd (cc (rw (e', rules_that_hold) at (rw (e, rules_that_hold) at h)))
          | inl (rest, e') ↦
              let eq = ok_injective (rw (e', rules_that_hold) at (rw (e, rules_that_hold) at h)) in
              let same = rules_that_hold_lem rs rest e' in sym eq ∙ rw (holds, e) (rw (← same) refl)
        ]
      ]

  -- What `evaluate_all` returns are the rules of the firm that are active and whose conditions
  -- hold in the context, in the order of the store.
  pub evaluate_all_lem :
      (rules : RuleStore) (firm_id : String) (found : List Rule)
      → evaluate_all py room library context rules firm_id ≡ ok found
      → found ≡ keep holds (keep (λ r. r.active) (list_rules rules firm_id false))
  unfolding evaluate_all list_rules
  evaluate_all_lem rules firm_id found h =
      rules_that_hold_lem (keep (λ r. r.active) (rules_for_firm rules firm_id)) found h
