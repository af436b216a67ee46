-- ===== src/AiTeam/Planner/Samples.antt =====
-- The plan of a whole case in tax law, with the sub-tasks named a, aa, ...
use tmis.Prelude.{
  ℕ, zero, suc, String, ◌≡◌, refl, ap, List, [], ◌∷◌, map, arith, nat_eq, string_eq, key_eq, length,
}
use tmis.Prelude.Dict.{get}
use tmis.Prelude.Python.{codes}
use tmis.AiTeam.Capabilities.{fiscal, template_for, domain_expert_role}
use tmis.AiTeam.Planner.{SubTask, chain_from, rewired, splice_after, decompose}
use tmis.AiTeam.Planner.Ordered.{IsOrdered, decompose-IsOrdered}
use tmis.AiTeam.Planner.Apart.{IsInjective}

abbrev pub names : ℕ → String
names zero = "a"
names (suc n) = String.◌∷◌ "a" (names n)

length-names : (n : ℕ) → length (codes (names n)) ≡ suc n
length-names zero = refl
length-names (suc n) = ap suc (length-names n)

pub names-IsInjective : IsInjective names
names-IsInjective i j e =
    let eq : length (codes (names i)) ≡ length (codes (names j)) = ap (λ s. length (codes s)) e in
    omega (arith, eq, length-names i, length-names j)

-- The expert stands after the case-law research, and the reasoning waits for the expert.
tax_plan :
    map {B = String × List String}
      (λ (t : SubTask). (t.id, t.depends_on))
      (decompose names fiscal "standard_analysis")
    ≡ ("a", [])
      ∷ ("aa", "a" ∷ [])
      ∷ ("aaaaa", "aa" ∷ [])
      ∷ ("aaa", "aaaaa" ∷ [])
      ∷ ("aaaa", "aaa" ∷ [])
      ∷ []
unfolding decompose template_for domain_expert_role get chain_from splice_after rewired
tax_plan = refl

decompose-IsOrdered_example : IsOrdered [] (decompose names fiscal "standard_analysis")
decompose-IsOrdered_example = decompose-IsOrdered names fiscal "standard_analysis"
