-- ===== src/Workflow/Samples.antt =====
-- The activation theorem at a workflow with an active version and a draft.
use tmis.Prelude.{String, ◌≡◌, refl, sym, ◌∙◌, true, some, [], ◌∷◌, nat_eq, string_eq, key_eq}
use tmis.Prelude.Dict.{get}
use tmis.Prelude.Distinct.{Every-get_entry}
use tmis.Prelude.Python.{ok}
use tmis.Workflow.Schemas.{draft, active, Workflow}
use tmis.Workflow.Versions.{
  WorkflowStore, get_workflow, is_active, get_active, with_status, activate,
}
use tmis.Workflow.Activation.{IsValid}
use tmis.Workflow.Single.{activate-IsValid}

abbrev version_one : Workflow
version_one = record {
  id = "w1";
  workflow_key = "key";
  firm_id = "f";
  name = "Intake";
  version = 1;
  owner = "ann";
  description = "";
  triggers = [];
  conditions = [];
  steps = [];
  status = active;
  created_at = 0;
}

abbrev version_two : Workflow
version_two = record version_one { id = "w2"; version = 2; status = draft }

abbrev two_versions : WorkflowStore
two_versions = (("f", "w1"), version_one) ∷ (("f", "w2"), version_two) ∷ []

two_versions-IsValid : IsValid two_versions
unfolding get
two_versions-IsValid = record {
  distinct = (refl, (refl, tt));
  keyed = λ k w found.
      Every-get_entry (λ (kv : (String × String) × Workflow). kv.0 ≡ (kv.1.firm_id, kv.1.id))
        two_versions k w (refl, (refl, tt)) found;
  single = λ k j v w hv hw f y a b. only k v hv a ∙ sym (only j w hw b);
}
  where
    only :
        (k : String × String) (v : Workflow)
        → get two_versions k ≡ some v
        → is_active v ≡ true
        → v.id ≡ "w1"
    only k v found =
        Every-get_entry
          (λ (kv : (String × String) × Workflow). is_active kv.1 ≡ true → kv.1.id ≡ "w1")
          two_versions k v (λ _. refl, (λ e. absurd (cc), tt)) found

found_two : (activate two_versions "f" "w2").0 ≡ ok (with_status active version_two)
unfolding activate get get_workflow
found_two = refl

activate-IsValid_example :
    IsValid (activate two_versions "f" "w2").1
    × (version_two.id ≡ "w2")
    × (get_active (activate two_versions "f" "w2").1 "f" "key"
        ≡ some (with_status active version_two))
activate-IsValid_example =
    activate-IsValid two_versions "f" "w2" (with_status active version_two) two_versions-IsValid
      found_two
