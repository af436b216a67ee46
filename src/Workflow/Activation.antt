-- ===== src/Workflow/Activation.antt =====
-- At most one version of a workflow is active.
use tmis.Prelude.{
  String, ◌≡◌, sym, ap, ◌∙◌, subst, inl, inr, true, false, ◌&&◌, none, some, [], ◌∷◌, arith, eq_iff,
  Bool-cases, ◌==◌, nat_eq, string_eq, key_eq, Every, first-some, first-none,
}
use tmis.Prelude.Dict.{get}
use tmis.Prelude.Distinct.{Distinct, Every-found, Every-get_entry}
use tmis.Prelude.Sort.{Every-sort, Every-unsort}
use tmis.Workflow.Schemas.{Workflow}
use tmis.Workflow.Versions.{WorkflowStore, matching, list_versions, is_active, get_active}

-- The workflows of the store stand under their own firm and identifier, and two active versions of
-- one workflow of a firm are one version.
pub record IsValid (store : WorkflowStore) : Type 0 where
  pub distinct : Distinct store
  pub keyed : (k : String × String) (w : Workflow) → get store k ≡ some w → k ≡ (w.firm_id, w.id)
  pub single :
      (k j : String × String) (v w : Workflow)
      → get store k ≡ some v
      → get store j ≡ some w
      → v.firm_id ≡ w.firm_id
      → v.workflow_key ≡ w.workflow_key
      → is_active v ≡ true
      → is_active w ≡ true
      → v.id ≡ w.id

-- Every version that `list_versions` gives is in the store, of the firm and of the key.
pub record IsVersion (store : WorkflowStore) (firm_id workflow_key : String) (w : Workflow)
    : Type 0 where
  pub there : get store (firm_id, w.id) ≡ some w
  pub firm : w.firm_id ≡ firm_id
  pub key : w.workflow_key ≡ workflow_key

module _ (firm_id workflow_key : String) where
  matching-Every :
      (P : Workflow → Type 0) (store : WorkflowStore)
      → Every
          (λ (kv : (String × String) × Workflow).
            (kv.0.0 == firm_id && kv.1.workflow_key == workflow_key) ≡ true → P kv.1)
          store
      → Every P (matching store firm_id workflow_key)
  unfolding matching
  matching-Every P [] h = tt
  matching-Every P (((fid, i), w) ∷ store) h =
      elim (Bool-cases (fid == firm_id && w.workflow_key == workflow_key)) [
        | inl hit ↦ rw hit (h.0 hit, matching-Every P store h.1)
        | inr miss ↦ rw miss (matching-Every P store h.1)
      ]

  Every-matching :
      (P : Workflow → Type 0) (store : WorkflowStore)
      → Every P (matching store firm_id workflow_key)
      → Every
          (λ (kv : (String × String) × Workflow).
            (kv.0.0 == firm_id && kv.1.workflow_key == workflow_key) ≡ true → P kv.1)
          store
  unfolding matching
  Every-matching P [] h = tt
  Every-matching P (((fid, i), w) ∷ store) h =
      elim (Bool-cases (fid == firm_id && w.workflow_key == workflow_key)) [
        | inl hit ↦ let h' = rw (hit, matching) at h in (λ _. h'.0, Every-matching P store h'.1)
        | inr miss ↦ (λ e. absurd (cc), Every-matching P store (rw (miss, matching) at h))
      ]

  entry-IsVersion :
      (store : WorkflowStore)
      → IsValid store
      → (k : String × String) (w : Workflow) → get store k ≡ some w
      → (k.0 == firm_id && w.workflow_key == workflow_key) ≡ true
      → IsVersion store firm_id workflow_key w
  entry-IsVersion store valid k w found hit =
      let at : k ≡ (w.firm_id, w.id) = valid.keyed k w found in
      let firm : k.0 ≡ firm_id = ground (arith, eq_iff k.0 firm_id) in
      let same : w.firm_id ≡ firm_id = ap (λ (j : String × String). j.0) (sym at) ∙ firm in
      record {
        there = subst (λ j. get store j ≡ some w) (at ∙ ap (λ f. (f, w.id)) same) found;
        firm = same;
        key = ground (arith, eq_iff w.workflow_key workflow_key);
      }

  list_versions-IsVersion :
      (store : WorkflowStore)
      → IsValid store
      → Every (IsVersion store firm_id workflow_key) (list_versions store firm_id workflow_key)
  unfolding list_versions
  list_versions-IsVersion store valid = Every-sort _ (IsVersion store firm_id workflow_key) _ (
      matching-Every (IsVersion store firm_id workflow_key) store (
        Every-found _ store valid.distinct
          λ k w found hit. entry-IsVersion store valid k w found hit))

  pub get_active-some :
      (store : WorkflowStore) (v : Workflow)
      → IsValid store
      → get_active store firm_id workflow_key ≡ some v
      → (is_active v ≡ true) × IsVersion store firm_id workflow_key v
  unfolding get_active
  get_active-some store v valid e =
      first-some is_active (IsVersion store firm_id workflow_key)
        (list_versions store firm_id workflow_key) v (list_versions-IsVersion store valid) e

  pub get_active-none :
      (store : WorkflowStore) (k : String × String) (w : Workflow)
      → IsValid store
      → get_active store firm_id workflow_key ≡ none
      → get store k ≡ some w
      → w.firm_id ≡ firm_id
      → w.workflow_key ≡ workflow_key
      → is_active w ≡ false
  unfolding get_active list_versions
  get_active-none store k w valid e found firm key =
      let at : k ≡ (w.firm_id, w.id) = valid.keyed k w found in
      let named : k.0 ≡ firm_id = ap (λ (j : String × String). j.0) at ∙ firm in
      Every-get_entry _ store k w
        (Every-matching (λ x. is_active x ≡ false) store
          (Every-unsort _ (λ x. is_active x ≡ false) (matching store firm_id workflow_key)
            (first-none is_active _ e)))
        found (ground (arith, eq_iff k.0 firm_id, eq_iff w.workflow_key workflow_key))
