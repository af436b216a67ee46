-- ===== src/Workflow/Single.antt =====
-- Activating a version makes it the one active version, and keeps the store valid.
use tmis.Prelude.{
  String, ◌≡◌, refl, sym, ap, ◌∙◌, subst, ◌≢◌, ◌⊎◌, inl, inr, true, false, false≢true, Option, none,
  some, arith, eq_iff, if◌then◌else◌, Bool-cases, Option-cases, HasEq, ◌==◌, nat_eq, string_eq,
  key_eq, some_injective, pair_path,
}
use tmis.Prelude.Dict.{get, test_refl, get-put}
use tmis.Prelude.Distinct.{Distinct, Distinct-put}
use tmis.Prelude.Python.{ok, Result-cases, ok_injective}
use tmis.Workflow.Activation.{IsValid, IsVersion, get_active-some, get_active-none}
use tmis.Workflow.Schemas.{active, archived, Workflow}
use tmis.Workflow.Versions.{
  WorkflowStore, add, get_workflow, is_active, get_active, with_status, archive_other, activate,
}

abbrev place : Workflow → String × String
place w = (w.firm_id, w.id)

get-add :
    (store : WorkflowStore) (x : Workflow) (k : String × String)
    → get (add store x) k ≡ (if place x == k then some x else get store k)
unfolding add
get-add store x k = get-put store (place x) k x

-- What the store holds after a write: the workflow written, or one that it held elsewhere.
add-cases :
    (store : WorkflowStore) (x : Workflow) (k : String × String) (v : Workflow)
    → get (add store x) k ≡ some v
    → ((place x ≡ k) × (x ≡ v)) ⊎ ((place x ≢ k) × (get store k ≡ some v))
add-cases store x k v h = elim (Bool-cases (place x == k)) [
  | inl hit ↦ inl ((HasEq.test_iff key_eq (place x) k).0 hit, ground (arith, get-add store x k))
  | inr miss ↦ inr (
    λ e. false≢true (sym miss ∙ (HasEq.test_iff key_eq (place x) k).1 e),
    ground (arith, get-add store x k),
  )
]

-- What the store holds once the previously active version is archived.
data Other (store : WorkflowStore) (w : Workflow) (o : Option Workflow) (k : String × String)
    (v : Workflow) : Type 0 where
  put_away :
      (p : Workflow) → o ≡ some p → place p ≡ k → with_status archived p ≡ v → Other store w o k v
  kept :
      get store k ≡ some v
      → ((p : Workflow) → o ≡ some p → p.id ≢ w.id → place p ≢ k)
      → Other store w o k v

archive_other-Other :
    (store : WorkflowStore) (w : Workflow) (o : Option Workflow) (k : String × String)
    (v : Workflow)
    → get (archive_other store w o) k ≡ some v
    → Other store w o k v
unfolding archive_other
archive_other-Other store w none k v h = kept h (λ p e. absurd (cc))
archive_other-Other store w (some p) k v h = elim (Bool-cases (p.id == w.id)) [
  | inl same ↦ kept (rw (same, archive_other) at h) (λ q e other.
      absurd
        (other (ap (λ (x : Workflow). x.id) (sym (some_injective e)) ∙ (eq_iff p.id w.id).0 same)))
  | inr other ↦
      elim (add-cases store (with_status archived p) k v (rw (other, archive_other) at h)) [
        | inl (at, eq) ↦ put_away p refl at eq
        | inr (elsewhere, found) ↦
            kept found (λ q e _ there. elsewhere (ap place (some_injective e) ∙ there))
      ]
]

archive_other-Distinct :
    (store : WorkflowStore) (w : Workflow) (o : Option Workflow)
    → Distinct store
    → Distinct (archive_other store w o)
unfolding archive_other add
archive_other-Distinct store w none h = h
archive_other-Distinct store w (some p) h = elim (Bool-cases (p.id == w.id)) [
  | inl same ↦ rw (same, archive_other) h
  | inr other ↦ rw (other, archive_other) (Distinct-put store _ _ h)
]

module _ (store : WorkflowStore) (valid : IsValid store) (firm_id workflow_id : String)
    (w : Workflow) (found : get store (firm_id, workflow_id) ≡ some w) where
  abbrev previous : Option Workflow
  previous = get_active store firm_id w.workflow_key

  abbrev after : WorkflowStore
  after = add (archive_other store w previous) (with_status active w)

  found_firm : firm_id ≡ w.firm_id
  found_firm = ap (λ (k : String × String). k.0) (valid.keyed (firm_id, workflow_id) w found)

  previous-IsVersion :
      (p : Workflow)
      → previous ≡ some p
      → (is_active p ≡ true) × IsVersion store firm_id w.workflow_key p
  previous-IsVersion p e = get_active-some firm_id w.workflow_key store p valid e

  -- A version of another workflow, or of another firm, is as it was.
  data Held (k : String × String) (v : Workflow) : Type 0 where
    this : with_status active w ≡ v → Held k v
    archived_one :
        is_active v ≡ false → v.firm_id ≡ w.firm_id → v.workflow_key ≡ w.workflow_key → Held k v
    same :
        get store k ≡ some v
        → place w ≢ k
        → ((p : Workflow) → previous ≡ some p → p.id ≢ w.id → place p ≢ k)
        → Held k v

  after-Held : (k : String × String) (v : Workflow) → get after k ≡ some v → Held k v
  after-Held k v h =
      elim (add-cases (archive_other store w previous) (with_status active w) k v h) [
        | inl (at, eq) ↦ this eq
        | inr (elsewhere, h') ↦ elim (archive_other-Other store w previous k v h') [
          | put_away p e at eq ↦
              let (_, version) = previous-IsVersion p e in
              archived_one (ground arith)
                (ap (λ (x : Workflow). x.firm_id) (sym eq) ∙ version.firm ∙ found_firm)
                (ap (λ (x : Workflow). x.workflow_key) (sym eq) ∙ version.key)
          | kept there others ↦ same there elsewhere others
        ]
      ]

  -- After `activate`, an active version of the same workflow is the activated one.
  active-only :
      (k : String × String) (v : Workflow)
      → get after k ≡ some v
      → v.firm_id ≡ w.firm_id
      → v.workflow_key ≡ w.workflow_key
      → is_active v ≡ true
      → v.id ≡ w.id
  active-only k v h firm key on = elim (after-Held k v h) [
    | this eq ↦ ap (λ (x : Workflow). x.id) (sym eq)
    | archived_one off _ _ ↦ absurd (cc)
    | same there elsewhere others ↦ elim (Option-cases previous) [
      | inl nobody ↦
          let off =
            get_active-none firm_id w.workflow_key store k v valid nobody there
              (firm ∙ sym found_firm) key in
          absurd (cc)
      | inr (p, e) ↦
          let (p_on, version) = previous-IsVersion p e in
          let alike : v.id ≡ p.id =
            valid.single k (firm_id, p.id) v p there version.there
              (firm ∙ sym found_firm ∙ sym version.firm) (key ∙ sym version.key) on p_on in
          elim (Bool-cases (p.id == w.id)) [
            | inl equal ↦ alike ∙ (eq_iff p.id w.id).0 equal
            | inr differ ↦ absurd (
                others p e (λ q. false≢true (sym differ ∙ (eq_iff p.id w.id).1 q))
                  (pair_path (version.firm ∙ found_firm ∙ sym firm) (sym alike)
                    ∙ sym (valid.keyed k v there)))
          ]
    ]
  ]

  add-keyed :
      (s : WorkflowStore) (x : Workflow)
      → ((k : String × String) (v : Workflow) → get s k ≡ some v → k ≡ place v)
      → (k : String × String) (v : Workflow) → get (add s x) k ≡ some v
      → k ≡ place v
  add-keyed s x keyed k v h = elim (add-cases s x k v h) [
    | inl (at, eq) ↦ sym at ∙ ap place eq
    | inr (elsewhere, there) ↦ keyed k v there
  ]

  archive_other-keyed :
      (o : Option Workflow)
      → (k : String × String) (v : Workflow) → get (archive_other store w o) k ≡ some v
      → k ≡ place v
  unfolding archive_other
  archive_other-keyed none k v h = valid.keyed k v h
  archive_other-keyed (some p) k v h = elim (Bool-cases (p.id == w.id)) [
    | inl same_one ↦ valid.keyed k v (rw (same_one, archive_other) at h)
    | inr other ↦
        add-keyed store (with_status archived p) valid.keyed k v (rw (other, archive_other) at h)
  ]

  -- A version that is active afterwards and is not of this workflow was there before.
  was_there :
      (k : String × String) (v : Workflow)
      → get after k ≡ some v
      → is_active v ≡ true
      → ((v.firm_id ≡ w.firm_id) × (v.workflow_key ≡ w.workflow_key)) ⊎ (get store k ≡ some v)
  was_there k v h on = elim (after-Held k v h) [
    | this eq ↦
        inl (
          ap (λ (x : Workflow). x.firm_id) (sym eq),
          ap (λ (x : Workflow). x.workflow_key) (sym eq),
        )
    | archived_one off _ _ ↦ absurd (cc)
    | same there _ _ ↦ inr there
  ]

  after-single :
      (k j : String × String) (v u : Workflow)
      → get after k ≡ some v
      → get after j ≡ some u
      → v.firm_id ≡ u.firm_id
      → v.workflow_key ≡ u.workflow_key
      → is_active v ≡ true
      → is_active u ≡ true
      → v.id ≡ u.id
  after-single k j v u hv hu firm key on_v on_u = elim (was_there k v hv on_v) [
    | inl (f, y) ↦
        active-only k v hv f y on_v ∙ sym (active-only j u hu (sym firm ∙ f) (sym key ∙ y) on_u)
    | inr there_v ↦ elim (was_there j u hu on_u) [
      | inl (f, y) ↦
          active-only k v hv (firm ∙ f) (key ∙ y) on_v ∙ sym (active-only j u hu f y on_u)
      | inr there_u ↦ valid.single k j v u there_v there_u firm key on_v on_u
    ]
  ]

  after-IsValid : IsValid after
  unfolding add
  after-IsValid = record {
    distinct = Distinct-put _ _ _ (archive_other-Distinct store w previous valid.distinct);
    keyed = add-keyed _ (with_status active w) (archive_other-keyed previous);
    single = after-single;
  }

  get_active-after : get_active after firm_id w.workflow_key ≡ some (with_status active w)
  get_active-after = elim (Option-cases (get_active after firm_id w.workflow_key)) [
    | inl nobody ↦ absurd (
        false≢true (
          sym (
            get_active-none firm_id w.workflow_key after (place w) (with_status active w)
              after-IsValid nobody get-after (sym found_firm) refl)))
    | inr (v, e) ↦
        let (on, version) = get_active-some firm_id w.workflow_key after v after-IsValid e in
        let same_id : v.id ≡ w.id =
          active-only (firm_id, v.id) v version.there (version.firm ∙ found_firm) version.key on in
        let here : get after (firm_id, v.id) ≡ some (with_status active w) =
          subst (λ k. get after k ≡ some (with_status active w))
            (pair_path (sym found_firm) (sym same_id)) get-after in
        e ∙ sym version.there ∙ here
  ]
    where
      get-after : get after (place w) ≡ some (with_status active w)
      get-after =
          get-add (archive_other store w previous) (with_status active w) (place w)
          ∙ rw (test_refl (place w)) refl

get_workflow-ok :
    (store : WorkflowStore) (firm_id workflow_id : String) (w : Workflow)
    → get_workflow store firm_id workflow_id ≡ ok w
    → get store (firm_id, workflow_id) ≡ some w
unfolding get_workflow
get_workflow-ok store firm_id workflow_id w h = ground arith

-- A successful activation of a version in a valid store keeps the store valid, so that at most one
-- version of each workflow is active, and it returns the version that was asked for, which is the
-- one that `get_active` then gives.
pub activate-IsValid :
    (store : WorkflowStore) (firm_id workflow_id : String) (v : Workflow)
    → IsValid store
    → (activate store firm_id workflow_id).0 ≡ ok v
    → IsValid (activate store firm_id workflow_id).1
      × (v.id ≡ workflow_id)
      × (get_active (activate store firm_id workflow_id).1 firm_id v.workflow_key ≡ some v)
unfolding activate
activate-IsValid store firm_id workflow_id v valid h =
    elim (Result-cases (get_workflow store firm_id workflow_id)) [
      | inr (exc, missing) ↦ absurd (cc (rw (missing, activate) at h))
      | inl (w, here) ↦
          let found = get_workflow-ok store firm_id workflow_id w here in
          let eq : with_status active w ≡ v = ok_injective (rw (here, activate) at h) in
          subst
            (λ (u : Workflow).
              IsValid (activate store firm_id workflow_id).1
              × (u.id ≡ workflow_id)
              × (get_active (activate store firm_id workflow_id).1 firm_id u.workflow_key ≡ some u))
            eq
            (rw (here, activate)
              (
                after-IsValid store valid firm_id workflow_id w found,
                ap (λ (k : String × String). k.1)
                    (sym (valid.keyed (firm_id, workflow_id) w found)),
                get_active-after store valid firm_id workflow_id w found,
              ))
    ]
