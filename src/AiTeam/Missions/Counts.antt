-- ===== src/AiTeam/Missions/Counts.antt =====
-- A mission has as many results as sub-tasks where its results are those of the sub-tasks.
use tmis.Prelude.{
  suc, String, ◌≡◌, refl, sym, ap, ◌∙◌, inl, inr, true, false, not, ◌&&◌, false≢true, none, some,
  List, [], ◌∷◌, map, arith, eq_iff, if◌then◌else◌, Bool-cases, Option-cases, ◌==◌, nat_eq,
  string_eq, key_eq, length, Every,
}
use tmis.Prelude.Dict.{Dict, get, remove, test_refl}
use tmis.Prelude.Distinct.{Distinct}
use tmis.AiTeam.Agents.{AgentOutput}
use tmis.AiTeam.Planner.{SubTask, MissionPlan}
use tmis.AiTeam.Planner.Ordered.{has_id}
use tmis.AiTeam.Planner.Apart.{IsApart}
use tmis.AiTeam.Mission.{has_result}

module _ {V : Type 0} where
  get-remove :
      (d : Dict String V) (k j : String)
      → Distinct d
      → get (remove d k) j ≡ (if k == j then none else get d j)
  unfolding get remove
  get-remove [] k j h = ground arith
  get-remove ((i, w) ∷ d) k j h =
      let rest = get-remove d k j h.1 in
      let gone = h.0 in
      elim (Bool-cases (i == k)) [
        | inl hit ↦
            let at : i ≡ k = (eq_iff i k).0 hit in
            elim (Bool-cases (k == j)) [
              | inl found ↦
                  let there : i ≡ j = at ∙ (eq_iff k j).0 found in
                  rw (hit, found) (rw (← there) gone)
              | inr other ↦ rw (hit, other) (rw (at, other) refl)
            ]
        | inr miss ↦ elim (Bool-cases (k == j)) [
          | inl found ↦
              let there : k ≡ j = (eq_iff k j).0 found in
              let miss' : (i == j) ≡ false = rw there at miss in
              rw miss (rw (miss', found) (rest ∙ rw found refl))
          | inr other ↦
              rw (miss, other) (ap (λ r. if i == j then some w else r) (rest ∙ rw other refl))
        ]
      ]

  Distinct-remove : (d : Dict String V) (k : String) → Distinct d → Distinct (remove d k)
  unfolding remove
  Distinct-remove [] k h = tt
  Distinct-remove ((i, w) ∷ d) k h = elim (Bool-cases (i == k)) [
    | inl hit ↦ rw hit h.1
    | inr miss ↦ rw miss (get-remove d k i h.1 ∙ ground (arith, h.0), Distinct-remove d k h.1)
  ]

  length-remove :
      (d : Dict String V) (k : String) (v : V)
      → get d k ≡ some v
      → suc (length (remove d k)) ≡ length d
  unfolding get remove
  length-remove [] k v e = absurd (cc)
  length-remove ((i, w) ∷ d) k v e = elim (Bool-cases (i == k)) [
    | inl hit ↦ rw hit refl
    | inr miss ↦ rw miss (ap suc (length-remove d k v (rw miss at e)))
  ]

abbrev pub ids_of : MissionPlan → List String
ids_of ts = map (λ (t : SubTask). t.id) ts

has_result-some :
    (d : Dict String AgentOutput) (x : String)
    → has_result d x ≡ true
    → (o : AgentOutput) × (get d x ≡ some o)
has_result-some d x e = elim (Option-cases (get d x)) [
  | inl no_one ↦ absurd (false≢true (rw (has_result, no_one) at e))
  | inr found ↦ found
]

-- The results that are left when one is taken out.
pub has_result-remove :
    (d : Dict String AgentOutput) (k x : String)
    → Distinct d
    → has_result (remove d k) x ≡ (not (k == x) && has_result d x)
has_result-remove d k x h = elim (Bool-cases (k == x)) [
  | inl hit ↦ rw (has_result, get-remove d k x h, hit) refl
  | inr miss ↦ rw (has_result, get-remove d k x h, miss) refl
]

other_results :
    (d : Dict String AgentOutput) (seen : List String) (k : String) (ts : MissionPlan)
    → Distinct d
    → IsApart seen ts
    → has_id k seen ≡ true
    → Every (λ (t : SubTask). has_result d t.id ≡ true) ts
    → Every (λ (t : SubTask). has_result (remove d k) t.id ≡ true) ts
other_results d seen k [] h apart known e = tt
other_results d seen k (t ∷ ts) h apart known e = (
  has_result-remove d k t.id h ∙ elim (Bool-cases (k == t.id)) [
    | inl hit ↦
        let at : k ≡ t.id = (eq_iff k t.id).0 hit in
        absurd (false≢true (sym apart.0 ∙ rw at at known))
    | inr miss ↦ rw miss e.0
  ],
  other_results d (t.id ∷ seen) k ts h apart.1 (ground arith) e.1,
)

pub length-results :
    (d : Dict String AgentOutput) (seen : List String) (ts : MissionPlan)
    → Distinct d
    → IsApart seen ts
    → Every (λ (t : SubTask). has_result d t.id ≡ true) ts
    → ((x : String) → has_result d x ≡ true → has_id x (ids_of ts) ≡ true)
    → length d ≡ length ts
unfolding get
length-results [] seen [] h apart e within = refl
length-results ((k, o) ∷ d) seen [] h apart e within =
    absurd (false≢true (within k (rw (has_result, test_refl k) refl)))
length-results d seen (t ∷ ts) h apart e within =
    let (o, found) = has_result-some d t.id e.0 in
    let rest =
      length-results (remove d t.id) (t.id ∷ seen) ts (Distinct-remove d t.id h) apart.1
        (other_results d (t.id ∷ seen) t.id ts h apart.1 (rw (test_refl t.id) refl) e.1)
        (λ x e'.
          let split = has_result-remove d t.id x h in
          let whole = within x (ground arith) in ground arith) in
    sym (length-remove d t.id o found) ∙ ap suc rest
