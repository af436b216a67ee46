-- ===== src/Schedule/Firing.antt =====
-- When a trigger that was fired is due again.
use tmis.Prelude.{
  ℕ, ◌+◌, ◌<◌, String, ◌≡◌, refl, sym, ap, ◌∙◌, ◌≢◌, inl, inr, true, false, false≢true, none, some,
  [], ◌∷◌, arith, eq_iff, Bool-cases, HasEq, ◌==◌, nat_eq, string_eq, key_eq, Every, some_injective,
  pair_path,
}
use tmis.Prelude.Dict.{get, put, get-put}
use tmis.Prelude.Distinct.{Distinct, Distinct-put, Every-found}
use tmis.Schedule.{ScheduledTrigger, SchedulerStore, is_due, due, after_firing, mark_fired}

-- The keys are distinct, and every trigger stands under its own firm and identifier.
pub record IsKeyed (store : SchedulerStore) : Type 0 where
  pub distinct : Distinct store
  pub keyed :
      (k : String × String) (s : ScheduledTrigger) → get store k ≡ some s → k ≡ (s.firm_id, s.id)

due-Every :
    (P : ScheduledTrigger → Type 0) (firm_id : String) (t : ℕ) (store : SchedulerStore)
    → Every
        (λ (kv : (String × String) × ScheduledTrigger).
          (kv.0.0 == firm_id) ≡ true → is_due t kv.1 ≡ true → P kv.1)
        store
    → Every P (due store firm_id t)
unfolding due
due-Every P firm_id t [] h = tt
due-Every P firm_id t (((fid, sid), s) ∷ store) h = elim (Bool-cases (fid == firm_id)) [
  | inr other ↦ rw other (due-Every P firm_id t store h.1)
  | inl same ↦ elim (Bool-cases (is_due t s)) [
    | inl now_due ↦ rw (same, now_due) (h.0 same now_due, due-Every P firm_id t store h.1)
    | inr later ↦ rw (same, later) (due-Every P firm_id t store h.1)
  ]
]

put-same :
    (store : SchedulerStore) (k : String × String) (s : ScheduledTrigger)
    → get store k ≡ some s
    → put store k s ≡ store
unfolding put get
put-same [] k s h = absurd (cc)
put-same ((j, w) ∷ store) k s h = elim (Bool-cases (HasEq.test key_eq j k)) [
  | inl hit ↦ let eq : w ≡ s = some_injective (rw hit at h) in rw (hit, eq) refl
  | inr miss ↦ rw (miss, put-same store k s (rw miss at h)) refl
]

module _ (store : SchedulerStore) (valid : IsKeyed store) (s : ScheduledTrigger) (now : ℕ)
    (found : get store (s.firm_id, s.id) ≡ some s) where
  abbrev place : String × String
  place = (s.firm_id, s.id)

  mark_fired-store : (mark_fired store s now).1 ≡ put store place (after_firing s now)
  unfolding mark_fired
  mark_fired-store = rw (found, mark_fired) refl

  -- What the store holds after the write is due later, or has another name.
  entry_quiet :
      (t : ℕ) (k : String × String) (x : ScheduledTrigger)
      → is_due t (after_firing s now) ≡ false
      → get (put store place (after_firing s now)) k ≡ some x
      → (k.0 == s.firm_id) ≡ true
      → is_due t x ≡ true
      → x.id ≢ s.id
  entry_quiet t k x later e firm due_now same_id = elim (Bool-cases (HasEq.test key_eq place k)) [
    | inl hit ↦
        let eq : after_firing s now ≡ x = some_injective (rw hit at (rw get-put at e)) in
        absurd (false≢true (sym (rw eq at later) ∙ due_now))
    | inr miss ↦
        let at : k ≡ (x.firm_id, x.id) = valid.keyed k x (rw miss at (rw get-put at e)) in
        let second : k.1 ≡ s.id = ap (λ (j : String × String). j.1) at ∙ same_id in
        let first_one : k.0 ≡ s.firm_id = (eq_iff k.0 s.firm_id).0 firm in
        absurd (
          false≢true
            (sym miss ∙ (HasEq.test_iff key_eq place k).1 (pair_path (sym first_one) (sym second))))
  ]

  -- In a store whose triggers stand under their own keys, after a trigger with an interval is marked
  -- as fired, it is not due before the interval has passed from then on. A trigger that fires once is left as it is, and so is the store: it stays
  -- due.
  pub mark_fired_lem :
      ((interval t : ℕ)
        → s.interval ≡ some interval
        → t < now + interval
        → Every
            (λ (x : ScheduledTrigger). x.id ≢ s.id)
            (due (mark_fired store s now).1 s.firm_id t))
      × (s.interval ≡ none → mark_fired store s now ≡ (s, store))
  unfolding mark_fired
  mark_fired_lem = (
    λ interval t e early.
        let later : is_due t (after_firing s now) ≡ false = rw e (ground arith) in
        rw mark_fired-store (
          due-Every _ s.firm_id t _ (
            Every-found _ _ (Distinct-put store place (after_firing s now) valid.distinct)
              λ k x there. entry_quiet t k x later there)),
    λ once.
        let same : after_firing s now ≡ s = rw once refl in
        pair_path same (mark_fired-store ∙ rw same (put-same store place s found)),
  )
