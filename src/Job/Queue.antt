-- ===== src/Job/Queue.antt =====
-- Which job the queue hands out.
use tmis.Prelude.{
  ℕ, ◌≡◌, refl, sym, subst, inl, inr, Bool, true, false, ◌&&◌, Option, none, some, List, [], ◌∷◌,
  arith, leb, if◌then◌else◌, Bool-cases, keep, Every, Every-map,
}
use tmis.Prelude.Dict.{values}
use tmis.Prelude.Sort.{sort, Every-sort, Every-unsort, sort-head}
use tmis.Prelude.Int.{ℤ, pos, negsuc, leb_ℤ}
use tmis.Job.{AsyncJob, JobStore, is_ready, comes_first, dequeue_ready}

comes_first_total : (a b : AsyncJob) → comes_first a b ≡ false → comes_first b a ≡ true
unfolding comes_first
comes_first_total a b h = total a.priority b.priority a.created_at b.created_at h
  where
    total :
        (p q : ℤ) (s t : ℕ)
        → (if leb_ℤ p q then leb_ℤ q p && leb s t else true) ≡ false
        → (if leb_ℤ q p then leb_ℤ p q && leb t s else true) ≡ true
    total (pos m) (pos n) s t h = ground arith
    total (pos m) (negsuc n) s t h = ground arith
    total (negsuc m) (pos n) s t h = ground arith
    total (negsuc m) (negsuc n) s t h = ground arith

lex_trans :
    (p q r : ℤ) (s t u : ℕ)
    → (if leb_ℤ p q then leb_ℤ q p && leb s t else true) ≡ true
    → (if leb_ℤ q r then leb_ℤ r q && leb t u else true) ≡ true
    → (if leb_ℤ p r then leb_ℤ r p && leb s u else true) ≡ true
lex_trans (pos a) (pos b) (pos c) s t u g h = ground arith
lex_trans (negsuc a) (pos b) (pos c) s t u g h = ground arith
lex_trans (pos a) (negsuc b) (pos c) s t u g h = ground arith
lex_trans (negsuc a) (negsuc b) (pos c) s t u g h = ground arith
lex_trans (pos a) (pos b) (negsuc c) s t u g h = ground arith
lex_trans (negsuc a) (pos b) (negsuc c) s t u g h = ground arith
lex_trans (pos a) (negsuc b) (negsuc c) s t u g h = ground arith
lex_trans (negsuc a) (negsuc b) (negsuc c) s t u g h = ground arith

comes_first_trans :
    (a b c : AsyncJob) → comes_first a b ≡ true → comes_first b c ≡ true → comes_first a c ≡ true
unfolding comes_first
comes_first_trans a b c =
    lex_trans a.priority b.priority c.priority a.created_at b.created_at c.created_at

keep-Every :
    {A : Type 0} (p : A → Bool) (P : A → Type 0) (xs : List A)
    → Every P (keep p xs)
    → Every (λ x. p x ≡ true → P x) xs
keep-Every p P [] h = tt
keep-Every p P (x ∷ xs) h = elim (Bool-cases (p x)) [
  | inl hit ↦ let h' = rw (hit, keep) at h in (λ _. h'.0, keep-Every p P xs h'.1)
  | inr miss ↦ (λ e. absurd (cc), keep-Every p P xs (rw (miss, keep) at h))
]

Every-keep : {A : Type 0} (p : A → Bool) (xs : List A) → Every (λ x. p x ≡ true) (keep p xs)
Every-keep p [] = tt
Every-keep p (x ∷ xs) = elim (Bool-cases (p x)) [
  | inl hit ↦ rw (hit, keep) (hit, Every-keep p xs)
  | inr miss ↦ rw (miss, keep) (Every-keep p xs)
]

-- What the answer of `dequeue_ready` says of the jobs of the store.
abbrev pub Answers : JobStore → ℕ → Option AsyncJob → Type 0
Answers store now none = Every (λ (j : AsyncJob). is_ready now j ≡ false) (values store)
Answers store now (some job) =
    (is_ready now job ≡ true)
    × Every (λ (j : AsyncJob). is_ready now j ≡ true → comes_first job j ≡ true) (values store)

-- `dequeue_ready` gives a job that is ready and that no ready job of the store precedes, by
-- priority first and then by age; it gives none only if no job of the store is ready.
pub dequeue_ready-Answers :
    (store : JobStore) (now : ℕ) → Answers store now (dequeue_ready store now)
unfolding dequeue_ready
dequeue_ready-Answers store now = go (sort comes_first (keep (is_ready now) (values store))) refl
  where
    ready : List AsyncJob
    ready = keep (is_ready now) (values store)

    go :
        (sorted : List AsyncJob)
        → sort comes_first ready ≡ sorted
        → Answers store now (elim sorted [ [] ↦ none | job ∷ _ ↦ some job ])
    go [] e =
        Every-map (λ j. is_ready now j ≡ true → ⊥) (λ j. is_ready now j ≡ false) (values store)
          (λ j no_one. elim (Bool-cases (is_ready now j)) [
            | inl yes_one ↦ absurd (no_one yes_one)
            | inr never ↦ never
          ])
          (keep-Every (is_ready now) (λ _. ⊥) (values store)
            (Every-unsort comes_first (λ _. ⊥) ready (subst (Every (λ _. ⊥)) (sym e) tt)))
    go (job ∷ rest) e = (
      (subst (Every (λ j. is_ready now j ≡ true)) e
          (Every-sort comes_first _ ready (Every-keep (is_ready now) (values store)))).0,
      keep-Every (is_ready now) _ (values store)
          (sort-head comes_first comes_first_total comes_first_trans ready job rest e),
    )
