-- ===== src/Prelude/Sort.antt =====
-- Python's `sorted`: the stable sort by a key, here an insertion sort.
use tmis.Prelude.Tests.{if◌then◌else◌, Bool-cases}
use tmis.Prelude.Lists.{Every, length}
use mathlib.Core.Path.{◌≡◌, refl, sym, subst}
use mathlib.Core.Bool.{Bool, true, false}
use mathlib.Core.Logic.{inl, inr}
use mathlib.Core.List.{List, [], ◌∷◌}
use Prim.Native.Nat.{suc}
use native.Mathlib.Omega.{arith}

module _ {ℓ} {A : Type ℓ} (le : A → A → Bool) where
  -- `x` goes before the first element that it is not above.
  unfoldable pub insert : A → List A → List A
  insert x [] = x ∷ []
  insert x (y ∷ ys) = if le x y then x ∷ y ∷ ys else y ∷ insert x ys

  unfoldable pub sort : List A → List A
  unfolding insert
  sort [] = []
  sort (x ∷ xs) = insert x (sort xs)

  pub length-insert : (x : A) (ys : List A) → length (insert x ys) ≡ suc (length ys)
  unfolding insert
  length-insert x [] = refl
  length-insert x (y ∷ ys) = ground (arith, length-insert x ys)

  pub length-sort : (xs : List A) → length (sort xs) ≡ length xs
  unfolding sort
  length-sort [] = refl
  length-sort (x ∷ xs) = ground (arith, length-insert x (sort xs), length-sort xs)

  pub Every-insert {κ} :
      (P : A → Type κ) (x : A) (ys : List A) → P x → Every P ys → Every P (insert x ys)
  unfolding insert
  Every-insert P x [] p h = (p, tt)
  Every-insert P x (y ∷ ys) p h = elim (Bool-cases (le x y)) [
    | inl before ↦ rw before (p, h)
    | inr behind ↦ rw behind (h.0, Every-insert P x ys p h.1)
  ]

  pub Every-sort {κ} : (P : A → Type κ) (xs : List A) → Every P xs → Every P (sort xs)
  unfolding sort
  Every-sort P [] h = tt
  Every-sort P (x ∷ xs) h = Every-insert P x (sort xs) h.0 (Every-sort P xs h.1)

  pub Every-uninsert {κ} :
      (P : A → Type κ) (x : A) (ys : List A) → Every P (insert x ys) → P x × Every P ys
  unfolding insert
  Every-uninsert P x [] h = (h.0, tt)
  Every-uninsert P x (y ∷ ys) h = elim (Bool-cases (le x y)) [
    | inl before ↦ rw before at h
    | inr behind ↦
        let h' = rw behind at h in let (px, pys) = Every-uninsert P x ys h'.1 in (px, (h'.0, pys))
  ]

  pub Every-unsort {κ} : (P : A → Type κ) (xs : List A) → Every P (sort xs) → Every P xs
  unfolding sort
  Every-unsort P [] h = tt
  Every-unsort P (x ∷ xs) h =
      let (px, pxs) = Every-uninsert P x (sort xs) h in (px, Every-unsort P xs pxs)

-- The head of a sorted list comes before every element of it.
module _ {A : Type 0} (le : A → A → Bool) (total : (a b : A) → le a b ≡ false → le b a ≡ true)
    (trans : (a b c : A) → le a b ≡ true → le b c ≡ true → le a c ≡ true) where
  abbrev Heads : List A → Type 0
  Heads [] = Unit
  Heads (y ∷ ys) = Every (λ x. le y x ≡ true) (y ∷ ys)

  Every-le :
      (x y : A) (ys : List A)
      → le x y ≡ true
      → Every (λ z. le y z ≡ true) ys
      → Every (λ z. le x z ≡ true) ys
  Every-le x y [] p h = tt
  Every-le x y (z ∷ zs) p h = (trans x y z p h.0, Every-le x y zs p h.1)

  le_refl_of_total : (x : A) → le x x ≡ true
  le_refl_of_total x = elim (Bool-cases (le x x)) [ inl h ↦ h | inr h ↦ total x x h ]

  Heads-insert : (x : A) (ys : List A) → Heads ys → Heads (insert le x ys)
  unfolding insert
  Heads-insert x [] h = (le_refl_of_total x, tt)
  Heads-insert x (y ∷ ys) h = elim (Bool-cases (le x y)) [
    | inl before ↦ rw before (le_refl_of_total x, Every-le x y (y ∷ ys) before h)
    | inr behind ↦ rw behind (h.0, Every-insert le (λ z. le y z ≡ true) x ys (total x y behind) h.1)
  ]

  Heads-sort : (xs : List A) → Heads (sort le xs)
  unfolding sort
  Heads-sort [] = tt
  Heads-sort (x ∷ xs) = Heads-insert x (sort le xs) (Heads-sort xs)

  -- Where the order is total and transitive, the head of `sorted` comes before every element.
  pub sort-head :
      (xs : List A) (y : A) (ys : List A) → sort le xs ≡ y ∷ ys → Every (λ x. le y x ≡ true) xs
  sort-head xs y ys e =
      Every-unsort le (λ x. le y x ≡ true) xs
        (subst (Every (λ x. le y x ≡ true)) (sym e) (subst Heads e (Heads-sort xs)))
