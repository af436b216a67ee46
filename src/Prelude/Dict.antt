-- ===== src/Prelude/Dict.antt =====
-- Python's `dict`: an association list in the order of insertion. A write to a key that is there
-- keeps its place, and a new key goes to the end.
use tmis.Prelude.Tests.{HasEq, ◌==◌, if◌then◌else◌, Bool-cases}
use tmis.Prelude.Lists.{Every, sum_of}
use Prim.Native.Nat.{ℕ, ◌+◌}
use mathlib.Core.Path.{◌≡◌, refl}
use mathlib.Core.Bool.{true}
use mathlib.Core.Logic.{inl, inr}
use mathlib.Core.Option.{Option, none, some}
use mathlib.Core.List.{List, [], ◌∷◌}
use native.Mathlib.Omega.{arith}

abbrev pub Dict {ℓ} : Type ℓ → Type ℓ → Type ℓ
Dict K V = List (K × V)

module _ {ℓ} {K V : Type ℓ} ⦃e : HasEq K⦄ where
  -- `d.get(k)`
  unfoldable pub get : Dict K V → K → Option V
  get [] k = none
  get ((j, v) ∷ d) k = if j == k then some v else get d k

  -- `d[k] = v`
  unfoldable pub put : Dict K V → K → V → Dict K V
  put [] k v = (k, v) ∷ []
  put ((j, w) ∷ d) k v = if j == k then (j, v) ∷ d else (j, w) ∷ put d k v

  -- `d.pop(k, None)`
  unfoldable pub remove : Dict K V → K → Dict K V
  remove [] k = []
  remove ((j, v) ∷ d) k = if j == k then d else (j, v) ∷ remove d k

module _ {ℓ} {K V : Type ℓ} where
  -- `list(d.values())`
  unfoldable pub values : Dict K V → List V
  values [] = []
  values ((k, v) ∷ d) = v ∷ values d

-- What an entry adds to a sum over the values.
abbrev pub worth {ℓ} : {V : Type ℓ} → (V → ℕ) → Option V → ℕ
worth f none = 0
worth f (some v) = f v

pub test_refl {ℓ} : {K : Type ℓ} ⦃e : HasEq K⦄ (k : K) → (k == k) ≡ true
test_refl ⦃e⦄ k = (e.test_iff k k).1 refl

module _ {ℓ} {K V : Type ℓ} ⦃e : HasEq K⦄ where
  pub get-put :
      (d : Dict K V) (k j : K) (v : V) → get (put d k v) j ≡ (if k == j then some v else get d j)
  unfolding get put
  get-put [] k j v = refl
  get-put ((i, w) ∷ d) k j v =
      ground (arith, get-put d k j v, e.test_iff i k, e.test_iff i j, e.test_iff k j)

  pub get-put_self : (d : Dict K V) (k : K) (v : V) → get (put d k v) k ≡ some v
  get-put_self d k v = simp (get-put, test_refl)

  -- A value that every write respects holds of every value of the dict.
  pub Every-values-put {κ} :
      (P : V → Type κ) (d : Dict K V) (k : K) (v : V)
      → Every P (values d)
      → P v
      → Every P (values (put d k v))
  unfolding put values
  Every-values-put P [] k v h p = (p, tt)
  Every-values-put P ((i, w) ∷ d) k v h p = elim (Bool-cases (i == k)) [
    | inl same ↦ rw same (p, h.1)
    | inr other ↦ rw other (h.0, Every-values-put P d k v h.1 p)
  ]

  pub Every-get {κ} :
      (P : V → Type κ) (d : Dict K V) (k : K) (v : V) → Every P (values d) → get d k ≡ some v → P v
  unfolding get values
  Every-get P [] k v h p = absurd (cc)
  Every-get P ((i, w) ∷ d) k v h p = elim (Bool-cases (i == k)) [
    | inl same ↦ let eq : w ≡ v = ground arith in rw (← eq) h.0
    | inr other ↦ Every-get P d k v h.1 (ground arith)
  ]

  pub sum_of-values-put :
      (f : V → ℕ) (d : Dict K V) (k : K) (v : V)
      → sum_of f (values (put d k v)) + worth f (get d k) ≡ sum_of f (values d) + f v
  unfolding values put get
  sum_of-values-put f [] k v = omega arith
  sum_of-values-put f ((j, w) ∷ d) k v = ground (arith, sum_of-values-put f d k v)
