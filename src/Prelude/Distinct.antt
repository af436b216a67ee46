-- ===== src/Prelude/Distinct.antt =====
-- Dicts whose keys are distinct, as those of Python always are: every entry is what `get` finds.
use tmis.Prelude.Tests.{HasEq, ◌==◌, Bool-cases}
use tmis.Prelude.Lists.{Every}
use tmis.Prelude.Dict.{Dict, get, put, get-put, test_refl}
use mathlib.Core.Path.{◌≡◌, refl}
use mathlib.Core.Logic.{inl, inr}
use mathlib.Core.Option.{none, some}
use mathlib.Core.List.{[], ◌∷◌}
use native.Mathlib.Omega.{arith}

module _ {ℓ} {K V : Type ℓ} ⦃e : HasEq K⦄ where
  abbrev pub Distinct : Dict K V → Type ℓ
  Distinct [] = Unit
  Distinct ((k, v) ∷ d) = (get d k ≡ none) × Distinct d

  pub Distinct-put : (d : Dict K V) (k : K) (v : V) → Distinct d → Distinct (put d k v)
  unfolding put
  Distinct-put [] k v h = (unfold get in refl, tt)
  Distinct-put ((j, w) ∷ d) k v h = elim (Bool-cases (j == k)) [
    | inl same ↦ rw same h
    | inr other ↦ rw other (
      ground (arith, get-put d k j v, h.0, e.test_iff k j, e.test_iff j k),
      Distinct-put d k v h.1,
    )
  ]

  -- What holds of every entry that `get` finds.
  pub Every-found {κ} :
      (P : K × V → Type κ) (d : Dict K V)
      → Distinct d
      → ((k : K) (v : V) → get d k ≡ some v → P (k, v))
      → Every P d
  unfolding get
  Every-found P [] h all = tt
  Every-found P ((j, w) ∷ d) h all = (
    all j w (rw (test_refl j) refl),
    Every-found P d h.1 λ k v found. elim (Bool-cases (j == k)) [
      | inl same ↦ absurd (ground (arith, e.test_iff j k, h.0))
      | inr other ↦ all k v (rw other found)
    ],
  )

  pub Every-get_entry {κ} :
      (P : K × V → Type κ) (d : Dict K V) (k : K) (v : V) → Every P d → get d k ≡ some v → P (k, v)
  unfolding get
  Every-get_entry P [] k v h found = absurd (cc)
  Every-get_entry P ((j, w) ∷ d) k v h found = elim (Bool-cases (j == k)) [
    | inl same ↦
        let key : j ≡ k = (e.test_iff j k).0 same in
        let value : w ≡ v = ground arith in rw (← key, ← value) h.0
    | inr other ↦ Every-get_entry P d k v h.1 (rw other at found)
  ]
