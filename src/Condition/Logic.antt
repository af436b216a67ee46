-- ===== src/Condition/Logic.antt =====
-- De Morgan's laws of `ConditionEngine.evaluate`, exceptions included.
use tmis.Prelude.{ℕ, zero, suc, ◌+◌, ◌≡◌, refl, sym, Bool, false, not, arith, ltb}
use tmis.Prelude.Python.{Result, ok, ◌>>=◌, Builtins}
use tmis.Condition.{
  Condition, Children, nil, cons, cond_and, cond_or, cond_not, Context, Library, all_children,
  any_children, evaluate_body, evaluate_under, evaluate,
}

-- `[cond_not(c) for c in children]`
abbrev pub negate_each : Children → Children
negate_each nil = nil
negate_each (cons c cs) = cons (cond_not c) (negate_each cs)

abbrev pub flip : Result Bool → Result Bool
flip r = do b ← r; ok (not b)

module _ (ev ev' : Condition → Result Bool)
    (flips : (c : Condition) → ev' (cond_not c) ≡ flip (ev c)) where
  any_children-negate_each :
      (cs : Children) → any_children ev' (negate_each cs) ≡ flip (all_children ev cs)
  unfolding all_children any_children
  any_children-negate_each nil = refl
  any_children-negate_each (cons c cs) = ground (arith, flips c, any_children-negate_each cs)

  all_children-negate_each :
      (cs : Children) → all_children ev' (negate_each cs) ≡ flip (any_children ev cs)
  unfolding all_children any_children
  all_children-negate_each nil = refl
  all_children-negate_each (cons c cs) = ground (arith, flips c, all_children-negate_each cs)

module _ (py : Builtins) (library : Library) (context : Context) where
  open py use {generator_frames}

  evaluate_under-cond_not :
      (frames room : ℕ) (c : Condition)
      → evaluate_under py frames (suc (frames + room)) library context (cond_not c)
        ≡ flip (evaluate_under py frames (frames + room) library context c)
  unfolding evaluate_under
  evaluate_under-cond_not zero room c = refl
  evaluate_under-cond_not (suc frames) room c =
      let one_more : suc frames + room ≡ suc (frames + room) = omega arith in
      rw one_more (evaluate_under-cond_not frames room c)

  -- The negation of a conjunction has the result of the disjunction of the negations, and the
  -- negation of a disjunction that of the conjunction of the negations, the same value or the same
  -- exception, wherever there is room for two more calls and a generator.
  pub evaluate_de_morgan :
      (room : ℕ) (cs : Children)
      → (evaluate py (suc (suc (generator_frames + room))) library context (cond_not (cond_and cs))
          ≡ evaluate py
              (suc (suc (generator_frames + room)))
              library
              context
              (cond_or (negate_each cs)))
        × (evaluate py (suc (suc (generator_frames + room))) library context (cond_not (cond_or cs))
            ≡ evaluate py
                (suc (suc (generator_frames + room)))
                library
                context
                (cond_and (negate_each cs)))
  unfolding evaluate evaluate_under
  evaluate_de_morgan room cs =
      let flips = evaluate_under-cond_not generator_frames room in
      let first : ltb (generator_frames + room) generator_frames ≡ false = ground arith in
      let second : ltb (suc (generator_frames + room)) generator_frames ≡ false = ground arith in
      (
        rw (evaluate_body, first, second) (sym (any_children-negate_each _ _ flips cs)),
        rw (evaluate_body, first, second) (sym (all_children-negate_each _ _ flips cs)),
      )
