-- ===== src/AiTeam/Samples/Fresh.antt =====
-- Names that no item of a queue has: a name that is longer than all of them.
use tmis.Prelude.{
  ◌≤◌, ◌<◌, String, ◌≡◌, ap, inl, inr, none, some, [], ◌∷◌, arith, eq_iff, Bool-cases, Option-cases,
  ◌==◌, nat_eq, string_eq, key_eq,
}
use tmis.Prelude.Dict.{get}
use tmis.Prelude.Python.{append}
use Prim.Native.String.{count}
use text.Mathlib.TextLemmas.{length-append as count-append}
use tmis.AiTeam.WorkQueue.{WorkItem, WorkQueue}

unfoldable pub longer_name : WorkQueue → String
longer_name [] = "i"
longer_name ((k, item) ∷ queue) = append k (longer_name queue)

some_length : (queue : WorkQueue) → 1 ≤ count (longer_name queue)
unfolding longer_name
some_length [] = omega arith
some_length ((k, item) ∷ queue) =
    let rest = some_length queue in
    let sum = count-append k (longer_name queue) in omega (arith, rest, sum)

is_longer :
    (queue : WorkQueue) (k : String) (i : WorkItem)
    → get queue k ≡ some i
    → count k < count (longer_name queue)
unfolding longer_name get
is_longer [] k i e = absurd (cc)
is_longer ((j, item) ∷ queue) k i e =
    let sum = count-append j (longer_name queue) in
    let one = some_length queue in
    elim (Bool-cases (j == k)) [
      | inl hit ↦
          let at : j ≡ k = (eq_iff j k).0 hit in
          let same = ap count at in omega (arith, sum, one, same)
      | inr miss ↦ let rest = is_longer queue k i (rw miss at e) in omega (arith, sum, rest)
    ]

pub longer_name-new : (queue : WorkQueue) → get queue (longer_name queue) ≡ none
longer_name-new queue = elim (Option-cases (get queue (longer_name queue))) [
  | inl no_one ↦ no_one
  | inr (i, found) ↦
      let less = is_longer queue (longer_name queue) i found in absurd (omega (arith, less))
]
