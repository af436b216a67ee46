-- ===== src/AiTeam/Decisions/Steps.antt =====
-- The sub-tasks that a decision names, as they are written into it and read from it.
use tmis.Prelude.{
  ℕ, String, ◌≡◌, refl, ap, ◌∙◌, Bool, true, false, not, ◌&&◌, List, [], ◌∷◌, arith, nat_beq,
  nat_eq, string_eq, key_eq, Every,
}
use tmis.Prelude.Dict.{get}
use tmis.Prelude.Python.{put_char, ok, append, join, split_commas}
use Prim.Native.Char.{code}
use text.Mathlib.TextLemmas.{nil-append, cons-append}
use tmis.AiTeam.HumanLoop.{HumanDecision, record_decision, decide_rerun_steps}
use tmis.AiTeam.Decisions.{sub_task_ids_from}

-- `","` does not stand in the text.
abbrev pub has_no_comma : String → Bool
has_no_comma String.[] = true
has_no_comma (String.◌∷◌ c s) = not (nat_beq (code c) b',') && has_no_comma s

split_commas-append :
    (x s : String)
    → has_no_comma x ≡ true
    → split_commas (append x (append "," s)) ≡ x ∷ split_commas s
split_commas-append String.[] s e =
    let comma : append "," s ≡ String.◌∷◌ "," s =
      cons-append "," "" s ∙ ap (String.◌∷◌ ",") (nil-append s) in
    ap split_commas (nil-append (append "," s) ∙ comma)
split_commas-append (String.◌∷◌ c x) s e =
    let plain_one : nat_beq (code c) b',' ≡ false = ground arith in
    let rest = split_commas-append x s (ground arith) in
    ap split_commas (cons-append c x (append "," s)) ∙ rw plain_one (ap (put_char c) rest)

split_commas-one : (x : String) → has_no_comma x ≡ true → split_commas x ≡ x ∷ []
split_commas-one String.[] e = refl
split_commas-one (String.◌∷◌ c x) e =
    let plain_one : nat_beq (code c) b',' ≡ false = ground arith in
    rw plain_one (ap (put_char c) (split_commas-one x (ground arith)))

split_commas-join :
    (x : String) (xs : List String)
    → Every (λ y. has_no_comma y ≡ true) (x ∷ xs)
    → split_commas (join "," (x ∷ xs)) ≡ x ∷ xs
split_commas-join x [] h = split_commas-one x h.0
split_commas-join x (y ∷ ys) h =
    split_commas-append x (join "," (y ∷ ys)) h.0 ∙ ap (λ r. x ∷ r) (split_commas-join y ys h.1)

-- The sub-tasks of a decision to rerun steps are read back as they were given, if there is one at
-- least and none of their identifiers has a comma.
pub rerun_steps-read :
    (decision_id : String) (decided_at : ℕ) (store : List HumanDecision)
    (mission_id actor_id x : String) (xs : List String)
    → Every (λ y. has_no_comma y ≡ true) (x ∷ xs)
    → sub_task_ids_from
        (decide_rerun_steps decision_id decided_at store mission_id actor_id (x ∷ xs)).0
      ≡ ok (x ∷ xs)
unfolding decide_rerun_steps record_decision sub_task_ids_from get
rerun_steps-read decision_id decided_at store mission_id actor_id x xs h =
    ap ok (split_commas-join x xs h)
