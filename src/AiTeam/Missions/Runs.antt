-- ===== src/AiTeam/Missions/Runs.antt =====
-- A run of a mission from its launch to its end.
use tmis.Prelude.{
  ℕ, String, ◌≡◌, refl, ap, subst, inl, inr, true, false≢true, none, some, [], ◌∷◌, arith,
  if◌then◌else◌, Bool-cases, ◌==◌, nat_eq, string_eq, key_eq, length, Every,
}
use tmis.Prelude.Dict.{Dict, get, put, test_refl, get-put_self}
use tmis.Prelude.Python.{Result, ok}
use tmis.AiTeam.Planner.{decompose}
use tmis.AiTeam.Coordinator.Rounds.{rounds-Ended}
use tmis.AiTeam.Agents.{AgentOutput}
use tmis.AiTeam.Planner.Apart.{IsInjective, decompose-IsApart, indexed_of_apart}
use tmis.AiTeam.Delegation.{Team}
use tmis.AiTeam.WorkQueue.{WorkItem, WorkQueue}
use tmis.AiTeam.Coordinator.{next_runnable_item, enqueue_ready_subtasks, rounds}
use tmis.AiTeam.Mission.{MissionStatus, Mission, Office, Setting, Run, has_result}
use tmis.AiTeam.Coordinator.Sound.{IsBacked, IsSound}
use tmis.AiTeam.Coordinator.Queueing.{IsFresh, SoundRun, enqueue_ready_subtasks-Requeued}
use tmis.AiTeam.Missions.{
  save_mission, Desk, new_mission, launch_mission, concluded, first_run, fuel_for, run_mission,
}

-- The items of a queue stand under their own identifiers.
abbrev pub IsKeyed : WorkQueue → Type 0
IsKeyed queue = (k : String) (i : WorkItem) → get queue k ≡ some i → i.id ≡ k

-- The run of a stored mission that can no longer take an item.
abbrev pub IsAtEnd : {W : Type 0} → Mission → Office W → Type 0
IsAtEnd m office = next_runnable_item (record { mission = m; context = []; office = office }) ≡ none

-- The mission's results are for sub-tasks of its plan, and each one's dependencies have results.
abbrev pub AreBacked : Mission → Type 0
AreBacked m = Every (λ (r : String × AgentOutput). IsBacked m r.0) m.results

keys_have :
    (P : String → Type 0) (results : Dict String AgentOutput)
    → ((x : String) → has_result results x ≡ true → P x)
    → Every (λ (r : String × AgentOutput). P r.0) results
unfolding get
keys_have P [] h = tt
keys_have P ((k, o) ∷ results) h = (
  h k (rw (has_result, test_refl k) refl),
  keys_have P results (λ x e. h x (elim (Bool-cases (k == x)) [
    | inl hit ↦ rw (has_result, hit) refl
    | inr miss ↦ rw (has_result, miss) e
  ])),
)

pub record_status-IsSound :
    (queue : WorkQueue) (m : Mission) (s : MissionStatus)
    → IsSound queue m
    → IsSound queue (record m { status = s })
record_status-IsSound queue m s h = record {
  keyed = h.keyed;
  items_backed = h.items_backed;
  results_backed = h.results_backed;
  indexed = h.indexed;
}

module _ {W : Type 0} (setting : Setting W) (fresh : IsFresh setting) (team : Team) where
  -- What `launch_mission` queues the first sub-tasks of.
  abbrev pub new_run :
      (ids : ℕ → String) (id firm_id request_description case_type : String) → Desk W → Run W
  new_run ids id firm_id request_description case_type desk = record {
    mission =
        new_mission setting team ids id firm_id request_description case_type
          (setting.now desk.office.world);
    context = [];
    office = desk.office;
  }

  pub new_run-Sound :
      (ids : ℕ → String) (id firm_id request_description case_type : String) (desk : Desk W)
      → IsInjective ids
      → IsKeyed desk.office.queue
      → SoundRun (new_run ids id firm_id request_description case_type desk)
  unfolding get
  new_run-Sound ids id firm_id request_description case_type desk inj keyed =
      let plan = decompose ids team.domain case_type in
      record {
        keyed = keyed;
        items_backed = tt;
        results_backed = λ x e. absurd (false≢true e);
        indexed = indexed_of_apart [] plan [] (decompose-IsApart ids team.domain case_type inj);
      }

  pub launch_mission-IsSound :
      (ids : ℕ → String) (id firm_id request_description case_type : String) (desk : Desk W)
      → IsInjective ids
      → IsKeyed desk.office.queue
      → (let (m, after) =
            launch_mission setting team ids id firm_id request_description case_type desk in
          IsSound after.office.queue m × (get after.missions id ≡ some m))
  unfolding launch_mission save_mission
  launch_mission-IsSound ids id firm_id request_description case_type desk inj keyed =
      let run0 = new_run ids id firm_id request_description case_type desk in
      let sound0 = new_run-Sound ids id firm_id request_description case_type desk inj keyed in
      let again = enqueue_ready_subtasks-Requeued setting fresh team run0 sound0 in
      let m = (enqueue_ready_subtasks setting team run0).mission in
      let named : m.id ≡ id = ap (λ (x : Mission). x.id) again.mission in
      (
        again.sound,
        subst (λ k. get (put desk.missions m.id m) k ≡ some m) named
            (get-put_self desk.missions m.id m),
      )

  -- What the end of `run_mission` keeps of the mission, and the status that it sets.
  record Closed (office : Office W) (last : Mission) : Type 0 where
    at_end : IsAtEnd last office
    backed : AreBacked last
    status : last.status ≡ (
        if length last.results == length last.plan
        then MissionStatus.completed
        else MissionStatus.failed)

  concluded-Closed :
      (t : ℕ) (run : Run W)
      → next_runnable_item run ≡ none
      → SoundRun run
      → Closed run.office (concluded setting team t run.mission)
  unfolding next_runnable_item
  concluded-Closed t run no_item sound =
      let backed = keys_have (IsBacked run.mission) run.mission.results sound.results_backed in
      elim (Bool-cases (length run.mission.results == length run.mission.plan)) [
        | inl hit ↦ rw hit (record { at_end = no_item; backed = backed; status = rw hit refl })
        | inr miss ↦ rw miss (record { at_end = no_item; backed = backed; status = rw miss refl })
      ]

  -- What a run of a mission gives.
  pub record Ran (r : Result Mission × Desk W) : Type 0 where
    pub last : Mission
    pub returns : r.0 ≡ ok last
    pub saved : get r.1.missions last.id ≡ some last
    pub at_end : IsAtEnd last r.1.office
    pub backed : AreBacked last
    pub status : last.status ≡ (
        if length last.results == length last.plan
        then MissionStatus.completed
        else MissionStatus.failed)

  pub run_mission-Ran :
      (mission_id : String) (desk : Desk W) (mission : Mission)
      → get desk.missions mission_id ≡ some mission
      → IsSound desk.office.queue mission
      → Ran (run_mission setting team mission_id desk)
  unfolding run_mission save_mission
  run_mission-Ran mission_id desk mission there sound =
      let run = first_run setting team mission desk.office in
      let ended =
        rounds-Ended setting fresh team (fuel_for setting team run) run
          (record_status-IsSound desk.office.queue mission MissionStatus.running sound)
          (omega arith) in
      let after = (rounds setting team (fuel_for setting team run) run).1 in
      let m = concluded setting team (setting.now after.office.world) after.mission in
      let closed =
        concluded-Closed (setting.now after.office.world) after ended.no_item ended.sound in
      rw (there, run_mission, ended.returns)
        (record {
          last = m;
          returns = refl;
          saved = get-put_self desk.missions m.id m;
          at_end = closed.at_end;
          backed = closed.backed;
          status = closed.status;
        })

-- A mission that is launched and then run ends: the call returns the mission, which is then in the
-- store; none of its items can be run again; each of its results is for a sub-task of the plan whose
-- dependencies have results too; and it is completed if there are as many results as sub-tasks, and
-- failed if not. This holds whatever the agents answer or raise, where the identifiers that are
-- drawn are new and the items of the queue stand under their own, also if the run has another team.
pub launched_run-Ran :
    {W : Type 0} (setting : Setting W) (fresh : IsFresh setting) (team team' : Team)
    (ids : ℕ → String) (id firm_id request_description case_type : String) (desk : Desk W)
    → IsInjective ids
    → IsKeyed desk.office.queue
    → (let launched =
          launch_mission setting team ids id firm_id request_description case_type desk in
        Ran setting fresh team' (run_mission setting team' id launched.1))
launched_run-Ran setting fresh team team' ids id firm_id request_description case_type desk inj
      keyed =
    let (m, after) =
      launch_mission setting team ids id firm_id request_description case_type desk in
    let (sound, there) =
      launch_mission-IsSound setting fresh team ids id firm_id request_description case_type desk
        inj keyed in
    run_mission-Ran setting fresh team' id after m there sound
