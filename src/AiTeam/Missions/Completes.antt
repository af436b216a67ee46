-- ===== src/AiTeam/Missions/Completes.antt =====
-- A mission whose agents all answer is completed.
use tmis.Prelude.{
  ℕ, String, ◌≡◌, refl, ap, ◌∙◌, inl, inr, true, false, some, [], ◌∷◌, arith, Bool-cases, ◌==◌,
  nat_eq, string_eq, key_eq, length, Every,
}
use tmis.Prelude.Dict.{Dict, get, put, test_refl, get-put}
use tmis.Prelude.Python.{ok}
use tmis.AiTeam.Missions.Runs.{
  IsKeyed, record_status-IsSound, new_run, new_run-Sound, launch_mission-IsSound,
}
use tmis.AiTeam.Planner.{SubTask, MissionPlan, decompose}
use tmis.AiTeam.Planner.Ordered.{has_id, IsOrdered, decompose-IsOrdered}
use tmis.AiTeam.Planner.Apart.{IsApart, IsInjective, decompose-IsApart}
use tmis.AiTeam.Delegation.{Team}
use tmis.AiTeam.Coordinator.{rounds}
use tmis.AiTeam.Mission.{MissionStatus, Mission, Setting, Run, sub_tasks_by_id}
use tmis.AiTeam.Coordinator.Sound.{IsBacked}
use tmis.AiTeam.Coordinator.Queueing.{IsFresh, SoundRun, enqueue_ready_subtasks-Requeued}
use tmis.AiTeam.Coordinator.Rounds.{rounds-Ended}
use tmis.AiTeam.Coordinator.Live.{IsStaffed}
use tmis.AiTeam.Coordinator.LiveTurn.{LiveRun, enqueue_ready_subtasks-LiveRun, rounds-LiveRun}
use tmis.AiTeam.Coordinator.Idle.{idle_results}
use tmis.AiTeam.Missions.{
  Desk, build_synthesis, launch_mission, concluded, first_run, fuel_for, run_mission,
}
use tmis.AiTeam.Missions.Counts.{ids_of, length-results}

unlisted :
    (known : Dict String SubTask) (ts : MissionPlan) (x : String)
    → has_id x (ids_of ts) ≡ false
    → get (sub_tasks_by_id known ts) x ≡ get known x
unfolding sub_tasks_by_id
unlisted known [] x e = refl
unlisted known (t ∷ ts) x e =
    let miss : (t.id == x) ≡ false = ground arith in
    unlisted (put known t.id t) ts x (ground arith) ∙ rw (get-put, miss) refl

listed : (m : Mission) (x : String) → IsBacked m x → has_id x (ids_of m.plan) ≡ true
unfolding get
listed m x (t, found, met) = elim (Bool-cases (has_id x (ids_of m.plan))) [
  | inl hit ↦ hit
  | inr miss ↦ let lost = unlisted [] m.plan x miss in absurd (cc)
]

module _ {W : Type 0} (setting : Setting W) (fresh : IsFresh setting) (team : Team) where
  -- What it takes for a run to complete its mission.
  pub complete_run :
      (run : Run W)
      → SoundRun run
      → LiveRun setting team run
      → Every (IsStaffed setting team) run.mission.plan
      → IsOrdered [] run.mission.plan
      → IsApart [] run.mission.plan
      → (let after = (rounds setting team (fuel_for setting team run) run).1 in
          length after.mission.results ≡ length after.mission.plan)
  complete_run run sound live staffed ordered apart =
      let fuel = fuel_for setting team run in
      let after = (rounds setting team fuel run).1 in
      let ended = rounds-Ended setting fresh team fuel run sound (omega arith) in
      let live' = rounds-LiveRun setting fresh team fuel run sound staffed live in
      let ordered' : IsOrdered [] after.mission.plan = rw (ended.same_plan) ordered in
      let apart' : IsApart [] after.mission.plan = rw (ended.same_plan) apart in
      let results = idle_results setting team after live' ordered' ended.no_item in
      length-results after.mission.results [] after.mission.plan live'.0.distinct apart' results
        (λ x e. listed after.mission x (ended.sound.results_backed x e))

  run_mission-completes :
      (mission_id : String) (desk : Desk W) (mission : Mission)
      → get desk.missions mission_id ≡ some mission
      → SoundRun (first_run setting team mission desk.office)
      → LiveRun setting team (first_run setting team mission desk.office)
      → Every (IsStaffed setting team) mission.plan
      → IsOrdered [] mission.plan
      → IsApart [] mission.plan
      → (last : Mission) × ((run_mission setting team mission_id desk).0 ≡ ok last)
        × (last.status ≡ MissionStatus.completed)
        × (last.synthesis ≡ some (build_synthesis last))
        × (length last.results ≡ length mission.plan)
  unfolding run_mission build_synthesis
  run_mission-completes mission_id desk mission there sound live staffed ordered apart =
      let run = first_run setting team mission desk.office in
      let fuel = fuel_for setting team run in
      let after = (rounds setting team fuel run).1 in
      let ended = rounds-Ended setting fresh team fuel run sound (omega arith) in
      let equal = complete_run run sound live staffed ordered apart in
      let tested : (length after.mission.results == length after.mission.plan) ≡ true =
        rw equal (test_refl (length after.mission.plan)) in
      let m = concluded setting team (setting.now after.office.world) after.mission in
      rw (there, run_mission, ended.returns)
        (rw tested
          (_, refl, refl, refl, equal ∙ ap (λ (p : MissionPlan). length p) ended.same_plan))

-- Where the team has an agent that never raises for each sub-task of the plan, a mission that is
-- launched and then run is returned as completed, with a synthesis of its results and as many
-- results as the plan has sub-tasks. The identifiers that are drawn are new, and the items of the
-- queue stand under their own.
pub launched_run-completes :
    {W : Type 0} (setting : Setting W) (fresh : IsFresh setting) (team : Team) (ids : ℕ → String)
    (id firm_id request_description case_type : String) (desk : Desk W)
    → IsInjective ids
    → IsKeyed desk.office.queue
    → Every (IsStaffed setting team) (decompose ids team.domain case_type)
    → (let (m, after) =
          launch_mission setting team ids id firm_id request_description case_type desk in
        (last : Mission) × ((run_mission setting team id after).0 ≡ ok last)
        × (last.status ≡ MissionStatus.completed)
        × (last.synthesis ≡ some (build_synthesis last))
        × (length last.results ≡ length m.plan))
unfolding launch_mission
launched_run-completes setting fresh team ids id firm_id request_description case_type desk inj
      keyed staffed =
    let (m, after) =
      launch_mission setting team ids id firm_id request_description case_type desk in
    let run0 = new_run setting fresh team ids id firm_id request_description case_type desk in
    let sound0 =
      new_run-Sound setting fresh team ids id firm_id request_description case_type desk inj
        keyed in
    let live0 =
      enqueue_ready_subtasks-LiveRun setting fresh team run0 sound0 staffed
        (record { worked = tt; distinct = tt }) in
    let (sound, there) =
      launch_mission-IsSound setting fresh team ids id firm_id request_description case_type desk
        inj keyed in
    let same_plan : m.plan ≡ decompose ids team.domain case_type =
      ap (λ (x : Mission). x.plan)
        (enqueue_ready_subtasks-Requeued setting fresh team run0 sound0).mission in
    run_mission-completes setting fresh team id after m there
      (record_status-IsSound after.office.queue m MissionStatus.running sound)
      (record { worked = live0.0.worked; distinct = live0.0.distinct }, live0.1)
      (rw same_plan staffed) (rw same_plan (decompose-IsOrdered ids team.domain case_type))
      (rw same_plan (decompose-IsApart ids team.domain case_type inj))
