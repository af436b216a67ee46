-- ===== src/AiTeam/Coordinator/Rounds.antt =====
-- The loop of `run_mission`, from its first round to its end.
use tmis.Prelude.{ℕ, zero, suc, ◌<◌, ◌≡◌, refl, ◌∙◌, inl, inr, none, arith, Option-cases}
use tmis.Prelude.Python.{Result, ok}
use tmis.AiTeam.Coordinator.{next_runnable_item, turn, rounds}
use tmis.AiTeam.Mission.{Setting, Run}
use tmis.AiTeam.Coordinator.Budget.{total_work}
use tmis.AiTeam.Coordinator.Queueing.{IsFresh, SoundRun}
use tmis.AiTeam.Coordinator.Turn.{turn-Turned}
use tmis.AiTeam.Delegation.{Team}

-- What the loop gives: it returns, it leaves nothing that could run, and the mission is sound.
pub record Ended {W : Type 0} (run : Run W) (r : Result (Unit {0}) × Run W) : Type 0 where
  pub returns : r.0 ≡ ok tt
  pub no_item : next_runnable_item r.1 ≡ none
  pub sound : SoundRun r.1
  pub same_plan : r.1.mission.plan ≡ run.mission.plan

module _ {W : Type 0} (setting : Setting W) (fresh : IsFresh setting) (team : Team) where
  pub rounds-Ended :
      (fuel : ℕ) (run : Run W)
      → SoundRun run
      → total_work run.office.queue run.mission < fuel
      → Ended run (rounds setting team fuel run)
  unfolding rounds
  rounds-Ended zero run sound enough = absurd (omega (arith, enough))
  rounds-Ended (suc fuel) run sound enough = elim (Option-cases (next_runnable_item run)) [
    | inl no_one ↦
        rw (no_one, rounds)
          (record { returns = refl; no_item = no_one; sound = sound; same_plan = refl })
    | inr (item, chosen) ↦
        let one = turn-Turned setting fresh team run item sound chosen in
        let rest =
          rounds-Ended fuel (turn setting team item run).1 one.sound
            (omega (arith, enough, one.less)) in
        rw (chosen, rounds)
          (rw (one.returns) (record {
            returns = rest.returns;
            no_item = rest.no_item;
            sound = rest.sound;
            same_plan = rest.same_plan ∙ one.same_plan;
          }))
  ]
