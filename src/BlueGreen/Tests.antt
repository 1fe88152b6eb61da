-- ===== src/BlueGreen/Tests.antt =====
-- A rollout with a client that does as asked, and the theorems at it.
use nexus_smarttrading.Prelude.{ℕ, ◌+◌, ◌≤◌, ◌≡◌, refl, true, false, none, List, [], ◌∷◌, arith}
use nexus_smarttrading.BlueGreen.Client.{
  blue, opposite, healthy, BlueGreenConfig, is_healthy, DeploymentResult, is_deployment_locked,
  lock_deployment, unlock_deployment, sleep, Event, Client, Trace, returns, done, Outcome,
}
use nexus_smarttrading.BlueGreen.Manager.{
  acquire_lock, poll_health, validate_preview_health, poll_interval, drain_loop,
  drain_in_flight_requests, retire, switch, prepare, rollout_from, rollout, deploy, abort,
}
use nexus_smarttrading.BlueGreen.Traffic.{routed, calls, Settles, deploy-Settles}
use nexus_smarttrading.BlueGreen.Lock.{deploy-unlocks}
use nexus_smarttrading.BlueGreen.Drain.{ran_out, drain-ran_out}

program : Unit {0}
unfolding opposite is_healthy acquire_lock poll_health validate_preview_health poll_interval
    drain_loop drain_in_flight_requests retire switch prepare rollout_from rollout deploy
program = tt

-- The time slept so far.
abbrev elapsed : Trace → ℕ
elapsed [] = 0
elapsed (sleep d ∷ t) = elapsed t + d
elapsed (_ ∷ t) = elapsed t

-- Five requests are in flight until the first sleep.
abbrev remaining : Trace → ℕ
remaining [] = 5
remaining (sleep d ∷ t) = 0
remaining (_ ∷ t) = remaining t

abbrev client : Client
client = record {
  locked = λ t. returns false;
  active = λ t. returns blue;
  preview = λ t. returns none;
  deployment = λ c t.
      returns
        (record { revision_id = 1; color = c; image = 2; replicas = 3; health_status = healthy });
  in_flight = λ t. returns (remaining t);
  clock = elapsed;
  acts = λ e t. true;
}

abbrev config : BlueGreenConfig
config = record {
  app_name = 1;
  active_service_name = 2;
  scale_down_delay_seconds = 0;
  max_health_retry_attempts = 3;
  health_check_interval_seconds = 0;
  drain_timeout_seconds = 3000;
  drain_poll_interval_seconds = 10;
}

abbrev reported : Outcome DeploymentResult → List ℕ
reported (done r t) = r.drained_in_flight_requests ∷ r.active_revision ∷ []
reported _ = []

deployed : reported (deploy client config 7 8 []) ≡ 5 ∷ 7 ∷ []
unfolding program
deployed = refl

forward : (e : Event) (t : Trace) → elapsed t ≤ elapsed (e ∷ t)
forward e t = ground arith

slept : (d : ℕ) (t : Trace) → elapsed t + d ≤ elapsed (sleep d ∷ t)
slept d t = omega arith

deploy-Settles_example :
    Settles
      (routed [])
      (client.active (lock_deployment ∷ is_deployment_locked ∷ []))
      (deploy client config 7 8 [])
deploy-Settles_example = deploy-Settles client (λ t c. refl) config 7 8 [] (λ t. refl)

deploy-unlocks_example :
    ((u : Trace) × (calls (deploy client config 7 8 []) ≡ unlock_deployment ∷ u))
    × ((u : Trace) × (calls (abort client []) ≡ unlock_deployment ∷ u))
deploy-unlocks_example = deploy-unlocks client config 7 8 [] refl refl

drain-ran_out_example : ran_out (drain_in_flight_requests client config []) ≡ false
drain-ran_out_example = drain-ran_out client forward slept config []
