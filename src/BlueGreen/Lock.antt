-- ===== src/BlueGreen/Lock.antt =====
-- The deployment lock over `deploy` and `abort`.
use nexus_smarttrading.Prelude.{ℕ, ◌≡◌, refl, true, false, ◌∷◌, Bool-cases, inl, inr}
use nexus_smarttrading.BlueGreen.Client.{
  BlueGreenConfig, is_deployment_locked, lock_deployment, unlock_deployment, Client, done, failed,
  finish, act, Outcome, Trace, returns,
}
use nexus_smarttrading.BlueGreen.Manager.{acquire_lock, rollout, deploy, clean_up, abort}
use nexus_smarttrading.BlueGreen.Traffic.{calls}

module _ (client : Client) where
  finish-unlocks :
      {A : Type 0} (o : Outcome A)
      → (u : Trace) × (calls (finish o (act client unlock_deployment)) ≡ unlock_deployment ∷ u)
  finish-unlocks (done a t) = elim (Bool-cases (client.acts unlock_deployment t)) [
    | inl e ↦ (t, rw e refl)
    | inr e ↦ (t, rw e refl)
  ]
  finish-unlocks (failed error t) = elim (Bool-cases (client.acts unlock_deployment t)) [
    | inl e ↦ (t, rw e refl)
    | inr e ↦ (t, rw e refl)
  ]

  -- `deploy` that was given the lock asks for its release as its last call, however the rollout
  -- ends; and so does every `abort`.
  pub deploy-unlocks :
      (config : BlueGreenConfig) (revision image : ℕ) (t : Trace)
      → client.locked t ≡ returns false
      → client.acts lock_deployment (is_deployment_locked ∷ t) ≡ true
      → ((u : Trace) × (calls (deploy client config revision image t) ≡ unlock_deployment ∷ u))
        × ((u : Trace) × (calls (abort client t) ≡ unlock_deployment ∷ u))
  unfolding deploy abort acquire_lock
  deploy-unlocks config revision image t free granted = (
    rw (free, granted)
        (finish-unlocks
          (rollout client config revision image (lock_deployment ∷ is_deployment_locked ∷ t))),
    finish-unlocks (clean_up client t),
  )
