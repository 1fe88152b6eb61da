-- ===== src/BlueGreen/Manager.antt =====
-- gitops/blue_green_service.py: `BlueGreenDeploymentManager`.
use nexus_smarttrading.Prelude.{
  ℕ, ◌+◌, ◌-◌, Bool, true, false, not, ◌&&◌, Option, some, none, ◌∷◌, ◌==◌, ltb, leb, max, zero,
  suc,
}
use nexus_smarttrading.BlueGreen.Client.{
  DeploymentColor, blue, green, opposite, BlueGreenConfig, is_healthy, DeploymentResult,
  active_unhealthy, preview_failed, already_in_progress, drain_timeout, value_error, out_of_fuel,
  is_deployment_locked, lock_deployment, unlock_deployment, get_active_color, get_preview_color,
  get_in_flight_requests, monotonic, get_deployment, create_or_update_preview, route_traffic,
  scale_down, delete_preview, Client, Run, pure, throw, ◌>>=◌, ◌>>◌, on_error, finally, ask, act,
  rest, done, branch, when,
}

-- 0.01 seconds, in hundredths.
abbrev min_drain_poll_interval : ℕ
min_drain_poll_interval = 1

abbrev is_same : DeploymentColor → DeploymentColor → Bool
is_same blue blue = true
is_same blue green = false
is_same green blue = false
is_same green green = true

-- `max(config.drain_poll_interval_seconds, MIN_DRAIN_POLL_INTERVAL_SECONDS)`
unfoldable pub poll_interval : BlueGreenConfig → ℕ
poll_interval config = max config.drain_poll_interval_seconds min_drain_poll_interval

module _ (client : Client) where
  unfoldable pub acquire_lock : Run (Unit {0})
  acquire_lock = do
    locked ← ask is_deployment_locked client.locked
    when locked (throw already_in_progress)
    act client lock_deployment

  -- The attempts that are left; the last one is not followed by a sleep.
  unfoldable pub poll_health : BlueGreenConfig → DeploymentColor → ℕ → Run Bool
  poll_health config color zero = pure false
  poll_health config color (suc left) = do
    deployment ← ask (get_deployment color) (client.deployment color)
    branch (is_healthy deployment) (pure true) (do
      when (ltb 0 left && ltb 0 config.health_check_interval_seconds)
          (rest config.health_check_interval_seconds)
      poll_health config color left)

  unfoldable pub validate_preview_health : BlueGreenConfig → DeploymentColor → Run (Unit {0})
  validate_preview_health config color = do
    is_up ← poll_health config color config.max_health_retry_attempts
    when (not is_up) (act client (delete_preview color) >> throw preview_failed)

  -- The clock does not fail.
  abbrev pub now : Run ℕ
  now t = done (client.clock t) (monotonic ∷ t)

  -- The loop of `_drain_in_flight_requests`.
  unfoldable pub drain_loop : BlueGreenConfig → ℕ → ℕ → ℕ → Run (Unit {0})
  drain_loop config start_time fuel zero = pure tt
  drain_loop config start_time zero (suc n) = throw out_of_fuel
  drain_loop config start_time (suc fuel) (suc n) = do
    time ← now
    when (leb config.drain_timeout_seconds (time - start_time)) (throw drain_timeout)
    when (ltb 0 (poll_interval config)) (rest (poll_interval config))
    in_flight ← ask get_in_flight_requests client.in_flight
    drain_loop config start_time fuel in_flight

  unfoldable pub drain_in_flight_requests : BlueGreenConfig → Run ℕ
  drain_in_flight_requests config = do
    initial_count ← ask get_in_flight_requests client.in_flight
    start_time ← now
    drain_loop config start_time (config.drain_timeout_seconds + 1) initial_count
    pure initial_count

  -- The inner `try` of `deploy`, with the rollback of the traffic.
  unfoldable pub retire : BlueGreenConfig → DeploymentColor → Run ℕ
  retire config active_color =
      on_error
        (do
          drained_requests ← drain_in_flight_requests config
          when (ltb 0 config.scale_down_delay_seconds) (rest config.scale_down_delay_seconds)
          act client (scale_down active_color)
          pure drained_requests)
        (act client (route_traffic active_color))

  -- The end of the body: the traffic goes to the preview, and the old deployment is retired.
  unfoldable pub switch : BlueGreenConfig → ℕ → ℕ → DeploymentColor → Run DeploymentResult
  switch config target_revision previous_revision active_color = do
    act client (route_traffic (opposite active_color))
    drained_requests ← retire config active_color
    pure (record {
      success = true;
      active_color = opposite active_color;
      active_revision = target_revision;
      previous_revision = some previous_revision;
      drained_in_flight_requests = drained_requests;
    })

  -- The checks and the preview before it.
  unfoldable pub prepare : BlueGreenConfig → ℕ → ℕ → DeploymentColor → Run ℕ
  prepare config target_revision target_image active_color = do
    active_deployment ← ask (get_deployment active_color) (client.deployment active_color)
    when (not (is_healthy active_deployment)) (throw active_unhealthy)
    when (active_deployment.revision_id == target_revision) (throw value_error)
    let preview_color = opposite active_color
    act client (create_or_update_preview preview_color target_revision target_image)
    validate_preview_health config preview_color
    pure active_deployment.revision_id

  -- The body of the outer `try` of `deploy`, for the active color, and the whole of it.
  unfoldable pub rollout_from : BlueGreenConfig → ℕ → ℕ → DeploymentColor → Run DeploymentResult
  rollout_from config target_revision target_image active_color = do
    previous_revision ← prepare config target_revision target_image active_color
    switch config target_revision previous_revision active_color

  unfoldable pub rollout : BlueGreenConfig → ℕ → ℕ → Run DeploymentResult
  rollout config target_revision target_image = do
    active_color ← ask get_active_color client.active
    rollout_from config target_revision target_image active_color

  unfoldable pub deploy : BlueGreenConfig → ℕ → ℕ → Run DeploymentResult
  deploy config target_revision target_image = do
    acquire_lock
    finally (rollout config target_revision target_image) (act client unlock_deployment)

  -- What `abort` does about the preview, if there is one.
  unfoldable pub clean_up_preview : DeploymentColor → Option DeploymentColor → Run (Unit {0})
  clean_up_preview active_color none = pure tt
  clean_up_preview active_color (some preview_color) = do
    when (is_same active_color preview_color) (act client (route_traffic (opposite preview_color)))
    act client (delete_preview preview_color)

  -- The body of `abort`.
  unfoldable pub clean_up : Run (Unit {0})
  clean_up = do
    active_color ← ask get_active_color client.active
    preview_color ← ask get_preview_color client.preview
    clean_up_preview active_color preview_color

  unfoldable pub abort : Run (Unit {0})
  abort = finally clean_up (act client unlock_deployment)
