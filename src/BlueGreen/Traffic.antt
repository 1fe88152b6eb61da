-- ===== src/BlueGreen/Traffic.antt =====
-- Where `deploy` leaves the traffic, and its lock.
use nexus_smarttrading.Prelude.{
  ℕ, ◌+◌, ◌-◌, ◌≡◌, refl, ◌∙◌, ◌⊎◌, inl, inr, Bool, true, false, Option, some, none, [], ◌∷◌, ltb,
  leb, zero, suc, arith, Bool-cases,
}
use nexus_smarttrading.BlueGreen.Client.{
  DeploymentColor, opposite, BlueGreenConfig, DeploymentResult, already_in_progress,
  is_deployment_locked, lock_deployment, unlock_deployment, get_active_color,
  get_in_flight_requests, monotonic, get_deployment, create_or_update_preview, route_traffic, sleep,
  Client, Run, pure, throw, ◌>>◌, act, when, done, failed, Outcome, Trace, Answer, returns, fails,
  Event, continue, answered, finish,
}
use nexus_smarttrading.BlueGreen.Manager.{
  acquire_lock, poll_health, validate_preview_health, poll_interval, drain_loop,
  drain_in_flight_requests, retire, rollout, rollout_from, prepare, switch, deploy,
}

-- The color of the last routing of the traffic.
abbrev pub routed : Trace → Option DeploymentColor
routed [] = none
routed (route_traffic color ∷ t) = some color
routed (_ ∷ t) = routed t

abbrev pub calls : {A : Type 0} → Outcome A → Trace
calls (done a t) = t
calls (failed e t) = t

-- The routing is left alone.
abbrev Keeps : {A : Type 0} → Run A → Type 0
Keeps m = (t : Trace) → routed (calls (m t)) ≡ routed t

pub poll_interval-pos : (config : BlueGreenConfig) → ltb 0 (poll_interval config) ≡ true
unfolding poll_interval
poll_interval-pos config = ground arith

-- A question that is not a routing, and then what keeps the routing.
answered-Keeps :
    {A B : Type 0} (e : Event) (a : Answer A) (k : A → Run B) (t : Trace)
    → routed (e ∷ t) ≡ routed t
    → ((a : A) → Keeps (k a))
    → routed (calls (continue (answered e a t) k)) ≡ routed t
answered-Keeps e (returns a) k t same h = h a (e ∷ t) ∙ same
answered-Keeps e fails k t same h = same

-- The traffic after `deploy`, given the routing before and what the client answered for the
-- active color: the other color after a success, the old routing or the active color after an
-- exception.
abbrev pub Settles :
    Option DeploymentColor → Answer DeploymentColor → Outcome DeploymentResult → Type 0
Settles before old (done r t) =
    (c : DeploymentColor) × (old ≡ returns c)
    × (r.active_color ≡ opposite c)
    × (routed t ≡ some (opposite c))
Settles before old (failed e t) =
    (routed t ≡ before) ⊎ ((c : DeploymentColor) × (old ≡ returns c) × (routed t ≡ some c))

Settles-bind :
    {A : Type 0} (before : Option DeploymentColor) (old : Answer DeploymentColor) (o : Outcome A)
    (k : A → Run DeploymentResult)
    → routed (calls o) ≡ before
    → ((a : A) (t : Trace) → routed t ≡ before → Settles before old (k a t))
    → Settles before old (continue o k)
Settles-bind before old (done a t) k e h = h a t e
Settles-bind before old (failed error t) k e h = inl e

module _ (client : Client) where
  poll_health-Keeps :
      (config : BlueGreenConfig) (color : DeploymentColor) (n : ℕ)
      → Keeps (poll_health client config color n)
  unfolding poll_health
  poll_health-Keeps config color zero t = refl
  poll_health-Keeps config color (suc n) t = ground (
    arith,
    poll_health-Keeps config color n (get_deployment color ∷ t),
    poll_health-Keeps config color n
        (sleep config.health_check_interval_seconds ∷ get_deployment color ∷ t),
  )

  validate-Keeps :
      (config : BlueGreenConfig) (color : DeploymentColor)
      → Keeps (validate_preview_health client config color)
  unfolding validate_preview_health
  validate-Keeps config color t =
      ground (arith, poll_health-Keeps config color config.max_health_retry_attempts t)

  drain_loop-Keeps :
      (config : BlueGreenConfig) (start fuel n : ℕ) → Keeps (drain_loop client config start fuel n)
  unfolding drain_loop
  drain_loop-Keeps config start fuel zero t = refl
  drain_loop-Keeps config start zero (suc n) t = refl
  drain_loop-Keeps config start (suc fuel) (suc n) t =
      elim (Bool-cases (leb config.drain_timeout_seconds (client.clock t - start))) [
        | inl late ↦ rw late refl
        | inr early ↦
            rw (early, poll_interval-pos config)
              (answered-Keeps get_in_flight_requests
                (client.in_flight (sleep (poll_interval config) ∷ monotonic ∷ t))
                (drain_loop client config start fuel) (sleep (poll_interval config) ∷ monotonic ∷ t)
                refl (drain_loop-Keeps config start fuel))
      ]

  drain-Keeps : (config : BlueGreenConfig) → Keeps (drain_in_flight_requests client config)
  unfolding drain_in_flight_requests
  drain-Keeps config t = answered-Keeps get_in_flight_requests (client.in_flight t) _ t refl (λ n u.
      ground (
        arith,
        drain_loop-Keeps config (client.clock u) (config.drain_timeout_seconds + 1) n
            (monotonic ∷ u),
      ))

  prepare-Keeps :
      (config : BlueGreenConfig) (revision image : ℕ) (c : DeploymentColor)
      → Keeps (prepare client config revision image c)
  unfolding prepare
  prepare-Keeps config revision image c t =
      answered-Keeps (get_deployment c) (client.deployment c t) _ t refl (λ d u. ground (
        arith,
        validate-Keeps config (opposite c)
            (create_or_update_preview (opposite c) revision image ∷ u),
      ))

  -- The calls of `acquire_lock`.
  abbrev Acquires : Trace → Outcome (Unit {0}) → Type 0
  Acquires t (done u v) = v ≡ lock_deployment ∷ is_deployment_locked ∷ t
  Acquires t (failed e v) = routed v ≡ routed t

  acquired :
      (a : Answer Bool) (t : Trace)
      → (Unit {0} → Acquires t (act client lock_deployment (is_deployment_locked ∷ t)))
      → Acquires t (
          continue
            (answered is_deployment_locked a t)
            (λ locked. when locked (throw already_in_progress) >> act client lock_deployment))
  acquired (returns true) t h = refl
  acquired (returns false) t h = h tt
  acquired fails t h = refl

  acquire_lock-Acquires : (t : Trace) → Acquires t (acquire_lock client t)
  unfolding acquire_lock
  acquire_lock-Acquires t = acquired (client.locked t) t (λ u.
      elim (Bool-cases (client.acts lock_deployment (is_deployment_locked ∷ t))) [
        | inl granted ↦ rw granted refl
        | inr refused ↦ rw refused refl
      ])

  module _
      (routes : (t : Trace) (c : DeploymentColor) → client.acts (route_traffic c) t ≡ true) where
    -- Where the traffic is after `retire`, when it was at `d` before and the rollback is to `c`.
    abbrev Retires : DeploymentColor → DeploymentColor → Outcome ℕ → Type 0
    Retires c d (done n t) = routed t ≡ some d
    Retires c d (failed e t) = routed t ≡ some c

    retire-Retires :
        (config : BlueGreenConfig) (c d : DeploymentColor) (t : Trace)
        → routed t ≡ some d
        → Retires c d (retire client config c t)
    unfolding retire
    retire-Retires config c d t e = ground (arith, e, drain-Keeps config t, routes)

    after_retire :
        (before : Option DeploymentColor) (old : Answer DeploymentColor) (c : DeploymentColor)
        (o : Outcome ℕ) (k : ℕ → DeploymentResult)
        → old ≡ returns c
        → ((n : ℕ) → (k n).active_color ≡ opposite c)
        → Retires c (opposite c) o
        → Settles before old (continue o (λ n. pure (k n)))
    after_retire before old c (done n t) k e h r = (c, e, h n, r)
    after_retire before old c (failed error t) k e h r = inr (c, e, r)

    switch-Settles :
        (config : BlueGreenConfig) (revision previous : ℕ) (before : Option DeploymentColor)
        (old : Answer DeploymentColor) (c : DeploymentColor) (t : Trace)
        → old ≡ returns c
        → Settles before old (switch client config revision previous c t)
    unfolding switch
    switch-Settles config revision previous before old c t e = rw (routes t (opposite c)) (
        after_retire before old c (retire client config c (route_traffic (opposite c) ∷ t)) _ e
          (λ n. refl) (retire-Retires config c (opposite c) (route_traffic (opposite c) ∷ t) refl))

    answered-Settles :
        (old : Answer DeploymentColor) (t : Trace) (k : DeploymentColor → Run DeploymentResult)
        → ((c : DeploymentColor) (u : Trace)
            → old ≡ returns c
            → routed u ≡ routed t
            → Settles (routed t) old (k c u))
        → Settles (routed t) old (continue (answered get_active_color old t) k)
    answered-Settles (returns c) t k h = h c (get_active_color ∷ t) refl refl
    answered-Settles fails t k h = inl refl

    rollout-Settles :
        (config : BlueGreenConfig) (revision image : ℕ) (t : Trace)
        → Settles (routed t) (client.active t) (rollout client config revision image t)
    unfolding rollout rollout_from
    rollout-Settles config revision image t =
        answered-Settles (client.active t) t (rollout_from client config revision image)
          (λ c u e same.
            Settles-bind (routed t) (client.active t) (prepare client config revision image c u) _
              (prepare-Keeps config revision image c u ∙ same)
              (λ p v r. switch-Settles config revision p (routed t) (client.active t) c v e))

    finish-Settles :
        (before : Option DeploymentColor) (old : Answer DeploymentColor)
        (o : Outcome DeploymentResult)
        → ((t : Trace) → client.acts unlock_deployment t ≡ true)
        → Settles before old o
        → Settles before old (finish o (act client unlock_deployment))
    finish-Settles before old (done r t) unlocks s = rw (unlocks t) s
    finish-Settles before old (failed e t) unlocks s = rw (unlocks t) s

    after_acquire :
        (old : Answer DeploymentColor) (t : Trace) (o : Outcome (Unit {0}))
        (k : Run DeploymentResult)
        → Acquires t o
        → Settles (routed t) old (k (lock_deployment ∷ is_deployment_locked ∷ t))
        → Settles (routed t) old (continue o (λ u. k))
    after_acquire old t (done u v) k e s = rw e s
    after_acquire old t (failed error v) k e s = inl e

    -- With a client that routes and unlocks as asked, `deploy` leaves the traffic at the other color
    -- when it returns, which is the color it reports; when it raises, it leaves the traffic where it
    -- was last routed before, or has routed it back to the color that was active.
    pub deploy-Settles :
        (config : BlueGreenConfig) (revision image : ℕ) (t : Trace)
        → ((t : Trace) → client.acts unlock_deployment t ≡ true)
        → Settles
            (routed t)
            (client.active (lock_deployment ∷ is_deployment_locked ∷ t))
            (deploy client config revision image t)
    unfolding deploy acquire_lock
    deploy-Settles config revision image t unlocks =
        after_acquire (client.active (lock_deployment ∷ is_deployment_locked ∷ t)) t
          (acquire_lock client t) _ (acquire_lock-Acquires t)
          (finish-Settles (routed t) _ _ unlocks
            (rollout-Settles config revision image (lock_deployment ∷ is_deployment_locked ∷ t)))
