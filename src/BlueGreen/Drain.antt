-- ===== src/BlueGreen/Drain.antt =====
-- The wait for the requests in flight ends.
use nexus_smarttrading.Prelude.{
  ℕ, ◌+◌, ◌-◌, ◌≤◌, ◌<◌, ◌≡◌, refl, Bool, true, false, ◌∷◌, zero, suc, leb, arith, Bool-cases, inl,
  inr, ltb→lt,
}
use nexus_smarttrading.BlueGreen.Client.{
  BlueGreenConfig, out_of_fuel, get_in_flight_requests, monotonic, sleep, Event, Client, Answer,
  returns, fails, Run, pure, done, failed, continue, answered, Outcome, Trace,
}
use nexus_smarttrading.BlueGreen.Manager.{poll_interval, drain_loop, drain_in_flight_requests}
use nexus_smarttrading.BlueGreen.Traffic.{poll_interval-pos}

abbrev pub ran_out : {A : Type 0} → Outcome A → Bool
ran_out (failed out_of_fuel t) = true
ran_out _ = false

module _ (client : Client)
    (forward : (e : Event) (t : Trace) → client.clock t ≤ client.clock (e ∷ t))
    (slept : (d : ℕ) (t : Trace) → client.clock t + d ≤ client.clock (sleep d ∷ t)) where
  asked-ran_out :
      {B : Type 0} (a : Answer ℕ) (t : Trace) (k : ℕ → Run B)
      → ((n : ℕ) → ran_out (k n (get_in_flight_requests ∷ t)) ≡ false)
      → ran_out (continue (answered get_in_flight_requests a t) k) ≡ false
  asked-ran_out (returns n) t k h = h n
  asked-ran_out fails t k h = refl

  -- One turn of the loop moves the clock.
  later :
      (config : BlueGreenConfig) (start fuel : ℕ) (t : Trace)
      → leb config.drain_timeout_seconds (client.clock t - start) ≡ false
      → start + config.drain_timeout_seconds < client.clock t + suc fuel
      → start + config.drain_timeout_seconds
        < client.clock (get_in_flight_requests ∷ sleep (poll_interval config) ∷ monotonic ∷ t)
          + fuel
  later config start fuel t early h =
      let waited = sleep (poll_interval config) ∷ monotonic ∷ t in
      let a = forward monotonic t in
      let b = slept (poll_interval config) (monotonic ∷ t) in
      let c = forward get_in_flight_requests waited in
      let p = ltb→lt 0 (poll_interval config) (poll_interval-pos config) in omega arith

  drain_loop-ran_out :
      (config : BlueGreenConfig) (start fuel n : ℕ) (t : Trace)
      → 0 < fuel
      → start + config.drain_timeout_seconds < client.clock t + fuel
      → ran_out (drain_loop client config start fuel n t) ≡ false
  unfolding drain_loop
  drain_loop-ran_out config start fuel zero t p h = refl
  drain_loop-ran_out config start zero (suc n) t p h = ground (arith, p)
  drain_loop-ran_out config start (suc fuel) (suc n) t p h =
      elim (Bool-cases (leb config.drain_timeout_seconds (client.clock t - start))) [
        | inl late ↦ rw late refl
        | inr early ↦
            let u = sleep (poll_interval config) ∷ monotonic ∷ t in
            rw (early, poll_interval-pos config)
              (asked-ran_out (client.in_flight u) u (drain_loop client config start fuel) (λ k.
                drain_loop-ran_out config start fuel k (get_in_flight_requests ∷ u)
                  (ground (arith, early, h)) (later config start fuel t early h)))
      ]

  then_pure :
      (n : ℕ) (o : Outcome (Unit {0}))
      → ran_out o ≡ false
      → ran_out (continue o (λ u. pure n)) ≡ false
  then_pure n (done u t) h = refl
  then_pure n (failed out_of_fuel t) h = h
  then_pure n (failed e t) h = h

  -- With a clock that does not go back and that a sleep moves on by its length, the wait for the
  -- requests in flight ends, whatever the client answers: the fuel of one turn for each unit of the
  -- timeout, and one more, is enough.
  pub drain-ran_out :
      (config : BlueGreenConfig) (t : Trace)
      → ran_out (drain_in_flight_requests client config t) ≡ false
  unfolding drain_in_flight_requests
  drain-ran_out config t = asked-ran_out (client.in_flight t) t _ (λ n.
      then_pure n
        (drain_loop client config (client.clock (get_in_flight_requests ∷ t))
          (config.drain_timeout_seconds + 1) n (monotonic ∷ get_in_flight_requests ∷ t))
        (drain_loop-ran_out config (client.clock (get_in_flight_requests ∷ t))
          (config.drain_timeout_seconds + 1) n (monotonic ∷ get_in_flight_requests ∷ t)
          (omega arith) (let a = forward monotonic (get_in_flight_requests ∷ t) in omega arith)))
