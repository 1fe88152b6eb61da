-- ===== src/BlueGreen/Client.antt =====
-- gitops/models.py, and the calls that leave the manager: those of `GitOpsClientProtocol`, and the
-- sleeps and the clock of the `time` module. What a call answers is any function of the calls made
-- before it. Counts and times are whole numbers, the times of one small unit.
use nexus_smarttrading.Prelude.{ℕ, Bool, true, false, Option, List, ◌∷◌, if◌then◌else◌}

pub data DeploymentColor : Type 0 where
  blue green : DeploymentColor

unfoldable pub opposite : DeploymentColor → DeploymentColor
opposite blue = green
opposite green = blue

pub data DeploymentHealthStatus : Type 0 where
  healthy progressing degraded suspended missing unknown : DeploymentHealthStatus

pub record BlueGreenConfig : Type 0 where
  pub app_name : ℕ
  pub active_service_name : ℕ
  pub scale_down_delay_seconds : ℕ
  pub max_health_retry_attempts : ℕ
  pub health_check_interval_seconds : ℕ
  pub drain_timeout_seconds : ℕ
  pub drain_poll_interval_seconds : ℕ

pub record DeploymentRevision : Type 0 where
  pub revision_id : ℕ
  pub color : DeploymentColor
  pub image : ℕ
  pub replicas : ℕ
  pub health_status : DeploymentHealthStatus

unfoldable pub is_healthy : DeploymentRevision → Bool
is_healthy d = elim d.health_status [ healthy ↦ true | _ ↦ false ]

pub record DeploymentResult : Type 0 where
  pub success : Bool
  pub active_color : DeploymentColor
  pub active_revision : ℕ
  pub previous_revision : Option ℕ
  pub drained_in_flight_requests : ℕ

-- The exceptions of the manager, those of the client, and the end of a model's fuel.
pub data Failure : Type 0 where
  active_unhealthy preview_failed already_in_progress drain_timeout value_error client_error
        out_of_fuel :
      Failure

-- A call that leaves the manager.
pub data Event : Type 0 where
  is_deployment_locked lock_deployment unlock_deployment get_active_color get_preview_color
        get_in_flight_requests monotonic :
      Event
  get_deployment : DeploymentColor → Event
  create_or_update_preview : DeploymentColor → ℕ → ℕ → Event
  route_traffic scale_down delete_preview : DeploymentColor → Event
  sleep : ℕ → Event

-- The calls made so far, the last one first.
abbrev pub Trace : Type 0
Trace = List Event

pub data Answer (A : Type 0) : Type 0 where
  returns : A → Answer A
  fails : Answer A

-- The answers, given the calls before.
pub record Client : Type 0 where
  pub locked : Trace → Answer Bool
  pub active : Trace → Answer DeploymentColor
  pub preview : Trace → Answer (Option DeploymentColor)
  pub deployment : DeploymentColor → Trace → Answer DeploymentRevision
  pub in_flight : Trace → Answer ℕ
  pub clock : Trace → ℕ
  pub acts : Event → Trace → Bool

-- What a body of the manager ends with, and the calls made until then.
pub data Outcome (A : Type 0) : Type 0 where
  done : A → Trace → Outcome A
  failed : Failure → Trace → Outcome A

abbrev pub Run : Type 0 → Type 0
Run A = Trace → Outcome A

abbrev pub pure : {A : Type 0} → A → Run A
pure a t = done a t

abbrev pub throw : {A : Type 0} → Failure → Run A
throw e t = failed e t

abbrev pub continue : {A B : Type 0} → Outcome A → (A → Run B) → Outcome B
continue (done a t) k = k a t
continue (failed e t) k = failed e t

infixl 5 ◌>>=◌ ◌>>◌
abbrev pub ◌>>=◌ : {A B : Type 0} → Run A → (A → Run B) → Run B
(m >>= k) t = continue (m t) k

abbrev pub ◌>>◌ : {B : Type 0} → Run (Unit {0}) → Run B → Run B
(m >> k) t = continue (m t) (λ _. k)

-- `if b: m  else: k`, and `if b: m`.
abbrev pub branch : {A : Type 0} → Bool → Run A → Run A → Run A
branch b m k t = if b then m t else k t

abbrev pub when : Bool → Run (Unit {0}) → Run (Unit {0})
when b m t = if b then m t else done tt t

-- `try: m  except Exception: h; raise`
abbrev pub on_error : {A : Type 0} → Run A → Run (Unit {0}) → Run A
on_error m h t = elim (m t) [
  | done a t' ↦ done a t'
  | failed e t' ↦ elim (h t') [ done u t'' ↦ failed e t'' | failed e' t'' ↦ failed e' t'' ]
]

-- `try: m  finally: h`
abbrev pub finish : {A : Type 0} → Outcome A → Run (Unit {0}) → Outcome A
finish (done a t) h = continue (h t) (λ _ u. done a u)
finish (failed e t) h = continue (h t) (λ _ u. failed e u)

abbrev pub finally : {A : Type 0} → Run A → Run (Unit {0}) → Run A
finally m h t = finish (m t) h

-- A call that asks for something, and one that changes something.
abbrev pub answered : {A : Type 0} → Event → Answer A → Trace → Outcome A
answered e (returns a) t = done a (e ∷ t)
answered e fails t = failed client_error (e ∷ t)

abbrev pub ask : {A : Type 0} → Event → (Trace → Answer A) → Run A
ask e f t = answered e (f t) t

abbrev pub act : Client → Event → Run (Unit {0})
act c e t = if c.acts e t then done tt (e ∷ t) else failed client_error (e ∷ t)

abbrev pub rest : ℕ → Run (Unit {0})
rest d t = done tt (sleep d ∷ t)
