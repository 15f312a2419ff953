-- ===== src/Replication/Health.antt =====
-- crates/save-storage/src/replication/health.rs. The answer to a health check: none if the call
-- timed out, else an error or the status of the response (an `i32`, by its 32 bits).
use save.Prelude.{
  ℕ, ◌≡◌, refl, arith, Option, none, some, Bool, true, false, ◌||◌, ◌==◌, if◌then◌else◌,
}
use save.Prelude.Result.{Result, ok, err}

abbrev pub healthy_status : ℕ
healthy_status = 0

abbrev pub degraded_status : ℕ
degraded_status = 1

pub data HealthStatus : Type 0 where
  healthy degraded unhealthy : HealthStatus

unfoldable pub from_proto : ℕ → HealthStatus
from_proto status =
    if status == healthy_status
    then healthy
    else if status == degraded_status
    then degraded
    else unhealthy

unfoldable pub is_available : HealthStatus → Bool
is_available healthy = true
is_available degraded = true
is_available unhealthy = false

pub data CheckError (E : Type 0) : Type 0 where
  failed : E → CheckError E
  timeout : CheckError E

pub record HealthCheckResult (E : Type 0) : Type 0 where
  pub node_id : ℕ
  pub status : HealthStatus
  pub error : Option (CheckError E)

module _ {E : Type 0} where
  unfoldable pub is_healthy : Option (Result E ℕ) → Bool
  is_healthy (some (ok status)) = status == healthy_status || status == degraded_status
  is_healthy (some (err e)) = false
  is_healthy none = false

  unfoldable pub check : ℕ → Option (Result E ℕ) → HealthCheckResult E
  unfolding from_proto
  check node_id (some (ok status)) = record {
    node_id = node_id;
    status = from_proto status;
    error = none;
  }
  check node_id (some (err e)) = record {
    node_id = node_id;
    status = unhealthy;
    error = some (failed e);
  }
  check node_id none = record { node_id = node_id; status = unhealthy; error = some timeout }

  -- The short test and the detailed one agree on whether a node can take requests.
  pub is_healthy-check :
      (node_id : ℕ) (answer : Option (Result E ℕ))
      → is_healthy answer ≡ is_available (check node_id answer).status
  unfolding is_healthy check is_available
  is_healthy-check node_id (some (ok status)) = ground arith
  is_healthy-check node_id (some (err e)) = refl
  is_healthy-check node_id none = refl
