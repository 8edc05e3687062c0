-- ===== src/Core/Probe.antt =====
-- services/core/src/modules/challenge/challenge.routes.ts: the circuit breaker around the health
-- probe of the sandbox router, and the probe of an existing session.
pub mod Circuit
use devops_lab.Prelude.{ℕ, ◌+◌, Bool, false, ltb, leb, if◌then◌else◌}

pub record Probe : Type 0 where
  pub circuit_open_until : ℕ
  pub consecutive_failures : ℕ

abbrev pub probe_failure_threshold : ℕ
probe_failure_threshold = 3

abbrev pub circuit_cooldown_ms : ℕ
circuit_cooldown_ms = 15000

-- What the request to the router gives: status 200 with the field `alive` of its body, another
-- status, or a fetch (or a body) that throws.
pub data HealthResponse : Type 0 where
  status_ok : Bool → HealthResponse
  status_other : HealthResponse
  threw : HealthResponse

abbrev pub count_response : HealthResponse → ℕ → ℕ
count_response (status_ok alive) failures = 0
count_response status_other failures = failures + 1
count_response threw failures = failures + 1

abbrev pub is_alive : HealthResponse → Bool
is_alive (status_ok alive) = alive
is_alive status_other = false
is_alive threw = false

-- `now` is read before the request and `later` after it.
unfoldable pub probe_session : ℕ → ℕ → HealthResponse → Probe → Probe × Bool
probe_session now later response p =
    let failures = count_response response p.consecutive_failures in
    if ltb now p.circuit_open_until then (p, false) else (
      record {
        circuit_open_until =
            if leb probe_failure_threshold failures
            then later + circuit_cooldown_ms
            else p.circuit_open_until;
        consecutive_failures = failures;
      },
      is_alive response,
    )
