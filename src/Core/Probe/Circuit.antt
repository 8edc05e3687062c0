-- ===== src/Core/Probe/Circuit.antt =====
-- The circuit breaker of the health probe.
use devops_lab.Prelude.{ℕ, ◌+◌, ◌≤◌, ◌<◌, ◌≡◌, Bool, true, false, arith}
use devops_lab.Core.Probe.{Probe, HealthResponse, status_ok, status_other, threw, probe_session}

abbrev pub is_failure : HealthResponse → Bool
is_failure (status_ok alive) = false
is_failure status_other = true
is_failure threw = true

-- A failed probe after two failures opens the circuit: for fifteen seconds every further probe
-- asks nobody, changes nothing and takes the session for dead, whatever the router would answer.
probe_session-opens :
    (now later next after : ℕ) (r r' : HealthResponse) (p : Probe)
    → is_failure r ≡ true
    → 2 ≤ p.consecutive_failures
    → p.circuit_open_until ≤ now
    → next < later + 15000
    → let p' = (probe_session now later r p).0 in probe_session next after r' p' ≡ (p', false)
unfolding probe_session
probe_session-opens now later next after (status_ok alive) r' p bad two closed soon = cc
probe_session-opens now later next after status_other r' p bad two closed soon = ground arith
probe_session-opens now later next after threw r' p bad two closed soon = ground arith
